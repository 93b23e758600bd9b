-- ===== src/Tests/Tokens.antt =====
-- A session that is renewed, and one that is closed.
use ledgerly.Prelude.{ℕ, ◌≡◌, refl, true, false, some, List, [], ◌∷◌, ok, err, text_ne, string_eq}
use ledgerly.Prelude.Int.{pos}
use ledgerly.Prelude.Dict.{lookup, insert, erase}
use ledgerly.Audit.{note_event, anonymous_event, failure, with_reason, with_request}
use ledgerly.Contracts.{TokenResponse}
use ledgerly.State.{MemoryStore, SessionRecord}
use ledgerly.State.Defaults.{ensure_demo_book}
use ledgerly.Authz.{Claims, user_plan, ensure_session_active}
use ledgerly.Auth.{
  Crypto, Draws, claims_for, invalid_refresh, build_token_response, issue_tokens, start_session,
  claim_session, take_token, rotate_refresh_token, logout,
}
use ledgerly.Auth.History.{Call, logs_out, refreshes, calls}
use ledgerly.Auth.Replay.{refresh_token-stays_used}
use ledgerly.Auth.Rotation.{session_revoked, refresh_token-hands_over, logout-ends}
use ledgerly.Text.{concat}
use ledgerly.Tests.{opened}
use ledgerly.Tests.Users.{recorder}

abbrev crypto : Crypto
crypto = record {
  hash_password = λ salt password. some (concat salt password);
  verify_password = λ password hash. true;
  hash_token = λ token. concat "h" token;
  sign = λ claims. some claims.session_id;
}

abbrev phone : SessionRecord
phone = record { id = "s1"; user_id = "u"; device_id = "d"; refresh_hash = "hr1"; revoked = false }

abbrev logged_in : MemoryStore ℕ
logged_in = record opened {
  sessions = ("s1", phone) ∷ [];
  refresh_to_session = ("hr1", "s1") ∷ [];
  subscriptions = ("u", "plus") ∷ [];
}

abbrev draws : Draws
draws = record { session_id = "s2"; book_id = "b2"; refresh = "r2"; timestamp = pos 100 }

abbrev old_claims : Claims
old_claims = record {
  sub = "u";
  session_id = "s1";
  device_id = "d";
  token_version = pos 1;
  exp = 900;
}

abbrev renewed : TokenResponse
renewed = record {
  access_token = "s2";
  refresh_token = some "r2";
  token_type = "Bearer";
  expires_in = 900;
  book_id = some "b";
  plan = some "plus";
}

refresh_runs : (rotate_refresh_token crypto recorder logged_in "hr1" draws).0 ≡ ok renewed
unfolding rotate_refresh_token take_token claim_session start_session issue_tokens
    build_token_response ensure_demo_book lookup erase insert user_plan
refresh_runs = refl

abbrev later_draws : Draws
later_draws = record { session_id = "s3"; book_id = "b3"; refresh = "r3"; timestamp = pos 200 }

abbrev later_calls : List (Call ℕ)
later_calls = logs_out recorder "u" "s2" ∷ refreshes recorder "hr2" later_draws ∷ []

refresh_token-stays_used_example :
    (rotate_refresh_token crypto recorder
        (calls crypto (rotate_refresh_token crypto recorder logged_in "hr1" draws).1 later_calls)
        "hr1"
        later_draws
      ≡ (
        err invalid_refresh,
        note_event recorder
            (calls crypto
              (rotate_refresh_token crypto recorder logged_in "hr1" draws).1
              later_calls)
            (with_reason "invalid_refresh"
              (with_request recorder (anonymous_event "auth.refresh" failure))),
      ))
    × (ensure_session_active
          (calls crypto (rotate_refresh_token crypto recorder logged_in "hr1" draws).1 later_calls)
          old_claims
        ≡ err session_revoked)
unfolding lookup
refresh_token-stays_used_example =
    refresh_token-stays_used crypto recorder recorder logged_in "hr1" "s1" draws later_draws renewed
      later_calls old_claims refl (text_ne refl, text_ne refl)
      (tt, ((text_ne refl, text_ne refl), tt)) refl refresh_runs

refresh_token-hands_over_example :
    (ensure_session_active (rotate_refresh_token crypto recorder logged_in "hr1" draws).1 old_claims
      ≡ err session_revoked)
    × (ensure_session_active
          (rotate_refresh_token crypto recorder logged_in "hr1" draws).1
          (claims_for "u" "d" draws)
        ≡ ok tt)
unfolding lookup
refresh_token-hands_over_example =
    refresh_token-hands_over crypto recorder logged_in "hr1" draws renewed "s1" phone old_claims
      refl refl (text_ne refl) refl refresh_runs

logout-ends_example :
    ensure_session_active (logout recorder logged_in "u" "s1") old_claims ≡ err session_revoked
logout-ends_example = logout-ends recorder logged_in "u" old_claims
