-- ===== src/Auth.antt =====
-- Accounts and sessions on the in-memory store: server/src/transport/http/auth.rs. Argon2, SHA-256 and
-- the signature of the access token are parameters; cookies are left out.
pub mod Email
pub mod Validation
pub mod Sessions
pub mod Rotation
pub mod Registration
pub mod History
pub mod Replay
use ledgerly.Prelude.{
  ℕ, ◌^◌, String, Bool, true, false, not, ◌||◌, Option, none, some, ◌==◌, string_eq, if◌then◌else◌,
  Result, ok, err,
}
use ledgerly.Prelude.Int.{ℤ, pos, residue, add_i64}
use ledgerly.Prelude.Dict.{lookup, contains, insert, erase}
use ledgerly.ApiError.{ApiError, api_error}
use ledgerly.Authz.{Claims, user_plan}
use ledgerly.Audit.{
  AuditEvent, Recorder, note_event, user_event, anonymous_event, with_reason, with_request,
  with_target, success, failure,
}
use ledgerly.Contracts.{RegisterRequest, LoginRequest, SessionMode, TokenResponse}
use ledgerly.State.{MemoryStore, UserRecord, SessionRecord}
use ledgerly.State.Defaults.{ensure_demo_book}
use ledgerly.Auth.Validation.{validate_registration, validate_login, uses_cookie_session}

-- What the handlers use of the crates `argon2`, `sha2` and `jsonwebtoken`.
pub record Crypto : Type 0 where
  -- The salt first; `none` is a failure.
  pub hash_password : String → String → Option String
  -- The password, then the stored hash.
  pub verify_password : String → String → Bool
  pub hash_token : String → String
  pub sign : Claims → Option String

-- What issuing a session draws: two UUIDs, a random token, and the clock in seconds.
pub record Draws : Type 0 where
  pub session_id : String
  pub book_id : String
  pub refresh : String
  pub timestamp : ℤ

abbrev pub invalid_credentials : ApiError
invalid_credentials = api_error 401 "INVALID_CREDENTIALS" "bad login"

abbrev pub invalid_refresh : ApiError
invalid_refresh = api_error 401 "INVALID_REFRESH" "refresh invalid"

abbrev pub refresh_reuse : ApiError
refresh_reuse = api_error 401 "REFRESH_REUSE" "refresh reuse detected"

-- `(timestamp + 900) as usize`
abbrev pub expiry : ℤ → ℕ
expiry timestamp = residue (2 ^ 64) (add_i64 timestamp (pos 900))

abbrev pub claims_for : String → String → Draws → Claims
claims_for user_id device_id d = record {
  sub = user_id;
  session_id = d.session_id;
  device_id = device_id;
  token_version = pos 1;
  exp = expiry d.timestamp;
}

abbrev pub signed : String → Option String → Result TokenResponse ApiError
signed refresh none = err (api_error 500 "TOKEN_ENCODING_FAILED" "failed to issue access token")
signed refresh (some access) = ok (record {
  access_token = access;
  refresh_token = some refresh;
  token_type = "Bearer";
  expires_in = 900;
  book_id = none;
  plan = none;
})

-- `verify_password(..)?`
abbrev pub check_password : Bool → Result (Unit {0}) ApiError
check_password true = ok tt
check_password false = err invalid_credentials

abbrev pub new_session : Crypto → String → String → Draws → SessionRecord
new_session c user_id device_id d = record {
  id = d.session_id;
  user_id = user_id;
  device_id = device_id;
  refresh_hash = c.hash_token d.refresh;
  revoked = false;
}

abbrev pub revoke : SessionRecord → SessionRecord
revoke session = record session { revoked = true }

module _ {T : Type 0} where
  -- The write of `logout`.
  unfoldable pub close_session : MemoryStore T → String → MemoryStore T
  close_session s session_id = elim (lookup session_id s.sessions) [
    | none ↦ s
    | some session ↦ record s { sessions = insert session_id (revoke session) s.sessions }
  ]

  -- `logout` without a database
  unfoldable pub logout : Recorder T → MemoryStore T → String → String → MemoryStore T
  unfolding close_session
  logout a s user_id session_id =
      note_event a (close_session s session_id)
        (with_request a (user_event user_id "auth.logout" success))

  -- The user of an address.
  unfoldable pub user_by_email : MemoryStore T → String → Option UserRecord
  user_by_email s email = elim (lookup email s.users_by_email) [
    | none ↦ none
    | some id ↦ lookup id s.users
  ]

module _ {T : Type 0} (a : Recorder T) where
  -- The event of an attempt that fails.
  abbrev pub failed_attempt : String → String → AuditEvent
  failed_attempt action reason =
      with_reason reason (with_request a (anonymous_event action failure))

  -- The lookup of the session in `rotate_refresh_token`, once the token has been taken out.
  unfoldable pub claim_session :
      MemoryStore T
      → String
      → String
      → Option SessionRecord
      → Result SessionRecord ApiError × MemoryStore T
  claim_session s hash session_id none = (err invalid_refresh, s)
  claim_session s hash session_id (some session) =
      let s' = record s { sessions = insert session_id (revoke session) s.sessions } in
      if session.revoked || not (session.refresh_hash == hash)
      then (
        err refresh_reuse,
        note_event a s' (
            with_reason "refresh_reuse"
              (with_request a (user_event session.user_id "auth.refresh" failure))),
      )
      else (ok session, s')

  -- The part of `rotate_refresh_token` under the write lock, with the event of a refusal.
  unfoldable pub take_token : MemoryStore T → String → Result SessionRecord ApiError × MemoryStore T
  unfolding claim_session
  take_token s hash = elim (lookup hash s.refresh_to_session) [
    | none ↦ (err invalid_refresh, note_event a s (failed_attempt "auth.refresh" "invalid_refresh"))
    | some session_id ↦
        let s' = record s { refresh_to_session = erase hash s.refresh_to_session } in
        claim_session s' hash session_id (lookup session_id s'.sessions)
  ]

  -- The event behind a session that was started.
  abbrev pub note_session :
      String
      → String
      → Result TokenResponse ApiError × MemoryStore T
      → Result TokenResponse ApiError × MemoryStore T
  note_session user_id action (err e, s) = (err e, s)
  note_session user_id action (ok tokens, s) = (
    ok tokens,
    note_event a s
        (with_request a (with_target "user" user_id (user_event user_id action success))),
  )

module _ (c : Crypto) where
  -- `build_token_response`
  unfoldable pub build_token_response : String → String → Draws → Result TokenResponse ApiError
  build_token_response user_id device_id d =
      signed d.refresh (c.sign (claims_for user_id device_id d))

module _ {T : Type 0} (c : Crypto) where
  -- The part of `issue_tokens` under the write lock.
  unfoldable pub open_session : MemoryStore T → String → String → Draws → MemoryStore T
  open_session s user_id device_id d = record s {
    sessions = insert d.session_id (new_session c user_id device_id d) s.sessions;
    refresh_to_session = insert (c.hash_token d.refresh) d.session_id s.refresh_to_session;
    subscriptions =
        if contains user_id s.subscriptions
        then s.subscriptions
        else insert user_id "free" s.subscriptions;
  }

  -- `issue_tokens`
  unfoldable pub issue_tokens :
      MemoryStore T → String → String → Draws → Result TokenResponse ApiError × MemoryStore T
  unfolding build_token_response open_session
  issue_tokens s user_id device_id d = elim (build_token_response c user_id device_id d) [
    | err e ↦ (err e, s)
    | ok tokens ↦ (ok tokens, open_session s user_id device_id d)
  ]

  abbrev pub with_account :
      MemoryStore T
      → String
      → String
      → Result TokenResponse ApiError
      → Result TokenResponse ApiError
  with_account s user_id book_id (err e) = err e
  with_account s user_id book_id (ok tokens) =
      ok (record tokens { book_id = some book_id; plan = some (user_plan s user_id) })

  -- The book of the user, a new session, and the answer that names both.
  unfoldable pub start_session :
      MemoryStore T → String → String → Draws → Result TokenResponse ApiError × MemoryStore T
  unfolding issue_tokens
  start_session s user_id device_id d =
      let (book_id, s') = ensure_demo_book d.book_id user_id s in
      let (tokens, s'') = issue_tokens s' user_id device_id d in
      (with_account s'' user_id book_id tokens, s'')

module _ {T : Type 0} (c : Crypto) (a : Recorder T) where
  -- `register`; `id` is a new UUID.
  unfoldable pub register :
      MemoryStore T → String → String → RegisterRequest → Result String ApiError × MemoryStore T
  register s id salt req = elim (validate_registration req) [
    | err e ↦ (err e, s)
    | ok valid ↦ elim (c.hash_password salt valid.password) [
      | none ↦ (err (api_error 500 "PASSWORD_HASH_FAILED" "failed to secure password"), s)
      | some hash ↦
          if contains valid.email s.users_by_email
          then (
            err (api_error 409 "EMAIL_TAKEN" "email already registered"),
            note_event a s (failed_attempt a "auth.register" "email_taken"),
          )
          else (
            ok id,
            note_event a
                (record s {
                  users_by_email = insert valid.email id s.users_by_email;
                  users =
                      insert id
                        (record {
                          id = id;
                          email = valid.email;
                          password_hash = hash;
                          display_name = valid.display_name;
                        })
                        s.users;
                })
                (with_request a (with_target "user" id (user_event id "auth.register" success))),
          )
    ]
  ]

  -- `login` behind the two validations. In cookie mode the refresh token moves from the answer to a cookie.
  unfoldable pub login_valid :
      MemoryStore T → Draws → LoginRequest → Result TokenResponse ApiError × MemoryStore T
  unfolding start_session user_by_email
  login_valid s d req = elim (user_by_email s req.email) [
    | none ↦ (
      err invalid_credentials,
      note_event a s (failed_attempt a "auth.login" "invalid_credentials"),
    )
    | some user ↦ elim (check_password (c.verify_password req.password user.password_hash)) [
      | err e ↦ (err e, note_event a s (failed_attempt a "auth.login" "invalid_credentials"))
      | ok _ ↦ note_session a user.id "auth.login" (start_session c s user.id req.device_id d)
    ]
  ]

  -- `login`, before the cookie is set.
  unfoldable pub login :
      MemoryStore T → Draws → LoginRequest → Result TokenResponse ApiError × MemoryStore T
  unfolding login_valid
  login s d req = elim (validate_login req) [
    | err e ↦ (err e, s)
    | ok valid ↦ elim (uses_cookie_session valid.session_mode) [
      | err e ↦ (err e, s)
      | ok _ ↦ login_valid s d valid
    ]
  ]

  abbrev pub renew :
      Draws
      → Result SessionRecord ApiError × MemoryStore T
      → Result TokenResponse ApiError × MemoryStore T
  renew d (err e, s) = (err e, s)
  renew d (ok session, s) =
      note_session a session.user_id "auth.refresh"
        (start_session c s session.user_id session.device_id d)

  -- `rotate_refresh_token` without a database
  unfoldable pub rotate_refresh_token :
      MemoryStore T → String → Draws → Result TokenResponse ApiError × MemoryStore T
  unfolding take_token start_session
  rotate_refresh_token s hash d = renew d (take_token a s hash)
