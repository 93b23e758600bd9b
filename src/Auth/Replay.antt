-- ===== src/Auth/Replay.antt =====
-- On a refresh token that was exchanged by `rotate_refresh_token` of
-- server/src/transport/http/auth.rs, and the session that it belonged to, whatever is called later.
use ledgerly.Prelude.{
  ◌≡◌, ◌∙◌, refl, sym, ap, String, some, eq_iff, string_eq, arith, ok, err, inl, inr, List, All,
}
use ledgerly.Prelude.Dict.{lookup, lookup-insert_self, lookup-insert_ne, lookup-erase}
use ledgerly.Audit.{Recorder, note_event, anonymous_event, failure, with_reason, with_request}
use ledgerly.Contracts.{TokenResponse}
use ledgerly.Authz.{Claims, ensure_session_active}
use ledgerly.State.{MemoryStore}
use ledgerly.Auth.{Crypto, Draws, invalid_refresh, revoke, rotate_refresh_token}
use ledgerly.Auth.Sessions.{unknown_token-refused}
use ledgerly.Auth.Rotation.{rotate_inv, session_revoked}
use ledgerly.Auth.History.{Call, calls, IsFresh, DrawsFresh, IsSpent, calls-IsSpent}

module _ {T : Type 0} (c : Crypto) where
  spent-closed :
      (hash id : String) (s : MemoryStore T) (claims : Claims)
      → claims.session_id ≡ id
      → IsSpent c hash id s
      → ensure_session_active s claims ≡ err session_revoked
  unfolding ensure_session_active
  spent-closed hash id s claims own is = elim is.closed [
    | inl missing ↦ rw (own, missing) refl
    | inr (x, found, over) ↦ rw (own, found, over) refl
  ]

  exchanged-IsSpent :
      (a : Recorder T) (s : MemoryStore T) (hash id : String) (d : Draws) (tokens : TokenResponse)
      → lookup hash s.refresh_to_session ≡ some id
      → IsFresh c hash id d
      → (rotate_refresh_token c a s hash d).0 ≡ ok tokens
      → IsSpent c hash id (rotate_refresh_token c a s hash d).1
  exchanged-IsSpent a s hash id d tokens token (other, own) h =
      let r = rotate_inv c a s hash d tokens h in
      let same : r.id ≡ id = ground (arith, sym r.token ∙ token) in
      record {
        no_token =
            ap (λ x. lookup hash x) r.tokens
            ∙ lookup-insert_ne (c.hash_token d.refresh) hash d.session_id _ other
            ∙ ground (arith, lookup-erase hash hash s.refresh_to_session, eq_iff hash hash);
        closed = inr (
          revoke r.session,
          rw (r.sessions, lookup-insert_ne d.session_id id _ _ own, same)
              (lookup-insert_self id (revoke r.session) s.sessions),
          refl,
        );
      }

  -- When a refresh token was exchanged, then after any calls of `register`, `login`,
  -- `rotate_refresh_token` and `logout`, by anyone: the token is still refused with `INVALID_REFRESH`, an
  -- attempt that changes nothing but the audit trail, which records it as a failure; and the access
  -- tokens of the session that it belonged to are refused. The exchange and the calls must draw no refresh
  -- token of the same hash and no session of the same id.
  pub refresh_token-stays_used :
      (a later : Recorder T) (s : MemoryStore T) (hash id : String) (d again : Draws)
      (tokens : TokenResponse) (xs : List (Call T)) (claims : Claims)
      → lookup hash s.refresh_to_session ≡ some id
      → IsFresh c hash id d
      → All (DrawsFresh c hash id) xs
      → claims.session_id ≡ id
      → (rotate_refresh_token c a s hash d).0 ≡ ok tokens
      → (rotate_refresh_token c later (calls c (rotate_refresh_token c a s hash d).1 xs) hash again
          ≡ (
            err invalid_refresh,
            note_event later (calls c (rotate_refresh_token c a s hash d).1 xs) (
                with_reason "invalid_refresh"
                  (with_request later (anonymous_event "auth.refresh" failure))),
          ))
        × (ensure_session_active (calls c (rotate_refresh_token c a s hash d).1 xs) claims
            ≡ err session_revoked)
  refresh_token-stays_used a later s hash id d again tokens xs claims token fresh draws own h =
      let spent =
        calls-IsSpent c hash id xs (rotate_refresh_token c a s hash d).1 draws
          (exchanged-IsSpent a s hash id d tokens token fresh h) in
      (
        unknown_token-refused c later _ hash again spent.no_token,
        spent-closed hash id _ claims own spent,
      )
