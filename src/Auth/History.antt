-- ===== src/Auth/History.antt =====
-- On the calls of server/src/transport/http/auth.rs that come after a refresh token was exchanged.
use ledgerly.Prelude.{
  ◌≡◌, ◌≢◌, ◌∙◌, ◌⊎◌, refl, ap, String, not, ◌||◌, none, some, ◌==◌, eq_iff, string_eq, arith, true,
  Result, ok, err, Result-cases, Bool-cases, Option-cases, inl, inr, List, [], ◌∷◌, All,
}
use ledgerly.Prelude.Dict.{
  lookup, insert, erase, contains, lookup-insert_self, lookup-insert_ne, lookup-erase,
}
use ledgerly.ApiError.{ApiError}
use ledgerly.Audit.{Recorder, note_event, record_memory}
use ledgerly.Contracts.{RegisterRequest, LoginRequest, TokenResponse}
use ledgerly.State.{MemoryStore, SessionRecord}
use ledgerly.Auth.{
  Crypto, Draws, revoke, start_session, claim_session, take_token, note_session,
  rotate_refresh_token, close_session, logout, register, login_valid, login, user_by_email, renew,
}
use ledgerly.Auth.Validation.{validate_registration, validate_login, uses_cookie_session}
use ledgerly.Auth.Sessions.{start_session-either}

-- A call of one of the handlers.
pub data Call (T : Type 0) : Type 0 where
  registers : Recorder T → String → String → RegisterRequest → Call T
  logs_in : Recorder T → Draws → LoginRequest → Call T
  refreshes : Recorder T → String → Draws → Call T
  logs_out : Recorder T → String → String → Call T

module _ (c : Crypto) where
  -- The draws do not repeat the hash of a token or the id of a session.
  abbrev pub IsFresh : String → String → Draws → Type 0
  IsFresh hash id d = (c.hash_token d.refresh ≢ hash) × (d.session_id ≢ id)

module _ {T : Type 0} (c : Crypto) where
  unfoldable pub call : MemoryStore T → Call T → MemoryStore T
  call s (registers a id salt req) = (register c a s id salt req).1
  call s (logs_in a d req) = (login c a s d req).1
  call s (refreshes a hash d) = (rotate_refresh_token c a s hash d).1
  call s (logs_out a user_id session_id) = logout a s user_id session_id

  unfoldable pub calls : MemoryStore T → List (Call T) → MemoryStore T
  unfolding call
  calls s [] = s
  calls s (x ∷ xs) = calls (call s x) xs

  abbrev pub DrawsFresh : String → String → Call T → Type 0
  DrawsFresh hash id (registers a user_id salt req) = Unit
  DrawsFresh hash id (logs_in a d req) = IsFresh c hash id d
  DrawsFresh hash id (refreshes a other d) = IsFresh c hash id d
  DrawsFresh hash id (logs_out a user_id session_id) = Unit

  -- The token leads nowhere, and the session is not open.
  pub record IsSpent (hash id : String) (s : MemoryStore T) : Type 0 where
    pub no_token : lookup hash s.refresh_to_session ≡ none
    pub closed :
        (lookup id s.sessions ≡ none)
        ⊎ ((x : SessionRecord) × (lookup id s.sessions ≡ some x) × (x.revoked ≡ true))

  module _ (hash id : String) where
    same-IsSpent :
        (s s' : MemoryStore T)
        → s'.sessions ≡ s.sessions
        → s'.refresh_to_session ≡ s.refresh_to_session
        → IsSpent hash id s
        → IsSpent hash id s'
    same-IsSpent s s' sessions tokens is = record {
      no_token = rw tokens is.no_token;
      closed = rw sessions is.closed;
    }

    opened-IsSpent :
        (s s' : MemoryStore T) (d : Draws) (x : SessionRecord)
        → s'.sessions ≡ insert d.session_id x s.sessions
        → s'.refresh_to_session ≡ insert (c.hash_token d.refresh) d.session_id s.refresh_to_session
        → IsFresh c hash id d
        → IsSpent hash id s
        → IsSpent hash id s'
    opened-IsSpent s s' d x sessions tokens (other, own) is = record {
      no_token =
          rw (tokens, lookup-insert_ne _ hash d.session_id s.refresh_to_session other) is.no_token;
      closed = rw (sessions, lookup-insert_ne _ id x s.sessions own) is.closed;
    }

    revoked-IsSpent :
        (s s' : MemoryStore T) (other : String) (x : SessionRecord)
        → s'.sessions ≡ insert other (revoke x) s.sessions
        → s'.refresh_to_session ≡ s.refresh_to_session
        → IsSpent hash id s
        → IsSpent hash id s'
    revoked-IsSpent s s' other x sessions tokens is = elim (Bool-cases (other == id)) [
      | inl e ↦
          let same : other ≡ id = (eq_iff other id).0 e in
          record {
            no_token = rw tokens is.no_token;
            closed = inr (
              revoke x,
              ap (lookup id) sessions
                  ∙ ap (λ k. lookup id (insert k (revoke x) s.sessions)) same
                  ∙ lookup-insert_self id (revoke x) s.sessions,
              refl,
            );
          }
      | inr e ↦
          let ne : other ≢ id = λ same. cc ((eq_iff other id).1 same) in
          record {
            no_token = rw tokens is.no_token;
            closed = rw (sessions, lookup-insert_ne other id (revoke x) s.sessions ne) is.closed;
          }
    ]

    start_session-IsSpent :
        (s : MemoryStore T) (user_id device_id : String) (d : Draws)
        → IsFresh c hash id d
        → IsSpent hash id s
        → IsSpent hash id (start_session c s user_id device_id d).1
    start_session-IsSpent s user_id device_id d fresh is =
        elim (start_session-either c s user_id device_id d) [
          | inl (sessions, tokens) ↦ same-IsSpent s _ sessions tokens is
          | inr (sessions, tokens) ↦ opened-IsSpent s _ d _ sessions tokens fresh is
        ]

    note_session-IsSpent :
        (a : Recorder T) (user_id action : String)
        (o : Result TokenResponse ApiError × MemoryStore T)
        → IsSpent hash id o.1
        → IsSpent hash id (note_session a user_id action o).1
    unfolding note_event record_memory
    note_session-IsSpent a user_id action (err e, s) is = is
    note_session-IsSpent a user_id action (ok t, s) is = same-IsSpent s _ refl refl is

    claim_session-IsSpent :
        (a : Recorder T) (s : MemoryStore T) (used session_id : String)
        → IsSpent hash id s
        → IsSpent hash id (claim_session a s used session_id (lookup session_id s.sessions)).1
    unfolding claim_session note_event record_memory
    claim_session-IsSpent a s used session_id is =
        elim (Option-cases (lookup session_id s.sessions)) [
          | inl missing ↦ rw (missing, claim_session) is
          | inr (x, found) ↦ elim (Bool-cases (x.revoked || not (x.refresh_hash == used))) [
            | inl bad ↦
                rw (found, claim_session, bad) (revoked-IsSpent s _ session_id x refl refl is)
            | inr good ↦
                rw (found, claim_session, good) (revoked-IsSpent s _ session_id x refl refl is)
          ]
        ]

    take_token-IsSpent :
        (a : Recorder T) (s : MemoryStore T) (used : String)
        → IsSpent hash id s
        → IsSpent hash id (take_token a s used).1
    unfolding take_token note_event record_memory
    take_token-IsSpent a s used is = elim (Option-cases (lookup used s.refresh_to_session)) [
      | inl missing ↦ rw (missing, take_token) (same-IsSpent s _ refl refl is)
      | inr (session_id, known) ↦
          let s' : MemoryStore T = record s {
            refresh_to_session = erase used s.refresh_to_session;
          } in
          let gone : lookup hash (erase used s.refresh_to_session) ≡ none =
            ground (arith, lookup-erase used hash s.refresh_to_session, is.no_token) in
          rw (known, take_token)
            (claim_session-IsSpent a s' used session_id
              (record { no_token = gone; closed = is.closed }))
    ]

    renew-IsSpent :
        (a : Recorder T) (d : Draws) (o : Result SessionRecord ApiError × MemoryStore T)
        → IsFresh c hash id d
        → IsSpent hash id o.1
        → IsSpent hash id (renew c a d o).1
    renew-IsSpent a d (err e, s) fresh is = is
    renew-IsSpent a d (ok x, s) fresh is =
        note_session-IsSpent a x.user_id "auth.refresh" _
          (start_session-IsSpent s x.user_id x.device_id d fresh is)

    login_valid-IsSpent :
        (a : Recorder T) (s : MemoryStore T) (d : Draws) (req : LoginRequest)
        → IsFresh c hash id d
        → IsSpent hash id s
        → IsSpent hash id (login_valid c a s d req).1
    unfolding login_valid note_event record_memory
    login_valid-IsSpent a s d req fresh is = elim (Option-cases (user_by_email s req.email)) [
      | inl missing ↦ rw (missing, login_valid) (same-IsSpent s _ refl refl is)
      | inr (user, found) ↦ elim (Bool-cases (c.verify_password req.password user.password_hash)) [
        | inr wrong ↦ rw (found, login_valid, wrong) (same-IsSpent s _ refl refl is)
        | inl right ↦
            rw (found, login_valid, right)
              (note_session-IsSpent a user.id "auth.login" _
                (start_session-IsSpent s user.id req.device_id d fresh is))
      ]
    ]

    login-IsSpent :
        (a : Recorder T) (s : MemoryStore T) (d : Draws) (req : LoginRequest)
        → IsFresh c hash id d
        → IsSpent hash id s
        → IsSpent hash id (login c a s d req).1
    unfolding login
    login-IsSpent a s d req fresh is = elim (Result-cases (validate_login req)) [
      | inr (e, bad) ↦ rw (bad, login) is
      | inl (valid, good) ↦ elim (Result-cases (uses_cookie_session valid.session_mode)) [
        | inr (e, bad) ↦ rw (good, login, bad) is
        | inl (mode, fine) ↦ rw (good, login, fine) (login_valid-IsSpent a s d valid fresh is)
      ]
    ]

    register-IsSpent :
        (a : Recorder T) (s : MemoryStore T) (user_id salt : String) (req : RegisterRequest)
        → IsSpent hash id s
        → IsSpent hash id (register c a s user_id salt req).1
    unfolding register note_event record_memory
    register-IsSpent a s user_id salt req is = elim (Result-cases (validate_registration req)) [
      | inr (e, bad) ↦ rw (bad, register) is
      | inl (valid, good) ↦ elim (Option-cases (c.hash_password salt valid.password)) [
        | inl failed ↦ rw (good, register, failed) is
        | inr (h, hashed) ↦ elim (Bool-cases (contains valid.email s.users_by_email)) [
          | inl taken ↦ rw (good, register, hashed, taken) (same-IsSpent s _ refl refl is)
          | inr free ↦ rw (good, register, hashed, free) (same-IsSpent s _ refl refl is)
        ]
      ]
    ]

    logout-IsSpent :
        (a : Recorder T) (s : MemoryStore T) (user_id session_id : String)
        → IsSpent hash id s
        → IsSpent hash id (logout a s user_id session_id)
    unfolding logout close_session note_event record_memory
    logout-IsSpent a s user_id session_id is = elim (Option-cases (lookup session_id s.sessions)) [
      | inl missing ↦ rw (missing, logout, close_session) (same-IsSpent s _ refl refl is)
      | inr (x, found) ↦
          rw (found, logout, close_session) (revoked-IsSpent s _ session_id x refl refl is)
    ]

    pub calls-IsSpent :
        (xs : List (Call T)) (s : MemoryStore T)
        → All (DrawsFresh hash id) xs
        → IsSpent hash id s
        → IsSpent hash id (calls s xs)
    unfolding calls call rotate_refresh_token
    calls-IsSpent [] s fresh is = is
    calls-IsSpent (registers a user_id salt req ∷ xs) s fresh is =
        calls-IsSpent xs _ fresh.1 (register-IsSpent a s user_id salt req is)
    calls-IsSpent (logs_in a d req ∷ xs) s fresh is =
        calls-IsSpent xs _ fresh.1 (login-IsSpent a s d req fresh.0 is)
    calls-IsSpent (refreshes a used d ∷ xs) s fresh is =
        calls-IsSpent xs _ fresh.1
          (renew-IsSpent a d (take_token a s used) fresh.0 (take_token-IsSpent a s used is))
    calls-IsSpent (logs_out a user_id session_id ∷ xs) s fresh is =
        calls-IsSpent xs _ fresh.1 (logout-IsSpent a s user_id session_id is)
