-- ===== src/Auth/Registration.antt =====
-- On `register` and `login` of server/src/transport/http/auth.rs, one after the other.
use ledgerly.Prelude.{
  ◌≡◌, ◌∙◌, refl, ap, String, Bool, true, some, string_eq, eq_iff, arith, Result, ok, err,
  Bool-cases, Option-cases, inl, inr,
}
use ledgerly.Prelude.Dict.{lookup, contains, insert, lookup-insert_self}
use ledgerly.ApiError.{ApiError, api_error}
use ledgerly.Contracts.{RegisterRequest, LoginRequest, TokenResponse}
use ledgerly.State.{MemoryStore, UserRecord}
use ledgerly.Audit.{
  Recorder, note_event, record_memory, user_event, anonymous_event, success, failure, with_reason,
  with_request, with_target,
}
use ledgerly.Authz.{ensure_session_active}
use ledgerly.Auth.{
  Crypto, Draws, claims_for, new_session, user_by_email, build_token_response, open_session,
  issue_tokens, start_session, note_session, register, login_valid, login,
}
use ledgerly.Auth.Validation.{validate_registration, validate_login, uses_cookie_session}

abbrev pub email_taken : ApiError
email_taken = api_error 409 "EMAIL_TAKEN" "email already registered"

-- The answer and the store behind a login of a user on a device.
pub record IsLoggedIn {T : Type 0} (c : Crypto) (user_id device_id access : String) (d : Draws)
    (out : Result TokenResponse ApiError × MemoryStore T) : Type 0 where
  pub tokens : TokenResponse
  pub answered : out.0 ≡ ok tokens
  pub is_access : tokens.access_token ≡ access
  pub is_refresh : tokens.refresh_token ≡ some d.refresh
  pub renewable : lookup (c.hash_token d.refresh) out.1.refresh_to_session ≡ some d.session_id
  pub is_open : ensure_session_active out.1 (claims_for user_id device_id d) ≡ ok tt

module _ {T : Type 0} (c : Crypto) (a : Recorder T) where
  noted_session-IsLoggedIn :
      (s : MemoryStore T) (user_id device_id access : String) (d : Draws)
      → c.sign (claims_for user_id device_id d) ≡ some access
      → IsLoggedIn c user_id device_id access d
          (note_session a user_id "auth.login" (start_session c s user_id device_id d))
  unfolding note_event record_memory start_session issue_tokens build_token_response open_session
      ensure_session_active
  noted_session-IsLoggedIn s user_id device_id access d signs =
      rw (signs, start_session, issue_tokens, build_token_response)
        (record {
          tokens = _;
          answered = refl;
          is_access = refl;
          is_refresh = refl;
          renewable = lookup-insert_self (c.hash_token d.refresh) d.session_id _;
          is_open =
              rw (lookup-insert_self d.session_id (new_session c user_id device_id d) _)
                (ground (arith, eq_iff user_id user_id, eq_iff device_id device_id));
        })

module _ {T : Type 0} (c : Crypto) (a : Recorder T) (s : MemoryStore T) (id salt : String)
    (req : RegisterRequest) where
  abbrev after : MemoryStore T
  after = (register c a s id salt req).1

  abbrev user_of : RegisterRequest → String → UserRecord
  user_of valid hash = record {
    id = id;
    email = valid.email;
    password_hash = hash;
    display_name = valid.display_name;
  }

  abbrev stored_user : RegisterRequest → String → MemoryStore T
  stored_user valid hash =
      note_event a
        (record s {
          users_by_email = insert valid.email id s.users_by_email;
          users = insert id (user_of valid hash) s.users;
        })
        (with_request a (with_target "user" id (user_event id "auth.register" success)))

  -- What a registration that succeeds has stored.
  record Registered (valid : RegisterRequest) : Type 0 where
    pub hash : String
    pub hashed : c.hash_password salt valid.password ≡ some hash
    pub user : UserRecord
    pub by_email : lookup valid.email after.users_by_email ≡ some id
    pub by_id : lookup id after.users ≡ some user
    pub same_id : user.id ≡ id
    pub same_hash : user.password_hash ≡ hash

  register_inv :
      (valid : RegisterRequest) (x : String)
      → validate_registration req ≡ ok valid
      → (register c a s id salt req).0 ≡ ok x
      → Registered valid
  unfolding register note_event record_memory
  register_inv valid x good h = elim (Option-cases (c.hash_password salt valid.password)) [
    | inl failed ↦ absurd (cc (rw (good, register, failed) at h))
    | inr (hash, hashed) ↦ elim (Bool-cases (contains valid.email s.users_by_email)) [
      | inl taken ↦ absurd (cc (rw (good, register, hashed, taken) at h))
      | inr free ↦
          let done : register c a s id salt req ≡ (ok id, stored_user valid hash) =
            rw (good, register, hashed, free) refl in
          record {
            hash = hash;
            hashed = hashed;
            user = user_of valid hash;
            by_email =
                ap (λ o. lookup valid.email o.1.users_by_email) done
                ∙ lookup-insert_self valid.email id s.users_by_email;
            by_id =
                ap (λ o. lookup id o.1.users) done
                ∙ lookup-insert_self id (user_of valid hash) s.users;
            same_id = refl;
            same_hash = refl;
          }
    ]
  ]

  -- Once an address is registered, a valid registration with the same normalised address is answered
  -- `EMAIL_TAKEN`, if its password can be hashed, and changes nothing but the audit trail, which records
  -- a failure that names no user.
  pub register-email_taken :
      (valid again_valid : RegisterRequest) (x other_id other_salt hash : String)
      (again : RegisterRequest) (later : Recorder T)
      → validate_registration req ≡ ok valid
      → (register c a s id salt req).0 ≡ ok x
      → validate_registration again ≡ ok again_valid
      → again_valid.email ≡ valid.email
      → c.hash_password other_salt again_valid.password ≡ some hash
      → register c later (register c a s id salt req).1 other_id other_salt again ≡ (
        err email_taken,
        note_event later (register c a s id salt req).1 (
            with_reason "email_taken"
              (with_request later (anonymous_event "auth.register" failure))),
      )
  unfolding register
  register-email_taken valid again_valid x other_id other_salt hash again later good h fine same
        hashed =
      let r = register_inv valid x good h in again_taken after r.by_email
    where
      again_taken :
          (s' : MemoryStore T)
          → lookup valid.email s'.users_by_email ≡ some id
          → register c later s' other_id other_salt again ≡ (
            err email_taken,
            note_event later s' (
                with_reason "email_taken"
                  (with_request later (anonymous_event "auth.register" failure))),
          )
      again_taken s' known = rw (fine, register, hashed, same, contains, known) refl

  -- A user who has registered logs in with the same address and password, in either session mode, if a
  -- password verifies against its own hash and the access token can be signed: the answer has that
  -- access token, the refresh token leads to the new session, and the session is open for the
  -- registered id and the device.
  pub register-login :
      (valid : RegisterRequest) (x access : String) (body attempt : LoginRequest)
      (cookie_mode : Bool) (d : Draws) (later : Recorder T)
      → ((pepper password hash : String)
          → c.hash_password pepper password ≡ some hash
          → c.verify_password password hash ≡ true)
      → c.sign (claims_for id attempt.device_id d) ≡ some access
      → validate_registration req ≡ ok valid
      → (register c a s id salt req).0 ≡ ok x
      → validate_login body ≡ ok attempt
      → uses_cookie_session attempt.session_mode ≡ ok cookie_mode
      → attempt.email ≡ valid.email
      → attempt.password ≡ valid.password
      → IsLoggedIn c id attempt.device_id access d
          (login c later (register c a s id salt req).1 d body)
  unfolding login login_valid user_by_email
  register-login valid x access body attempt cookie_mode d later verifies signs good h fine mode
        same_email same_password =
      let r = register_inv valid x good h in
      logs_in after r.user r.by_email r.by_id r.same_id (
        ap (λ p. c.verify_password p r.user.password_hash) same_password
        ∙ ap (c.verify_password valid.password) r.same_hash
        ∙ verifies salt valid.password r.hash r.hashed)
    where
      logs_in :
          (s' : MemoryStore T) (user : UserRecord)
          → lookup valid.email s'.users_by_email ≡ some id
          → lookup id s'.users ≡ some user
          → user.id ≡ id
          → c.verify_password attempt.password user.password_hash ≡ true
          → IsLoggedIn c id attempt.device_id access d (login c later s' d body)
      logs_in s' user by_email by_id same right =
          rw
            (
              fine, login, mode, login_valid, user_by_email, same_email, by_email, by_id, right,
              same,
            )
            (noted_session-IsLoggedIn c later s' id attempt.device_id access d signs)
