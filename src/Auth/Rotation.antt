-- ===== src/Auth/Rotation.antt =====
-- On `rotate_refresh_token` and `logout` of server/src/transport/http/auth.rs: refresh tokens, and the
-- access tokens of their sessions.
use ledgerly.Prelude.{
  ◌≡◌, ◌≢◌, ◌∙◌, refl, sym, ap, String, some, eq_iff, string_eq, arith, Result, ok, err,
  Option-cases, inl, inr,
}
use ledgerly.Prelude.Dict.{lookup, insert, erase, lookup-insert_self, lookup-insert_ne}
use ledgerly.ApiError.{ApiError, api_error}
use ledgerly.Audit.{Recorder, note_event, record_memory}
use ledgerly.Contracts.{TokenResponse}
use ledgerly.Authz.{Claims, ensure_session_active}
use ledgerly.State.{MemoryStore, SessionRecord}
use ledgerly.Auth.{
  Crypto, Draws, claims_for, new_session, revoke, take_token, renew, rotate_refresh_token,
  start_session, close_session, logout,
}
use ledgerly.Auth.Sessions.{start_session-ok, take_token_inv, note_session_inv}

-- `ensure_session_active` of a session that is revoked or missing.
abbrev pub session_revoked : ApiError
session_revoked = api_error 401 "SESSION_REVOKED" "device session is revoked or missing"

module _ {T : Type 0} (c : Crypto) (a : Recorder T) (s : MemoryStore T) (hash : String)
    (d : Draws) where
  abbrev pub after : MemoryStore T
  after = (rotate_refresh_token c a s hash d).1

  -- What a rotation that succeeds found, and what it leaves.
  pub record Rotated (s' : MemoryStore T) : Type 0 where
    pub id : String
    pub session : SessionRecord
    pub token : lookup hash s.refresh_to_session ≡ some id
    pub found : lookup id s.sessions ≡ some session
    pub sessions :
        s'.sessions
        ≡ insert d.session_id
            (new_session c session.user_id session.device_id d)
            (insert id (revoke session) s.sessions)
    pub tokens :
        s'.refresh_to_session
        ≡ insert (c.hash_token d.refresh) d.session_id (erase hash s.refresh_to_session)

  renew_inv :
      (o : Result SessionRecord ApiError × MemoryStore T) (tokens : TokenResponse)
      → take_token a s hash ≡ o
      → (renew c a d o).0 ≡ ok tokens
      → Rotated (renew c a d o).1
  renew_inv (err e, s₁) tokens q h = absurd (cc)
  renew_inv (ok session, s₁) tokens q h =
      let (id, token, found, left, rest) = take_token_inv c a s s₁ hash session q in
      let started = start_session c s₁ session.user_id session.device_id d in
      let (h, kept, kept_tokens) =
        note_session_inv c a session.user_id "auth.refresh" started tokens h in
      let (x, y) = start_session-ok c s₁ session.user_id session.device_id d tokens h in
      record {
        id = id;
        session = session;
        token = token;
        found = found;
        sessions =
            kept
            ∙ x
            ∙ ap (insert d.session_id (new_session c session.user_id session.device_id d)) left;
        tokens = kept_tokens ∙ y ∙ ap (insert (c.hash_token d.refresh) d.session_id) rest;
      }

  pub rotate_inv :
      (tokens : TokenResponse) → (rotate_refresh_token c a s hash d).0 ≡ ok tokens → Rotated after
  unfolding rotate_refresh_token
  rotate_inv tokens h = renew_inv (take_token a s hash) tokens refl h

  -- Right after a refresh token was exchanged, the access tokens of the session that it belonged to
  -- are refused, and those of the new session, which is for the same user and device, are accepted, if
  -- the new session has an id of its own.
  pub refresh_token-hands_over :
      (tokens : TokenResponse) (id : String) (session : SessionRecord) (claims : Claims)
      → lookup hash s.refresh_to_session ≡ some id
      → lookup id s.sessions ≡ some session
      → d.session_id ≢ id
      → claims.session_id ≡ id
      → (rotate_refresh_token c a s hash d).0 ≡ ok tokens
      → (ensure_session_active (rotate_refresh_token c a s hash d).1 claims ≡ err session_revoked)
        × (ensure_session_active
              (rotate_refresh_token c a s hash d).1
              (claims_for session.user_id session.device_id d)
            ≡ ok tt)
  unfolding ensure_session_active
  refresh_token-hands_over tokens id session claims token found fresh own h =
      let r = rotate_inv tokens h in
      let same_id : r.id ≡ id = ground (arith, sym r.token ∙ token) in
      let at_id : lookup id s.sessions ≡ some r.session =
        ap (λ i. lookup i s.sessions) (sym same_id) ∙ r.found in
      let same : r.session ≡ session = ground (arith, sym at_id ∙ found) in
      let old : lookup claims.session_id after.sessions ≡ some (revoke r.session) =
        rw (own, r.sessions, lookup-insert_ne d.session_id id _ _ fresh, same_id)
          (lookup-insert_self id _ _) in
      let new : lookup d.session_id after.sessions
          ≡ some (new_session c r.session.user_id r.session.device_id d) =
        ap (λ x. lookup d.session_id x) r.sessions ∙ lookup-insert_self d.session_id _ _ in
      (
        rw old refl,
        rw (new, same)
            (ground (
              arith,
              eq_iff session.user_id session.user_id,
              eq_iff session.device_id session.device_id,
            )),
      )

module _ {T : Type 0} where
  -- After `logout` of a session its access tokens are refused.
  pub logout-ends :
      (a : Recorder T) (s : MemoryStore T) (user_id : String) (claims : Claims)
      → ensure_session_active (logout a s user_id claims.session_id) claims ≡ err session_revoked
  unfolding ensure_session_active logout close_session note_event record_memory
  logout-ends a s user_id claims = elim (Option-cases (lookup claims.session_id s.sessions)) [
    | inl missing ↦ rw (missing, logout, close_session, missing) refl
    | inr (x, found) ↦ rw (found, logout, close_session, lookup-insert_self) refl
  ]
