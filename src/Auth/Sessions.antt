-- ===== src/Auth/Sessions.antt =====
-- Lemmas on the sessions and tokens that the handlers of server/src/transport/http/auth.rs write.
use ledgerly.Prelude.{
  ◌≡◌, ◌⊎◌, ◌∙◌, refl, sym, ap, String, not, ◌||◌, none, some, ◌==◌, string_eq, arith, Result, ok,
  err, Result-cases, Bool-cases, Option-cases, inl, inr, find, List, [], ◌∷◌,
}
use ledgerly.Prelude.Dict.{lookup, insert, erase, values}
use ledgerly.ApiError.{ApiError}
use ledgerly.Audit.{Recorder, note_event, record_memory}
use ledgerly.Contracts.{TokenResponse}
use ledgerly.State.{MemoryStore, SessionRecord}
use ledgerly.State.Defaults.{
  DefaultAccount, default_accounts, seed_account, seed_loop, seed_accounts_mem, ensure_demo_book,
}
use ledgerly.Auth.{
  Crypto, Draws, invalid_refresh, new_session, revoke, build_token_response, open_session,
  issue_tokens, start_session, claim_session, take_token, rotate_refresh_token, note_session,
  failed_attempt,
}

module _ {T : Type 0} where
  -- Opening the user's book leaves sessions and tokens alone.
  seed_loop-sessions :
      (book_id : String) (as' : List DefaultAccount) (s : MemoryStore T)
      → ((seed_loop book_id as' s).sessions ≡ s.sessions)
        × ((seed_loop book_id as' s).refresh_to_session ≡ s.refresh_to_session)
  unfolding seed_loop seed_account
  seed_loop-sessions book_id [] s = (refl, refl)
  seed_loop-sessions book_id (a ∷ as') s =
      let (x, y) = seed_loop-sessions book_id as' (seed_account book_id s a) in
      let (p, q) = one in (x ∙ p, y ∙ q)
    where
      one :
          ((seed_account book_id s a).sessions ≡ s.sessions)
          × ((seed_account book_id s a).refresh_to_session ≡ s.refresh_to_session)
      one = ground arith

  ensure_demo_book-sessions :
      (fresh user_id : String) (s : MemoryStore T)
      → ((ensure_demo_book fresh user_id s).1.sessions ≡ s.sessions)
        × ((ensure_demo_book fresh user_id s).1.refresh_to_session ≡ s.refresh_to_session)
  unfolding ensure_demo_book seed_accounts_mem
  ensure_demo_book-sessions fresh user_id s =
      elim (Option-cases (find (λ b. b.owner_id == user_id) (values s.books))) [
        | inl missing ↦ rw (missing, ensure_demo_book) (seed_loop-sessions fresh default_accounts _)
        | inr (b, found) ↦ rw (found, ensure_demo_book) (seed_loop-sessions b.id default_accounts s)
      ]

module _ {T : Type 0} (c : Crypto) where
  -- What `start_session` does to sessions and tokens when it succeeds.
  pub start_session-ok :
      (s : MemoryStore T) (user_id device_id : String) (d : Draws) (tokens : TokenResponse)
      → (start_session c s user_id device_id d).0 ≡ ok tokens
      → ((start_session c s user_id device_id d).1.sessions
          ≡ insert d.session_id (new_session c user_id device_id d) s.sessions)
        × ((start_session c s user_id device_id d).1.refresh_to_session
            ≡ insert (c.hash_token d.refresh) d.session_id s.refresh_to_session)
  unfolding start_session issue_tokens open_session
  start_session-ok s user_id device_id d tokens h =
      elim (Result-cases (build_token_response c user_id device_id d)) [
        | inr (e, bad) ↦ absurd (cc (rw (bad, start_session, issue_tokens) at h))
        | inl (t, good) ↦
            let (x, y) = ensure_demo_book-sessions d.book_id user_id s in
            rw (good, start_session, issue_tokens, x, y) (refl, refl)
      ]

  -- What `start_session` does to sessions and tokens, also when it fails.
  pub start_session-either :
      (s : MemoryStore T) (user_id device_id : String) (d : Draws)
      → (((start_session c s user_id device_id d).1.sessions ≡ s.sessions)
          × ((start_session c s user_id device_id d).1.refresh_to_session ≡ s.refresh_to_session))
        ⊎ (((start_session c s user_id device_id d).1.sessions
              ≡ insert d.session_id (new_session c user_id device_id d) s.sessions)
            × ((start_session c s user_id device_id d).1.refresh_to_session
                ≡ insert (c.hash_token d.refresh) d.session_id s.refresh_to_session))
  unfolding start_session issue_tokens
  start_session-either s user_id device_id d =
      elim (Result-cases (start_session c s user_id device_id d).0) [
        | inl (tokens, good) ↦ inr (start_session-ok s user_id device_id d tokens good)
        | inr (e, failed) ↦ elim (Result-cases (build_token_response c user_id device_id d)) [
          | inr (f, bad) ↦ inl (
              rw (bad, start_session, issue_tokens) (ensure_demo_book-sessions d.book_id user_id s))
          | inl (t, good) ↦ absurd (cc (rw (good, start_session, issue_tokens) at failed))
        ]
      ]

module _ {T : Type 0} (c : Crypto) (a : Recorder T) where
  -- What a token that is accepted stands for.
  pub take_token_inv :
      (s s' : MemoryStore T) (hash : String) (session : SessionRecord)
      → take_token a s hash ≡ (ok session, s')
      → (id : String) × (lookup hash s.refresh_to_session ≡ some id)
        × (lookup id s.sessions ≡ some session)
        × (s'.sessions ≡ insert id (revoke session) s.sessions)
        × (s'.refresh_to_session ≡ erase hash s.refresh_to_session)
  unfolding take_token claim_session
  take_token_inv s s' hash session h = elim (Option-cases (lookup hash s.refresh_to_session)) [
    | inl missing ↦ absurd (cc (ap (λ o. o.0) (rw (missing, take_token) at h)))
    | inr (id, known) ↦ elim (Option-cases (lookup id s.sessions)) [
      | inl missing ↦
          absurd (cc (ap (λ o. o.0) (rw (known, take_token, missing, claim_session) at h)))
      | inr (x, found) ↦ elim (Bool-cases (x.revoked || not (x.refresh_hash == hash))) [
        | inl bad ↦
            absurd (cc (ap (λ o. o.0) (rw (known, take_token, found, claim_session, bad) at h)))
        | inr good ↦
            let step = rw (known, take_token, found, claim_session, good) at h in
            let same : x ≡ session = ground (arith, ap (λ o. o.0) step) in
            (
              id,
              known,
              found ∙ ap some same,
              ap (λ o. o.1.sessions) (sym step) ∙ ap (λ y. insert id (revoke y) s.sessions) same,
              ap (λ o. o.1.refresh_to_session) (sym step),
            )
      ]
    ]
  ]

  -- What an event behind a session leaves alone.
  pub note_session_inv :
      (user_id action : String) (o : Result TokenResponse ApiError × MemoryStore T)
      (tokens : TokenResponse)
      → (note_session a user_id action o).0 ≡ ok tokens
      → (o.0 ≡ ok tokens)
        × ((note_session a user_id action o).1.sessions ≡ o.1.sessions)
        × ((note_session a user_id action o).1.refresh_to_session ≡ o.1.refresh_to_session)
  unfolding note_event record_memory
  note_session_inv user_id action (err e, s) tokens h = absurd (cc)
  note_session_inv user_id action (ok t, s) tokens h = (h, refl, refl)

  -- A token that is not known is refused, and only the attempt is recorded.
  pub unknown_token-refused :
      (s : MemoryStore T) (hash : String) (d : Draws)
      → lookup hash s.refresh_to_session ≡ none
      → rotate_refresh_token c a s hash d
        ≡ (err invalid_refresh, note_event a s (failed_attempt a "auth.refresh" "invalid_refresh"))
  unfolding rotate_refresh_token take_token
  unknown_token-refused s hash d h = rw (h, take_token) refl
