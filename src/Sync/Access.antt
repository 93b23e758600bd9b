-- ===== src/Sync/Access.antt =====
-- On membership in `push`, `pull`, `bootstrap` and `create_transaction`.
use ledgerly.Prelude.{
  ℕ, ◌≡◌, ◌≢◌, refl, some, inl, inr, Option-cases, eq_iff, String, false, List, Option, string_eq,
  arith, err,
}
use ledgerly.Prelude.Int.{ℤ}
use ledgerly.Prelude.Dict.{lookup}
use ledgerly.Contracts.{SyncMutationDto, CreateTransactionRequest}
use ledgerly.ApiError.{ApiError, api_error}
use ledgerly.Authz.{owned_by, require_book_member}
use ledgerly.State.{TimeLib, Fresh, MemoryStore, BookRecord}
use ledgerly.Sync.Push.{push}
use ledgerly.Sync.Pull.{pull}
use ledgerly.Sync.Bootstrap.{bootstrap}
use ledgerly.Ledger.{checked_drafts, create_transaction}

abbrev pub forbidden : ApiError
forbidden = api_error 403 "BOOK_FORBIDDEN" "not a member of this book"

module _ {T : Type 0} (time : TimeLib T) where
  not_owned :
      (s : MemoryStore T) (user_id book_id : String)
      → ((b : BookRecord) → lookup book_id s.books ≡ some b → b.owner_id ≢ user_id)
      → owned_by user_id (lookup book_id s.books) ≡ false
  not_owned s user_id book_id other = elim (Option-cases (lookup book_id s.books)) [
    | inl missing ↦ rw missing refl
    | inr (b, found) ↦ rw found (ground (arith, eq_iff b.owner_id user_id, other b found))
  ]

  -- A user gets `BOOK_FORBIDDEN` from `push`, `pull`, `bootstrap` and `create_transaction` alike, for a
  -- book that another user owns or that does not exist, and the store stays as it is.
  pub stranger-forbidden :
      (s : MemoryStore T) (user_id book_id device_id : String)
      (ms : List (Fresh T × SyncMutationDto)) (cursor : Option ℤ) (limit : Option ℕ) (now : T)
      (uuid commit_id : String) (req : CreateTransactionRequest)
      → ((b : BookRecord) → lookup book_id s.books ≡ some b → b.owner_id ≢ user_id)
      → req.book_id ≡ book_id
      → (push time s user_id book_id device_id ms ≡ (err forbidden, s))
        × (pull time s user_id book_id cursor limit ≡ err forbidden)
        × (bootstrap time s uuid user_id book_id ≡ err forbidden)
        × (create_transaction time s now uuid commit_id user_id req ≡ (err forbidden, s))
  unfolding push pull bootstrap create_transaction checked_drafts require_book_member
  stranger-forbidden s user_id book_id device_id ms cursor limit now uuid commit_id req other e =
      let h = not_owned s user_id book_id other in
      (rw h refl, rw h refl, rw h refl, rw (create_transaction, checked_drafts, e, h) refl)
