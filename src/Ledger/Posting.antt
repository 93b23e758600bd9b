-- ===== src/Ledger/Posting.antt =====
-- On the store and the log behind `create_transaction` of server/src/transport/http/ledger.rs.
use ledgerly.Sync.Log.{IsNumbered, NumberedFrom-append, next_sequence_lem}
use ledgerly.Prelude.{
  ◌<◌, ◌∙◌, suc, ap, ◌≤◌, ◌≡◌, refl, sym, String, List, [], ◌∷◌, length, Result, ok, err, arith,
  string_eq, Result-cases, Bool-cases, inl, inr,
}
use ledgerly.Prelude.Int.{pos, i64_half}
use ledgerly.Prelude.Dict.{contains, insert-All}
use ledgerly.Domain.{EntryDraft, validate_balanced}
use ledgerly.Contracts.{EntryDto, CreateTransactionRequest}
use ledgerly.ApiError.{ApiError}
use ledgerly.Authz.{require_book_member}
use ledgerly.State.{TimeLib, MemoryStore}
use ledgerly.Sync.DoubleEntry.{IsBalancedTx, IsDoubleEntry, stored-IsBalanced}
use ledgerly.Ledger.{add_draft, drafts_of, checked_drafts, store_transaction, create_transaction}

add_draft_inv :
    (o : Result EntryDraft ApiError) (rest : Result (List EntryDraft) ApiError)
    (ds : List EntryDraft)
    → add_draft o rest ≡ ok ds
    → (d : EntryDraft) × (es : List EntryDraft) × (ds ≡ d ∷ es) × (rest ≡ ok es)
unfolding add_draft
add_draft_inv (err e) rest ds h = absurd (cc)
add_draft_inv (ok d) (err e) ds h = absurd (cc)
add_draft_inv (ok d) (ok es) ds h = (d, es, ground arith, refl)

drafts_of-length :
    (es : List EntryDto) (ds : List EntryDraft) → drafts_of es ≡ ok ds → length ds ≡ length es
unfolding drafts_of
drafts_of-length [] ds h = let e : ds ≡ [] = ground arith in rw e refl
drafts_of-length (e ∷ es) ds h =
    let (d, rest, split, q) = add_draft_inv _ (drafts_of es) ds h in
    rw (split, drafts_of-length es rest q) refl

module _ {T : Type 0} (time : TimeLib T) where
  checked_drafts_inv :
      (s : MemoryStore T) (user_id : String) (req : CreateTransactionRequest) (ds : List EntryDraft)
      → checked_drafts time s user_id req ≡ ok ds
      → (drafts_of req.entries ≡ ok ds)
        × (validate_balanced ds ≡ ok tt)
        × (require_book_member s user_id req.book_id ≡ ok tt)
  unfolding checked_drafts
  checked_drafts_inv s user_id req ds h =
      elim (Result-cases (require_book_member s user_id req.book_id)) [
        | inr (e, bad) ↦ absurd (cc (rw (bad, checked_drafts) at h))
        | inl (u, member) ↦ elim (Result-cases (drafts_of req.entries)) [
          | inr (e, bad) ↦ absurd (cc (rw (member, bad, checked_drafts) at h))
          | inl (es, read) ↦ elim (Result-cases (validate_balanced es)) [
            | inr (e, bad) ↦ absurd (cc (rw (member, read, bad, checked_drafts) at h))
            | inl (v, good) ↦
                let same : es ≡ ds = ground (arith, rw (member, read, good, checked_drafts) at h) in
                (rw (read, same) refl, rw (sym same, good) refl, rw member refl)
          ]
        ]
      ]

  -- A request with at most 2 ^ 63 entries keeps every stored transaction balanced.
  pub create_transaction-IsDoubleEntry :
      (s : MemoryStore T) (now : T) (tx_id commit_id user_id : String)
      (req : CreateTransactionRequest)
      → length req.entries ≤ i64_half
      → IsDoubleEntry s
      → IsDoubleEntry (create_transaction time s now tx_id commit_id user_id req).1
  unfolding create_transaction store_transaction
  create_transaction-IsDoubleEntry s now tx_id commit_id user_id req small h =
      elim (Result-cases (checked_drafts time s user_id req)) [
        | inr (e, bad) ↦ rw (bad, create_transaction) h
        | inl (ds, good) ↦
            let (read, balanced, member) = checked_drafts_inv s user_id req ds good in
            elim (Bool-cases (contains req.book_id s.books)) [
              | inr missing ↦ rw (good, create_transaction, missing) h
              | inl known ↦
                  rw (good, create_transaction, known)
                    (insert-All IsBalancedTx tx_id _ s.transactions
                      (stored-IsBalanced ds (rw (drafts_of-length req.entries ds read) small)
                        balanced)
                      h)
            ]
      ]

  -- While the log stays shorter than 2 ^ 63, `create_transaction` keeps the changes numbered 1, 2, 3
  -- and so on without a gap, over all books.
  pub create_transaction-IsNumbered :
      (s : MemoryStore T) (now : T) (tx_id commit_id user_id : String)
      (req : CreateTransactionRequest)
      → suc (length s.changes) < i64_half
      → IsNumbered s.changes
      → IsNumbered (create_transaction time s now tx_id commit_id user_id req).1.changes
  unfolding create_transaction store_transaction
  create_transaction-IsNumbered s now tx_id commit_id user_id req small h =
      elim (Result-cases (checked_drafts time s user_id req)) [
        | inr (e, bad) ↦ rw (bad, create_transaction) h
        | inl (ds, good) ↦ elim (Bool-cases (contains req.book_id s.books)) [
          | inr missing ↦ rw (good, create_transaction, missing) h
          | inl known ↦
              rw (good, create_transaction, known)
                (NumberedFrom-append 0 s.changes _ h
                  (next_sequence_lem s.changes small ∙ ap pos (omega arith)))
        ]
      ]
