-- ===== src/Sync/DoubleEntry.antt =====
-- The double-entry invariant of the store, for `push` of server/src/transport/http/sync.rs.
use ledgerly.Prelude.{
  ℕ, ◌≤◌, ◌≡◌, refl, String, List, [], ◌∷◌, map, length, All, Result, ok, err, string_eq,
}
use ledgerly.Prelude.Int.{ℤ, i64_half, wrap_of_Fits}
use ledgerly.Prelude.Dict.{values, lookup-All, insert-All}
use ledgerly.Domain.{EntryDraft, validate_balanced}
use ledgerly.Domain.Balance.{IsPosting, IsBalanced, currency_of, validate_balanced-IsBalanced}
use ledgerly.Contracts.{SyncMutationDto, MutationReceiptDto}
use ledgerly.State.{TimeLib, Fresh, MemoryStore, TxRecord}
use ledgerly.Sync.Parse.{parse_entries}
use ledgerly.Sync.Account.{write_account}
use ledgerly.Sync.Transaction.{entry_tuple, upserted, write_transaction, deleted_store}
use ledgerly.Sync.Push.{push_all}
use ledgerly.Sync.Effects.{
  Effect, refused, deduped, account_created, account_updated, transaction_written,
  transaction_deleted, process_mutation_mem-Effect,
}
use ledgerly.Sync.Invariant.{push_all-preserves}

-- A stored entry as a draft.
abbrev pub entry_draft : String × ℤ × String → EntryDraft
entry_draft (account_id, amount_minor, currency) = record {
  account_id = account_id;
  amount_minor = amount_minor;
  currency = currency;
}

-- The number of entries that a mutation brings.
abbrev count_of {ℓ} : {E : Type ℓ} → Result (List EntryDraft) E → ℕ
count_of (ok drafts) = length drafts
count_of (err e) = 0

abbrev pub entry_count : SyncMutationDto → ℕ
entry_count m = count_of (parse_entries m)

-- The cast to `i64` keeps the amounts that `validate_balanced` accepts.
pub entry_draft-entry_tuple :
    (c : String) (ds : List EntryDraft)
    → All (IsPosting c) ds
    → map entry_draft (map entry_tuple ds) ≡ ds
entry_draft-entry_tuple c [] h = refl
entry_draft-entry_tuple c (d ∷ ds) h =
    rw (wrap_of_Fits i64_half d.amount_minor h.0.in_range, entry_draft-entry_tuple c ds h.1) refl

-- What is stored for drafts that `validate_balanced` accepts is balanced.
pub stored-IsBalanced :
    (drafts : List EntryDraft)
    → length drafts ≤ i64_half
    → validate_balanced drafts ≡ ok tt
    → IsBalanced (map entry_draft (map entry_tuple drafts))
stored-IsBalanced drafts small h =
    let b = (validate_balanced-IsBalanced drafts small).0 h in
    rw (entry_draft-entry_tuple (currency_of drafts) drafts b.posted) b

module _ {T : Type 0} where
  abbrev pub IsBalancedTx : TxRecord T → Type 0
  IsBalancedTx t = IsBalanced (map entry_draft t.entries)

  -- Every stored transaction, deleted or not, is balanced.
  abbrev pub IsDoubleEntry : MemoryStore T → Type 0
  IsDoubleEntry s = All IsBalancedTx (values s.transactions)

module _ {T : Type 0} (time : TimeLib T) where
  Effect-IsDoubleEntry :
      (s : MemoryStore T) (fresh : Fresh T) (book_id : String) (m : SyncMutationDto)
      (r : MutationReceiptDto) (s' : MemoryStore T)
      → Effect time s fresh book_id m r s'
      → entry_count m ≤ i64_half
      → IsDoubleEntry s
      → IsDoubleEntry s'
  unfolding write_account write_transaction deleted_store upserted
  Effect-IsDoubleEntry s fresh book_id m r s' (refused code v a b) small h = rw b h
  Effect-IsDoubleEntry s fresh book_id m r s' (deduped t f a b) small h = rw b h
  Effect-IsDoubleEntry s fresh book_id m r s' (account_created p i e v a b) small h = rw b h
  Effect-IsDoubleEntry s fresh book_id m r s' (account_updated p x i e o v a b) small h = rw b h
  Effect-IsDoubleEntry s fresh book_id m r s' (transaction_written q d i j l c g w f a b) small h =
      rw b (
        insert-All IsBalancedTx m.entity_id _ s.transactions (stored-IsBalanced d (rw l at small) c)
          h)
  Effect-IsDoubleEntry s fresh book_id m r s' (transaction_deleted t i j l o c a b) small h = rw b (
      insert-All IsBalancedTx m.entity_id _ s.transactions
        (lookup-All IsBalancedTx m.entity_id s.transactions t h l) h)

  -- A batch with at most 2 ^ 63 entries in each mutation keeps every stored transaction balanced: two
  -- entries or more, of one currency, no amount zero or outside `i64`, and the amounts add up to zero.
  pub push_all-IsDoubleEntry :
      (s : MemoryStore T) (book_id device_id : String) (ms : List (Fresh T × SyncMutationDto))
      → All (λ b. entry_count b.1 ≤ i64_half) ms
      → IsDoubleEntry s
      → IsDoubleEntry (push_all time s book_id device_id ms).1
  push_all-IsDoubleEntry s book_id device_id ms small h =
      push_all-preserves time book_id device_id IsDoubleEntry (λ m. entry_count m ≤ i64_half)
        (λ s fresh m q i.
          Effect-IsDoubleEntry s fresh book_id m _ _
            (process_mutation_mem-Effect time s fresh book_id m) q i)
        (λ s d i. i) ms s small h
