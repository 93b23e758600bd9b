-- ===== src/Sync/Replay.antt =====
-- On a batch that is sent to `push` of server/src/transport/http/sync.rs again.
use ledgerly.Prelude.{
  String, ◌≡◌, ◌≢◌, refl, sym, ap, List, [], ◌∷◌, some, Option-cases, inl, inr, arith,
}
use ledgerly.Prelude.Dict.{lookup, lookup-insert_ne, lookup-insert_self}
use ledgerly.Contracts.{SyncMutationDto, MutationReceiptDto}
use ledgerly.State.{TimeLib, Fresh, MemoryStore, MutationReceipt, MutationKey, key_eq}
use ledgerly.Sync.Account.{write_account}
use ledgerly.Sync.Transaction.{write_transaction, deleted_store, process_mutation_mem}
use ledgerly.Sync.Effects.{
  Effect, refused, deduped, account_created, account_updated, transaction_written,
  transaction_deleted, process_mutation_mem-Effect,
}
use ledgerly.Sync.Push.{stored, push_new, push_one, push_all}

-- Two batches whose mutations carry the same ids, in the same order.
abbrev pub SameIds :
    {T : Type 0} → List (Fresh T × SyncMutationDto) → List (Fresh T × SyncMutationDto) → Type 0
SameIds [] [] = Unit
SameIds [] (b ∷ bs) = ⊥
SameIds (a ∷ as') [] = ⊥
SameIds (a ∷ as') (b ∷ bs) = (a.1.mutation_id ≡ b.1.mutation_id) × SameIds as' bs

module _ {T : Type 0} (time : TimeLib T) where
  -- A handler answers under the mutation's id, and touches no receipt.
  Effect-receipts :
      (s : MemoryStore T) (fresh : Fresh T) (book_id : String) (m : SyncMutationDto)
      (r : MutationReceiptDto) (s' : MemoryStore T)
      → Effect time s fresh book_id m r s'
      → (r.mutation_id ≡ m.mutation_id) × (s'.mutations ≡ s.mutations)
  unfolding write_account write_transaction deleted_store
  Effect-receipts s fresh book_id m r s' (refused code v a b) = ground arith
  Effect-receipts s fresh book_id m r s' (deduped t f a b) = ground arith
  Effect-receipts s fresh book_id m r s' (account_created p i e v a b) = ground arith
  Effect-receipts s fresh book_id m r s' (account_updated p x i e o v a b) = ground arith
  Effect-receipts s fresh book_id m r s' (transaction_written q d i j l c g h f a b) = ground arith
  Effect-receipts s fresh book_id m r s' (transaction_deleted t i j l o c a b) = ground arith

  module _ (book_id device_id : String) where
    abbrev key_of : String → MutationKey
    key_of id = (book_id, device_id, id)

    abbrev Recorded : MemoryStore T → SyncMutationDto → MutationReceiptDto → Type 0
    Recorded s m r =
        (lookup (key_of m.mutation_id) s.mutations ≡ some (stored r))
        × (r.mutation_id ≡ m.mutation_id)

    receipts :
        (s : MemoryStore T) (fresh : Fresh T) (m : SyncMutationDto)
        → ((process_mutation_mem time s fresh book_id m).0.mutation_id ≡ m.mutation_id)
          × ((process_mutation_mem time s fresh book_id m).1.mutations ≡ s.mutations)
    receipts s fresh m =
        Effect-receipts s fresh book_id m _ _ (process_mutation_mem-Effect time s fresh book_id m)

    push_one-Recorded :
        (s : MemoryStore T) (fresh : Fresh T) (m : SyncMutationDto)
        → Recorded
            (push_one time s fresh book_id device_id m).1
            m
            (push_one time s fresh book_id device_id m).0
    unfolding push_one push_new
    push_one-Recorded s fresh m = elim (Option-cases (lookup (key_of m.mutation_id) s.mutations)) [
      | inr (r, known) ↦ rw (known, push_one) (known, refl)
      | inl new ↦ rw (new, push_one) (lookup-insert_self _ _ _, (receipts s fresh m).0)
    ]

    -- A receipt that is recorded stays.
    push_one-keeps :
        (s : MemoryStore T) (fresh : Fresh T) (m : SyncMutationDto) (id : String)
        (x : MutationReceipt)
        → lookup (key_of id) s.mutations ≡ some x
        → lookup (key_of id) (push_one time s fresh book_id device_id m).1.mutations ≡ some x
    unfolding push_one push_new
    push_one-keeps s fresh m id x h =
        elim (Option-cases (lookup (key_of m.mutation_id) s.mutations)) [
          | inr (r, known) ↦ rw (known, push_one) h
          | inl new ↦
              let other : key_of m.mutation_id ≢ key_of id =
                λ e. cc (ap (λ k. lookup k s.mutations) e) in
              rw (new, push_one, lookup-insert_ne _ _ _ _ other, (receipts s fresh m).1) h
        ]

    push_all-keeps :
        (ms : List (Fresh T × SyncMutationDto)) (s : MemoryStore T) (id : String)
        (x : MutationReceipt)
        → lookup (key_of id) s.mutations ≡ some x
        → lookup (key_of id) (push_all time s book_id device_id ms).1.mutations ≡ some x
    unfolding push_all
    push_all-keeps [] s id x h = h
    push_all-keeps ((fresh, m) ∷ ms) s id x h =
        push_all-keeps ms _ id x (push_one-keeps s fresh m id x h)

    -- The receipts that a store holds for a batch, in order.
    abbrev AllRecorded :
        MemoryStore T → List (Fresh T × SyncMutationDto) → List MutationReceiptDto → Type 0
    AllRecorded s [] [] = Unit
    AllRecorded s [] (r ∷ rs) = ⊥
    AllRecorded s (m ∷ ms) [] = ⊥
    AllRecorded s (m ∷ ms) (r ∷ rs) = Recorded s m.1 r × AllRecorded s ms rs

    push_all-AllRecorded :
        (ms : List (Fresh T × SyncMutationDto)) (s : MemoryStore T)
        → AllRecorded
            (push_all time s book_id device_id ms).1
            ms
            (push_all time s book_id device_id ms).0
    unfolding push_all
    push_all-AllRecorded [] s = tt
    push_all-AllRecorded ((fresh, m) ∷ ms) s =
        let (found, id) = push_one-Recorded s fresh m in
        ((push_all-keeps ms _ m.mutation_id _ found, id), push_all-AllRecorded ms _)

    -- A recorded mutation is answered from its receipt.
    push_one-again :
        (s : MemoryStore T) (fresh : Fresh T) (m : SyncMutationDto) (r : MutationReceiptDto)
        → lookup (key_of m.mutation_id) s.mutations ≡ some (stored r)
        → r.mutation_id ≡ m.mutation_id
        → push_one time s fresh book_id device_id m ≡ (r, s)
    unfolding push_one
    push_one-again s fresh m r found id = rw (found, push_one) (ground arith)

    push_all-again :
        (ms again : List (Fresh T × SyncMutationDto)) (s : MemoryStore T)
        (rs : List MutationReceiptDto)
        → SameIds ms again
        → AllRecorded s ms rs
        → push_all time s book_id device_id again ≡ (rs, s)
    unfolding push_all
    push_all-again [] [] s [] e h = refl
    push_all-again [] [] s (r ∷ rs) e h = absurd h
    push_all-again [] (b ∷ bs) s rs e h = absurd e
    push_all-again (a ∷ as') [] s rs e h = absurd e
    push_all-again (a ∷ as') (b ∷ bs) s [] e h = absurd h
    push_all-again (a ∷ as') (b ∷ bs) s (r ∷ rs) e h =
        let one : push_one time s b.0 book_id device_id b.1 ≡ (r, s) =
          push_one-again s b.0 b.1 r (rw (sym e.0) h.0.0) (cc) in
        rw (one, push_all-again as' bs s rs e.1 h.1) refl

  -- A batch that a device sends again right away for the same book, with the same mutation ids in the
  -- same order (whatever else the mutations hold now), gets the same receipts again and leaves the
  -- store as it is.
  pub push_all_again :
      (s : MemoryStore T) (book_id device_id : String) (ms again : List (Fresh T × SyncMutationDto))
      → SameIds ms again
      → push_all time (push_all time s book_id device_id ms).1 book_id device_id again
        ≡ push_all time s book_id device_id ms
  push_all_again s book_id device_id ms again e =
      push_all-again book_id device_id ms again _ _ e (push_all-AllRecorded book_id device_id ms s)
