-- ===== src/Sync/Log.antt =====
-- The change log that `process_mutation_mem` and `push` of server/src/transport/http/sync.rs write.
use ledgerly.Prelude.{
  ℕ, suc, ◌+◌, ◌<◌, ◌≡◌, ◌∙◌, refl, ap, String, List, [], ◌∷◌, ◌++◌, Option-cases, inl, inr, ◌⊎◌,
  length, length-append, arith,
}
use ledgerly.Prelude.Int.{pos, ◌+ℤ◌, i64_half, wrap_of_Fits}
use ledgerly.Prelude.Dict.{lookup}
use ledgerly.Contracts.{SyncMutationDto, MutationReceiptDto}
use ledgerly.State.{TimeLib, Fresh, MemoryStore, ChangeRecord, key_eq, next_sequence}
use ledgerly.Sync.Receipt.{applied_receipt}
use ledgerly.Sync.Account.{write_account}
use ledgerly.Sync.Transaction.{write_transaction, deleted_store, process_mutation_mem}
use ledgerly.Sync.Effects.{
  Effect, refused, deduped, account_created, account_updated, transaction_written,
  transaction_deleted, process_mutation_mem-Effect,
}
use ledgerly.Sync.Push.{push_new, push_one, push_all}

-- The n-th change, from k on, has the number n + 1.
abbrev pub NumberedFrom : ℕ → List ChangeRecord → Type 0
NumberedFrom k [] = Unit
NumberedFrom k (c ∷ cs) = (c.sequence ≡ pos (suc k)) × NumberedFrom (suc k) cs

abbrev pub IsNumbered : List ChangeRecord → Type 0
IsNumbered changes = NumberedFrom 0 changes

pub NumberedFrom-append :
    (k : ℕ) (cs : List ChangeRecord) (c : ChangeRecord)
    → NumberedFrom k cs
    → c.sequence ≡ pos (suc (k + length cs))
    → NumberedFrom k (cs ++ c ∷ [])
NumberedFrom-append k [] c h e = (rw e (ap pos (omega arith)), tt)
NumberedFrom-append k (d ∷ ds) c h e =
    (h.0, NumberedFrom-append (suc k) ds c h.1 (rw e (ap pos (omega arith))))

-- The number of the next change, as long as the log is shorter than 2 ^ 63 - 1.
pub next_sequence_lem :
    (cs : List ChangeRecord) → suc (length cs) < i64_half → next_sequence cs ≡ pos (suc (length cs))
unfolding next_sequence ◌+ℤ◌
next_sequence_lem cs small =
    rw (wrap_of_Fits i64_half (pos (length cs)) (omega arith, omega arith))
      (wrap_of_Fits i64_half (pos (length cs) +ℤ pos 1) (ground arith) ∙ ground arith)

module _ {T : Type 0} where
  -- What a mutation does to the log, and the receipt that goes with it.
  pub data Logs (s : MemoryStore T) (book_id : String) (m : SyncMutationDto)
      (r : MutationReceiptDto) (s' : MemoryStore T) : Type 0 where
    silent :
        s'.changes ≡ s.changes
        → (r.status ≡ "rejected") ⊎ (r.result_code ≡ "AUTO_LEDGER_DEDUPED")
        → Logs s book_id m r s'
    announced :
        (c : ChangeRecord)
        → s'.changes ≡ s.changes ++ c ∷ []
        → c.sequence ≡ next_sequence s.changes
        → c.book_id ≡ book_id
        → c.entity_id ≡ m.entity_id
        → r ≡ applied_receipt m c.entity_version
        → Logs s book_id m r s'

module _ {T : Type 0} (time : TimeLib T) where
  Effect-Logs :
      (s : MemoryStore T) (fresh : Fresh T) (book_id : String) (m : SyncMutationDto)
      (r : MutationReceiptDto) (s' : MemoryStore T)
      → Effect time s fresh book_id m r s'
      → Logs s book_id m r s'
  unfolding write_account write_transaction deleted_store
  Effect-Logs s fresh book_id m r s' (refused code v a b) =
      silent (ap (λ x. x.changes) b) (inl (ap (λ x. x.status) a))
  Effect-Logs s fresh book_id m r s' (deduped t f a b) =
      silent (ap (λ x. x.changes) b) (inr (ap (λ x. x.result_code) a))
  Effect-Logs s fresh book_id m r s' (account_created p i e v a b) =
      announced _ (ap (λ x. x.changes) b) refl refl refl a
  Effect-Logs s fresh book_id m r s' (account_updated p x i e o v a b) =
      announced _ (ap (λ x. x.changes) b) refl refl refl a
  Effect-Logs s fresh book_id m r s' (transaction_written q d i j l c g h f a b) =
      announced _ (ap (λ x. x.changes) b) refl refl refl a
  Effect-Logs s fresh book_id m r s' (transaction_deleted t i j l o c a b) =
      announced _ (ap (λ x. x.changes) b) refl refl refl a

  -- A mutation either leaves the log as it is and is answered `rejected` or `AUTO_LEDGER_DEDUPED`, or
  -- it appends exactly one change, of the book and the entity, with the next number, and the receipt
  -- is `applied` with that change's version.
  pub process_mutation_mem-Logs :
      (s : MemoryStore T) (fresh : Fresh T) (book_id : String) (m : SyncMutationDto)
      → Logs s book_id m
          (process_mutation_mem time s fresh book_id m).0
          (process_mutation_mem time s fresh book_id m).1
  process_mutation_mem-Logs s fresh book_id m =
      Effect-Logs s fresh book_id m _ _ (process_mutation_mem-Effect time s fresh book_id m)

  Logs-IsNumbered :
      (s : MemoryStore T) (book_id : String) (m : SyncMutationDto) (r : MutationReceiptDto)
      (s' : MemoryStore T) (n : ℕ)
      → Logs s book_id m r s'
      → length s.changes + suc n < i64_half
      → IsNumbered s.changes
      → IsNumbered s'.changes × (length s'.changes + n < i64_half)
  Logs-IsNumbered s book_id m r s' n (silent e k) small h = (rw e h, rw e (omega arith))
  Logs-IsNumbered s book_id m r s' n (announced c e q b i k) small h = (
    rw e (
        NumberedFrom-append 0 s.changes c h
          (q ∙ next_sequence_lem s.changes (omega arith) ∙ ap pos (omega arith))),
    rw (e, length-append) (omega arith),
  )

  push_one-IsNumbered :
      (s : MemoryStore T) (fresh : Fresh T) (book_id device_id : String) (m : SyncMutationDto)
      (n : ℕ)
      → length s.changes + suc n < i64_half
      → IsNumbered s.changes
      → IsNumbered (push_one time s fresh book_id device_id m).1.changes
        × (length (push_one time s fresh book_id device_id m).1.changes + n < i64_half)
  unfolding push_one push_new
  push_one-IsNumbered s fresh book_id device_id m n small h =
      elim (Option-cases (lookup (book_id, device_id, m.mutation_id) s.mutations)) [
        | inr (r, known) ↦ rw (known, push_one) (h, omega arith)
        | inl new ↦
            rw (new, push_one)
              (Logs-IsNumbered s book_id m _ _ n (process_mutation_mem-Logs s fresh book_id m) small
                h)
      ]

  -- While the log stays shorter than 2 ^ 63, a batch keeps the changes numbered 1, 2, 3 and so on
  -- without a gap, over all books.
  pub push_all-IsNumbered :
      (book_id device_id : String) (ms : List (Fresh T × SyncMutationDto)) (s : MemoryStore T)
      → length s.changes + length ms < i64_half
      → IsNumbered s.changes
      → IsNumbered (push_all time s book_id device_id ms).1.changes
  unfolding push_all
  push_all-IsNumbered book_id device_id [] s small h = h
  push_all-IsNumbered book_id device_id ((fresh, m) ∷ ms) s small h =
      let (numbered, left) = push_one-IsNumbered s fresh book_id device_id m (length ms) small h in
      push_all-IsNumbered book_id device_id ms _ left numbered
