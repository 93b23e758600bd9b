-- ===== src/Sync/Invariant.antt =====
-- From one mutation to a whole `push` of server/src/transport/http/sync.rs: invariants that do not read
-- the receipts.
use ledgerly.Prelude.{String, List, [], ◌∷◌, All, Option-cases, inl, inr}
use ledgerly.Prelude.Dict.{Dict, lookup}
use ledgerly.Contracts.{SyncMutationDto}
use ledgerly.State.{TimeLib, Fresh, MemoryStore, MutationKey, MutationReceipt, key_eq}
use ledgerly.Sync.Transaction.{process_mutation_mem}
use ledgerly.Sync.Push.{push_new, push_one, push_all}

module _ {T : Type 0} (time : TimeLib T) (book_id device_id : String) (I : MemoryStore T → Type 0)
    (Q : SyncMutationDto → Type 0)
    (step : (s : MemoryStore T) (fresh : Fresh T) (m : SyncMutationDto)
      → Q m
      → I s
      → I (process_mutation_mem time s fresh book_id m).1)
    (receipts : (s : MemoryStore T) (d : Dict MutationKey MutationReceipt)
      → I s
      → I (record s { mutations = d })) where
  push_one-preserves :
      (s : MemoryStore T) (fresh : Fresh T) (m : SyncMutationDto)
      → Q m
      → I s
      → I (push_one time s fresh book_id device_id m).1
  unfolding push_one push_new
  push_one-preserves s fresh m q h =
      elim (Option-cases (lookup (book_id, device_id, m.mutation_id) s.mutations)) [
        | inr (r, known) ↦ rw (known, push_one) h
        | inl new ↦ rw (new, push_one) (receipts _ _ (step s fresh m q h))
      ]

  pub push_all-preserves :
      (ms : List (Fresh T × SyncMutationDto)) (s : MemoryStore T)
      → All (λ b. Q b.1) ms
      → I s
      → I (push_all time s book_id device_id ms).1
  unfolding push_all
  push_all-preserves [] s q h = h
  push_all-preserves ((fresh, m) ∷ ms) s q h =
      push_all-preserves ms _ q.1 (push_one-preserves s fresh m q.0 h)
