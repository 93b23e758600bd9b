-- ===== src/Sync/Push.antt =====
-- `push` of server/src/transport/http/sync.rs on the in-memory store; the loop holds
-- `memory_sync_lock` for each mutation.
use ledgerly.Prelude.{String, List, [], ◌∷◌, none, some, string_eq, Result, ok, err}
use ledgerly.Prelude.Dict.{lookup, insert}
use ledgerly.Contracts.{SyncMutationDto, MutationReceiptDto, SyncPushResponse}
use ledgerly.ApiError.{ApiError}
use ledgerly.Authz.{require_book_member}
use ledgerly.State.{TimeLib, Fresh, MemoryStore, MutationReceipt, MutationKey, key_eq}
use ledgerly.Sync.Transaction.{process_mutation_mem}

abbrev pub stored : MutationReceiptDto → MutationReceipt
stored r = record {
  status = r.status;
  result_code = r.result_code;
  entity_version = r.entity_version;
}

abbrev pub replayed : SyncMutationDto → MutationReceipt → MutationReceiptDto
replayed m r = record {
  mutation_id = m.mutation_id;
  status = r.status;
  result_code = r.result_code;
  entity_version = r.entity_version;
}

module _ {T : Type 0} (time : TimeLib T) where
  -- What is left of a round when the mutation has no receipt yet.
  unfoldable pub push_new :
      MemoryStore T
      → Fresh T
      → String
      → MutationKey
      → SyncMutationDto
      → MutationReceiptDto × MemoryStore T
  push_new s fresh book_id key m =
      let (receipt, s') = process_mutation_mem time s fresh book_id m in
      (receipt, record s' { mutations = insert key (stored receipt) s'.mutations })

  -- One round of the loop of `push`.
  unfoldable pub push_one :
      MemoryStore T
      → Fresh T
      → String
      → String
      → SyncMutationDto
      → MutationReceiptDto × MemoryStore T
  unfolding push_new
  push_one s fresh book_id device_id m =
      let key : MutationKey = (book_id, device_id, m.mutation_id) in
      elim (lookup key s.mutations) [
        | some existing ↦ (replayed m existing, s)
        | none ↦ push_new s fresh book_id key m
      ]

  -- The loop of `push`. Each mutation comes with the instant and the UUID that its round draws.
  unfoldable pub push_all :
      MemoryStore T
      → String
      → String
      → List (Fresh T × SyncMutationDto)
      → List MutationReceiptDto × MemoryStore T
  unfolding push_one
  push_all s book_id device_id [] = ([], s)
  push_all s book_id device_id ((fresh, m) ∷ ms) =
      let (receipt, s') = push_one s fresh book_id device_id m in
      let (receipts, s'') = push_all s' book_id device_id ms in (receipt ∷ receipts, s'')

  abbrev pub push_member :
      MemoryStore T
      → String
      → String
      → List (Fresh T × SyncMutationDto)
      → Result (Unit {0}) ApiError
      → Result SyncPushResponse ApiError × MemoryStore T
  push_member s book_id device_id ms (err e) = (err e, s)
  push_member s book_id device_id ms (ok _) =
      let (receipts, s') = push_all s book_id device_id ms in
      (ok (record { receipts = receipts }), s')

  -- `push`
  unfoldable pub push :
      MemoryStore T
      → String
      → String
      → String
      → List (Fresh T × SyncMutationDto)
      → Result SyncPushResponse ApiError × MemoryStore T
  unfolding push_all require_book_member
  push s user_id book_id device_id ms =
      push_member s book_id device_id ms (require_book_member s user_id book_id)
