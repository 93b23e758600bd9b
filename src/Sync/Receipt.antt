-- ===== src/Sync/Receipt.antt =====
-- Receipts of server/src/transport/http/sync.rs.
use ledgerly.Prelude.{String, Option, some}
use ledgerly.Prelude.Int.{ℤ}
use ledgerly.Contracts.{SyncMutationDto, MutationReceiptDto}

-- `rejected_receipt`
abbrev pub rejected_receipt : SyncMutationDto → String → Option ℤ → MutationReceiptDto
rejected_receipt mutation result_code entity_version = record {
  mutation_id = mutation.mutation_id;
  status = "rejected";
  result_code = result_code;
  entity_version = entity_version;
}

-- `applied_receipt`
abbrev pub applied_receipt : SyncMutationDto → ℤ → MutationReceiptDto
applied_receipt mutation version = record {
  mutation_id = mutation.mutation_id;
  status = "applied";
  result_code = "OK";
  entity_version = some version;
}

-- The receipt of an event that another device has already captured.
abbrev pub deduped_receipt : SyncMutationDto → ℤ → MutationReceiptDto
deduped_receipt mutation version = record {
  mutation_id = mutation.mutation_id;
  status = "applied";
  result_code = "AUTO_LEDGER_DEDUPED";
  entity_version = some version;
}
