-- ===== src/Sync/Transaction.antt =====
-- Transaction mutations on the in-memory store: `process_mutation_mem` and `process_delete_mem` of
-- server/src/transport/http/sync.rs.
use ledgerly.Prelude.{
  ◌++◌, String, Bool, true, false, not, ◌&&◌, ◌||◌, List, [], ◌∷◌, Option, none, some, map, all,
  find, ◌==◌, is_text, string_eq, if◌then◌else◌, Result, ok, err,
}
use ledgerly.Prelude.Int.{ℤ, pos, eqb_ℤ, as_i64, add_i64}
use ledgerly.Prelude.Dict.{lookup, insert, values}
use ledgerly.Json.{Value, string, get, get_str}
use ledgerly.Json
use ledgerly.Domain.{EntryDraft}
use ledgerly.Contracts.{SyncMutationDto, MutationReceiptDto}
use ledgerly.State.{TimeLib, Fresh, MemoryStore, TxRecord, next_sequence}
use ledgerly.Sync.Receipt.{rejected_receipt, applied_receipt, deduped_receipt}
use ledgerly.Sync.Parse.{
  parse_entries, parse_occurred_at, parse_source, parse_source_event_fingerprint,
  canonical_transaction_payload, validate_or_reject,
}
use ledgerly.Sync.Account.{process_account_mutation_mem}

abbrev pub or_else {ℓ} : {A : Type ℓ} → Option A → Option A → Option A
or_else none b = b
or_else (some a) b = some a

abbrev pub unwrap_or {ℓ} : {A : Type ℓ} → Option A → A → A
unwrap_or none d = d
unwrap_or (some a) d = a

-- `(d.account_id.clone(), d.amount_minor as i64, d.currency.clone())`
abbrev pub entry_tuple : EntryDraft → String × ℤ × String
entry_tuple d = (d.account_id, as_i64 d.amount_minor, d.currency)

-- `object.insert("source", ..)` unless the payload has the key or nothing was stored.
unfoldable pub carry_source : Value → Option String → Value
carry_source payload none = payload
carry_source payload (some source) = elim (get "source" payload) [
  | some _ ↦ payload
  | none ↦ Json.insert "source" (string source) payload
]

module _ {T : Type 0} where
  -- `account.book_id == book_id` for the account that a draft names.
  unfoldable pub owns_account : MemoryStore T → String → String → Bool
  owns_account s book_id account_id = elim (lookup account_id s.accounts) [
    | none ↦ false
    | some a ↦ a.book_id == book_id
  ]

  abbrev pub old_version : Option (TxRecord T) → ℤ
  old_version none = pos 0
  old_version (some t) = t.version

  -- The version that is refused, if the mutation is not based on the stored one.
  unfoldable pub version_conflict : SyncMutationDto → Option (TxRecord T) → Option ℤ
  version_conflict m none = none
  version_conflict m (some t) =
      if (m.operation == "create") || not (eqb_ℤ m.base_version t.version)
      then some t.version
      else none

  -- A live record of the same captured event.
  unfoldable pub is_duplicate : String → String → TxRecord T → Bool
  is_duplicate book_id fingerprint t =
      (t.book_id == book_id)
      && is_text "auto_ledger" t.source
      && is_text fingerprint t.source_event_fingerprint
      && not t.deleted

  -- The search for a duplicate: only for a new record that carries a fingerprint and the tag.
  unfoldable pub find_duplicate :
      MemoryStore T → String → SyncMutationDto → Option (TxRecord T) → Option (TxRecord T)
  find_duplicate s book_id m (some t) = none
  find_duplicate s book_id m none = elim (parse_source_event_fingerprint m) [
    | none ↦ none
    | some fingerprint ↦
        if is_text "auto_ledger" (parse_source m)
        then find (is_duplicate book_id fingerprint) (values s.transactions)
        else none
  ]

  abbrev pub next_version : Option (TxRecord T) → ℤ
  next_version none = pos 1
  next_version (some t) = add_i64 t.version (pos 1)

  abbrev pub instant_of : Option (TxRecord T) → Option T
  instant_of none = none
  instant_of (some t) = some t.occurred_at

  abbrev pub source_of : Option (TxRecord T) → Option String
  source_of none = none
  source_of (some t) = t.source

  -- The record that an accepted `create` or `update` stores.
  unfoldable pub upserted :
      T → String → SyncMutationDto → Option T → List EntryDraft → Option (TxRecord T) → TxRecord T
  upserted now book_id m requested drafts existing = record {
    id = m.entity_id;
    book_id = book_id;
    occurred_at = unwrap_or (or_else requested (instant_of existing)) now;
    description = get_str "description" m.payload;
    version = next_version existing;
    deleted = false;
    entries = map entry_tuple drafts;
    source = or_else (parse_source m) (source_of existing);
    source_event_fingerprint = parse_source_event_fingerprint m;
  }

  -- The record is marked, and the change that announces it is appended.
  unfoldable pub deleted_store :
      MemoryStore T → String → String → SyncMutationDto → TxRecord T → MemoryStore T
  deleted_store s uuid book_id m existing = record s {
    transactions =
        insert m.entity_id
          (record existing { deleted = true; version = add_i64 existing.version (pos 1) })
          s.transactions;
    changes =
        s.changes
        ++ record {
          sequence = next_sequence s.changes;
          book_id = book_id;
          commit_id = uuid;
          entity_type = "transaction";
          entity_id = m.entity_id;
          operation = "delete";
          entity_version = add_i64 existing.version (pos 1);
          payload = m.payload;
        }
          ∷ [];
  }

  unfoldable pub delete_found :
      MemoryStore T
      → String
      → String
      → SyncMutationDto
      → Option (TxRecord T)
      → MutationReceiptDto × MemoryStore T
  delete_found s uuid book_id m none = (rejected_receipt m "NOT_FOUND" none, s)
  delete_found s uuid book_id m (some existing) =
      if not (existing.book_id == book_id)
      then (rejected_receipt m "NOT_FOUND" none, s)
      else if not (eqb_ℤ m.base_version (pos 0)) && not (eqb_ℤ m.base_version existing.version)
      then (rejected_receipt m "LEDGER_VERSION_CONFLICT" (some existing.version), s)
      else (
        applied_receipt m (add_i64 existing.version (pos 1)),
        deleted_store s uuid book_id m existing,
      )

  -- `process_delete_mem`
  unfoldable pub process_delete_mem :
      MemoryStore T → String → String → SyncMutationDto → MutationReceiptDto × MemoryStore T
  unfolding delete_found deleted_store
  process_delete_mem s uuid book_id m =
      delete_found s uuid book_id m (lookup m.entity_id s.transactions)

module _ {T : Type 0} (time : TimeLib T) where
  -- The record is stored, and the change that announces it is appended.
  unfoldable pub write_transaction :
      MemoryStore T
      → Fresh T
      → String
      → SyncMutationDto
      → Option T
      → List EntryDraft
      → Option (TxRecord T)
      → MutationReceiptDto × MemoryStore T
  unfolding upserted
  write_transaction s fresh book_id m requested drafts existing =
      let t = upserted fresh.now book_id m requested drafts existing in
      (
        applied_receipt m t.version,
        record s {
          transactions = insert m.entity_id t s.transactions;
          changes =
              s.changes
              ++ record {
                sequence = next_sequence s.changes;
                book_id = book_id;
                commit_id = fresh.uuid;
                entity_type = "transaction";
                entity_id = m.entity_id;
                operation = "upsert";
                entity_version = t.version;
                payload =
                    carry_source (canonical_transaction_payload time m.payload t.occurred_at)
                      (source_of existing);
              }
                ∷ [];
        },
      )

  -- `process_mutation_mem` from the write lock on.
  unfoldable pub upsert_mem :
      MemoryStore T
      → Fresh T
      → String
      → SyncMutationDto
      → Option T
      → List EntryDraft
      → MutationReceiptDto × MemoryStore T
  unfolding write_transaction
  upsert_mem s fresh book_id m requested drafts =
      let existing = lookup m.entity_id s.transactions in
      if not (all (λ d. owns_account s book_id d.account_id) drafts)
      then (rejected_receipt m "ACCOUNT_NOT_FOUND" none, s)
      else elim (version_conflict m existing) [
        | some version ↦ (rejected_receipt m "LEDGER_VERSION_CONFLICT" (some version), s)
        | none ↦ elim (find_duplicate s book_id m existing) [
          | some t ↦ (deduped_receipt m t.version, s)
          | none ↦ write_transaction s fresh book_id m requested drafts existing
        ]
      ]

  -- The parsing of a `create` or an `update`, up to the write lock.
  unfoldable pub parse_transaction :
      SyncMutationDto → Result (Option T × List EntryDraft) MutationReceiptDto
  parse_transaction m = elim (parse_occurred_at time m) [
    | err receipt ↦ err receipt
    | ok requested ↦ elim (parse_entries m) [
      | err receipt ↦ err receipt
      | ok drafts ↦ elim (validate_or_reject m drafts) [
        | some receipt ↦ err receipt
        | none ↦ ok (requested, drafts)
      ]
    ]
  ]

  -- `process_mutation_mem`
  unfoldable pub process_mutation_mem :
      MemoryStore T → Fresh T → String → SyncMutationDto → MutationReceiptDto × MemoryStore T
  unfolding parse_transaction process_delete_mem upsert_mem
  process_mutation_mem s fresh book_id m =
      if m.entity_type == "account"
      then process_account_mutation_mem s fresh.uuid book_id m
      else if not (m.entity_type == "transaction")
      then (rejected_receipt m "UNSUPPORTED_MUTATION" none, s)
      else if m.operation == "delete"
      then process_delete_mem s fresh.uuid book_id m
      else elim (parse_transaction m) [
        | err receipt ↦ (receipt, s)
        | ok (requested, drafts) ↦ upsert_mem s fresh book_id m requested drafts
      ]
