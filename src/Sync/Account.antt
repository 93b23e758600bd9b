-- ===== src/Sync/Account.antt =====
-- Account mutations on the in-memory store: `valid_account_parent_mem` and
-- `process_account_mutation_mem` of server/src/transport/http/sync.rs.
use ledgerly.Prelude.{
  ◌++◌, String, Bool, true, false, not, ◌&&◌, ◌||◌, [], ◌∷◌, Option, none, some, any, ◌==◌, is_text,
  string_eq, if◌then◌else◌, Result, ok, err,
}
use ledgerly.Prelude.Int.{pos, add_i64}
use ledgerly.Prelude.Dict.{lookup, insert, values}
use ledgerly.Json.{Value, string, object, of_fields, of_option}
use ledgerly.Contracts.{SyncMutationDto, MutationReceiptDto}
use ledgerly.State.{MemoryStore, AccountRecord, next_sequence}
use ledgerly.Sync.Receipt.{rejected_receipt, applied_receipt}
use ledgerly.Sync.Parse.{AccountPayload, parse_account_payload}

-- `payload.parent_account_id.clone().flatten()`
abbrev pub flatten : Option (Option String) → Option String
flatten none = none
flatten (some p) = p

-- `payload.parent_account_id.clone().unwrap_or(current)`
abbrev pub keep_or : Option (Option String) → Option String → Option String
keep_or none current = current
keep_or (some p) current = p

abbrev pub has_no_parent : AccountRecord → Bool
has_no_parent a = elim a.parent_account_id [ none ↦ true | some _ ↦ false ]

-- `json!` of an account's shared fields.
abbrev pub account_json : String → String → String → Option String → Value
account_json name account_type currency parent = object (
    of_fields (
      ("name", string name)
      ∷ ("accountType", string account_type)
      ∷ ("currency", string currency)
      ∷ ("parentAccountId", of_option parent)
      ∷ []))

abbrev pub new_account : String → String → AccountPayload → AccountRecord
new_account entity_id book_id p = record {
  id = entity_id;
  book_id = book_id;
  name = p.name;
  account_type = p.account_type;
  currency = p.currency;
  parent_account_id = flatten p.parent_account_id;
  version = pos 1;
}

abbrev pub renamed_account : AccountRecord → AccountPayload → AccountRecord
renamed_account a p = record a {
  name = p.name;
  parent_account_id = keep_or p.parent_account_id a.parent_account_id;
  version = add_i64 a.version (pos 1);
}

module _ {T : Type 0} where
  -- The tests on a parent that was named.
  unfoldable pub valid_parent_of : MemoryStore T → String → String → String → String → Bool
  valid_parent_of s book_id account_id account_type parent_id =
      if not ((account_type == "expense") || (account_type == "income"))
        || (parent_id == account_id)
      then false
      else elim (lookup parent_id s.accounts) [
        | none ↦ false
        | some parent ↦
            (parent.book_id == book_id)
            && (parent.account_type == account_type)
            && has_no_parent parent
            && not (any (λ a. is_text account_id a.parent_account_id) (values s.accounts))
      ]

  -- `valid_account_parent_mem`
  unfoldable pub valid_account_parent_mem :
      MemoryStore T → String → String → String → Option String → Bool
  unfolding valid_parent_of
  valid_account_parent_mem s book_id account_id account_type none = true
  valid_account_parent_mem s book_id account_id account_type (some parent_id) =
      valid_parent_of s book_id account_id account_type parent_id

  -- The account is written, and the change that announces it is appended.
  unfoldable pub write_account :
      MemoryStore T → String → String → String → AccountRecord → MemoryStore T
  write_account s uuid book_id entity_id a = record s {
    accounts = insert entity_id a s.accounts;
    changes =
        s.changes
        ++ record {
          sequence = next_sequence s.changes;
          book_id = book_id;
          commit_id = uuid;
          entity_type = "account";
          entity_id = entity_id;
          operation = "upsert";
          entity_version = a.version;
          payload = account_json a.name a.account_type a.currency a.parent_account_id;
        }
          ∷ [];
  }

  -- The branch of `create`.
  unfoldable pub create_account :
      MemoryStore T
      → String
      → String
      → SyncMutationDto
      → AccountPayload
      → Option AccountRecord
      → MutationReceiptDto × MemoryStore T
  create_account s uuid book_id m p (some existing) =
      (rejected_receipt m "LEDGER_VERSION_CONFLICT" (some existing.version), s)
  create_account s uuid book_id m p none =
      if not (
        valid_account_parent_mem s book_id m.entity_id p.account_type (flatten p.parent_account_id))
      then (rejected_receipt m "INVALID_CATEGORY_PARENT" none, s)
      else (
        applied_receipt m (pos 1),
        write_account s uuid book_id m.entity_id (new_account m.entity_id book_id p),
      )

  -- The branch of `update`. The type and the currency stay.
  unfoldable pub update_account :
      MemoryStore T
      → String
      → String
      → SyncMutationDto
      → AccountPayload
      → Option AccountRecord
      → MutationReceiptDto × MemoryStore T
  update_account s uuid book_id m p none = (rejected_receipt m "ACCOUNT_NOT_FOUND" none, s)
  update_account s uuid book_id m p (some existing) =
      if not (existing.book_id == book_id)
      then (rejected_receipt m "ACCOUNT_NOT_FOUND" none, s)
      else if not (
          valid_account_parent_mem s book_id m.entity_id existing.account_type
            (keep_or p.parent_account_id existing.parent_account_id))
      then (rejected_receipt m "INVALID_CATEGORY_PARENT" none, s)
      else (
        applied_receipt m (renamed_account existing p).version,
        write_account s uuid book_id m.entity_id (renamed_account existing p),
      )

  unfoldable pub write_parsed :
      MemoryStore T
      → String
      → String
      → SyncMutationDto
      → Result AccountPayload MutationReceiptDto
      → MutationReceiptDto × MemoryStore T
  write_parsed s uuid book_id m (err receipt) = (receipt, s)
  write_parsed s uuid book_id m (ok p) =
      if m.operation == "create"
      then create_account s uuid book_id m p (lookup m.entity_id s.accounts)
      else update_account s uuid book_id m p (lookup m.entity_id s.accounts)

  -- `process_account_mutation_mem`; `uuid` becomes the commit id.
  unfoldable pub process_account_mutation_mem :
      MemoryStore T → String → String → SyncMutationDto → MutationReceiptDto × MemoryStore T
  unfolding write_parsed create_account update_account write_account
  process_account_mutation_mem s uuid book_id m =
      write_parsed s uuid book_id m (parse_account_payload book_id m)
