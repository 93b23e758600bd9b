-- ===== src/Tests.antt =====
-- Runs at concrete inputs: a small book, its mutations, and each theorem applied to them.
mod Writers
mod Tokens
mod Users
mod Uploads
mod Objects
mod Reporting
use ledgerly.Prelude.{
  ℕ, ◌≡◌, ◌≢◌, ◌↔◌, ◌⊎◌, ◌++◌, refl, String, Bool, true, false, List, [], ◌∷◌, Option, none, some,
  filter, any, string_eq, ok, err, arith, text_ne, ap, sym,
}
use ledgerly.Prelude.Int.{ℤ, pos, negsuc, ◌+ℤ◌, wrap}
use ledgerly.Prelude.Dict.{lookup}
use ledgerly.Prelude.Dict
use ledgerly.Text.{trim, is_whitespace, all_chars}
use ledgerly.Json.{
  Value, string, array, object, of_fields, of_items, items, get, get_str, get_field, insert,
  insert_field,
}
use ledgerly.Domain.{EntryDraft, validate_balanced}
use ledgerly.Domain.Balance.{IsBalanced, validate_balanced-IsBalanced}
use ledgerly.Contracts.{SyncMutationDto, CreateTransactionRequest}
use ledgerly.State.{TimeLib, Fresh, MemoryStore, BookRecord, AccountRecord, TxRecord, ChangeRecord}
use ledgerly.Sync.Parse.{
  parse_entries, parse_source, parse_source_event_fingerprint, fingerprint_of, source_tag,
}
use ledgerly.Sync.Transaction.{owns_account, is_duplicate, process_mutation_mem}
use ledgerly.Sync.Push.{push_all, push}
use ledgerly.Sync.Pull.{
  page_response, sort_by_sequence, insert_sorted, fill_page, is_after, pull_page, pull,
}
use ledgerly.Sync.Bootstrap.{high_water, in_book, bootstrap}
use ledgerly.Sync.DoubleEntry.{IsDoubleEntry, push_all-IsDoubleEntry}
use ledgerly.Sync.Replay.{push_all_again}
use ledgerly.Sync.Hierarchy.{IsTree, is_placed, push_all-IsTree}
use ledgerly.Sync.References.{IsReferenced, push_all-IsReferenced}
use ledgerly.Sync.Log.{Logs, IsNumbered, process_mutation_mem-Logs, push_all-IsNumbered}
use ledgerly.Sync.Frame.{SameElsewhere, process_mutation_mem-frame}
use ledgerly.Sync.Versions.{Advances, process_mutation_mem-Advances, second_writer-refused}
use ledgerly.Sync.Capture.{captured-once}
use ledgerly.Sync.Pages.{pull_all, pull_page-split, pull_all_complete}
use ledgerly.Sync.Creation.{Creates, process_mutation_mem-Creates}
use ledgerly.Sync.Commits.{pull_page-whole}
use ledgerly.Sync.HighWater.{high_water-handover}
use ledgerly.Sync.Access.{forbidden, stranger-forbidden}
use ledgerly.Ledger.{create_transaction}
use ledgerly.Ledger.Posting.{create_transaction-IsNumbered, create_transaction-IsDoubleEntry}

abbrev clock : TimeLib ℕ
clock = record {
  parse_rfc3339 = λ s. some 7;
  to_utc = λ t. t;
  format_rfc3339 = λ t. "2024-01-01T00:00:00Z";
}

abbrev fingerprint : String
fingerprint = "0123456789abcdef0123456789abcdef0123456789abcdef0123456789abcdef"

abbrev at : String → Fresh ℕ
at uuid = record { now = 5; uuid = uuid }

abbrev category : String → String → Option String → AccountRecord
category id ty parent = record {
  id = id;
  book_id = "b";
  name = id;
  account_type = ty;
  currency = "CNY";
  parent_account_id = parent;
  version = pos 1;
}

abbrev snack : TxRecord ℕ
snack = record {
  id = "t0";
  book_id = "b";
  occurred_at = 3;
  description = none;
  version = pos 1;
  deleted = false;
  entries = ("b:meals", pos 5, "CNY") ∷ ("b:cash", negsuc 4, "CNY") ∷ [];
  source = some "auto_ledger";
  source_event_fingerprint = some fingerprint;
}

abbrev opened : MemoryStore ℕ
opened = record {
  users = [];
  users_by_email = [];
  sessions = [];
  refresh_to_session = [];
  books = ("b", record { id = "b"; name = "Personal"; owner_id = "u" }) ∷ [];
  accounts =
      ("b:cash", category "b:cash" "asset" none)
      ∷ ("b:food", category "b:food" "expense" none)
      ∷ ("b:meals", category "b:meals" "expense" (some "b:food"))
      ∷ [];
  transactions = [];
  mutations = [];
  changes = [];
  subscriptions = [];
  budgets = [];
  invites = [];
  revisions = [];
  audit_events = [];
  attachments = [];
}

abbrev entry : String → String → Value
entry account amount = object (
    of_fields (
      ("accountId", string account)
      ∷ ("amountMinor", string amount)
      ∷ ("currency", string "CNY")
      ∷ []))

abbrev lunch_payload : Value
lunch_payload = object (
    of_fields
      (("entries", array (of_items (entry "b:meals" "1200" ∷ entry "b:cash" "-1200" ∷ []))) ∷ []))

abbrev lunch : SyncMutationDto
lunch = record {
  mutation_id = "m1";
  entity_type = "transaction";
  entity_id = "t1";
  operation = "create";
  base_version = pos 0;
  schema_version = pos 1;
  payload = lunch_payload;
}

abbrev held : MemoryStore ℕ
held = record opened { transactions = ("t0", snack) ∷ [] }

abbrev correction : SyncMutationDto
correction = record lunch { entity_id = "t0"; operation = "update"; base_version = pos 1 }

abbrev late_correction : SyncMutationDto
late_correction = record correction { mutation_id = "m2" }

abbrev new_category : SyncMutationDto
new_category = record {
  mutation_id = "m3";
  entity_type = "account";
  entity_id = "b:drinks";
  operation = "create";
  base_version = pos 0;
  schema_version = pos 1;
  payload = object (
      of_fields (
        ("name", string "Drinks")
        ∷ ("accountType", string "expense")
        ∷ ("currency", string "CNY")
        ∷ ("parentAccountId", string "b:food")
        ∷ []));
}

abbrev batch : List (Fresh ℕ × SyncMutationDto)
batch = (at "c1", lunch) ∷ (at "c2", new_category) ∷ []

abbrev captured : SyncMutationDto
captured = record lunch {
  entity_id = "t9";
  payload = object (
      of_fields (
        ("entries", array (of_items (entry "b:meals" "5" ∷ entry "b:cash" "-5" ∷ [])))
        ∷ ("source", string "auto_ledger")
        ∷ ("sourceEventFingerprint", string fingerprint)
        ∷ []));
}

abbrev change : ℕ → String → String → ChangeRecord
change n book_id commit = record {
  sequence = pos n;
  book_id = book_id;
  commit_id = commit;
  entity_type = "account";
  entity_id = "a";
  operation = "upsert";
  entity_version = pos 1;
  payload = string "";
}

abbrev log : List ChangeRecord
log =
    change 1 "b" "c1"
    ∷ change 2 "x" "c2"
    ∷ change 3 "b" "c3"
    ∷ change 4 "b" "c3"
    ∷ change 5 "b" "c4"
    ∷ []

abbrev two : List EntryDraft
two =
    record { account_id = "a"; amount_minor = pos 7; currency = "CNY" }
    ∷ record { account_id = "b"; amount_minor = negsuc 6; currency = "CNY" }
    ∷ []

validate_balanced-IsBalanced_example : (validate_balanced two ≡ ok tt) ↔ IsBalanced two
validate_balanced-IsBalanced_example = validate_balanced-IsBalanced two (omega arith)

push_all-IsDoubleEntry_example : IsDoubleEntry (push_all clock opened "b" "d" batch).1
unfolding parse_entries get of_fields insert insert_field of_items items get_field
push_all-IsDoubleEntry_example =
    push_all-IsDoubleEntry clock opened "b" "d" batch (omega arith, (omega arith, tt)) tt

push_all_again_example :
    push_all clock (push_all clock opened "b" "d" batch).1 "b" "d" batch
    ≡ push_all clock opened "b" "d" batch
push_all_again_example = push_all_again clock opened "b" "d" batch batch (refl, (refl, tt))

push_all-IsTree_example : IsTree (push_all clock opened "b" "d" batch).1
unfolding is_placed lookup
push_all-IsTree_example = push_all-IsTree clock opened "b" "d" batch (refl, (refl, (refl, tt)))

push_all-IsReferenced_example : IsReferenced (push_all clock held "b" "d" batch).1
unfolding owns_account lookup
push_all-IsReferenced_example =
    push_all-IsReferenced clock held "b" "d" batch ((refl, (refl, tt)), tt)

process_mutation_mem-Logs_example :
    Logs opened "b" lunch
      (process_mutation_mem clock opened (at "c1") "b" lunch).0
      (process_mutation_mem clock opened (at "c1") "b" lunch).1
process_mutation_mem-Logs_example = process_mutation_mem-Logs clock opened (at "c1") "b" lunch

push_all-IsNumbered_example : IsNumbered (push_all clock opened "b" "d" batch).1.changes
push_all-IsNumbered_example = push_all-IsNumbered clock "b" "d" batch opened (omega arith) tt

process_mutation_mem-frame_example :
    SameElsewhere "t0" held (process_mutation_mem clock held (at "c1") "b" lunch).1
process_mutation_mem-frame_example =
    process_mutation_mem-frame clock held (at "c1") "b" lunch "t0" (text_ne refl)

process_mutation_mem-Advances_example :
    (((process_mutation_mem clock held (at "c1") "b" correction).0.status ≡ "rejected")
      × ((process_mutation_mem clock held (at "c1") "b" correction).1 ≡ held))
    ⊎ Advances clock held correction snack
        (process_mutation_mem clock held (at "c1") "b" correction).0
        (process_mutation_mem clock held (at "c1") "b" correction).1
unfolding lookup
process_mutation_mem-Advances_example =
    process_mutation_mem-Advances clock held (at "c1") "b" correction snack refl refl

captured-once_example :
    (((process_mutation_mem clock held (at "c1") "b" captured).0.status ≡ "rejected")
      ⊎ ((process_mutation_mem clock held (at "c1") "b" captured).0.result_code
          ≡ "AUTO_LEDGER_DEDUPED"))
    × ((process_mutation_mem clock held (at "c1") "b" captured).1 ≡ held)
unfolding lookup is_duplicate parse_source parse_source_event_fingerprint fingerprint_of source_tag
    get get_field of_fields insert insert_field trim is_whitespace all_chars
captured-once_example =
    captured-once clock held (at "c1") "b" captured "t0" fingerprint snack refl refl refl refl refl
      refl

log-IsNumbered : IsNumbered log
log-IsNumbered = (refl, (refl, (refl, (refl, (refl, tt)))))

pull_page-split_example :
    filter (is_after "b" (pos 1)) log
    ≡ (pull_page log "b" (pos 1) 1).changes
      ++ filter (is_after "b" (pull_page log "b" (pos 1) 1).next_cursor) log
pull_page-split_example = pull_page-split log "b" (pos 1) 1 log-IsNumbered

pull_all_complete_example : pull_all log "b" 1 9 (pos 0) ≡ some (filter (is_after "b" (pos 0)) log)
pull_all_complete_example =
    pull_all_complete log "b" 1 9 (pos 0) log-IsNumbered (omega arith) (omega arith)

high_water-handover_example :
    filter
      (is_after "b" (high_water (change 1 "b" "c1" ∷ []) "b"))
      (change 1 "b" "c1" ∷ change 2 "b" "c2" ∷ [])
    ≡ filter (in_book "b") (change 2 "b" "c2" ∷ [])
high_water-handover_example =
    high_water-handover (change 1 "b" "c1" ∷ []) (change 2 "b" "c2" ∷ []) "b" (refl, (refl, tt))

pull_page-whole_example : (change 4 "b" "c3").commit_id ≢ (change 5 "b" "c4").commit_id
unfolding pull_page sort_by_sequence insert_sorted fill_page
pull_page-whole_example =
    pull_page-whole log "b" (pos 1) 1 (change 4 "b" "c3") (change 5 "b" "c4") [] log-IsNumbered refl
      refl

abbrev request : CreateTransactionRequest
request = record {
  book_id = "b";
  description = none;
  entries =
      record { account_id = "b:meals"; amount_minor = "7"; currency = "CNY" }
      ∷ record { account_id = "b:cash"; amount_minor = "-7"; currency = "CNY" }
      ∷ [];
}

create_transaction-IsDoubleEntry_example :
    IsDoubleEntry (create_transaction clock opened 5 "t5" "c5" "u" request).1
create_transaction-IsDoubleEntry_example =
    create_transaction-IsDoubleEntry clock opened 5 "t5" "c5" "u" request (omega arith) tt

abbrev owner_of : Option BookRecord → String
owner_of none = ""
owner_of (some b) = b.owner_id

stranger-forbidden_example :
    (push clock opened "v" "b" "d" batch ≡ (err forbidden, opened))
    × (pull clock opened "v" "b" none none ≡ err forbidden)
    × (bootstrap clock opened "boot" "v" "b" ≡ err forbidden)
    × (create_transaction clock opened 5 "boot" "c5" "v" request ≡ (err forbidden, opened))
unfolding lookup
stranger-forbidden_example =
    stranger-forbidden clock opened "v" "b" "d" batch none none 5 "boot" "c5" request
      (λ b found. rw (sym (ap owner_of found)) (text_ne refl)) refl

create_transaction-IsNumbered_example :
    IsNumbered (create_transaction clock opened 5 "t5" "c5" "u" request).1.changes
create_transaction-IsNumbered_example =
    create_transaction-IsNumbered clock opened 5 "t5" "c5" "u" request (omega arith) tt

process_mutation_mem-Creates_example :
    ((process_mutation_mem clock opened (at "c1") "b" lunch).1 ≡ opened)
    ⊎ Creates "b" lunch
        (process_mutation_mem clock opened (at "c1") "b" lunch).0
        (process_mutation_mem clock opened (at "c1") "b" lunch).1
unfolding parse_entries get of_fields insert insert_field of_items items get_field lookup
process_mutation_mem-Creates_example =
    process_mutation_mem-Creates clock opened (at "c1") "b" lunch refl refl (omega arith)
