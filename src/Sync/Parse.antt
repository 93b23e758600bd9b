-- ===== src/Sync/Parse.antt =====
-- Reading a mutation's payload: the parsers and validators of server/src/transport/http/sync.rs.
use Prim.Native.String.{count, len}
use text.Mathlib.Text.{starts_with}
use ledgerly.Prelude.{
  String, Bool, true, false, not, ◌&&◌, ◌||◌, List, Option, none, some, map, ◌==◌, ltb, eqb,
  if◌then◌else◌, Result, ok, err, ◌>>=◌, ◌>>◌, refuse_if, ok_or,
}
use ledgerly.Prelude.Int.{ℤ, pos}
use ledgerly.Json.{Value, null, string, get, get_str, as_array, insert}
use ledgerly.Text.{concat, is_empty, all_chars, trim, strip_prefix, parse_i128, is_ascii_hexdigit}
use ledgerly.Domain.{EntryDraft, DomainError, unbalanced, is_currency, validate_balanced}
use ledgerly.Contracts.{SyncMutationDto, MutationReceiptDto}
use ledgerly.State.{TimeLib}
use ledgerly.Sync.Receipt.{rejected_receipt}

pub record AccountPayload : Type 0 where
  pub name : String
  pub account_type : String
  pub currency : String
  -- Missing keeps the parent, `null` moves to the root.
  pub parent_account_id : Option (Option String)

-- `matches!(account_type, "asset" | "liability" | "income" | "expense" | "equity")`
unfoldable pub is_account_type : String → Bool
is_account_type t =
    (t == "asset") || (t == "liability") || (t == "income") || (t == "expense") || (t == "equity")

-- `entity_id.strip_prefix(&scoped_prefix)` with something behind the prefix.
unfoldable pub is_scoped : String → String → Bool
is_scoped prefix id = elim (strip_prefix prefix id) [
  | none ↦ false
  | some rest ↦ not (is_empty rest)
]

-- The `match` on the payload's `parentAccountId`.
unfoldable pub parse_parent : String → Option Value → Result (Option (Option String)) (Unit {0})
parse_parent prefix none = ok none
parse_parent prefix (some null) = ok (some none)
parse_parent prefix (some (string parent_id)) =
    if starts_with parent_id prefix && ltb (len prefix) (len parent_id)
    then ok (some (some parent_id))
    else err tt
parse_parent prefix (some _) = err tt

-- The checks of the trimmed name, the type and the currency.
unfoldable pub valid_account_fields : String → String → String → Bool
unfolding is_account_type
valid_account_fields name account_type currency = not (
    is_empty name
    || ltb 24 (count name)
    || not (is_account_type account_type)
    || not (is_currency currency))

unfoldable pub parse_account_fields : String → Value → Result AccountPayload (Unit {0})
parse_account_fields prefix payload = do
  raw ← ok_or (get_str "name" payload) tt
  let name = trim raw
  account_type ← ok_or (get_str "accountType" payload) tt
  currency ← ok_or (get_str "currency" payload) tt
  refuse_if (not (valid_account_fields name account_type currency)) tt
  parent ← parse_parent prefix (get "parentAccountId" payload)
  ok (record {
    name = name;
    account_type = account_type;
    currency = currency;
    parent_account_id = parent;
  })

abbrev pub or_reject {ℓ} :
    {A : Type ℓ} → SyncMutationDto → Result A (Unit {0}) → Result A MutationReceiptDto
or_reject mutation (ok a) = ok a
or_reject mutation (err _) = err (rejected_receipt mutation "INVALID_PAYLOAD" none)

-- `parse_account_payload`
unfoldable pub parse_account_payload :
    String → SyncMutationDto → Result AccountPayload MutationReceiptDto
parse_account_payload book_id mutation =
    if not (mutation.operation == "create") && not (mutation.operation == "update")
    then err (rejected_receipt mutation "UNSUPPORTED_MUTATION" none)
    else if not (is_scoped (concat book_id ":") mutation.entity_id)
    then err (rejected_receipt mutation "INVALID_PAYLOAD" none)
    else or_reject mutation (parse_account_fields (concat book_id ":") mutation.payload)

abbrev pub text_or : Option String → String → String
text_or none d = d
text_or (some s) d = s

abbrev pub int_or : Option ℤ → ℤ → ℤ
int_or none d = d
int_or (some n) d = n

-- `value.as_str().and_then(|s| s.parse::<i128>().ok())`
unfoldable pub parse_amount : Option String → Option ℤ
parse_amount none = none
parse_amount (some s) = parse_i128 s

-- One round of the loop of `parse_entries`.
unfoldable pub parse_entry : Value → EntryDraft
unfolding parse_amount
parse_entry e = record {
  account_id = text_or (get_str "accountId" e) "";
  amount_minor = int_or (parse_amount (get_str "amountMinor" e)) (pos 0);
  currency = text_or (get_str "currency" e) "CNY";
}

abbrev pub array_at : String → Value → Option (List Value)
array_at k v = elim (get k v) [ none ↦ none | some w ↦ as_array w ]

-- `parse_entries`
unfoldable pub parse_entries : SyncMutationDto → Result (List EntryDraft) MutationReceiptDto
unfolding parse_entry
parse_entries mutation = elim (array_at "entries" mutation.payload) [
  | none ↦ err (rejected_receipt mutation "INVALID_PAYLOAD" none)
  | some es ↦ ok (map parse_entry es)
]

-- `parse_source_event_fingerprint`
unfoldable pub fingerprint_of : Option Value → Option String
fingerprint_of (some (string value)) =
    let trimmed = trim value in
    if eqb (len trimmed) 64 && all_chars is_ascii_hexdigit trimmed then some trimmed else none
fingerprint_of _ = none

abbrev pub or_value : Option Value → Option Value → Option Value
or_value none b = b
or_value (some a) b = some a

unfoldable pub parse_source_event_fingerprint : SyncMutationDto → Option String
unfolding fingerprint_of
parse_source_event_fingerprint mutation = fingerprint_of (
    or_value (get "sourceEventFingerprint" mutation.payload)
      (get "source_event_fingerprint" mutation.payload))

-- `parse_source`
unfoldable pub source_tag : Option Value → Option String
source_tag (some (string value)) =
    let trimmed = trim value in
    if is_empty trimmed || ltb 32 (count trimmed) then none else some trimmed
source_tag _ = none

unfoldable pub parse_source : SyncMutationDto → Option String
unfolding source_tag
parse_source mutation = source_tag (get "source" mutation.payload)

-- The codes of `validate_or_reject` for an unacceptable set of entries.
abbrev pub ledger_code : DomainError → String
ledger_code unbalanced = "LEDGER_UNBALANCED"
ledger_code _ = "LEDGER_INVALID"

abbrev pub balance_receipt :
    SyncMutationDto → Result (Unit {0}) DomainError → Option MutationReceiptDto
balance_receipt mutation (ok _) = none
balance_receipt mutation (err e) = some (rejected_receipt mutation (ledger_code e) none)

-- `validate_or_reject`
unfoldable pub validate_or_reject : SyncMutationDto → List EntryDraft → Option MutationReceiptDto
validate_or_reject mutation drafts =
    if not (mutation.entity_type == "transaction")
      || (not (mutation.operation == "create")
          && not (mutation.operation == "update")
          && not (mutation.operation == "delete"))
    then some (rejected_receipt mutation "UNSUPPORTED_MUTATION" none)
    else if mutation.operation == "delete"
    then none
    else balance_receipt mutation (validate_balanced drafts)

-- `is_auto_ledger_fingerprint`
unfoldable pub is_auto_ledger_fingerprint : SyncMutationDto → Bool
is_auto_ledger_fingerprint mutation =
    if not (mutation.entity_type == "transaction") then false else elim (parse_source mutation) [
      | none ↦ false
      | some source ↦
          if not (source == "auto_ledger")
          then false
          else elim (parse_source_event_fingerprint mutation) [ none ↦ false | some _ ↦ true ]
    ]

module _ {T : Type 0} (time : TimeLib T) where
  unfoldable pub read_instant : SyncMutationDto → Option T → Result (Option T) MutationReceiptDto
  read_instant mutation none = err (rejected_receipt mutation "INVALID_PAYLOAD" none)
  read_instant mutation (some value) = ok (some (time.to_utc value))

  unfoldable pub occurred_at_of :
      SyncMutationDto → Option Value → Result (Option T) MutationReceiptDto
  unfolding read_instant
  occurred_at_of mutation none = ok none
  occurred_at_of mutation (some (string raw)) = read_instant mutation (time.parse_rfc3339 raw)
  occurred_at_of mutation (some _) = err (rejected_receipt mutation "INVALID_PAYLOAD" none)

  -- `parse_occurred_at`
  unfoldable pub parse_occurred_at : SyncMutationDto → Result (Option T) MutationReceiptDto
  unfolding occurred_at_of
  parse_occurred_at mutation = occurred_at_of mutation (get "occurredAt" mutation.payload)

  -- `format_occurred_at`
  unfoldable pub format_occurred_at : T → String
  format_occurred_at value = time.format_rfc3339 (time.to_utc value)

  -- `canonical_transaction_payload`
  unfoldable pub canonical_transaction_payload : Value → T → Value
  unfolding format_occurred_at
  canonical_transaction_payload payload occurred_at =
      insert "occurredAt" (string (format_occurred_at occurred_at)) payload

  -- `backfill_transaction_occurred_at`
  unfoldable pub backfill_transaction_occurred_at : Value → T → Value
  backfill_transaction_occurred_at payload occurred_at = elim (get "occurredAt" payload) [
    | some _ ↦ payload
    | none ↦ canonical_transaction_payload payload occurred_at
  ]
