-- ===== src/Sync/Bootstrap.antt =====
-- `bootstrap` of server/src/transport/http/sync.rs on the in-memory store.
use ledgerly.Prelude.{
  String, Bool, not, ◌&&◌, List, [], ◌∷◌, map, filter, ◌==◌, string_eq, if◌then◌else◌, Result, ok,
  err,
}
use ledgerly.Prelude.Int.{ℤ, pos, leb_ℤ}
use ledgerly.Prelude.Dict.{contains, values}
use ledgerly.Json.{Value, string, number, array, object, of_fields, of_items, of_option}
use ledgerly.Text.{to_string}
use ledgerly.ApiError.{ApiError, api_error}
use ledgerly.Authz.{require_book_member}
use ledgerly.State.{TimeLib, MemoryStore, AccountRecord, TxRecord, ChangeRecord}
use ledgerly.Sync.Parse.{format_occurred_at}

-- The body of the answer; `bootstrapId` is a new UUID.
pub record Snapshot : Type 0 where
  pub bootstrap_id : String
  pub high_water_cursor : String
  pub accounts : List Value
  pub transactions : List Value

-- `.filter(book).map(|c| c.sequence).max().unwrap_or(0)`
unfoldable pub max_from : ℤ → List ChangeRecord → ℤ
max_from best [] = best
max_from best (c ∷ cs) = max_from (if leb_ℤ best c.sequence then c.sequence else best) cs

unfoldable pub max_sequence : List ChangeRecord → ℤ
unfolding max_from
max_sequence [] = pos 0
max_sequence (c ∷ cs) = max_from c.sequence cs

abbrev pub in_book : String → ChangeRecord → Bool
in_book book_id c = c.book_id == book_id

unfoldable pub high_water : List ChangeRecord → String → ℤ
unfolding max_sequence
high_water changes book_id = max_sequence (filter (in_book book_id) changes)

abbrev pub account_view : AccountRecord → Value
account_view a = object (
    of_fields (
      ("id", string a.id)
      ∷ ("version", number a.version)
      ∷ ("name", string a.name)
      ∷ ("accountType", string a.account_type)
      ∷ ("currency", string a.currency)
      ∷ ("parentAccountId", of_option a.parent_account_id)
      ∷ []))

abbrev pub entry_view : String × ℤ × String → Value
entry_view (account_id, amount_minor, currency) = object (
    of_fields (
      ("accountId", string account_id)
      ∷ ("amountMinor", string (to_string amount_minor))
      ∷ ("currency", string currency)
      ∷ []))

module _ {T : Type 0} where
  -- `t.book_id == book_id && !t.deleted`
  abbrev pub is_live : String → TxRecord T → Bool
  is_live book_id t = (t.book_id == book_id) && not t.deleted

module _ {T : Type 0} (time : TimeLib T) where
  unfoldable pub transaction_view : TxRecord T → Value
  transaction_view t = object (
      of_fields (
        ("id", string t.id)
        ∷ ("version", number t.version)
        ∷ ("occurredAt", string (format_occurred_at time t.occurred_at))
        ∷ ("description", of_option t.description)
        ∷ ("source", of_option t.source)
        ∷ ("entries", array (of_items (map entry_view t.entries)))
        ∷ []))

  unfoldable pub snapshot : MemoryStore T → String → String → Snapshot
  unfolding high_water transaction_view
  snapshot s uuid book_id = record {
    bootstrap_id = uuid;
    high_water_cursor = to_string (high_water s.changes book_id);
    accounts = map account_view (filter (λ a. a.book_id == book_id) (values s.accounts));
    transactions = map transaction_view (filter (is_live book_id) (values s.transactions));
  }

  abbrev pub bootstrap_member :
      MemoryStore T → String → String → Result (Unit {0}) ApiError → Result Snapshot ApiError
  bootstrap_member s uuid book_id (err e) = err e
  bootstrap_member s uuid book_id (ok _) =
      if contains book_id s.books
      then ok (snapshot s uuid book_id)
      else err (api_error 404 "BOOK_NOT_FOUND" "book missing")

  -- `bootstrap`
  unfoldable pub bootstrap : MemoryStore T → String → String → String → Result Snapshot ApiError
  unfolding snapshot require_book_member
  bootstrap s uuid user_id book_id =
      bootstrap_member s uuid book_id (require_book_member s user_id book_id)
