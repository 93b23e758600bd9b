-- ===== src/Books.antt =====
-- Books and plans on the in-memory store: `list_books` and `create_book` of
-- server/src/transport/http/books.rs and `dev_upgrade` of server/src/transport/http/billing.rs.
pub mod Opening
use Prim.Native.String.{count, len}
use ledgerly.Prelude.{
  ℕ, String, Bool, not, ◌&&◌, ◌||◌, List, [], ◌∷◌, Option, none, map, filter, ltb, eqb, ◌==◌,
  if◌then◌else◌, Result, ok, err, refuse_if, ◌>>=◌, ◌>>◌, string_eq,
}
use ledgerly.Prelude.Int.{pos}
use ledgerly.Prelude.Dict.{insert, values}
use ledgerly.Json.{Value, string, array, object, of_fields, of_items}
use ledgerly.Text.{trim, is_empty, is_less, all_chars, is_ascii_uppercase}
use ledgerly.Audit.{
  AuditEvent, AuditOutcome, Recorder, note_event, user_event, with_reason, with_request,
  with_target, success, failure, denied,
}
use ledgerly.ApiError.{ApiError, api_error}
use ledgerly.State.{MemoryStore, BookRecord, AccountRecord, scoped_account_id}

pub record CreateBookRequest : Type 0 where
  pub name : String
  pub currency_code : String

-- Behind every book that it does not sort before, by name.
unfoldable pub insert_book : BookRecord → List BookRecord → List BookRecord
insert_book b [] = b ∷ []
insert_book b (c ∷ cs) =
    let rest = insert_book b cs in if is_less c.name b.name then c ∷ rest else b ∷ c ∷ cs

-- `books.sort_by(..)`, which is stable.
unfoldable pub sort_books : List BookRecord → List BookRecord
unfolding insert_book
sort_books [] = []
sort_books (b ∷ bs) = insert_book b (sort_books bs)

abbrev pub book_json : BookRecord → Value
book_json b =
    object
      (of_fields (("id", string b.id) ∷ ("name", string b.name) ∷ ("role", string "owner") ∷ []))

abbrev pub is_book_name : String → Bool
is_book_name name = not (is_empty name || ltb 40 (count name))

abbrev pub is_currency_code : String → Bool
is_currency_code code = eqb (len code) 3 && all_chars is_ascii_uppercase code

abbrev pub opening_account : String → String → String → String → AccountRecord
opening_account book_id key name currency = record {
  id = scoped_account_id book_id key;
  book_id = book_id;
  name = name;
  account_type = "asset";
  currency = currency;
  parent_account_id = none;
  version = pos 1;
}

unfoldable pub checked_book : CreateBookRequest → Result (Unit {0}) ApiError
checked_book req = do
  refuse_if (not (is_book_name (trim req.name)))
      (api_error 400 "INVALID_BOOK_NAME" "book name must contain 1 to 40 characters")
  refuse_if (not (is_currency_code req.currency_code))
      (api_error 400 "INVALID_CURRENCY" "currencyCode must be an uppercase ISO currency code")

abbrev pub is_plan : String → Bool
is_plan plan = plan == "free" || plan == "plus" || plan == "family"

module _ {T : Type 0} where
  -- `list_books`
  unfoldable pub list_books : MemoryStore T → String → Value
  unfolding sort_books
  list_books s user_id = object (
      of_fields (
        (
          "books",
          array (
              of_items (
                map book_json (sort_books (filter (λ b. b.owner_id == user_id) (values s.books))))),
        )
        ∷ []))

  -- The inserts of `create_book`.
  unfoldable pub open_book : MemoryStore T → String → String → String → String → MemoryStore T
  open_book s book_id user_id name currency =
      let cash = opening_account book_id "acc_cash" "Cash" currency in
      let bank = opening_account book_id "acc_bank" "Bank" currency in
      record s {
        books = insert book_id (record { id = book_id; name = name; owner_id = user_id }) s.books;
        accounts = insert bank.id bank (insert cash.id cash s.accounts);
      }

  -- `create_book`; the id is a new UUID.
  unfoldable pub create_book :
      MemoryStore T → String → String → CreateBookRequest → Result Value ApiError × MemoryStore T
  unfolding checked_book open_book
  create_book s book_id user_id req = elim (checked_book req) [
    | err e ↦ (err e, s)
    | ok _ ↦ (
      ok (
          object (
            of_fields (
              ("id", string book_id)
              ∷ ("name", string (trim req.name))
              ∷ ("currencyCode", string req.currency_code)
              ∷ ("role", string "owner")
              ∷ []))),
      open_book s book_id user_id (trim req.name) req.currency_code,
    )
  ]

  -- The event of `dev_upgrade`.
  abbrev pub plan_event : Recorder T → String → AuditOutcome → AuditEvent
  plan_event a user_id outcome = with_request a (user_event user_id "billing.upgrade" outcome)

  -- `dev_upgrade`, on `config.is_production` and `req.plan`
  unfoldable pub dev_upgrade :
      Recorder T → MemoryStore T → Bool → String → String → Result Value ApiError × MemoryStore T
  unfolding note_event
  dev_upgrade a s is_production user_id plan =
      if is_production
      then (
        err (api_error 403 "DISABLED" "dev-upgrade disabled in production"),
        note_event a s (with_reason "production_disabled" (plan_event a user_id denied)),
      )
      else if not (is_plan plan)
      then (
        err (api_error 400 "INVALID_PLAN" "plan must be free|plus|family"),
        note_event a s (with_reason "invalid_plan" (plan_event a user_id failure)),
      )
      else (
        ok (object (of_fields (("plan", string plan) ∷ ("status", string "active") ∷ []))),
        note_event a (record s { subscriptions = insert user_id plan s.subscriptions })
            (record (with_target "subscription" user_id (plan_event a user_id success)) {
              metadata = object (of_fields (("plan", string plan) ∷ []));
            }),
      )
