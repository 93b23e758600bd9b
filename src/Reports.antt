-- ===== src/Reports.antt =====
-- Reports on the in-memory store, of server/src/transport/http/reports.rs: `summary`, `trend` and
-- `budget` with their helpers, and the exchange rates (`list_fx`, `upsert_fx`). A rate is an `f64`, of
-- the type `F` with the operations that the code uses of it. Where the code unwraps, `none` is the panic.
pub mod Categories
pub mod Months
pub mod Rates
use ledgerly.Prelude.{
  ℕ, zero, suc, ◌+◌, ◌^◌, String, Bool, true, false, not, ◌&&◌, ◌||◌, List, [], ◌∷◌, ◌++◌, Option,
  none, some, map, filter, find, ltb, leb, eqb, ◌==◌, if◌then◌else◌, Result, ok, err, ok_or,
  refuse_if, ◌>>=◌, ◌>>◌, string_eq,
}
use ledgerly.Prelude.Int.{ℤ, pos, ltb_ℤ, leb_ℤ, add_i64, sub_i64, wrap, ◌+ℤ◌, ◌-ℤ◌}
use ledgerly.Prelude.Dict.{Dict, lookup, values}
use ledgerly.Json.{Value, string, number, array, object, of_fields, of_items, get, get_str}
use ledgerly.Text.{parse_int, parse_u8, split, to_string, is_less}
use ledgerly.ApiError.{ApiError, api_error}
use ledgerly.State.{Calendar, MemoryStore, TxRecord, AccountRecord, ChangeRecord}
use ledgerly.Authz.{require_book_member, require_plan}

-- `f64` as the code uses it.
pub record Floats (F : Type 0) : Type 0 where
  pub of_i64 : ℤ → F
  pub product : F → F → F
  pub quotient : F → F → F
  -- `x.round() as i64`
  pub round : F → ℤ
  -- `x > 1.0`, `x > 0.9` and `x <= 0.0`
  pub above_one : F → Bool
  pub above_nine_tenths : F → Bool
  pub is_not_positive : F → Bool

-- The name and the type of an account, the amount, and the currency.
abbrev pub Row : Type 0
Row = String × String × ℤ × String

-- base, quote, rate
abbrev pub Rate : Type 0 → Type 0
Rate F = String × String × F

-- `*category_map.entry(name).or_default() += amount` of a `BTreeMap`, which is sorted by key.
unfoldable pub add_category : String → ℤ → Dict String ℤ → Dict String ℤ
add_category name amount [] = (name, add_i64 (pos 0) amount) ∷ []
add_category name amount ((other, sum) ∷ d) =
    let rest = add_category name amount d in
    if other == name
    then (other, add_i64 sum amount) ∷ d
    else if is_less name other
    then (name, add_i64 (pos 0) amount) ∷ (other, sum) ∷ d
    else (other, sum) ∷ rest

-- Income, expense, and the categories.
pub record Totals : Type 0 where
  pub income : ℤ
  pub expense : ℤ
  pub categories : Dict String ℤ

abbrev pub category_json : String → String × ℤ → Value
category_json base (name, amount) = object (
    of_fields (
      ("name", string name)
      ∷ ("amountMinor", string (to_string amount))
      ∷ ("currency", string base)
      ∷ []))

-- What the loop of `aggregate_entries` does with a converted row.
unfoldable pub add_row : String → String → ℤ → Totals → Totals
unfolding add_category
add_row name account_type converted t =
    if not (ltb_ℤ (pos 0) converted)
    then t
    else if account_type == "income"
    then record t { income = add_i64 t.income converted }
    else if account_type == "expense"
    then record t {
      expense = add_i64 t.expense converted;
      categories = add_category name converted t.categories;
    }
    else t

module _ {F : Type 0} (floats : Floats F) where
  unfoldable pub convert_amount : ℤ → String → String → List (Rate F) → ℤ
  convert_amount amount currency base rates =
      if currency == base
      then amount
      else elim (find (λ r. (r.0 == base) && (r.1 == currency)) rates) [
        | some r ↦ floats.round (floats.quotient (floats.of_i64 amount) r.2)
        | none ↦ elim (find (λ r. (r.0 == currency) && (r.1 == base)) rates) [
          | some r ↦ floats.round (floats.product (floats.of_i64 amount) r.2)
          | none ↦ amount
        ]
      ]

  unfoldable pub add_rows : String → List (Rate F) → List Row → Totals → Totals
  unfolding add_row convert_amount
  add_rows base rates [] t = t
  add_rows base rates ((name, account_type, amount, currency) ∷ rows) t =
      add_rows base rates rows
        (add_row name account_type (convert_amount amount currency base rates) t)

  -- `aggregate_entries`, before the categories are printed
  unfoldable pub aggregate_entries : List Row → String → List (Rate F) → Totals
  unfolding add_rows
  aggregate_entries rows base rates =
      add_rows base rates rows (record { income = pos 0; expense = pos 0; categories = [] })

  unfoldable pub budget_status : ℤ → ℤ → String
  budget_status actual budget =
      if leb_ℤ budget (pos 0)
      then "ok"
      else let ratio = floats.quotient (floats.of_i64 actual) (floats.of_i64 budget) in
        if floats.above_one ratio
        then "over"
        else if floats.above_nine_tenths ratio
        then "ok"
        else "under"

-- `if let Some(acc) = store.accounts.get(account_id) { rows.push(..) }`
unfoldable pub entry_rows : Dict String AccountRecord → List (String × ℤ × String) → List Row
entry_rows accounts [] = []
entry_rows accounts ((account_id, amount, currency) ∷ es) =
    let rest = entry_rows accounts es in
    elim (lookup account_id accounts) [
      | none ↦ rest
      | some acc ↦ (acc.name, acc.account_type, amount, currency) ∷ rest
    ]

module _ {T : Type 0} where
  unfoldable pub book_rows : MemoryStore T → String → List (TxRecord T) → List Row
  unfolding entry_rows
  book_rows s book_id [] = []
  book_rows s book_id (tx ∷ txs) =
      let rest = book_rows s book_id txs in
      if not (tx.book_id == book_id) || tx.deleted
      then rest
      else entry_rows s.accounts tx.entries ++ rest

module _ {T F : Type 0} (floats : Floats F) where
  -- `summary` without a database, which knows no rates and ignores the period
  unfoldable pub summary : MemoryStore T → String → String → Result Value ApiError
  summary s user_id book_id = do
    require_book_member s user_id book_id
    plan ← require_plan s user_id "plus"
    let t = aggregate_entries floats (book_rows s book_id (values s.transactions)) "CNY" []
    ok (
        object (
          of_fields (
            ("plan", string plan)
            ∷ ("baseCurrency", string "CNY")
            ∷ ("incomeMinor", string (to_string t.income))
            ∷ ("expenseMinor", string (to_string t.expense))
            ∷ ("netMinor", string (to_string (sub_i64 t.income t.expense)))
            ∷ ("categories", array (of_items (map (category_json "CNY") t.categories)))
            ∷ [])))
