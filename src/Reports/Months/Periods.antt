-- ===== src/Reports/Months/Periods.antt =====
-- `trend` and `budget` of server/src/transport/http/reports.rs without a database (`trend_mem`,
-- `budget_mem`).

use ledgerly.Prelude.{
  ℕ, zero, suc, String, Bool, not, ◌&&◌, List, [], ◌∷◌, Option, none, some, map, filter, leb, ◌==◌,
  if◌then◌else◌, Result, ok, err, ◌>>=◌, ◌>>◌, string_eq,
}
use ledgerly.Prelude.Int.{ℤ, pos, negsuc, ltb_ℤ, add_i64, sub_i64}
use ledgerly.Prelude.Dict.{Dict, lookup, values}
use ledgerly.Json.{Value, string, number, array, object, of_fields, of_items, get, get_str}
use ledgerly.Text.{concat, to_string, to_string_padded, is_less}
use ledgerly.ApiError.{ApiError}
use ledgerly.State.{Calendar, MemoryStore, TxRecord, AccountRecord, ChangeRecord}
use ledgerly.Authz.{require_book_member, require_plan}
use ledgerly.Reports.{Floats, budget_status}
use ledgerly.Reports.Months.{parse_month, month_range, subtract_months, in_period}

-- `format!("{:04}-{:02}", year, month)` for a year that is not negative.
abbrev pub month_label : ℤ → ℕ → String
month_label (pos year) month =
    concat (to_string_padded 4 year) (concat "-" (to_string_padded 2 month))
month_label (negsuc year) month =
    concat "-" (concat (to_string_padded 3 (suc year)) (concat "-" (to_string_padded 2 month)))

-- Income and expense.
abbrev pub Flow : Type 0
Flow = ℤ × ℤ

unfoldable pub add_flow : String → ℤ → Flow → Flow
add_flow account_type a (income, expense) =
    if not (ltb_ℤ (pos 0) a)
    then (income, expense)
    else if account_type == "income"
    then (add_i64 income a, expense)
    else if account_type == "expense"
    then (income, add_i64 expense a)
    else (income, expense)

abbrev pub flow_of : Option AccountRecord → ℤ → Flow → Flow
flow_of none a flow = flow
flow_of (some acc) a flow = add_flow acc.account_type a flow

unfoldable pub entries_flow : Dict String AccountRecord → List (String × ℤ × String) → Flow → Flow
unfolding add_flow
entries_flow accounts [] flow = flow
entries_flow accounts ((account_id, amount, currency) ∷ es) flow =
    entries_flow accounts es (flow_of (lookup account_id accounts) amount flow)

-- `budget_map.insert(id, value)` of a `BTreeMap`, which is sorted by key.
unfoldable pub insert_sorted :
    String → String × ℤ → Dict String (String × ℤ) → Dict String (String × ℤ)
insert_sorted id b [] = (id, b) ∷ []
insert_sorted id b ((other, c) ∷ d) =
    let rest = insert_sorted id b d in
    if other == id
    then (other, b) ∷ d
    else if is_less id other
    then (id, b) ∷ (other, c) ∷ d
    else (other, c) ∷ rest

-- `value.and_then(|v| v.as_i64()).unwrap_or(0)`, for numbers within `i64`
abbrev pub as_i64_or_zero : Option Value → ℤ
as_i64_or_zero (some (number n)) = n
as_i64_or_zero _ = pos 0

abbrev pub name_or_budget : Option String → String
name_or_budget none = "Budget"
name_or_budget (some name) = name

abbrev pub is_budget_change : String → ChangeRecord → Bool
is_budget_change book_id c = (c.book_id == book_id) && (c.entity_type == "budget")

-- The budgets that the log tells of, the last change of each id.
unfoldable pub budgets_in_log :
    List ChangeRecord → Dict String (String × ℤ) → Dict String (String × ℤ)
unfolding insert_sorted
budgets_in_log [] budgets = budgets
budgets_in_log (c ∷ cs) budgets = elim (get_str "id" c.payload) [
  | none ↦ budgets_in_log cs budgets
  | some id ↦ budgets_in_log cs (
      insert_sorted id
        (name_or_budget (get_str "name" c.payload), as_i64_or_zero (get "amountMinor" c.payload))
        budgets)
]

module _ {T : Type 0} (calendar : Calendar T) where
  unfoldable pub period_flow :
      Dict String AccountRecord → String → T → T → List (TxRecord T) → Flow → Flow
  unfolding entries_flow
  period_flow accounts book_id start end [] flow = flow
  period_flow accounts book_id start end (tx ∷ txs) flow =
      period_flow accounts book_id start end txs (
        if in_period calendar book_id start end tx
        then entries_flow accounts tx.entries flow
        else flow)

  unfoldable pub month_item : MemoryStore T → String → T × T → Value
  unfolding period_flow
  month_item s book_id (start, end) =
      let flow = period_flow s.accounts book_id start end (values s.transactions) (pos 0, pos 0) in
      object (
        of_fields (
          ("month", string (month_label (calendar.year start) (calendar.month start)))
          ∷ ("incomeMinor", string (to_string flow.0))
          ∷ ("expenseMinor", string (to_string flow.1))
          ∷ ("netMinor", string (to_string (sub_i64 flow.0 flow.1)))
          ∷ []))

  -- The months 0, 1, .. back from `now`, oldest first: the loop and `series.reverse()`.
  unfoldable pub series : MemoryStore T → String → T → ℕ → Option (List Value)
  unfolding month_item
  series s book_id now zero = some []
  series s book_id now (suc i) =
      let rest = series s book_id now i in
      elim (subtract_months calendar now i) [
        | none ↦ none
        | some date ↦ elim (month_range calendar (calendar.year date, calendar.month date)) [
          | none ↦ none
          | some period ↦ elim rest [
            | none ↦ none
            | some items ↦ some (month_item s book_id period ∷ items)
          ]
        ]
      ]

  -- `q.months.unwrap_or(6).min(24)`
  abbrev pub months_of : Option ℕ → ℕ
  months_of none = 6
  months_of (some n) = if leb n 24 then n else 24

  unfoldable pub entitled : MemoryStore T → String → String → Result (Unit {0}) ApiError
  entitled s user_id book_id = do
    require_book_member s user_id book_id
    _ ← require_plan s user_id "plus"
    ok tt

  -- `trend`; `none` is a panic of `unwrap`.
  unfoldable pub trend :
      MemoryStore T → T → String → String → Option ℕ → Option (Result Value ApiError)
  unfolding series entitled
  trend s now user_id book_id months = elim (entitled s user_id book_id) [
    | err e ↦ some (err e)
    | ok _ ↦ elim (series s book_id now (months_of months)) [
      | none ↦ none
      | some items ↦ some (ok (object (of_fields (("series", array (of_items items)) ∷ []))))
    ]
  ]

module _ {T F : Type 0} (calendar : Calendar T) (floats : Floats F) where
  unfoldable pub budget_item : ℤ → String × (String × ℤ) → Value
  budget_item actual (id, (name, amount)) = object (
      of_fields (
        ("id", string id)
        ∷ ("name", string name)
        ∷ ("budgetMinor", string (to_string amount))
        ∷ ("actualMinor", string (to_string actual))
        ∷ ("currency", string "CNY")
        ∷ ("status", string (budget_status floats actual amount))
        ∷ []))

  -- `budget_mem`; the expense of the period is the same for every budget.
  unfoldable pub budget_mem : MemoryStore T → String → T × T → Value
  unfolding budget_item budgets_in_log
  budget_mem s book_id (start, end) =
      let flow =
        period_flow calendar s.accounts book_id start end (values s.transactions) (pos 0, pos 0) in
      object (
        of_fields (
          ("month", string (month_label (calendar.year start) (calendar.month start)))
          ∷ ("baseCurrency", string "CNY")
          ∷ (
            "items",
            array (
                of_items (
                  map (budget_item flow.1)
                    (budgets_in_log (filter (is_budget_change book_id) s.changes) []))),
          )
          ∷ []))

  -- `budget`
  unfoldable pub budget :
      MemoryStore T → T → String → String → Option String → Option (Result Value ApiError)
  unfolding entitled budget_mem
  budget s now user_id book_id month = elim (entitled calendar s user_id book_id) [
    | err e ↦ some (err e)
    | ok _ ↦ elim (parse_month calendar now month) [
      | err e ↦ some (err e)
      | ok m ↦ elim (month_range calendar m) [
        | none ↦ none
        | some period ↦ some (ok (budget_mem s book_id period))
      ]
    ]
  ]
