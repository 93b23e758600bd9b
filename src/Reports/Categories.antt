-- ===== src/Reports/Categories.antt =====
-- On the totals of `aggregate_entries` in server/src/transport/http/reports.rs.
use mathlib.Core.Path.{transport}
use ledgerly.Prelude.{
  ℕ, ◌+◌, ◌<◌, ◌≡◌, refl, sym, ap, ◌∙◌, inl, inr, String, false, List, [], ◌∷◌, ◌==◌, if◌then◌else◌,
  All, Bool-cases, arith, eq_iff, string_eq,
}
use ledgerly.Prelude.Int.{ℤ, pos_part, neg_part, ltb_ℤ, add_i64, ◌+ℤ◌, wrap_of_Fits, i64_half}
use ledgerly.Prelude.Int
use ledgerly.Prelude.Dict.{Dict, values}
use ledgerly.Text.{is_less}
use ledgerly.Reports.{
  Floats, Row, Rate, Totals, add_category, add_row, add_rows, convert_amount, aggregate_entries,
}

-- What a row adds to the income and to the expense, as unbounded numbers.
abbrev pub row_income : String → ℤ → ℕ
row_income account_type converted = if account_type == "income" then pos_part converted else 0

abbrev pub row_expense : String → ℤ → ℕ
row_expense account_type converted = if account_type == "expense" then pos_part converted else 0

module _ {F : Type 0} (floats : Floats F) where
  unfoldable pub rows_total : (String → ℤ → ℕ) → String → List (Rate F) → List Row → ℕ
  rows_total part base rates [] = 0
  rows_total part base rates ((name, account_type, amount, currency) ∷ rows) =
      part account_type (convert_amount floats amount currency base rates)
      + rows_total part base rates rows

-- The amounts of the categories added up, where none is negative.
unfoldable pub categories_total : Dict String ℤ → ℕ
categories_total [] = 0
categories_total ((name, sum) ∷ d) = pos_part sum + categories_total d

abbrev pub IsNonnegative : ℤ → Type 0
IsNonnegative a = neg_part a ≡ 0

add_small :
    (a : ℤ) (c : ℕ)
    → IsNonnegative a
    → pos_part a + c < i64_half
    → add_i64 a (Int.pos c) ≡ Int.pos (pos_part a + c)
unfolding ◌+ℤ◌
add_small (Int.pos n) c h fits =
    let sum : Int.pos n +ℤ Int.pos c ≡ Int.pos (n + c) = ground arith in
    rw sum (wrap_of_Fits i64_half (Int.pos (n + c)) (fits, omega arith))
add_small (Int.negsuc n) c h fits = absurd (omega (arith, h))

-- Totals that agree with unbounded sums so far.
record IsTotalled (income expense : ℕ) (t : Totals) : Type 0 where
  income_is : t.income ≡ Int.pos income
  expense_is : t.expense ≡ Int.pos expense
  split : categories_total t.categories ≡ expense
  nonnegative : All IsNonnegative (values t.categories)

add_category-total :
    (name : String) (c : ℕ) (d : Dict String ℤ)
    → categories_total d + c < i64_half
    → All IsNonnegative (values d)
    → (categories_total (add_category name (Int.pos c) d) ≡ categories_total d + c)
      × All IsNonnegative (values (add_category name (Int.pos c) d))
unfolding add_category categories_total
add_category-total name c [] fits h =
    let new = add_small (Int.pos 0) c refl fits in rw new (omega arith, (refl, tt))
add_category-total name c ((other, sum) ∷ d) fits h = elim (Bool-cases (other == name)) [
  | inl e ↦ let same = add_small sum c h.0 (omega arith) in rw (e, same) (omega arith, (refl, h.1))
  | inr e ↦ elim (Bool-cases (is_less name other)) [
    | inl f ↦
        let new = add_small (Int.pos 0) c refl (omega arith) in
        rw (e, f, new) (omega arith, (refl, (h.0, h.1)))
    | inr f ↦
        let (total, rest) = add_category-total name c d (omega arith) h.1 in
        rw (e, f, total) (omega arith, (h.0, rest))
  ]
]

income_added :
    (converted : ℤ) (income expense : ℕ) (t : Totals)
    → converted ≡ Int.pos (pos_part converted)
    → income + pos_part converted < i64_half
    → IsTotalled income expense t
    → IsTotalled
        (income + pos_part converted)
        (expense + 0)
        (record t { income = add_i64 t.income converted })
income_added converted income expense t amount fits is = record {
  income_is =
      ap (add_i64 t.income) amount
      ∙ rw is.income_is (add_small (Int.pos income) (pos_part converted) refl fits);
  expense_is = is.expense_is ∙ ap Int.pos (omega arith);
  split = omega (arith, is.split);
  nonnegative = is.nonnegative;
}

expense_added :
    (name : String) (converted : ℤ) (income expense : ℕ) (t : Totals)
    → converted ≡ Int.pos (pos_part converted)
    → expense + pos_part converted < i64_half
    → IsTotalled income expense t
    → IsTotalled (income + 0) (expense + pos_part converted) (record t {
      expense = add_i64 t.expense converted;
      categories = add_category name converted t.categories;
    })
expense_added name converted income expense t amount fits is =
    let (total, nonnegative) =
      add_category-total name (pos_part converted) t.categories (omega (arith, is.split))
        is.nonnegative in
    record {
      income_is = is.income_is ∙ ap Int.pos (omega arith);
      expense_is =
          ap (add_i64 t.expense) amount
          ∙ rw is.expense_is (add_small (Int.pos expense) (pos_part converted) refl fits);
      split =
          ap (λ c. categories_total (add_category name c t.categories)) amount
          ∙ total
          ∙ ap (λ n. n + pos_part converted) is.split;
      nonnegative =
          transport
            (λ k. All IsNonnegative (values (add_category name (sym amount k) t.categories)))
            nonnegative;
    }

add_row-IsTotalled :
    (name account_type : String) (converted : ℤ) (income expense : ℕ) (t : Totals)
    → income + row_income account_type converted < i64_half
    → expense + row_expense account_type converted < i64_half
    → IsTotalled income expense t
    → IsTotalled
        (income + row_income account_type converted)
        (expense + row_expense account_type converted)
        (add_row name account_type converted t)
unfolding add_row
add_row-IsTotalled name account_type converted income expense t in_fits ex_fits is =
    elim (Bool-cases (ltb_ℤ (Int.pos 0) converted)) [
      | inr low ↦
          let same_in : income + row_income account_type converted ≡ income = ground arith in
          let same_ex : expense + row_expense account_type converted ≡ expense = ground arith in
          rw (same_in, same_ex, low, add_row) is
      | inl high ↦
          let amount : converted ≡ Int.pos (pos_part converted) = ground arith in
          elim (Bool-cases (account_type == "income")) [
            | inl i ↦
                let is_income : account_type ≡ "income" = (eq_iff account_type "income").0 i in
                let other : (account_type == "expense") ≡ false = rw is_income refl in
                let fits = rw i at in_fits in
                rw (high, add_row, i, other)
                  (income_added converted income expense t amount fits is)
            | inr i ↦ elim (Bool-cases (account_type == "expense")) [
              | inl e ↦
                  let fits = rw e at ex_fits in
                  rw (high, add_row, i, e)
                    (expense_added name converted income expense t amount fits is)
              | inr e ↦
                  let same_in : income + 0 ≡ income = omega arith in
                  let same_ex : expense + 0 ≡ expense = omega arith in
                  rw (high, add_row, i, e, same_in, same_ex) is
            ]
          ]
    ]

module _ {F : Type 0} (floats : Floats F) where
  add_rows-IsTotalled :
      (base : String) (rates : List (Rate F)) (rows : List Row) (income expense : ℕ) (t : Totals)
      → income + rows_total floats row_income base rates rows < i64_half
      → expense + rows_total floats row_expense base rates rows < i64_half
      → IsTotalled income expense t
      → IsTotalled
          (income + rows_total floats row_income base rates rows)
          (expense + rows_total floats row_expense base rates rows)
          (add_rows floats base rates rows t)
  unfolding add_rows rows_total
  add_rows-IsTotalled base rates [] income expense t in_fits ex_fits is =
      let same_in : income + 0 ≡ income = omega arith in
      let same_ex : expense + 0 ≡ expense = omega arith in rw (same_in, same_ex) is
  add_rows-IsTotalled base rates ((name, account_type, amount, currency) ∷ rows) income expense t
        in_fits ex_fits is =
      let converted = convert_amount floats amount currency base rates in
      let first =
        add_row-IsTotalled name account_type converted income expense t (omega arith) (omega arith)
          is in
      let rest =
        add_rows-IsTotalled base rates rows (income + row_income account_type converted)
          (expense + row_expense account_type converted) (add_row name account_type converted t)
          (omega arith) (omega arith) first in
      let assoc_in : income
            + (row_income account_type converted + rows_total floats row_income base rates rows)
          ≡ income
            + row_income account_type converted
            + rows_total floats row_income base rates rows =
        omega arith in
      let assoc_ex : expense
            + (row_expense account_type converted + rows_total floats row_expense base rates rows)
          ≡ expense
            + row_expense account_type converted
            + rows_total floats row_expense base rates rows =
        omega arith in
      rw (assoc_in, assoc_ex) rest

  -- While the sums stay below 2 ^ 63, `aggregate_entries` reports as income and as expense the
  -- unbounded sums of the positive converted amounts on income and on expense accounts, and the
  -- amounts of its categories add up to the expense, none of them negative.
  pub aggregate_entries-totals :
      (rows : List Row) (base : String) (rates : List (Rate F))
      → rows_total floats row_income base rates rows < i64_half
      → rows_total floats row_expense base rates rows < i64_half
      → let t = aggregate_entries floats rows base rates in
        (t.income ≡ Int.pos (rows_total floats row_income base rates rows))
        × (t.expense ≡ Int.pos (rows_total floats row_expense base rates rows))
        × (categories_total t.categories ≡ rows_total floats row_expense base rates rows)
        × All IsNonnegative (values t.categories)
  unfolding aggregate_entries categories_total
  aggregate_entries-totals rows base rates in_fits ex_fits =
      let is =
        add_rows-IsTotalled base rates rows 0 0 _ (omega arith) (omega arith)
          (record { income_is = refl; expense_is = refl; split = refl; nonnegative = tt }) in
      (
        is.income_is ∙ ap Int.pos (omega arith),
        is.expense_is ∙ ap Int.pos (omega arith),
        is.split ∙ omega arith,
        is.nonnegative,
      )
