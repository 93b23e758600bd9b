-- ===== src/State/Defaults.antt =====
-- The accounts that a new book starts with: `DEFAULT_ACCOUNTS`, `seed_accounts_mem` and
-- `ensure_demo_book` of server/src/state.rs.
use ledgerly.Prelude.{
  ◌++◌, String, List, [], ◌∷◌, Option, none, some, ◌==◌, string_eq, find, if◌then◌else◌,
}
use ledgerly.Prelude.Int.{pos}
use ledgerly.Prelude.Dict.{insert, contains, values}
use ledgerly.Json.{Value, string, object, of_fields, of_option}
use ledgerly.Text.{concat}
use ledgerly.State.{MemoryStore, AccountRecord, scoped_account_id, next_sequence}

-- key, name, type, key of the parent
abbrev pub DefaultAccount : Type 0
DefaultAccount = String × String × String × Option String

unfoldable pub default_accounts : List DefaultAccount
default_accounts =
    ("acc_cash", "Cash", "asset", none)
    ∷ ("acc_bank", "Bank", "asset", none)
    ∷ ("acc_food", "Food", "expense", none)
    ∷ ("acc_food_meals", "Meals", "expense", some "acc_food")
    ∷ ("acc_food_drinks", "Drinks & Snacks", "expense", some "acc_food")
    ∷ ("acc_transport", "Transport", "expense", none)
    ∷ ("acc_transport_public", "Public Transport", "expense", some "acc_transport")
    ∷ ("acc_transport_taxi", "Taxi", "expense", some "acc_transport")
    ∷ ("acc_transport_car", "Car Expenses", "expense", some "acc_transport")
    ∷ ("acc_shopping", "Shopping", "expense", none)
    ∷ ("acc_shopping_daily", "Daily Essentials", "expense", some "acc_shopping")
    ∷ ("acc_shopping_clothing", "Clothing", "expense", some "acc_shopping")
    ∷ ("acc_shopping_digital", "Electronics", "expense", some "acc_shopping")
    ∷ ("acc_housing", "Housing", "expense", none)
    ∷ ("acc_housing_rent", "Rent & Mortgage", "expense", some "acc_housing")
    ∷ ("acc_housing_utilities", "Utilities", "expense", some "acc_housing")
    ∷ ("acc_housing_property", "Property Services", "expense", some "acc_housing")
    ∷ ("acc_leisure", "Leisure", "expense", none)
    ∷ ("acc_leisure_entertainment", "Entertainment", "expense", some "acc_leisure")
    ∷ ("acc_leisure_fitness", "Fitness", "expense", some "acc_leisure")
    ∷ ("acc_leisure_travel", "Travel", "expense", some "acc_leisure")
    ∷ ("acc_healthcare", "Healthcare", "expense", none)
    ∷ ("acc_healthcare_medical", "Medical Care", "expense", some "acc_healthcare")
    ∷ ("acc_healthcare_medicine", "Medicine", "expense", some "acc_healthcare")
    ∷ ("acc_education", "Education", "expense", none)
    ∷ ("acc_education_books", "Books", "expense", some "acc_education")
    ∷ ("acc_education_courses", "Courses", "expense", some "acc_education")
    ∷ ("acc_other_expense", "Other Expense", "expense", none)
    ∷ ("acc_salary", "Salary", "income", none)
    ∷ ("acc_salary_base", "Base Salary", "income", some "acc_salary")
    ∷ ("acc_salary_bonus", "Bonus", "income", some "acc_salary")
    ∷ ("acc_side_income", "Side Income", "income", none)
    ∷ ("acc_side_income_freelance", "Freelance", "income", some "acc_side_income")
    ∷ ("acc_side_income_business", "Business Income", "income", some "acc_side_income")
    ∷ ("acc_investment_income", "Investment Income", "income", none)
    ∷ ("acc_investment_income_interest", "Interest", "income", some "acc_investment_income")
    ∷ ("acc_investment_income_dividends", "Dividends", "income", some "acc_investment_income")
    ∷ ("acc_other_income", "Other Income", "income", none)
    ∷ []

-- `parent_key.map(|key| scoped_account_id(book_id, key))`
abbrev pub scoped_parent : String → Option String → Option String
scoped_parent book_id none = none
scoped_parent book_id (some key) = some (scoped_account_id book_id key)

-- The record of a default account, and the change that announces it.
abbrev pub default_record : String → DefaultAccount → AccountRecord
default_record book_id (key, name, ty, parent) = record {
  id = scoped_account_id book_id key;
  book_id = book_id;
  name = name;
  account_type = ty;
  currency = "CNY";
  parent_account_id = scoped_parent book_id parent;
  version = pos 1;
}

abbrev pub default_payload : String → DefaultAccount → Value
default_payload book_id (key, name, ty, parent) = object (
    of_fields (
      ("name", string name)
      ∷ ("accountType", string ty)
      ∷ ("currency", string "CNY")
      ∷ ("parentAccountId", of_option (scoped_parent book_id parent))
      ∷ []))

module _ {T : Type 0} where
  unfoldable pub seed_account : String → MemoryStore T → DefaultAccount → MemoryStore T
  seed_account book_id s a =
      let id = scoped_account_id book_id a.0 in
      if contains id s.accounts then s else record s {
        accounts = insert id (default_record book_id a) s.accounts;
        changes =
            s.changes
            ++ record {
              sequence = next_sequence s.changes;
              book_id = book_id;
              commit_id = concat "category-defaults-v2:" book_id;
              entity_type = "account";
              entity_id = id;
              operation = "upsert";
              entity_version = pos 1;
              payload = default_payload book_id a;
            }
              ∷ [];
      }

  -- The loop over the default accounts.
  unfoldable pub seed_loop : String → List DefaultAccount → MemoryStore T → MemoryStore T
  unfolding seed_account
  seed_loop book_id [] s = s
  seed_loop book_id (a ∷ as') s = seed_loop book_id as' (seed_account book_id s a)

  unfoldable pub seed_accounts_mem : String → MemoryStore T → MemoryStore T
  unfolding seed_loop default_accounts
  seed_accounts_mem book_id s = seed_loop book_id default_accounts s

  -- `ensure_demo_book` without a database; `fresh` is the new book's id.
  unfoldable pub ensure_demo_book : String → String → MemoryStore T → String × MemoryStore T
  unfolding seed_accounts_mem
  ensure_demo_book fresh user_id s = elim (find (λ b. b.owner_id == user_id) (values s.books)) [
    | some b ↦ (b.id, seed_accounts_mem b.id s)
    | none ↦ (
      fresh,
      seed_accounts_mem fresh (record s {
        books = insert fresh (record { id = fresh; name = "Personal"; owner_id = user_id }) s.books;
      }),
    )
  ]
