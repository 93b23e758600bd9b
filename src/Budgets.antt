-- ===== src/Budgets.antt =====
-- Invites and budgets on the in-memory store, of server/src/transport/http/commercial.rs:
-- `create_invite`, `list_invites`, `create_budget`, `list_budgets`, and `create_recurring` and
-- `list_recurring`, which keep nothing without a database; and `list_revisions` of
-- server/src/transport/http/reports.rs.
use ledgerly.Prelude.{
  String, Bool, not, ◌&&◌, ◌||◌, List, [], ◌∷◌, ◌++◌, Option, none, some, map, filter, ◌==◌,
  if◌then◌else◌, Result, ok, err, ok_or, ◌>>=◌, ◌>>◌, string_eq, eqb,
}
use ledgerly.Prelude.Int.{ℤ, pos, add_i64, sub_i64, eqb_ℤ}
use ledgerly.Prelude.Dict.{values}
use ledgerly.Json.{Value, string, number, array, object, of_fields, of_items, of_option, nil}
use ledgerly.Text.{parse_i64, to_string}
use ledgerly.Audit.{Recorder, note_event, user_event, with_request, with_target, success}
use ledgerly.ApiError.{ApiError, api_error}
use ledgerly.State.{Calendar, MemoryStore, TxRecord, BudgetRecord, InviteRecord, RevisionRecord}
use ledgerly.Authz.{require_book_member, require_plan}
use ledgerly.Sync.Transaction.{unwrap_or}

pub record CreateInviteRequest : Type 0 where
  pub email : String
  pub role : Option String

pub record CreateBudgetRequest : Type 0 where
  pub name : String
  pub amount_minor : String
  pub currency : Option String
  pub category_account_id : Option String

abbrev pub invite_json : InviteRecord → Value
invite_json i = object (
    of_fields (
      ("id", string i.id)
      ∷ ("email", string i.email)
      ∷ ("role", string i.role)
      ∷ ("token", string i.token)
      ∷ []))

abbrev pub budget_json : String → BudgetRecord → ℤ → ℤ → Value
budget_json id_key b spent remaining = object (
    of_fields (
      (id_key, string b.id)
      ∷ ("name", string b.name)
      ∷ ("amountMinor", string (to_string b.amount_minor))
      ∷ ("currency", string b.currency)
      ∷ ("categoryAccountId", of_option b.category_account_id)
      ∷ ("spentMinor", string (to_string spent))
      ∷ ("remainingMinor", string (to_string remaining))
      ∷ []))

abbrev pub revision_json : RevisionRecord → Value
revision_json r = object (
    of_fields (
      ("id", string r.id)
      ∷ ("version", number r.version)
      ∷ ("operation", string r.operation)
      ∷ ("payload", r.payload)
      ∷ []))

-- `for (acc, amount, _) in &tx.entries { if acc == account_id { sum += amount; } }`
unfoldable pub add_entries : String → List (String × ℤ × String) → ℤ → ℤ
add_entries account_id [] sum = sum
add_entries account_id ((acc, amount, currency) ∷ es) sum =
    add_entries account_id es (if acc == account_id then add_i64 sum amount else sum)

module _ {T : Type 0} (calendar : Calendar T) where
  abbrev pub is_same_month : T → T → Bool
  is_same_month value reference =
      eqb_ℤ (calendar.year value) (calendar.year reference)
      && eqb (calendar.month value) (calendar.month reference)

  -- A transaction that the sum takes in.
  abbrev pub counts : String → T → TxRecord T → Bool
  counts book_id now tx =
      not (not (tx.book_id == book_id) || tx.deleted || not (is_same_month tx.occurred_at now))

  unfoldable pub add_transactions : String → String → T → List (TxRecord T) → ℤ → ℤ
  unfolding add_entries
  add_transactions book_id account_id now [] sum = sum
  add_transactions book_id account_id now (tx ∷ txs) sum =
      add_transactions book_id account_id now txs
        (if counts book_id now tx then add_entries account_id tx.entries sum else sum)

  -- `month_spent_for_account` without a database
  unfoldable pub month_spent_for_account : MemoryStore T → T → String → String → ℤ
  unfolding add_transactions
  month_spent_for_account s now book_id account_id =
      add_transactions book_id account_id now (values s.transactions) (pos 0)

  abbrev pub spent_of : MemoryStore T → T → String → Option String → ℤ
  spent_of s now book_id none = pos 0
  spent_of s now book_id (some account_id) = month_spent_for_account s now book_id account_id

  abbrev pub budget_item : MemoryStore T → T → String → BudgetRecord → Value
  budget_item s now book_id b =
      let spent = spent_of s now book_id b.category_account_id in
      budget_json "id" b spent (sub_i64 b.amount_minor spent)

  -- `list_budgets`, whose loops are those of `month_spent_for_account`
  unfoldable pub list_budgets : MemoryStore T → T → String → String → Result Value ApiError
  list_budgets s now user_id book_id = do
    require_book_member s user_id book_id
    ok (
        object (
          of_fields (
            (
              "budgets",
              array (
                  of_items (
                    map (budget_item s now book_id)
                      (filter (λ b. b.book_id == book_id) s.budgets))),
            )
            ∷ [])))

module _ {T : Type 0} where
  -- `create_invite`; the id and the token are new UUIDs.
  unfoldable pub create_invite :
      Recorder T
      → MemoryStore T
      → String
      → String
      → String
      → String
      → CreateInviteRequest
      → Result Value ApiError × MemoryStore T
  unfolding note_event
  create_invite a s id token user_id book_id req =
      let invite : InviteRecord = record {
        id = id;
        book_id = book_id;
        email = req.email;
        role = unwrap_or req.role "editor";
        token = token;
      } in
      elim (require_book_member s user_id book_id) [
        | err e ↦ (err e, s)
        | ok _ ↦ elim (require_plan s user_id "family") [
          | err e ↦ (err e, s)
          | ok _ ↦ (
            ok (
                object (
                  of_fields (
                    ("inviteId", string id)
                    ∷ ("token", string token)
                    ∷ ("email", string req.email)
                    ∷ ("role", string (unwrap_or req.role "editor"))
                    ∷ []))),
            note_event a (record s { invites = s.invites ++ invite ∷ [] })
                (record (with_request a
                  (with_target "invite" id (user_event user_id "invite.create" success))) {
                    metadata = object (
                        of_fields (("bookId", string book_id) ∷ ("role", string invite.role) ∷ []));
                  }),
          )
        ]
      ]

  -- `list_invites`
  unfoldable pub list_invites : MemoryStore T → String → String → Result Value ApiError
  list_invites s user_id book_id = do
    require_book_member s user_id book_id
    ok (
        object (
          of_fields (
            (
              "invites",
              array (of_items (map invite_json (filter (λ i. i.book_id == book_id) s.invites))),
            )
            ∷ [])))

  -- The checks of `create_budget`, up to the record.
  unfoldable pub checked_budget :
      MemoryStore T → String → String → String → CreateBudgetRequest → Result BudgetRecord ApiError
  checked_budget s id user_id book_id req = do
    require_book_member s user_id book_id
    amount ← ok_or (parse_i64 req.amount_minor) (api_error 400 "INVALID_AMOUNT" "bad amountMinor")
    ok (record {
      id = id;
      book_id = book_id;
      name = req.name;
      amount_minor = amount;
      currency = unwrap_or req.currency "CNY";
      category_account_id = req.category_account_id;
    })

  -- `create_budget`; the id is a new UUID.
  unfoldable pub create_budget :
      MemoryStore T
      → String
      → String
      → String
      → CreateBudgetRequest
      → Result Value ApiError × MemoryStore T
  unfolding checked_budget
  create_budget s id user_id book_id req = elim (checked_budget s id user_id book_id req) [
    | err e ↦ (err e, s)
    | ok b ↦ (
      ok (budget_json "budgetId" b (pos 0) b.amount_minor),
      record s { budgets = s.budgets ++ b ∷ [] },
    )
  ]

  -- `create_recurring`, which stores nothing without a database
  unfoldable pub create_recurring :
      MemoryStore T → String → String → String → String → Result Value ApiError
  create_recurring s id user_id book_id name = do
    require_book_member s user_id book_id
    ok (object (of_fields (("recurringId", string id) ∷ ("name", string name) ∷ [])))

  -- `list_recurring` without a database
  unfoldable pub list_recurring : MemoryStore T → String → String → Result Value ApiError
  list_recurring s user_id book_id = do
    require_book_member s user_id book_id
    ok (object (of_fields (("rules", array nil) ∷ [])))

  -- `list_revisions`
  unfoldable pub list_revisions : MemoryStore T → String → String → String → Result Value ApiError
  list_revisions s user_id book_id tx_id = do
    require_book_member s user_id book_id
    ok (
        object (
          of_fields (
            (
              "revisions",
              array (
                  of_items (
                    map revision_json (
                      filter (λ r. (r.book_id == book_id) && (r.transaction_id == tx_id))
                        s.revisions))),
            )
            ∷ [])))
