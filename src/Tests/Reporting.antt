-- ===== src/Tests/Reporting.antt =====
-- A new book, totals of a report, a configuration, and the audit trail.
use ledgerly.Prelude.{
  text_ne, ◌≡◌, ◌≤◌, refl, true, false, none, some, List, [], ◌∷◌, ok, All, arith, length,
}
use ledgerly.Prelude.Int.{ℤ, pos, negsuc}
use ledgerly.Prelude.Dict.{values}
use ledgerly.Json.{Value, object, string, of_fields}
use ledgerly.Books.{CreateBookRequest}
use ledgerly.Reports.{Floats, Row, convert_amount, aggregate_entries}
use ledgerly.Reports.Categories.{
  row_income, row_expense, rows_total, categories_total, IsNonnegative, aggregate_entries-totals,
}
use ledgerly.Text.{contains_text}
use ledgerly.Attachments.Plan.{local}
use ledgerly.Settings.{
  Settings, validate, check_limits, check_backend, check_production, check_secrets, check_exposure,
}
use ledgerly.Books.{dev_upgrade}
use ledgerly.Books.Opening.{Upgrades, dev_upgrade-sets}
use ledgerly.Tests.Users.{recorder}
use ledgerly.Audit.{
  AuditEvent, user_event, success, audit_record, record_memory, list_events, clamp_limit,
  limit_or_50,
}
use ledgerly.Audit.Trail.{IsTail, record_memory-IsTail}
use ledgerly.Audit.Privacy.{list_events-own}
use ledgerly.Tests.{opened, at, clock}

abbrev holiday : CreateBookRequest
holiday = record { name = " Holiday "; currency_code = "EUR" }

abbrev holiday_answer : Value
holiday_answer = object (
    of_fields (
      ("id", string "b3")
      ∷ ("name", string "Holiday")
      ∷ ("currencyCode", string "EUR")
      ∷ ("role", string "owner")
      ∷ []))

abbrev whole : Floats ℤ
whole = record {
  of_i64 = λ a. a;
  product = λ a b. a;
  quotient = λ a b. a;
  round = λ a. a;
  above_one = λ a. false;
  above_nine_tenths = λ a. false;
  is_not_positive = λ a. false;
}

abbrev rows : List Row
rows =
    ("Food", "expense", pos 1200, "CNY")
    ∷ ("Salary", "income", negsuc 499999, "CNY")
    ∷ ("Food", "expense", pos 300, "CNY")
    ∷ []

aggregate_entries-totals_example :
    let t = aggregate_entries whole rows "CNY" [] in
    (t.income ≡ pos (rows_total whole row_income "CNY" [] rows))
    × (t.expense ≡ pos (rows_total whole row_expense "CNY" [] rows))
    × (categories_total t.categories ≡ rows_total whole row_expense "CNY" [] rows)
    × All IsNonnegative (values t.categories)
unfolding rows_total convert_amount
aggregate_entries-totals_example =
    aggregate_entries-totals whole rows "CNY" [] (omega arith) (omega arith)

abbrev login : AuditEvent
login = user_event "u" "auth.login" success

record_memory-IsTail_example :
    IsTail opened.audit_events
      (record_memory (λ v. 2) opened (at "e1") login).audit_events
      (audit_record (at "e1") login)
record_memory-IsTail_example = record_memory-IsTail (λ v. 2) opened (at "e1") login (omega arith)

list_events-own_example :
    let page =
      list_events clock
        (record_memory (λ v. 2) opened (at "e1") login)
        "u"
        (some 5)
        none
        none
        none in
    All (λ v. v.actor_id ≡ some "u") page.events
    × (length page.events ≤ clamp_limit (limit_or_50 (some 5)))
list_events-own_example =
    list_events-own clock (record_memory (λ v. 2) opened (at "e1") login) "u" (some 5) none none
      none

abbrev production : Settings
production = record {
  database_url = some "postgres://ledger";
  jwt_secret = "j";
  jwt_ed25519_seed = some "seed";
  jwt_previous_ed25519_seed = none;
  object_store_hmac_secret = "h";
  object_storage_backend = local;
  s3_endpoint = none;
  s3_bucket = none;
  s3_access_key_id = none;
  s3_secret_access_key = none;
  s3_prefix = none;
  s3_allow_http = false;
  s3_public_endpoint = none;
  attachment_max_bytes = 104857600;
  backup_dir = none;
  backup_password = none;
  backup_capacity_warn_bytes = 10;
  backup_capacity_critical_bytes = 20;
  recovery_drill_enabled = false;
  cors_allowed_origins = "https://ledger.example" ∷ [];
  auth_cookie_secure = true;
  is_production = true;
}

accepts : validate (λ text. none) production ≡ ok tt
unfolding validate check_limits check_backend check_production check_secrets check_exposure
    contains_text
accepts = refl

dev_upgrade-sets_example :
    Upgrades opened false "u" "plus" "v" (dev_upgrade recorder opened false "u" "plus")
dev_upgrade-sets_example = dev_upgrade-sets recorder opened false "u" "plus" "v" (text_ne refl)
