-- ===== src/State.antt =====
-- The in-memory store: server/src/state.rs. `T` is the type of `time::OffsetDateTime`.
-- A hash map is a `Dict`. `fx_rates` is left out: its rates are floating-point numbers.
pub mod Defaults
use ledgerly.Prelude.{
  ℕ, ◌+◌, String, Bool, ◌&&◌, List, Option, none, some, length, ◌==◌, Eq, ◌≡◌, ◌↔◌, arith, eq_iff,
  true,
}
use ledgerly.Prelude.Int.{ℤ, pos, as_i64, add_i64}
use ledgerly.Prelude.Dict.{Dict}
use ledgerly.Json.{Value}
use ledgerly.Text.{concat}

-- What the modelled code uses of the `time` crate: parsing and printing RFC 3339 texts, and the offset
-- UTC.
pub record TimeLib (T : Type 0) : Type 0 where
  pub parse_rfc3339 : String → Option T
  pub to_utc : T → T
  pub format_rfc3339 : T → String

-- What the modelled code uses of the `time` crate: the order of moments, the year and the month (from 1
-- to 12) in UTC, and midnight of the first day of a month, where the crate has such a date.
pub record Calendar (T : Type 0) : Type 0 where
  pub is_before : T → T → Bool
  pub year : T → ℤ
  pub month : T → ℕ
  pub first_of_month : ℤ → ℕ → Option T

-- What a call draws from outside: the clock, and a new UUID.
pub record Fresh (T : Type 0) : Type 0 where
  pub now : T
  pub uuid : String

pub record UserRecord : Type 0 where
  pub id : String
  pub email : String
  pub password_hash : String
  pub display_name : String

pub record SessionRecord : Type 0 where
  pub id : String
  pub user_id : String
  pub device_id : String
  pub refresh_hash : String
  pub revoked : Bool

pub record BookRecord : Type 0 where
  pub id : String
  pub name : String
  pub owner_id : String

pub record AccountRecord : Type 0 where
  pub id : String
  pub book_id : String
  pub name : String
  pub account_type : String
  pub currency : String
  pub parent_account_id : Option String
  pub version : ℤ

pub record TxRecord (T : Type 0) : Type 0 where
  pub id : String
  pub book_id : String
  pub occurred_at : T
  pub description : Option String
  pub version : ℤ
  pub deleted : Bool
  pub entries : List (String × ℤ × String)
  pub source : Option String
  pub source_event_fingerprint : Option String

pub record MutationReceipt : Type 0 where
  pub status : String
  pub result_code : String
  pub entity_version : Option ℤ

pub record ChangeRecord : Type 0 where
  pub sequence : ℤ
  pub book_id : String
  pub commit_id : String
  pub entity_type : String
  pub entity_id : String
  pub operation : String
  pub entity_version : ℤ
  pub payload : Value

pub record BudgetRecord : Type 0 where
  pub id : String
  pub book_id : String
  pub name : String
  pub amount_minor : ℤ
  pub currency : String
  pub category_account_id : Option String

pub record InviteRecord : Type 0 where
  pub id : String
  pub book_id : String
  pub email : String
  pub role : String
  pub token : String

pub record AttachmentRecord (T : Type 0) : Type 0 where
  pub id : String
  pub book_id : String
  pub transaction_id : Option String
  pub file_name : Option String
  pub object_key : String
  pub content_hash : Option String
  pub mime_type : Option String
  pub size_bytes : Option ℤ
  pub upload_status : String
  pub upload_mode : String
  pub multipart_upload_id : Option String
  pub multipart_parts : List String
  pub created_by : Option String
  pub created_at : T

pub record RevisionRecord : Type 0 where
  pub id : String
  pub book_id : String
  pub transaction_id : String
  pub version : ℤ
  pub operation : String
  pub payload : Value

pub record AuditEventRecord (T : Type 0) : Type 0 where
  pub id : String
  pub occurred_at : T
  pub actor_type : String
  pub actor_id : Option String
  pub action : String
  pub outcome : String
  pub target_type : Option String
  pub target_id : Option String
  pub request_id : Option String
  pub metadata : Value

-- The key of a receipt: book, device, mutation.
abbrev pub MutationKey : Type 0
MutationKey = String × String × String

abbrev pub key_beq : MutationKey → MutationKey → Bool
key_beq a b = (a.0 == b.0) && (a.1 == b.1) && (a.2 == b.2)

pub key_beq_iff : (a b : MutationKey) → (key_beq a b ≡ true) ↔ (a ≡ b)
key_beq_iff a b = ground (arith, eq_iff a.0 b.0, eq_iff a.1 b.1, eq_iff a.2 b.2)

instance abbrev pub key_eq : Eq MutationKey
key_eq = record { beq = key_beq; beq_iff = key_beq_iff }

pub record MemoryStore (T : Type 0) : Type 0 where
  pub users : Dict String UserRecord
  pub users_by_email : Dict String String
  pub sessions : Dict String SessionRecord
  pub refresh_to_session : Dict String String
  pub books : Dict String BookRecord
  pub accounts : Dict String AccountRecord
  pub transactions : Dict String (TxRecord T)
  pub mutations : Dict MutationKey MutationReceipt
  pub changes : List ChangeRecord
  pub subscriptions : Dict String String
  pub budgets : List BudgetRecord
  pub invites : List InviteRecord
  pub revisions : List RevisionRecord
  pub audit_events : List (AuditEventRecord T)
  pub attachments : List (AttachmentRecord T)

-- `scoped_account_id`
abbrev pub scoped_account_id : String → String → String
scoped_account_id book_id key = concat book_id (concat ":" key)

-- `(store.changes.len() as i64) + 1`
unfoldable pub next_sequence : List ChangeRecord → ℤ
next_sequence changes = add_i64 (as_i64 (pos (length changes))) (pos 1)
