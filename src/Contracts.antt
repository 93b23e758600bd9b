-- ===== src/Contracts.antt =====
-- The request and response bodies of server/crates/ledger-contracts/src/lib.rs.
use ledgerly.Prelude.{ℕ, String, Bool, List, Option}
use ledgerly.Prelude.Int.{ℤ}
use ledgerly.Json.{Value}

pub record RegisterRequest : Type 0 where
  pub email : String
  pub password : String
  pub display_name : String

-- `#[serde(other)]`: any mode but `cookie` reads as `unsupported`.
pub data SessionMode : Type 0 where
  cookie unsupported : SessionMode

pub record LoginRequest : Type 0 where
  pub email : String
  pub password : String
  pub device_id : String
  pub device_name : Option String
  pub session_mode : Option SessionMode

pub record TokenResponse : Type 0 where
  pub access_token : String
  pub refresh_token : Option String
  pub token_type : String
  pub expires_in : ℕ
  pub book_id : Option String
  pub plan : Option String

pub record EntryDto : Type 0 where
  pub account_id : String
  pub amount_minor : String
  pub currency : String

pub record CreateTransactionRequest : Type 0 where
  pub book_id : String
  pub description : Option String
  pub entries : List EntryDto

pub record CreateTransactionResponse : Type 0 where
  pub transaction_id : String
  pub version : ℤ

pub record SyncMutationDto : Type 0 where
  pub mutation_id : String
  pub entity_type : String
  pub entity_id : String
  pub operation : String
  pub base_version : ℤ
  pub schema_version : ℤ
  pub payload : Value

pub record SyncPushRequest : Type 0 where
  pub device_id : String
  pub mutations : List SyncMutationDto

pub record MutationReceiptDto : Type 0 where
  pub mutation_id : String
  pub status : String
  pub result_code : String
  pub entity_version : Option ℤ

pub record SyncPushResponse : Type 0 where
  pub receipts : List MutationReceiptDto

pub record SyncChangeDto : Type 0 where
  pub sequence : String
  pub commit_id : String
  pub entity_type : String
  pub entity_id : String
  pub operation : String
  pub version : ℤ
  pub payload : Value

pub record SyncPullResponse : Type 0 where
  pub next_cursor : String
  pub has_more : Bool
  pub changes : List SyncChangeDto
