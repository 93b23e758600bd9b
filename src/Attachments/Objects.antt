-- ===== src/Attachments/Objects.antt =====
-- What the attachments of server/src/transport/http/commercial.rs use of
-- server/src/infrastructure/object_store.rs, as an interface, and the access to a record of the store.
use ledgerly.Prelude.{
  ℕ, String, Bool, ◌&&◌, List, [], ◌∷◌, Option, none, some, ◌==◌, if◌then◌else◌, find, filter, not,
  Result, ok, err,
}
use ledgerly.Audit.{Recorder, AuditOutcome, note_event, user_event, with_request, with_target}
use ledgerly.Json.{Value, string, object, of_fields}
use ledgerly.ApiError.{ApiError, api_error}
use ledgerly.State.{MemoryStore, AttachmentRecord}

pub record ObjectMetadata : Type 0 where
  pub size_bytes : ℕ
  pub sha256 : String

-- The functions `*_for_config`, `direct_url`, `sign_url` and `ensure_dir`, over the state `O` of the
-- store. An object's key comes behind the state, then the upload id. The callers drop the cause of an
-- error.
pub record ObjectStore (O : Type 0) : Type 0 where
  pub ensure_dir : O → O
  pub start_multipart : O → String → Result (Option String) (Unit {0}) × O
  -- The index of the part, from 0, and its bytes; the answer is the id of the part.
  pub put_multipart_part : O → String → Option String → ℕ → List ℕ → Result String (Unit {0}) × O
  pub complete_multipart :
      O → String → Option String → List String → Result (Unit {0}) (Unit {0}) × O
  pub abort_multipart : O → String → Option String → Result (Unit {0}) (Unit {0}) × O
  pub delete_object : O → String → Result (Unit {0}) (Unit {0}) × O
  pub object_size : O → String → Result (Option ℕ) (Unit {0})
  pub object_metadata : O → String → Result ObjectMetadata (Unit {0})
  -- The method, the key, and the seconds until the URL expires.
  pub direct_url : O → String → String → ℕ → Result (Option String) (Unit {0})
  pub sign_url : O → String → String → ℕ → String
  -- The key, the upload id, the number of the part, and the seconds until the URL expires.
  pub part_upload_url : O → String → Option String → ℕ → ℕ → Result (Option String) (Unit {0})

-- `object_store_api_error`
abbrev pub object_store_io : ApiError
object_store_io = api_error 500 "OBJECT_STORE_IO" "object storage unavailable"

-- `result.map_err(object_store_api_error)`
abbrev pub io_result : {A : Type 0} → Result A (Unit {0}) → Result A ApiError
io_result (ok a) = ok a
io_result (err _) = err object_store_io

abbrev pub attachment_missing : ApiError
attachment_missing = api_error 404 "NOT_FOUND" "attachment missing"

-- `serde_json::json!({ "bookId": book_id, .. })`
abbrev pub book_metadata : String → List (String × Value) → Value
book_metadata book_id fields = object (of_fields (("bookId", string book_id) ∷ fields))

module _ {T : Type 0} (a : Recorder T) where
  -- The event that a handler records about an attachment.
  unfoldable pub note_attachment :
      MemoryStore T → String → String → AuditOutcome → String → Value → MemoryStore T
  unfolding note_event
  note_attachment s user_id action outcome attachment_id metadata =
      note_event a s
        (record (with_request a
          (with_target "attachment" attachment_id (user_event user_id action outcome))) {
            metadata = metadata;
          })

module _ {T : Type 0} where
  -- `record.id == attachment_id && record.book_id == book_id`
  abbrev pub is_attachment : String → String → AttachmentRecord T → Bool
  is_attachment book_id attachment_id r = (r.id == attachment_id) && (r.book_id == book_id)

  unfoldable pub find_attachment : MemoryStore T → String → String → Option (AttachmentRecord T)
  find_attachment s book_id attachment_id = find (is_attachment book_id attachment_id) s.attachments

  -- `if let Some(record) = records.iter_mut().find(p) { f(record) }`
  unfoldable pub update_first :
      (AttachmentRecord T → Bool)
      → (AttachmentRecord T → AttachmentRecord T)
      → List (AttachmentRecord T)
      → List (AttachmentRecord T)
  update_first p f [] = []
  update_first p f (r ∷ rs) = if p r then f r ∷ rs else r ∷ update_first p f rs

  unfoldable pub update_attachment :
      MemoryStore T → String → String → (AttachmentRecord T → AttachmentRecord T) → MemoryStore T
  unfolding update_first
  update_attachment s book_id attachment_id f = record s {
    attachments = update_first (is_attachment book_id attachment_id) f s.attachments;
  }

  -- `retain(|record| !(record.id == attachment_id && record.book_id == book_id))`
  unfoldable pub remove_attachment : MemoryStore T → String → String → MemoryStore T
  remove_attachment s book_id attachment_id = record s {
    attachments = filter (λ r. not (is_attachment book_id attachment_id r)) s.attachments;
  }

  -- `mark_attachment_failed` without a database
  unfoldable pub mark_attachment_failed : MemoryStore T → String → String → MemoryStore T
  unfolding update_attachment
  mark_attachment_failed s book_id attachment_id =
      update_attachment s book_id attachment_id (λ r. record r { upload_status = "failed" })

module _ {O : Type 0} (objects : ObjectStore O) where
  -- `match direct_url(..)? { Some(url) => (url, "direct"), None => (sign_url(..), "proxy") }`
  unfoldable pub transfer_url : O → String → String → ℕ → Result (String × String) ApiError
  transfer_url o method key expires_in = elim (objects.direct_url o method key expires_in) [
    | err _ ↦ err object_store_io
    | ok (some url) ↦ ok (url, "direct")
    | ok none ↦ ok (objects.sign_url o method key expires_in, "proxy")
  ]
