-- ===== src/Attachments/Session.antt =====
-- `create_upload_session` of server/src/transport/http/commercial.rs.
use ledgerly.Prelude.{
  ℕ, String, Bool, true, false, [], ◌∷◌, ◌++◌, Option, none, some, if◌then◌else◌, ltb, Result, ok,
  err, refuse_if, ◌>>=◌, ◌>>◌,
}
use ledgerly.Prelude.Int.{ℤ, pos, ltb_ℤ}
use ledgerly.Json.{Value, null, string, number, object, of_fields, end}
use ledgerly.Text.{concat}
use ledgerly.ApiError.{ApiError, api_error}
use ledgerly.State.{Fresh, MemoryStore, AttachmentRecord}
use ledgerly.Authz.{require_book_member, require_plan}
use ledgerly.Attachments.Plan.{Config, as_u64, should_use_multipart, multipart_part_size_bytes}
use ledgerly.Attachments.Parts.{normalize_attachment_file_name}
use ledgerly.Audit.{Recorder, success}
use ledgerly.Attachments.Objects.{
  book_metadata, note_attachment, ObjectStore, io_result, transfer_url,
}

pub record UploadSessionRequest : Type 0 where
  pub transaction_id : Option String
  pub mime_type : Option String
  pub file_name : Option String
  pub size : Option ℤ

-- `req.size.is_some_and(|size| size < 0)`
abbrev pub is_negative : Option ℤ → Bool
is_negative none = false
is_negative (some size) = ltb_ℤ size (pos 0)

-- `req.size.is_some_and(|size| size as u64 > max)`
abbrev pub is_above : ℕ → Option ℤ → Bool
is_above max none = false
is_above max (some size) = ltb max (as_u64 size)

abbrev pub upload_mode_of : Bool → String
upload_mode_of multipart = if multipart then "multipart" else "single"

abbrev pub session_answer : Config → String → String → Value
session_answer config attachment_id object_key = object (
    of_fields (
      ("attachmentId", string attachment_id)
      ∷ ("objectKey", string object_key)
      ∷ ("uploadUrl", null)
      ∷ ("uploadMode", string "multipart")
      ∷ ("uploadHeaders", object end)
      ∷ ("downloadUrl", null)
      ∷ ("downloadMode", null)
      ∷ ("partSizeBytes", number (pos multipart_part_size_bytes))
      ∷ ("expiresIn", number (pos 86400))
      ∷ ("maxSizeBytes", number (pos config.attachment_max_bytes))
      ∷ []))

abbrev pub single_answer : Config → String → String → String × String → String × String → Value
single_answer config attachment_id object_key upload download = object (
    of_fields (
      ("attachmentId", string attachment_id)
      ∷ ("objectKey", string object_key)
      ∷ ("uploadUrl", string upload.0)
      ∷ ("uploadMode", string upload.1)
      ∷ ("uploadHeaders", object end)
      ∷ ("downloadUrl", string download.0)
      ∷ ("downloadMode", string download.1)
      ∷ ("expiresIn", number (pos 600))
      ∷ ("maxSizeBytes", number (pos config.attachment_max_bytes))
      ∷ []))

-- `format!("books/{book_id}/{attachment_id}")`
abbrev pub object_key_of : String → String → String
object_key_of book_id attachment_id = concat "books/" (concat book_id (concat "/" attachment_id))

module _ {T : Type 0} where
  -- The checks, up to the file name.
  unfoldable pub checked_session :
      MemoryStore T
      → Config
      → String
      → String
      → UploadSessionRequest
      → Result (Option String) ApiError
  checked_session s config user_id book_id req = do
    require_book_member s user_id book_id
    _ ← require_plan s user_id "plus"
    file_name ← normalize_attachment_file_name req.file_name
    refuse_if (is_negative req.size)
        (api_error 400 "INVALID_ATTACHMENT_SIZE" "attachment size must not be negative")
    refuse_if (is_above config.attachment_max_bytes req.size)
        (api_error 413 "ATTACHMENT_TOO_LARGE" "attachment exceeds configured maximum size")
    ok file_name

  -- The record that a session starts with.
  unfoldable pub pending_record :
      Fresh T
      → String
      → String
      → UploadSessionRequest
      → Option String
      → Bool
      → Option String
      → AttachmentRecord T
  pending_record fresh user_id book_id req file_name multipart upload_id = record {
    id = fresh.uuid;
    book_id = book_id;
    transaction_id = req.transaction_id;
    file_name = file_name;
    object_key = object_key_of book_id fresh.uuid;
    content_hash = none;
    mime_type = req.mime_type;
    size_bytes = req.size;
    upload_status = "pending";
    upload_mode = upload_mode_of multipart;
    multipart_upload_id = upload_id;
    multipart_parts = [];
    created_by = some user_id;
    created_at = fresh.now;
  }

module _ {O : Type 0} (objects : ObjectStore O) where
  -- `start_multipart_for_config` where the upload is cut into parts.
  unfoldable pub start_upload : O → String → Bool → Result (Option String) ApiError × O
  start_upload o key false = (ok none, o)
  start_upload o key true = let (r, o') = objects.start_multipart o key in (io_result r, o')

  -- The answer behind the stored record, with the upload mode that is recorded.
  unfoldable pub answer_session :
      O → Config → String → String → Bool → Result (Value × String) ApiError
  answer_session o config attachment_id key true =
      ok (session_answer config attachment_id key, "multipart")
  answer_session o config attachment_id key false = do
    upload ← transfer_url objects o "PUT" key 600
    download ← transfer_url objects o "GET" key 3600
    ok (single_answer config attachment_id key upload download, upload.1)

  -- `create_upload_session`; the UUID is the id of the attachment.
  unfoldable pub create_upload_session :
      {T : Type 0}
      → Recorder T
      → MemoryStore T
      → O
      → Config
      → Fresh T
      → String
      → String
      → UploadSessionRequest
      → Result Value ApiError × MemoryStore T × O
  unfolding start_upload
  create_upload_session a s o config fresh user_id book_id req =
      let key = object_key_of book_id fresh.uuid in
      let multipart = should_use_multipart config req.size in
      elim (checked_session s config user_id book_id req) [
        | err e ↦ (err e, s, o)
        | ok file_name ↦
            let (started, o') = start_upload (objects.ensure_dir o) key multipart in
            elim started [
              | err e ↦ (err e, s, o')
              | ok upload_id ↦
                  let s' = record s {
                    attachments =
                        s.attachments
                        ++ pending_record fresh user_id book_id req file_name multipart upload_id
                          ∷ [];
                  } in
                  elim (answer_session o' config fresh.uuid key multipart) [
                    | err e ↦ (err e, s', o')
                    | ok (answer, mode) ↦ (
                      ok answer,
                      note_attachment a s' user_id "attachment.upload_session" success fresh.uuid
                          (book_metadata book_id (("uploadMode", string mode) ∷ [])),
                      o',
                    )
                  ]
            ]
      ]
