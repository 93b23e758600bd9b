-- ===== src/Attachments/Complete.antt =====
-- `complete_attachment` and `reject_attachment_upload` of server/src/transport/http/commercial.rs.
use ledgerly.Prelude.{
  ℕ, String, Bool, false, not, ◌||◌, List, [], ◌∷◌, Option, none, some, if◌then◌else◌, ◌==◌, ltb,
  eqb, any, length, Result, ok, err, ok_or, refuse_if, ◌>>=◌, ◌>>◌,
}
use ledgerly.Prelude.Int.{ℤ, pos, ltb_ℤ, as_i64}
use ledgerly.Json.{Value, string, object, of_fields}
use ledgerly.Text.{is_empty}
use ledgerly.ApiError.{ApiError, api_error}
use ledgerly.State.{MemoryStore, AttachmentRecord}
use ledgerly.Audit.{Recorder, success, failure}
use ledgerly.Attachments.Plan.{Config, as_u64, multipart_part_count, invalid_size}
use ledgerly.Attachments.Parts.{parse_multipart_parts, parts_json}
use ledgerly.Attachments.Objects.{
  book_metadata, note_attachment, ObjectStore, ObjectMetadata, object_store_io, update_attachment,
  mark_attachment_failed, transfer_url,
}
use ledgerly.Attachments.Upload.{entitled_attachment}

abbrev pub size_mismatch : ApiError
size_mismatch =
    api_error 422 "UPLOAD_SIZE_MISMATCH"
      "uploaded attachment size does not match the upload session"

abbrev pub no_size : ApiError
no_size = api_error 400 "INVALID_MULTIPART_STATE" "multipart upload size is missing"

abbrev pub incomplete : ApiError
incomplete = api_error 400 "MULTIPART_INCOMPLETE" "not all multipart parts have been uploaded"

-- `expected_size.is_some_and(|size| size < 0 || size as u64 != actual_size)`
abbrev pub size_differs : Option ℤ → ℕ → Bool
size_differs none actual = false
size_differs (some size) actual = ltb_ℤ size (pos 0) || not (eqb (as_u64 size) actual)

abbrev pub complete_answer : String → String → Value
complete_answer attachment_id url = object (
    of_fields (
      ("attachmentId", string attachment_id)
      ∷ ("uploadStatus", string "ready")
      ∷ ("downloadUrl", string url)
      ∷ []))

module _ {T : Type 0} where
  -- The ids of the parts, once all have arrived.
  unfoldable pub complete_parts : AttachmentRecord T → Result (List String) ApiError
  complete_parts r = do
    size ← ok_or r.size_bytes no_size
    refuse_if (ltb_ℤ size (pos 0)) invalid_size
    part_ids ← parse_multipart_parts (parts_json r.multipart_parts)
    refuse_if
        (not (eqb (length part_ids) (multipart_part_count (as_u64 size))) || any is_empty part_ids)
        incomplete
    ok part_ids

  -- The write for a verified object.
  unfoldable pub mark_ready : ObjectMetadata → AttachmentRecord T → AttachmentRecord T
  mark_ready metadata r = record r {
    upload_status = "ready";
    size_bytes = some (as_i64 (pos metadata.size_bytes));
    content_hash = some metadata.sha256;
    multipart_upload_id = none;
    multipart_parts = [];
  }

module _ {O : Type 0} (objects : ObjectStore O) where
  -- `if let Some(upload_id) = .. { let _ = abort_multipart_for_config(..) }`
  unfoldable pub abort_upload : O → String → Option String → O
  abort_upload o key none = o
  abort_upload o key (some u) = (objects.abort_multipart o key (some u)).1

  -- The answer behind the write.
  unfoldable pub answer_complete : O → String → String → Result Value ApiError
  answer_complete o attachment_id key = do
    url ← transfer_url objects o "GET" key 3600
    ok (complete_answer attachment_id url.0)

module _ {T : Type 0} (a : Recorder T) where
  -- `audit_attachment_complete_failure`
  unfoldable pub audit_attachment_complete_failure :
      MemoryStore T → String → String → String → String → MemoryStore T
  unfolding note_attachment
  audit_attachment_complete_failure s user_id book_id attachment_id reason =
      note_attachment a s user_id "attachment.complete" failure attachment_id
        (book_metadata book_id (("reason", string reason) ∷ []))

  abbrev pub audit_reason : MemoryStore T → String → String → String → Option String → MemoryStore T
  audit_reason s user_id book_id attachment_id none = s
  audit_reason s user_id book_id attachment_id (some reason) =
      audit_attachment_complete_failure s user_id book_id attachment_id reason

module _ {O : Type 0} (objects : ObjectStore O) {T : Type 0} where
  -- The parts of a multipart upload are put together; an error comes with the reason that is recorded.
  unfoldable pub assemble :
      O → AttachmentRecord T → Result (Unit {0}) (ApiError × Option String) × O
  unfolding complete_parts
  assemble o r =
      if r.upload_mode == "multipart"
      then elim (complete_parts r) [
        | err e ↦ (err (e, none), o)
        | ok part_ids ↦
            let (done, o') =
              objects.complete_multipart o r.object_key r.multipart_upload_id part_ids in
            elim done [
              | err _ ↦ (err (object_store_io, some "multipart_complete_failed"), o')
              | ok _ ↦ (ok tt, o')
            ]
      ]
      else (ok tt, o)

module _ {O : Type 0} (objects : ObjectStore O) {T : Type 0} (a : Recorder T) where
  -- `reject_attachment_upload`: what the object store answers is ignored.
  unfoldable pub reject_attachment_upload :
      MemoryStore T
      → O
      → String
      → String
      → String
      → String
      → Option String
      → String
      → Result Value ApiError × MemoryStore T × O
  unfolding audit_attachment_complete_failure
  reject_attachment_upload s o user_id book_id attachment_id key upload_id reason =
      let deleted = (objects.delete_object (abort_upload objects o key upload_id) key).1 in
      (
        err size_mismatch,
        audit_attachment_complete_failure a (mark_attachment_failed s book_id attachment_id) user_id
            book_id attachment_id reason,
        deleted,
      )

  -- From the metadata on; the record stays `ready` where the URL cannot be had.
  unfoldable pub finish_upload :
      MemoryStore T
      → O
      → String
      → String
      → String
      → AttachmentRecord T
      → ℕ
      → ObjectMetadata
      → Result Value ApiError × MemoryStore T × O
  unfolding mark_ready answer_complete reject_attachment_upload
  finish_upload s o user_id book_id attachment_id r actual metadata =
      let s' = update_attachment s book_id attachment_id (mark_ready metadata) in
      if not (eqb metadata.size_bytes actual)
      then reject_attachment_upload s o user_id book_id attachment_id r.object_key
          r.multipart_upload_id "size_changed_during_verification"
      else elim (answer_complete objects o attachment_id r.object_key) [
        | err e ↦ (err e, s', o)
        | ok answer ↦ (
          ok answer,
          note_attachment a s' user_id "attachment.complete" success attachment_id
              (book_metadata book_id []),
          o,
        )
      ]

  -- From the size of the object on.
  unfoldable pub verify_upload :
      MemoryStore T
      → O
      → Config
      → String
      → String
      → String
      → AttachmentRecord T
      → Result Value ApiError × MemoryStore T × O
  unfolding finish_upload reject_attachment_upload
  verify_upload s o config user_id book_id attachment_id r =
      let fails = audit_attachment_complete_failure a s user_id book_id attachment_id in
      elim (objects.object_size o r.object_key) [
        | err _ ↦ (err object_store_io, fails "storage_unavailable", o)
        | ok none ↦ (
          err (api_error 400 "UPLOAD_INCOMPLETE" "object not found in object storage"),
          fails "upload_incomplete",
          o,
        )
        | ok (some actual) ↦
            if ltb config.attachment_max_bytes actual || size_differs r.size_bytes actual
            then reject_attachment_upload s o user_id book_id attachment_id r.object_key
                r.multipart_upload_id "size_mismatch"
            else elim (objects.object_metadata o r.object_key) [
              | err _ ↦ (err object_store_io, fails "verification_failed", o)
              | ok metadata ↦ finish_upload s o user_id book_id attachment_id r actual metadata
            ]
      ]

  -- `complete_attachment`
  unfoldable pub complete_attachment :
      MemoryStore T
      → O
      → Config
      → String
      → String
      → String
      → Result Value ApiError × MemoryStore T × O
  unfolding assemble verify_upload
  complete_attachment s o config user_id book_id attachment_id =
      elim (entitled_attachment s user_id book_id attachment_id) [
        | err e ↦ (err e, s, o)
        | ok r ↦
            let (assembled, o') = assemble objects o r in
            elim assembled [
              | err (e, reason) ↦ (err e, audit_reason a s user_id book_id attachment_id reason, o')
              | ok _ ↦ verify_upload s o' config user_id book_id attachment_id r
            ]
      ]
