-- ===== src/Attachments/Catalog.antt =====
-- `list_attachments`, `attachment_download_info` and `delete_attachment` of
-- server/src/transport/http/commercial.rs.
use ledgerly.Prelude.{
  String, Bool, not, ◌&&◌, ◌||◌, List, [], ◌∷◌, Option, none, some, if◌then◌else◌, ◌==◌, filter,
  Result, ok, err, ok_or, ◌>>=◌, ◌>>◌,
}
use ledgerly.Prelude.Int.{ℤ}
use ledgerly.Json.{Value, null, string, number, array, object, of_fields, of_items, of_option}
use ledgerly.ApiError.{ApiError}
use ledgerly.State.{TimeLib, Calendar, MemoryStore, AttachmentRecord}
use ledgerly.Authz.{require_book_member}
use ledgerly.Audit.{Recorder, success}
use ledgerly.Attachments.Objects.{
  book_metadata, note_attachment, ObjectStore, io_result, attachment_missing, find_attachment,
  remove_attachment, transfer_url,
}
use ledgerly.Text.{is_less}
use ledgerly.Sync.Transaction.{unwrap_or}

-- `json!` of an `Option<i64>`
abbrev pub of_number : Option ℤ → Value
of_number none = null
of_number (some n) = number n

module _ {T : Type 0} (calendar : Calendar T) where
  -- `right` sorts before `left`: later, or at the same moment with the greater id.
  unfoldable pub sorts_before : AttachmentRecord T → AttachmentRecord T → Bool
  sorts_before right left =
      calendar.is_before left.created_at right.created_at
      || (not (calendar.is_before right.created_at left.created_at) && is_less left.id right.id)

  -- Behind every record that it does not sort before.
  unfoldable pub insert_record :
      AttachmentRecord T → List (AttachmentRecord T) → List (AttachmentRecord T)
  unfolding sorts_before
  insert_record r [] = r ∷ []
  insert_record r (q ∷ qs) =
      let rest = insert_record r qs in if sorts_before q r then q ∷ rest else r ∷ q ∷ qs

  -- `records.sort_by(..)`, which is stable.
  unfoldable pub sort_records : List (AttachmentRecord T) → List (AttachmentRecord T)
  unfolding insert_record
  sort_records [] = []
  sort_records (r ∷ rs) = insert_record r (sort_records rs)

module _ {O : Type 0} (objects : ObjectStore O) where
  -- `attachment_download_info`
  unfoldable pub attachment_download_info :
      O → String → String → Result (Option String × Option String) ApiError
  attachment_download_info o upload_status key =
      if not (upload_status == "ready")
      then ok (none, none)
      else elim (transfer_url objects o "GET" key 3600) [
        | err e ↦ err e
        | ok (url, mode) ↦ ok (some url, some mode)
      ]

module _ {O T : Type 0} (objects : ObjectStore O) (time : TimeLib T) where
  abbrev pub catalog_item : AttachmentRecord T → Option String × Option String → Value
  catalog_item r (url, mode) = object (
      of_fields (
        ("id", string r.id)
        ∷ ("transactionId", of_option r.transaction_id)
        ∷ ("fileName", string (unwrap_or r.file_name "attachment"))
        ∷ ("objectKey", string r.object_key)
        ∷ ("contentHash", of_option r.content_hash)
        ∷ ("mimeType", string (unwrap_or r.mime_type "application/octet-stream"))
        ∷ ("sizeBytes", of_number r.size_bytes)
        ∷ ("uploadStatus", string r.upload_status)
        ∷ ("createdAt", string (time.format_rfc3339 r.created_at))
        ∷ ("downloadUrl", of_option url)
        ∷ ("downloadMode", of_option mode)
        ∷ []))

  unfoldable pub catalog_items : O → List (AttachmentRecord T) → Result (List Value) ApiError
  unfolding attachment_download_info
  catalog_items o [] = ok []
  catalog_items o (r ∷ rs) = do
    info ← attachment_download_info objects o r.upload_status r.object_key
    rest ← catalog_items o rs
    ok (catalog_item r info ∷ rest)

  -- `list_attachments`
  unfoldable pub list_attachments :
      Calendar T → MemoryStore T → O → String → String → Result Value ApiError
  unfolding catalog_items
  list_attachments calendar s o user_id book_id = do
    require_book_member s user_id book_id
    attachments ←
        catalog_items o (sort_records calendar (filter (λ r. r.book_id == book_id) s.attachments))
    ok (object (of_fields (("attachments", array (of_items attachments)) ∷ [])))

module _ {T : Type 0} where
  -- The checks, up to the record.
  unfoldable pub deletable_attachment :
      MemoryStore T → String → String → String → Result (AttachmentRecord T) ApiError
  deletable_attachment s user_id book_id attachment_id = do
    require_book_member s user_id book_id
    ok_or (find_attachment s book_id attachment_id) attachment_missing

module _ {O : Type 0} (objects : ObjectStore O) {T : Type 0} (a : Recorder T) where
  -- `delete_attachment`
  unfoldable pub delete_attachment :
      MemoryStore T → O → String → String → String → Result (Unit {0}) ApiError × MemoryStore T × O
  unfolding deletable_attachment note_attachment
  delete_attachment s o user_id book_id attachment_id =
      elim (deletable_attachment s user_id book_id attachment_id) [
        | err e ↦ (err e, s, o)
        | ok r ↦
            let (deleted, o') = objects.delete_object o r.object_key in
            elim (io_result deleted) [
              | err e ↦ (err e, s, o')
              | ok _ ↦ (
                ok tt,
                note_attachment a (remove_attachment s book_id attachment_id) user_id
                    "attachment.delete" success attachment_id (book_metadata book_id []),
                o',
              )
            ]
      ]
