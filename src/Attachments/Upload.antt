-- ===== src/Attachments/Upload.antt =====
-- The parts of a multipart upload, of server/src/transport/http/commercial.rs:
-- `upload_multipart_part`, `complete_multipart_part`, `multipart_part_upload_url`,
-- `multipart_upload_status` and `abort_multipart_upload`. Two handlers read a record, release the
-- lock, and later write to the record that they find then; `store_part` and `store_direct_part` are the
-- second halves, and `none` is their panic.
use ledgerly.Prelude.{
  ℕ, suc, ◌-◌, String, Bool, true, false, not, ◌||◌, List, [], ◌∷◌, Option, none, some,
  if◌then◌else◌, ◌==◌, ltb, eqb, map, length, Result, ok, err, ok_or, refuse_if, ◌>>=◌, ◌>>◌,
}
use ledgerly.Prelude.Int.{ℤ, pos, as_i64}
use ledgerly.Json.{Value, string, number, array, object, of_fields, of_items, of_option, end}
use ledgerly.Text.{is_empty}
use ledgerly.ApiError.{ApiError, api_error}
use ledgerly.State.{MemoryStore, AttachmentRecord}
use ledgerly.Authz.{require_book_member, require_plan}
use ledgerly.Attachments.Plan.{
  Config, ObjectStoreBackend, local, s3, as_u64, multipart_part_count, filter_nonnegative,
  multipart_part_size_bytes, not_pending, invalid_size, validate_multipart_part,
  validate_multipart_part_plan,
}
use ledgerly.Attachments.Parts.{
  invalid_state, parse_multipart_parts, parts_json, record_part, count_uploaded,
  update_multipart_part, normalize_multipart_part_id,
}
use ledgerly.Audit.{Recorder, success}
use ledgerly.Attachments.Objects.{
  book_metadata, note_attachment, ObjectStore, io_result, attachment_missing, find_attachment,
  update_attachment, remove_attachment,
}

-- `size_bytes.unwrap_or_default()`
abbrev pub size_or_zero : Option ℤ → ℤ
size_or_zero none = pos 0
size_or_zero (some size) = size

abbrev pub part_answer : ℕ → String → ℕ → ℕ → Value
part_answer part_number part_id uploaded_parts total_parts = object (
    of_fields (
      ("partNumber", number (pos part_number))
      ∷ ("partId", string part_id)
      ∷ ("uploadedParts", number (pos uploaded_parts))
      ∷ ("totalParts", number (pos total_parts))
      ∷ []))

abbrev pub empty_part : ApiError
empty_part = api_error 400 "EMPTY_MULTIPART_PART" "multipart part must not be empty"

abbrev pub direct_unavailable : ApiError
direct_unavailable =
    api_error 409 "MULTIPART_DIRECT_UNAVAILABLE" "direct multipart upload is unavailable"

abbrev pub is_s3 : ObjectStoreBackend → Bool
is_s3 s3 = true
is_s3 local = false

-- `enumerate().filter(|(_, part_id)| !part_id.is_empty()).map(|(index, _)| index + 1)`, from an index on.
unfoldable pub uploaded_part_numbers : ℕ → List String → List ℕ
uploaded_part_numbers index [] = []
uploaded_part_numbers index (part ∷ parts) =
    let rest = uploaded_part_numbers (suc index) parts in
    if is_empty part then rest else suc index ∷ rest

module _ {T : Type 0} where
  -- What both handlers do with the record under the write lock.
  unfoldable pub store_part :
      MemoryStore T
      → String
      → String
      → ℕ
      → ℕ
      → String
      → Option (Result Value ApiError × MemoryStore T)
  store_part s book_id attachment_id size_bytes part_number part_id =
      elim (find_attachment s book_id attachment_id) [
        | none ↦ none
        | some r ↦
            let total_parts = multipart_part_count size_bytes in
            if ltb total_parts (length r.multipart_parts)
            then some (err invalid_state, s)
            else elim (record_part r.multipart_parts total_parts part_number part_id) [
              | none ↦ none
              | some parts ↦ some (
                ok (part_answer part_number part_id (count_uploaded parts) total_parts),
                update_attachment s book_id attachment_id
                    (λ a. record a { multipart_parts = parts }),
              )
            ]
      ]

  -- The checks that both the upload of a part and its URL start with, up to the record.
  unfoldable pub entitled_attachment :
      MemoryStore T → String → String → String → Result (AttachmentRecord T) ApiError
  entitled_attachment s user_id book_id attachment_id = do
    require_book_member s user_id book_id
    _ ← require_plan s user_id "plus"
    ok_or (find_attachment s book_id attachment_id) attachment_missing

  -- The checks of `upload_multipart_part`, up to the record as it was read.
  unfoldable pub checked_part :
      MemoryStore T → String → String → String → ℕ → List ℕ → Result (AttachmentRecord T) ApiError
  checked_part s user_id book_id attachment_id part_number body = do
    require_book_member s user_id book_id
    _ ← require_plan s user_id "plus"
    refuse_if (eqb (length body) 0) empty_part
    r ← ok_or (find_attachment s book_id attachment_id) attachment_missing
    validate_multipart_part r.upload_mode r.upload_status
        (some (as_i64 (pos (as_u64 (size_or_zero r.size_bytes))))) part_number (length body)
    ok r

  -- `multipart_upload_status`, which only reads.
  unfoldable pub multipart_upload_status :
      MemoryStore T → String → String → String → Result Value ApiError
  unfolding uploaded_part_numbers
  multipart_upload_status s user_id book_id attachment_id = do
    require_book_member s user_id book_id
    r ← ok_or (find_attachment s book_id attachment_id) attachment_missing
    refuse_if (not (r.upload_mode == "multipart"))
        (api_error 409 "MULTIPART_NOT_PENDING" "attachment is not a multipart upload")
    size ← ok_or (filter_nonnegative r.size_bytes) invalid_size
    parts ← parse_multipart_parts (parts_json r.multipart_parts)
    ok (
        object (
          of_fields (
            ("attachmentId", string attachment_id)
            ∷ ("objectKey", string r.object_key)
            ∷ ("uploadStatus", string r.upload_status)
            ∷ ("uploadMode", string r.upload_mode)
            ∷ ("partSizeBytes", number (pos multipart_part_size_bytes))
            ∷ ("totalParts", number (pos (multipart_part_count (as_u64 size))))
            ∷ (
              "uploadedPartNumbers",
              array (of_items (map (λ n. number (pos n)) (uploaded_part_numbers 0 parts))),
            )
            ∷ [])))

  -- The checks of `complete_multipart_part`, up to the record and the part id.
  unfoldable pub checked_direct_part :
      MemoryStore T
      → Config
      → String
      → String
      → String
      → ℕ
      → String
      → Result (AttachmentRecord T × String) ApiError
  checked_direct_part s config user_id book_id attachment_id part_number req_part_id = do
    require_book_member s user_id book_id
    _ ← require_plan s user_id "plus"
    refuse_if (not (is_s3 config.object_storage_backend)) direct_unavailable
    part_id ← normalize_multipart_part_id req_part_id
    r ← ok_or (find_attachment s book_id attachment_id) attachment_missing
    _ ← validate_multipart_part_plan r.upload_mode r.upload_status r.size_bytes part_number
    ok (r, part_id)

  -- The write behind `update_multipart_part` in `complete_multipart_part`.
  unfoldable pub store_direct_part :
      MemoryStore T
      → String
      → String
      → ℕ
      → String
      → Value × ℕ × ℕ
      → Option (Result Value ApiError × MemoryStore T)
  store_direct_part s book_id attachment_id part_number part_id (json, uploaded, total) =
      elim (find_attachment s book_id attachment_id) [
        | none ↦ none
        | some _ ↦ elim (parse_multipart_parts json) [
          | err e ↦ some (err e, s)
          | ok parts ↦ some (
            ok (part_answer part_number part_id uploaded total),
            update_attachment s book_id attachment_id (λ a. record a { multipart_parts = parts }),
          )
        ]
      ]

  -- `complete_multipart_part`, which works on the store alone.
  unfoldable pub complete_multipart_part :
      MemoryStore T
      → Config
      → String
      → String
      → String
      → ℕ
      → String
      → Option (Result Value ApiError × MemoryStore T)
  unfolding checked_direct_part store_direct_part
  complete_multipart_part s config user_id book_id attachment_id part_number req_part_id =
      elim (checked_direct_part s config user_id book_id attachment_id part_number req_part_id) [
        | err e ↦ some (err e, s)
        | ok (r, part_id) ↦
            let size_bytes = as_u64 (size_or_zero r.size_bytes) in
            elim (update_multipart_part (parts_json r.multipart_parts) size_bytes part_number
              part_id) [
                | none ↦ none
                | some (err e) ↦ some (err e, s)
                | some (ok u) ↦ store_direct_part s book_id attachment_id part_number part_id u
              ]
      ]

  -- The checks of `abort_multipart_upload`, up to the record.
  unfoldable pub pending_attachment :
      MemoryStore T → String → String → String → Result (AttachmentRecord T) ApiError
  unfolding entitled_attachment
  pending_attachment s user_id book_id attachment_id = do
    r ← entitled_attachment s user_id book_id attachment_id
    refuse_if (not (r.upload_mode == "multipart") || not (r.upload_status == "pending")) not_pending
    ok r

module _ {O : Type 0} (objects : ObjectStore O) {T : Type 0} where
  -- `upload_multipart_part`
  unfoldable pub upload_multipart_part :
      MemoryStore T
      → O
      → String
      → String
      → String
      → ℕ
      → List ℕ
      → Option (Result Value ApiError × MemoryStore T) × O
  unfolding checked_part store_part
  upload_multipart_part s o user_id book_id attachment_id part_number body =
      elim (checked_part s user_id book_id attachment_id part_number body) [
        | err e ↦ (some (err e, s), o)
        | ok r ↦
            let (put, o') =
              objects.put_multipart_part o r.object_key r.multipart_upload_id (part_number - 1)
                body in
            elim (io_result put) [
              | err e ↦ (some (err e, s), o')
              | ok part_id ↦ (
                store_part s book_id attachment_id (as_u64 (size_or_zero r.size_bytes)) part_number
                    part_id,
                o',
              )
            ]
      ]

  -- `multipart_part_upload_url` with `load_multipart_part_state`, which only read.
  unfoldable pub multipart_part_upload_url :
      MemoryStore T → O → String → String → String → ℕ → Result Value ApiError
  unfolding entitled_attachment
  multipart_part_upload_url s o user_id book_id attachment_id part_number = do
    r ← entitled_attachment s user_id book_id attachment_id
    size ← ok_or (filter_nonnegative r.size_bytes) invalid_size
    _ ← validate_multipart_part_plan r.upload_mode r.upload_status r.size_bytes part_number
    url ← io_result (objects.part_upload_url o r.object_key r.multipart_upload_id part_number 600)
    ok (
        object (
          of_fields (
            ("partNumber", number (pos part_number))
            ∷ ("uploadMode", string (elim url [ none ↦ "proxy" | some _ ↦ "direct" ]))
            ∷ ("uploadUrl", of_option url)
            ∷ ("uploadHeaders", object end)
            ∷ ("expiresIn", number (pos 600))
            ∷ ("totalParts", number (pos (multipart_part_count (as_u64 size))))
            ∷ [])))

module _ {O : Type 0} (objects : ObjectStore O) {T : Type 0} (a : Recorder T) where
  -- `abort_multipart_upload`
  unfoldable pub abort_multipart_upload :
      MemoryStore T → O → String → String → String → Result (Unit {0}) ApiError × MemoryStore T × O
  unfolding pending_attachment note_attachment
  abort_multipart_upload s o user_id book_id attachment_id =
      elim (pending_attachment s user_id book_id attachment_id) [
        | err e ↦ (err e, s, o)
        | ok r ↦
            let (aborted, o') = objects.abort_multipart o r.object_key r.multipart_upload_id in
            elim (io_result aborted) [
              | err e ↦ (err e, s, o')
              | ok _ ↦ (
                ok tt,
                note_attachment a (remove_attachment s book_id attachment_id) user_id
                    "attachment.multipart_abort" success attachment_id (book_metadata book_id []),
                o',
              )
            ]
      ]
