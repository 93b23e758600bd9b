-- ===== src/Attachments/Receive.antt =====
-- On `upload_multipart_part`, `complete_multipart_part`, `abort_multipart_upload` and
-- `delete_attachment` of server/src/transport/http/commercial.rs: that they end, and how they leave the
-- store.
use ledgerly.Prelude.{
  ℕ, ◌-◌, ◌≡◌, refl, inl, inr, String, List, Option, some, length, ltb, Result, ok, err, ok_or_inv,
  bind_inv, Bool-cases, Result-cases, arith,
}
use ledgerly.Json.{Value}
use ledgerly.ApiError.{ApiError}
use ledgerly.State.{MemoryStore, AttachmentRecord}
use ledgerly.Authz.{require_book_member}
use ledgerly.Attachments.Plan.{Config, as_u64, multipart_part_count}
use ledgerly.Attachments.Parts.{
  record_part-IsRecorded, parts_json, parse-parts_json, update_multipart_part,
  update_multipart_part-records,
}
use ledgerly.Attachments.Objects.{
  ObjectStore, io_result, attachment_missing, find_attachment, update_attachment, note_attachment,
}
use ledgerly.Audit.{Recorder, note_event, record_memory}
use ledgerly.Attachments.Upload.{
  size_or_zero, store_part, store_direct_part, checked_part, checked_direct_part,
  upload_multipart_part, complete_multipart_part, pending_attachment, abort_multipart_upload,
}
use ledgerly.Attachments.Catalog.{deletable_attachment, delete_attachment}
use ledgerly.Attachments.Steps.{Step, kept, received, removed, audited}
use ledgerly.Attachments.Checks.{
  IsExpected, IsExpected-in_range, checked_part_inv, checked_direct_part_inv,
  pending_attachment_inv,
}

-- How the upload of a part may end: refused with an error and nothing written, or answered with success
-- and the list of part ids of a pending multipart upload replaced by one as long as its plan.
pub data Received {T : Type 0} (book_id attachment_id : String) (s : MemoryStore T)
    : Result Value ApiError → MemoryStore T → Type 0 where
  not_written : (e : ApiError) → Received book_id attachment_id s (err e) s
  written :
      (r : AttachmentRecord T) (parts : List String) (answer : Value)
      → find_attachment s book_id attachment_id ≡ some r
      → r.upload_mode ≡ "multipart"
      → r.upload_status ≡ "pending"
      → length parts ≡ multipart_part_count (as_u64 (size_or_zero r.size_bytes))
      → Received book_id attachment_id s
          (ok answer)
          (update_attachment s book_id attachment_id (λ a. record a { multipart_parts = parts }))

-- An outcome that is no panic.
pub record Ends {T : Type 0} (book_id attachment_id : String) (s : MemoryStore T)
    (run : Option (Result Value ApiError × MemoryStore T)) : Type 0 where
  pub answer : Result Value ApiError
  pub after : MemoryStore T
  pub ended : run ≡ some (answer, after)
  pub step : Received book_id attachment_id s answer after

module _ {T : Type 0} where
  pub Received-Step :
      (max : ℕ) {book_id attachment_id : String} {s s' : MemoryStore T}
      {answer : Result Value ApiError}
      → Received book_id attachment_id s answer s'
      → Step max book_id attachment_id s s'
  Received-Step max (not_written e) = kept
  Received-Step max (written r parts answer found mode pending full) =
      received r parts found mode pending full

module _ {T : Type 0} where
  refused :
      {book_id attachment_id : String} {s : MemoryStore T} (e : ApiError)
      → Ends book_id attachment_id s (some (err e, s))
  refused {s = s} e = record { answer = err e; after = s; ended = refl; step = not_written e }

  store_part-Ends :
      (s : MemoryStore T) (book_id attachment_id : String) (r : AttachmentRecord T)
      (part_number expected : ℕ) (part_id : String)
      → find_attachment s book_id attachment_id ≡ some r
      → IsExpected r.upload_mode r.upload_status
          (as_u64 (size_or_zero r.size_bytes))
          part_number
          expected
      → Ends book_id attachment_id s (
          store_part s book_id attachment_id
            (as_u64 (size_or_zero r.size_bytes))
            part_number
            part_id)
  unfolding store_part
  store_part-Ends s book_id attachment_id r part_number expected part_id found is =
      let total = multipart_part_count (as_u64 (size_or_zero r.size_bytes)) in
      elim (Bool-cases (ltb total (length r.multipart_parts))) [
        | inl full ↦ rw (found, store_part, full) (refused _)
        | inr room ↦
            let (first, last) = IsExpected-in_range is in
            let (parts, done, recorded) =
              record_part-IsRecorded r.multipart_parts total part_number part_id (ground arith)
                first last in
            rw (found, store_part, room, done)
              (record {
                answer = _;
                after = _;
                ended = refl;
                step = written r parts _ found is.is_multipart is.is_pending recorded.planned;
              })
      ]

  store_direct_part-Ends :
      (s : MemoryStore T) (book_id attachment_id : String) (r : AttachmentRecord T)
      (part_number expected : ℕ) (part_id : String) (parts : List String) (uploaded total : ℕ)
      → find_attachment s book_id attachment_id ≡ some r
      → IsExpected r.upload_mode r.upload_status
          (as_u64 (size_or_zero r.size_bytes))
          part_number
          expected
      → length parts ≡ multipart_part_count (as_u64 (size_or_zero r.size_bytes))
      → Ends book_id attachment_id s (
          store_direct_part s book_id attachment_id part_number part_id
            (parts_json parts, uploaded, total))
  unfolding store_direct_part
  store_direct_part-Ends s book_id attachment_id r part_number expected part_id parts uploaded total
        found is planned =
      rw (found, store_direct_part, parse-parts_json parts)
        (record {
          answer = _;
          after = _;
          ended = refl;
          step = written r parts _ found is.is_multipart is.is_pending planned;
        })

  -- Run alone, `complete_multipart_part` does not panic, and refuses or writes part ids.
  pub complete_multipart_part-Ends :
      (s : MemoryStore T) (config : Config) (user_id book_id attachment_id : String)
      (part_number : ℕ) (req_part_id : String)
      → Ends book_id attachment_id s
          (complete_multipart_part s config user_id book_id attachment_id part_number req_part_id)
  unfolding complete_multipart_part update_multipart_part
  complete_multipart_part-Ends s config user_id book_id attachment_id part_number req_part_id =
      elim (Result-cases
        (checked_direct_part s config user_id book_id attachment_id part_number req_part_id)) [
          | inr (e, bad) ↦ rw (bad, complete_multipart_part) (refused e)
          | inl ((r, part_id), good) ↦
              let (found, l, is) =
                checked_direct_part_inv s config user_id book_id attachment_id part_number
                  req_part_id r part_id good in
              let size = as_u64 (size_or_zero r.size_bytes) in
              elim (Bool-cases (ltb (multipart_part_count size) (length r.multipart_parts))) [
                | inl full ↦
                    rw
                      (
                        good,
                        complete_multipart_part,
                        update_multipart_part,
                        parse-parts_json r.multipart_parts,
                        full,
                      )
                      (refused _)
                | inr room ↦
                    let (first, last) = IsExpected-in_range is in
                    let (parts, done, recorded) =
                      update_multipart_part-records r.multipart_parts size part_number part_id
                        (ground arith) first last in
                    rw (good, complete_multipart_part, done)
                      (store_direct_part-Ends s book_id attachment_id r part_number l part_id parts
                        _ _ found is recorded.planned)
              ]
        ]

module _ {O : Type 0} (objects : ObjectStore O) {T : Type 0} where
  pub upload_multipart_part-Ends :
      (s : MemoryStore T) (o : O) (user_id book_id attachment_id : String) (part_number : ℕ)
      (body : List ℕ)
      → Ends book_id attachment_id s
          (upload_multipart_part objects s o user_id book_id attachment_id part_number body).0
  unfolding upload_multipart_part
  upload_multipart_part-Ends s o user_id book_id attachment_id part_number body =
      elim (Result-cases (checked_part s user_id book_id attachment_id part_number body)) [
        | inr (e, bad) ↦ rw (bad, upload_multipart_part) (refused e)
        | inl (r, good) ↦
            let (found, is) =
              checked_part_inv s user_id book_id attachment_id part_number body r good in
            let put =
              objects.put_multipart_part o r.object_key r.multipart_upload_id (part_number - 1)
                body in
            elim (Result-cases (io_result put.0)) [
              | inr (e, bad) ↦ rw (good, upload_multipart_part, bad) (refused e)
              | inl (part_id, stored) ↦
                  rw (good, upload_multipart_part, stored)
                    (store_part-Ends s book_id attachment_id r part_number _ part_id found is)
            ]
      ]

module _ {O : Type 0} (objects : ObjectStore O) {T : Type 0} (a : Recorder T) where
  pub abort_multipart_upload-Step :
      (max : ℕ) (s : MemoryStore T) (o : O) (user_id book_id attachment_id : String)
      → Step max book_id attachment_id s
          (abort_multipart_upload objects a s o user_id book_id attachment_id).1
  unfolding abort_multipart_upload note_attachment note_event record_memory
  abort_multipart_upload-Step max s o user_id book_id attachment_id =
      elim (Result-cases (pending_attachment s user_id book_id attachment_id)) [
        | inr (e, bad) ↦ rw (bad, abort_multipart_upload) kept
        | inl (r, good) ↦
            let aborted = objects.abort_multipart o r.object_key r.multipart_upload_id in
            elim (Result-cases (io_result aborted.0)) [
              | inr (e, bad) ↦ rw (good, abort_multipart_upload, bad) kept
              | inl (u, done) ↦
                  rw (good, abort_multipart_upload, done)
                    (audited
                      (removed r (pending_attachment_inv s user_id book_id attachment_id r good)) _)
            ]
      ]

  pub delete_attachment-Step :
      (max : ℕ) (s : MemoryStore T) (o : O) (user_id book_id attachment_id : String)
      → Step max book_id attachment_id s
          (delete_attachment objects a s o user_id book_id attachment_id).1
  unfolding delete_attachment note_attachment note_event record_memory deletable_attachment
  delete_attachment-Step max s o user_id book_id attachment_id =
      elim (Result-cases (deletable_attachment s user_id book_id attachment_id)) [
        | inr (e, bad) ↦ rw (bad, delete_attachment) kept
        | inl (r, good) ↦
            let deleted = objects.delete_object o r.object_key in
            elim (Result-cases (io_result deleted.0)) [
              | inr (e, bad) ↦ rw (good, delete_attachment, bad) kept
              | inl (u, done) ↦
                  let (v, member, h) = bind_inv (require_book_member s user_id book_id) _ r good in
                  rw (good, delete_attachment, done)
                    (audited (removed r (ok_or_inv _ attachment_missing r h)) _)
            ]
      ]
