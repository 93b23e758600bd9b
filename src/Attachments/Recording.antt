-- ===== src/Attachments/Recording.antt =====
-- On the part that `upload_multipart_part` of server/src/transport/http/commercial.rs records.
use ledgerly.Prelude.{
  ℕ, ◌-◌, ◌≡◌, refl, sym, ap, inl, inr, String, List, some, length, ltb, ok, Bool-cases,
  Result-cases, arith,
}
use ledgerly.Json.{Value}
use ledgerly.State.{MemoryStore, AttachmentRecord}
use ledgerly.Attachments.Plan.{as_u64, multipart_part_count}
use ledgerly.Attachments.Parts.{record_part-IsRecorded, IsRecorded}
use ledgerly.Attachments.Objects.{
  ObjectStore, io_result, is_attachment, find_attachment, update_attachment,
}
use ledgerly.Attachments.Upload.{size_or_zero, store_part, checked_part, upload_multipart_part}
use ledgerly.Attachments.Checks.{IsExpected, IsExpected-in_range, checked_part_inv}
use ledgerly.Attachments.Requests.{after_run}
use ledgerly.Attachments.Completion.{find-update_first}

-- The part `part_number` of `length` bytes was expected, and its id is recorded in the attachment.
pub record IsReceived {T : Type 0} (book_id attachment_id : String) (part_number bytes : ℕ)
    (part_id : String) (before : AttachmentRecord T) (s s' : MemoryStore T) : Type 0 where
  pub parts : List String
  pub was_found : find_attachment s book_id attachment_id ≡ some before
  pub expected :
      IsExpected before.upload_mode before.upload_status
        (as_u64 (size_or_zero before.size_bytes))
        part_number
        bytes
  pub is_found :
      find_attachment s' book_id attachment_id ≡ some (record before { multipart_parts = parts })
  pub recorded :
      IsRecorded before.multipart_parts parts
        (multipart_part_count (as_u64 (size_or_zero before.size_bytes)))
        part_number
        part_id

module _ {T : Type 0} where
  store_part-IsReceived :
      (s s' : MemoryStore T) (book_id attachment_id : String) (r : AttachmentRecord T)
      (part_number bytes : ℕ) (part_id : String) (v : Value)
      → find_attachment s book_id attachment_id ≡ some r
      → IsExpected r.upload_mode r.upload_status
          (as_u64 (size_or_zero r.size_bytes))
          part_number
          bytes
      → store_part s book_id attachment_id (as_u64 (size_or_zero r.size_bytes)) part_number part_id
        ≡ some (ok v, s')
      → IsReceived book_id attachment_id part_number bytes part_id r s s'
  unfolding store_part update_attachment find_attachment
  store_part-IsReceived s s' book_id attachment_id r part_number bytes part_id v found is h =
      let total = multipart_part_count (as_u64 (size_or_zero r.size_bytes)) in
      elim (Bool-cases (ltb total (length r.multipart_parts))) [
        | inl full ↦ absurd (cc (rw (found, store_part, full) at h))
        | inr room ↦
            let (first, last) = IsExpected-in_range is in
            let (parts, done, recorded) =
              record_part-IsRecorded r.multipart_parts total part_number part_id (ground arith)
                first last in
            let same = ap (after_run s) (rw (found, store_part, room, done) at h) in
            rw (sym same) (record {
              parts = parts;
              was_found = found;
              expected = is;
              is_found =
                  find-update_first (is_attachment book_id attachment_id)
                    (λ a. record a { multipart_parts = parts }) r s.attachments (λ q. refl) found;
              recorded = recorded;
            })
      ]

module _ {O : Type 0} (objects : ObjectStore O) {T : Type 0} where
  -- When `upload_multipart_part` succeeds, the attachment was a pending multipart upload whose plan has
  -- the part with that number and that length, and the id that the object store gave the part is
  -- recorded in its place; the ids of the other parts are kept.
  pub upload_multipart_part-records :
      (s s' : MemoryStore T) (o : O) (user_id book_id attachment_id : String) (part_number : ℕ)
      (body : List ℕ) (v : Value)
      → (upload_multipart_part objects s o user_id book_id attachment_id part_number body).0
        ≡ some (ok v, s')
      → (r : AttachmentRecord T) × (part_id : String) × (io_result
            (objects.put_multipart_part o r.object_key r.multipart_upload_id
              (part_number - 1)
              body).0
          ≡ ok part_id)
        × IsReceived book_id attachment_id part_number (length body) part_id r s s'
  unfolding upload_multipart_part
  upload_multipart_part-records s s' o user_id book_id attachment_id part_number body v h =
      elim (Result-cases (checked_part s user_id book_id attachment_id part_number body)) [
        | inr (e, bad) ↦ absurd (cc (rw (bad, upload_multipart_part) at h))
        | inl (r, good) ↦
            let (found, is) =
              checked_part_inv s user_id book_id attachment_id part_number body r good in
            let put =
              objects.put_multipart_part o r.object_key r.multipart_upload_id (part_number - 1)
                body in
            elim (Result-cases (io_result put.0)) [
              | inr (e, bad) ↦ absurd (cc (rw (good, upload_multipart_part, bad) at h))
              | inl (part_id, stored) ↦ (
                r,
                part_id,
                stored,
                store_part-IsReceived s s' book_id attachment_id r part_number (length body) part_id
                    v found is (rw (good, upload_multipart_part, stored) at h),
              )
            ]
      ]
