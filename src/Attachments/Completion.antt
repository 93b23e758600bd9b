-- ===== src/Attachments/Completion.antt =====
-- On what a completed upload means, of `complete_attachment` in
-- server/src/transport/http/commercial.rs.
use ledgerly.Prelude.{
  ℕ, ◌≤◌, ◌≡◌, refl, inl, inr, String, Bool, false, ◌||◌, List, [], ◌∷◌, Option, none, some, ◌∙◌,
  ap, find, length, any, not, sym, ltb, eqb, ok, Result, ok_or, ok_or_inv, refuse_if, refuse_if_inv,
  bind_inv, Bool-cases, Option-cases, Result-cases, arith, string_eq,
}
use ledgerly.Prelude.Int.{ℤ, pos, negsuc, IsI64, as_i64, ltb_ℤ}
use ledgerly.Text.{is_empty}
use ledgerly.Attachments.Parts.{parts_json, parse_multipart_parts, parse-parts_json}
use ledgerly.Json.{Value}
use ledgerly.State.{MemoryStore, AttachmentRecord}
use ledgerly.Attachments.Plan.{Config, as_u64, multipart_part_count, invalid_size}
use ledgerly.Attachments.Objects.{
  ObjectStore, ObjectMetadata, is_attachment, find_attachment, update_first, update_attachment,
  note_attachment,
}
use ledgerly.Audit.{Recorder, note_event, record_memory}
use ledgerly.Attachments.Upload.{entitled_attachment}
use ledgerly.Attachments.Complete.{
  answer_complete, no_size, incomplete, size_differs, mark_ready, complete_parts,
  reject_attachment_upload, finish_upload, verify_upload, assemble, complete_attachment,
}
use ledgerly.Attachments.Steps.{entitled_found}

ok_inj : {A E : Type 0} (a b : A) (e : E) → ◌≡◌ {A = Result A E} (ok a) (ok b) → a ≡ b
ok_inj a b e h = ground arith

-- An id has arrived for each part of the plan.
pub record HasAllParts {T : Type 0} (r : AttachmentRecord T) : Type 0 where
  pub size : ℤ
  pub is_size : r.size_bytes ≡ some size
  pub as_planned : length r.multipart_parts ≡ multipart_part_count (as_u64 size)
  pub arrived : any is_empty r.multipart_parts ≡ false

module _ {T : Type 0} where
  complete_parts_inv :
      (r : AttachmentRecord T) (ids : List String) → complete_parts r ≡ ok ids → HasAllParts r
  unfolding complete_parts
  complete_parts_inv r ids h =
      let (size, is, h) = bind_inv (ok_or r.size_bytes no_size) _ ids h in
      let (u, nonnegative, h) = bind_inv (refuse_if (ltb_ℤ size (pos 0)) invalid_size) _ ids h in
      let (parts, read, h) =
        bind_inv (parse_multipart_parts (parts_json r.multipart_parts)) _ ids h in
      let same : r.multipart_parts ≡ parts =
        ok_inj _ _ no_size (sym (parse-parts_json r.multipart_parts) ∙ read) in
      let (v, full, h) =
        bind_inv
          (refuse_if
            (not (eqb (length parts) (multipart_part_count (as_u64 size))) || any is_empty parts)
            incomplete)
          _ ids h in
      let off = refuse_if_inv _ incomplete v full in
      record {
        size = size;
        is_size = ok_or_inv r.size_bytes no_size size is;
        as_planned = rw same (ground arith);
        arrived = rw same (ground arith);
      }

-- The upload of `r` ended with the object that the object store holds in `o`: within the limit, of the
-- size that was declared, with all its parts, and recorded with its size and hash.
pub record IsCompleted {T O : Type 0} (objects : ObjectStore O) (config : Config)
    (book_id attachment_id : String) (s s' : MemoryStore T) (o : O) : Type 0 where
  pub before : AttachmentRecord T
  pub metadata : ObjectMetadata
  pub was_found : find_attachment s book_id attachment_id ≡ some before
  pub after : AttachmentRecord T
  pub is_found : find_attachment s' book_id attachment_id ≡ some after
  pub is_ready : after.upload_status ≡ "ready"
  pub has_size : after.size_bytes ≡ some (as_i64 (pos metadata.size_bytes))
  pub has_hash : after.content_hash ≡ some metadata.sha256
  pub measured : objects.object_size o before.object_key ≡ ok (some metadata.size_bytes)
  pub read : objects.object_metadata o before.object_key ≡ ok metadata
  pub within : metadata.size_bytes ≤ config.attachment_max_bytes
  pub as_declared :
      (size : ℤ) → before.size_bytes ≡ some size → IsI64 size → size ≡ pos metadata.size_bytes
  pub all_parts : before.upload_mode ≡ "multipart" → HasAllParts before

module _ {T : Type 0} where
  pub find-update_first :
      (p : AttachmentRecord T → Bool) (f : AttachmentRecord T → AttachmentRecord T)
      (r : AttachmentRecord T) (rs : List (AttachmentRecord T))
      → ((q : AttachmentRecord T) → p (f q) ≡ p q)
      → find p rs ≡ some r
      → find p (update_first p f rs) ≡ some (f r)
  unfolding update_first
  find-update_first p f r [] same found = absurd (cc)
  find-update_first p f r (q ∷ rs) same found = elim (Bool-cases (p q)) [
    | inl e ↦ let is : q ≡ r = ground (arith, rw e at found) in rw (e, same q, e, is) refl
    | inr e ↦ rw (e, e) (find-update_first p f r rs same (rw e at found))
  ]

size_differs_inv :
    (declared : Option ℤ) (actual : ℕ) (size : ℤ)
    → size_differs declared actual ≡ false
    → declared ≡ some size
    → IsI64 size
    → size ≡ pos actual
size_differs_inv none actual size h is fits = absurd (cc)
size_differs_inv (some (negsuc n)) actual size h is fits = absurd (ground arith)
size_differs_inv (some (pos n)) actual size h is fits =
    let same : size ≡ pos n = ground arith in
    let small = rw same at fits.0 in same ∙ ap pos (ground arith)

module _ {T O : Type 0} (objects : ObjectStore O) (a : Recorder T) where
  finish_upload-IsCompleted :
      (s : MemoryStore T) (o : O) (config : Config) (user_id book_id attachment_id : String)
      (r : AttachmentRecord T) (actual : ℕ) (metadata : ObjectMetadata) (v : Value)
      → find_attachment s book_id attachment_id ≡ some r
      → objects.object_size o r.object_key ≡ ok (some actual)
      → objects.object_metadata o r.object_key ≡ ok metadata
      → (ltb config.attachment_max_bytes actual || size_differs r.size_bytes actual) ≡ false
      → (r.upload_mode ≡ "multipart" → HasAllParts r)
      → (finish_upload objects a s o user_id book_id attachment_id r actual metadata).0 ≡ ok v
      → IsCompleted objects config book_id attachment_id s
          (finish_upload objects a s o user_id book_id attachment_id r actual metadata).1
          (finish_upload objects a s o user_id book_id attachment_id r actual metadata).2
  unfolding finish_upload reject_attachment_upload update_attachment find_attachment mark_ready
      note_attachment note_event record_memory
  finish_upload-IsCompleted s o config user_id book_id attachment_id r actual metadata v found sized
        described guard parts h =
      elim (Bool-cases (eqb metadata.size_bytes actual)) [
        | inr e ↦ absurd (cc (rw (e, finish_upload) at h))
        | inl e ↦
            let agree : actual ≡ metadata.size_bytes = ground arith in
            let guard = rw agree at guard in
            elim (Result-cases (answer_complete objects o attachment_id r.object_key)) [
              | inr (f, bad) ↦ absurd (cc (rw (e, finish_upload, bad) at h))
              | inl (answer, told) ↦
                  rw (e, finish_upload, told)
                    (record {
                      before = r;
                      metadata = metadata;
                      after = mark_ready metadata r;
                      is_ready = refl;
                      has_size = refl;
                      has_hash = refl;
                      was_found = found;
                      is_found =
                          find-update_first (is_attachment book_id attachment_id)
                            (mark_ready metadata) r s.attachments (λ q. refl) found;
                      measured = rw agree at sized;
                      read = described;
                      within = ground arith;
                      as_declared = λ size.
                          size_differs_inv r.size_bytes metadata.size_bytes size (ground arith);
                      all_parts = parts;
                    })
            ]
      ]

  verify_upload-IsCompleted :
      (s : MemoryStore T) (o : O) (config : Config) (user_id book_id attachment_id : String)
      (r : AttachmentRecord T) (v : Value)
      → find_attachment s book_id attachment_id ≡ some r
      → (r.upload_mode ≡ "multipart" → HasAllParts r)
      → (verify_upload objects a s o config user_id book_id attachment_id r).0 ≡ ok v
      → IsCompleted objects config book_id attachment_id s
          (verify_upload objects a s o config user_id book_id attachment_id r).1
          (verify_upload objects a s o config user_id book_id attachment_id r).2
  unfolding verify_upload reject_attachment_upload
  verify_upload-IsCompleted s o config user_id book_id attachment_id r v found parts h =
      let max = config.attachment_max_bytes in
      elim (Result-cases (objects.object_size o r.object_key)) [
        | inr (e, bad) ↦ absurd (cc (rw (bad, verify_upload) at h))
        | inl (size, sized) ↦ elim (Option-cases size) [
          | inl e ↦ absurd (cc (rw (sized, verify_upload, e) at h))
          | inr (actual, e) ↦
              elim (Bool-cases (ltb max actual || size_differs r.size_bytes actual)) [
                | inl bad ↦ absurd (cc (rw (sized, verify_upload, e, bad) at h))
                | inr good ↦ elim (Result-cases (objects.object_metadata o r.object_key)) [
                  | inr (f, bad) ↦ absurd (cc (rw (sized, verify_upload, e, good, bad) at h))
                  | inl (metadata, described) ↦
                      rw (sized, verify_upload, e, good, described)
                        (finish_upload-IsCompleted s o config user_id book_id attachment_id r actual
                          metadata v found (rw e at sized) described good parts
                          (rw (sized, verify_upload, e, good, described) at h))
                ]
              ]
        ]
      ]

  assemble_inv :
      (o : O) (r : AttachmentRecord T)
      → (assemble objects o r).0 ≡ ok tt
      → r.upload_mode ≡ "multipart"
      → HasAllParts r
  unfolding assemble
  assemble_inv o r h multipart = elim (Result-cases (complete_parts r)) [
    | inl (ids, done) ↦ complete_parts_inv r ids done
    | inr (e, bad) ↦ absurd (cc (rw (multipart, assemble, bad) at h))
  ]

  -- When `complete_attachment` succeeds, the attachment was there and is `ready` now, and the object
  -- store holds an object under its key whose size and hash are the recorded ones; that size is within
  -- the limit and is the declared one where an `i64` was declared, and all parts of a multipart upload had
  -- arrived.
  pub complete_attachment-IsCompleted :
      (s : MemoryStore T) (o : O) (config : Config) (user_id book_id attachment_id : String)
      (v : Value)
      → (complete_attachment objects a s o config user_id book_id attachment_id).0 ≡ ok v
      → IsCompleted objects config book_id attachment_id s
          (complete_attachment objects a s o config user_id book_id attachment_id).1
          (complete_attachment objects a s o config user_id book_id attachment_id).2
  unfolding complete_attachment
  complete_attachment-IsCompleted s o config user_id book_id attachment_id v h =
      elim (Result-cases (entitled_attachment s user_id book_id attachment_id)) [
        | inr (e, bad) ↦ absurd (cc (rw (bad, complete_attachment) at h))
        | inl (r, good) ↦ elim (Result-cases (assemble objects o r).0) [
          | inr (e, bad) ↦ absurd (cc (rw (good, complete_attachment, bad) at h))
          | inl (u, done) ↦
              rw (good, complete_attachment, done)
                (verify_upload-IsCompleted s _ config user_id book_id attachment_id r v
                  (entitled_found s user_id book_id attachment_id r good) (assemble_inv o r done)
                  (rw (good, complete_attachment, done) at h))
        ]
      ]
