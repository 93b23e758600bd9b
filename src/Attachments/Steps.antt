-- ===== src/Attachments/Steps.antt =====
-- How a handler of the attachments of server/src/transport/http/commercial.rs may leave the store, as a
-- step relation.
use ledgerly.Prelude.{
  ℕ, ◌≤◌, ◌≡◌, refl, inl, inr, String, false, ◌||◌, ◌++◌, List, [], ◌∷◌, none, some, length, ltb,
  eqb, ok, ok_or_inv, bind_inv, Bool-cases, Option-cases, Result-cases, arith, string_eq,
}
use ledgerly.State.{Fresh, MemoryStore, AttachmentRecord, AuditEventRecord}
use ledgerly.Audit.{Recorder, note_event, record_memory}
use ledgerly.Authz.{require_book_member, require_plan}
use ledgerly.Attachments.Plan.{Config, as_u64, multipart_part_count, should_use_multipart}
use ledgerly.Attachments.Objects.{
  ObjectStore, ObjectMetadata, attachment_missing, find_attachment, update_attachment,
  remove_attachment, mark_attachment_failed, note_attachment,
}
use ledgerly.Attachments.Session.{
  UploadSessionRequest, checked_session, pending_record, object_key_of, start_upload,
  answer_session, create_upload_session,
}
use ledgerly.Attachments.Upload.{size_or_zero, entitled_attachment}
use ledgerly.Attachments.Complete.{
  audit_attachment_complete_failure, answer_complete, size_differs, mark_ready,
  reject_attachment_upload, finish_upload, verify_upload, assemble, complete_attachment,
}

-- The store before and after, for an attachment of a book.
pub data Step {T : Type 0} (max : ℕ) (book_id attachment_id : String) (s : MemoryStore T)
    : MemoryStore T → Type 0 where
  kept : Step max book_id attachment_id s s
  opened :
      (r : AttachmentRecord T)
      → r.upload_status ≡ "pending"
      → r.multipart_parts ≡ []
      → r.id ≡ attachment_id
      → r.book_id ≡ book_id
      → Step max book_id attachment_id s (record s { attachments = s.attachments ++ r ∷ [] })
  received :
      (r : AttachmentRecord T) (parts : List String)
      → find_attachment s book_id attachment_id ≡ some r
      → r.upload_mode ≡ "multipart"
      → r.upload_status ≡ "pending"
      → length parts ≡ multipart_part_count (as_u64 (size_or_zero r.size_bytes))
      → Step max book_id attachment_id s
          (update_attachment s book_id attachment_id (λ a. record a { multipart_parts = parts }))
  failed : Step max book_id attachment_id s (mark_attachment_failed s book_id attachment_id)
  readied :
      (r : AttachmentRecord T) (metadata : ObjectMetadata)
      → find_attachment s book_id attachment_id ≡ some r
      → metadata.size_bytes ≤ max
      → size_differs r.size_bytes metadata.size_bytes ≡ false
      → Step max book_id attachment_id s
          (update_attachment s book_id attachment_id (mark_ready metadata))
  removed :
      (r : AttachmentRecord T)
      → find_attachment s book_id attachment_id ≡ some r
      → Step max book_id attachment_id s (remove_attachment s book_id attachment_id)
  audited :
      {s' : MemoryStore T}
      → Step max book_id attachment_id s s'
      → (events : List (AuditEventRecord T))
      → Step max book_id attachment_id s (record s' { audit_events = events })

module _ {T : Type 0} where
  pub entitled_found :
      (s : MemoryStore T) (user_id book_id attachment_id : String) (r : AttachmentRecord T)
      → entitled_attachment s user_id book_id attachment_id ≡ ok r
      → find_attachment s book_id attachment_id ≡ some r
  unfolding entitled_attachment
  entitled_found s user_id book_id attachment_id r h =
      let (u, member, h) = bind_inv (require_book_member s user_id book_id) _ r h in
      let (plan, paid, h) = bind_inv (require_plan s user_id "plus") _ r h in
      ok_or_inv _ attachment_missing r h

module _ {T O : Type 0} (objects : ObjectStore O) (a : Recorder T) where
  pub create_upload_session-Step :
      (s : MemoryStore T) (o : O) (config : Config) (fresh : Fresh T) (user_id book_id : String)
      (req : UploadSessionRequest)
      → Step config.attachment_max_bytes book_id fresh.uuid s
          (create_upload_session objects a s o config fresh user_id book_id req).1
  unfolding create_upload_session pending_record note_attachment note_event record_memory
  create_upload_session-Step s o config fresh user_id book_id req =
      elim (Result-cases (checked_session s config user_id book_id req)) [
        | inr (e, bad) ↦ rw (bad, create_upload_session) kept
        | inl (file_name, good) ↦
            let key = object_key_of book_id fresh.uuid in
            let multipart = should_use_multipart config req.size in
            elim (Result-cases (start_upload objects (objects.ensure_dir o) key multipart).0) [
              | inr (e, bad) ↦ rw (good, create_upload_session, bad) kept
              | inl (upload_id, started) ↦
                  let o' = (start_upload objects (objects.ensure_dir o) key multipart).1 in
                  elim (Result-cases (answer_session objects o' config fresh.uuid key multipart)) [
                    | inr (e, bad) ↦
                        rw (good, create_upload_session, started, bad)
                          (opened _ refl refl refl refl)
                    | inl ((answer, mode), told) ↦
                        rw (good, create_upload_session, started, told)
                          (audited (opened _ refl refl refl refl) _)
                  ]
            ]
      ]

  finish_upload-Step :
      (s : MemoryStore T) (o : O) (max : ℕ) (user_id book_id attachment_id : String)
      (r : AttachmentRecord T) (actual : ℕ) (metadata : ObjectMetadata)
      → find_attachment s book_id attachment_id ≡ some r
      → actual ≤ max
      → size_differs r.size_bytes actual ≡ false
      → Step max book_id attachment_id s
          (finish_upload objects a s o user_id book_id attachment_id r actual metadata).1
  unfolding finish_upload reject_attachment_upload audit_attachment_complete_failure note_attachment
      note_event record_memory
  finish_upload-Step s o max user_id book_id attachment_id r actual metadata found small same =
      elim (Bool-cases (eqb metadata.size_bytes actual)) [
        | inr e ↦ rw e (audited failed _)
        | inl e ↦
            let agree : actual ≡ metadata.size_bytes = ground arith in
            let ready : Step max book_id attachment_id s
                (update_attachment s book_id attachment_id (mark_ready metadata)) =
              readied r metadata found (rw agree at small) (rw agree at same) in
            elim (Result-cases (answer_complete objects o attachment_id r.object_key)) [
              | inr (f, bad) ↦ rw (e, bad) ready
              | inl (answer, told) ↦ rw (e, told) (audited ready _)
            ]
      ]

  verify_upload-Step :
      (s : MemoryStore T) (o : O) (config : Config) (user_id book_id attachment_id : String)
      (r : AttachmentRecord T)
      → find_attachment s book_id attachment_id ≡ some r
      → Step config.attachment_max_bytes book_id attachment_id s
          (verify_upload objects a s o config user_id book_id attachment_id r).1
  unfolding verify_upload reject_attachment_upload audit_attachment_complete_failure note_attachment
      note_event record_memory
  verify_upload-Step s o config user_id book_id attachment_id r found =
      let max = config.attachment_max_bytes in
      elim (Result-cases (objects.object_size o r.object_key)) [
        | inr (e, bad) ↦ rw (bad, verify_upload) (audited kept _)
        | inl (size, sized) ↦ elim (Option-cases size) [
          | inl e ↦ rw (sized, verify_upload, e) (audited kept _)
          | inr (actual, e) ↦
              elim (Bool-cases (ltb max actual || size_differs r.size_bytes actual)) [
                | inl bad ↦ rw (sized, verify_upload, e, bad) (audited failed _)
                | inr good ↦ elim (Result-cases (objects.object_metadata o r.object_key)) [
                  | inr (f, bad) ↦ rw (sized, verify_upload, e, good, bad) (audited kept _)
                  | inl (metadata, read) ↦
                      rw (sized, verify_upload, e, good, read)
                        (finish_upload-Step s o max user_id book_id attachment_id r actual metadata
                          found (ground arith) (ground arith))
                ]
              ]
        ]
      ]

  pub complete_attachment-Step :
      (s : MemoryStore T) (o : O) (config : Config) (user_id book_id attachment_id : String)
      → Step config.attachment_max_bytes book_id attachment_id s
          (complete_attachment objects a s o config user_id book_id attachment_id).1
  unfolding complete_attachment audit_attachment_complete_failure note_attachment note_event
      record_memory
  complete_attachment-Step s o config user_id book_id attachment_id =
      elim (Result-cases (entitled_attachment s user_id book_id attachment_id)) [
        | inr (e, bad) ↦ rw (bad, complete_attachment) kept
        | inl (r, good) ↦ elim (Result-cases (assemble objects o r).0) [
          | inr ((e, none), bad) ↦ rw (good, complete_attachment, bad) kept
          | inr ((e, some reason), bad) ↦ rw (good, complete_attachment, bad) (audited kept _)
          | inl (u, done) ↦
              rw (good, complete_attachment, done)
                (verify_upload-Step s _ config user_id book_id attachment_id r
                  (entitled_found s user_id book_id attachment_id r good))
        ]
      ]
