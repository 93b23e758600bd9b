-- ===== src/Tests/Uploads.antt =====
-- An upload in parts, a single upload that is completed, and requests about them.
use ledgerly.Prelude.{
  ◌-◌, ℕ, ◌≡◌, refl, String, none, some, List, [], ◌∷◌, ok, All, arith, string_eq,
}
use ledgerly.Prelude.Int.{wrap, pos}
use ledgerly.Prelude.Dict.{lookup}
use ledgerly.State.{MemoryStore, AttachmentRecord}
use ledgerly.Authz.{require_book_member, require_plan, user_plan, covers}
use ledgerly.Text.{trim_start_matches, split, all_chars}
use ledgerly.Storage.Keys.{validated_key}
use ledgerly.Storage.Local.{Disk, local_store, object_size, object_metadata}
use ledgerly.Attachments.Plan.{
  validate_multipart_part, validate_multipart_part_plan, Config, local, multipart_part_count,
  multipart_part_length, planned_length, IsPartLength, multipart_part_length-plan,
}
use ledgerly.Attachments.Parts.{record_part, set_at, resize}
use ledgerly.Attachments.Objects.{
  io_result, update_attachment, update_first, ObjectStore, find_attachment, transfer_url,
}
use ledgerly.Attachments.Upload.{
  part_answer, checked_part, store_part, entitled_attachment, upload_multipart_part,
}
use ledgerly.Attachments.Complete.{
  complete_answer, assemble, answer_complete, finish_upload, verify_upload, complete_attachment,
}
use ledgerly.Attachments.Requests.{Request, Route, post_complete, put_part, handle, handle_all}
use ledgerly.Attachments.Recording.{IsReceived, upload_multipart_part-records}
use ledgerly.Attachments.Soundness.{IsSound, pending-IsSound, handle_all-IsSound}
use ledgerly.Attachments.Frame.{SameOthers, handle-SameOthers}
use ledgerly.Attachments.Completion.{IsCompleted, complete_attachment-IsCompleted}
use ledgerly.Tests.{opened}
use ledgerly.Tests.Users.{recorder}

abbrev objects : ObjectStore Disk
objects = local_store (λ key. key) (λ bytes. "digest") (λ method key expires_in. "url")

abbrev config : Config
config = record { object_storage_backend = local; attachment_max_bytes = 104857600 }

abbrev photo : AttachmentRecord ℕ
photo = record {
  id = "a";
  book_id = "b";
  transaction_id = none;
  file_name = some "lunch.jpg";
  object_key = "books/b/a";
  content_hash = none;
  mime_type = none;
  size_bytes = some (pos 3);
  upload_status = "pending";
  upload_mode = "single";
  multipart_upload_id = none;
  multipart_parts = [];
  created_by = some "u";
  created_at = 4;
}

abbrev film : AttachmentRecord ℕ
film = record photo {
  id = "f";
  object_key = "books/b/f";
  size_bytes = some (pos 12000000);
  upload_mode = "multipart";
}

abbrev uploading : MemoryStore ℕ
uploading = record opened { subscriptions = ("u", "plus") ∷ []; attachments = photo ∷ film ∷ [] }

abbrev disk : Disk
disk = record { objects = ("books/b/a", 1 ∷ 2 ∷ 3 ∷ []) ∷ []; multipart = ("books/b/f", []) ∷ [] }

part_lengths :
    (multipart_part_length 12000000 3 ≡ some 1514240)
    × (multipart_part_length 12000000 4 ≡ none)
    × (multipart_part_count 5242880 ≡ 1)
unfolding multipart_part_length multipart_part_count
part_lengths = (refl, refl, refl)

multipart_part_length-plan_example :
    (planned_length 12000000 (multipart_part_count 12000000) ≡ 12000000)
    × ((n : ℕ) → IsPartLength 12000000 n (multipart_part_length 12000000 n))
multipart_part_length-plan_example = multipart_part_length-plan 12000000

abbrev request : Route ℕ → Request ℕ
request route = record { user_id = "u"; book_id = "b"; recorder = recorder; route = route }

completes :
    (complete_attachment objects recorder uploading disk config "u" "b" "a").0
    ≡ ok (complete_answer "a" "url")
unfolding complete_attachment entitled_attachment require_book_member require_plan user_plan covers
    lookup find_attachment assemble verify_upload object_size object_metadata validated_key
    trim_start_matches split all_chars finish_upload answer_complete transfer_url
completes = refl

complete_attachment-IsCompleted_example :
    IsCompleted objects config "b" "a" uploading
      (complete_attachment objects recorder uploading disk config "u" "b" "a").1
      (complete_attachment objects recorder uploading disk config "u" "b" "a").2
complete_attachment-IsCompleted_example =
    complete_attachment-IsCompleted objects recorder uploading disk config "u" "b" "a"
      (complete_answer "a" "url") completes

abbrev etags : ObjectStore Disk
etags = record objects { put_multipart_part = λ d key upload_id index bytes. (ok "etag", d) }

abbrev clip : AttachmentRecord ℕ
clip = record film { size_bytes = some (pos 3) }

abbrev clipping : MemoryStore ℕ
clipping = record uploading { attachments = clip ∷ [] }

abbrev clipped : MemoryStore ℕ
clipped = record uploading { attachments = record clip { multipart_parts = "etag" ∷ [] } ∷ [] }

receives :
    (upload_multipart_part etags clipping disk "u" "b" "f" 1 (1 ∷ 2 ∷ 3 ∷ [])).0
    ≡ some (ok (part_answer 1 "etag" 1 1), clipped)
unfolding upload_multipart_part checked_part require_book_member require_plan user_plan covers
    lookup find_attachment validate_multipart_part validate_multipart_part_plan
    multipart_part_length multipart_part_count wrap store_part record_part set_at resize
    update_attachment update_first
receives = refl

upload_multipart_part-records_example :
    (r : AttachmentRecord ℕ) × (part_id : String) × (io_result
        (etags.put_multipart_part disk r.object_key r.multipart_upload_id
          (1 - 1)
          (1 ∷ 2 ∷ 3 ∷ [])).0
      ≡ ok part_id)
    × IsReceived "b" "f" 1 3 part_id r clipping clipped
upload_multipart_part-records_example =
    upload_multipart_part-records etags clipping clipped disk "u" "b" "f" 1 (1 ∷ 2 ∷ 3 ∷ [])
      (part_answer 1 "etag" 1 1) receives

abbrev requests : List (Request ℕ)
requests = request (post_complete "a") ∷ request (put_part "f" 1 (1 ∷ 2 ∷ 3 ∷ [])) ∷ []

abbrev both : MemoryStore ℕ
both = record uploading { attachments = photo ∷ clip ∷ [] }

handle_all-IsSound_example :
    All (IsSound 104857600) (handle_all etags config both disk requests).0.attachments
handle_all-IsSound_example =
    handle_all-IsSound etags config requests both disk (omega arith)
      (pending-IsSound 104857600 photo refl refl, (pending-IsSound 104857600 clip refl refl, tt))

handle-SameOthers_example :
    SameOthers "b" "a" both (handle etags config recorder both disk "u" "b" (post_complete "a")).0
handle-SameOthers_example =
    handle-SameOthers etags config recorder both disk "u" "b" (post_complete "a")
