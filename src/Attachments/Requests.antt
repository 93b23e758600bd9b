-- ===== src/Attachments/Requests.antt =====
-- The requests of server/src/transport/http/commercial.rs (`routes`) that change attachments, one after
-- another.
use ledgerly.Prelude.{ℕ, ap, String, List, [], ◌∷◌, Option, none, some, Result}
use ledgerly.Json.{Value}
use ledgerly.ApiError.{ApiError}
use ledgerly.Audit.{Recorder}
use ledgerly.State.{Fresh, MemoryStore}
use ledgerly.Attachments.Plan.{Config}
use ledgerly.Attachments.Objects.{ObjectStore}
use ledgerly.Attachments.Session.{UploadSessionRequest, create_upload_session}
use ledgerly.Attachments.Upload.{
  upload_multipart_part, complete_multipart_part, abort_multipart_upload,
}
use ledgerly.Attachments.Complete.{complete_attachment}
use ledgerly.Attachments.Catalog.{delete_attachment}
use ledgerly.Attachments.Steps.{Step, create_upload_session-Step, complete_attachment-Step}
use ledgerly.Attachments.Receive.{
  Received-Step, complete_multipart_part-Ends, upload_multipart_part-Ends,
  abort_multipart_upload-Step, delete_attachment-Step,
}

-- The route, with the id of the attachment, the part, and the body.
pub data Route (T : Type 0) : Type 0 where
  post_session : Fresh T → UploadSessionRequest → Route T
  put_part : String → ℕ → List ℕ → Route T
  post_part : String → ℕ → String → Route T
  post_complete : String → Route T
  delete_multipart : String → Route T
  delete_whole : String → Route T

pub record Request (T : Type 0) : Type 0 where
  pub user_id : String
  pub book_id : String
  pub recorder : Recorder T
  pub route : Route T

-- A handler that panics has written nothing.
abbrev pub after_run :
    {T : Type 0} → MemoryStore T → Option (Result Value ApiError × MemoryStore T) → MemoryStore T
after_run s none = s
after_run s (some out) = out.1

-- The attachment that a request is about.
abbrev pub target_of : {T : Type 0} → Route T → String
target_of (post_session fresh req) = fresh.uuid
target_of (put_part id part_number body) = id
target_of (post_part id part_number part_id) = id
target_of (post_complete id) = id
target_of (delete_multipart id) = id
target_of (delete_whole id) = id

module _ {T O : Type 0} (objects : ObjectStore O) (config : Config) where
  unfoldable pub handle :
      Recorder T → MemoryStore T → O → String → String → Route T → MemoryStore T × O
  handle a s o user book (post_session fresh req) =
      let out = create_upload_session objects a s o config fresh user book req in (out.1, out.2)
  handle a s o user book (put_part id part_number body) =
      let out = upload_multipart_part objects s o user book id part_number body in
      (after_run s out.0, out.1)
  handle a s o user book (post_part id part_number part_id) =
      (after_run s (complete_multipart_part s config user book id part_number part_id), o)
  handle a s o user book (post_complete id) =
      let out = complete_attachment objects a s o config user book id in (out.1, out.2)
  handle a s o user book (delete_multipart id) =
      let out = abort_multipart_upload objects a s o user book id in (out.1, out.2)
  handle a s o user book (delete_whole id) =
      let out = delete_attachment objects a s o user book id in (out.1, out.2)

  unfoldable pub handle_all : MemoryStore T → O → List (Request T) → MemoryStore T × O
  unfolding handle
  handle_all s o [] = (s, o)
  handle_all s o (r ∷ rs) =
      let (s', o') = handle r.recorder s o r.user_id r.book_id r.route in handle_all s' o' rs

  -- Every request takes a step on the attachment that it names.
  pub handle-Step :
      (a : Recorder T) (s : MemoryStore T) (o : O) (user book : String) (route : Route T)
      → Step config.attachment_max_bytes book (target_of route) s (handle a s o user book route).0
  unfolding handle
  handle-Step a s o user book (post_session fresh req) =
      create_upload_session-Step objects a s o config fresh user book req
  handle-Step a s o user book (put_part id part_number body) =
      let e = upload_multipart_part-Ends objects s o user book id part_number body in
      rw (ap (after_run s) e.ended, handle) (Received-Step config.attachment_max_bytes e.step)
  handle-Step a s o user book (post_part id part_number part_id) =
      let e = complete_multipart_part-Ends s config user book id part_number part_id in
      rw (ap (after_run s) e.ended, handle) (Received-Step config.attachment_max_bytes e.step)
  handle-Step a s o user book (post_complete id) =
      complete_attachment-Step objects a s o config user book id
  handle-Step a s o user book (delete_multipart id) =
      abort_multipart_upload-Step objects a config.attachment_max_bytes s o user book id
  handle-Step a s o user book (delete_whole id) =
      delete_attachment-Step objects a config.attachment_max_bytes s o user book id
