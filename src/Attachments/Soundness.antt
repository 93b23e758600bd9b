-- ===== src/Attachments/Soundness.antt =====
-- On the attachments that the requests of server/src/transport/http/commercial.rs leave in the store.
use ledgerly.Prelude.{
  ℕ, ◌≤◌, ◌<◌, ◌≡◌, refl, sym, ap, ◌∙◌, inl, inr, String, Bool, List, [], ◌∷◌, some, length, find,
  All, All-append, All-filter, Bool-cases, arith, string_eq, text_ne,
}
use ledgerly.Prelude.Int.{pos, i64_half, wrap_of_Fits}
use ledgerly.State.{MemoryStore, AttachmentRecord}
use ledgerly.Attachments.Plan.{Config, as_u64, multipart_part_count}
use ledgerly.Attachments.Objects.{
  ObjectStore, ObjectMetadata, find_attachment, update_first, update_attachment, remove_attachment,
  mark_attachment_failed,
}
use ledgerly.Attachments.Upload.{size_or_zero}
use ledgerly.Attachments.Complete.{mark_ready}
use ledgerly.Attachments.Steps.{Step, kept, opened, received, failed, readied, removed, audited}
use ledgerly.Attachments.Requests.{Request, handle_all, handle-Step}

-- A ready attachment has a size within the limit and a hash, and no part is kept; no attachment has
-- more parts than its plan.
pub record IsSound {T : Type 0} (max : ℕ) (r : AttachmentRecord T) : Type 0 where
  pub measured : r.upload_status ≡ "ready" → (n : ℕ) × (r.size_bytes ≡ some (pos n)) × (n ≤ max)
  pub hashed : r.upload_status ≡ "ready" → (h : String) × (r.content_hash ≡ some h)
  pub cleared : r.upload_status ≡ "ready" → r.multipart_parts ≡ []
  pub planned : length r.multipart_parts ≤ multipart_part_count (as_u64 (size_or_zero r.size_bytes))

module _ {T : Type 0} where
  -- The first record found is updated; the others stay.
  All-update_first :
      (P : AttachmentRecord T → Type 0) (p : AttachmentRecord T → Bool)
      (f : AttachmentRecord T → AttachmentRecord T) (rs : List (AttachmentRecord T))
      → ((r : AttachmentRecord T) → find p rs ≡ some r → P r → P (f r))
      → All P rs
      → All P (update_first p f rs)
  unfolding update_first
  All-update_first P p f [] step h = tt
  All-update_first P p f (r ∷ rs) step h = elim (Bool-cases (p r)) [
    | inl e ↦ rw e (step r (rw e refl) h.0, h.1)
    | inr e ↦ rw e (h.0, All-update_first P p f rs (λ q found. step q (rw e found)) h.1)
  ]

  pub pending-IsSound :
      (max : ℕ) (r : AttachmentRecord T)
      → r.upload_status ≡ "pending"
      → r.multipart_parts ≡ []
      → IsSound max r
  pending-IsSound max r pending empty = record {
    measured = λ ready. absurd (text_ne refl (sym ready ∙ pending));
    hashed = λ ready. absurd (text_ne refl (sym ready ∙ pending));
    cleared = λ ready. empty;
    planned = rw empty (omega arith);
  }

  ready-IsSound :
      (max : ℕ) (metadata : ObjectMetadata) (r : AttachmentRecord T)
      → max < i64_half
      → metadata.size_bytes ≤ max
      → IsSound max (mark_ready metadata r)
  unfolding mark_ready
  ready-IsSound max metadata r fits small =
      let same = wrap_of_Fits i64_half (pos metadata.size_bytes) (omega arith, omega arith) in
      record {
        measured = λ ready. (metadata.size_bytes, ap some same, small);
        hashed = λ ready. (metadata.sha256, refl);
        cleared = λ ready. refl;
        planned = omega arith;
      }

  failed-IsSound :
      (max : ℕ) (r : AttachmentRecord T)
      → IsSound max r
      → IsSound max (record r { upload_status = "failed" })
  failed-IsSound max r is = record {
    measured = λ ready. absurd (text_ne refl ready);
    hashed = λ ready. absurd (text_ne refl ready);
    cleared = λ ready. absurd (text_ne refl ready);
    planned = is.planned;
  }

  received-IsSound :
      (max : ℕ) (r : AttachmentRecord T) (parts : List String)
      → r.upload_status ≡ "pending"
      → length parts ≡ multipart_part_count (as_u64 (size_or_zero r.size_bytes))
      → IsSound max (record r { multipart_parts = parts })
  received-IsSound max r parts pending full = record {
    measured = λ ready. absurd (text_ne refl (sym ready ∙ pending));
    hashed = λ ready. absurd (text_ne refl (sym ready ∙ pending));
    cleared = λ ready. absurd (text_ne refl (sym ready ∙ pending));
    planned = omega (arith, full);
  }

  Step-IsSound :
      (max : ℕ) (book_id attachment_id : String) (s s' : MemoryStore T)
      → max < i64_half
      → Step max book_id attachment_id s s'
      → All (IsSound max) s.attachments
      → All (IsSound max) s'.attachments
  unfolding update_attachment remove_attachment mark_attachment_failed find_attachment
  Step-IsSound max book_id attachment_id s s' fits kept h = h
  Step-IsSound max book_id attachment_id s s' fits (opened r pending empty i b) h =
      All-append _ s.attachments (r ∷ []) h (pending-IsSound max r pending empty, tt)
  Step-IsSound max book_id attachment_id s s' fits (received r parts found mode pending full) h =
      All-update_first _ _ _ s.attachments
        (λ q q_found is.
          let same : r ≡ q = ground arith in
          received-IsSound max q parts (rw same at pending) (rw same at full))
        h
  Step-IsSound max book_id attachment_id s s' fits failed h =
      All-update_first _ _ _ s.attachments (λ q found is. failed-IsSound max q is) h
  Step-IsSound max book_id attachment_id s s' fits (readied r metadata found small same) h =
      All-update_first _ _ _ s.attachments (λ q found is. ready-IsSound max metadata q fits small) h
  Step-IsSound max book_id attachment_id s s' fits (audited {s' = s₁} step events) h =
      Step-IsSound max book_id attachment_id s s₁ fits step h
  Step-IsSound max book_id attachment_id s s' fits (removed r found) h =
      All-filter _ _ s.attachments h

module _ {T O : Type 0} (objects : ObjectStore O) (config : Config) where
  -- Requests about attachments keep this of every attachment, if the configured limit is below
  -- 2 ^ 63: one that is ready has a size within the limit, a hash and no parts left, and none has more
  -- parts than its plan.
  pub handle_all-IsSound :
      (requests : List (Request T)) (s : MemoryStore T) (o : O)
      → config.attachment_max_bytes < i64_half
      → All (IsSound config.attachment_max_bytes) s.attachments
      → All
          (IsSound config.attachment_max_bytes)
          (handle_all objects config s o requests).0.attachments
  unfolding handle_all
  handle_all-IsSound [] s o fits h = h
  handle_all-IsSound (r ∷ rs) s o fits h = handle_all-IsSound rs _ _ fits (
      Step-IsSound _ r.book_id _ s _ fits
        (handle-Step objects config r.recorder s o r.user_id r.book_id r.route) h)
