-- ===== src/Attachments/Frame.antt =====
-- On what the requests about one attachment leave alone, of server/src/transport/http/commercial.rs.
use ledgerly.Prelude.{
  ◌≡◌, ◌≢◌, ◌⊎◌, inl, inr, refl, sym, ap, some, String, Bool, true, false, not, ◌++◌, ℕ, List, [],
  ◌∷◌, find, filter, Bool-cases, arith, eq_iff, string_eq, if◌then◌else◌, ◌∙◌,
}
use ledgerly.Audit.{Recorder}
use ledgerly.State.{MemoryStore, AttachmentRecord, AuditEventRecord}
use ledgerly.Attachments.Plan.{Config}
use ledgerly.Attachments.Objects.{
  ObjectStore, is_attachment, find_attachment, update_first, update_attachment, remove_attachment,
  mark_attachment_failed,
}
use ledgerly.Attachments.Complete.{mark_ready}
use ledgerly.Attachments.Steps.{Step, kept, opened, received, failed, readied, removed, audited}
use ledgerly.Attachments.Requests.{Route, target_of, handle, handle-Step}

-- The stores agree on all but the attachment that is named and the audit trail.
pub record SameOthers {T : Type 0} (book_id attachment_id : String) (s s' : MemoryStore T)
    : Type 0 where
  pub elsewhere : s' ≡ record s { attachments = s'.attachments; audit_events = s'.audit_events }
  pub others :
      (book id : String)
      → (book ≢ book_id) ⊎ (id ≢ attachment_id)
      → find_attachment s' book id ≡ find_attachment s book id

module _ {T : Type 0} where
  apart :
      (book id book_id attachment_id : String) (r : AttachmentRecord T)
      → (book ≢ book_id) ⊎ (id ≢ attachment_id)
      → is_attachment book_id attachment_id r ≡ true
      → is_attachment book id r ≡ false
  apart book id book_id attachment_id r ne h =
      let same_id : r.id ≡ attachment_id = ground (arith, eq_iff r.id attachment_id) in
      let same_book : r.book_id ≡ book_id =
        ground (arith, eq_iff r.id attachment_id, eq_iff r.book_id book_id) in
      elim ne [
        | inl n ↦
            ground (arith, eq_iff r.book_id book, λ (e : r.book_id ≡ book). n (sym e ∙ same_book))
        | inr n ↦ ground (arith, eq_iff r.id id, λ (e : r.id ≡ id). n (sym e ∙ same_id))
      ]

  find-append_none :
      (q : AttachmentRecord T → Bool) (rs : List (AttachmentRecord T)) (r : AttachmentRecord T)
      → q r ≡ false
      → find q (rs ++ r ∷ []) ≡ find q rs
  find-append_none q [] r h = rw h refl
  find-append_none q (p ∷ rs) r h = ap (λ o. if q p then some p else o) (find-append_none q rs r h)

  find-update_first :
      (q p : AttachmentRecord T → Bool) (f : AttachmentRecord T → AttachmentRecord T)
      (rs : List (AttachmentRecord T))
      → ((r : AttachmentRecord T) → p r ≡ true → (q r ≡ false) × (q (f r) ≡ false))
      → find q (update_first p f rs) ≡ find q rs
  unfolding update_first
  find-update_first q p f [] h = refl
  find-update_first q p f (r ∷ rs) h = elim (Bool-cases (p r)) [
    | inl e ↦ let (was, is) = h r e in rw (e, was, is) refl
    | inr e ↦ rw e (ap (λ o. if q r then some r else o) (find-update_first q p f rs h))
  ]

  find-filter :
      (q p : AttachmentRecord T → Bool) (rs : List (AttachmentRecord T))
      → ((r : AttachmentRecord T) → p r ≡ true → q r ≡ false)
      → find q (filter (λ r. not (p r)) rs) ≡ find q rs
  find-filter q p [] h = refl
  find-filter q p (r ∷ rs) h = elim (Bool-cases (p r)) [
    | inl e ↦ rw (e, h r e) (find-filter q p rs h)
    | inr e ↦ rw e (ap (λ o. if q r then some r else o) (find-filter q p rs h))
  ]

  updated-SameOthers :
      (book_id attachment_id : String) (s : MemoryStore T)
      (f : AttachmentRecord T → AttachmentRecord T)
      → ((r : AttachmentRecord T) → ((f r).id ≡ r.id) × ((f r).book_id ≡ r.book_id))
      → SameOthers book_id attachment_id s (update_attachment s book_id attachment_id f)
  unfolding update_attachment find_attachment
  updated-SameOthers book_id attachment_id s f names = record {
    elsewhere = refl;
    others = λ book id ne. find-update_first _ _ f s.attachments (λ r is.
        let out = apart book id book_id attachment_id r ne is in
        let (i, b) = names r in (out, rw (i, b) out));
  }

  abbrev with_events : List (AuditEventRecord T) → MemoryStore T → MemoryStore T
  with_events events x = record x { audit_events = events }

  Step-SameOthers :
      (max : ℕ) (book_id attachment_id : String) (s s' : MemoryStore T)
      → Step max book_id attachment_id s s'
      → SameOthers book_id attachment_id s s'
  unfolding remove_attachment mark_attachment_failed find_attachment mark_ready
  Step-SameOthers max book_id attachment_id s s' kept = record {
    elsewhere = refl;
    others = λ book id ne. refl;
  }
  Step-SameOthers max book_id attachment_id s s' (opened r pending empty i b) = record {
    elsewhere = refl;
    others = λ book id ne. find-append_none _ s.attachments r (
        apart book id book_id attachment_id r ne
          (ground (arith, eq_iff r.id attachment_id, eq_iff r.book_id book_id)));
  }
  Step-SameOthers max book_id attachment_id s s' (received r parts found mode pending full) =
      updated-SameOthers book_id attachment_id s _ (λ r. (refl, refl))
  Step-SameOthers max book_id attachment_id s s' failed =
      updated-SameOthers book_id attachment_id s _ (λ r. (refl, refl))
  Step-SameOthers max book_id attachment_id s s' (readied r metadata found small same) =
      updated-SameOthers book_id attachment_id s _ (λ r. (refl, refl))
  Step-SameOthers max book_id attachment_id s s' (audited {s' = s₁} step events) =
      let same = Step-SameOthers max book_id attachment_id s s₁ step in
      record { elsewhere = ap (with_events events) same.elsewhere; others = same.others }
  Step-SameOthers max book_id attachment_id s s' (removed r found) = record {
    elsewhere = refl;
    others = λ book id ne.
        find-filter _ _ s.attachments (λ r is. apart book id book_id attachment_id r ne is);
  }

module _ {T O : Type 0} (objects : ObjectStore O) (config : Config) where
  -- A request about an attachment changes nothing in the store but that attachment and the audit
  -- trail: every other attachment, of this book or another, is found as before, and users, books,
  -- transactions and the rest are the same.
  pub handle-SameOthers :
      (a : Recorder T) (s : MemoryStore T) (o : O) (user book : String) (route : Route T)
      → SameOthers book (target_of route) s (handle objects config a s o user book route).0
  handle-SameOthers a s o user book route =
      Step-SameOthers config.attachment_max_bytes book (target_of route) s _
        (handle-Step objects config a s o user book route)
