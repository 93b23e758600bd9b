-- ===== src/Audit/Trail.antt =====
-- On the trail that `record_memory` keeps and the page that `query` answers, of
-- server/src/infrastructure/audit.rs.
use ledgerly.Prelude.{
  ℕ, zero, suc, ◌+◌, ◌-◌, ◌≤◌, ◌<◌, ◌≡◌, refl, ap, inl, inr, false, List, [], ◌∷◌, ◌++◌, length,
  length-append, ltb, Bool-cases, arith,
}
use ledgerly.Json.{Value}
use ledgerly.State.{Fresh, MemoryStore, AuditEventRecord}
use ledgerly.Audit.{AuditEvent, most_events, drop, push_event, audit_record, record_memory}

module _ {ℓ} {A : Type ℓ} where
  length-drop : (n : ℕ) (xs : List A) → length (drop n xs) ≡ length xs - n
  unfolding drop
  length-drop zero xs = omega arith
  length-drop (suc n) [] = omega arith
  length-drop (suc n) (x ∷ xs) = omega (arith, length-drop n xs)

  -- What stays behind a cut is an end of the list.
  drop-split : (n : ℕ) (xs : List A) → (front : List A) × (front ++ drop n xs ≡ xs)
  unfolding drop
  drop-split zero xs = ([], refl)
  drop-split (suc n) [] = ([], refl)
  drop-split (suc n) (x ∷ xs) =
      let (front, split) = drop-split n xs in (x ∷ front, ap (λ ys. x ∷ ys) split)

-- `later` is what the newest events of `events` and then `e` are, at most 1 000 of them.
pub record IsTail {T : Type 0} (events later : List (AuditEventRecord T)) (e : AuditEventRecord T)
    : Type 0 where
  pub forgotten : List (AuditEventRecord T)
  pub split : forgotten ++ later ≡ events ++ e ∷ []
  pub bounded : length later ≤ most_events
  pub only_when_full : length events < most_events → forgotten ≡ []
  pub stays_full : most_events ≤ length events → length later ≡ most_events

module _ {T : Type 0} where
  -- Recording an event whose metadata has at most 4 096 bytes appends it and keeps the newest 1 000
  -- events: none is lost while there are fewer than 1 000, and 1 000 are kept from then on.
  pub record_memory-IsTail :
      (json_bytes : Value → ℕ) (s : MemoryStore T) (fresh : Fresh T) (event : AuditEvent)
      → json_bytes event.metadata ≤ 4096
      → IsTail s.audit_events
          (record_memory json_bytes s fresh event).audit_events
          (audit_record fresh event)
  unfolding record_memory push_event
  record_memory-IsTail json_bytes s fresh event small =
      let e = audit_record fresh event in
      let pushed = s.audit_events ++ e ∷ [] in
      let size : length pushed ≡ length s.audit_events + 1 =
        length-append s.audit_events (e ∷ []) in
      let room : ltb 4096 (json_bytes event.metadata) ≡ false = ground arith in
      elim (Bool-cases (ltb most_events (length pushed))) [
        | inl full ↦
            let (front, split) = drop-split (length pushed - most_events) pushed in
            rw (room, record_memory, full)
              (record {
                forgotten = front;
                split = split;
                bounded = omega (arith, length-drop (length pushed - most_events) pushed);
                only_when_full = λ few. absurd (ground arith);
                stays_full =
                    λ many. omega (arith, length-drop (length pushed - most_events) pushed);
              })
        | inr fits ↦
            rw (room, record_memory, fits)
              (record {
                forgotten = [];
                split = refl;
                bounded = ground arith;
                only_when_full = λ few. refl;
                stays_full = λ many. absurd (ground arith);
              })
      ]
