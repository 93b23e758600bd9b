-- ===== src/Audit/Privacy.antt =====
-- On what `query` and `list_events` show, of server/src/infrastructure/audit.rs and
-- server/src/transport/http/audit.rs.
use ledgerly.Prelude.{
  ℕ, zero, suc, ◌≤◌, ◌≡◌, refl, inl, inr, String, true, List, [], ◌∷◌, Option, none, some, map,
  filter, length, Bool-cases, All, arith, eq_iff, string_eq, is_text,
}
use ledgerly.Text.{is_less}
use ledgerly.State.{TimeLib, MemoryStore, AuditEventRecord}
use ledgerly.Audit.{
  AuditQuery, AuditEventView, take, matches, allows_actor, sort_events, insert_event,
  page_from_rows, query, clamp_limit, view_of, limit_or_50, list_events,
}

module _ {ℓ} {A : Type ℓ} where
  length-take : (n : ℕ) (xs : List A) → length (take n xs) ≤ n
  unfolding take
  length-take zero xs = omega arith
  length-take (suc n) [] = omega arith
  length-take (suc n) (x ∷ xs) = omega (arith, length-take n xs)

  All-take : (P : A → Type 0) (n : ℕ) (xs : List A) → All P xs → All P (take n xs)
  unfolding take
  All-take P zero xs h = tt
  All-take P (suc n) [] h = tt
  All-take P (suc n) (x ∷ xs) h = (h.0, All-take P n xs h.1)

  All-map :
      {B : Type 0} (P : B → Type 0) (f : A → B) (xs : List A)
      → All (λ x. P (f x)) xs
      → All P (map f xs)
  All-map P f [] h = tt
  All-map P f (x ∷ xs) h = (h.0, All-map P f xs h.1)

  length-map : {B : Type 0} (f : A → B) (xs : List A) → length (map f xs) ≡ length xs
  length-map f [] = refl
  length-map f (x ∷ xs) = omega (arith, length-map f xs)

is_text_inv : (k : String) (o : Option String) → is_text k o ≡ true → o ≡ some k
is_text_inv k none h = absurd (cc)
is_text_inv k (some s) h = ground (arith, eq_iff s k)

module _ {T : Type 0} where
  All-insert_event :
      (P : AuditEventRecord T → Type 0) (e : AuditEventRecord T) (es : List (AuditEventRecord T))
      → P e
      → All P es
      → All P (insert_event e es)
  unfolding insert_event
  All-insert_event P e [] p h = (p, tt)
  All-insert_event P e (f ∷ fs) p h = elim (Bool-cases (is_less e.id f.id)) [
    | inl before ↦ rw before (h.0, All-insert_event P e fs p h.1)
    | inr after ↦ rw after (p, h)
  ]

  All-sort_events :
      (P : AuditEventRecord T → Type 0) (es : List (AuditEventRecord T))
      → All P es
      → All P (sort_events es)
  unfolding sort_events
  All-sort_events P [] h = tt
  All-sort_events P (e ∷ es) h =
      All-insert_event P e (sort_events es) h.0 (All-sort_events P es h.1)

  IsOf : String → AuditEventRecord T → Type 0
  IsOf user_id e = e.actor_id ≡ some user_id

  All-matches :
      (user_id : String) (q : AuditQuery) (es : List (AuditEventRecord T))
      → q.actor_id ≡ some user_id
      → All (IsOf user_id) (filter (matches q) es)
  unfolding IsOf matches
  All-matches user_id q [] is = tt
  All-matches user_id q (e ∷ es) is = elim (Bool-cases (matches q e)) [
    | inr out ↦ rw out (All-matches user_id q es is)
    | inl kept ↦
        let actor : allows_actor q.actor_id e.actor_id ≡ true = ground arith in
        rw kept (is_text_inv user_id e.actor_id (rw is at actor), All-matches user_id q es is)
  ]

module _ {T : Type 0} (time : TimeLib T) where
  page-All :
      (P : AuditEventView → Type 0) (rows : List (AuditEventRecord T)) (limit : ℕ)
      → All (λ e. P (view_of time e)) rows
      → All P (page_from_rows time rows limit).events
        × (length (page_from_rows time rows limit).events ≤ limit)
  unfolding page_from_rows
  page-All P rows limit h = (
    All-map P (view_of time) (take limit rows) (All-take _ limit rows h),
    omega (arith, length-map (view_of time) (take limit rows), length-take limit rows),
  )

  -- `list_events` shows a user no event but those of their own, and at most 200, or the limit that was
  -- asked for where that is from 1 to 200.
  pub list_events-own :
      (s : MemoryStore T) (user_id : String) (limit : Option ℕ)
      (action outcome before : Option String)
      → let page = list_events time s user_id limit action outcome before in
        All (λ v. v.actor_id ≡ some user_id) page.events
        × (length page.events ≤ clamp_limit (limit_or_50 limit))
  unfolding list_events query IsOf
  list_events-own s user_id limit action outcome before =
      let q : AuditQuery = record {
        actor_id = some user_id;
        action = action;
        outcome = outcome;
        before = before;
        limit = limit_or_50 limit;
      } in
      page-All (λ v. v.actor_id ≡ some user_id) _ (clamp_limit (limit_or_50 limit))
        (All-take (IsOf user_id) (suc (clamp_limit (limit_or_50 limit))) _
          (All-sort_events (IsOf user_id) _ (All-matches user_id q s.audit_events refl)))
