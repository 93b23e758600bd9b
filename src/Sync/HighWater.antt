-- ===== src/Sync/HighWater.antt =====
-- The hand-over from `bootstrap` to `pull` of server/src/transport/http/sync.rs.
use ledgerly.Prelude.{
  ℕ, suc, ◌+◌, ◌≡◌, refl, String, true, List, [], ◌∷◌, ◌++◌, filter, filter-append, length, All,
  Bool-cases, inl, inr, arith,
}
use ledgerly.Prelude.Int.{ℤ, pos, ◌≤ℤ◌, ltb_ℤ, leb_ℤ}
use ledgerly.State.{ChangeRecord}
use ledgerly.Sync.Log.{NumberedFrom, IsNumbered}
use ledgerly.Sync.Pull.{is_after}
use ledgerly.Sync.Bootstrap.{max_from, max_sequence, in_book, high_water}

max_from_bounds :
    (best n : ℤ) (cs : List ChangeRecord)
    → max_from best cs ≡ n
    → (best ≤ℤ n) × All (λ c. c.sequence ≤ℤ n) cs
unfolding max_from
max_from_bounds best n [] e = (rw e (omega arith), tt)
max_from_bounds best n (c ∷ cs) e = elim (Bool-cases (leb_ℤ best c.sequence)) [
  | inl up ↦
      let (le, rest) = max_from_bounds c.sequence n cs (rw up at e) in
      let below : best ≤ℤ c.sequence = ground arith in (omega arith, (le, rest))
  | inr keep ↦
      let (le, rest) = max_from_bounds best n cs (rw keep at e) in
      let below : c.sequence ≤ℤ best = ground arith in (le, (omega arith, rest))
]

max_sequence-All : (cs : List ChangeRecord) → All (λ c. c.sequence ≤ℤ max_sequence cs) cs
unfolding max_sequence
max_sequence-All [] = tt
max_sequence-All (c ∷ cs) = max_from_bounds c.sequence (max_from c.sequence cs) cs refl

max_from-le :
    (n best : ℤ) (cs : List ChangeRecord)
    → best ≤ℤ n
    → All (λ c. c.sequence ≤ℤ n) cs
    → max_from best cs ≤ℤ n
unfolding max_from
max_from-le n best [] le h = le
max_from-le n best (c ∷ cs) le h = elim (Bool-cases (leb_ℤ best c.sequence)) [
  | inl up ↦ rw up (max_from-le n c.sequence cs h.0 h.1)
  | inr keep ↦ rw keep (max_from-le n best cs le h.1)
]

max_sequence-le :
    (n : ℤ) (cs : List ChangeRecord)
    → pos 0 ≤ℤ n
    → All (λ c. c.sequence ≤ℤ n) cs
    → max_sequence cs ≤ℤ n
unfolding max_sequence
max_sequence-le n [] le h = le
max_sequence-le n (c ∷ cs) le h = max_from-le n c.sequence cs h.0 h.1

-- The changes of one book up to a number.
none_after :
    (book_id : String) (n : ℤ) (cs : List ChangeRecord)
    → All (λ c. c.sequence ≤ℤ n) (filter (in_book book_id) cs)
    → filter (is_after book_id n) cs ≡ []
none_after book_id n [] h = refl
none_after book_id n (c ∷ cs) h = elim (Bool-cases (in_book book_id c)) [
  | inl own ↦
      let (le, rest) = rw own at h in let left = none_after book_id n cs rest in ground arith
  | inr other ↦ let left = none_after book_id n cs (rw other at h) in ground arith
]

-- The changes of one book from a number on.
all_after :
    (book_id : String) (n : ℤ) (k : ℕ) (cs : List ChangeRecord)
    → NumberedFrom k cs
    → n ≤ℤ pos k
    → filter (is_after book_id n) cs ≡ filter (in_book book_id) cs
all_after book_id n k [] h le = refl
all_after book_id n k (c ∷ cs) h le =
    let rest = all_after book_id n (suc k) cs h.1 (omega arith) in
    let over : ltb_ℤ n c.sequence ≡ true = rw h.0 (ground arith) in rw (over, rest) (ground arith)

NumberedFrom-All :
    (book_id : String) (k n : ℕ) (cs : List ChangeRecord)
    → NumberedFrom k cs
    → k + length cs ≡ n
    → All (λ c. c.sequence ≤ℤ pos n) (filter (in_book book_id) cs)
NumberedFrom-All book_id k n [] h e = tt
NumberedFrom-All book_id k n (c ∷ cs) h e = elim (Bool-cases (in_book book_id c)) [
  | inl own ↦ rw own (rw h.0 (omega arith), NumberedFrom-All book_id (suc k) n cs h.1 (omega arith))
  | inr other ↦ rw other (NumberedFrom-All book_id (suc k) n cs h.1 (omega arith))
]

NumberedFrom-left :
    (k : ℕ) (xs ys : List ChangeRecord) → NumberedFrom k (xs ++ ys) → NumberedFrom k xs
NumberedFrom-left k [] ys h = tt
NumberedFrom-left k (x ∷ xs) ys h = (h.0, NumberedFrom-left (suc k) xs ys h.1)

NumberedFrom-right :
    (k n : ℕ) (xs ys : List ChangeRecord)
    → NumberedFrom k (xs ++ ys)
    → k + length xs ≡ n
    → NumberedFrom n ys
NumberedFrom-right k n [] ys h e = rw (the_same) at h
  where
    the_same : k ≡ n
    the_same = omega arith
NumberedFrom-right k n (x ∷ xs) ys h e = NumberedFrom-right (suc k) n xs ys h.1 (omega arith)

-- On a numbered log, what `pull` finds behind the high-water cursor of an earlier snapshot of a book
-- is exactly the changes of that book that were appended since, in order: nothing that the snapshot
-- holds is sent again, and nothing later is lost.
pub high_water-handover :
    (old new : List ChangeRecord) (book_id : String)
    → IsNumbered (old ++ new)
    → filter (is_after book_id (high_water old book_id)) (old ++ new) ≡ filter (in_book book_id) new
unfolding high_water
high_water-handover old new book_id h =
    let mark = max_sequence (filter (in_book book_id) old) in
    let bound : mark ≤ℤ pos (length old) =
      max_sequence-le (pos (length old)) _ (omega arith) (
        NumberedFrom-All book_id 0 (length old) old (NumberedFrom-left 0 old new h)
          (omega arith)) in
    rw
      (
        filter-append,
        none_after book_id mark old (max_sequence-All (filter (in_book book_id) old)),
        all_after book_id mark (length old) new
            (NumberedFrom-right 0 (length old) old new h (omega arith)) bound,
      )
      refl
