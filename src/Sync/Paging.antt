-- ===== src/Sync/Paging.antt =====
-- Lemmas on the parts of `pull` of server/src/transport/http/sync.rs: rising numbers, the sort, the
-- loop that fills a page, and the cursor.
use ledgerly.Prelude.{
  ℕ, zero, suc, ◌≡◌, refl, ap, String, Bool, false, List, [], ◌∷◌, ◌++◌, Option, none, some,
  Bool-cases, inl, inr, filter, any, get_last?, if◌then◌else◌, arith, ◌==◌,
}
use ledgerly.Prelude.Int.{ℤ, pos, ◌<ℤ◌, ◌≤ℤ◌, ltb_ℤ}
use ledgerly.State.{ChangeRecord}
use ledgerly.Sync.Log.{NumberedFrom}
use ledgerly.Sync.Pull.{insert_sorted, sort_by_sequence, fill_page, is_after, sequence_or}

-- The numbers rise strictly, from above `b` on.
abbrev pub Rising : ℤ → List ChangeRecord → Type 0
Rising b [] = Unit
Rising b (c ∷ cs) = (b <ℤ c.sequence) × Rising c.sequence cs

Rising-lower : (a b : ℤ) (cs : List ChangeRecord) → a ≤ℤ b → Rising b cs → Rising a cs
Rising-lower a b [] le h = tt
Rising-lower a b (c ∷ cs) le h = (omega arith, h.1)

pub NumberedFrom-Rising : (k : ℕ) (cs : List ChangeRecord) → NumberedFrom k cs → Rising (pos k) cs
NumberedFrom-Rising k [] h = tt
NumberedFrom-Rising k (c ∷ cs) h =
    (rw h.0 (omega arith), rw h.0 (NumberedFrom-Rising (suc k) cs h.1))

-- Filtering by the book and the cursor leaves the numbers rising, above the cursor.
Rising-filter :
    (book_id : String) (a cursor : ℤ) (cs : List ChangeRecord)
    → Rising a cs
    → cursor ≤ℤ a
    → Rising a (filter (is_after book_id cursor) cs)
Rising-filter book_id a cursor [] h le = tt
Rising-filter book_id a cursor (c ∷ cs) h le = elim (Bool-cases (is_after book_id cursor c)) [
  | inl kept ↦ rw kept (h.0, Rising-filter book_id c.sequence cursor cs h.1 (omega arith))
  | inr out ↦ rw out (
      Rising-lower a c.sequence _ (omega arith)
        (Rising-filter book_id c.sequence cursor cs h.1 (omega arith)))
]

pub filter-Rising :
    (book_id : String) (a cursor : ℤ) (cs : List ChangeRecord)
    → Rising a cs
    → Rising cursor (filter (is_after book_id cursor) cs)
filter-Rising book_id a cursor [] h = tt
filter-Rising book_id a cursor (c ∷ cs) h = elim (Bool-cases (is_after book_id cursor c)) [
  | inl kept ↦
      let above : cursor <ℤ c.sequence = ground arith in
      rw kept (above, Rising-filter book_id c.sequence cursor cs h.1 (omega arith))
  | inr out ↦ rw out (filter-Rising book_id c.sequence cursor cs h.1)
]

-- A list that rises is sorted as it stands.
insert_sorted_lem :
    (c : ChangeRecord) (cs : List ChangeRecord) → Rising c.sequence cs → insert_sorted c cs ≡ c ∷ cs
unfolding insert_sorted
insert_sorted_lem c [] h = refl
insert_sorted_lem c (d ∷ ds) h = ground arith

pub sort_by_sequence_lem : (b : ℤ) (cs : List ChangeRecord) → Rising b cs → sort_by_sequence cs ≡ cs
unfolding sort_by_sequence
sort_by_sequence_lem b [] h = refl
sort_by_sequence_lem b (c ∷ cs) h =
    rw (sort_by_sequence_lem c.sequence cs h.1) (insert_sorted_lem c cs h.1)

-- What a page leaves.
abbrev pub rest_of : ℕ → Option String → List ChangeRecord → List ChangeRecord
rest_of room last [] = []
rest_of (suc room) last (c ∷ cs) = rest_of room (some c.commit_id) cs
rest_of zero none (c ∷ cs) = c ∷ cs
rest_of zero (some commit) (c ∷ cs) =
    let rest = rest_of zero (some commit) cs in if commit == c.commit_id then rest else c ∷ cs

pub fill_page-rest :
    (room : ℕ) (last : Option String) (cs : List ChangeRecord)
    → cs ≡ fill_page room last cs ++ rest_of room last cs
unfolding fill_page
fill_page-rest zero none [] = refl
fill_page-rest zero (some commit) [] = refl
fill_page-rest (suc room) last [] = refl
fill_page-rest (suc room) last (c ∷ cs) =
    ap (λ l. c ∷ l) (fill_page-rest room (some c.commit_id) cs)
fill_page-rest zero none (c ∷ cs) = refl
fill_page-rest zero (some commit) (c ∷ cs) = elim (Bool-cases (commit == c.commit_id)) [
  | inl same ↦ rw same (ap (λ l. c ∷ l) (fill_page-rest zero (some commit) cs))
  | inr other ↦ rw other refl
]

-- The number of the last change, or the cursor.
abbrev pub last_from : ℤ → List ChangeRecord → ℤ
last_from b [] = b
last_from b (c ∷ cs) = last_from c.sequence cs

pub last_from_lem : (b : ℤ) (cs : List ChangeRecord) → sequence_or (get_last? cs) b ≡ last_from b cs
last_from_lem b [] = refl
last_from_lem b (c ∷ []) = refl
last_from_lem b (c ∷ d ∷ ds) = last_from_lem b (d ∷ ds)

abbrev pub above : ℤ → ChangeRecord → Bool
above b c = ltb_ℤ b c.sequence

pub last_from-le : (b : ℤ) (xs : List ChangeRecord) → Rising b xs → b ≤ℤ last_from b xs
last_from-le b [] h = omega arith
last_from-le b (x ∷ xs) h = omega (arith, last_from-le x.sequence xs h.1)

pub Rising-left : (b : ℤ) (xs ys : List ChangeRecord) → Rising b (xs ++ ys) → Rising b xs
Rising-left b [] ys h = tt
Rising-left b (x ∷ xs) ys h = (h.0, Rising-left x.sequence xs ys h.1)

filter-above : (b : ℤ) (ys : List ChangeRecord) → Rising b ys → filter (above b) ys ≡ ys
filter-above b [] h = refl
filter-above b (y ∷ ys) h =
    let rest = filter-above b ys (Rising-lower b y.sequence ys (omega arith) h.1) in ground arith

pub filter-above_last :
    (b : ℤ) (xs ys : List ChangeRecord)
    → Rising b (xs ++ ys)
    → filter (above (last_from b xs)) (xs ++ ys) ≡ ys
filter-above_last b [] ys h = filter-above b ys h
filter-above_last b (x ∷ xs) ys h =
    let le = last_from-le x.sequence xs (Rising-left x.sequence xs ys h.1) in
    let rest = filter-above_last x.sequence xs ys h.1 in ground arith

pub filter_after :
    (book_id : String) (a b : ℤ) (cs : List ChangeRecord)
    → a ≤ℤ b
    → filter (above b) (filter (is_after book_id a) cs) ≡ filter (is_after book_id b) cs
filter_after book_id a b [] le = refl
filter_after book_id a b (c ∷ cs) le = let rest = filter_after book_id a b cs le in ground arith

pub any-filter :
    (p : ChangeRecord → Bool) (cs : List ChangeRecord) → filter p cs ≡ [] → any p cs ≡ false
any-filter p [] h = refl
any-filter p (c ∷ cs) h = let rest = any-filter p cs in ground arith
