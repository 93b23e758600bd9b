-- ===== src/Attachments/Parts.antt =====
-- The list of the parts that have arrived: `parse_multipart_parts`, `update_multipart_part`,
-- `normalize_multipart_part_id` and `normalize_attachment_file_name` of
-- server/src/transport/http/commercial.rs. Where the code indexes a list, `none` is the panic.
use Prim.Native.Char.{code}
use Prim.Native.String.{len}
use ledgerly.Prelude.{
  ℕ, zero, suc, ◌≤◌, ◌<◌, ◌≡◌, ◌≢◌, refl, ap, ◌∙◌, String, false, not, ◌||◌, Option, none, some,
  List, [], ◌∷◌, map, length, filter, any, ltb, eqb, if◌then◌else◌, Result, ok, err, arith,
}
use ledgerly.Json.{Value, string, array, as_str, as_array, of_items, items-of_items}
use ledgerly.Text.{trim, is_empty}
use ledgerly.Auth.Email.{codes}
use ledgerly.Auth.Validation.{is_control}
use ledgerly.ApiError.{ApiError, api_error}
use ledgerly.Attachments.Plan.{multipart_part_count}

abbrev pub invalid_state : ApiError
invalid_state = api_error 500 "INVALID_MULTIPART_STATE" "multipart state is invalid"

unfoldable pub collect_texts : List Value → Result (List String) ApiError
collect_texts [] = ok []
collect_texts (v ∷ vs) =
    let rest = collect_texts vs in
    elim (as_str v) [
      | none ↦ err invalid_state
      | some s ↦ elim rest [ err e ↦ err e | ok ss ↦ ok (s ∷ ss) ]
    ]

unfoldable pub parse_multipart_parts : Value → Result (List String) ApiError
unfolding collect_texts
parse_multipart_parts value = elim (as_array value) [
  | none ↦ err invalid_state
  | some parts ↦ collect_texts parts
]

-- `serde_json::Value::Array(parts.into_iter().map(serde_json::Value::String).collect())`
abbrev pub parts_json : List String → Value
parts_json parts = array (of_items (map string parts))

module _ {ℓ} {A : Type ℓ} where
  -- `Vec::resize`
  unfoldable pub resize : ℕ → A → List A → List A
  resize zero fill xs = []
  resize (suc n) fill [] = fill ∷ resize n fill []
  resize (suc n) fill (x ∷ xs) = x ∷ resize n fill xs

  -- `xs[i] = a`
  unfoldable pub set_at : ℕ → A → List A → Option (List A)
  set_at i a [] = none
  set_at zero a (x ∷ xs) = some (a ∷ xs)
  set_at (suc i) a (x ∷ xs) =
      let rest = set_at i a xs in elim rest [ none ↦ none | some ys ↦ some (x ∷ ys) ]

  -- `xs.get(i)`
  unfoldable pub get_elem? : List A → ℕ → Option A
  get_elem? [] i = none
  get_elem? (x ∷ xs) zero = some x
  get_elem? (x ∷ xs) (suc i) = get_elem? xs i

-- `parts.resize(total_parts, String::new()); parts[part_number - 1] = part_id;`
unfoldable pub record_part : List String → ℕ → ℕ → String → Option (List String)
record_part parts total_parts zero part_id = none
record_part parts total_parts (suc i) part_id = set_at i part_id (resize total_parts "" parts)

-- `parts.iter().filter(|part| !part.is_empty()).count()`
abbrev pub count_uploaded : List String → ℕ
count_uploaded parts = length (filter (λ part. not (is_empty part)) parts)

abbrev pub updated : ℕ → Option (List String) → Option (Result (Value × ℕ × ℕ) ApiError)
updated total_parts none = none
updated total_parts (some parts) = some (ok (parts_json parts, count_uploaded parts, total_parts))

unfoldable pub update_multipart_part :
    Value → ℕ → ℕ → String → Option (Result (Value × ℕ × ℕ) ApiError)
update_multipart_part value size_bytes part_number part_id = elim (parse_multipart_parts value) [
  | err e ↦ some (err e)
  | ok parts ↦
      let total_parts = multipart_part_count size_bytes in
      if ltb total_parts (length parts)
      then some (err invalid_state)
      else updated total_parts (record_part parts total_parts part_number part_id)
]

unfoldable pub normalize_multipart_part_id : String → Result String ApiError
normalize_multipart_part_id value =
    let trimmed = trim value in
    if is_empty trimmed || ltb 1024 (len trimmed) || any is_control (codes trimmed)
    then err (api_error 400 "INVALID_MULTIPART_PART_ID" "multipart part id is invalid")
    else ok trimmed

-- The text behind the last `/` or `\`, where there is one.
unfoldable pub after_separator : String → Option String
after_separator String.[] = none
after_separator (String.◌∷◌ c s) =
    let rest = after_separator s in
    elim rest [
      | some t ↦ some t
      | none ↦ if eqb (code c) b'/' || eqb (code c) 92 then some s else none
    ]

-- `value.rsplit(['/', '\\']).next().unwrap_or(value)`
abbrev pub last_segment : String → String
last_segment value = elim (after_separator value) [ none ↦ value | some t ↦ t ]

unfoldable pub normalize_attachment_file_name : Option String → Result (Option String) ApiError
unfolding after_separator
normalize_attachment_file_name none = ok none
normalize_attachment_file_name (some text) =
    let value = trim text in
    if is_empty value
    then ok none
    else if ltb 255 (len (last_segment value))
    then err (
        api_error 400 "INVALID_ATTACHMENT_FILE_NAME"
          "attachment file name must not exceed 255 bytes")
    else ok (some (last_segment value))

collect_texts-strings : (parts : List String) → collect_texts (map string parts) ≡ ok parts
unfolding collect_texts
collect_texts-strings [] = refl
collect_texts-strings (p ∷ ps) = rw (collect_texts-strings ps) refl

-- What is written as JSON is read back.
pub parse-parts_json : (parts : List String) → parse_multipart_parts (parts_json parts) ≡ ok parts
unfolding parse_multipart_parts
parse-parts_json parts = rw (items-of_items (map string parts)) (collect_texts-strings parts)

module _ {ℓ} {A : Type ℓ} where
  pub length-resize : (n : ℕ) (fill : A) (xs : List A) → length (resize n fill xs) ≡ n
  unfolding resize
  length-resize zero fill xs = refl
  length-resize (suc n) fill [] = ap suc (length-resize n fill [])
  length-resize (suc n) fill (x ∷ xs) = ap suc (length-resize n fill xs)

  -- What `xs[i] = a` leaves.
  pub record IsSetAt (i : ℕ) (a : A) (xs ys : List A) : Type ℓ where
    pub same_length : length ys ≡ length xs
    pub at_index : get_elem? ys i ≡ some a
    pub elsewhere : (j : ℕ) → j ≢ i → get_elem? ys j ≡ get_elem? xs j

  head_elsewhere :
      (a x : A) (xs : List A) (j : ℕ) → j ≢ 0 → get_elem? (a ∷ xs) j ≡ get_elem? (x ∷ xs) j
  unfolding get_elem?
  head_elsewhere a x xs zero ne = absurd (ne refl)
  head_elsewhere a x xs (suc j) ne = refl

  tail_elsewhere :
      (i : ℕ) (x : A) (xs ys : List A)
      → ((j : ℕ) → j ≢ i → get_elem? ys j ≡ get_elem? xs j)
      → (j : ℕ) → j ≢ suc i
      → get_elem? (x ∷ ys) j ≡ get_elem? (x ∷ xs) j
  unfolding get_elem?
  tail_elsewhere i x xs ys h zero ne = refl
  tail_elsewhere i x xs ys h (suc j) ne = h j (λ e. ne (ap suc e))

  pub set_at-IsSetAt :
      (i : ℕ) (a : A) (xs : List A)
      → i < length xs
      → (ys : List A) × (set_at i a xs ≡ some ys) × IsSetAt i a xs ys
  unfolding set_at get_elem?
  set_at-IsSetAt i a [] h = absurd (omega (arith, h))
  set_at-IsSetAt zero a (x ∷ xs) h = (
    a ∷ xs,
    refl,
    record { same_length = refl; at_index = refl; elsewhere = head_elsewhere a x xs },
  )
  set_at-IsSetAt (suc i) a (x ∷ xs) h =
      let (ys, done, is) = set_at-IsSetAt i a xs (omega arith) in
      (
        x ∷ ys,
        rw done refl,
        record {
          same_length = ap suc is.same_length;
          at_index = is.at_index;
          elsewhere = tail_elsewhere i x xs ys is.elsewhere;
        },
      )

  get_elem-resize_old :
      (n : ℕ) (fill : A) (xs : List A) (j : ℕ)
      → length xs ≤ n
      → j < length xs
      → get_elem? (resize n fill xs) j ≡ get_elem? xs j
  unfolding get_elem? resize
  get_elem-resize_old n fill [] j fits h = absurd (omega (arith, h))
  get_elem-resize_old zero fill (x ∷ xs) j fits h = absurd (omega (arith, fits))
  get_elem-resize_old (suc n) fill (x ∷ xs) zero fits h = refl
  get_elem-resize_old (suc n) fill (x ∷ xs) (suc j) fits h =
      get_elem-resize_old n fill xs j (omega arith) (omega arith)

-- `ys` is `parts` with the part `part_number` recorded: as long as the plan, with the new id in its
-- place and every other id kept.
pub record IsRecorded (parts ys : List String) (total_parts part_number : ℕ) (part_id : String)
    : Type 0 where
  pub planned : length ys ≡ total_parts
  pub recorded : (i : ℕ) → suc i ≡ part_number → get_elem? ys i ≡ some part_id
  pub kept : (i : ℕ) → i < length parts → suc i ≢ part_number → get_elem? ys i ≡ get_elem? parts i

-- No panic for a part number of the plan.
pub record_part-IsRecorded :
    (parts : List String) (total_parts part_number : ℕ) (part_id : String)
    → length parts ≤ total_parts
    → 0 < part_number
    → part_number ≤ total_parts
    → (ys : List String) × (record_part parts total_parts part_number part_id ≡ some ys)
      × IsRecorded parts ys total_parts part_number part_id
unfolding record_part
record_part-IsRecorded parts total_parts zero part_id fits first last =
    absurd (omega (arith, first))
record_part-IsRecorded parts total_parts (suc i) part_id fits first last =
    let full = length-resize total_parts "" parts in
    let (ys, done, is) =
      set_at-IsSetAt i part_id (resize total_parts "" parts) (rw full (omega arith)) in
    (
      ys,
      done,
      record {
        planned = is.same_length ∙ full;
        recorded = λ j e. let same : j ≡ i = omega arith in rw same is.at_index;
        kept = λ j old ne.
            is.elsewhere j (λ e. ne (ap suc e))
            ∙ get_elem-resize_old total_parts "" parts j fits old;
      },
    )

-- On the parts of a plan, for a part number of the plan, `update_multipart_part` does not panic: it
-- records the id in its place, keeps the others, and counts the parts that have arrived.
pub update_multipart_part-records :
    (parts : List String) (size part_number : ℕ) (part_id : String)
    → length parts ≤ multipart_part_count size
    → 0 < part_number
    → part_number ≤ multipart_part_count size
    → (ys : List String) × (update_multipart_part (parts_json parts) size part_number part_id
        ≡ some (ok (parts_json ys, count_uploaded ys, multipart_part_count size)))
      × IsRecorded parts ys (multipart_part_count size) part_number part_id
unfolding update_multipart_part
update_multipart_part-records parts size part_number part_id fits first last =
    let (ys, done, is) = record_part-IsRecorded parts _ part_number part_id fits first last in
    let room : ltb (multipart_part_count size) (length parts) ≡ false = ground arith in
    (ys, rw (parse-parts_json parts, room, done, update_multipart_part) refl, is)
