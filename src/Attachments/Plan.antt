-- ===== src/Attachments/Plan.antt =====
-- How an upload is cut into parts: `should_use_multipart`, `multipart_part_count`,
-- `multipart_part_length` and the checks of a part of server/src/transport/http/commercial.rs.
-- Values of `u64` and `usize` are numbers; `as_u64` is the cast from `i64`.
use ledgerly.Prelude.{
  ℕ, zero, suc, ◌+◌, ◌-◌, ◌*◌, ◌/◌, ◌%◌, ◌^◌, ◌≤◌, ◌<◌, ◌≡◌, refl, inl, inr, ◌⊎◌, String, Bool,
  false, not, ◌||◌, Option, none, some, ltb, eqb, ◌==◌, if◌then◌else◌, Result, ok_or, refuse_if,
  ◌>>=◌, ◌>>◌, arith, Bool-cases,
}
use ledgerly.Prelude.Int.{ℤ, pos, leb_ℤ, ltb_ℤ, residue}
use ledgerly.ApiError.{ApiError, api_error}

-- `ObjectStoreBackend`
pub data ObjectStoreBackend : Type 0 where
  local : ObjectStoreBackend
  s3 : ObjectStoreBackend

-- The fields of `Config` that the attachments use.
pub record Config : Type 0 where
  pub object_storage_backend : ObjectStoreBackend
  pub attachment_max_bytes : ℕ

-- `size as u64`
abbrev pub as_u64 : ℤ → ℕ
as_u64 size = residue (2 ^ 64) size

abbrev pub multipart_part_size_bytes : ℕ
multipart_part_size_bytes = 5 * 1024 * 1024

abbrev pub multipart_threshold : ObjectStoreBackend → ℕ
multipart_threshold local = 7 * 1024 * 1024
multipart_threshold s3 = 64 * 1024 * 1024

unfoldable pub should_use_multipart : Config → Option ℤ → Bool
should_use_multipart config none = false
should_use_multipart config (some size) =
    ltb_ℤ (pos (multipart_threshold config.object_storage_backend)) size

-- `size_bytes.div_ceil(MULTIPART_PART_SIZE_BYTES)`
unfoldable pub multipart_part_count : ℕ → ℕ
multipart_part_count size_bytes =
    if ltb 0 (size_bytes % multipart_part_size_bytes)
    then size_bytes / multipart_part_size_bytes + 1
    else size_bytes / multipart_part_size_bytes

unfoldable pub multipart_part_length : ℕ → ℕ → Option ℕ
unfolding multipart_part_count
multipart_part_length size_bytes part_number =
    let total_parts = multipart_part_count size_bytes in
    if eqb part_number 0 || ltb total_parts part_number
    then none
    else if ltb part_number total_parts
    then some multipart_part_size_bytes
    else some (size_bytes - (total_parts - 1) * multipart_part_size_bytes)

-- `size_bytes.filter(|size| *size >= 0)`
abbrev pub filter_nonnegative : Option ℤ → Option ℤ
filter_nonnegative none = none
filter_nonnegative (some size) = if leb_ℤ (pos 0) size then some size else none

abbrev pub not_pending : ApiError
not_pending = api_error 409 "MULTIPART_NOT_PENDING" "attachment is not pending multipart upload"

abbrev pub invalid_size : ApiError
invalid_size = api_error 400 "INVALID_MULTIPART_STATE" "multipart upload size is invalid"

abbrev pub out_of_range : ApiError
out_of_range = api_error 400 "INVALID_MULTIPART_PART" "multipart part number is out of range"

unfoldable pub validate_multipart_part_plan : String → String → Option ℤ → ℕ → Result ℕ ApiError
unfolding multipart_part_length
validate_multipart_part_plan upload_mode upload_status size_bytes part_number = do
  refuse_if (not (upload_mode == "multipart") || not (upload_status == "pending")) not_pending
  size ← ok_or (filter_nonnegative size_bytes) invalid_size
  ok_or (multipart_part_length (as_u64 size) part_number) out_of_range

unfoldable pub validate_multipart_part :
    String → String → Option ℤ → ℕ → ℕ → Result (Unit {0}) ApiError
unfolding validate_multipart_part_plan
validate_multipart_part upload_mode upload_status size_bytes part_number actual_length = do
  expected ← validate_multipart_part_plan upload_mode upload_status size_bytes part_number
  refuse_if (not (eqb actual_length expected)) (
      api_error 422 "INVALID_MULTIPART_PART_SIZE"
        "multipart part size does not match the upload plan")

-- The lengths of the parts 1, 2, .. `n` added up.
unfoldable pub planned_length : ℕ → ℕ → ℕ
planned_length size_bytes zero = 0
planned_length size_bytes (suc n) =
    planned_length size_bytes n
    + elim (multipart_part_length size_bytes (suc n)) [ none ↦ 0 | some l ↦ l ]

count_bounds :
    (size : ℕ)
    → (size ≤ multipart_part_count size * multipart_part_size_bytes)
      × (multipart_part_count size * multipart_part_size_bytes < size + multipart_part_size_bytes)
unfolding multipart_part_count
count_bounds size = (ground arith, ground arith)

inner_length :
    (size n : ℕ)
    → suc n < multipart_part_count size
    → multipart_part_length size (suc n) ≡ some multipart_part_size_bytes
unfolding multipart_part_length
inner_length size n h = ground arith

last_length :
    (size n : ℕ)
    → suc n ≡ multipart_part_count size
    → multipart_part_length size (suc n) ≡ some (size - n * multipart_part_size_bytes)
unfolding multipart_part_length
last_length size n h = ground arith

planned_inner :
    (size n : ℕ)
    → n < multipart_part_count size
    → planned_length size n ≡ n * multipart_part_size_bytes
unfolding planned_length
planned_inner size zero h = refl
planned_inner size (suc n) h =
    rw (inner_length size n h, planned_inner size n (omega arith)) (omega arith)

planned_last : (size n : ℕ) → n ≡ multipart_part_count size → planned_length size n ≡ size
unfolding planned_length
planned_last size zero h = omega (arith, count_bounds size)
planned_last size (suc n) h =
    rw (last_length size n h, planned_inner size n (omega arith)) (omega (arith, count_bounds size))

planned_length-total : (size : ℕ) → planned_length size (multipart_part_count size) ≡ size
planned_length-total size = planned_last size _ refl

-- What `multipart_part_length` may answer.
abbrev pub IsPartLength : ℕ → ℕ → Option ℕ → Type 0
IsPartLength size n none = (n ≡ 0) ⊎ (multipart_part_count size < n)
IsPartLength size n (some l) =
    (0 < n) × (n ≤ multipart_part_count size) × (0 < l) × (l ≤ multipart_part_size_bytes)

pub multipart_part_length-bounds : (size n : ℕ) → IsPartLength size n (multipart_part_length size n)
unfolding multipart_part_length
multipart_part_length-bounds size n =
    let b = count_bounds size in
    elim (Bool-cases (eqb n 0)) [
      | inl e ↦ rw e (inl (ground arith))
      | inr e ↦ elim (Bool-cases (ltb (multipart_part_count size) n)) [
        | inl f ↦ rw (e, f) (inr (ground arith))
        | inr f ↦ elim (Bool-cases (ltb n (multipart_part_count size))) [
          | inl g ↦ rw (e, f, g) (ground arith, ground arith, omega arith, omega arith)
          | inr g ↦ rw (e, f, g) (ground arith, ground arith, ground arith, ground arith)
        ]
      ]
    ]

-- The parts of an upload add up to its size. A part has a length exactly when its number is from 1 to
-- the number of parts, and then it has at least one byte and no more than 5 MiB.
pub multipart_part_length-plan :
    (size : ℕ)
    → (planned_length size (multipart_part_count size) ≡ size)
      × ((n : ℕ) → IsPartLength size n (multipart_part_length size n))
multipart_part_length-plan size = (planned_length-total size, multipart_part_length-bounds size)
