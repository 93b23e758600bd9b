-- ===== src/Attachments/Checks.antt =====
-- What the checks of a part let through, of server/src/transport/http/commercial.rs.
use ledgerly.Prelude.{
  ℕ, ◌≤◌, ◌<◌, ◌≡◌, String, not, ◌||◌, ◌==◌, List, Option, none, some, length, eqb, ok, ok_or_inv,
  refuse_if, refuse_if_inv, ok_or, bind_inv, arith, eq_iff, string_eq,
}
use ledgerly.Prelude.Int.{ℤ, pos, negsuc, as_i64, wrap}
use ledgerly.State.{MemoryStore, AttachmentRecord}
use ledgerly.Authz.{require_book_member, require_plan}
use ledgerly.Attachments.Plan.{
  Config, not_pending, invalid_size, out_of_range, as_u64, filter_nonnegative, multipart_part_count,
  multipart_part_length, multipart_part_length-bounds, validate_multipart_part_plan,
  validate_multipart_part,
}
use ledgerly.Attachments.Parts.{normalize_multipart_part_id}
use ledgerly.Attachments.Objects.{attachment_missing, find_attachment}
use ledgerly.Attachments.Steps.{entitled_found}
use ledgerly.Attachments.Upload.{
  size_or_zero, empty_part, direct_unavailable, entitled_attachment, checked_part,
  checked_direct_part, pending_attachment, is_s3,
}

nonnegative_inv : (size : Option ℤ) (n : ℤ) → filter_nonnegative size ≡ some n → size ≡ some n
nonnegative_inv none n h = absurd (cc)
nonnegative_inv (some m) n h = ground arith

-- `size as u64 as i64 as u64`
cast_back : (a : ℤ) → as_u64 (as_i64 (pos (as_u64 a))) ≡ as_u64 a
unfolding wrap
cast_back (pos n) = ground arith
cast_back (negsuc n) = ground arith

-- A part of an upload of `size` bytes is expected.
pub record IsExpected (mode status : String) (size part_number expected : ℕ) : Type 0 where
  pub is_multipart : mode ≡ "multipart"
  pub is_pending : status ≡ "pending"
  pub has_length : multipart_part_length size part_number ≡ some expected

pub plan_inv :
    (mode status : String) (size : Option ℤ) (part_number expected : ℕ)
    → validate_multipart_part_plan mode status size part_number ≡ ok expected
    → IsExpected mode status (as_u64 (size_or_zero size)) part_number expected
unfolding validate_multipart_part_plan
plan_inv mode status size part_number expected h =
    let (u, guard, h) =
      bind_inv (refuse_if (not (mode == "multipart") || not (status == "pending")) not_pending) _
        expected h in
    let (n, read, h) = bind_inv (ok_or (filter_nonnegative size) invalid_size) _ expected h in
    let off = refuse_if_inv _ not_pending u guard in
    let known = nonnegative_inv size n (ok_or_inv _ invalid_size n read) in
    record {
      is_multipart = ground (arith, eq_iff mode "multipart");
      is_pending = ground (arith, eq_iff status "pending");
      has_length = rw known (ok_or_inv _ out_of_range expected h);
    }

pub IsExpected-in_range :
    {mode status : String} {size part_number expected : ℕ}
    → IsExpected mode status size part_number expected
    → (0 < part_number) × (part_number ≤ multipart_part_count size)
IsExpected-in_range {size = size} {part_number = n} is =
    let b = rw is.has_length at (multipart_part_length-bounds size n) in (b.0, b.1)

pub part_inv :
    (mode status : String) (size : Option ℤ) (part_number actual : ℕ)
    → validate_multipart_part mode status size part_number actual ≡ ok tt
    → IsExpected mode status (as_u64 (size_or_zero size)) part_number actual
unfolding validate_multipart_part
part_inv mode status size part_number actual h =
    let (expected, plan, h) =
      bind_inv (validate_multipart_part_plan mode status size part_number) _ tt h in
    let off = refuse_if_inv (not (eqb actual expected)) _ tt h in
    let same : expected ≡ actual = ground arith in
    plan_inv mode status size part_number actual (rw same at plan)

module _ {T : Type 0} where
  pub checked_part_inv :
      (s : MemoryStore T) (user_id book_id attachment_id : String) (part_number : ℕ) (body : List ℕ)
      (r : AttachmentRecord T)
      → checked_part s user_id book_id attachment_id part_number body ≡ ok r
      → (find_attachment s book_id attachment_id ≡ some r)
        × IsExpected r.upload_mode r.upload_status
            (as_u64 (size_or_zero r.size_bytes))
            part_number
            (length body)
  unfolding checked_part
  checked_part_inv s user_id book_id attachment_id part_number body r h =
      let (u, member, h) = bind_inv (require_book_member s user_id book_id) _ r h in
      let (plan, paid, h) = bind_inv (require_plan s user_id "plus") _ r h in
      let (v, nonempty, h) = bind_inv (refuse_if (eqb (length body) 0) empty_part) _ r h in
      let (a, read, h) =
        bind_inv (ok_or (find_attachment s book_id attachment_id) attachment_missing) _ r h in
      let (w, valid, h) =
        bind_inv
          (validate_multipart_part a.upload_mode a.upload_status
            (some (as_i64 (pos (as_u64 (size_or_zero a.size_bytes))))) part_number (length body))
          _ r h in
      let same : a ≡ r = ground arith in
      let found = ok_or_inv (find_attachment s book_id attachment_id) attachment_missing a read in
      let is =
        rw (cast_back (size_or_zero a.size_bytes)) at
          (part_inv a.upload_mode a.upload_status _ part_number (length body) valid) in
      (rw same at found, rw same at is)

  pub checked_direct_part_inv :
      (s : MemoryStore T) (config : Config) (user_id book_id attachment_id : String)
      (part_number : ℕ) (req_part_id : String) (r : AttachmentRecord T) (part_id : String)
      → checked_direct_part s config user_id book_id attachment_id part_number req_part_id
        ≡ ok (r, part_id)
      → (find_attachment s book_id attachment_id ≡ some r)
        × (l : ℕ) × IsExpected r.upload_mode r.upload_status
            (as_u64 (size_or_zero r.size_bytes))
            part_number
            l
  unfolding checked_direct_part
  checked_direct_part_inv s config user_id book_id attachment_id part_number req_part_id r part_id
        h =
      let (u, member, h) = bind_inv (require_book_member s user_id book_id) _ (r, part_id) h in
      let (plan, paid, h) = bind_inv (require_plan s user_id "plus") _ (r, part_id) h in
      let (v, direct, h) =
        bind_inv (refuse_if (not (is_s3 config.object_storage_backend)) direct_unavailable) _
          (r, part_id) h in
      let (p, read_id, h) = bind_inv (normalize_multipart_part_id req_part_id) _ (r, part_id) h in
      let (a, read, h) =
        bind_inv (ok_or (find_attachment s book_id attachment_id) attachment_missing) _ (r, part_id)
          h in
      let (l, valid, h) =
        bind_inv
          (validate_multipart_part_plan a.upload_mode a.upload_status a.size_bytes part_number) _
          (r, part_id) h in
      let same : a ≡ r = ground arith in
      let found = ok_or_inv (find_attachment s book_id attachment_id) attachment_missing a read in
      let is = plan_inv a.upload_mode a.upload_status a.size_bytes part_number l valid in
      (rw same at found, l, rw same at is)

  pub pending_attachment_inv :
      (s : MemoryStore T) (user_id book_id attachment_id : String) (r : AttachmentRecord T)
      → pending_attachment s user_id book_id attachment_id ≡ ok r
      → find_attachment s book_id attachment_id ≡ some r
  unfolding pending_attachment
  pending_attachment_inv s user_id book_id attachment_id r h =
      let (a, read, h) = bind_inv (entitled_attachment s user_id book_id attachment_id) _ r h in
      let (u, guard, h) =
        bind_inv
          (refuse_if (not (a.upload_mode == "multipart") || not (a.upload_status == "pending"))
            not_pending)
          _ r h in
      let same : a ≡ r = ground arith in
      rw same at (entitled_found s user_id book_id attachment_id a read)
