-- ===== src/Reports/Months/Arithmetic.antt =====
-- On the loop of `subtract_months` and on `month_after`, of server/src/transport/http/reports.rs.
use ledgerly.Prelude.{
  ℕ, zero, suc, ◌+◌, ◌-◌, ◌*◌, ◌≤◌, ◌<◌, ◌≡◌, ap, ◌∙◌, inl, inr, eqb, Bool-cases, arith,
}
use ledgerly.Prelude.Int.{ℤ, ◌-ℤ◌, ◌+ℤ◌, wrap, wrap_of_Fits}
use ledgerly.Prelude.Int
use ledgerly.Reports.Months.{i32_half, month_before, months_before}

-- Months from the year 0 on, for a year that is not negative and a month from 1 to 12.
abbrev pub IsMonth : ℕ → ℤ × ℕ → Type 0
IsMonth count m =
    (y : ℕ) × (m.0 ≡ Int.pos y) × (y < i32_half) × (1 ≤ m.1) × (m.1 ≤ 12) × (count ≡ 12 * y + m.1)

year_before : (y : ℕ) → suc y < i32_half → wrap i32_half (Int.pos (suc y) -ℤ Int.pos 1) ≡ Int.pos y
unfolding ◌-ℤ◌
year_before y fits =
    let same : Int.pos (suc y) -ℤ Int.pos 1 ≡ Int.pos y = ground arith in
    rw same (wrap_of_Fits i32_half (Int.pos y) (omega arith, omega arith))

month_before-IsMonth :
    (count : ℕ) (m : ℤ × ℕ) → 12 < count → IsMonth count m → IsMonth (count - 1) (month_before m)
unfolding month_before
month_before-IsMonth count (year, month) later (zero, is, fits, low, high, counted) =
    absurd (omega (arith, counted, high))
month_before-IsMonth count (year, month) later (suc y, is, fits, low, high, counted) =
    elim (Bool-cases (eqb month 1)) [
      | inl e ↦
          let back = ap (λ a. wrap i32_half (a -ℤ Int.pos 1)) is ∙ year_before y fits in
          rw e (y, back, omega arith, omega arith, omega arith, ground arith)
      | inr e ↦ rw e (suc y, is, fits, ground arith, ground arith, ground arith)
    ]

-- `subtract_months` goes back month by month over the turns of the years: from a month of a year
-- from 0 on, `n` months back is the month `n` places earlier, if that is no month before the year 0.
pub months_before-IsMonth :
    (n count : ℕ) (m : ℤ × ℕ)
    → n + 12 < count
    → IsMonth count m
    → IsMonth (count - n) (months_before n m)
unfolding months_before
months_before-IsMonth zero count m later is =
    let same : count - 0 ≡ count = omega arith in rw same is
months_before-IsMonth (suc n) count m later is =
    let first = month_before-IsMonth count m (omega arith) is in
    let rest = months_before-IsMonth n (count - 1) (month_before m) (omega arith) first in
    let same : count - suc n ≡ count - 1 - n = omega arith in rw same rest
