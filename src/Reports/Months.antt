-- ===== src/Reports/Months.antt =====
-- The months of server/src/transport/http/reports.rs: `parse_month`, `month_range`, `subtract_months`,
-- `trend` and `budget` without a database.
pub mod Arithmetic
pub mod Periods
use ledgerly.Prelude.{
  ℕ, zero, suc, ◌+◌, ◌-◌, ◌^◌, String, Bool, true, false, not, ◌&&◌, ◌||◌, List, [], ◌∷◌, ◌++◌,
  Option, none, some, map, filter, ltb, leb, eqb, ◌==◌, if◌then◌else◌, Result, ok, err, ok_or,
  refuse_if, ◌>>=◌, ◌>>◌, string_eq,
}
use ledgerly.Prelude.Int.{ℤ, pos, ltb_ℤ, add_i64, sub_i64, wrap, ◌+ℤ◌, ◌-ℤ◌}
use ledgerly.Prelude.Dict.{Dict, lookup, values}
use ledgerly.Json.{Value, string, number, array, object, of_fields, of_items, get, get_str}
use ledgerly.Text.{parse_int, parse_u8, split, to_string, is_less}
use ledgerly.ApiError.{ApiError, api_error}
use ledgerly.State.{Calendar, MemoryStore, TxRecord, AccountRecord, ChangeRecord}
use ledgerly.Authz.{require_book_member, require_plan}

abbrev pub i32_half : ℕ
i32_half = 2 ^ 31

abbrev pub invalid_month : String → ApiError
invalid_month message = api_error 400 "INVALID_MONTH" message

-- `s.parse::<i32>()` of the year and `s.parse::<u8>()` of the month, and the check of its range.
unfoldable pub year_and_month : String → String → Result (ℤ × ℕ) ApiError
year_and_month year_text month_text = do
  year ← ok_or (parse_int i32_half year_text) (invalid_month "invalid year")
  month ← ok_or (parse_u8 month_text) (invalid_month "invalid month")
  refuse_if (not (leb 1 month && leb month 12)) (invalid_month "month must be 01-12")
  ok (year, month)

unfoldable pub month_parts : List String → Result (ℤ × ℕ) ApiError
unfolding year_and_month
month_parts (year ∷ month ∷ []) = year_and_month year month
month_parts parts = err (invalid_month "month must be in YYYY-MM format")

-- One turn of the loop of `subtract_months`.
unfoldable pub month_before : ℤ × ℕ → ℤ × ℕ
month_before (year, month) =
    if eqb month 1 then (wrap i32_half (year -ℤ pos 1), 12) else (year, month - 1)

-- The loop of `subtract_months`.
unfoldable pub months_before : ℕ → ℤ × ℕ → ℤ × ℕ
unfolding month_before
months_before zero m = m
months_before (suc n) m = months_before n (month_before m)

-- The month behind.
unfoldable pub month_after : ℤ × ℕ → ℤ × ℕ
month_after (year, month) =
    if eqb month 12 then (wrap i32_half (year +ℤ pos 1), 1) else (year, month + 1)

module _ {T : Type 0} (calendar : Calendar T) where
  unfoldable pub parse_month : T → Option String → Result (ℤ × ℕ) ApiError
  unfolding month_parts
  parse_month now none = ok (calendar.year now, calendar.month now)
  parse_month now (some s) =
      if s == "current"
      then ok (calendar.year now, calendar.month now)
      else month_parts (split b'-' s)

  unfoldable pub month_range : ℤ × ℕ → Option (T × T)
  unfolding month_after
  month_range m =
      let next = month_after m in
      elim (calendar.first_of_month m.0 m.1) [
        | none ↦ none
        | some start ↦ elim (calendar.first_of_month next.0 next.1) [
          | none ↦ none
          | some end ↦ some (start, end)
        ]
      ]

  unfoldable pub subtract_months : T → ℕ → Option T
  unfolding months_before
  subtract_months date n =
      let m = months_before n (calendar.year date, calendar.month date) in
      calendar.first_of_month m.0 m.1

  -- The transactions that the loops of `trend_mem` and `budget_mem` do not skip.
  unfoldable pub in_period : String → T → T → TxRecord T → Bool
  in_period book_id start end tx =
      not (not (tx.book_id == book_id) || tx.deleted)
      && not
          (calendar.is_before tx.occurred_at start || not (calendar.is_before tx.occurred_at end))
