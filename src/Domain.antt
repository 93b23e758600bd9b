-- ===== src/Domain.antt =====
-- Double-entry rules: server/crates/ledger-domain/src/lib.rs.
-- `Money::new` and `validate_balanced`, with the sum of the amounts in `i128`.
pub mod Balance
use Prim.Native.String.{len}
use ledgerly.Prelude.{
  ℕ, String, Bool, true, false, not, ◌&&◌, ◌||◌, List, [], ◌∷◌, ◌==◌, ltb, eqb, length,
  if◌then◌else◌, Result, ok, err, ◌>>=◌, ◌>>◌, refuse_if,
}
use ledgerly.Prelude.Int.{ℤ, pos, negsuc, ltb_ℤ, eqb_ℤ, add_i128, i64_half}
use ledgerly.Text.{all_chars, is_ascii_uppercase}

pub data DomainError : Type 0 where
  zero_amount invalid_currency amount_out_of_range : DomainError
  too_few_entries unbalanced currency_mismatch : DomainError

pub record Money : Type 0 where
  pub amount_minor : ℤ
  pub currency : String

pub record EntryDraft : Type 0 where
  pub account_id : String
  pub amount_minor : ℤ
  pub currency : String

-- `currency.len() == 3 && currency.chars().all(|c| c.is_ascii_uppercase())`
unfoldable pub is_currency : String → Bool
is_currency s = eqb (len s) 3 && all_chars is_ascii_uppercase s

abbrev pub i64_min : ℤ
i64_min = negsuc 9223372036854775807

abbrev pub i64_max : ℤ
i64_max = pos 9223372036854775807

-- `Money::new`
unfoldable pub new_money : ℤ → String → Result Money DomainError
new_money amount_minor currency =
    if eqb_ℤ amount_minor (pos 0)
    then err zero_amount
    else if not (is_currency currency)
    then err invalid_currency
    else if ltb_ℤ amount_minor i64_min || ltb_ℤ i64_max amount_minor
    then err amount_out_of_range
    else ok (record { amount_minor = amount_minor; currency = currency })

-- The loop of `validate_balanced`, with the running sum.
unfoldable pub sum_entries : String → ℤ → List EntryDraft → Result ℤ DomainError
sum_entries currency sum [] = ok sum
sum_entries currency sum (e ∷ es) =
    if not (e.currency == currency)
    then err currency_mismatch
    else new_money e.amount_minor e.currency
      >> sum_entries currency (add_i128 sum e.amount_minor) es

unfoldable pub finish_sum : Result ℤ DomainError → Result (Unit {0}) DomainError
finish_sum (err e) = err e
finish_sum (ok sum) = if eqb_ℤ sum (pos 0) then ok tt else err unbalanced

unfoldable pub validate_balanced : List EntryDraft → Result (Unit {0}) DomainError
unfolding finish_sum
validate_balanced [] = err too_few_entries
validate_balanced (e ∷ []) = err too_few_entries
validate_balanced (e ∷ f ∷ es) = finish_sum (sum_entries e.currency (pos 0) (e ∷ f ∷ es))
