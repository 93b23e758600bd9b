-- ===== src/Text/RoundTrip.antt =====
-- Printing an integer (`to_string`) and parsing the text again (`parse`).
use Prim.Native.Char.{code}
use ledgerly.Prelude.{
  ℕ, zero, suc, ◌+◌, ◌/◌, ◌%◌, ◌<◌, String, false, some, ◌≡◌, ◌∙◌, refl, inl, inr, Bool-cases,
  arith,
}
use ledgerly.Prelude.Int.{ℤ, pos, negsuc, Fits}
use ledgerly.Text.{
  digits, zeros, to_string_padded, is_empty, has_char, has_dots, all_chars, is_ascii_digit,
  digit_char, show_digits, to_string, parse_int, magnitude, below_half, down_to_half,
}

code-digit_char : (d : ℕ) → d < 10 → code (digit_char d) ≡ 48 + d
unfolding digit_char
code-digit_char zero h = refl
code-digit_char (suc zero) h = refl
code-digit_char (suc (suc zero)) h = refl
code-digit_char (suc (suc (suc zero))) h = refl
code-digit_char (suc (suc (suc (suc zero)))) h = refl
code-digit_char (suc (suc (suc (suc (suc zero))))) h = refl
code-digit_char (suc (suc (suc (suc (suc (suc zero)))))) h = refl
code-digit_char (suc (suc (suc (suc (suc (suc (suc zero))))))) h = refl
code-digit_char (suc (suc (suc (suc (suc (suc (suc (suc zero)))))))) h = refl
code-digit_char (suc (suc (suc (suc (suc (suc (suc (suc (suc zero))))))))) h = refl
code-digit_char (suc (suc (suc (suc (suc (suc (suc (suc (suc (suc d)))))))))) h =
    absurd (omega arith)

digits-show_digits :
    (f n : ℕ) (out : String) → n < f → digits 0 (show_digits f n out) ≡ digits n out
unfolding digits show_digits
digits-show_digits zero n out h = absurd (omega arith)
digits-show_digits (suc f) n out h = ground (
  arith,
  code-digit_char n,
  code-digit_char (n % 10),
  digits-show_digits f (n / 10) (String.◌∷◌ (digit_char (n % 10)) out),
)

-- The printed digits are never empty, and never begin with a sign.
parse_int-show_digits :
    (half f n : ℕ) (out : String)
    → (parse_int half (show_digits (suc f) n out)
        ≡ below_half half (digits 0 (show_digits (suc f) n out)))
      × (magnitude (show_digits (suc f) n out) ≡ digits 0 (show_digits (suc f) n out))
unfolding parse_int show_digits
parse_int-show_digits half zero n out = ground (arith, code-digit_char n, code-digit_char (n % 10))
parse_int-show_digits half (suc f) n out = ground (
  arith,
  code-digit_char n,
  parse_int-show_digits half f (n / 10) (String.◌∷◌ (digit_char (n % 10)) out),
)

parse_int-to_string_neg :
    (half n : ℕ) → n < half → parse_int half (to_string (negsuc n)) ≡ some (negsuc n)
unfolding to_string parse_int digits down_to_half
parse_int-to_string_neg half n h = ground (
  arith,
  parse_int-show_digits half (suc n) (suc n) "",
  digits-show_digits (suc (suc n)) (suc n) "",
)

-- Every integer in range is read back from its text.
pub parse_int-to_string : (half : ℕ) (a : ℤ) → Fits half a → parse_int half (to_string a) ≡ some a
unfolding to_string digits below_half
parse_int-to_string half (pos n) h =
    ground (arith, parse_int-show_digits half n n "", digits-show_digits (suc n) n "")
parse_int-to_string half (negsuc n) h = parse_int-to_string_neg half n (omega arith)

magnitude-to_string : (n : ℕ) → magnitude (to_string (pos n)) ≡ some n
unfolding to_string digits
magnitude-to_string n =
    ground (arith, parse_int-show_digits 1 n n "", digits-show_digits (suc n) n "")

magnitude_inv :
    (s : String) (n : ℕ) → magnitude s ≡ some n → (digits 0 s ≡ some n) × (is_empty s ≡ false)
unfolding magnitude
magnitude_inv String.[] n h = absurd (cc)
magnitude_inv (String.◌∷◌ c s) n h = (h, refl)

digits-zeros : (k : ℕ) (s : String) → digits 0 (zeros k s) ≡ digits 0 s
unfolding digits zeros
digits-zeros zero s = refl
digits-zeros (suc k) s = digits-zeros k s

is_empty-zeros : (k : ℕ) (s : String) → is_empty s ≡ false → is_empty (zeros k s) ≡ false
unfolding zeros
is_empty-zeros zero s h = h
is_empty-zeros (suc k) s h = refl

-- A padded number is read back, and is no empty text.
pub digits-padded :
    (width n : ℕ)
    → (digits 0 (to_string_padded width n) ≡ some n) × (is_empty (to_string_padded width n) ≡ false)
unfolding to_string_padded
digits-padded width n =
    let (read, full) = magnitude_inv _ n (magnitude-to_string n) in
    (digits-zeros _ _ ∙ read, is_empty-zeros _ _ full)

-- A text that reads as a number has no other characters than digits.
pub has_char-digits :
    (c n : ℕ) (s : String) (acc : ℕ)
    → is_ascii_digit c ≡ false
    → digits acc s ≡ some n
    → has_char c s ≡ false
unfolding digits all_chars
has_char-digits c n String.[] acc other h = refl
has_char-digits c n (String.◌∷◌ d s) acc other h = elim (Bool-cases (is_ascii_digit (code d))) [
  | inr e ↦ absurd (cc (rw (e, digits) at h))
  | inl e ↦
      let rest = has_char-digits c n s _ other (rw (e, digits) at h) in
      ground (arith, rest, e, other)
]

pub has_dots-digits : (n : ℕ) (s : String) (acc : ℕ) → digits acc s ≡ some n → has_dots s ≡ false
unfolding digits has_dots
has_dots-digits n String.[] acc h = refl
has_dots-digits n (String.◌∷◌ d s) acc h = elim (Bool-cases (is_ascii_digit (code d))) [
  | inr e ↦ absurd (cc (rw (e, digits) at h))
  | inl e ↦ let rest = has_dots-digits n s _ (rw (e, digits) at h) in ground (arith, rest, e)
]
