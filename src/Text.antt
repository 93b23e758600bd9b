-- ===== src/Text.antt =====
-- What the program uses of Rust's `str` and of `FromStr` and `Display` for integers: `trim`, `strip_prefix`,
-- `starts_with`, `chars().all(..)`, ASCII classes, `parse::<i64>()`, `parse::<i128>()` and `to_string()`.
-- Its own text helpers model server/src/transport/http/sync.rs and auth.rs.
pub mod RoundTrip
use Prim.Native.Char.{Char, code}
use Prim.Native.String.{count, len, ◌++◌ as ◌++ˢ◌}
use text.Mathlib.Text.{starts_with}
use ledgerly.Prelude.{
  ℕ, zero, suc, ◌+◌, ◌-◌, ◌*◌, ◌/◌, ◌%◌, String, Bool, true, false, not, ◌&&◌, ◌||◌, List, [], ◌∷◌,
  Option, none, some, ltb, leb, eqb, if◌then◌else◌, ◌≡◌, refl,
}
use ledgerly.Prelude.Int.{ℤ, pos, negsuc, i64_half, i128_half}

-- `format!("{s}{t}")`
abbrev pub concat : String → String → String
concat s t = s ++ˢ t

-- `s < t` of texts; by code points, as by the bytes of UTF-8.
unfoldable pub is_less : String → String → Bool
is_less String.[] String.[] = false
is_less String.[] (String.◌∷◌ d t) = true
is_less (String.◌∷◌ c s) String.[] = false
is_less (String.◌∷◌ c s) (String.◌∷◌ d t) =
    let rest = is_less s t in
    if ltb (code c) (code d) then true else if ltb (code d) (code c) then false else rest

-- `s.chars().all(p)`, with `p` on code points.
unfoldable pub all_chars : (ℕ → Bool) → String → Bool
all_chars p String.[] = true
all_chars p (String.◌∷◌ c s) = p (code c) && all_chars p s

-- `s.is_empty()`
abbrev pub is_empty : String → Bool
is_empty String.[] = true
is_empty (String.◌∷◌ c s) = false

abbrev pub is_ascii_uppercase : ℕ → Bool
is_ascii_uppercase c = leb b'A' c && leb c b'Z'

abbrev pub is_ascii_digit : ℕ → Bool
is_ascii_digit c = leb b'0' c && leb c b'9'

abbrev pub is_ascii_hexdigit : ℕ → Bool
is_ascii_hexdigit c = is_ascii_digit c || (leb b'A' c && leb c b'F') || (leb b'a' c && leb c b'f')

-- `char::is_whitespace`: the code points with the Unicode property White_Space.
unfoldable pub is_whitespace : ℕ → Bool
is_whitespace c =
    (leb 9 c && leb c 13)
    || eqb c 0x20
    || eqb c 0x85
    || eqb c 0xa0
    || eqb c 0x1680
    || (leb 0x2000 c && leb c 0x200a)
    || eqb c 0x2028
    || eqb c 0x2029
    || eqb c 0x202f
    || eqb c 0x205f
    || eqb c 0x3000

trim_start : String → String
trim_start String.[] = ""
trim_start (String.◌∷◌ c s) = if is_whitespace (code c) then trim_start s else String.◌∷◌ c s

trim_end : String → String
trim_end String.[] = ""
trim_end (String.◌∷◌ c s) =
    let rest = trim_end s in
    if is_empty rest && is_whitespace (code c) then "" else String.◌∷◌ c rest

-- `s.trim()`
unfoldable pub trim : String → String
unfolding trim_start trim_end is_whitespace
trim s = trim_end (trim_start s)

-- `s.strip_prefix(p)`, the prefix first.
unfoldable pub strip_prefix : String → String → Option String
strip_prefix String.[] s = some s
strip_prefix (String.◌∷◌ c p) String.[] = none
strip_prefix (String.◌∷◌ c p) (String.◌∷◌ d s) =
    if eqb (code c) (code d) then strip_prefix p s else none

-- The value of a run of decimal digits behind those already read.
unfoldable pub digits : ℕ → String → Option ℕ
digits acc String.[] = some acc
digits acc (String.◌∷◌ c s) =
    if is_ascii_digit (code c) then digits (acc * 10 + (code c - b'0')) s else none

-- At least one digit.
unfoldable pub magnitude : String → Option ℕ
unfolding digits
magnitude String.[] = none
magnitude (String.◌∷◌ c s) = digits 0 (String.◌∷◌ c s)

unfoldable pub below_half : ℕ → Option ℕ → Option ℤ
below_half half none = none
below_half half (some n) = if ltb n half then some (pos n) else none

abbrev pub negate : ℕ → ℤ
negate zero = pos 0
negate (suc n) = negsuc n

unfoldable pub down_to_half : ℕ → Option ℕ → Option ℤ
down_to_half half none = none
down_to_half half (some n) = if leb n half then some (negate n) else none

-- An optional sign, then digits; out of range is an error as well.
unfoldable pub parse_int : ℕ → String → Option ℤ
unfolding magnitude below_half down_to_half
parse_int half String.[] = none
parse_int half (String.◌∷◌ c s) =
    if eqb (code c) b'-'
    then down_to_half half (magnitude s)
    else if eqb (code c) b'+'
    then below_half half (magnitude s)
    else below_half half (magnitude (String.◌∷◌ c s))

-- `s.parse::<i64>().ok()` and `s.parse::<i128>().ok()`
abbrev pub parse_i64 : String → Option ℤ
parse_i64 = parse_int i64_half

abbrev pub parse_i128 : String → Option ℤ
parse_i128 = parse_int i128_half

-- `s.parse::<u8>().ok()`
unfoldable pub parse_u8 : String → Option ℕ
unfolding magnitude
parse_u8 String.[] = none
parse_u8 (String.◌∷◌ c s) = elim (magnitude (if eqb (code c) b'+' then s else String.◌∷◌ c s)) [
  | none ↦ none
  | some n ↦ if ltb n 256 then some n else none
]

unfoldable pub digit_char : ℕ → Char
digit_char d =
    if eqb d 0
    then "0"
    else if eqb d 1
    then "1"
    else if eqb d 2
    then "2"
    else if eqb d 3
    then "3"
    else if eqb d 4
    then "4"
    else if eqb d 5
    then "5"
    else if eqb d 6
    then "6"
    else if eqb d 7
    then "7"
    else if eqb d 8
    then "8"
    else "9"

-- The decimal digits of `n` before `out`; one unit of fuel for each digit.
show_digits : ℕ → ℕ → String → String
show_digits zero n out = out
show_digits (suc f) n out =
    let rest = show_digits f (n / 10) (String.◌∷◌ (digit_char (n % 10)) out) in
    if ltb n 10 then String.◌∷◌ (digit_char n) out else rest

-- `n.to_string()`
unfoldable pub to_string : ℤ → String
unfolding show_digits digit_char
to_string (pos n) = show_digits (suc n) n ""
to_string (negsuc n) = String.◌∷◌ "-" (show_digits (suc (suc n)) (suc n) "")

-- `format!("{n:08}")` of a natural number, for a width of 8.
unfoldable pub zeros : ℕ → String → String
zeros zero s = s
zeros (suc k) s = String.◌∷◌ "0" (zeros k s)

unfoldable pub to_string_padded : ℕ → ℕ → String
unfolding zeros
to_string_padded width n = let s = to_string (pos n) in zeros (width - count s) s

-- `s.trim_start_matches(c)`
unfoldable pub trim_start_matches : ℕ → String → String
trim_start_matches c String.[] = ""
trim_start_matches c (String.◌∷◌ d s) =
    let rest = trim_start_matches c s in if eqb (code d) c then rest else String.◌∷◌ d s

abbrev pub cons_first : Char → List String → List String
cons_first c [] = String.◌∷◌ c "" ∷ []
cons_first c (t ∷ ts) = String.◌∷◌ c t ∷ ts

-- `s.split(c).collect()`
unfoldable pub split : ℕ → String → List String
split c String.[] = "" ∷ []
split c (String.◌∷◌ d s) =
    let rest = split c s in if eqb (code d) c then "" ∷ rest else cons_first d rest

-- `s.contains(c)` of a character, and `s.contains("..")`.
abbrev pub has_char : ℕ → String → Bool
has_char c s = not (all_chars (λ d. not (eqb d c)) s)

unfoldable pub has_dots : String → Bool
has_dots String.[] = false
has_dots (String.◌∷◌ c s) = (eqb (code c) b'.' && starts_with s ".") || has_dots s

-- `s.contains(t)` and `s.ends_with(c)`
unfoldable pub contains_text : String → String → Bool
contains_text String.[] t = is_empty t
contains_text (String.◌∷◌ c s) t = starts_with (String.◌∷◌ c s) t || contains_text s t

unfoldable pub ends_with_char : ℕ → String → Bool
ends_with_char c String.[] = false
ends_with_char c (String.◌∷◌ d s) =
    let rest = ends_with_char c s in if is_empty s then eqb (code d) c else rest

prints : (to_string (pos 9007199254740993) ≡ "9007199254740993") × (to_string (negsuc 41) ≡ "-42")
unfolding to_string
prints = (refl, refl)

parses :
    (parse_i64 "-9223372036854775808" ≡ some (negsuc 9223372036854775807))
    × (parse_i64 "9223372036854775808" ≡ none)
    × (parse_i64 "+7" ≡ some (pos 7))
    × (parse_i64 "-" ≡ none)
unfolding parse_int
parses = (refl, refl, refl, refl)

trims : trim "  Food and\t" ≡ "Food and"
unfolding trim
trims = refl
