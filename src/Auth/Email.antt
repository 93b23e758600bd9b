-- ===== src/Auth/Email.antt =====
-- E-mail addresses: `normalize_email` and `valid_email` of server/src/transport/http/auth.rs.
use Prim.Native.Char.{Char, code}
use Prim.Native.String.{len}
use ledgerly.Prelude.{
  ℕ, String, Bool, false, not, ◌&&◌, ◌||◌, List, [], ◌∷◌, Option, none, some, length, all, any, leb,
  ltb, eqb, if◌then◌else◌, nat_eq, Result, ok, err,
}
use ledgerly.Prelude.Dict.{Dict, lookup}
use ledgerly.ApiError.{ApiError, api_error}
use ledgerly.Text.{is_empty, trim, is_ascii_digit, is_ascii_uppercase}

-- The code points of a text; for an ASCII text they are its bytes.
unfoldable pub codes : String → List ℕ
codes String.[] = []
codes (String.◌∷◌ c s) = code c ∷ codes s

-- The capital ASCII letters with their small ones.
abbrev capitals : Dict ℕ Char
capitals =
    (65, "a")
    ∷ (66, "b")
    ∷ (67, "c")
    ∷ (68, "d")
    ∷ (69, "e")
    ∷ (70, "f")
    ∷ (71, "g")
    ∷ (72, "h")
    ∷ (73, "i")
    ∷ (74, "j")
    ∷ (75, "k")
    ∷ (76, "l")
    ∷ (77, "m")
    ∷ (78, "n")
    ∷ (79, "o")
    ∷ (80, "p")
    ∷ (81, "q")
    ∷ (82, "r")
    ∷ (83, "s")
    ∷ (84, "t")
    ∷ (85, "u")
    ∷ (86, "v")
    ∷ (87, "w")
    ∷ (88, "x")
    ∷ (89, "y")
    ∷ (90, "z")
    ∷ []

-- `to_ascii_lowercase` of one character
abbrev pub lower : Char → Option Char → Char
lower c none = c
lower c (some small) = small

-- `value.to_ascii_lowercase()`
unfoldable pub to_ascii_lowercase : String → String
to_ascii_lowercase String.[] = String.[]
to_ascii_lowercase (String.◌∷◌ c s) =
    String.◌∷◌ (lower c (lookup (code c) capitals)) (to_ascii_lowercase s)

-- The pieces of `split(separator)`, on code points; `piece` is the one being read, backwards.
reverse_onto : List ℕ → List ℕ → List ℕ
reverse_onto acc [] = acc
reverse_onto acc (c ∷ cs) = reverse_onto (c ∷ acc) cs

split_from : ℕ → List ℕ → List ℕ → List (List ℕ)
split_from separator piece [] = reverse_onto [] piece ∷ []
split_from separator piece (c ∷ cs) =
    let next = split_from separator [] cs in
    let more = split_from separator (c ∷ piece) cs in
    if eqb c separator then reverse_onto [] piece ∷ next else more

unfoldable pub split : ℕ → List ℕ → List (List ℕ)
unfolding split_from reverse_onto
split separator cs = split_from separator [] cs

abbrev pub starts_with_code : ℕ → List ℕ → Bool
starts_with_code k [] = false
starts_with_code k (c ∷ cs) = eqb c k

abbrev pub ends_with_code : ℕ → List ℕ → Bool
ends_with_code k [] = false
ends_with_code k (c ∷ []) = eqb c k
ends_with_code k (c ∷ d ∷ cs) = ends_with_code k (d ∷ cs)

-- `local.contains("..")`
abbrev pub has_double_dot : List ℕ → Bool
has_double_dot [] = false
has_double_dot (c ∷ []) = false
has_double_dot (c ∷ d ∷ cs) = (eqb c b'.' && eqb d b'.') || has_double_dot (d ∷ cs)

abbrev pub is_ascii_alphanumeric : ℕ → Bool
is_ascii_alphanumeric c = is_ascii_digit c || is_ascii_uppercase c || (leb b'a' c && leb c b'z')

-- The marks of `valid_email_local_byte`: ! # $ % & ' * + - / = ? ^ _ ` { | } ~ and the dot.
abbrev local_marks : List ℕ
local_marks =
    33 ∷ 35 ∷ 36 ∷ 37 ∷ 38 ∷ 39 ∷ 42 ∷ 43 ∷ 45 ∷ 47 ∷ 61 ∷ 63 ∷ 94 ∷ 95 ∷ 96 ∷ 123 ∷ 124 ∷ 125 ∷ 126
    ∷ 46 ∷ []

-- `valid_email_local_byte`
unfoldable pub valid_email_local_byte : ℕ → Bool
valid_email_local_byte byte = is_ascii_alphanumeric byte || any (eqb byte) local_marks

-- The test on each label of the domain.
unfoldable pub valid_label : List ℕ → Bool
valid_label label =
    ltb 0 (length label)
    && leb (length label) 63
    && not (starts_with_code b'-' label)
    && not (ends_with_code b'-' label)
    && all (λ b. is_ascii_alphanumeric b || eqb b b'-') label

unfoldable pub valid_parts : List (List ℕ) → Bool
unfolding valid_email_local_byte valid_label split
valid_parts (local ∷ domain ∷ []) =
    ltb 0 (length local)
    && leb (length local) 64
    && not (starts_with_code b'.' local)
    && not (ends_with_code b'.' local)
    && not (has_double_dot local)
    && all valid_email_local_byte local
    && any (eqb b'.') domain
    && all valid_label (split b'.' domain)
valid_parts _ = false

-- `valid_email`
unfoldable pub valid_email : String → Bool
unfolding codes split valid_parts
valid_email email =
    if is_empty email || ltb 254 (len email) || not (all (λ c. ltb c 128) (codes email))
    then false
    else valid_parts (split b'@' (codes email))

-- `normalize_email`
unfoldable pub normalize_email : String → Result String ApiError
unfolding to_ascii_lowercase valid_email
normalize_email value =
    let email = to_ascii_lowercase (trim value) in
    if valid_email email
    then ok email
    else err (api_error 422 "INVALID_EMAIL" "email format is invalid")
