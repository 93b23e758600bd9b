-- ===== src/Auth/Validation.antt =====
-- The checks of the bodies of `register`, `login` and `refresh` in server/src/transport/http/auth.rs.
use Prim.Native.String.{count, len}
use ledgerly.Prelude.{
  ℕ, String, Bool, true, false, not, ◌&&◌, ◌||◌, any, Option, none, some, leb, ltb, eqb,
  if◌then◌else◌, Result, ok, err,
}
use ledgerly.ApiError.{ApiError, api_error}
use ledgerly.Contracts.{RegisterRequest, LoginRequest, SessionMode, cookie, unsupported}
use ledgerly.Text.{trim, all_chars, is_ascii_hexdigit}
use ledgerly.Auth.Email.{codes, normalize_email}

-- `char::is_control`: the code points of the Unicode category Cc.
abbrev pub is_control : ℕ → Bool
is_control c = leb c 31 || (leb 127 c && leb c 159)

-- `(1..=limit).contains(&length)` and no control character
unfoldable pub is_name : ℕ → String → Bool
unfolding codes
is_name limit name =
    leb 1 (count name) && leb (count name) limit && not (any is_control (codes name))

unfoldable pub checked_registration :
    RegisterRequest → Result String ApiError → Result RegisterRequest ApiError
unfolding is_name
checked_registration req (err e) = err e
checked_registration req (ok email) =
    if not (leb 8 (count req.password) && leb (count req.password) 128)
    then err (api_error 422 "WEAK_PASSWORD" "password must contain between 8 and 128 characters")
    else if not (is_name 80 (trim req.display_name))
    then err (
        api_error 422 "INVALID_DISPLAY_NAME" "displayName must contain between 1 and 80 characters")
    else ok (record req { email = email; display_name = trim req.display_name })

-- `validate_registration`
unfoldable pub validate_registration : RegisterRequest → Result RegisterRequest ApiError
unfolding checked_registration normalize_email
validate_registration req = checked_registration req (normalize_email req.email)

unfoldable pub checked_login : LoginRequest → Result String ApiError → Result LoginRequest ApiError
unfolding is_name
checked_login req (err e) = err e
checked_login req (ok email) =
    if ltb 128 (count req.password)
    then err (api_error 422 "INVALID_PASSWORD" "password must not exceed 128 characters")
    else if not (is_name 128 (trim req.device_id))
    then err
        (api_error 422 "INVALID_DEVICE_ID" "deviceId must contain between 1 and 128 characters")
    else ok (record req { email = email; device_id = trim req.device_id })

-- `validate_login`
unfoldable pub validate_login : LoginRequest → Result LoginRequest ApiError
unfolding checked_login normalize_email
validate_login req = checked_login req (normalize_email req.email)

-- `uses_cookie_session`
unfoldable pub uses_cookie_session : Option SessionMode → Result Bool ApiError
uses_cookie_session none = ok false
uses_cookie_session (some cookie) = ok true
uses_cookie_session (some unsupported) =
    err (api_error 400 "UNSUPPORTED_SESSION_MODE" "sessionMode is unsupported")

-- `valid_refresh_token`
unfoldable pub valid_refresh_token : String → Bool
valid_refresh_token token = eqb (len token) 64 && all_chars is_ascii_hexdigit token
