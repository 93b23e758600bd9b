-- ===== src/Tests/Users.antt =====
-- A user who registers, tries to do so again, and logs in.
use ledgerly.Prelude.{ℕ, ◌≡◌, refl, false, none, some, ok, err, string_eq, ◌==◌, eq_iff, arith}
use ledgerly.Prelude.Int.{pos}
use ledgerly.Prelude.Dict.{lookup}
use ledgerly.Audit.{Recorder, note_event, anonymous_event, failure, with_reason, with_request}
use ledgerly.Contracts.{RegisterRequest, LoginRequest}
use ledgerly.Auth.{Crypto, Draws, register, login}
use ledgerly.Auth.Email.{
  codes, to_ascii_lowercase, split, valid_email, valid_parts, valid_label, valid_email_local_byte,
  normalize_email,
}
use ledgerly.Auth.Validation.{
  is_name, checked_registration, validate_registration, checked_login, validate_login,
  uses_cookie_session,
}
use ledgerly.Auth.Registration.{IsLoggedIn, email_taken, register-email_taken, register-login}
use ledgerly.Text.{concat, trim, is_whitespace}
use ledgerly.Tests.{opened}

-- A stand-in for the hash: the password itself.
abbrev plain : Crypto
plain = record {
  hash_password = λ salt password. some password;
  verify_password = λ password hash. password == hash;
  hash_token = λ token. concat "h" token;
  sign = λ claims. some claims.session_id;
}

abbrev ann : RegisterRequest
ann = record { email = " Ann@x.org"; password = "12345678"; display_name = "Ann" }

abbrev ann_valid : RegisterRequest
ann_valid = record { email = "ann@x.org"; password = "12345678"; display_name = "Ann" }

abbrev entering : LoginRequest
entering = record {
  email = "ANN@x.org ";
  password = "12345678";
  device_id = "d";
  device_name = none;
  session_mode = none;
}

abbrev draws : Draws
draws = record { session_id = "s2"; book_id = "b2"; refresh = "r2"; timestamp = pos 100 }

ann_is_valid : validate_registration ann ≡ ok ann_valid
unfolding validate_registration checked_registration is_name codes normalize_email
    to_ascii_lowercase trim is_whitespace valid_email valid_parts valid_label valid_email_local_byte
    split lookup
ann_is_valid = refl

entering_is_valid : validate_login entering ≡ ok (record entering { email = "ann@x.org" })
unfolding validate_login checked_login is_name codes normalize_email to_ascii_lowercase trim
    is_whitespace valid_email valid_parts valid_label valid_email_local_byte split lookup
entering_is_valid = refl

abbrev pub recorder : Recorder ℕ
recorder = record {
  json_bytes = λ value. 40;
  fresh = record { now = 6; uuid = "e1" };
  request_id = some "request";
}

ann_registers : (register plain recorder opened "u2" "salt" ann).0 ≡ ok "u2"
unfolding register lookup
ann_registers = rw (ann_is_valid, register) refl

register-email_taken_example :
    register plain recorder (register plain recorder opened "u2" "salt" ann).1 "u3" "pepper" ann ≡ (
      err email_taken,
      note_event recorder (register plain recorder opened "u2" "salt" ann).1 (
          with_reason "email_taken"
            (with_request recorder (anonymous_event "auth.register" failure))),
    )
register-email_taken_example =
    register-email_taken plain recorder opened "u2" "salt" ann ann_valid ann_valid "u2" "u3"
      "pepper" "12345678" ann recorder ann_is_valid ann_registers ann_is_valid refl refl

register-login_example :
    IsLoggedIn plain "u2" "d" "s2" draws
      (login plain recorder (register plain recorder opened "u2" "salt" ann).1 draws entering)
unfolding uses_cookie_session
register-login_example =
    register-login plain recorder opened "u2" "salt" ann ann_valid "u2" "s2" entering
      (record entering { email = "ann@x.org" }) false draws recorder
      (λ pepper password hash e. ground (arith, eq_iff password hash)) refl ann_is_valid
      ann_registers entering_is_valid refl refl refl
