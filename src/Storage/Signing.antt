-- ===== src/Storage/Signing.antt =====
-- Signed URLs of server/src/infrastructure/object_store.rs: `sign_with_secret`, `verify`, and the
-- handlers `put_object` and `get_object` of the local backend.
use ledgerly.Prelude.{
  ℕ, ◌+◌, ◌%◌, ◌^◌, String, Bool, true, false, not, ◌||◌, ◌==◌, List, Option, none, some, ltb,
  Result, ok, err, refuse_if, ◌>>=◌, ◌>>◌, ok_or, string_eq, if◌then◌else◌,
}
use ledgerly.Prelude.Int.{pos}
use ledgerly.ApiError.{ApiError, api_error}
use ledgerly.Text.{concat, to_string}
use ledgerly.Attachments.Objects.{io_result}
use ledgerly.Storage.Keys.{validated_key}
use ledgerly.Storage.Local.{Disk, put_bytes, get_bytes}

-- The secrets of `Config`.
pub record Secrets : Type 0 where
  pub object_store_hmac_secret : String
  pub object_store_hmac_previous_secret : Option String

pub record SignedQuery : Type 0 where
  pub expires : ℕ
  pub sig : String
  pub method : Option String

abbrev pub bad_signature : ApiError
bad_signature = api_error 403 "BAD_SIGNATURE" "invalid or expired signature"

abbrev pub invalid_key : ApiError
invalid_key = api_error 400 "INVALID_KEY" "bad object key"

-- `q.method.as_deref().unwrap_or(default)`
abbrev pub method_or : String → Option String → String
method_or default none = default
method_or default (some method) = method

abbrev pub key_result : {A : Type 0} → Result A (Unit {0}) → Result A ApiError
key_result (ok a) = ok a
key_result (err _) = err invalid_key

-- `hmac` is HMAC-SHA-256 in hexadecimal, of a secret and a message.
module _ (hmac : String → String → String) where
  unfoldable pub sign_with_secret : String → String → String → ℕ → String
  sign_with_secret secret method object_key expires =
      hmac secret
        (concat method (concat "\n" (concat object_key (concat "\n" (to_string (pos expires))))))

  unfoldable pub verify_secret : String → String → String → ℕ → String → Bool
  unfolding sign_with_secret
  verify_secret secret method object_key expires sig =
      sign_with_secret secret method object_key expires == sig

  abbrev pub verify_previous : Option String → String → String → ℕ → String → Bool
  verify_previous none method object_key expires sig = false
  verify_previous (some secret) method object_key expires sig =
      verify_secret secret method object_key expires sig

  -- `now` is `now_secs()`.
  unfoldable pub verify : Secrets → ℕ → String → String → ℕ → String → Bool
  unfolding verify_secret
  verify secrets now method object_key expires sig =
      if ltb expires now
      then false
      else if verify_secret secrets.object_store_hmac_secret method object_key expires sig
      then true
      else verify_previous secrets.object_store_hmac_previous_secret method object_key expires sig

  -- The signature in the URL of `sign_url`; the sum is a `u64`.
  unfoldable pub url_signature : Secrets → ℕ → String → String → ℕ → String
  unfolding sign_with_secret
  url_signature secrets now method object_key ttl_secs =
      sign_with_secret secrets.object_store_hmac_secret method object_key
        ((now + ttl_secs) % 2 ^ 64)

  -- The checks that both handlers start with.
  unfoldable pub authorized :
      Secrets → ℕ → String → String → SignedQuery → Result (Unit {0}) ApiError
  unfolding verify
  authorized secrets now method key q = do
    refuse_if
        (not (method_or method q.method == method)
          || not (verify secrets now method key q.expires q.sig))
        bad_signature
    _ ← key_result (validated_key key)
    ok tt

  -- `put_object` on the local backend
  unfoldable pub put_object :
      (String → String)
      → Disk
      → Secrets
      → ℕ
      → String
      → SignedQuery
      → List ℕ
      → Result (Unit {0}) ApiError × Disk
  unfolding authorized
  put_object path_of d secrets now key q body = elim (authorized secrets now "PUT" key q) [
    | err e ↦ (err e, d)
    | ok _ ↦ let (r, d') = put_bytes path_of d key body in (io_result r, d')
  ]

  -- `get_object` on the local backend
  unfoldable pub get_object :
      (String → String) → Disk → Secrets → ℕ → String → SignedQuery → Result (List ℕ) ApiError
  unfolding authorized
  get_object path_of d secrets now key q = do
    authorized secrets now "GET" key q
    found ← io_result (get_bytes path_of d key)
    ok_or found (api_error 404 "NOT_FOUND" "object missing")
