-- ===== src/Settings.antt =====
-- The checks of the configuration: `Config::validate`, `validate_s3`, `parse_bool`,
-- `parse_object_store_backend` and `parse_origins` of
-- server/src/config.rs. An error is its message; the parser of the crate `url` is a parameter.
use text.Mathlib.Text.{starts_with}
use ledgerly.Prelude.{
  ℕ, ◌*◌, String, Bool, true, false, not, ◌&&◌, ◌||◌, List, [], ◌∷◌, Option, none, some, map,
  filter, any, ltb, eqb, ◌==◌, if◌then◌else◌, Result, ok, err, ok_or, refuse_if, ◌>>=◌, ◌>>◌,
  string_eq,
}
use ledgerly.Text.{concat, trim, is_empty, split, contains_text, ends_with_char}
use ledgerly.Auth.Email.{to_ascii_lowercase}
use ledgerly.Attachments.Plan.{ObjectStoreBackend, local, s3}
use ledgerly.Attachments.Upload.{is_s3}
use ledgerly.Storage.Keys.{is_bad_segment}

-- What the code reads of a `url::Url`.
pub record Url : Type 0 where
  pub scheme : String
  pub host_str : Option String
  pub username : String
  pub password : Option String
  pub query : Option String
  pub fragment : Option String
  pub path : String
  pub origin : String

-- The fields of `Config` that the checks read.
pub record Settings : Type 0 where
  pub database_url : Option String
  pub jwt_secret : String
  pub jwt_ed25519_seed : Option String
  pub jwt_previous_ed25519_seed : Option String
  pub object_store_hmac_secret : String
  pub object_storage_backend : ObjectStoreBackend
  pub s3_endpoint : Option String
  pub s3_bucket : Option String
  pub s3_access_key_id : Option String
  pub s3_secret_access_key : Option String
  pub s3_prefix : Option String
  pub s3_allow_http : Bool
  pub s3_public_endpoint : Option String
  pub attachment_max_bytes : ℕ
  pub backup_dir : Option String
  pub backup_password : Option String
  pub backup_capacity_warn_bytes : ℕ
  pub backup_capacity_critical_bytes : ℕ
  pub recovery_drill_enabled : Bool
  pub cors_allowed_origins : List String
  pub auth_cookie_secure : Bool
  pub is_production : Bool

abbrev pub is_none : {A : Type 0} → Option A → Bool
is_none none = true
is_none (some _) = false

-- `value.as_deref().unwrap_or_default().is_empty()`
abbrev pub is_blank : Option String → Bool
is_blank none = true
is_blank (some s) = is_empty s

abbrev pub is_http : String → Bool
is_http scheme = scheme == "http" || scheme == "https"

-- No HTTP(S) URL, or one with credentials, a query or a fragment.
abbrev pub is_bad_url : Url → Bool
is_bad_url url =
    not (is_http url.scheme)
    || is_none url.host_str
    || not (is_empty url.username)
    || not (is_none url.password)
    || not (is_none url.query)
    || not (is_none url.fragment)

abbrev pub is_bad_prefix : Option String → Bool
is_bad_prefix none = false
is_bad_prefix (some prefix) =
    is_empty (trim prefix)
    || starts_with prefix "/"
    || ends_with_char b'/' prefix
    || any is_bad_segment (split b'/' prefix)

-- `parse_bool`, without the name in the message
unfoldable pub parse_bool : String → Result Bool String
parse_bool value =
    let text = to_ascii_lowercase (trim value) in
    if text == "true" || text == "1"
    then ok true
    else if text == "false" || text == "0"
    then ok false
    else err "must be true or false"

unfoldable pub parse_object_store_backend : String → Result ObjectStoreBackend String
parse_object_store_backend value =
    let text = to_ascii_lowercase (trim value) in
    if text == "local"
    then ok local
    else if text == "s3"
    then ok s3
    else err "OBJECT_STORE_BACKEND must be local or s3"

module _ (parse_url : String → Option Url) where
  -- A configured endpoint; the messages are those of its name.
  unfoldable pub check_endpoint :
      Option String → Bool → String → String → String → Result (Unit {0}) String
  check_endpoint none allow_http invalid bad plain = ok tt
  check_endpoint (some endpoint) allow_http invalid bad plain = do
    url ← ok_or (parse_url endpoint) invalid
    refuse_if (is_bad_url url) bad
    refuse_if (url.scheme == "http" && not allow_http) plain

  unfoldable pub validate_s3 : Settings → Result (Unit {0}) String
  unfolding check_endpoint
  validate_s3 c = do
    refuse_if (is_blank c.s3_bucket) "S3_BUCKET is required when OBJECT_STORE_BACKEND=s3"
    refuse_if (is_blank c.s3_access_key_id || is_blank c.s3_secret_access_key)
        "S3_ACCESS_KEY_ID and S3_SECRET_ACCESS_KEY are required when OBJECT_STORE_BACKEND=s3"
    refuse_if (is_bad_prefix c.s3_prefix) "S3_PREFIX must be a non-empty relative object prefix"
    check_endpoint c.s3_endpoint c.s3_allow_http "S3_ENDPOINT must be a valid URL"
        "S3_ENDPOINT must be an HTTP(S) URL without credentials or query"
        "S3_ALLOW_HTTP=true is required for an HTTP S3 endpoint"
    check_endpoint c.s3_public_endpoint c.s3_allow_http "S3_PUBLIC_ENDPOINT must be a valid URL"
        "S3_PUBLIC_ENDPOINT must be an HTTP(S) URL without credentials or query"
        "S3_ALLOW_HTTP=true is required for an HTTP public S3 endpoint"

  -- `Url::parse` and the checks of an origin of `parse_origins`.
  unfoldable pub parse_origin : String → Result String String
  parse_origin origin = do
    url ← ok_or (parse_url origin) (concat "invalid CORS origin: " origin)
    refuse_if (is_bad_url url || not (url.path == "/"))
        (concat "CORS origin must be an HTTP(S) origin without path: " origin)
    ok url.origin

  unfoldable pub collect_origins : List String → Result (List String) String
  unfolding parse_origin
  collect_origins [] = ok []
  collect_origins (origin ∷ origins) = do
    first ← parse_origin origin
    rest ← collect_origins origins
    ok (first ∷ rest)

  unfoldable pub parse_origins : String → Result (List String) String
  unfolding collect_origins
  parse_origins value =
      collect_origins (filter (λ origin. not (is_empty origin)) (map trim (split b',' value)))

-- The part of `validate` for every server, before S3.
unfoldable pub check_limits : Settings → Result (Unit {0}) String
check_limits c = do
  refuse_if (ltb (20 * 1024 * 1024 * 1024) c.attachment_max_bytes)
      "ATTACHMENT_MAX_BYTES must not exceed 20 GiB"
  refuse_if
      (eqb c.backup_capacity_warn_bytes 0
        || eqb c.backup_capacity_critical_bytes 0
        || ltb c.backup_capacity_critical_bytes c.backup_capacity_warn_bytes)
      "BACKUP_CAPACITY_CRITICAL_BYTES must be greater than or equal to BACKUP_CAPACITY_WARN_BYTES, and both values must be positive"

abbrev pub is_placeholder : Option String → Bool
is_placeholder none = false
is_placeholder (some seed) = contains_text seed "CHANGE_ME"

-- The secrets of a production server.
unfoldable pub check_secrets : Settings → Result (Unit {0}) String
check_secrets c = do
  refuse_if (is_none c.database_url) "DATABASE_URL is required in production"
  refuse_if
      (c.jwt_secret == "dev-only-change-me-ledgerly-secret"
        || contains_text c.jwt_secret "CHANGE_ME")
      "JWT_SECRET must be replaced in production"
  seed ← ok_or c.jwt_ed25519_seed "JWT_ED25519_SEED is required in production"
  refuse_if (is_empty seed || contains_text seed "CHANGE_ME")
      "JWT_ED25519_SEED must be replaced in production"
  refuse_if (is_placeholder c.jwt_previous_ed25519_seed)
      "JWT_ED25519_PREVIOUS_SEED must be replaced in production"
  refuse_if
      (is_empty c.object_store_hmac_secret
        || contains_text c.object_store_hmac_secret "CHANGE_ME"
        || c.object_store_hmac_secret == "dev-object-hmac-secret")
      "OBJECT_STORE_HMAC_SECRET must be replaced in production"

abbrev pub is_no_origin : List String → Bool
is_no_origin [] = true
is_no_origin (origin ∷ origins) = false

-- The rest of the checks of a production server.
unfoldable pub check_exposure : Settings → Result (Unit {0}) String
check_exposure c = do
  refuse_if (not c.auth_cookie_secure) "AUTH_COOKIE_SECURE must be true in production"
  refuse_if (is_no_origin c.cors_allowed_origins)
      "CORS_ALLOWED_ORIGINS requires at least one HTTPS origin in production"
  refuse_if (any (λ origin. not (starts_with origin "https://")) c.cors_allowed_origins)
      "CORS_ALLOWED_ORIGINS must contain only HTTPS origins in production"
  refuse_if (not (is_none c.backup_dir) && is_none c.backup_password)
      "LEDGER_BACKUP_PASSWORD is required when BACKUP_DIR is configured"
  refuse_if (c.recovery_drill_enabled && is_none c.backup_dir)
      "BACKUP_DIR is required when RECOVERY_DRILL_ENABLED=true"

-- `if self.object_storage_backend == S3 { self.validate_s3()? }`
unfoldable pub check_backend : (String → Option Url) → Settings → Result (Unit {0}) String
unfolding validate_s3
check_backend parse_url c =
    if is_s3 c.object_storage_backend then validate_s3 parse_url c else ok tt

-- `if !self.is_production { return Ok(()) }`, and the checks behind it.
unfoldable pub check_production : Settings → Result (Unit {0}) String
unfolding check_secrets check_exposure
check_production c =
    let checked = check_secrets c >> check_exposure c in
    if not c.is_production then ok tt else checked

-- `Config::validate`
unfoldable pub validate : (String → Option Url) → Settings → Result (Unit {0}) String
validate parse_url c = do check_limits c; check_backend parse_url c; check_production c
