-- ===== src/Authz.antt =====
-- Membership and plans on the in-memory store: server/src/transport/http/authz.rs.
use ledgerly.Prelude.{
  ℕ, String, Bool, true, false, ◌||◌, Option, none, some, ◌==◌, string_eq, if◌then◌else◌, Result,
  ok, err,
}
use ledgerly.Prelude.Int.{ℤ}
use ledgerly.Prelude.Dict.{lookup}
use ledgerly.ApiError.{ApiError, api_error}
use ledgerly.State.{MemoryStore, BookRecord, SessionRecord}
use ledgerly.Text.{concat}

pub record Claims : Type 0 where
  pub sub : String
  pub session_id : String
  pub device_id : String
  pub token_version : ℤ
  pub exp : ℕ

abbrev pub owned_by : String → Option BookRecord → Bool
owned_by user_id none = false
owned_by user_id (some b) = b.owner_id == user_id

abbrev pub is_active : Claims → Option SessionRecord → Bool
is_active claims none = false
is_active claims (some session) =
    if session.revoked
    then false
    else if session.user_id == claims.sub
    then session.device_id == claims.device_id
    else false

abbrev pub plan_or_free : Option String → String
plan_or_free none = "free"
plan_or_free (some plan) = plan

-- The `match` of `require_plan`.
unfoldable pub covers : String → String → Bool
covers plan min =
    if min == "plus"
    then (plan == "plus") || (plan == "family")
    else if min == "family"
    then plan == "family"
    else true

module _ {T : Type 0} where
  -- `ensure_session_active` without a database
  unfoldable pub ensure_session_active : MemoryStore T → Claims → Result (Unit {0}) ApiError
  ensure_session_active s claims =
      if is_active claims (lookup claims.session_id s.sessions)
      then ok tt
      else err (api_error 401 "SESSION_REVOKED" "device session is revoked or missing")

  -- `require_book_member` without a database
  unfoldable pub require_book_member : MemoryStore T → String → String → Result (Unit {0}) ApiError
  require_book_member s user_id book_id =
      if owned_by user_id (lookup book_id s.books)
      then ok tt
      else err (api_error 403 "BOOK_FORBIDDEN" "not a member of this book")

  -- `user_plan` without a database
  unfoldable pub user_plan : MemoryStore T → String → String
  user_plan s user_id = plan_or_free (lookup user_id s.subscriptions)

  -- `require_plan`
  unfoldable pub require_plan : MemoryStore T → String → String → Result String ApiError
  unfolding user_plan covers
  require_plan s user_id min =
      let plan = user_plan s user_id in
      if covers plan min
      then ok plan
      else err (
          api_error 402 "PLAN_REQUIRED"
            (concat "requires " (concat min (concat " plan, current=" plan))))
