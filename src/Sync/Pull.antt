-- ===== src/Sync/Pull.antt =====
-- `pull` of server/src/transport/http/sync.rs on the in-memory store.
use ledgerly.Prelude.{
  ℕ, zero, suc, String, Bool, ◌&&◌, List, [], ◌∷◌, Option, none, some, map, any, filter, get_last?,
  ◌==◌, leb, string_eq, if◌then◌else◌, Result, ok, err,
}
use ledgerly.Prelude.Int.{ℤ, pos, ltb_ℤ, leb_ℤ}
use ledgerly.Prelude.Dict.{lookup}
use ledgerly.Json.{Value}
use ledgerly.Text.{to_string}
use ledgerly.Contracts.{SyncChangeDto, SyncPullResponse}
use ledgerly.ApiError.{ApiError}
use ledgerly.State.{TimeLib, MemoryStore, TxRecord, ChangeRecord}
use ledgerly.Sync.Parse.{backfill_transaction_occurred_at}
use ledgerly.Authz.{require_book_member}

-- `sort_by_key(|c| c.sequence)`: a stable sort.
unfoldable pub insert_sorted : ChangeRecord → List ChangeRecord → List ChangeRecord
insert_sorted c [] = c ∷ []
insert_sorted c (d ∷ ds) =
    if leb_ℤ c.sequence d.sequence then c ∷ d ∷ ds else d ∷ insert_sorted c ds

unfoldable pub sort_by_sequence : List ChangeRecord → List ChangeRecord
unfolding insert_sorted
sort_by_sequence [] = []
sort_by_sequence (c ∷ cs) = insert_sorted c (sort_by_sequence cs)

-- The loop that fills a page: `room` is `limit - page.len()`, and a full page still takes the rest of
-- the last commit.
unfoldable pub fill_page : ℕ → Option String → List ChangeRecord → List ChangeRecord
fill_page room last_commit [] = []
fill_page (suc room) last_commit (c ∷ cs) = c ∷ fill_page room (some c.commit_id) cs
fill_page zero none (c ∷ cs) = []
fill_page zero (some commit) (c ∷ cs) =
    let rest = c ∷ fill_page zero (some commit) cs in if commit == c.commit_id then rest else []

-- `c.book_id == book_id && c.sequence > cursor`
abbrev pub is_after : String → ℤ → ChangeRecord → Bool
is_after book_id cursor c = (c.book_id == book_id) && ltb_ℤ cursor c.sequence

abbrev pub sequence_or : Option ChangeRecord → ℤ → ℤ
sequence_or none cursor = cursor
sequence_or (some c) cursor = c.sequence

-- `q.limit.unwrap_or(500).min(1000)`
unfoldable pub page_limit : Option ℕ → ℕ
page_limit none = 500
page_limit (some n) = if leb n 1000 then n else 1000

-- `q.cursor.unwrap_or(0)`
abbrev pub cursor_or_zero : Option ℤ → ℤ
cursor_or_zero none = pos 0
cursor_or_zero (some c) = c

-- The changes of a page, the cursor behind them, and whether more are left.
pub record Page : Type 0 where
  pub changes : List ChangeRecord
  pub next_cursor : ℤ
  pub has_more : Bool

unfoldable pub pull_page : List ChangeRecord → String → ℤ → ℕ → Page
unfolding sort_by_sequence fill_page
pull_page changes book_id cursor limit =
    let page = fill_page limit none (sort_by_sequence (filter (is_after book_id cursor) changes)) in
    let next = sequence_or (get_last? page) cursor in
    record { changes = page; next_cursor = next; has_more = any (is_after book_id next) changes }

module _ {T : Type 0} (time : TimeLib T) where
  abbrev pub backfilled : Option (TxRecord T) → Value → Value
  backfilled none payload = payload
  backfilled (some t) payload = backfill_transaction_occurred_at time payload t.occurred_at

  -- The change as it is sent, with the instant filled in where an old payload lacks it.
  unfoldable pub change_dto : MemoryStore T → ChangeRecord → SyncChangeDto
  change_dto s c = record {
    sequence = to_string c.sequence;
    commit_id = c.commit_id;
    entity_type = c.entity_type;
    entity_id = c.entity_id;
    operation = c.operation;
    version = c.entity_version;
    payload =
        if (c.entity_type == "transaction") && (c.operation == "upsert")
        then backfilled (lookup c.entity_id s.transactions) c.payload
        else c.payload;
  }

  abbrev pub page_response : MemoryStore T → Page → SyncPullResponse
  page_response s p = record {
    next_cursor = to_string p.next_cursor;
    has_more = p.has_more;
    changes = map (change_dto s) p.changes;
  }

  abbrev pub pull_member :
      MemoryStore T
      → String
      → Option ℤ
      → Option ℕ
      → Result (Unit {0}) ApiError
      → Result SyncPullResponse ApiError
  pull_member s book_id cursor limit (err e) = err e
  pull_member s book_id cursor limit (ok _) =
      ok (page_response s (pull_page s.changes book_id (cursor_or_zero cursor) (page_limit limit)))

  -- `pull`
  unfoldable pub pull :
      MemoryStore T → String → String → Option ℤ → Option ℕ → Result SyncPullResponse ApiError
  unfolding pull_page change_dto require_book_member
  pull s user_id book_id cursor limit =
      pull_member s book_id cursor limit (require_book_member s user_id book_id)
