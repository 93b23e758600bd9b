-- ===== src/Audit.antt =====
-- The audit trail on the in-memory store: server/src/infrastructure/audit.rs (`record_memory`, `query`,
-- `page_from_rows`, `bounded_metadata`, `request_id`) and `list_events` of
-- server/src/transport/http/audit.rs. The length of a metadata value as JSON is a parameter.
pub mod Trail
pub mod Privacy
use Prim.Native.String.{len}
use ledgerly.Prelude.{
  ℕ, zero, suc, ◌+◌, ◌-◌, String, Bool, true, false, not, ◌&&◌, ◌||◌, List, [], ◌∷◌, ◌++◌, Option,
  none, some, map, filter, length, get_last?, ltb, ◌==◌, if◌then◌else◌, string_eq, is_text,
}
use ledgerly.Json.{Value, object, end, string, of_fields}
use ledgerly.Text.{is_empty, is_less}
use ledgerly.State.{TimeLib, Fresh, MemoryStore, AuditEventRecord}

pub data AuditActor : Type 0 where
  user : AuditActor
  system : AuditActor

abbrev pub actor_text : AuditActor → String
actor_text user = "user"
actor_text system = "system"

pub data AuditOutcome : Type 0 where
  success : AuditOutcome
  failure : AuditOutcome
  denied : AuditOutcome

abbrev pub outcome_text : AuditOutcome → String
outcome_text success = "success"
outcome_text failure = "failure"
outcome_text denied = "denied"

pub record AuditEvent : Type 0 where
  pub actor : AuditActor
  pub actor_id : Option String
  pub action : String
  pub outcome : AuditOutcome
  pub target_type : Option String
  pub target_id : Option String
  pub request_id : Option String
  pub metadata : Value

-- `AuditEvent::user`, `system` and `anonymous`
abbrev pub event_of : AuditActor → Option String → String → AuditOutcome → AuditEvent
event_of actor actor_id action outcome = record {
  actor = actor;
  actor_id = actor_id;
  action = action;
  outcome = outcome;
  target_type = none;
  target_id = none;
  request_id = none;
  metadata = object end;
}

abbrev pub user_event : String → String → AuditOutcome → AuditEvent
user_event actor_id = event_of user (some actor_id)

abbrev pub system_event : String → AuditOutcome → AuditEvent
system_event = event_of system none

abbrev pub anonymous_event : String → AuditOutcome → AuditEvent
anonymous_event = event_of user none

-- `request_id`, of the header `x-request-id` where it is a text
unfoldable pub request_id_of : Option String → Option String
request_id_of none = none
request_id_of (some value) =
    if not (is_empty value) && not (ltb 64 (len value)) then some value else none

pub record AuditQuery : Type 0 where
  pub actor_id : Option String
  pub action : Option String
  pub outcome : Option String
  pub before : Option String
  pub limit : ℕ

pub record AuditEventView : Type 0 where
  pub id : String
  pub occurred_at : String
  pub actor_type : String
  pub actor_id : Option String
  pub action : String
  pub outcome : String
  pub target_type : Option String
  pub target_id : Option String
  pub request_id : Option String
  pub metadata : Value

pub record AuditPage : Type 0 where
  pub events : List AuditEventView
  pub next_cursor : Option String

-- What a handler records an event with: the length of metadata as JSON, the clock and a new UUID, and
-- `request_id(&headers)`.
pub record Recorder (T : Type 0) : Type 0 where
  pub json_bytes : Value → ℕ
  pub fresh : Fresh T
  pub request_id : Option String

-- `event.metadata(serde_json::json!({ "reason": reason }))`
abbrev pub with_reason : String → AuditEvent → AuditEvent
with_reason reason event = record event {
  metadata = object (of_fields (("reason", string reason) ∷ []));
}

-- `event.target(target_type, id)`
abbrev pub with_target : String → String → AuditEvent → AuditEvent
with_target target_type id event = record event {
  target_type = some target_type;
  target_id = some id;
}

-- `event.request_id(audit::request_id(&headers))`
abbrev pub with_request : {T : Type 0} → Recorder T → AuditEvent → AuditEvent
with_request a event = record event { request_id = a.request_id }

-- `query.limit.clamp(1, 200)`
abbrev pub clamp_limit : ℕ → ℕ
clamp_limit limit = if ltb limit 1 then 1 else if ltb 200 limit then 200 else limit

abbrev pub most_events : ℕ
most_events = 1000

module _ {ℓ} {A : Type ℓ} where
  -- `xs.drain(..n)`
  unfoldable pub drop : ℕ → List A → List A
  drop zero xs = xs
  drop (suc n) [] = []
  drop (suc n) (x ∷ xs) = drop n xs

  -- `xs.truncate(n)`
  unfoldable pub take : ℕ → List A → List A
  take zero xs = []
  take (suc n) [] = []
  take (suc n) (x ∷ xs) = x ∷ take n xs

-- `filter.is_none_or(|value| text == value)`
abbrev pub allows : Option String → String → Bool
allows none text = true
allows (some value) text = text == value

abbrev pub allows_actor : Option String → Option String → Bool
allows_actor none actor_id = true
allows_actor (some value) actor_id = is_text value actor_id

abbrev pub allows_before : Option String → String → Bool
allows_before none id = true
allows_before (some before) id = is_less id before

module _ {T : Type 0} where
  unfoldable pub audit_record : Fresh T → AuditEvent → AuditEventRecord T
  audit_record fresh event = record {
    id = fresh.uuid;
    occurred_at = fresh.now;
    actor_type = actor_text event.actor;
    actor_id = event.actor_id;
    action = event.action;
    outcome = outcome_text event.outcome;
    target_type = event.target_type;
    target_id = event.target_id;
    request_id = event.request_id;
    metadata = event.metadata;
  }

  -- The push and the drain of `record_memory`.
  unfoldable pub push_event :
      List (AuditEventRecord T) → AuditEventRecord T → List (AuditEventRecord T)
  unfolding drop
  push_event events e =
      let pushed = events ++ e ∷ [] in
      if ltb most_events (length pushed) then drop (length pushed - most_events) pushed else pushed

  -- `record_memory`; `json_bytes` is the length of `serde_json::to_vec`. The error of metadata that is
  -- too long is only counted.
  unfoldable pub record_memory : (Value → ℕ) → MemoryStore T → Fresh T → AuditEvent → MemoryStore T
  unfolding push_event audit_record
  record_memory json_bytes s fresh event = record s {
    audit_events =
        if ltb 4096 (json_bytes event.metadata)
        then s.audit_events
        else push_event s.audit_events (audit_record fresh event);
  }

  -- `audit::record` in a handler, without a database
  unfoldable pub note_event : Recorder T → MemoryStore T → AuditEvent → MemoryStore T
  unfolding record_memory
  note_event a s event = record_memory a.json_bytes s a.fresh event

  unfoldable pub matches : AuditQuery → AuditEventRecord T → Bool
  matches q e =
      allows_actor q.actor_id e.actor_id
      && allows q.action e.action
      && allows q.outcome e.outcome
      && allows_before q.before e.id

  -- Behind every event that it does not sort before: the greatest id first.
  unfoldable pub insert_event :
      AuditEventRecord T → List (AuditEventRecord T) → List (AuditEventRecord T)
  insert_event e [] = e ∷ []
  insert_event e (f ∷ fs) =
      let rest = insert_event e fs in if is_less e.id f.id then f ∷ rest else e ∷ f ∷ fs

  -- `events.sort_by(|left, right| right.id.cmp(&left.id))`
  unfoldable pub sort_events : List (AuditEventRecord T) → List (AuditEventRecord T)
  unfolding insert_event
  sort_events [] = []
  sort_events (e ∷ es) = insert_event e (sort_events es)

abbrev pub limit_or_50 : Option ℕ → ℕ
limit_or_50 none = 50
limit_or_50 (some limit) = limit

module _ {T : Type 0} (time : TimeLib T) where
  abbrev pub view_of : AuditEventRecord T → AuditEventView
  view_of e = record {
    id = e.id;
    occurred_at = time.format_rfc3339 e.occurred_at;
    actor_type = e.actor_type;
    actor_id = e.actor_id;
    action = e.action;
    outcome = e.outcome;
    target_type = e.target_type;
    target_id = e.target_id;
    request_id = e.request_id;
    metadata = e.metadata;
  }

  abbrev pub id_of : Option (AuditEventRecord T) → Option String
  id_of none = none
  id_of (some e) = some e.id

  unfoldable pub page_from_rows : List (AuditEventRecord T) → ℕ → AuditPage
  unfolding take
  page_from_rows rows limit =
      let shown = take limit rows in
      record {
        events = map view_of shown;
        next_cursor = if ltb limit (length rows) then id_of (get_last? shown) else none;
      }

  -- `query` without a database
  unfoldable pub query : MemoryStore T → AuditQuery → AuditPage
  unfolding matches sort_events page_from_rows take
  query s q =
      let limit = clamp_limit q.limit in
      page_from_rows (take (suc limit) (sort_events (filter (matches q) s.audit_events))) limit

  -- `list_events`: a user sees the events of their own.
  unfoldable pub list_events :
      MemoryStore T → String → Option ℕ → Option String → Option String → Option String → AuditPage
  unfolding query
  list_events s user_id limit action outcome before = query s (record {
    actor_id = some user_id;
    action = action;
    outcome = outcome;
    before = before;
    limit = limit_or_50 limit;
  })
