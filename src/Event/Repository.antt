-- ===== src/Event/Repository.antt =====
-- services/event_service/src/event_repository.cc: the event table behind EventRepository, with the
-- process's event sequence.
pub mod Changes
use device_ops.Prelude.{
  ℕ, suc, ◌+◌, ◌%◌, ◌^◌, ℤ, pos, negsuc, Bool, true, false, not, ◌&&◌, ◌||◌, Option, none, some,
  List, [], ◌∷◌, ◌++◌, map, keep_if, length, ltb_ℤ, is_positive, if◌then◌else◌,
}
use device_ops.Str.{Str, lit, is_empty, str_eq, decimal, signed_decimal}
use device_ops.Paging.{normalize_page, normalize_page_size, page_slice}
use device_ops.Odb.{Odb}
use device_ops.Odb.Transaction.{
  Outcome, returned, thrown, Reply, accepted, rejected, Session, ◌>>=◌, pure, reads, writes,
  transaction, catching,
}
use device_ops.Event.{
  EventEntity, EventSeverity, severity_eq, severity_to_string, severity_from_string,
  nullable_string, nullable_int64, CreateEventRequest,
}
use device_ops.Event.Status.{
  EventStatus, unspecified, resolved, closed, status_eq, status_to_string, status_from_string,
}

pub record Event : Type 0 where
  pub id : ℕ
  pub event_id : Str
  pub device_id : Str
  pub event_type : Str
  pub severity : EventSeverity
  pub status : EventStatus
  pub error_code : Str
  pub title : Str
  pub description : Str
  pub metric_snapshot_json : Str
  pub rule_name : Str
  pub occurred_at : ℤ
  pub resolved_at : ℤ
  pub created_at : ℤ
  pub updated_at : ℤ

pub record ListEventFilter : Type 0 where
  pub page : ℤ
  pub page_size : ℤ
  pub device_id : Str
  pub event_type : Str
  pub severity : EventSeverity
  pub status : EventStatus
  pub start_time : ℤ
  pub end_time : ℤ

unfoldable pub to_proto : EventEntity → Event
to_proto entity = record {
  id = entity.id;
  event_id = entity.event_id;
  device_id = entity.device_id;
  event_type = entity.event_type;
  severity = severity_from_string entity.severity;
  status = status_from_string entity.status;
  error_code = nullable_string entity.error_code;
  title = entity.title;
  description = nullable_string entity.description;
  metric_snapshot_json = nullable_string entity.metric_snapshot_json;
  rule_name = nullable_string entity.rule_name;
  occurred_at = entity.occurred_at;
  resolved_at = nullable_int64 entity.resolved_at;
  created_at = entity.created_at;
  updated_at = entity.updated_at;
}

unfoldable pub in_time_range : ℤ → ℤ → ℤ → Bool
in_time_range occurred_at start_time end_time =
    not (is_positive start_time && ltb_ℤ occurred_at start_time)
    && not (is_positive end_time && ltb_ℤ end_time occurred_at)

-- The id for the present value of `_sequence`, which is then one more, modulo 2 ^ 64.
unfoldable pub next_event_id : ℤ → ℕ → Str
next_event_id now sequence = lit "evt-" ++ (signed_decimal now ++ (lit "-" ++ decimal sequence))

abbrev pub unless_empty : Str → Option Str
unless_empty s = if is_empty s then none else some s

unfoldable pub new_entity : CreateEventRequest → ℤ → Str → EventEntity
new_entity request now event_id = record {
  id = 0;
  event_id = event_id;
  device_id = request.device_id;
  event_type = request.event_type;
  severity = severity_to_string request.severity;
  status = lit "open";
  error_code = unless_empty request.error_code;
  title = request.title;
  description = unless_empty request.description;
  metric_snapshot_json = unless_empty request.metric_snapshot_json;
  rule_name = unless_empty request.rule_name;
  occurred_at = if is_positive request.occurred_at then request.occurred_at else now;
  resolved_at = none;
  created_at = now;
  updated_at = now;
}

-- The row after a change of status.
unfoldable pub moved_entity : EventStatus → ℤ → EventEntity → EventEntity
moved_entity status now entity = record entity {
  status = status_to_string status;
  updated_at = now;
  resolved_at =
      if status_eq status resolved || status_eq status closed then some now else entity.resolved_at;
}

unfoldable pub passes : ListEventFilter → Event → Bool
passes filter event =
    (is_empty filter.device_id || str_eq event.device_id filter.device_id)
    && (is_empty filter.event_type || str_eq event.event_type filter.event_type)
    && (severity_eq filter.severity EventSeverity.unspecified
        || severity_eq event.severity filter.severity)
    && (status_eq filter.status unspecified || status_eq event.status filter.status)
    && in_time_range event.occurred_at filter.start_time filter.end_time

-- The table and `_sequence`.
pub record Events (DB : Type 0) : Type 0 where
  pub db : DB
  pub sequence : ℕ

module _ {DB : Type 0} (o : Odb EventEntity DB) where
  insert_event : EventEntity → Session DB (Reply Event)
  insert_event entity = do entity' ← o.persist entity; pure (accepted (to_proto entity'))

  unfoldable pub create : CreateEventRequest → ℤ → Events DB → Reply Event × Events DB
  unfolding insert_event
  create request now s =
      if is_empty request.device_id
      then (rejected (lit "device_id is required"), s)
      else if is_empty request.event_type
      then (rejected (lit "event_type is required"), s)
      else if is_empty request.title
      then (rejected (lit "title is required"), s)
      else if severity_eq request.severity EventSeverity.unspecified
      then (rejected (lit "severity is required"), s)
      else let entity = new_entity request now (next_event_id now s.sequence) in
        let (reply, db') =
          catching s.db (transaction o.begin o.commit (insert_event entity) s.db) in
        (reply, record { db = db'; sequence = (s.sequence + 1) % 2 ^ 64 })

  unfoldable pub get : Str → DB → Option Event
  get event_id db = elim (transaction o.begin o.commit (reads (o.query_one event_id)) db) [
    | thrown e ↦ none
    | returned (found, _) ↦ elim found [ none ↦ none | some entity ↦ some (to_proto entity) ]
  ]

  unfoldable pub matched : ListEventFilter → DB → List Event
  matched filter db = elim (transaction o.begin o.commit (reads o.query) db) [
    | thrown e ↦ []
    | returned (rows, _) ↦ keep_if (passes filter) (map to_proto rows)
  ]

  -- The page and `*total`.
  unfoldable pub list : ListEventFilter → DB → List Event × ℕ
  list filter db =
      let all = matched filter db in
      (
        page_slice all (normalize_page filter.page) (normalize_page_size filter.page_size),
        length all,
      )

  move_event : EventStatus → ℤ → Option EventEntity → Session DB (Reply Event)
  move_event status now none = pure (rejected (lit "event not found"))
  move_event status now (some entity) =
      let entity' = moved_entity status now entity in
      writes (accepted (to_proto entity')) (o.update entity')

  unfoldable pub update_status : Str → EventStatus → ℤ → DB → Reply Event × DB
  unfolding move_event
  update_status event_id status now db =
      if is_empty event_id
      then (rejected (lit "event_id is required"), db)
      else if status_eq status unspecified
      then (rejected (lit "status is required"), db)
      else catching db (
          transaction o.begin o.commit
            (do entity ← reads (o.query_one event_id); move_event status now entity) db)
