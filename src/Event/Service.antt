-- ===== src/Event/Service.antt =====
-- services/event_service/src/event_service_impl.cc: the handlers of EventService. The names that
-- protobuf prints for enum values are parameters; a publish only logs when it fails, so a handler
-- gives the publications that it asks for.
pub mod Alarms
use device_ops.Prelude.{
  ℕ, ℤ, pos, Bool, true, false, Option, none, some, List, [], ◌∷◌, map, if◌then◌else◌,
}
use device_ops.Str.{Str, lit, str_eq}
use device_ops.Paging.{page_or_default, page_size_or_default}
use device_ops.Rpc.{CommonResponse, PageRequest, PageResponse, TimeRange, set_response}
use device_ops.Mq.{Publication, Field, text, int64, alarm_created_route}
use device_ops.Odb.{Odb}
use device_ops.Odb.Transaction.{Reply, accepted, rejected}
use device_ops.Event.{EventEntity, EventSeverity, CreateEventRequest}
use device_ops.Event.Status.{EventStatus}
use device_ops.Event.Repository.{Event, Events, ListEventFilter, create, get, list, update_status}

-- CreateEventResponse, GetEventResponse and UpdateEventStatusResponse have the same fields.
pub record EventResponse : Type 0 where
  pub response : CommonResponse
  pub event : Option Event

pub record ListEventsRequest : Type 0 where
  pub page : PageRequest
  pub device_id : Str
  pub event_type : Str
  pub severity : EventSeverity
  pub status : EventStatus
  pub time_range : TimeRange

pub record ListEventsResponse : Type 0 where
  pub response : CommonResponse
  pub page : PageResponse
  pub events : List Event

unfoldable pub answer : (Str → ℕ) → Reply Event → EventResponse
answer code_of (accepted event) = record {
  response = set_response 0 (lit "ok");
  event = some event;
}
answer code_of (rejected e) = record { response = set_response (code_of e) e; event = none }

unfoldable pub list_filter : ListEventsRequest → ListEventFilter
list_filter request = record {
  page = pos (page_or_default request.page.page);
  page_size = pos (page_size_or_default request.page.page_size);
  device_id = request.device_id;
  event_type = request.event_type;
  severity = request.severity;
  status = request.status;
  start_time = request.time_range.start_time;
  end_time = request.time_range.end_time;
}

module _ {D : Type 0} (severity_name : EventSeverity → Str) (status_name : EventStatus → Str) where
  unfoldable pub alarm_payload : Event → List (Str × Field D)
  alarm_payload event =
      (lit "event_id", text event.event_id)
      ∷ (lit "device_id", text event.device_id)
      ∷ (lit "event_type", text event.event_type)
      ∷ (lit "severity", text (severity_name event.severity))
      ∷ (lit "status", text (status_name event.status))
      ∷ (lit "error_code", text event.error_code)
      ∷ (lit "title", text event.title)
      ∷ (lit "description", text event.description)
      ∷ (lit "rule_name", text event.rule_name)
      ∷ (lit "occurred_at", int64 event.occurred_at)
      ∷ (lit "created_at", int64 event.created_at)
      ∷ []

  -- `publishing` is `_event_publisher != nullptr && _event_publisher->enabled()`.
  alarms : Bool → Str → Reply Event → List (Publication D)
  alarms publishing trace_id (rejected e) = []
  alarms publishing trace_id (accepted event) =
      if publishing
      then record {
        route = alarm_created_route;
        payload = alarm_payload event;
        trace_id = trace_id;
      }
        ∷ []
      else []

  module _ {DB : Type 0} (o : Odb EventEntity DB) where
    unfoldable pub create_event :
        Bool → CreateEventRequest → ℤ → Events DB → EventResponse × Events DB × List (Publication D)
    unfolding alarms
    create_event publishing request now s =
        let (reply, s') = create o request now s in
        (answer (λ e. 400) reply, s', alarms publishing request.trace_id reply)

module _ {DB : Type 0} (o : Odb EventEntity DB) where
  unfoldable pub get_event : Str → DB → EventResponse
  get_event event_id db = elim (get o event_id db) [
    | none ↦ record { response = set_response 404 (lit "event not found"); event = none }
    | some event ↦ record { response = set_response 0 (lit "ok"); event = some event }
  ]

  unfoldable pub list_events : ListEventsRequest → DB → ListEventsResponse
  list_events request db =
      let (events, total) = list o (list_filter request) db in
      record {
        response = set_response 0 (lit "ok");
        page = record {
          page = page_or_default request.page.page;
          page_size = page_size_or_default request.page.page_size;
          total = total;
        };
        events = events;
      }

  unfoldable pub update_event_status : Str → EventStatus → ℤ → DB → EventResponse × DB
  update_event_status event_id status now db =
      let (reply, db') = update_status o event_id status now db in
      (answer (λ e. if str_eq e (lit "event not found") then 404 else 400) reply, db')
