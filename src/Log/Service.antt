-- ===== src/Log/Service.antt =====
-- services/log_service/src/log_service_impl.cc: the handlers of LogService. A publish only logs when
-- it fails, so a handler gives the publications that it asks for.
pub mod Writes
use device_ops.Prelude.{
  ℤ, pos, ◌≡◌, refl, Bool, not, ◌⊎◌, inl, inr, List, [], ◌∷◌, is_positive, if◌then◌else◌, arith,
}
use device_ops.Str.{Str, lit, is_empty}
use device_ops.Paging.{page_or_default, page_size_or_default}
use device_ops.Rpc.{CommonResponse, PageRequest, PageResponse, TimeRange, set_response}
use device_ops.Mq.{Publication, Field, text, int64, texts, log_received_route}
use device_ops.Odb.Transaction.{Reply, accepted, rejected}
use device_ops.Sorting.{Sort}
use device_ops.Log.{
  LogEntry, LogQueryFilter, Repository, Elastic, next_log_id, normalize, push_recent, write, query,
  context,
}

pub record QueryLogsRequest : Type 0 where
  pub page : PageRequest
  pub device_id : Str
  pub service_name : Str
  pub level : Str
  pub keyword : Str
  pub event_id : Str
  pub time_range : TimeRange

pub record QueryLogsResponse : Type 0 where
  pub response : CommonResponse
  pub page : PageResponse
  pub logs : List LogEntry

pub record GetLogContextRequest : Type 0 where
  pub device_id : Str
  pub center_time : ℤ
  pub before_ms : ℤ
  pub after_ms : ℤ
  pub limit : ℤ

pub record GetLogContextResponse : Type 0 where
  pub response : CommonResponse
  pub logs : List LogEntry

-- The payload is made of the request's log, not of the log as it was stored.
unfoldable pub log_payload : {D : Type 0} → LogEntry → List (Str × Field D)
log_payload log =
    (lit "log_id", text log.log_id)
    ∷ (lit "trace_id", text log.trace_id)
    ∷ (lit "device_id", text log.device_id)
    ∷ (lit "service_name", text log.service_name)
    ∷ (lit "source_type", text log.source_type)
    ∷ (lit "level", text log.level)
    ∷ (lit "message", text log.message)
    ∷ (lit "error_code", text log.error_code)
    ∷ (lit "event_id", text log.event_id)
    ∷ (lit "timestamp", int64 log.timestamp)
    ∷ (lit "tags", texts log.tags)
    ∷ []

written :
    {D S : Type 0}
    → Bool
    → LogEntry
    → Reply (Unit {0}) × Repository S
    → CommonResponse × Repository S × List (Publication D)
written publishing log (rejected e, s) = (set_response 503 e, s, [])
written publishing log (accepted _, s) = (
  set_response 0 (lit "ok"),
  s,
  if publishing
      then record { route = log_received_route; payload = log_payload log; trace_id = log.trace_id }
        ∷ []
      else [],
)

module _ {S : Type 0} (es : Elastic S) where
  -- `publishing` is `_event_publisher != nullptr && _event_publisher->enabled()`.
  unfoldable pub write_log :
      {D : Type 0}
      → Bool
      → LogEntry
      → ℤ
      → Repository S
      → CommonResponse × Repository S × List (Publication D)
  unfolding written
  write_log publishing log now s = written publishing log (write es log now s)

unfoldable pub query_filter : QueryLogsRequest → LogQueryFilter
query_filter request = record {
  page = pos (page_or_default request.page.page);
  page_size = pos (page_size_or_default request.page.page_size);
  device_id = request.device_id;
  service_name = request.service_name;
  level = request.level;
  keyword = request.keyword;
  event_id = request.event_id;
  start_time = request.time_range.start_time;
  end_time = request.time_range.end_time;
}

module _ {S : Type 0} (es : Elastic S) (sort : Sort LogEntry) where
  unfoldable pub query_logs : QueryLogsRequest → ℤ → Repository S → QueryLogsResponse
  query_logs request now s =
      let (logs, total) = query es sort (query_filter request) now s in
      record {
        response = set_response 0 (lit "ok");
        page = record {
          page = page_or_default request.page.page;
          page_size = page_size_or_default request.page.page_size;
          total = total;
        };
        logs = logs;
      }

  unfoldable pub get_log_context : GetLogContextRequest → ℤ → Repository S → GetLogContextResponse
  get_log_context request now s =
      if is_empty request.device_id
      then record { response = set_response 400 (lit "device_id is required"); logs = [] }
      else if not (is_positive request.center_time)
      then record { response = set_response 400 (lit "center_time is required"); logs = [] }
      else record {
        response = set_response 0 (lit "ok");
        logs =
            context es sort request.device_id request.center_time request.before_ms request.after_ms
              request.limit now s;
      }
