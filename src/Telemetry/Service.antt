-- ===== src/Telemetry/Service.antt =====
-- services/telemetry_service/src/telemetry_service_impl.cc: the handlers of TelemetryService. A
-- publish only logs when it fails, so a handler gives the publications that it asks for.
pub mod Announcements
use device_ops.Prelude.{
  ℕ, ℤ, pos, Bool, true, false, Option, none, some, List, [], ◌∷◌, ◌++◌, if◌then◌else◌,
}
use device_ops.Str.{Str, lit, is_empty}
use device_ops.Paging.{page_or_default, page_size_or_default}
use device_ops.Rpc.{CommonResponse, PageRequest, PageResponse, TimeRange, set_response}
use device_ops.Mq.{
  Publication, Field, text, int64, flag, double, doubles, telemetry_status_route,
  telemetry_offline_route,
}
use device_ops.Telemetry.{
  DeviceTelemetry, Repository, RedisSet, ListTelemetryFilter, QueryHistoryFilter, upload,
  get_realtime, list_realtime, query_history,
}

pub record UploadTelemetryRequest (D : Type 0) : Type 0 where
  pub trace_id : Str
  pub telemetry : DeviceTelemetry D

pub record GetRealtimeStatusResponse (D : Type 0) : Type 0 where
  pub response : CommonResponse
  pub telemetry : Option (DeviceTelemetry D)

pub record ListRealtimeStatusRequest : Type 0 where
  pub page : PageRequest
  pub device_ids : List Str
  pub device_type : Str
  pub only_online : Bool

pub record QueryTelemetryHistoryRequest : Type 0 where
  pub device_id : Str
  pub time_range : TimeRange
  pub page : PageRequest

-- ListRealtimeStatusResponse and QueryTelemetryHistoryResponse have the same fields.
pub record TelemetryPage (D : Type 0) : Type 0 where
  pub response : CommonResponse
  pub page : PageResponse
  pub items : List (DeviceTelemetry D)

unfoldable pub status_payload : {D : Type 0} → DeviceTelemetry D → List (Str × Field D)
status_payload t =
    (lit "device_id", text t.device_id)
    ∷ (lit "online", flag t.online)
    ∷ (lit "battery", double t.battery)
    ∷ (lit "temperature", double t.temperature)
    ∷ (lit "speed", double t.speed)
    ∷ (lit "run_mode", text t.run_mode)
    ∷ (lit "error_code", text t.error_code)
    ∷ (lit "reported_at", int64 t.reported_at)
    ∷ (lit "metrics", doubles t.metrics)
    ∷ []

-- The status, and the offline notice of a device that reports that it is not online.
announcements : {D : Type 0} → Bool → UploadTelemetryRequest D → List (Publication D)
announcements publishing request =
    let payload = status_payload request.telemetry in
    let notice =
      record { route = telemetry_offline_route; payload = payload; trace_id = request.trace_id }
      ∷ [] in
    if publishing
    then record { route = telemetry_status_route; payload = payload; trace_id = request.trace_id }
      ∷ (if request.telemetry.online then [] else notice)
    else []

module _ {D R : Type 0} (set : RedisSet R) (to_json : DeviceTelemetry D → Str) where
  -- `publishing` is `_event_publisher != nullptr && _event_publisher->enabled()`.
  unfoldable pub upload_telemetry :
      Bool
      → UploadTelemetryRequest D
      → ℤ
      → Repository D R
      → CommonResponse × Repository D R × List (Publication D)
  unfolding announcements
  upload_telemetry publishing request now s =
      if is_empty request.telemetry.device_id
      then (
        record { code = 400; message = lit "device_id is required"; trace_id = request.trace_id },
        s,
        [],
      )
      else (
        record { code = 0; message = lit "ok"; trace_id = request.trace_id },
        upload set to_json request.telemetry now s,
        announcements publishing request,
      )

module _ {D R : Type 0} where
  unfoldable pub get_realtime_status : Str → ℤ → Repository D R → GetRealtimeStatusResponse D
  get_realtime_status device_id now s = elim (get_realtime device_id now s) [
    | none ↦ record { response = set_response 404 (lit "telemetry not found"); telemetry = none }
    | some t ↦ record { response = set_response 0 (lit "ok"); telemetry = some t }
  ]

paged : {D : Type 0} → PageRequest → List (DeviceTelemetry D) × ℕ → TelemetryPage D
paged page (items, total) = record {
  response = set_response 0 (lit "ok");
  page = record {
    page = page_or_default page.page;
    page_size = page_size_or_default page.page_size;
    total = total;
  };
  items = items;
}

module _ {D R : Type 0} where
  unfoldable pub list_realtime_status :
      ListRealtimeStatusRequest → ℤ → Repository D R → TelemetryPage D
  unfolding paged
  list_realtime_status request now s =
      let filter : ListTelemetryFilter = record {
        page = pos (page_or_default request.page.page);
        page_size = pos (page_size_or_default request.page.page_size);
        device_ids = request.device_ids;
        only_online = request.only_online;
      } in
      paged request.page (list_realtime filter now s)

  unfoldable pub query_telemetry_history :
      QueryTelemetryHistoryRequest → Repository D R → TelemetryPage D
  unfolding paged
  query_telemetry_history request s =
      let filter : QueryHistoryFilter = record {
        device_id = request.device_id;
        start_time = request.time_range.start_time;
        end_time = request.time_range.end_time;
        page = pos (page_or_default request.page.page);
        page_size = pos (page_size_or_default request.page.page_size);
      } in
      paged request.page (query_history filter s)
