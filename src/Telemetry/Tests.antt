-- ===== src/Telemetry/Tests.antt =====
-- Runs of the telemetry repository and service, and the theorems at concrete inputs.
use device_ops.Prelude.{ℕ, ℤ, pos, ◌≡◌, true, false, ◌&&◌, some, All, List, [], ◌∷◌, ◌++◌}
use device_ops.Str.{Str, lit}
use device_ops.Odb.Transaction.{returned}
use device_ops.Telemetry.{
  DeviceTelemetry, Repository, RedisSet, ListTelemetryFilter, list_realtime, listed,
}
use device_ops.Telemetry.History.{upload_all, uploads_of, history_of, upload_all_lem}
use device_ops.Telemetry.Online.{is_stale, list_realtime_fresh}
use device_ops.Telemetry.Service.{UploadTelemetryRequest}

abbrev set : RedisSet ℕ
set key value n = returned n

abbrev to_json : DeviceTelemetry ℕ → Str
to_json t = lit "{}"

abbrev r1 : ℤ → DeviceTelemetry ℕ
r1 t = record {
  device_id = lit "r1";
  online = true;
  battery = 80;
  temperature = 20;
  speed = 1;
  run_mode = lit "auto";
  error_code = [];
  reported_at = t;
  metrics = [];
}

abbrev empty : Repository ℕ ℕ
empty = record { offline_timeout_ms = pos 30; redis = some 0; latest = []; history = [] }

abbrev two : List (DeviceTelemetry ℕ × ℤ)
two = (r1 (pos 0), pos 7) ∷ (r1 (pos 9), pos 10) ∷ []

upload_all_lem_example :
    history_of (lit "r1") (upload_all set to_json two empty)
    ≡ history_of (lit "r1") empty ++ uploads_of (lit "r1") two
upload_all_lem_example = (upload_all_lem set to_json two empty (lit "r1")).0

abbrev everything : ListTelemetryFilter
everything = record { page = pos 1; page_size = pos 10; device_ids = []; only_online = false }

abbrev seen : Repository ℕ ℕ
seen = record empty { latest = (lit "r1", r1 (pos 7)) ∷ [] }

list_realtime_fresh_example :
    All
      (λ t. (listed everything t ≡ true) × ((t.online && is_stale (pos 30) (pos 90) t) ≡ false))
      (list_realtime everything (pos 90) seen).0
list_realtime_fresh_example = list_realtime_fresh everything (pos 90) seen

abbrev request : UploadTelemetryRequest ℕ
request = record { trace_id = lit "t"; telemetry = record (r1 (pos 7)) { online = false } }
