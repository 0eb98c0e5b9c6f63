-- ===== src/Gateway/Forwarder/Requests.antt =====
-- The requests that services/device_gateway/src/downstream_forwarder.cc makes of a message's payload.
use device_ops.Prelude.{Bool, true, false, ◌||◌, List, [], ◌∷◌, if◌then◌else◌}
use device_ops.Str.{Str, lit, str_eq, lower_string}
use device_ops.StdMap.{StdMap, assign}
use device_ops.Json.{Json}
use device_ops.Odb.Transaction.{Outcome, returned}
use device_ops.Device.{CreateDeviceRequest}
use device_ops.Device.Service.{VerifyDeviceAccessRequest}
use device_ops.Telemetry.Service.{UploadTelemetryRequest}
use device_ops.Event.{EventSeverity, info, warning, critical, CreateEventRequest}
use device_ops.Log.{LogEntry}
use device_ops.Outcome.{◌>>=◌}
use device_ops.Gateway.{ParsedMqttMessage, has_member, read_string}

unfoldable pub severity_of : Str → EventSeverity
severity_of severity =
    if str_eq severity (lit "info")
    then info
    else if str_eq severity (lit "critical")
        || str_eq severity (lit "error")
        || str_eq severity (lit "fatal")
    then critical
    else warning

module _ {V D : Type 0} (j : Json V D) where
  -- root.isObject() && root.isMember(name) && test(root[name])
  guarded : (V → Bool) → V → Str → Outcome Bool
  guarded test root name = if j.is_object root then has_member j test root name else returned false

  unfoldable pub get_string : V → Str → Str → Outcome Str
  unfolding guarded read_string
  get_string root name fallback = do
    present ← guarded j.is_string root name
    elim present [ false ↦ returned fallback | true ↦ read_string j root name ]

  get_double : V → Str → D → Outcome D
  unfolding guarded
  get_double root name fallback = do
    present ← guarded j.is_numeric root name
    elim present [
      | false ↦ returned fallback
      | true ↦ do value ← j.member root name; j.as_double value
    ]

  get_bool : V → Str → Bool → Outcome Bool
  unfolding guarded
  get_bool root name fallback = do
    present ← guarded j.is_bool root name
    elim present [
      | false ↦ returned fallback
      | true ↦ do value ← j.member root name; j.as_bool value
    ]

  parse_severity : V → Outcome EventSeverity
  unfolding get_string
  parse_severity payload = do
    severity ← get_string payload (lit "severity") (lit "warning")
    returned (severity_of (lower_string severity))

  -- The loop of setMetrics over the names that are left.
  add_metrics : V → List Str → StdMap D → Outcome (StdMap D)
  add_metrics source [] metrics = returned metrics
  add_metrics source (name ∷ names) metrics = do
    value ← j.member source name
    elim (j.is_numeric value) [
      | false ↦ add_metrics source names metrics
      | true ↦ do number ← j.as_double value; add_metrics source names (assign name number metrics)
    ]

  set_metrics : V → Outcome (StdMap D)
  unfolding guarded add_metrics
  set_metrics payload = do
    present ← guarded j.is_object payload (lit "metrics")
    elim present [
      | false ↦ returned []
      | true ↦ do
        source ← j.member payload (lit "metrics")
        add_metrics source (j.member_names source) []
    ]

  -- The text of `name`, else what is written of `other`, else what is written of the payload.
  text_or_written : V → Str → Str → Outcome Str
  unfolding read_string
  text_or_written payload name other = do
    is_text ← has_member j j.is_string payload name
    elim is_text [
      | true ↦ read_string j payload name
      | false ↦ do
        present ← j.is_member payload other
        elim present [
          | false ↦ returned (j.write payload)
          | true ↦ do value ← j.member payload other; returned (j.write value)
        ]
    ]

  add_tags : List V → Outcome (List Str)
  add_tags [] = returned []
  add_tags (tag ∷ tags) = do
    rest ← add_tags tags
    elim (j.is_string tag) [
      | false ↦ returned rest
      | true ↦ do text ← j.as_string tag; returned (text ∷ rest)
    ]

  tags_of : V → Outcome (List Str)
  unfolding add_tags
  tags_of payload = do
    present ← has_member j j.is_array payload (lit "tags")
    elim present [
      | false ↦ returned []
      | true ↦ do tags ← j.member payload (lit "tags"); add_tags (j.elements tags)
    ]

  unfoldable pub create_device_request : ParsedMqttMessage V → Outcome CreateDeviceRequest
  create_device_request message = do
    device_name ← get_string message.payload (lit "device_name") message.device_id
    device_type ← get_string message.payload (lit "device_type") (lit "device")
    model ← get_string message.payload (lit "model") []
    manufacturer ← get_string message.payload (lit "manufacturer") []
    location ← get_string message.payload (lit "location") []
    access_token ← get_string message.payload (lit "access_token") []
    description ← get_string message.payload (lit "description") []
    returned (record {
      device_id = message.device_id;
      device_name = device_name;
      device_type = device_type;
      model = model;
      manufacturer = manufacturer;
      location = location;
      access_token = access_token;
      protocol = lit "mqtt";
      description = description;
    })

  unfoldable pub verify_request : ParsedMqttMessage V → Outcome VerifyDeviceAccessRequest
  verify_request message = do
    access_token ← get_string message.payload (lit "access_token") []
    returned (record {
      device_id = message.device_id;
      access_token = access_token;
      protocol = lit "mqtt";
    })

  unfoldable pub telemetry_request : D → ParsedMqttMessage V → Outcome (UploadTelemetryRequest D)
  unfolding get_bool get_double set_metrics
  telemetry_request zero_double message = do
    online ← get_bool message.payload (lit "online") true
    battery ← get_double message.payload (lit "battery") zero_double
    temperature ← get_double message.payload (lit "temperature") zero_double
    speed ← get_double message.payload (lit "speed") zero_double
    run_mode ← get_string message.payload (lit "run_mode") []
    error_code ← get_string message.payload (lit "error_code") []
    metrics ← set_metrics message.payload
    returned (record {
      trace_id = message.message_id;
      telemetry = record {
        device_id = message.device_id;
        online = online;
        battery = battery;
        temperature = temperature;
        speed = speed;
        run_mode = run_mode;
        error_code = error_code;
        reported_at = message.timestamp;
        metrics = metrics;
      };
    })

  unfoldable pub event_request : ParsedMqttMessage V → Outcome CreateEventRequest
  unfolding parse_severity text_or_written
  event_request message = do
    alarm_type ← get_string message.payload (lit "alarm_type") (lit "alarm")
    event_type ← get_string message.payload (lit "event_type") alarm_type
    severity ← parse_severity message.payload
    error_code ← get_string message.payload (lit "error_code") []
    title ← get_string message.payload (lit "title") (lit "device alarm")
    text ← get_string message.payload (lit "message") []
    description ← get_string message.payload (lit "description") text
    rule_name ← get_string message.payload (lit "rule_name") []
    snapshot ← text_or_written message.payload (lit "metric_snapshot_json") (lit "metrics")
    returned (record {
      trace_id = message.message_id;
      device_id = message.device_id;
      event_type = event_type;
      severity = severity;
      error_code = error_code;
      title = title;
      description = description;
      metric_snapshot_json = snapshot;
      rule_name = rule_name;
      occurred_at = message.timestamp;
    })

  unfoldable pub log_request : ParsedMqttMessage V → Outcome LogEntry
  unfolding text_or_written tags_of
  log_request message = do
    log_id ← get_string message.payload (lit "log_id") message.message_id
    service_name ← get_string message.payload (lit "service_name") (lit "device-gateway")
    source_type ← get_string message.payload (lit "source_type") (lit "device")
    level ← get_string message.payload (lit "level") (lit "info")
    text ← get_string message.payload (lit "message") (j.write message.payload)
    error_code ← get_string message.payload (lit "error_code") []
    event_id ← get_string message.payload (lit "event_id") []
    tags ← tags_of message.payload
    context_json ← text_or_written message.payload (lit "context_json") (lit "context")
    returned (record {
      log_id = log_id;
      trace_id = message.message_id;
      device_id = message.device_id;
      service_name = service_name;
      source_type = source_type;
      level = level;
      message = text;
      error_code = error_code;
      event_id = event_id;
      tags = tags;
      context_json = context_json;
      timestamp = message.timestamp;
    })
