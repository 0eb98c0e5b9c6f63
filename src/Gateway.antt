-- ===== src/Gateway.antt =====
-- services/device_gateway/src/gateway_server.cc: the gateway's counters and device view, and what a
-- message from the MQTT broker does to them. The broker's client, the clock and the JSON library are
-- parameters; DownstreamForwarder is one too, behind the interface `Forward`.
pub mod Topic
pub mod Accounting
pub mod View
pub mod Rpc
pub mod Forwarder
pub mod Config
mod Tests
use device_ops.Prelude.{
  ℕ, suc, ◌+◌, ◌%◌, ◌^◌, ℤ, pos, Bool, true, false, not, ◌&&◌, ◌||◌, Option, none, some, List, [],
  ◌∷◌, ◌++◌, map, keep_if, length, min, is_positive, is_zero, ltb, if◌then◌else◌,
}
use device_ops.Str.{Str, lit, is_empty, str_eq, finds}
use device_ops.StdMap.{StdMap, lookup, assign, index_or}
use device_ops.Paging.{normalize_page, normalize_page_size, page_slice}
use device_ops.Json.{Json}
use device_ops.Outcome.{◌>>=◌}
use device_ops.Odb.Transaction.{Outcome, returned, thrown, Reply, accepted, rejected}
use Topic.{split_topic, message_type_from_topic}

pub record ForwardingCounter : Type 0 where
  pub received : ℕ
  pub forwarded : ℕ
  pub dropped : ℕ
  pub failed : ℕ
  pub updated_at : ℤ

pub record ConnectedDeviceRecord : Type 0 where
  pub device_id : Str
  pub client_id : Str
  pub remote_addr : Str
  pub connected_at : ℤ
  pub last_heartbeat_at : ℤ

pub record ParsedMqttMessage (V : Type 0) : Type 0 where
  pub message_type : Str
  pub device_id : Str
  pub message_id : Str
  pub timestamp : ℤ
  pub payload : V

pub record MqttMessage : Type 0 where
  pub topic : Str
  pub payload : Str

-- The members that handleMqttMessage reads and writes; `broker_uri` is _config.mqtt.broker_uri().
pub record GatewayServer : Type 0 where
  pub broker_uri : Str
  pub updated_at : ℤ
  pub stats : StdMap ForwardingCounter
  pub devices : StdMap ConnectedDeviceRecord

-- What currentUnixMillis() returns in the course of one message.
pub record Clock : Type 0 where
  pub received_at : ℤ
  pub viewed_at : ℤ
  pub done_at : ℤ

abbrev pub zero_counter : ForwardingCounter
zero_counter = record { received = 0; forwarded = 0; dropped = 0; failed = 0; updated_at = pos 0 }

abbrev pub zero_device : ConnectedDeviceRecord
zero_device = record {
  device_id = [];
  client_id = [];
  remote_addr = [];
  connected_at = pos 0;
  last_heartbeat_at = pos 0;
}

-- `++` on a uint64_t.
abbrev pub bump : ℕ → ℕ
bump n = (n + 1) % 2 ^ 64

unfoldable pub mark :
    (ForwardingCounter → ForwardingCounter) → Str → ℤ → GatewayServer → GatewayServer
mark count message_type now g =
    let counter = record (count (index_or zero_counter message_type g.stats)) {
      updated_at = now;
    } in
    record g { stats = assign message_type counter g.stats; updated_at = now }

unfoldable pub mark_received : Str → ℤ → GatewayServer → GatewayServer
mark_received = mark (λ c. record c { received = bump c.received })

unfoldable pub mark_forwarded : Str → ℤ → GatewayServer → GatewayServer
mark_forwarded = mark (λ c. record c { forwarded = bump c.forwarded })

unfoldable pub mark_dropped : Str → ℤ → GatewayServer → GatewayServer
mark_dropped = mark (λ c. record c { dropped = bump c.dropped })

unfoldable pub mark_failed : Str → ℤ → GatewayServer → GatewayServer
mark_failed = mark (λ c. record c { failed = bump c.failed })

unfoldable pub seen_device : Str → Str → ℤ → ConnectedDeviceRecord → ConnectedDeviceRecord
seen_device broker_uri device_id now device =
    if is_empty device.device_id
    then record device {
      device_id = device_id;
      client_id = device_id;
      remote_addr = broker_uri;
      connected_at = now;
    }
    else device

unfoldable pub beat : Bool → ℤ → ℤ → ConnectedDeviceRecord → ConnectedDeviceRecord
beat is_heartbeat timestamp now device =
    if is_heartbeat
    then record device { last_heartbeat_at = if is_positive timestamp then timestamp else now }
    else if is_zero device.last_heartbeat_at
    then record device { last_heartbeat_at = now }
    else device

unfoldable pub update_device_view :
    {V : Type 0} → ParsedMqttMessage V → ℤ → GatewayServer → GatewayServer
update_device_view parsed now g =
    let device =
      seen_device g.broker_uri parsed.device_id now
        (index_or zero_device parsed.device_id g.devices) in
    record g {
      devices =
          assign parsed.device_id
            (beat (str_eq parsed.message_type (lit "heartbeat")) parsed.timestamp now device)
            g.devices;
    }

abbrev pub supported : Str → Bool
supported type =
    str_eq type (lit "register")
    || str_eq type (lit "telemetry")
    || str_eq type (lit "alarm")
    || str_eq type (lit "log")
    || str_eq type (lit "heartbeat")

module _ {V D : Type 0} (j : Json V D) where
  -- root.isMember(name) && test(root[name])
  unfoldable pub has_member : (V → Bool) → V → Str → Outcome Bool
  has_member test root name = do
    present ← j.is_member root name
    elim present [
      | false ↦ returned false
      | true ↦ do value ← j.member root name; returned (test value)
    ]

  unfoldable pub read_string : V → Str → Outcome Str
  read_string root name = do value ← j.member root name; j.as_string value

  read_parsed : Str → V → Outcome (Option (ParsedMqttMessage V))
  unfolding read_string
  read_parsed type root = do
    device_id ← read_string root (lit "device_id")
    message_id ← read_string root (lit "message_id")
    value ← j.member root (lit "timestamp")
    timestamp ← j.as_int64 value
    returned (
        some (record {
          message_type = type;
          device_id = device_id;
          message_id = message_id;
          timestamp = timestamp;
          payload = root;
        }))

  -- The tests on the parsed JSON, each with its early `return false`.
  check_root : Str → Str → V → Outcome (Option (ParsedMqttMessage V))
  unfolding has_member read_string
  check_root topic_device_id type root = do
    has_id ← has_member j.is_string root (lit "message_id")
    elim has_id [
      | false ↦ returned none
      | true ↦ do
        has_device ← has_member j.is_string root (lit "device_id")
        elim has_device [
          | false ↦ returned none
          | true ↦ do
            has_time ← has_member j.is_numeric root (lit "timestamp")
            elim has_time [
              | false ↦ returned none
              | true ↦ do
                device_id ← read_string root (lit "device_id")
                if not (str_eq device_id topic_device_id)
                    then returned none
                    else if not (supported type)
                    then returned none
                    else read_parsed type root
            ]
        ]
    ]

  parse_parts : List Str → Str → Outcome (Option (ParsedMqttMessage V))
  parse_parts (root ∷ device_id ∷ type ∷ []) payload =
      if not (str_eq root (lit "device")) then returned none else elim (j.parse payload) [
        | thrown e ↦ thrown e
        | returned found ↦ elim found [
          | none ↦ returned none
          | some value ↦ check_root device_id type value
        ]
      ]
  parse_parts parts payload = returned none

  unfoldable pub parse_payload : Str → Str → Outcome (Option (ParsedMqttMessage V))
  unfolding parse_parts check_root read_parsed
  parse_payload topic payload = parse_parts (split_topic topic) payload

-- DownstreamForwarder::forward over the state of the services behind it: `true`, or `false` and the
-- error; an exception of the JSON library may pass through it.
abbrev pub Forward : Type 0 → Type 0 → Type 0
Forward V F = ParsedMqttMessage V → F → Outcome (Reply (Unit {0})) × F

-- After a message: an exception that left the handler, if any.
pub record Handled (F : Type 0) : Type 0 where
  pub server : GatewayServer
  pub downstream : F
  pub escaped : Option Str

module _ {V D F : Type 0} (j : Json V D) (forward : Forward V F) where
  settle : ParsedMqttMessage V → ℤ → GatewayServer → Outcome (Reply (Unit {0})) × F → Handled F
  settle parsed now g (thrown e, f) = record { server = g; downstream = f; escaped = some e }
  settle parsed now g (returned (rejected e), f) = record {
    server = mark_failed parsed.message_type now g;
    downstream = f;
    escaped = none;
  }
  settle parsed now g (returned (accepted _), f) = record {
    server = mark_forwarded parsed.message_type now g;
    downstream = f;
    escaped = none;
  }

  handle_parsed :
      Str → Clock → GatewayServer → F → Outcome (Option (ParsedMqttMessage V)) → Handled F
  handle_parsed type clock g f (thrown e) = record { server = g; downstream = f; escaped = some e }
  handle_parsed type clock g f (returned none) = record {
    server = mark_dropped type clock.done_at g;
    downstream = f;
    escaped = none;
  }
  handle_parsed type clock g f (returned (some parsed)) =
      settle parsed clock.done_at (update_device_view parsed clock.viewed_at g) (forward parsed f)

  unfoldable pub handle_mqtt_message : Clock → MqttMessage → GatewayServer → F → Handled F
  unfolding handle_parsed settle
  handle_mqtt_message clock message g f =
      let type = message_type_from_topic message.topic in
      handle_parsed type clock (mark_received type clock.received_at g) f
        (parse_payload j message.topic message.payload)

unfoldable pub forwarding_stats : Str → GatewayServer → List (Str × ForwardingCounter)
forwarding_stats message_type g =
    keep_if (λ item. is_empty message_type || str_eq item.0 message_type) g.stats

abbrev matching_devices : Str → GatewayServer → List ConnectedDeviceRecord
matching_devices keyword g =
    keep_if (λ r. is_empty keyword || finds r.device_id keyword || finds r.client_id keyword)
      (map (λ (item : Str × ConnectedDeviceRecord). item.1) g.devices)

-- The page and `*total`.
unfoldable pub connected_devices : Str → ℤ → ℤ → GatewayServer → List ConnectedDeviceRecord × ℕ
connected_devices keyword page page_size g =
    let all = matching_devices keyword g in
    (page_slice all (normalize_page page) (normalize_page_size page_size), length all)
