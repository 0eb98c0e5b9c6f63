-- ===== src/Gateway/Tests.antt =====
-- The gateway's theorems at concrete inputs, with a JSON library that knows a few values.
use device_ops.Prelude.{
  ◌≢◌, ℕ, ◌+◌, pos, ◌≡◌, refl, Bool, true, false, Option, none, some, List, [], ◌∷◌, if◌then◌else◌,
  arith,
}
use device_ops.Str.{Str, lit, str_eq, str_eq_iff}
use device_ops.StdMap.{lookup}
use device_ops.Json.{Json, IsJson}
use device_ops.Odb.Transaction.{Outcome, returned, thrown, accepted, rejected}
use device_ops.Gateway.Topic.{
  split_topic, join, NoSlash, AllNoSlash, split_topic-join, join-split_topic,
}
use device_ops.Gateway.{
  GatewayServer, ConnectedDeviceRecord, ParsedMqttMessage, MqttMessage, Clock, Forward,
  handle_mqtt_message, update_device_view, mark_received, parse_payload,
}
use device_ops.Rpc.{set_response}
use device_ops.Device.{DeviceEntity, to_proto, status_from_string, status_eq}
use device_ops.Device.Repository.Changes.{device_column}
use device_ops.Odb.{Odb, Answers}
use device_ops.Odb.Memory.{Rows, memory}
use device_ops.Gateway.Forwarder.Readmission.{
  with_device_service, forward_register-with_device_service,
}
use device_ops.Gateway.Forwarder.{DownstreamForwarder, forward_register}
use device_ops.Gateway.Accounting.{
  IsBalanced, idle, next, counter, handle_mqtt_message-IsBalanced, fresh-Serves-IsBalanced,
  handle_mqtt_message_escapes,
}
use device_ops.Gateway.View.{IsView, update_device_view_known, handle_mqtt_message-IsView}

-- The texts "1" and "{}", and the heartbeat of the robot.
data Value : Type 0 where
  number beat_object object : Value
  string : Str → Value

is_object : Value → Bool
is_object number = false
is_object beat_object = true
is_object object = true
is_object (string s) = false

parse : Str → Outcome (Option Value)
parse s =
    if str_eq s (lit "1")
    then returned (some number)
    else if str_eq s (lit "{}")
    then returned (some object)
    else if str_eq s (lit "h")
    then returned (some beat_object)
    else if str_eq s (lit "deep")
    then thrown (lit "Exceeded stackLimit in readValue().")
    else returned none

is_string : Value → Bool
is_string (string s) = true
is_string v = false

is_numeric : Value → Bool
is_numeric number = true
is_numeric v = false

is_member : Value → Str → Outcome Bool
is_member beat_object k = returned true
is_member object k = returned false
is_member v k = thrown (lit "in Json::Value::find: requires objectValue or nullValue")

member : Value → Str → Outcome Value
member beat_object k =
    returned (elim (str_eq k (lit "timestamp")) [ true ↦ number | false ↦ string (lit "r1") ])
member v k = thrown (lit "member")

as_string : Value → Outcome Str
as_string (string s) = returned s
as_string v = thrown (lit "Value is not convertible to string")

json : Json Value ℕ
unfolding parse is_object is_string is_numeric is_member member as_string
json = record {
  parse = parse;
  write = λ v. [];
  is_object = is_object;
  is_array = λ v. false;
  is_string = is_string;
  is_numeric = is_numeric;
  is_bool = λ v. false;
  is_member = is_member;
  member = member;
  as_string = as_string;
  as_int64 = λ v. returned (pos 41);
  as_double = λ v. thrown (lit "double");
  as_bool = λ v. thrown (lit "bool");
  elements = λ v. [];
  member_names = λ v. [];
}

throws :
    (v : Value) (k : Str) → json.is_object v ≡ false → (e : Str) × (json.is_member v k ≡ thrown e)
unfolding json is_object is_member
throws number k h = (_, refl)
throws beat_object k h = cc
throws object k h = cc
throws (string s) k h = (_, refl)

returns :
    (v : Value) (k : Str) → json.is_object v ≡ true → (b : Bool) × (json.is_member v k ≡ returned b)
unfolding json is_object is_member
returns number k h = cc
returns beat_object k h = (true, refl)
returns object k h = (false, refl)
returns (string s) k h = cc

json-IsJson : IsJson json (λ v. false)
json-IsJson = record { is_member_throws = λ v k h n. throws v k h; is_member_returns = returns }

-- The services take every message and count them.
abbrev forward : Forward Value ℕ
forward parsed n = (returned (accepted tt), n + 1)

abbrev clock : Clock
clock = record { received_at = pos 50; viewed_at = pos 51; done_at = pos 52 }

abbrev fresh : GatewayServer
fresh = record { broker_uri = lit "tcp"; updated_at = pos 0; stats = []; devices = [] }

abbrev heartbeat : MqttMessage
heartbeat = record { topic = lit "device/r1/heartbeat"; payload = lit "h" }

abbrev one : MqttMessage
one = record { topic = lit "device/r1/log"; payload = lit "1" }

device_plain : NoSlash (lit "device")
device_plain = (refl, (refl, (refl, (refl, (refl, (refl, tt))))))

r1_plain : NoSlash (lit "r1")
r1_plain = (refl, (refl, tt))

log_plain : NoSlash (lit "log")
log_plain = (refl, (refl, (refl, tt)))

topic_parts : split_topic one.topic ≡ lit "device" ∷ lit "r1" ∷ lit "log" ∷ []
topic_parts =
    split_topic-join (lit "device") (lit "r1" ∷ lit "log" ∷ []) device_plain
      (r1_plain, (log_plain, tt))

split_topic-join_example :
    split_topic (lit "device/r1/log") ≡ lit "device" ∷ lit "r1" ∷ lit "log" ∷ []
split_topic-join_example =
    split_topic-join (lit "device") (lit "r1" ∷ lit "log" ∷ []) device_plain
      (r1_plain, (log_plain, tt))

join-split_topic_example :
    (p : Str) × (ps : List Str) × (split_topic (lit "device//log") ≡ p ∷ ps)
    × (join p ps ≡ lit "device//log")
    × NoSlash p
    × AllNoSlash ps
join-split_topic_example = join-split_topic (lit "device//log")

heartbeat_kept : (handle_mqtt_message json forward clock heartbeat fresh 0).escaped ≡ none
unfolding handle_mqtt_message parse_payload json parse split_topic str_eq is_object is_string
    is_numeric is_member member as_string
heartbeat_kept = refl

fresh-IsBalanced : IsBalanced fresh
unfolding counter lookup
fresh-IsBalanced k = refl

handle_mqtt_message-IsBalanced_example :
    IsBalanced (handle_mqtt_message json forward clock heartbeat fresh 0).server
handle_mqtt_message-IsBalanced_example =
    handle_mqtt_message-IsBalanced json forward clock heartbeat fresh 0 fresh-IsBalanced
      heartbeat_kept

fresh-Serves-IsBalanced_example :
    IsBalanced (handle_mqtt_message json forward clock heartbeat fresh 0).server
fresh-Serves-IsBalanced_example =
    fresh-Serves-IsBalanced json forward refl (next clock heartbeat idle heartbeat_kept)

handle_mqtt_message_escapes_example :
    (handle_mqtt_message json forward clock one fresh 0).server
    ≡ mark_received (lit "log") (pos 50) fresh
handle_mqtt_message_escapes_example =
    (handle_mqtt_message_escapes json forward (λ v. false) json-IsJson clock (lit "r1") (lit "log")
      number one fresh 0 topic_parts (unfold json parse str_eq in refl)
      (unfold json is_object in refl) refl).1

fresh-IsView : IsView fresh
unfolding lookup
fresh-IsView = record { sorted = tt; keyed = λ k r h. cc }

handle_mqtt_message-IsView_example :
    IsView (handle_mqtt_message json forward clock heartbeat fresh 0).server
handle_mqtt_message-IsView_example =
    handle_mqtt_message-IsView json forward clock heartbeat fresh 0 fresh-IsView

abbrev known : ConnectedDeviceRecord
known = record {
  device_id = lit "r1";
  client_id = lit "r1";
  remote_addr = lit "tcp";
  connected_at = pos 3;
  last_heartbeat_at = pos 4;
}

abbrev with_known : GatewayServer
with_known = record fresh { devices = (lit "r1", known) ∷ [] }

abbrev parsed_beat : ParsedMqttMessage Value
parsed_beat = record {
  message_type = lit "heartbeat";
  device_id = lit "r1";
  message_id = lit "m";
  timestamp = pos 41;
  payload = object;
}

with_known-IsView : IsView with_known
unfolding lookup str_eq
with_known-IsView = record { sorted = tt; keyed = λ k r h. ground (arith, str_eq_iff (lit "r1") k) }

update_device_view_known_example :
    lookup (lit "r1") (update_device_view parsed_beat (pos 51) with_known).devices
    ≡ some (record known { last_heartbeat_at = pos 41 })
unfolding str_eq
update_device_view_known_example =
    update_device_view_known parsed_beat (pos 51) with_known (lit "r1") known with_known-IsView
      (unfold lookup str_eq in refl)

-- The device service knows the robot and its token.
abbrev services : DownstreamForwarder ℕ ℕ
services = record {
  enabled = true;
  device_stub = true;
  telemetry_stub = false;
  event_stub = false;
  log_stub = false;
  create_device =
      λ request n. (accepted (set_response 409 (lit "device_id already exists")), n + 1);
  verify_device_access = λ request n. (
    accepted (record { response = set_response 0 (lit "ok"); allowed = true; device = none }),
    n + 1,
  );
  upload_telemetry = λ request n. (rejected (lit "down"), n);
  create_event = λ request n. (rejected (lit "down"), n);
  write_log = λ request n. (rejected (lit "down"), n);
}

abbrev disabled_robot : DeviceEntity
disabled_robot = record {
  id = 1;
  device_id = lit "r1";
  device_name = lit "robot";
  device_type = lit "robot";
  model = none;
  manufacturer = none;
  location = none;
  status = lit "disabled";
  access_token_hash = none;
  protocol = lit "mqtt";
  description = none;
  created_at = pos 1;
  updated_at = pos 2;
}

abbrev table : Odb DeviceEntity (Rows DeviceEntity)
table = memory (device_column str_eq)

abbrev rows : Rows DeviceEntity
rows = record { rows = disabled_robot ∷ []; next = 2 }

abbrev stubs : DownstreamForwarder ℕ (Rows DeviceEntity)
stubs = record {
  enabled = true;
  device_stub = true;
  telemetry_stub = false;
  event_stub = false;
  log_stub = false;
  create_device = λ request db. (rejected (lit "down"), db);
  verify_device_access = λ request db. (rejected (lit "down"), db);
  upload_telemetry = λ request db. (rejected (lit "down"), db);
  create_event = λ request db. (rejected (lit "down"), db);
  write_log = λ request db. (rejected (lit "down"), db);
}

table-Answers : Answers table rows (lit "r1") (some disabled_robot)
unfolding memory str_eq
table-Answers = record { begins = refl; answers = refl; commits = refl }

forward_register-with_device_service_example :
    (forward_register json (with_device_service table (pos 5) stubs) parsed_beat rows).0
    ≢ returned (accepted tt)
forward_register-with_device_service_example =
    forward_register-with_device_service json table (pos 5) stubs parsed_beat rows disabled_robot tt
      table-Answers (unfold to_proto status_from_string str_eq status_eq in refl)
