-- ===== src/Mq.antt =====
-- common/src/mq/rabbitmq_event_publisher.cc: the routes of the event publisher, the topology that it
-- declares for its service, and a publish. The broker's client, the JSON writer and the clock are
-- parameters.
pub mod Topology
pub mod Config
use device_ops.Prelude.{
  ℕ, ◌+◌, ◌%◌, ◌^◌, ℤ, Bool, true, false, ◌&&◌, Option, none, some, List, [], ◌∷◌, ◌++◌, map,
  if◌then◌else◌,
}
use device_ops.Str.{Str, lit, str_eq, decimal, signed_decimal}
use device_ops.StdMap.{StdMap}

pub record Route : Type 0 where
  pub exchange : Str
  pub queue : Str
  pub routing_key : Str

abbrev pub telemetry_status_route : Route
telemetry_status_route = record {
  exchange = lit "deviceops.telemetry.exchange";
  queue = lit "telemetry.status.queue";
  routing_key = lit "telemetry.status.updated";
}

abbrev pub telemetry_offline_route : Route
telemetry_offline_route = record {
  exchange = lit "deviceops.telemetry.exchange";
  queue = lit "telemetry.offline.queue";
  routing_key = lit "telemetry.device.offline";
}

abbrev pub alarm_created_route : Route
alarm_created_route = record {
  exchange = lit "deviceops.event.exchange";
  queue = lit "event.alarm.queue";
  routing_key = lit "event.alarm.created";
}

abbrev pub log_received_route : Route
log_received_route = record {
  exchange = lit "deviceops.log.exchange";
  queue = lit "log.ingest.queue";
  routing_key = lit "log.device.received";
}

abbrev pub diagnosis_task_created_route : Route
diagnosis_task_created_route = record {
  exchange = lit "deviceops.diagnosis.exchange";
  queue = lit "diagnosis.task.queue";
  routing_key = lit "diagnosis.task.created";
}

abbrev pub knowledge_index_requested_route : Route
knowledge_index_requested_route = record {
  exchange = lit "deviceops.knowledge.exchange";
  queue = lit "knowledge.index.queue";
  routing_key = lit "knowledge.document.index_requested";
}

unfoldable pub routes_for_source : Str → List Route
routes_for_source source =
    if str_eq source (lit "telemetry-service")
    then telemetry_status_route ∷ telemetry_offline_route ∷ []
    else if str_eq source (lit "event-service")
    then alarm_created_route ∷ []
    else if str_eq source (lit "log-service")
    then log_received_route ∷ []
    else if str_eq source (lit "knowledge-service")
    then knowledge_index_requested_route ∷ []
    else if str_eq source (lit "diagnosis-service")
    then diagnosis_task_created_route ∷ []
    else []

-- A member that a handler sets in a payload. `D` is the type of a double.
pub data Field (D : Type 0) : Type 0 where
  text : Str → Field D
  int64 : ℤ → Field D
  flag : Bool → Field D
  double : D → Field D
  doubles : StdMap D → Field D
  texts : List Str → Field D

-- One call of a publish… method: the members of its payload in the order in which they are set.
pub record Publication (D : Type 0) : Type 0 where
  pub route : Route
  pub payload : List (Str × Field D)
  pub trace_id : Str

pub record Envelope (D : Type 0) : Type 0 where
  pub message_id : Str
  pub message_type : Str
  pub trace_id : Str
  pub source : Str
  pub timestamp : ℤ
  pub payload : List (Str × Field D)

-- tewmq::MQClient over its state: declare(exchange, queue, binding key) and publish.
pub record MqClient (C : Type 0) : Type 0 where
  pub declare : Route → C → C
  pub publish : Str → Str → Str → C → Bool × C

-- The publisher, and the process's message sequence. `client` is there once it has been created.
pub record EventPublisher (C : Type 0) : Type 0 where
  pub config_enabled : Bool
  pub source : Str
  pub client : Option C
  pub sequence : ℕ

unfoldable pub next_message_id : ℤ → ℕ → Str
next_message_id now sequence = lit "mq-" ++ (signed_decimal now ++ (lit "-" ++ decimal sequence))

module _ {C D : Type 0} (mq : MqClient C) (write_json : Envelope D → Str) where
  declare_topology : List Route → C → C
  declare_topology [] c = c
  declare_topology (route ∷ routes) c = declare_topology routes (mq.declare route c)

  -- The constructor, given the client that the factory returns.
  unfoldable pub connect : Bool → Str → C → EventPublisher C
  unfolding declare_topology
  connect config_enabled source client = record {
    config_enabled = config_enabled;
    source = source;
    client =
        if config_enabled then some (declare_topology (routes_for_source source) client) else none;
    sequence = 0;
  }

  unfoldable pub enabled : EventPublisher C → Bool
  enabled p = p.config_enabled && elim p.client [ none ↦ false | some c ↦ true ]

  publish_by :
      C → Route → Str → List (Str × Field D) → Str → ℤ → EventPublisher C → Bool × EventPublisher C
  publish_by client route message_type payload trace_id now p =
      let envelope : Envelope D = record {
        message_id = next_message_id now p.sequence;
        message_type = message_type;
        trace_id = trace_id;
        source = p.source;
        timestamp = now;
        payload = payload;
      } in
      let (sent, client') =
        mq.publish route.exchange route.routing_key (write_json envelope) client in
      (sent, record p { client = some client'; sequence = (p.sequence + 1) % 2 ^ 64 })

  -- `false` also where the publisher is disabled.
  unfoldable pub publish : Publication D → ℤ → EventPublisher C → Bool × EventPublisher C
  unfolding publish_by
  publish q now p =
      if p.config_enabled
      then elim p.client [
        | none ↦ (false, p)
        | some client ↦ publish_by client q.route q.route.routing_key q.payload q.trace_id now p
      ]
      else (false, p)
