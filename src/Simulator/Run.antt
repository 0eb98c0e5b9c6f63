-- ===== src/Simulator/Run.antt =====
-- start, run and stop of simulator/src/robot_device_simulator.cc. The clock and the request to stop are
-- read once in each round; a publish only logs when it fails.
pub mod Rounds
use device_ops.Prelude.{
  ℕ, zero, suc, ◌≤◌, ◌-◌, ◌^◌, ltb, leb, ℤ, pos, negsuc, Bool, true, false, not, ◌&&◌, ◌||◌, Option,
  none, some, is_positive, pos_part, if◌then◌else◌,
}
use device_ops.Str.{Str, lit, is_empty}
use device_ops.Json.Tree.{Tree}
use device_ops.Simulator.{
  SimulatorConfig, Snapshot, Doubles, Draw, MqttClient, RobotDeviceSimulator,
}
use device_ops.Simulator.NextSnapshot.{next_snapshot}
use device_ops.Simulator.Messages.{
  topic, register_payload, telemetry_payload, heartbeat_payload, alarm_payload, log_payload,
}

unfoldable pub stop :
    {D G C : Type 0} → MqttClient C → RobotDeviceSimulator D G C → RobotDeviceSimulator D G C
stop mqtt s = record s { running = false; mqtt_client = mqtt.disconnect s.mqtt_client }

unfoldable pub wants_alarm : {D : Type 0} → Doubles D → Snapshot D → Bool
wants_alarm d snapshot =
    not (is_empty snapshot.error_code)
    || d.at_least snapshot.temperature (d.literal (lit "80.0"))
    || not snapshot.online

-- The loop's condition, given whether a stop is requested.
unfoldable pub goes_on :
    {D G C : Type 0} → SimulatorConfig → Bool → ℕ → RobotDeviceSimulator D G C → Bool
goes_on config stop_requested sequence s =
    s.running
    && not stop_requested
    && (not (is_positive config.loop_count) || leb sequence (pos_part config.loop_count))

-- INT_MAX
abbrev pub int_max : ℕ
int_max = 2 ^ 31 - 1

-- How the loop ends: stopped; or after a round whose `++sequence` does not fit an int, which C++
-- leaves undefined; or not within the fuel.
pub data LoopEnd (D G C : Type 0) : Type 0 where
  stopped : RobotDeviceSimulator D G C → LoopEnd D G C
  overflowed : LoopEnd D G C
  out_of_fuel : LoopEnd D G C

module _ {V D G C : Type 0} (d : Doubles D) (uniform : Draw D G) (mqtt : MqttClient C)
    (write_json : Tree V D → Str) (config : SimulatorConfig) where
  publish_json : Str → Tree V D → C → Bool × C
  publish_json message_type payload client =
      mqtt.publish (topic config message_type) (write_json payload) 1 client

  -- Whether it connected and registered.
  unfoldable pub start : ℤ → RobotDeviceSimulator D G C → Bool × RobotDeviceSimulator D G C
  unfolding publish_json
  start now_ms s =
      let (connected, client) = mqtt.connect s.mqtt_client in
      if not connected
      then (false, record s { mqtt_client = client })
      else let (registered, client') =
          publish_json (lit "register") (register_payload config now_ms) client in
        (registered, record s { mqtt_client = client'; running = true })

  publish_round : Snapshot D → ℕ → ℤ → C → C
  publish_round snapshot sequence now_ms client =
      let client1 =
        (publish_json (lit "telemetry") (telemetry_payload config snapshot sequence now_ms)
          client).1 in
      let client2 =
        (publish_json (lit "heartbeat") (heartbeat_payload config snapshot sequence now_ms)
          client1).1 in
      let client3 =
        if wants_alarm d snapshot
        then (publish_json (lit "alarm") (alarm_payload d config snapshot sequence now_ms)
            client2).1
        else client2 in
      (publish_json (lit "log") (log_payload config snapshot sequence now_ms) client3).1

  -- The body of the loop, but for the counter.
  unfoldable pub round : ℤ → ℕ → RobotDeviceSimulator D G C → RobotDeviceSimulator D G C
  unfolding publish_round publish_json
  round now_ms sequence s =
      let (snapshot, random') = next_snapshot d uniform config sequence s.last_snapshot s.random in
      record s {
        mqtt_client = publish_round snapshot sequence now_ms s.mqtt_client;
        random = random';
        last_snapshot = snapshot;
      }

  module _ (clock : ℕ → ℤ) (stop_requested : ℕ → Bool) where
    unfoldable pub run_loop : ℕ → ℕ → RobotDeviceSimulator D G C → LoopEnd D G C
    run_loop zero sequence s = out_of_fuel
    run_loop (suc fuel) sequence s = elim (goes_on config (stop_requested sequence) sequence s) [
      | true ↦ elim (ltb sequence int_max) [
        | true ↦ run_loop fuel (suc sequence) (round (clock sequence) sequence s)
        | false ↦ overflowed
      ]
      | false ↦ stopped (stop mqtt s)
    ]

    unfoldable pub run : ℕ → RobotDeviceSimulator D G C → LoopEnd D G C
    run fuel s = run_loop fuel 1 s

    -- The state after some rounds from a sequence number on.
    unfoldable pub rounds : ℕ → ℕ → RobotDeviceSimulator D G C → RobotDeviceSimulator D G C
    rounds zero sequence s = s
    rounds (suc n) sequence s = rounds n (suc sequence) (round (clock sequence) sequence s)
