-- ===== src/Simulator/Messages.antt =====
-- The topics, message ids and payloads of simulator/src/robot_device_simulator.cc.
pub mod Topics
use device_ops.Prelude.{
  ℕ, zero, suc, ◌-◌, ℤ, pos, Bool, true, false, not, ◌||◌, List, [], ◌∷◌, ◌++◌, length,
  if◌then◌else◌,
}
use device_ops.Str.{Str, lit, is_empty, decimal}
use device_ops.Json.Tree.{
  Tree, Members, Items, text, int64, flag, double, object, array, no_members, set, no_items, item,
}
use device_ops.Simulator.{SimulatorConfig, Snapshot, Doubles}

unfoldable pub topic : SimulatorConfig → Str → Str
topic config message_type = lit "device/" ++ (config.device_id ++ (lit "/" ++ message_type))

zeros : ℕ → Str
zeros zero = []
zeros (suc n) = b'0' ∷ zeros n

-- std::setw(6) << std::setfill('0')
padded : Str → Str
padded digits = zeros (6 - length digits) ++ digits

unfoldable pub message_id : SimulatorConfig → Str → ℕ → Str
unfolding padded zeros
message_id config message_type sequence =
    lit "msg-"
    ++ (config.device_id ++ (lit "-" ++ (message_type ++ (lit "-" ++ padded (decimal sequence)))))

module _ {V D : Type 0} where
  -- The members that every message starts with.
  headed : SimulatorConfig → Str → ℕ → ℤ → Members V D → Tree V D
  headed config message_type sequence now_ms rest = object (
      set (lit "message_id") (text (message_id config message_type sequence))
        (set (lit "device_id") (text config.device_id) (set (lit "timestamp") (int64 now_ms) rest)))

  words : List Str → Items V D
  words [] = no_items
  words (s ∷ ss) = item (text s) (words ss)

  unfoldable pub register_payload : SimulatorConfig → ℤ → Tree V D
  unfolding headed words
  register_payload config now_ms = headed config (lit "register") 0 now_ms (
      set (lit "device_name") (text config.device_name) (
        set (lit "device_type") (text (lit "robot")) (
          set (lit "model") (text (lit "RBT-A1")) (
            set (lit "manufacturer") (text (lit "DeviceOpsLab")) (
              set (lit "firmware_version") (text config.firmware_version) (
                set (lit "location") (text config.location) (
                  set (lit "capabilities")
                    (array
                      (words (lit "telemetry" ∷ lit "alarm" ∷ lit "log" ∷ lit "heartbeat" ∷ [])))
                    no_members)))))))

  unfoldable pub telemetry_payload : SimulatorConfig → Snapshot D → ℕ → ℤ → Tree V D
  unfolding headed
  telemetry_payload config snapshot sequence now_ms =
      let metrics : Members V D =
        set (lit "motor_current") (double snapshot.motor_current)
          (set (lit "cpu_usage") (double snapshot.cpu_usage) no_members) in
      headed config (lit "telemetry") sequence now_ms (
        set (lit "battery") (double snapshot.battery) (
          set (lit "temperature") (double snapshot.temperature) (
            set (lit "speed") (double snapshot.speed) (
              set (lit "run_mode") (text snapshot.run_mode) (
                set (lit "online") (flag snapshot.online) (
                  set (lit "error_code") (text snapshot.error_code)
                    (set (lit "metrics") (object metrics) no_members)))))))

  unfoldable pub heartbeat_payload : SimulatorConfig → Snapshot D → ℕ → ℤ → Tree V D
  unfolding headed
  heartbeat_payload config snapshot sequence now_ms =
      headed config (lit "heartbeat") sequence now_ms (
        set (lit "online") (flag snapshot.online)
          (set (lit "run_mode") (text snapshot.run_mode) no_members))

  kind : Str → Str → Str → Str → Members V D
  kind alarm_type severity title description = set (lit "alarm_type") (text alarm_type) (
      set (lit "severity") (text severity)
        (set (lit "title") (text title) (set (lit "description") (text description) no_members)))

  unfoldable pub alarm_payload : Doubles D → SimulatorConfig → Snapshot D → ℕ → ℤ → Tree V D
  unfolding headed kind
  alarm_payload d config snapshot sequence now_ms =
      let metrics : Members V D = set (lit "temperature") (double snapshot.temperature) (
        set (lit "battery") (double snapshot.battery)
          (set (lit "speed") (double snapshot.speed) no_members)) in
      let of_kind : Members V D =
        if not snapshot.online
        then kind (lit "offline") (lit "critical") (lit "device offline")
            (lit "device heartbeat reports offline state")
        else if d.at_least snapshot.temperature (d.literal (lit "80.0"))
        then kind (lit "temperature_high") (lit "critical") (lit "device temperature high")
            (lit "main controller temperature exceeds threshold")
        else kind (lit "error_code") (lit "warning") (lit "device error code reported")
            (lit "robot controller reported a non-empty error code") in
      headed config (lit "alarm") sequence now_ms (
        set (lit "error_code") (text snapshot.error_code)
          (set (lit "metrics") (object metrics) of_kind))

  unfoldable pub log_payload : SimulatorConfig → Snapshot D → ℕ → ℤ → Tree V D
  unfolding headed words
  log_payload config snapshot sequence now_ms =
      let context : Members V D = set (lit "battery") (double snapshot.battery) (
        set (lit "temperature") (double snapshot.temperature) (
          set (lit "speed") (double snapshot.speed)
            (set (lit "run_mode") (text snapshot.run_mode) no_members))) in
      let quiet = is_empty snapshot.error_code in
      headed config (lit "log") sequence now_ms (
        set (lit "level") (text (if quiet then lit "info" else lit "warn")) (
          set (lit "message")
            (text (
              if quiet
              then lit "robot telemetry uploaded"
              else lit "robot abnormal status detected"))
            (set (lit "error_code") (text snapshot.error_code) (
              set (lit "context") (object context) (
                set (lit "tags")
                  (array (
                    words (
                      lit "robot"
                      ∷ (if snapshot.online then lit "online" else lit "offline")
                      ∷ [])))
                  no_members)))))
