-- ===== src/Simulator.antt =====
-- simulator/src/robot_device_simulator.cc and its header: the configuration and the state of the robot
-- simulator, which makes the gateway's traffic. The MQTT client, the random numbers and the arithmetic
-- on doubles are parameters.
pub mod NextSnapshot
pub mod Messages
pub mod Run
mod Tests
use device_ops.Prelude.{ℕ, ℤ, pos, Bool, ◌++◌, []}
use device_ops.Str.{Str, lit}
use device_ops.Gateway.Config.{MqttConfig, load_mqtt_config}
use device_ops.Env.{Env, getenv_or_default, getenv_int_or_default}

pub record SimulatorConfig : Type 0 where
  pub device_id : Str
  pub device_name : Str
  pub location : Str
  pub firmware_version : Str
  pub publish_interval_ms : ℤ
  pub loop_count : ℤ
  pub high_temperature_period : ℤ
  pub error_code_period : ℤ
  pub offline_period : ℤ
  pub mqtt : MqttConfig

-- The settings have the defaults of the struct.
unfoldable pub load_simulator_config_from_env : Env → SimulatorConfig
load_simulator_config_from_env env =
    let device_id = getenv_or_default env (lit "DEVICEOPS_SIM_DEVICE_ID") (lit "robot-001") in
    record {
      device_id = device_id;
      device_name =
          getenv_or_default env (lit "DEVICEOPS_SIM_DEVICE_NAME") (lit "warehouse-robot-001");
      location = getenv_or_default env (lit "DEVICEOPS_SIM_LOCATION") (lit "warehouse-a");
      firmware_version = getenv_or_default env (lit "DEVICEOPS_SIM_FIRMWARE_VERSION") (lit "1.0.0");
      publish_interval_ms = getenv_int_or_default env (lit "DEVICEOPS_SIM_INTERVAL_MS") (pos 1000);
      loop_count = getenv_int_or_default env (lit "DEVICEOPS_SIM_LOOP_COUNT") (pos 0);
      high_temperature_period =
          getenv_int_or_default env (lit "DEVICEOPS_SIM_HIGH_TEMP_PERIOD") (pos 5);
      error_code_period = getenv_int_or_default env (lit "DEVICEOPS_SIM_ERROR_PERIOD") (pos 7);
      offline_period = getenv_int_or_default env (lit "DEVICEOPS_SIM_OFFLINE_PERIOD") (pos 11);
      mqtt = load_mqtt_config env (device_id ++ lit "-simulator");
    }

-- RobotDeviceSimulator::Snapshot. `D` is the type of a double.
pub record Snapshot (D : Type 0) : Type 0 where
  pub battery : D
  pub temperature : D
  pub speed : D
  pub motor_current : D
  pub cpu_usage : D
  pub online : Bool
  pub run_mode : Str
  pub error_code : Str

-- The arithmetic on doubles that the simulator makes, with its literals by their text.
pub record Doubles (D : Type 0) : Type 0 where
  pub literal : Str → D
  pub plus : D → D → D
  pub minus : D → D → D
  pub times : D → D → D
  pub over : D → D → D
  -- std::max, std::round and >=.
  pub greater : D → D → D
  pub rounded : D → D
  pub at_least : D → D → Bool

-- A draw of std::uniform_real_distribution between two bounds from the generator in its state.
abbrev pub Draw : Type 0 → Type 0 → Type 0
Draw D G = D → D → G → D × G

-- tewmqtt::MqttClient over its state.
pub record MqttClient (C : Type 0) : Type 0 where
  pub connect : C → Bool × C
  pub publish : Str → Str → ℕ → C → Bool × C
  pub disconnect : C → C

pub record RobotDeviceSimulator (D G C : Type 0) : Type 0 where
  pub mqtt_client : C
  pub running : Bool
  pub random : G
  pub last_snapshot : Snapshot D
