-- ===== src/Simulator/Tests.antt =====
-- Runs of the simulator with doubles that are numbers, random numbers that are all the same and a
-- client that counts what is published, and the theorems at concrete inputs.
use device_ops.Prelude.{
  ℕ, suc, ◌+◌, ◌-◌, ◌*◌, ◌≤◌, ◌<◌, Bool, pos, ◌≡◌, refl, true, false, ◌⊎◌, none, [], ◌∷◌, All, leb,
  arith,
}
use device_ops.Str.{Str, lit}
use device_ops.Json.Tree.{Tree}
use device_ops.Env.{getenv_or_default, getenv_int_or_default}
use device_ops.Gateway.Topic.{split_topic, message_type_from_topic, NoSlash}
use device_ops.Gateway.Config.{load_mqtt_config}
use device_ops.Simulator.{
  SimulatorConfig, Doubles, Draw, MqttClient, RobotDeviceSimulator, load_simulator_config_from_env,
}
use device_ops.Simulator.Messages.{topic}
use device_ops.Simulator.Messages.Topics.{message_types, topic-IsRead}
use device_ops.Simulator.Run.{stopped, stop, run, rounds}
use device_ops.Simulator.Run.Rounds.{run_lem}

abbrev numbers : Doubles ℕ
numbers = record {
  literal = λ text. 3;
  plus = λ a b. a + b;
  minus = λ a b. a - b;
  times = λ a b. a * b;
  over = λ a b. a - b;
  greater = λ a b. a;
  rounded = λ a. a;
  at_least = λ a b. leb b a;
}

abbrev constant : Draw ℕ ℕ
constant low high g = (low, suc g)

abbrev counting : MqttClient ℕ
counting = record {
  connect = λ n. (true, n);
  publish = λ name payload qos n. (true, suc n);
  disconnect = λ n. n;
}

unfoldable config : SimulatorConfig
unfolding load_simulator_config_from_env load_mqtt_config getenv_or_default getenv_int_or_default
config = record (load_simulator_config_from_env (λ name. none)) { loop_count = pos 3 }

abbrev idle : RobotDeviceSimulator ℕ ℕ ℕ
idle = record {
  mqtt_client = 0;
  running = true;
  random = 0;
  last_snapshot = record {
    battery = 100;
    temperature = 42;
    speed = 0;
    motor_current = 2;
    cpu_usage = 0;
    online = true;
    run_mode = lit "auto";
    error_code = [];
  };
}

abbrev write : Tree (Unit {0}) ℕ → Str
write tree = []

three_rounds : config.loop_count ≡ pos 3
unfolding config
three_rounds = refl

-- A stop is requested before the third round.
abbrev asked : ℕ → Bool
asked n = leb 3 n

run_lem_example :
    (made : ℕ) × (made ≤ 3)
    × ((made ≡ 3) ⊎ (asked (1 + made) ≡ true))
    × ((k : ℕ) → k < made → asked (1 + k) ≡ false)
    × ((spare : ℕ)
        → run numbers constant counting write config (λ n. pos n) asked (suc (3 + spare)) idle
          ≡ stopped (
              stop counting
                (rounds numbers constant counting write config (λ n. pos n) asked made 1 idle)))
run_lem_example =
    run_lem numbers constant counting write config (λ n. pos n) asked 3 idle three_rounds
      (omega arith) (omega arith) refl

plain_id : NoSlash config.device_id
unfolding config
plain_id = (refl, (refl, (refl, (refl, (refl, (refl, (refl, (refl, (refl, tt)))))))))

topic-IsRead_example :
    All
      (λ message_type.
        (split_topic (topic config message_type)
          ≡ lit "device" ∷ config.device_id ∷ message_type ∷ [])
        × (message_type_from_topic (topic config message_type) ≡ message_type))
      message_types
topic-IsRead_example = topic-IsRead config plain_id
