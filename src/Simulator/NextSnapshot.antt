-- ===== src/Simulator/NextSnapshot.antt =====
-- nextSnapshot of simulator/src/robot_device_simulator.cc. The sequence number of a round is a number:
-- the source counts up from 1.
use device_ops.Prelude.{
  ℕ, ◌%◌, ◌==◌, ℤ, ◌≡◌, refl, Bool, Bool-cases, inl, inr, true, false, not, ◌&&◌, [], is_positive,
  pos_part, if◌then◌else◌,
}
use device_ops.Str.{lit}
use device_ops.Simulator.{SimulatorConfig, Snapshot, Doubles, Draw}

-- period > 0 && sequence % period == 0
unfoldable pub hits : ℤ → ℕ → Bool
hits period sequence = is_positive period && sequence % pos_part period == 0

module _ {D G : Type 0} (d : Doubles D) (uniform : Draw D G) where
  unfoldable pub round_to : D → D → D
  round_to value scale = d.over (d.rounded (d.times value scale)) scale

  small_noise : G → D × G
  small_noise g = uniform (d.literal (lit "-1.5")) (d.literal (lit "1.5")) g

  -- The ordinary values of a round.
  drawn : Snapshot D → G → Snapshot D × G
  drawn last g =
      let (noise, g1) = small_noise g in
      let (speed, g2) = uniform (d.literal (lit "0.0")) (d.literal (lit "1.8")) g1 in
      let (current, g3) = small_noise g2 in
      let (cpu, g4) = uniform (d.literal (lit "0.1")) (d.literal (lit "0.85")) g3 in
      (
        record {
          battery =
              d.greater (d.literal (lit "5.0")) (d.minus last.battery (d.literal (lit "0.15")));
          temperature = d.plus (d.literal (lit "42.0")) noise;
          speed = speed;
          motor_current = d.plus (d.literal (lit "2.8")) current;
          cpu_usage = cpu;
          online = true;
          run_mode = lit "auto";
          error_code = [];
        },
        g4,
      )

  -- The heat of every high_temperature_period rounds, or else the fault of every error_code_period.
  disturbed : SimulatorConfig → ℕ → Snapshot D × G → Snapshot D × G
  disturbed config sequence (snapshot, g) =
      let (noise, g') = small_noise g in
      if hits config.high_temperature_period sequence
      then (
        record snapshot {
          temperature = d.plus (d.literal (lit "88.0")) noise;
          speed = d.literal (lit "0.8");
          error_code = lit "TEMP_001";
        },
        g',
      )
      else if hits config.error_code_period sequence
      then (
        record snapshot {
          temperature = d.plus (d.literal (lit "55.0")) noise;
          error_code = lit "MOTOR_002";
          run_mode = lit "manual";
        },
        g',
      )
      else (snapshot, g)

  disconnected : SimulatorConfig → ℕ → Snapshot D → Snapshot D
  disconnected config sequence snapshot =
      if hits config.offline_period sequence
      then record snapshot {
        online = false;
        speed = d.literal (lit "0.0");
        run_mode = lit "offline";
        error_code = lit "COMM_001";
      }
      else snapshot

  rounded : Snapshot D → Snapshot D
  rounded snapshot = record snapshot {
    battery = round_to snapshot.battery (d.literal (lit "10.0"));
    temperature = round_to snapshot.temperature (d.literal (lit "10.0"));
    speed = round_to snapshot.speed (d.literal (lit "10.0"));
    motor_current = round_to snapshot.motor_current (d.literal (lit "10.0"));
    cpu_usage = round_to snapshot.cpu_usage (d.literal (lit "100.0"));
  }

  unfoldable pub next_snapshot : SimulatorConfig → ℕ → Snapshot D → G → Snapshot D × G
  unfolding small_noise drawn disturbed disconnected rounded
  next_snapshot config sequence last g =
      let (snapshot, g') = disturbed config sequence (drawn last g) in
      (rounded (disconnected config sequence snapshot), g')

  -- A round's snapshot is offline exactly in the rounds of the offline period, whatever else happens in
  -- them, and its error code is then COMM_001; in any other round it is TEMP_001 in those of the high
  -- temperature period, else MOTOR_002 in those of the error period, else empty.
  pub next_snapshot_lem :
      (config : SimulatorConfig) (sequence : ℕ) (last : Snapshot D) (g : G)
      → let snapshot = (next_snapshot config sequence last g).0 in
        (snapshot.online ≡ not (hits config.offline_period sequence))
        × (snapshot.error_code ≡ (
            if hits config.offline_period sequence
            then lit "COMM_001"
            else if hits config.high_temperature_period sequence
            then lit "TEMP_001"
            else if hits config.error_code_period sequence
            then lit "MOTOR_002"
            else []))
  unfolding next_snapshot small_noise drawn disturbed disconnected rounded
  next_snapshot_lem config sequence last g =
      elim (Bool-cases (hits config.offline_period sequence)) [
        | inl off ↦ rw off (refl, refl)
        | inr on ↦ rw on (elim (Bool-cases (hits config.high_temperature_period sequence)) [
          | inl hot ↦ rw hot (refl, refl)
          | inr cool ↦ rw cool (elim (Bool-cases (hits config.error_code_period sequence)) [
            | inl bad ↦ rw bad (refl, refl)
            | inr good ↦ rw good (refl, refl)
          ])
        ])
      ]
