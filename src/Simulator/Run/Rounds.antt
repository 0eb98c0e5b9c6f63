-- ===== src/Simulator/Run/Rounds.antt =====
-- How many rounds the simulator's loop makes, and that it ends.
use device_ops.Prelude.{
  ℕ, zero, suc, ◌+◌, ltb, ◌≤◌, ◌<◌, ℤ, pos, ◌≡◌, refl, sym, ap, ◌∙◌, Bool, Bool-cases, true, false,
  ◌⊎◌, inl, inr, arith,
}
use device_ops.Str.{Str}
use device_ops.Json.Tree.{Tree}
use device_ops.Simulator.{SimulatorConfig, Doubles, Draw, MqttClient, RobotDeviceSimulator}
use device_ops.Simulator.Run.{int_max, stopped, stop, round, goes_on, run_loop, run, rounds}

module _ {V D G C : Type 0} (d : Doubles D) (uniform : Draw D G) (mqtt : MqttClient C)
    (write_json : Tree V D → Str) (config : SimulatorConfig) (clock : ℕ → ℤ)
    (stop_requested : ℕ → Bool) where
  loop-more :
      (fuel sequence : ℕ) (s : RobotDeviceSimulator D G C)
      → goes_on config (stop_requested sequence) sequence s ≡ true
      → ltb sequence int_max ≡ true
      → run_loop d uniform mqtt write_json config clock stop_requested (suc fuel) sequence s
        ≡ run_loop d uniform mqtt write_json config clock stop_requested fuel
            (suc sequence)
            (round d uniform mqtt write_json config (clock sequence) sequence s)
  unfolding run_loop
  loop-more fuel sequence s h fits = ground (arith, h, fits)

  loop-done :
      (fuel sequence : ℕ) (s : RobotDeviceSimulator D G C)
      → goes_on config (stop_requested sequence) sequence s ≡ false
      → run_loop d uniform mqtt write_json config clock stop_requested (suc fuel) sequence s
        ≡ stopped (stop mqtt s)
  unfolding run_loop
  loop-done fuel sequence s h = ground (arith, h)

  round-running :
      (now : ℤ) (sequence : ℕ) (s : RobotDeviceSimulator D G C)
      → (round d uniform mqtt write_json config now sequence s).running ≡ s.running
  unfolding round
  round-running now sequence s = refl

  goes_on-asked :
      (sequence : ℕ) (s : RobotDeviceSimulator D G C)
      → goes_on config (stop_requested sequence) sequence s ≡ true
      → stop_requested sequence ≡ false
  unfolding goes_on
  goes_on-asked sequence s more = ground arith

  -- Why a running loop does not go on before a given number of rounds.
  goes_on-false :
      (sequence : ℕ) (s : RobotDeviceSimulator D G C) (count : ℕ)
      → s.running ≡ true
      → config.loop_count ≡ pos count
      → sequence ≤ count
      → goes_on config (stop_requested sequence) sequence s ≡ false
      → stop_requested sequence ≡ true
  unfolding goes_on
  goes_on-false sequence s count running bounded early h = ground arith

  goes_on-past :
      (sequence : ℕ) (s : RobotDeviceSimulator D G C) (count : ℕ)
      → config.loop_count ≡ pos count
      → 0 < count
      → count < sequence
      → goes_on config (stop_requested sequence) sequence s ≡ false
  unfolding goes_on
  goes_on-past sequence s count bounded positive late = ground arith

  -- The loop from a sequence number with `left` more rounds under the loop count.
  loop_ends :
      (left sequence count : ℕ) (s : RobotDeviceSimulator D G C)
      → s.running ≡ true
      → config.loop_count ≡ pos count
      → 0 < count
      → count < int_max
      → sequence + left ≡ suc count
      → (made : ℕ) × (made ≤ left)
        × ((made ≡ left) ⊎ (stop_requested (sequence + made) ≡ true))
        × ((k : ℕ) → k < made → stop_requested (sequence + k) ≡ false)
        × ((fuel : ℕ)
            → left ≤ fuel
            → run_loop d uniform mqtt write_json config clock stop_requested (suc fuel) sequence s
              ≡ stopped (
                  stop mqtt
                    (rounds d uniform mqtt write_json config clock stop_requested made sequence s)))
  unfolding rounds
  loop_ends zero sequence count s running bounded positive small placed = (
    zero,
    omega arith,
    inl refl,
    λ k h. absurd (omega arith),
    λ fuel enough.
        loop-done fuel sequence s (goes_on-past sequence s count bounded positive (omega arith)),
  )
  loop_ends (suc left) sequence count s running bounded positive small placed =
      elim (Bool-cases (goes_on config (stop_requested sequence) sequence s)) [
        | inl more ↦
            let s' = round d uniform mqtt write_json config (clock sequence) sequence s in
            let fits : ltb sequence int_max ≡ true = below sequence (omega arith) in
            let (made, few, why, unasked, ends) =
              loop_ends left (suc sequence) count s'
                (round-running (clock sequence) sequence s ∙ running) bounded positive small
                (omega arith) in
            (
              suc made,
              omega arith,
              after (suc sequence + made) (sequence + suc made) left made (omega arith) why,
              earlier sequence made (goes_on-asked sequence s more) unasked,
              again left sequence s made more fits ends,
            )
        | inr early ↦ (
          zero,
          omega arith,
          inr (
              ap stop_requested (plus_zero sequence)
              ∙ goes_on-false sequence s count running bounded (omega arith) early),
          λ k h. absurd (omega arith),
          λ fuel enough. loop-done fuel sequence s early,
        )
      ]
    where
      plus_zero : (n : ℕ) → n + zero ≡ n
      plus_zero n = omega arith

      plus_suc : (n k : ℕ) → n + suc k ≡ suc n + k
      plus_suc n k = omega arith

      below : (n : ℕ) → n < int_max → ltb n int_max ≡ true
      below n h = ground arith

      earlier :
          (sequence made : ℕ)
          → stop_requested sequence ≡ false
          → ((k : ℕ) → k < made → stop_requested (suc sequence + k) ≡ false)
          → (k : ℕ) → k < suc made
          → stop_requested (sequence + k) ≡ false
      earlier sequence made first later zero h = ap stop_requested (plus_zero sequence) ∙ first
      earlier sequence made first later (suc k) h =
          ap stop_requested (plus_suc sequence k) ∙ later k (omega arith)

      after :
          (m n left made : ℕ)
          → m ≡ n
          → (made ≡ left) ⊎ (stop_requested m ≡ true)
          → (suc made ≡ suc left) ⊎ (stop_requested n ≡ true)
      after m n left made e (inl all) = inl (ap suc all)
      after m n left made e (inr asked) = inr (ap stop_requested (sym e) ∙ asked)

      again :
          (left sequence : ℕ) (s : RobotDeviceSimulator D G C) (made : ℕ)
          → goes_on config (stop_requested sequence) sequence s ≡ true
          → ltb sequence int_max ≡ true
          → ((fuel : ℕ)
              → left ≤ fuel
              → run_loop d uniform mqtt write_json config clock stop_requested
                  (suc fuel)
                  (suc sequence)
                  (round d uniform mqtt write_json config (clock sequence) sequence s)
                ≡ stopped (
                    stop mqtt (
                      rounds d uniform mqtt write_json config clock stop_requested made
                        (suc sequence)
                        (round d uniform mqtt write_json config (clock sequence) sequence s))))
          → (fuel : ℕ) → suc left ≤ fuel
          → run_loop d uniform mqtt write_json config clock stop_requested (suc fuel) sequence s
            ≡ stopped (
                stop mqtt (
                  rounds d uniform mqtt write_json config clock stop_requested made
                    (suc sequence)
                    (round d uniform mqtt write_json config (clock sequence) sequence s)))
      again left sequence s made more fits ends zero enough = absurd (omega arith)
      again left sequence s made more fits ends (suc fuel) enough =
          loop-more (suc fuel) sequence s more fits ∙ ends fuel (omega arith)

  -- With a loop count below INT_MAX, the loop of a running simulator ends for every fuel above that
  -- count, and with the same state whatever the fuel: the simulator stopped after the rounds that it
  -- made. Before none of these a stop was requested; they are as many as the count, or fewer where a
  -- stop was requested before the next one.
  pub run_lem :
      (count : ℕ) (s : RobotDeviceSimulator D G C)
      → config.loop_count ≡ pos count
      → 0 < count
      → count < int_max
      → s.running ≡ true
      → (made : ℕ) × (made ≤ count)
        × ((made ≡ count) ⊎ (stop_requested (1 + made) ≡ true))
        × ((k : ℕ) → k < made → stop_requested (1 + k) ≡ false)
        × ((spare : ℕ)
            → run d uniform mqtt write_json config clock stop_requested (suc (count + spare)) s
              ≡ stopped (
                  stop mqtt
                    (rounds d uniform mqtt write_json config clock stop_requested made 1 s)))
  unfolding run
  run_lem count s bounded positive small running =
      let (made, few, why, unasked, ends) =
        loop_ends count 1 count s running bounded positive small (omega arith) in
      (made, few, why, unasked, λ spare. ends (count + spare) (omega arith))
