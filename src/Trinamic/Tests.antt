-- ===== src/Trinamic/Tests.antt =====
-- The module of the TMCM1610 run on concrete inputs, with natural numbers for doubles and a machine
-- that carries plans out.
use soem_driver_ros.Base.{
  ℕ, ◌+◌, ◌-◌, ◌*◌, ◌/◌, ◌^◌, ◌≤◌, ◌≡◌, ◌⊎◌, refl, ap, true, List, [], ◌∷◌, ◌++◌, none, some, arith,
  ltb, leb, ◌==◌, if◌then◌else◌, All, length, drop, replicate, Text, codes,
}
use soem_driver_ros.Trinamic.Endian.{Endianness, little, big, of_le_bytes, get_endianness}
use soem_driver_ros.Trinamic.Endian.Laws.{get_endianness_lem}
use soem_driver_ros.Trinamic.Modes.{
  CommandMode, mode_code, mode_eq, after_stop, next_mode, prepare_command_mode_switch,
  perform_command_mode_switch,
}
use soem_driver_ros.Trinamic.Modes.Laws.{
  modes, skip_stops, agreed, all_mode, outcome, next_mode_lem, prepare-perform,
}
use soem_driver_ros.Trinamic.Pdo.{
  RxPdo, TxPdo, MbxReceive, write_rx_pdo, word_at, byte_at, read_mbx, has_flag,
}
use soem_driver_ros.Trinamic.Pdo.Layout.{write_rx_pdo-layout}
use soem_driver_ros.Trinamic.Doubles.{Doubles}
use soem_driver_ros.Trinamic.States.{
  initialize, motion_init, motion_c, read_fw, read_encoder_ticks, Request, nothing, succeed,
  change_to,
}
use soem_driver_ros.Trinamic.Reactions.{
  Context, homing_configured, enter_plan, react_read, react_write, react_mbx, update, motion_state,
}
use soem_driver_ros.Trinamic.Reactions.Safety.{
  followed, moves, has_finite, motion-follows_mode, react_mbx-answers,
}
use soem_driver_ros.Trinamic.Reactions.Homing.{state_before, Tells, homing_progress}
use soem_driver_ros.Trinamic.Reactions.Plans.{
  HomingStep, Region, PlanLaws, run_reads, walk, through, stages_of, passes, before_last, is_done,
  met_in_order, homing_steps, motion_init-walk, homing_complete, motion_init-arrives,
}

-- Natural numbers for doubles; only those below 2 ^ 31 are converted.
abbrev pub naturals : Doubles
naturals = record {
  D = ℕ;
  nan = 0;
  pi = 3;
  of_nat = λ n. n;
  of_int32 = λ n. n;
  of_uint32 = λ n. n;
  to_int32 = λ n. if ltb n (2 ^ 31) then some n else none;
  sub = λ a b. a - b;
  mul = λ a b. a * b;
  div = λ a b. a / b;
  copysign = λ a b. a;
  leb = leb;
  eqb = λ a b. a == b;
  is_finite = λ a. true;
}

abbrev pub context : Context ℕ
context = record {
  command_mode = CommandMode.velocity;
  firmware_major = 1;
  firmware_minor = 2;
  module_type = 1610;
  encoder_ticks = 4096;
  torque_constant = 1;
  homing_current_limit = 2;
  homing_velocity_rpm = 30;
  homing_backoff_rev = 1;
  halt_axis_vel_eps_rpm = 2;
  zero_axis_pos_eps_ticks = 10;
  effort_command = 0;
  velocity_command = 12;
  position_command = 0;
}

-- A machine that takes succeed() and changeTo() the way plans need it.
abbrev machine : Region → Request → Region
machine (a, t ∷ rest) succeed = (t.destination, rest)
machine (a, tasks) (change_to b) = (b, tasks)
machine r _ = r

machine-PlanLaws : PlanLaws machine
machine-PlanLaws = record { advances = λ a b rest. refl; waits = waits }
  where
    waits : (r : Region) → machine r nothing ≡ r
    waits (a, []) = refl
    waits (a, t ∷ rest) = refl

-- Process data that meets every condition of the homing.
abbrev homed : TxPdo
homed = record {
  position_ticks = 3;
  current_ma = 5000;
  vel_rpm = 0;
  status_flags = 0xC000;
  target_position_ticks = 0;
  target_current_ma = 0;
  target_vel_rpm = 0;
  ramp_gen_vel_rpm = 0;
}

abbrev reads : List TxPdo
reads = replicate 8 homed

get_endianness_example : get_endianness big ≡ big
get_endianness_example = get_endianness_lem big

abbrev starts : List Text
starts = codes "gripper/position" ∷ codes "drive/velocity" ∷ []

abbrev stops : List Text
stops = codes "drive/position" ∷ []

next_mode_example : next_mode starts stops CommandMode.position ≡ (
    if mode_eq (after_stop stops CommandMode.position) CommandMode.stop
    then agreed (skip_stops (modes starts))
    else (if all_mode (after_stop stops CommandMode.position) (modes starts)
        then some (after_stop stops CommandMode.position)
        else none))
next_mode_example = next_mode_lem starts stops CommandMode.position

prepare-perform_example :
    ((prepare_command_mode_switch starts [] CommandMode.position).0
      ≡ (perform_command_mode_switch starts [] CommandMode.position).0)
    × ((prepare_command_mode_switch starts [] CommandMode.position).1 ≡ CommandMode.position)
    × (perform_command_mode_switch starts [] CommandMode.position
        ≡ outcome CommandMode.position (next_mode starts [] CommandMode.position))
prepare-perform_example = prepare-perform starts [] CommandMode.position

abbrev sevens : List ℕ
sevens = replicate 41 7

abbrev setpoint_50 : RxPdo
setpoint_50 = record { setpoint = 50; mode = 2 }

write_rx_pdo-layout_example :
    let out = write_rx_pdo little (replicate 35 0) setpoint_50 sevens in
    (length out ≡ length sevens)
    × (word_at little 0 out ≡ 50)
    × (byte_at 4 out ≡ 2)
    × (drop 40 out ≡ drop 40 sevens)
write_rx_pdo-layout_example =
    write_rx_pdo-layout little (replicate 35 0) setpoint_50 sevens refl (omega arith) (omega arith)

abbrev at_120 : RxPdo
at_120 = record { setpoint = 120; mode = 2 }

motion-follows_mode_example :
    (update motion_c context ≡ change_to (motion_state CommandMode.velocity))
    × (at_120.mode ≡ (
        if moves naturals (followed CommandMode.velocity context)
        then mode_code CommandMode.velocity
        else mode_code CommandMode.stop))
    × ((at_120.setpoint ≡ 0) ⊎ (has_finite naturals (followed CommandMode.velocity context) ≡ true))
unfolding react_write motion_state
motion-follows_mode_example = motion-follows_mode naturals context at_120 refl

abbrev refused : MbxReceive
refused = record { origin_address = 1; module_address = 0; status = 2; command = 136; value = 0 }

react_mbx-answers_example :
    (react_mbx naturals little read_fw
        (read_mbx little (replicate 8 0) (1 ∷ 0 ∷ 100 ∷ 136 ∷ 6 ∷ 74 ∷ 3 ∷ 21 ∷ []))
        context
      ≡ (
        record context { module_type = 256 * 6 + 74; firmware_major = 3; firmware_minor = 21 },
        succeed,
      ))
    × ((host : Endianness)
        → react_mbx naturals host read_encoder_ticks
            (read_mbx host (replicate 8 0) (1 ∷ 0 ∷ 100 ∷ 6 ∷ 6 ∷ 74 ∷ 3 ∷ 21 ∷ []))
            context
          ≡ (record context { encoder_ticks = of_le_bytes (21 ∷ 3 ∷ 74 ∷ 6 ∷ []) }, succeed))
react_mbx-answers_example =
    react_mbx-answers naturals (replicate 8 0) 1 6 74 3 21 [] context
      (omega arith, (omega arith, (omega arith, (omega arith, tt)))) refl

motion_init-walk_example :
    let w =
      walk naturals context initialize (stages_of (homing_configured naturals context)) reads in
    run_reads naturals machine context (initialize, enter_plan naturals motion_init context) reads
    ≡ (w.0, through w.0 w.1)
motion_init-walk_example = motion_init-walk naturals machine machine-PlanLaws context reads

-- Each reading meets each condition.
reads_met :
    All
      (λ p.
        All
          (λ s. passes naturals context s p ≡ true)
          (before_last initialize (stages_of (homing_configured naturals context))))
      reads
unfolding homing_configured react_read has_flag
reads_met = (met, (met, (met, (met, (met, (met, (met, (met, tt))))))))
  where
    met :
        All
          (λ s. passes naturals context s homed ≡ true)
          (before_last initialize (stages_of (homing_configured naturals context)))
    met = (refl, (refl, (refl, (refl, (refl, (refl, (refl, (refl, tt))))))))

enough_reads : length (stages_of (homing_configured naturals context)) ≤ length reads
unfolding homing_configured
enough_reads = omega arith

reads_arrive :
    run_reads naturals machine context (initialize, enter_plan naturals motion_init context) reads
    ≡ (motion_c, [])
reads_arrive =
    motion_init-arrives naturals machine machine-PlanLaws context reads reads_met enough_reads

homing_complete_example : met_in_order (is_done naturals context) homing_steps reads ≡ true
unfolding homing_configured
homing_complete_example =
    homing_complete naturals machine machine-PlanLaws context reads refl
      (ap (λ r. r.1) reads_arrive)

homing_progress_example :
    let state =
      (run_reads naturals machine context
        (initialize, enter_plan naturals motion_init context)
        (homed ∷ homed ∷ [])).0 in
    (done : List HomingStep) × (rest : List HomingStep) × (homing_steps ≡ done ++ rest)
    × (met_in_order (is_done naturals context) done (homed ∷ homed ∷ []) ≡ true)
    × (state ≡ state_before rest)
    × Tells rest (react_write naturals state context)
unfolding homing_configured
homing_progress_example =
    homing_progress naturals machine machine-PlanLaws context (homed ∷ homed ∷ []) refl

motion_init-arrives_example :
    run_reads naturals machine context (initialize, enter_plan naturals motion_init context) reads
    ≡ (motion_c, [])
motion_init-arrives_example =
    motion_init-arrives naturals machine machine-PlanLaws context reads reads_met enough_reads
