-- ===== src/Trinamic/Reactions.antt =====
-- The react(), update(), planSucceeded() and planFailed() methods of the states of TrinamicTMCM1610
-- (tmcm1610.cpp), and the plans that the regions set up on entry.
pub mod Safety
pub mod Plans
pub mod Homing
use soem_driver_ros.Base.{
  ℕ, ◌*◌, ◌/◌, ◌%◌, ◌^◌, Bool, true, false, not, ◌&&◌, ◌==◌, leb, if◌then◌else◌, List, [], ◌∷◌,
  Option, none, some,
}
use soem_driver_ros.Trinamic.Endian.{Endianness, from_big_endian}
use soem_driver_ros.Trinamic.Modes.{CommandMode, mode_code}
use soem_driver_ros.Trinamic.Tmcl
use soem_driver_ros.Trinamic.Tmcl.{command_code, status_code}
use soem_driver_ros.Trinamic.Pdo.{
  position_reached, initialized, ethercat_timeout, has_flag, RxPdo, TxPdo, MbxReceive,
}
use soem_driver_ros.Trinamic.Doubles.{Doubles}
use soem_driver_ros.Trinamic.States.{
  StateId, on_stop, configure_c, read_fw, read_encoder_ticks, reset_timeout, motion_init,
  initialize, home_axis, halt_axis, backoff_axis, zero_axis_position, motion_c, stop, effort,
  velocity, position, off_stop, Request, nothing, succeed, fail, change_to, drive_address, Task,
  task, fabs_lt, negate,
}

-- What a write event leads to: no reaction, a call of undefined behaviour, or a copy to the buffer.
pub data WriteReaction : Type 0 where
  ignored undefined : WriteReaction
  writes : RxPdo → WriteReaction

-- The members of the module that the handlers use. The three commands are the elements EFFORT,
-- VELOCITY and POSITION of command_interfaces; an integer is its bit pattern.
pub record Context (D : Type 0) : Type 0 where
  pub command_mode : CommandMode
  pub firmware_major : ℕ
  pub firmware_minor : ℕ
  pub module_type : ℕ
  pub encoder_ticks : ℕ
  pub torque_constant : D
  pub homing_current_limit : D
  pub homing_velocity_rpm : ℕ
  pub homing_backoff_rev : D
  pub halt_axis_vel_eps_rpm : ℕ
  pub zero_axis_pos_eps_ticks : ℕ
  pub effort_command : D
  pub velocity_command : D
  pub position_command : D

-- The RxPDO of the states that hold the drive.
abbrev pub halted : RxPdo
halted = record { setpoint = 0; mode = mode_code CommandMode.stop }

-- An assignment of a double to the setpoint.
abbrev pub set_to : CommandMode → Option ℕ → WriteReaction
set_to m none = undefined
set_to m (some w) = writes (record { setpoint = w; mode = mode_code m })

module _ (d : Doubles) where
  open d use {D}

  -- 0 <= (value - setpoint) * std::copysign(1, setpoint)
  unfoldable pub is_oriented_magnitude_gte : D → D → Bool
  is_oriented_magnitude_gte setpoint value =
      d.leb (d.of_nat 0) (d.mul (d.sub value setpoint) (d.copysign (d.of_nat 1) setpoint))

  -- (value - setpoint) * std::copysign(1, setpoint) <= 0
  unfoldable pub is_oriented_magnitude_lte : D → D → Bool
  is_oriented_magnitude_lte setpoint value =
      d.leb (d.mul (d.sub value setpoint) (d.copysign (d.of_nat 1) setpoint)) (d.of_nat 0)

  -- homing_current_limit != .0 && homing_velocity_rpm != 0
  unfoldable pub homing_configured : Context D → Bool
  homing_configured c =
      not (d.eqb c.homing_current_limit (d.of_nat 0)) && not (c.homing_velocity_rpm == 0)

  -- The plan that a region sets up on entry.
  unfoldable pub enter_plan : StateId → Context D → List Task
  unfolding homing_configured
  enter_plan configure_c c =
      task read_fw read_encoder_ticks ∷ task read_encoder_ticks reset_timeout ∷ []
  enter_plan motion_init c =
      if homing_configured c
      then task initialize halt_axis
        ∷ task halt_axis home_axis
        ∷ task home_axis halt_axis
        ∷ task halt_axis zero_axis_position
        ∷ task zero_axis_position backoff_axis
        ∷ task backoff_axis halt_axis
        ∷ task halt_axis zero_axis_position
        ∷ task zero_axis_position motion_c
        ∷ []
      else task initialize motion_c ∷ []
  enter_plan _ c = []

  abbrev pub succeed_if : Bool → Request
  succeed_if true = succeed
  succeed_if false = nothing

  -- react(const fsmEvent_Read &)
  unfoldable pub react_read : StateId → TxPdo → Context D → Request
  unfolding is_oriented_magnitude_gte fabs_lt
  react_read reset_timeout p c = succeed_if (not (has_flag ethercat_timeout p.status_flags))
  react_read initialize p c = succeed_if (has_flag initialized p.status_flags)
  react_read home_axis p c = succeed_if (
      is_oriented_magnitude_gte (d.mul c.homing_current_limit (d.of_nat 1000))
        (d.of_int32 p.current_ma))
  react_read backoff_axis p c = succeed_if (has_flag position_reached p.status_flags)
  react_read halt_axis p c = succeed_if (fabs_lt p.vel_rpm c.halt_axis_vel_eps_rpm)
  react_read zero_axis_position p c =
      succeed_if (fabs_lt p.position_ticks c.zero_axis_pos_eps_ticks)
  react_read _ p c = nothing

  -- The test of the two mailbox reactions.
  abbrev pub answers : Tmcl.Command → MbxReceive → Bool
  answers command msg =
      msg.status == status_code Tmcl.Status.success
      && msg.module_address == drive_address
      && msg.command == command_code command

  -- react(const fsmEvent_MBX_Msg &), with the members that it sets.
  unfoldable pub react_mbx : Endianness → StateId → MbxReceive → Context D → Context D × Request
  react_mbx host read_fw msg c =
      if answers Tmcl.Command.firmware_version msg
      then (
        record c {
          module_type = from_big_endian host 2 (msg.value % 2 ^ 16);
          firmware_major = msg.value / 2 ^ 16 % 2 ^ 8;
          firmware_minor = msg.value / 2 ^ 24 % 2 ^ 8;
        },
        succeed,
      )
      else (c, fail)
  react_mbx host read_encoder_ticks msg c =
      if answers Tmcl.Command.gap msg
      then (record c { encoder_ticks = from_big_endian host 4 msg.value }, succeed)
      else (c, fail)
  react_mbx host _ msg c = (c, nothing)

  -- react(const fsmEvent_Write &)
  unfoldable pub react_write : StateId → Context D → WriteReaction
  unfolding negate
  react_write on_stop c = writes halted
  react_write initialize c =
      if leb 2 c.firmware_major
      then set_to CommandMode.velocity (negate c.homing_velocity_rpm)
      else writes (record { setpoint = 0; mode = mode_code CommandMode.initialize })
  react_write home_axis c =
      writes (record { setpoint = c.homing_velocity_rpm; mode = mode_code CommandMode.velocity })
  react_write backoff_axis c =
      set_to CommandMode.position
        (d.to_int32 (d.mul c.homing_backoff_rev (d.of_uint32 c.encoder_ticks)))
  react_write halt_axis c = writes halted
  react_write zero_axis_position c = writes halted
  react_write stop c = writes halted
  react_write effort c = set_to CommandMode.effort (
      if d.is_finite c.effort_command
      then d.to_int32 (d.mul (d.div c.effort_command c.torque_constant) (d.of_nat 1000))
      else some 0)
  react_write velocity c = set_to CommandMode.velocity (
      if d.is_finite c.velocity_command
      then d.to_int32 (d.div (d.mul c.velocity_command (d.of_nat 60)) (d.mul (d.of_nat 2) d.pi))
      else some 0)
  react_write position c = set_to CommandMode.position (
      if d.is_finite c.position_command
      then d.to_int32
          (d.div (d.mul c.position_command (d.of_uint32 c.encoder_ticks)) (d.mul (d.of_nat 2) d.pi))
      else some 0)
  react_write off_stop c = writes halted
  react_write _ c = ignored

-- The state of the motion region for a command mode.
unfoldable pub motion_state : CommandMode → StateId
motion_state CommandMode.effort = effort
motion_state CommandMode.velocity = velocity
motion_state CommandMode.position = position
motion_state _ = stop

module _ {D : Type 0} where
  -- update(); only the motion region has one.
  unfoldable pub update : StateId → Context D → Request
  unfolding motion_state
  update motion_c c = change_to (motion_state c.command_mode)
  update _ c = nothing

-- planSucceeded() and planFailed() of the two regions with plans.
unfoldable pub plan_succeeded : StateId → Request
plan_succeeded configure_c = change_to motion_init
plan_succeeded motion_init = change_to off_stop
plan_succeeded _ = nothing

unfoldable pub plan_failed : StateId → Request
plan_failed configure_c = change_to off_stop
plan_failed motion_init = change_to off_stop
plan_failed _ = nothing
