-- ===== src/Trinamic/Module.antt =====
-- TrinamicTMCM1610 (tmcm1610.cpp): configure(), the exports, and read() and write() around the state
-- machine. hfsm2 is not in the repository, so that the machine is a parameter: a function of the event
-- and of the members that its states use. Numbers and YAML are read by functions that are parameters.
pub mod Exported
use soem_driver_ros.Base.{
  ◌>>=◌, ℕ, ◌+◌, ◌*◌, ◌-◌, ◌%◌, ◌^◌, ◌&&◌, ◌||◌, ◌==◌, leb, Bool, true, false, not, if◌then◌else◌,
  List, [], ◌∷◌, ◌++◌, Option, none, some, map, Text, codes, Dict, lookup,
}
use soem_driver_ros.Slave.{Handle}
use soem_driver_ros.Trinamic.Doubles.{Doubles}
use soem_driver_ros.Trinamic.Endian.{Endianness}
use soem_driver_ros.Trinamic.Pdo.{StatusFlag, TxPdo, MbxReceive, has_flag, read_tx_pdo, read_mbx}
use soem_driver_ros.Trinamic.Reactions.{Context}

-- The events of the state machine, with update().
pub data FsmEvent : Type 0 where
  fsm_event_read : TxPdo → FsmEvent
  fsm_event_mbx_msg : MbxReceive → FsmEvent
  fsm_event_write update : FsmEvent

-- The state machine, over its own states.
pub record Fsm (D : Type 0) : Type 1 where
  pub F : Type 0
  pub make : Context D → Context D × F
  pub react : FsmEvent → Context D × F → Context D × F

-- std::stoi and std::stod.
pub record Numbers (D : Type 0) : Type 0 where
  pub stoi : Text → Option ℕ
  pub stod : Text → Option D

-- The members of the module. The commands that the states read are members of the context. `fsm` is
-- the pointer to the state machine.
pub record TrinamicTmcm1610 (D F : Type 0) : Type 0 where
  pub context : Context D
  pub has_gripper : Bool
  pub gripper_command : D
  pub position_state : D
  pub velocity_state : D
  pub effort_state : D
  pub gripper_state : D
  pub fsm : Option F

abbrev pub vendor_id : ℕ
vendor_id = 0x0286

abbrev pub product_code : ℕ
product_code = 0x0070

-- HARDWARE_INTERFACES
pub data HardwareInterface : Type 0 where
  position velocity effort gripper : HardwareInterface

abbrev pub interface_index : HardwareInterface → ℕ
interface_index position = 0
interface_index velocity = 1
interface_index effort = 2
interface_index gripper = 3

-- The handle of an element of an array of doubles at an address.
abbrev pub interface_handle : ℕ → Text → Text → HardwareInterface → Handle
interface_handle base prefix_name interface_name i = record {
  prefix_name = prefix_name;
  interface_name = interface_name;
  value_ptr = base + 8 * interface_index i;
}

unfoldable pub exported : ℕ → List Handle
exported base =
    interface_handle base (codes "drive") (codes "position") position
    ∷ interface_handle base (codes "drive") (codes "velocity") velocity
    ∷ interface_handle base (codes "drive") (codes "effort") effort
    ∷ interface_handle base (codes "gripper") (codes "position") gripper
    ∷ []

-- Twice an int32_t; `none` is an overflow.
unfoldable pub twice_int32 : ℕ → Option ℕ
twice_int32 w =
    if leb w (2 ^ 30 - 1) || leb (2 ^ 32 - 2 ^ 30) w then some (2 * w % 2 ^ 32) else none

-- The flags in the order of build_diagnostics.
unfoldable pub reported_flags : List StatusFlag
reported_flags =
    StatusFlag.over_current ∷ StatusFlag.under_voltage ∷ StatusFlag.over_voltage
    ∷ StatusFlag.over_temperature ∷ StatusFlag.motor_halted ∷ StatusFlag.hall_sensor_error
    ∷ StatusFlag.encoder_error ∷ StatusFlag.pwm_mode_active ∷ StatusFlag.velocity_mode
    ∷ StatusFlag.position_mode ∷ StatusFlag.torque_mode ∷ StatusFlag.position_reached
    ∷ StatusFlag.initialized ∷ StatusFlag.ethercat_timeout ∷ StatusFlag.i2t_exceeded ∷ []

-- What build_diagnostics adds to the status.
pub record Diagnostics (D : Type 0) : Type 0 where
  pub flags : List (StatusFlag × Bool)
  pub encoder_ticks : ℕ
  pub torque_constant : D
  pub module_type : ℕ
  pub firmware_version : ℕ × ℕ

module _ (d : Doubles) (fsm : Fsm d.D) where
  open d use {D}
  open fsm use {F}

  abbrev pub Self : Type 0
  Self = TrinamicTmcm1610 D F

  unfoldable pub export_state_interfaces : ℕ → Self → List Handle × Self
  unfolding exported
  export_state_interfaces base m = (
    exported base,
    record m {
      position_state = d.nan;
      velocity_state = d.nan;
      effort_state = d.nan;
      gripper_state = d.nan;
    },
  )

  unfoldable pub export_command_interfaces : ℕ → Self → List Handle × Self
  unfolding exported
  export_command_interfaces base m = (
    exported base,
    record m {
      context = record m.context {
        position_command = d.nan;
        velocity_command = d.nan;
        effort_command = d.nan;
      };
      gripper_command = d.nan;
    },
  )

  unfoldable pub build_diagnostics : ℕ → Context D → Diagnostics D
  unfolding reported_flags has_flag
  build_diagnostics pdo_status c = record {
    flags = map (λ f. (f, has_flag f pdo_status)) reported_flags;
    encoder_ticks = c.encoder_ticks;
    torque_constant = c.torque_constant;
    module_type = c.module_type;
    firmware_version = (c.firmware_major, c.firmware_minor);
  }

  unfoldable pub react_all : List FsmEvent → Context D × F → Context D × F
  react_all [] s = s
  react_all (e ∷ es) s = react_all es (fsm.react e s)

  -- The events of a read(), for the process data and the received messages. With a message stands what
  -- the local that it is copied to holds before.
  abbrev pub read_events : Endianness → TxPdo → List (List ℕ × List ℕ) → List FsmEvent
  read_events host p mails =
      fsm_event_read p
      ∷ (map (λ mail. fsm_event_mbx_msg (read_mbx host mail.0 mail.1)) mails ++ update ∷ [])

  -- The three state interfaces.
  unfoldable pub scale : TxPdo → Self → Option Self
  unfolding twice_int32
  scale p m = do
    ticks ← twice_int32 p.position_ticks
    rpm ← twice_int32 p.vel_rpm
    some (record m {
      position_state = d.div (d.mul (d.of_int32 ticks) d.pi) (d.of_uint32 m.context.encoder_ticks);
      velocity_state = d.div (d.mul (d.of_int32 rpm) d.pi) (d.of_nat 60);
      effort_state =
          d.div (d.mul (d.of_int32 p.current_ma) m.context.torque_constant) (d.of_nat 1000);
    })

  -- `none` is an overflow, or the use of the pointer to the state machine before configure().
  unfoldable pub read :
      Endianness → List ℕ → List ℕ → List (List ℕ × List ℕ) → Self → Option (Self × Diagnostics D)
  unfolding read_tx_pdo read_mbx scale react_all build_diagnostics
  read host indeterminate tx_pdo mails m0 = do
    let p = read_tx_pdo host indeterminate tx_pdo
    m ← scale p m0
    f ← m.fsm
    let s = react_all (read_events host p mails) (m.context, f)
    some (record m { context = s.0; fsm = some s.1 }, build_diagnostics p.status_flags s.0)

  unfoldable pub write : Self → Option Self
  unfolding react_all
  write m = do
    f ← m.fsm
    let s = react_all (update ∷ fsm_event_write ∷ []) (m.context, f)
    some (record m { context = s.0; fsm = some s.1 })
