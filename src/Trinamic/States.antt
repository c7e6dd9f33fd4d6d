-- ===== src/Trinamic/States.antt =====
-- The state machine of TrinamicTMCM1610 (tmcm1610.cpp): its states, what a handler can ask of the
-- machine, which is hfsm2's, and the mailbox calls of the enter() methods. Log lines are left out.
use soem_driver_ros.Base.{
  ℕ, ◌-◌, ◌%◌, ◌^◌, Bool, true, false, ◌&&◌, ◌==◌, ltb, if◌then◌else◌, List, [], ◌∷◌, Option, none,
  some,
}
use soem_driver_ros.Trinamic.Tmcl.{command_code, status_code}
use soem_driver_ros.Trinamic.Tmcl
use soem_driver_ros.Trinamic.Pdo.{MbxSend}

-- The states and regions, hfsmS(...).
pub data StateId : Type 0 where
  on_stop configure_c read_fw read_encoder_ticks reset_timeout : StateId
  motion_init initialize home_axis halt_axis backoff_axis zero_axis_position : StateId
  motion_c stop effort velocity position : StateId
  off_stop : StateId

-- What a handler asks of the machine.
pub data Request : Type 0 where
  nothing succeed fail : Request
  change_to : StateId → Request

-- A call of mbx_enqueue_send(msg, read_response, read_mbx_raw).
pub record MbxCall : Type 0 where
  pub msg : MbxSend
  pub read_response : Bool
  pub read_mbx_raw : Bool

-- MBX_TMCLModuleAddress::DRIVE
abbrev pub drive_address : ℕ
drive_address = 0

abbrev pub drive_message : Tmcl.Command → ℕ → MbxSend
drive_message command parameter = record {
  module_address = drive_address;
  command = command_code command;
  parameter = parameter;
  motor_bank = 0;
  value = 0;
}

-- The mailbox calls of enter(). A missing argument read_mbx_raw is false.
unfoldable pub enter_sends : StateId → List MbxCall
enter_sends read_fw =
    record {
      msg = drive_message Tmcl.Command.firmware_version 1;
      read_response = true;
      read_mbx_raw = true;
    }
    ∷ []
enter_sends read_encoder_ticks =
    record { msg = drive_message Tmcl.Command.gap 250; read_response = true; read_mbx_raw = true }
    ∷ []
enter_sends reset_timeout =
    record { msg = drive_message Tmcl.Command.sap 158; read_response = false; read_mbx_raw = false }
    ∷ []
enter_sends zero_axis_position =
    record { msg = drive_message Tmcl.Command.sap 1; read_response = false; read_mbx_raw = false }
    ∷ []
enter_sends _ = []

-- A task of a plan: plan.change<origin, destination>().
pub record Task : Type 0 where
  pub origin : StateId
  pub destination : StateId

abbrev pub task : StateId → StateId → Task
task a b = record { origin = a; destination = b }

-- The magnitude and the sign of the int32_t of a bit pattern.
abbrev pub magnitude : ℕ → ℕ
magnitude w = if ltb w (2 ^ 31) then w else 2 ^ 32 - w

-- std::fabs(v) < eps, exact for two int32_t
unfoldable pub fabs_lt : ℕ → ℕ → Bool
fabs_lt v eps = ltb eps (2 ^ 31) && ltb (magnitude v) eps

-- -1 * v; `none` is the overflow at the least int32_t.
unfoldable pub negate : ℕ → Option ℕ
negate v = if v == 2 ^ 31 then none else some ((2 ^ 32 - v) % 2 ^ 32)
