-- ===== src/Trinamic/Configure.antt =====
-- TrinamicTMCM1610::configure (tmcm1610.cpp). What is read before an exception stays stored.
pub mod Homing
pub mod Accepted
mod Tests
use soem_driver_ros.Base.{
  ℕ, ◌==◌, ◌&&◌, Bool, true, false, not, if◌then◌else◌, List, [], ◌∷◌, Option, none, some, Text,
  codes, Dict, lookup,
}
use soem_driver_ros.Driver.Urdf.Xml.{bad_conversion, bad_yaml, Outcome, returns, or_throw}
use soem_driver_ros.Driver.Urdf.Parser.{Parser, ◌>>=◌, ◌>>◌, lift, store}
use soem_driver_ros.Driver.Urdf.Joints.{Yaml}
use soem_driver_ros.Trinamic.Doubles.{Doubles}
use soem_driver_ros.Trinamic.Reactions.{Context}
use soem_driver_ros.Trinamic.Module.{Fsm, Numbers, TrinamicTmcm1610, vendor_id, product_code}

-- if (parameters.find(key) != parameters.end()) { ... }
unfoldable pub optional_parameter :
    {S A : Type 0} → (Text → Option A) → Text → Dict Text → (A → S → S) → Parser S (Unit {0})
optional_parameter convert key parameters set_field = elim (lookup key parameters) [
  | none ↦ lift (returns tt)
  | some text ↦ lift (or_throw bad_conversion (convert text)) >>= λ a. store (set_field a)
]

module _ (y : Yaml) where
  -- The value of the gripper parameter; a node that is no scalar leaves the member as it is.
  unfoldable pub gripper_value : Bool → Text → Outcome Bool
  gripper_value before text = elim (y.load text) [
    | none ↦ or_throw bad_yaml none
    | some node ↦ if y.is_scalar node then or_throw bad_yaml (y.as_bool node) else returns before
  ]

module _ (d : Doubles) (fsm : Fsm d.D) (y : Yaml) (numbers : Numbers d.D) where
  open d use {D}
  open fsm use {F}

  abbrev Self : Type 0
  Self = TrinamicTmcm1610 D F

  abbrev in_context : (Context D → Context D) → Self → Self
  in_context f m = record m { context = f m.context }

  abbrev pub set_torque : D → Self → Self
  set_torque x = in_context (λ c. record c { torque_constant = x })

  abbrev pub set_velocity : ℕ → Self → Self
  set_velocity n = in_context (λ c. record c { homing_velocity_rpm = n })

  abbrev pub set_current : D → Self → Self
  set_current x = in_context (λ c. record c { homing_current_limit = x })

  abbrev pub set_backoff : D → Self → Self
  set_backoff x = in_context (λ c. record c { homing_backoff_rev = x })

  abbrev pub set_halt : ℕ → Self → Self
  set_halt n = in_context (λ c. record c { halt_axis_vel_eps_rpm = n })

  abbrev pub set_zero : ℕ → Self → Self
  set_zero n = in_context (λ c. record c { zero_axis_pos_eps_ticks = n })

  -- fsm = std::make_unique<FSM::Instance>(*this)
  abbrev pub make_fsm : Self → Self
  make_fsm m = let s = fsm.make m.context in record m { context = s.0; fsm = some s.1 }

  -- The parameters of the homing, and the state machine.
  unfoldable pub configure_homing : Dict Text → Parser Self Bool
  configure_homing parameters = do
    optional_parameter numbers.stoi (codes "homing_velocity_rpm") parameters set_velocity
    optional_parameter numbers.stod (codes "homing_current_limit") parameters set_current
    optional_parameter numbers.stod (codes "homing_backoff_rev") parameters set_backoff
    optional_parameter numbers.stoi (codes "halt_axis_vel_eps_rpm") parameters set_halt
    optional_parameter numbers.stoi (codes "zero_axis_pos_eps_ticks") parameters set_zero
    store make_fsm
    lift (returns true)

  unfoldable pub configure_gripper : Dict Text → Parser Self (Unit {0})
  unfolding gripper_value
  configure_gripper parameters m = elim (lookup (codes "gripper") parameters) [
    | none ↦ (returns tt, m)
    | some text ↦
        (lift (gripper_value y m.has_gripper text) >>= λ b.
        store (λ k. record k { has_gripper = b }))
          m
  ]

  unfoldable pub configure_parameters : Dict Text → Parser Self Bool
  configure_parameters parameters = do
    configure_gripper parameters
    elim (lookup (codes "torque_constant") parameters) [
      | none ↦ lift (returns false)
      | some text ↦ do
        torque_constant ← lift (or_throw bad_conversion (numbers.stod text))
        store (set_torque torque_constant)
        configure_homing parameters
    ]

  unfoldable pub configure : ℕ → ℕ → ℕ → Dict Text → Parser Self Bool
  configure vendor product revision_number parameters =
      if not (vendor == vendor_id && product == product_code)
      then lift (returns false)
      else configure_parameters parameters
