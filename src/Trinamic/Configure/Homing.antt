-- ===== src/Trinamic/Configure/Homing.antt =====
-- The optional parameters of configure(), and those of the homing.
use soem_driver_ros.Base.{
  ◌≡◌, refl, ◌&&◌, Bool, true, false, Option-cases, if◌then◌else◌, inl, inr, Option, none, some,
  is_some, arith, Text, codes, Dict, lookup,
}
use soem_driver_ros.Driver.Urdf.Xml.{bad_conversion, returns, throws}
use soem_driver_ros.Driver.Urdf.Joints.{Yaml}
use soem_driver_ros.Trinamic.Doubles.{Doubles}
use soem_driver_ros.Trinamic.Reactions.{Context}
use soem_driver_ros.Trinamic.Module.{Fsm, Numbers, TrinamicTmcm1610}
use soem_driver_ros.Trinamic.Configure.{
  configure_homing, optional_parameter, set_velocity, set_current, set_backoff, set_halt, set_zero,
  make_fsm,
}

module _ {A : Type 0} (convert : Text → Option A) where
  -- A parameter is missing or converts.
  unfoldable pub readable : Text → Dict Text → Bool
  readable key parameters = elim (lookup key parameters) [
    | none ↦ true
    | some text ↦ is_some (convert text)
  ]

  -- The value of a parameter, or the one before.
  unfoldable pub value_or : A → Text → Dict Text → A
  value_or before key parameters = elim (lookup key parameters) [
    | none ↦ before
    | some text ↦ elim (convert text) [ none ↦ before | some a ↦ a ]
  ]

  -- What reading an optional parameter does, for a setter that can set the value before.
  optional_parameter_lem :
      {S : Type 0} (key : Text) (parameters : Dict Text) (set : A → S → S) (s : S) (before : A)
      → set before s ≡ s
      → optional_parameter convert key parameters set s ≡ (
          if readable key parameters
          then (returns tt, set (value_or before key parameters) s)
          else (throws bad_conversion, s))
  unfolding optional_parameter readable value_or
  optional_parameter_lem key parameters set s before same =
      elim (Option-cases (lookup key parameters)) [
        | inl missing ↦ ground (arith, missing, same)
        | inr (text, found) ↦ elim (Option-cases (convert text)) [
          | inl bad ↦ ground (arith, found, bad)
          | inr (a, good) ↦ ground (arith, found, good)
        ]
      ]

module _ (d : Doubles) (fsm : Fsm d.D) (y : Yaml) (numbers : Numbers d.D) where
  open d use {D}
  open fsm use {F}

  abbrev Self : Type 0
  Self = TrinamicTmcm1610 D F

  -- The parameters of the homing convert.
  abbrev pub homing_readable : Dict Text → Bool
  homing_readable parameters =
      readable numbers.stoi (codes "homing_velocity_rpm") parameters
      && readable numbers.stod (codes "homing_current_limit") parameters
      && readable numbers.stod (codes "homing_backoff_rev") parameters
      && readable numbers.stoi (codes "halt_axis_vel_eps_rpm") parameters
      && readable numbers.stoi (codes "zero_axis_pos_eps_ticks") parameters

  -- The members that they set.
  abbrev pub with_homing : Dict Text → Context D → Context D
  with_homing parameters c = record c {
    homing_velocity_rpm =
        value_or numbers.stoi c.homing_velocity_rpm (codes "homing_velocity_rpm") parameters;
    homing_current_limit =
        value_or numbers.stod c.homing_current_limit (codes "homing_current_limit") parameters;
    homing_backoff_rev =
        value_or numbers.stod c.homing_backoff_rev (codes "homing_backoff_rev") parameters;
    halt_axis_vel_eps_rpm =
        value_or numbers.stoi c.halt_axis_vel_eps_rpm (codes "halt_axis_vel_eps_rpm") parameters;
    zero_axis_pos_eps_ticks =
        value_or numbers.stoi c.zero_axis_pos_eps_ticks (codes "zero_axis_pos_eps_ticks")
          parameters;
  }

  module _ (parameters : Dict Text) (m : Self) where
    abbrev after_velocity : Self
    after_velocity =
        set_velocity d fsm y numbers
          (value_or numbers.stoi m.context.homing_velocity_rpm (codes "homing_velocity_rpm")
            parameters)
          m

    abbrev after_current : Self
    after_current =
        set_current d fsm y numbers
          (value_or numbers.stod m.context.homing_current_limit (codes "homing_current_limit")
            parameters)
          after_velocity

    abbrev after_backoff : Self
    after_backoff =
        set_backoff d fsm y numbers
          (value_or numbers.stod m.context.homing_backoff_rev (codes "homing_backoff_rev")
            parameters)
          after_current

    abbrev after_halt : Self
    after_halt =
        set_halt d fsm y numbers
          (value_or numbers.stoi m.context.halt_axis_vel_eps_rpm (codes "halt_axis_vel_eps_rpm")
            parameters)
          after_backoff

    abbrev after_zero_axis : Self
    after_zero_axis =
        set_zero d fsm y numbers
          (value_or numbers.stoi m.context.zero_axis_pos_eps_ticks (codes "zero_axis_pos_eps_ticks")
            parameters)
          after_halt

    velocity_step :
        optional_parameter numbers.stoi
          (codes "homing_velocity_rpm")
          parameters
          (set_velocity d fsm y numbers)
          m
        ≡ (if readable numbers.stoi (codes "homing_velocity_rpm") parameters
            then (returns tt, after_velocity)
            else (throws bad_conversion, m))
    velocity_step =
        optional_parameter_lem numbers.stoi (codes "homing_velocity_rpm") parameters
          (set_velocity d fsm y numbers) m m.context.homing_velocity_rpm refl

    current_step :
        optional_parameter numbers.stod
          (codes "homing_current_limit")
          parameters
          (set_current d fsm y numbers)
          after_velocity
        ≡ (if readable numbers.stod (codes "homing_current_limit") parameters
            then (returns tt, after_current)
            else (throws bad_conversion, after_velocity))
    current_step =
        optional_parameter_lem numbers.stod (codes "homing_current_limit") parameters
          (set_current d fsm y numbers) after_velocity m.context.homing_current_limit refl

    backoff_step :
        optional_parameter numbers.stod
          (codes "homing_backoff_rev")
          parameters
          (set_backoff d fsm y numbers)
          after_current
        ≡ (if readable numbers.stod (codes "homing_backoff_rev") parameters
            then (returns tt, after_backoff)
            else (throws bad_conversion, after_current))
    backoff_step =
        optional_parameter_lem numbers.stod (codes "homing_backoff_rev") parameters
          (set_backoff d fsm y numbers) after_current m.context.homing_backoff_rev refl

    halt_step :
        optional_parameter numbers.stoi
          (codes "halt_axis_vel_eps_rpm")
          parameters
          (set_halt d fsm y numbers)
          after_backoff
        ≡ (if readable numbers.stoi (codes "halt_axis_vel_eps_rpm") parameters
            then (returns tt, after_halt)
            else (throws bad_conversion, after_backoff))
    halt_step =
        optional_parameter_lem numbers.stoi (codes "halt_axis_vel_eps_rpm") parameters
          (set_halt d fsm y numbers) after_backoff m.context.halt_axis_vel_eps_rpm refl

    zero_axis_step :
        optional_parameter numbers.stoi
          (codes "zero_axis_pos_eps_ticks")
          parameters
          (set_zero d fsm y numbers)
          after_halt
        ≡ (if readable numbers.stoi (codes "zero_axis_pos_eps_ticks") parameters
            then (returns tt, after_zero_axis)
            else (throws bad_conversion, after_halt))
    zero_axis_step =
        optional_parameter_lem numbers.stoi (codes "zero_axis_pos_eps_ticks") parameters
          (set_zero d fsm y numbers) after_halt m.context.zero_axis_pos_eps_ticks refl

    pub configure_homing-accepts :
        homing_readable parameters ≡ true
        → configure_homing d fsm y numbers parameters m ≡ (
          returns true,
          make_fsm d fsm y numbers (record m { context = with_homing parameters m.context }),
        )
    unfolding configure_homing
    configure_homing-accepts h =
        ground (arith, h, velocity_step, current_step, backoff_step, halt_step, zero_axis_step)

    pub configure_homing-throws :
        homing_readable parameters ≡ false
        → (configure_homing d fsm y numbers parameters m).0 ≡ throws bad_conversion
    unfolding configure_homing
    configure_homing-throws h =
        ground (arith, h, velocity_step, current_step, backoff_step, halt_step, zero_axis_step)
