-- ===== src/Trinamic/Configure/Accepted.antt =====
-- Which slaves configure() accepts, and what it has read then.
use soem_driver_ros.Base.{
  ℕ, ◌==◌, ◌≡◌, ◌&&◌, Bool, true, false, Bool-cases, Option-cases, if◌then◌else◌, inl, inr, Option,
  none, some, is_some, arith, Text, codes, Dict, lookup,
}
use soem_driver_ros.Driver.Urdf.Xml.{bad_conversion, bad_yaml, Outcome, returns, throws}
use soem_driver_ros.Driver.Urdf.Joints.{Yaml}
use soem_driver_ros.Trinamic.Doubles.{Doubles}
use soem_driver_ros.Trinamic.Module.{Fsm, Numbers, TrinamicTmcm1610, vendor_id, product_code}
use soem_driver_ros.Trinamic.Configure.{
  configure_gripper, configure_parameters, configure, make_fsm,
}
use soem_driver_ros.Trinamic.Configure.Homing.{
  homing_readable, with_homing, configure_homing-accepts, configure_homing-throws,
}

module _ (d : Doubles) (fsm : Fsm d.D) (y : Yaml) (numbers : Numbers d.D) where
  open d use {D}
  open fsm use {F}

  abbrev Self : Type 0
  Self = TrinamicTmcm1610 D F

  -- What the gripper parameter says; a missing one, or a node that is no scalar, leaves the member.
  unfoldable pub gripper_of : Bool → Dict Text → Option Bool
  gripper_of before parameters = elim (lookup (codes "gripper") parameters) [
    | none ↦ some before
    | some text ↦ elim (y.load text) [
      | none ↦ none
      | some node ↦ if y.is_scalar node then y.as_bool node else some before
    ]
  ]

  -- The torque constant, if the parameter is there and converts.
  unfoldable pub torque_of : Dict Text → Option D
  torque_of parameters = elim (lookup (codes "torque_constant") parameters) [
    | none ↦ none
    | some text ↦ numbers.stod text
  ]

  abbrev pub is_tmcm1610 : ℕ → ℕ → Bool
  is_tmcm1610 vendor product = vendor == vendor_id && product == product_code

  -- The result of configure(): refused, accepted, or an exception.
  abbrev pub configure_result : ℕ → ℕ → Dict Text → Bool → Outcome Bool
  configure_result vendor product parameters has_gripper =
      if is_tmcm1610 vendor product
      then elim (gripper_of has_gripper parameters) [
        | none ↦ throws bad_yaml
        | some g ↦
            if is_some (lookup (codes "torque_constant") parameters)
            then (if is_some (torque_of parameters) && homing_readable d fsm y numbers parameters
                then returns true
                else throws bad_conversion)
            else returns false
      ]
      else returns false

  configure_gripper_lem :
      (parameters : Dict Text) (m : Self)
      → configure_gripper d fsm y numbers parameters m
        ≡ elim (gripper_of m.has_gripper parameters) [
          | none ↦ (throws bad_yaml, m)
          | some g ↦ (returns tt, record m { has_gripper = g })
        ]
  unfolding configure_gripper gripper_of
  configure_gripper_lem parameters m = elim (Option-cases (lookup (codes "gripper") parameters)) [
    | inl missing ↦ ground (arith, missing)
    | inr (text, found) ↦ elim (Option-cases (y.load text)) [
      | inl bad ↦ ground (arith, found, bad)
      | inr (node, loaded) ↦ elim (Bool-cases (y.is_scalar node)) [
        | inl scalar ↦ elim (Option-cases (y.as_bool node)) [
          | inl bad ↦ ground (arith, found, loaded, scalar, bad)
          | inr (b, good) ↦ ground (arith, found, loaded, scalar, good)
        ]
        | inr other ↦ ground (arith, found, loaded, other)
      ]
    ]
  ]

  -- configure() accepts a slave with the ids of the module, a torque constant, and parameters that
  -- convert. It has then read the parameters, with the values before for those that are missing, and
  -- has made the state machine with them.
  pub configure-accepts :
      (vendor product revision_number : ℕ) (parameters : Dict Text) (m : Self) (g : Bool) (t : D)
      → is_tmcm1610 vendor product ≡ true
      → gripper_of m.has_gripper parameters ≡ some g
      → torque_of parameters ≡ some t
      → homing_readable d fsm y numbers parameters ≡ true
      → configure d fsm y numbers vendor product revision_number parameters m ≡ (
        returns true,
        make_fsm d fsm y numbers (record m {
          has_gripper = g;
          context =
              with_homing d fsm y numbers parameters (record m.context { torque_constant = t });
        }),
      )
  unfolding configure configure_parameters torque_of
  configure-accepts vendor product revision_number parameters m g t ids gripper torque homing =
      elim (Option-cases (lookup (codes "torque_constant") parameters)) [
        | inl missing ↦ absurd (ground (arith, missing, torque))
        | inr (text, found) ↦ ground (
          arith,
          ids,
          gripper,
          found,
          torque,
          configure_gripper_lem parameters m,
          configure_homing-accepts d fsm y numbers parameters
              (record m { has_gripper = g; context = record m.context { torque_constant = t } })
              homing,
        )
      ]

  configure_parameters_result :
      (parameters : Dict Text) (m : Self) (g : Bool)
      → gripper_of m.has_gripper parameters ≡ some g
      → (configure_parameters d fsm y numbers parameters m).0 ≡ (
          if is_some (lookup (codes "torque_constant") parameters)
          then (if is_some (torque_of parameters) && homing_readable d fsm y numbers parameters
              then returns true
              else throws bad_conversion)
          else returns false)
  unfolding configure_parameters torque_of
  configure_parameters_result parameters m g gripper =
      let run = configure_gripper_lem parameters m in
      elim (Option-cases (lookup (codes "torque_constant") parameters)) [
        | inl missing ↦ ground (arith, missing, gripper, run)
        | inr (text, found) ↦ elim (Option-cases (numbers.stod text)) [
          | inl bad ↦ ground (arith, found, bad, gripper, run)
          | inr (t, good) ↦
              (let m' : Self = record m {
                has_gripper = g;
                context = record m.context { torque_constant = t };
              } in
                elim (Bool-cases (homing_readable d fsm y numbers parameters)) [
                  | inl all ↦ ground (
                    arith,
                    found,
                    good,
                    gripper,
                    run,
                    all,
                    configure_homing-accepts d fsm y numbers parameters m' all,
                  )
                  | inr some_bad ↦ ground (
                    arith,
                    found,
                    good,
                    gripper,
                    run,
                    some_bad,
                    configure_homing-throws d fsm y numbers parameters m' some_bad,
                  )
                ])
        ]
      ]

  -- configure() decides in this order: another vendor or product is refused; a gripper parameter that
  -- is no YAML, or a scalar that is no Boolean, is an exception; a slave without a torque constant is
  -- refused; a parameter that is no number is an exception; all other slaves are accepted.
  pub configure_lem :
      (vendor product revision_number : ℕ) (parameters : Dict Text) (m : Self)
      → (configure d fsm y numbers vendor product revision_number parameters m).0
        ≡ configure_result vendor product parameters m.has_gripper
  unfolding configure configure_parameters
  configure_lem vendor product revision_number parameters m =
      elim (Bool-cases (is_tmcm1610 vendor product)) [
        | inl ids ↦ elim (Option-cases (gripper_of m.has_gripper parameters)) [
          | inl bad ↦ ground (arith, ids, bad, configure_gripper_lem parameters m)
          | inr (g, good) ↦
              ground (arith, ids, good, configure_parameters_result parameters m g good)
        ]
        | inr other ↦ ground (arith, other)
      ]
