-- ===== src/Trinamic/Configure/Tests.antt =====
-- A slave with three parameters.
use soem_driver_ros.Base.{
  ℕ, suc, ◌≡◌, refl, true, false, [], ◌∷◌, Option, none, some, Text, codes, Dict, lookup, text_eq,
  length,
}
use soem_driver_ros.Driver.Urdf.Xml.{returns}
use soem_driver_ros.Driver.Urdf.Joints.{Yaml}
use soem_driver_ros.Trinamic.Module.{Fsm, Numbers, TrinamicTmcm1610}
use soem_driver_ros.Trinamic.Configure.{configure, make_fsm}
use soem_driver_ros.Trinamic.Configure.Homing.{with_homing, readable}
use soem_driver_ros.Trinamic.Configure.Accepted.{
  configure_result, gripper_of, torque_of, configure-accepts, configure_lem,
}
use soem_driver_ros.Trinamic.Tests.{naturals, context}

-- A machine that counts its events.
abbrev counter : Fsm ℕ
counter = record { F = ℕ; make = λ c. (c, 0); react = λ e s. (s.0, suc s.1) }

-- A text that is not empty is the number of its characters.
abbrev lengths : Text → Option ℕ
lengths [] = none
lengths (c ∷ cs) = some (suc (length cs))

abbrev numbers : Numbers ℕ
numbers = record { stoi = lengths; stod = lengths }

abbrev scalars : Yaml
scalars = record {
  Node = Text;
  load = λ t. some t;
  is_scalar = λ t. true;
  is_sequence = λ t. false;
  elements = λ t. [];
  as_string = λ t. t;
  as_bool = λ t. some (text_eq t (codes "true"));
}

abbrev parameters : Dict Text
parameters =
    (codes "torque_constant", codes "xxx")
    ∷ (codes "gripper", codes "true")
    ∷ (codes "homing_velocity_rpm", codes "xx")
    ∷ []

abbrev unconfigured : TrinamicTmcm1610 ℕ ℕ
unconfigured = record {
  context = context;
  has_gripper = false;
  gripper_command = 0;
  position_state = 0;
  velocity_state = 0;
  effort_state = 0;
  gripper_state = 0;
  fsm = none;
}

configure-accepts_example :
    configure naturals counter scalars numbers 0x0286 0x0070 1 parameters unconfigured ≡ (
      returns true,
      make_fsm naturals counter scalars numbers (record unconfigured {
        has_gripper = true;
        context =
            with_homing naturals counter scalars numbers parameters
              (record context { torque_constant = 3 });
      }),
    )
unfolding gripper_of torque_of readable lookup text_eq
configure-accepts_example =
    configure-accepts naturals counter scalars numbers 0x0286 0x0070 1 parameters unconfigured true
      3 refl refl refl refl

-- Another product.
configure_example :
    (configure naturals counter scalars numbers 0x0286 0x0071 1 parameters unconfigured).0
    ≡ configure_result naturals counter scalars numbers 0x0286 0x0071 parameters false
configure_example =
    configure_lem naturals counter scalars numbers 0x0286 0x0071 1 parameters unconfigured
