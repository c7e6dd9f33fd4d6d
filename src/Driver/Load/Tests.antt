-- ===== src/Driver/Load/Tests.antt =====
-- The description of a robot, of whose two modules one cannot be made.
use soem_driver_ros.Base.{
  ℕ, Bool, ◌≡◌, refl, true, false, [], ◌∷◌, Option, none, some, or_else, Text, codes, text_eq,
  lookup, assign,
}
use soem_driver_ros.Slave.{ok, SlaveOps}
use soem_driver_ros.Claims.Resolve.{EcClaimsResolver}
use soem_driver_ros.Driver.Urdf.Xml.{returns, get_int}
use soem_driver_ros.Driver.Urdf.Hardware.{parse_hardware_from_doc}
use soem_driver_ros.Driver.Urdf.Slaves.{parse_slaves_from_hardware}
use soem_driver_ros.Driver.Urdf.Joints.{parse_joint_claims}
use soem_driver_ros.Driver.Urdf.Info.{parse_hardware_info}
use soem_driver_ros.Driver.Urdf.Tests.{document, letters, hardware_info, defaults}
use soem_driver_ros.Driver.Load.{GivenTransmission, Plugins, DriverFields, on_init}
use soem_driver_ros.Driver.Load.Loaded.{none_refuses, last_made, on_init-loads}

abbrev silent : SlaveOps ℕ
silent = record {
  export_state_interfaces = λ s. ([], s);
  export_command_interfaces = λ s. ([], s);
  prepare_command_mode_switch = λ start stop s. (ok, s);
  perform_command_mode_switch = λ start stop s. (ok, s);
}

-- The init of the module left throws.
abbrev plugins : Plugins ℕ
plugins = record {
  create = λ name. some 1;
  init = λ name parameters s. if_left name;
  creates_loader = λ t. true;
  loads = λ t. some (true, true);
}
  where
    if_left : Text → Option (Bool × ℕ)
    if_left name = elim (text_eq name (codes "left")) [ true ↦ none | false ↦ some (true, 2) ]

abbrev arm : GivenTransmission
arm = record {
  type = codes "transmission_interface/SimpleTransmission";
  joints = codes "arm" ∷ [];
  actuators = codes "j" ∷ [];
}

abbrev resolver : EcClaimsResolver ℕ
resolver = record {
  slaves = [];
  joint_claims = [];
  slave_interfaces = [];
  command_interface_map = [];
}

abbrev fresh : DriverFields ℕ
fresh = record {
  configuration = defaults;
  slaves = [];
  transmissions = [];
  claims_resolver = resolver;
}

abbrev initialized : DriverFields ℕ
initialized = elim (on_init document letters plugins silent hardware_info (arm ∷ []) fresh) [
  | none ↦ fresh
  | some r ↦ r.1
]

on_init-loads_example :
    (parse_hardware_info document letters hardware_info defaults
      ≡ (returns tt, initialized.configuration))
    × (none_refuses plugins initialized.configuration.slave_infos ≡ true)
    × (lookup (codes "right") initialized.slaves
        ≡ or_else (last_made plugins (codes "right") initialized.configuration.slave_infos) none)
unfolding on_init parse_hardware_from_doc get_int parse_slaves_from_hardware parse_joint_claims
    lookup assign text_eq
on_init-loads_example =
    on_init-loads document letters plugins silent hardware_info (arm ∷ []) fresh initialized refl
      (codes "right")
