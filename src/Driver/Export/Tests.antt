-- ===== src/Driver/Export/Tests.antt =====
-- Two joints, the second behind a transmission.
use soem_driver_ros.Base.{
  ℕ, ◌≡◌, ◌++◌, refl, true, List, [], ◌∷◌, Text, codes, Dict, lookup, text_eq,
}
use soem_driver_ros.Slave.{Handle}
use soem_driver_ros.Driver.Modes.{map_interface}
use soem_driver_ros.Driver.Export.{
  TransmissionInfo, no_exports, values_count, export_joints, map_joints,
}
use soem_driver_ros.Driver.Export.Slots.{handed, addresses, export_joints-addresses}
use soem_driver_ros.Driver.Export.Mapped.{last_proxied, map_interface-map_joints}

abbrev full_name : Handle → Text
full_name h = h.prefix_name ++ (codes "/" ++ h.interface_name)

abbrev handle : Text → Text → ℕ → Handle
handle prefix_name interface_name value_ptr = record {
  prefix_name = prefix_name;
  interface_name = interface_name;
  value_ptr = value_ptr;
}

abbrev joints : Dict (List Handle)
joints =
    (codes "a", handle (codes "drive") (codes "position") 100 ∷ [])
    ∷ (
      codes "b",
      handle (codes "drive") (codes "position") 200
          ∷ handle (codes "drive") (codes "effort") 208
          ∷ [],
    )
    ∷ []

abbrev transmissions : Dict TransmissionInfo
transmissions =
    (
      codes "b",
      record {
        joint_name = codes "arm";
        actuator_name = codes "b";
        state_loaded = true;
        command_loaded = true;
      },
    )
    ∷ []

exported_interfaces :
    (export_joints transmissions 1000 joints no_exports).interfaces
    ≡ handle (codes "a") (codes "position") 100
      ∷ handle (codes "arm") (codes "position") 1000
      ∷ handle (codes "arm") (codes "effort") 1008
      ∷ []
unfolding export_joints lookup text_eq
exported_interfaces = refl

export_joints-addresses_example :
    handed (export_joints transmissions 1000 joints no_exports).configured
    ≡ addresses 1000 0 (values_count transmissions joints)
export_joints-addresses_example = export_joints-addresses transmissions 1000 joints

map_interface-map_joints_example :
    map_interface (map_joints transmissions full_name joints []) (codes "arm/effort")
    ≡ codes "drive/effort"
unfolding last_proxied lookup text_eq
map_interface-map_joints_example =
    map_interface-map_joints full_name (codes "arm/effort") transmissions joints
