-- ===== src/Driver/Modes.antt =====
-- SOEMDriver::prepare_command_mode_switch and perform_command_mode_switch (soem_driver.cpp): joint
-- interfaces behind a transmission are mapped to those of its actuator.
pub mod Phases
use soem_driver_ros.Base.{List, map, Option, none, some, Text, Dict, lookup}
use soem_driver_ros.Slave.{ReturnType, SlaveOps}
use soem_driver_ros.Claims.Resolve.{EcClaimsResolver}
use soem_driver_ros.Claims.Switch

unfoldable pub map_interface : Dict Text → Text → Text
map_interface transmission_command_interface_map interface =
    elim (lookup interface transmission_command_interface_map) [
      | none ↦ interface
      | some mapped ↦ mapped
    ]

module _ {S : Type 0} (ops : SlaveOps S) (transmission_command_interface_map : Dict Text) where
  unfoldable pub prepare_command_mode_switch :
      List Text → List Text → EcClaimsResolver S → ReturnType × EcClaimsResolver S
  unfolding map_interface
  prepare_command_mode_switch start_interfaces stop_interfaces claims_resolver =
      Switch.prepare_command_mode_switch ops
        (map (map_interface transmission_command_interface_map) start_interfaces)
        (map (map_interface transmission_command_interface_map) stop_interfaces) claims_resolver

  unfoldable pub perform_command_mode_switch :
      List Text → List Text → EcClaimsResolver S → ReturnType × EcClaimsResolver S
  unfolding map_interface
  perform_command_mode_switch start_interfaces stop_interfaces claims_resolver =
      Switch.perform_command_mode_switch ops
        (map (map_interface transmission_command_interface_map) start_interfaces)
        (map (map_interface transmission_command_interface_map) stop_interfaces) claims_resolver
