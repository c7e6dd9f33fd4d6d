-- ===== src/Slave.antt =====
-- soem_driver_slave_interface/include/soem_driver_slave_interface/soem_driver_slave.hpp: what the
-- driver asks of a slave module, and the handles that pass between them.
use soem_driver_ros.Base.{ℕ, Bool, true, false, List, Text}

-- hardware_interface::return_type, as far as the code names its values.
pub data ReturnType : Type 0 where
  ok error : ReturnType

abbrev pub is_ok : ReturnType → Bool
is_ok ok = true
is_ok error = false

-- A StateInterface or CommandInterface is made of a prefix, a name and the address of a double.
pub record Handle : Type 0 where
  pub prefix_name : Text
  pub interface_name : Text
  pub value_ptr : ℕ

-- The virtual methods of SOEMDriverSlave that the claims resolver calls, over the states `S` of the
-- loaded modules.
pub record SlaveOps (S : Type 0) : Type 0 where
  pub export_state_interfaces : S → List Handle × S
  pub export_command_interfaces : S → List Handle × S
  pub prepare_command_mode_switch : List Text → List Text → S → ReturnType × S
  pub perform_command_mode_switch : List Text → List Text → S → ReturnType × S
