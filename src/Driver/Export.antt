-- ===== src/Driver/Export.antt =====
-- SOEMDriver::export_state_interfaces and export_command_interfaces (soem_driver.cpp). The interfaces of
-- a joint with a transmission are exported under the name of the transmission's joint, each with an
-- element of transmission_state_values or transmission_command_values of its own. A call of the
-- configure method of a transmission is kept with the handles that it is given.
pub mod Slots
pub mod Mapped
mod Tests
use soem_driver_ros.Base.{
  ◌>>=◌, ◌&&◌, Bool, true, ℕ, suc, ◌+◌, ◌*◌, List, [], ◌∷◌, ◌++◌, Option, none, some, length, map,
  Text, codes, Dict, lookup, assign, is_some, if◌then◌else◌,
}
use soem_driver_ros.Slave.{Handle}
use soem_driver_ros.Claims.Resolve.{EcClaimsResolver, make_interface}
use soem_driver_ros.Claims.Export.{
  export_state_interfaces_by_joint, export_command_interfaces_by_joint,
}

-- joints[0].name and actuators[0].name of a TransmissionInfo, with whether the pointers to the two
-- transmissions that are kept with it are not null.
pub record TransmissionInfo : Type 0 where
  pub joint_name : Text
  pub actuator_name : Text
  pub state_loaded : Bool
  pub command_loaded : Bool

-- configure(joint handles, actuator handles) of a transmission
pub record ConfigureCall : Type 0 where
  pub transmission : TransmissionInfo
  pub joint_handles : List Handle
  pub actuator_handles : List Handle

-- The exported interfaces, the distance of the iterator over the values from their begin, and the
-- calls of configure.
pub record Exports : Type 0 where
  pub interfaces : List Handle
  pub iterator : ℕ
  pub configured : List ConfigureCall

abbrev pub no_exports : Exports
no_exports = record { interfaces = []; iterator = 0; configured = [] }

-- The interfaces that stand for those of a joint, for values at an address.
unfoldable pub proxies : ℕ → TransmissionInfo → ℕ → List Handle → List Handle
proxies values info iterator [] = []
proxies values info iterator (interface ∷ interfaces) =
    record {
      prefix_name = info.joint_name;
      interface_name = interface.interface_name;
      value_ptr = values + 8 * iterator;
    }
    ∷ proxies values info (suc iterator) interfaces

-- Interfaces under another prefix.
abbrev pub aliases : Text → List Handle → List Handle
aliases prefix_name = map (λ h. make_interface h prefix_name h.interface_name)

-- transmission_command_interface_map[joint + "/" + interface] = interface.get_name()
unfoldable pub map_proxies :
    (Handle → Text) → TransmissionInfo → List Handle → Dict Text → Dict Text
map_proxies get_name info [] m = m
map_proxies get_name info (interface ∷ interfaces) m =
    map_proxies get_name info interfaces
      (assign (info.joint_name ++ (codes "/" ++ interface.interface_name)) (get_name interface) m)

module _ (transmissions : Dict TransmissionInfo) where
  -- transmission_values_count
  unfoldable pub values_count : Dict (List Handle) → ℕ
  values_count [] = 0
  values_count ((name, interfaces) ∷ joints) =
      (if is_some (lookup name transmissions) then length interfaces else 0) + values_count joints

  -- The body of the loop over the joints.
  unfoldable pub export_joint : ℕ → Text → List Handle → Exports → Exports
  unfolding proxies make_interface
  export_joint values name interfaces e = elim (lookup name transmissions) [
    | none ↦ record e { interfaces = e.interfaces ++ aliases name interfaces }
    | some info ↦
        (let exported = proxies values info e.iterator interfaces in
          record {
            interfaces = e.interfaces ++ exported;
            iterator = e.iterator + length interfaces;
            configured =
                e.configured
                ++ record {
                  transmission = info;
                  joint_handles = aliases info.joint_name exported;
                  actuator_handles = aliases info.actuator_name interfaces;
                }
                  ∷ [];
          })
  ]

  unfoldable pub export_joints : ℕ → Dict (List Handle) → Exports → Exports
  unfolding export_joint
  export_joints values [] e = e
  export_joints values ((name, interfaces) ∷ joints) e =
      export_joints values joints (export_joint values name interfaces e)

  -- The entries that the loop makes in transmission_command_interface_map.
  unfoldable pub map_joints : (Handle → Text) → Dict (List Handle) → Dict Text → Dict Text
  unfolding map_proxies
  map_joints get_name [] m = m
  map_joints get_name ((name, interfaces) ∷ joints) m = elim (lookup name transmissions) [
    | none ↦ map_joints get_name joints m
    | some info ↦ map_joints get_name joints (map_proxies get_name info interfaces m)
  ]

  -- Each call of configure is on a pointer that is not null.
  unfoldable pub all_loaded : (TransmissionInfo → Bool) → Dict (List Handle) → Bool
  all_loaded is_loaded [] = true
  all_loaded is_loaded ((name, interfaces) ∷ joints) = elim (lookup name transmissions) [
    | none ↦ all_loaded is_loaded joints
    | some info ↦ is_loaded info && all_loaded is_loaded joints
  ]

  -- The number of values, and what is exported for values at an address; `none` is that of the resolver,
  -- or the use of a null pointer.
  unfoldable pub export_state_interfaces :
      {S : Type 0} → ℕ → EcClaimsResolver S → Option (ℕ × Exports)
  unfolding values_count export_joints all_loaded
  export_state_interfaces values claims_resolver = do
    joints ← export_state_interfaces_by_joint claims_resolver
    if all_loaded (λ info. info.state_loaded) joints
        then some (values_count joints, export_joints values joints no_exports)
        else none

  unfoldable pub export_command_interfaces :
      {S : Type 0}
      → (Handle → Text)
      → ℕ
      → EcClaimsResolver S
      → Dict Text
      → Option (ℕ × Exports × Dict Text × EcClaimsResolver S)
  unfolding values_count export_joints map_joints all_loaded
  export_command_interfaces get_name values claims_resolver m = do
    found ← export_command_interfaces_by_joint get_name claims_resolver
    if all_loaded (λ info. info.command_loaded) found.0
        then some (
          values_count found.0,
          export_joints values found.0 no_exports,
          map_joints get_name found.0 m,
          found.1,
        )
        else none
