-- ===== src/Claims/Export.antt =====
-- ECClaimsResolver::export_state_interfaces_by_joint and export_command_interfaces_by_joint. `none` is
-- the write behind the token array.
pub mod Mapped
use mathlib.Core.List.{foldl}
use soem_driver_ros.Base.{◌>>=◌, List, [], ◌∷◌, Option, none, some, Text, Dict, emplace}
use soem_driver_ros.Slave.{Handle}
use soem_driver_ros.Claims.Resolve.{
  EcClaimsResolver, resolve_state_interfaces_by_joint, resolve_command_interfaces_by_joint,
}

-- m.insert(begin, end)
unfoldable pub insert_all {ℓ} : {V : Type ℓ} → Dict V → Dict V → Dict V
insert_all [] m = m
insert_all ((k, v) ∷ rest) m = insert_all rest (emplace k v m)

module _ {S : Type 0} where
  unfoldable pub export_state_joints :
      EcClaimsResolver S → Dict (List Text) → Dict (List Handle) → Option (Dict (List Handle))
  export_state_joints r [] state_interfaces = some state_interfaces
  export_state_joints r ((joint, _) ∷ joints) state_interfaces =
      resolve_state_interfaces_by_joint r joint >>= λ interfaces.
      export_state_joints r joints (emplace joint interfaces state_interfaces)

  unfoldable pub export_state_interfaces_by_joint : EcClaimsResolver S → Option (Dict (List Handle))
  unfolding export_state_joints
  export_state_interfaces_by_joint r = export_state_joints r r.joint_claims []

module _ (get_name : Handle → Text) {S : Type 0} where
  unfoldable pub export_command_joints :
      Dict (List Text)
      → EcClaimsResolver S
      → Dict (List Handle)
      → Option (Dict (List Handle) × EcClaimsResolver S)
  unfolding insert_all
  export_command_joints [] r command_interfaces = some (command_interfaces, r)
  export_command_joints ((joint, _) ∷ joints) r command_interfaces =
      resolve_command_interfaces_by_joint get_name r joint >>= λ found.
      export_command_joints joints
        (record r { command_interface_map = insert_all found.1 r.command_interface_map })
        (emplace joint found.0 command_interfaces)

  unfoldable pub export_command_interfaces_by_joint :
      EcClaimsResolver S → Option (Dict (List Handle) × EcClaimsResolver S)
  unfolding export_command_joints
  export_command_interfaces_by_joint r = export_command_joints r.joint_claims r []
