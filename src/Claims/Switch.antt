-- ===== src/Claims/Switch.antt =====
-- ECClaimsResolver::prepare_command_mode_switch and perform_command_mode_switch.
pub mod Asked
use soem_driver_ros.Base.{
  Bool, true, false, ◌&&◌, List, [], ◌∷◌, ◌++◌, if◌then◌else◌, Text, Dict, lookup_or, assign,
  emplace,
}
use soem_driver_ros.Slave.{ReturnType, ok, error, is_ok, SlaveOps}
use soem_driver_ros.Claims.Resolve.{EcClaimsResolver}

-- claims_by_slave[slave].push_back(claim)
unfoldable pub push_claim : Text → Text → Dict (List Text) → Dict (List Text)
push_claim slave claim by_slave = assign slave (lookup_or [] slave by_slave ++ claim ∷ []) by_slave

-- The loop over start_interfaces or stop_interfaces. operator[] of the map gives a missing interface
-- an entry with two empty names.
unfoldable pub group_claims :
    List Text → Dict (List Text) → Dict (Text × Text) → Dict (List Text) × Dict (Text × Text)
unfolding push_claim
group_claims [] by_slave command_interface_map = (by_slave, command_interface_map)
group_claims (interface ∷ interfaces) by_slave command_interface_map =
    let (slave, claim) = lookup_or ([], []) interface command_interface_map in
    group_claims interfaces (push_claim slave claim by_slave)
      (emplace interface ([], []) command_interface_map)

module _ {S : Type 0} (switch : List Text → List Text → S → ReturnType × S) where
  -- Every slave is asked with its own claims; `switch` is its prepare or its perform method.
  unfoldable pub ask_slaves :
      Dict (List Text) → Dict (List Text) → Dict S → List ReturnType × Dict S
  ask_slaves start stop [] = ([], [])
  ask_slaves start stop ((name, instance_state) ∷ slaves) =
      let (response, s) =
        switch (lookup_or [] name start) (lookup_or [] name stop) instance_state in
      let (responses, rest) = ask_slaves start stop slaves in
      (response ∷ responses, (name, s) ∷ rest)

abbrev pub all_ok : List ReturnType → Bool
all_ok [] = true
all_ok (r ∷ rs) = is_ok r && all_ok rs

module _ {S : Type 0} (ops : SlaveOps S) where
  unfoldable pub prepare_command_mode_switch :
      List Text → List Text → EcClaimsResolver S → ReturnType × EcClaimsResolver S
  unfolding group_claims ask_slaves
  prepare_command_mode_switch start_interfaces stop_interfaces r =
      let (start, m) = group_claims start_interfaces [] r.command_interface_map in
      let (stop, m') = group_claims stop_interfaces [] m in
      let (responses, slaves) = ask_slaves ops.prepare_command_mode_switch start stop r.slaves in
      (
        if all_ok responses then ok else error,
        record r { command_interface_map = m'; slaves = slaves },
      )

  unfoldable pub perform_command_mode_switch :
      List Text → List Text → EcClaimsResolver S → ReturnType × EcClaimsResolver S
  unfolding group_claims ask_slaves
  perform_command_mode_switch start_interfaces stop_interfaces r =
      let (start, m) = group_claims start_interfaces [] r.command_interface_map in
      let (stop, m') = group_claims stop_interfaces [] m in
      let (responses, slaves) = ask_slaves ops.perform_command_mode_switch start stop r.slaves in
      (
        if all_ok responses then ok else error,
        record r { command_interface_map = m'; slaves = slaves },
      )
