-- ===== src/Mock.antt =====
-- soem_slave_modules/soem_modules_mock_test: the module that stands for a slave in tests, over doubles
-- with a value that is no number. Its vectors are at addresses that are arguments.
use soem_driver_ros.Base.{ℕ, ◌+◌, ◌*◌, ◌≡◌, ap, Bool, true, List, [], ◌∷◌, Text, codes, Dict}
use soem_driver_ros.Slave.{Handle, ReturnType, ok, SlaveOps}
use soem_driver_ros.Master.Setup.{resize}
use soem_driver_ros.Master.Setup.Positions.{resize_again}

pub record SoemMockModule (D : Type 0) : Type 0 where
  pub state_interfaces : List D
  pub command_interfaces : List D

-- A handle of an element of a vector.
abbrev element_handle : ℕ → ℕ → Text → Text → Handle
element_handle base i prefix_name interface_name = record {
  prefix_name = prefix_name;
  interface_name = interface_name;
  value_ptr = base + 8 * i;
}

-- Position, velocity and effort of two units.
unfoldable pub unit_handles : ℕ → Text → Text → List Handle
unit_handles base first_unit second_unit =
    element_handle base 0 first_unit (codes "position")
    ∷ element_handle base 1 first_unit (codes "velocity")
    ∷ element_handle base 2 first_unit (codes "effort")
    ∷ element_handle base 3 second_unit (codes "position")
    ∷ element_handle base 4 second_unit (codes "velocity")
    ∷ element_handle base 5 second_unit (codes "effort")
    ∷ []

module _ {D : Type 0} (nan : D) (states commands : ℕ) where
  unfoldable pub export_state_interfaces : SoemMockModule D → List Handle × SoemMockModule D
  unfolding resize unit_handles
  export_state_interfaces m = (
    unit_handles states (codes "joint_unit") (codes "sensor_unit"),
    record m { state_interfaces = resize 6 nan m.state_interfaces },
  )

  unfoldable pub export_command_interfaces : SoemMockModule D → List Handle × SoemMockModule D
  unfolding resize unit_handles
  export_command_interfaces m = (
    unit_handles commands (codes "joint_unit") (codes "actuator_unit"),
    record m { command_interfaces = resize 6 nan m.command_interfaces },
  )

  unfoldable pub configure : ℕ → ℕ → ℕ → Dict Text → SoemMockModule D → Bool × SoemMockModule D
  configure vendor_id product_code revision_number parameters m = (true, m)

  unfoldable pub read : SoemMockModule D → ReturnType × SoemMockModule D
  read m = (ok, m)

  unfoldable pub write : SoemMockModule D → ReturnType × SoemMockModule D
  write m = (ok, m)

  -- The mode switches are those of the base class.
  pub mock_ops : SlaveOps (SoemMockModule D)
  mock_ops = record {
    export_state_interfaces = export_state_interfaces;
    export_command_interfaces = export_command_interfaces;
    prepare_command_mode_switch = λ start stop m. (ok, m);
    perform_command_mode_switch = λ start stop m. (ok, m);
  }

  -- A second export exports the same interfaces, and leaves the module as the first one did.
  export_state_interfaces_again :
      (m : SoemMockModule D)
      → export_state_interfaces (export_state_interfaces m).1 ≡ export_state_interfaces m
  unfolding export_state_interfaces
  export_state_interfaces_again m =
      ap
        (λ l. (
          unit_handles states (codes "joint_unit") (codes "sensor_unit"),
          record m { state_interfaces = l },
        ))
        (resize_again 6 nan m.state_interfaces)
