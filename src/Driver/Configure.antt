-- ===== src/Driver/Configure.antt =====
-- SOEMDriver::on_configure (soem_driver.cpp). Modules are kept by their names; initialized_slaves, which
-- shares them with the map, is a list of names. The map does not change its keys here.
pub mod Places
pub mod Access
pub mod Wired
pub mod Hooks
pub mod Tests
use soem_driver_ros.Base.{
  find_if, ◌>>=◌, ℕ, suc, Bool, true, false, not, if◌then◌else◌, List, [], ◌∷◌, ◌++◌, Option, none,
  some, Text, Dict, lookup, assign, ◌==◌,
}
use soem_driver_ros.Master.Bus.{BusUp, returns, throws}
use soem_driver_ros.Master.Setup.{
  EcSlaveInfo, DataAccess, Span, Bus, Scan, Mapping, init, start_bus,
}
use soem_driver_ros.Driver.Urdf.Slaves.{EcSlavePluginInfo}

-- CallbackReturn, or an exception that leaves the callback.
pub data CallbackReturn : Type 0 where
  success failure error exception : CallbackReturn

-- The members of SOEMDriverSlave that the driver sets, with the state of the module.
pub record Module (S : Type 0) : Type 0 where
  pub position_ec_bus : ℕ
  pub rx_pdo : Span
  pub tx_pdo : Span
  pub state : S

pub record SoemDriver (S : Type 0) : Type 0 where
  pub slave_infos : List EcSlavePluginInfo
  pub slaves : Dict (Module S)
  pub initialized_slaves : List Text
  pub master : Bus
  pub sdo_setup_hook_store : List (ℕ × Text)
  pub diagnostics_running : Bool

-- The virtual method configure(vendor_id, product_code, revision_number, parameters) of a module, with
-- what it returns, or `none` for an exception.
abbrev pub ConfigureModule : Type 0 → Type 0
ConfigureModule S = ℕ → ℕ → ℕ → Dict Text → S → Option Bool × S

-- The predicate of the search in master.slaves.
abbrev pub is_addressed : EcSlavePluginInfo → EcSlaveInfo → Bool
is_addressed slave_info ec_slave =
    if slave_info.alias == 0
    then ec_slave.position == slave_info.position
    else ec_slave.alias == slave_info.alias

-- SDO_setup_hook_store[position] = hook, the hook of the named module
unfoldable pub slave_attach_sdo_setup_hook : ℕ → Text → List (ℕ × Text) → List (ℕ × Text)
slave_attach_sdo_setup_hook position name [] = (position, name) ∷ []
slave_attach_sdo_setup_hook position name ((p, other) ∷ hooks) =
    if p == position
    then (p, name) ∷ hooks
    else (p, other) ∷ slave_attach_sdo_setup_hook position name hooks

module _ {S : Type 0} where
  -- Data access of one initialized slave.
  unfoldable pub assign_data_access : List DataAccess → Text → Dict (Module S) → Dict (Module S)
  unfolding find_if
  assign_data_access accesses name slaves = elim (lookup name slaves) [
    | none ↦ slaves
    | some slave ↦ elim (find_if (λ da. da.slave_info.position == slave.position_ec_bus) accesses) [
      | none ↦ slaves
      | some da ↦ assign name (record slave { rx_pdo = da.rx_pdo; tx_pdo = da.tx_pdo }) slaves
    ]
  ]

  unfoldable pub assign_each_data_access :
      List DataAccess → List Text → Dict (Module S) → Dict (Module S)
  unfolding assign_data_access
  assign_each_data_access accesses [] slaves = slaves
  assign_each_data_access accesses (name ∷ names) slaves =
      assign_each_data_access accesses names (assign_data_access accesses name slaves)

  -- Behind the start of the bus.
  unfoldable pub finish_configure : BusUp → SoemDriver S → CallbackReturn × SoemDriver S
  unfolding assign_each_data_access
  finish_configure throws d = (CallbackReturn.error, d)
  finish_configure returns d = (
    success,
    record d {
      slaves = assign_each_data_access d.master.slaves_data_access d.initialized_slaves d.slaves;
      diagnostics_running = true;
    },
  )

module _ {S : Type 0} (configure : ConfigureModule S) where
  -- A module with its slave on the bus. The first result says whether there is an exception.
  unfoldable pub configure_found :
      EcSlavePluginInfo → EcSlaveInfo → Module S → SoemDriver S → Bool × SoemDriver S
  unfolding slave_attach_sdo_setup_hook
  configure_found slave_info ec_slave slave d =
      let (configured, state) =
        configure ec_slave.vendor_id ec_slave.product_code ec_slave.revision_number
          slave_info.parameters slave.state in
      let d' = record d {
        slaves =
            assign slave_info.name
              (record slave { position_ec_bus = ec_slave.position; state = state }) d.slaves;
      } in
      elim configured [
        | none ↦ (true, d')
        | some is_configured ↦ (
          false,
          if not is_configured then d' else record d' {
            sdo_setup_hook_store =
                slave_attach_sdo_setup_hook ec_slave.position slave_info.name
                  d'.sdo_setup_hook_store;
            initialized_slaves = d'.initialized_slaves ++ slave_info.name ∷ [];
          },
        )
      ]

  -- The body of the loop over slave_infos.
  unfoldable pub configure_slave : EcSlavePluginInfo → SoemDriver S → Bool × SoemDriver S
  unfolding find_if configure_found
  configure_slave slave_info d = elim (lookup slave_info.name d.slaves) [
    | none ↦ (false, d)
    | some slave ↦ elim (find_if (is_addressed slave_info) d.master.slaves) [
      | none ↦ (false, d)
      | some ec_slave ↦ configure_found slave_info ec_slave slave d
    ]
  ]

  unfoldable pub configure_slaves : List EcSlavePluginInfo → SoemDriver S → Bool × SoemDriver S
  unfolding configure_slave
  configure_slaves [] d = (false, d)
  configure_slaves (slave_info ∷ slave_infos) d =
      let step = configure_slave slave_info d in
      let rest = configure_slaves slave_infos step.1 in if step.0 then step else rest

  -- Behind the initialization of the master; `none` is an access behind the end of a vector.
  unfoldable pub configure_bus : Mapping → SoemDriver S → Option (CallbackReturn × SoemDriver S)
  unfolding configure_slaves finish_configure start_bus
  configure_bus mapping d0 =
      let (threw, d) = configure_slaves d0.slave_infos d0 in
      if threw then some (exception, d) else elim (start_bus mapping d.master) [
        | none ↦ none
        | some (up, master) ↦ some (finish_configure up (record d { master = master }))
      ]

  unfoldable pub on_configure :
      Scan → Mapping → SoemDriver S → Option (CallbackReturn × SoemDriver S)
  unfolding init configure_bus
  on_configure scan mapping d =
      let (up, master) = init scan d.master in
      let d' = record d { master = master } in
      elim up [ throws ↦ some (failure, d') | returns ↦ configure_bus mapping d' ]
