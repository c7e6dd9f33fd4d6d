-- ===== src/Driver/Configure/Access.antt =====
-- The positions of the configured modules, with which read() and write() index slaves_data_access.
use soem_driver_ros.Base.{
  find_if, ℕ, ◌≤◌, ◌≡◌, ◌≢◌, ◌⊎◌, inl, inr, refl, ap, ◌∙◌, Bool-cases, Option-cases, List, [], ◌∷◌,
  Option, Bool, true, false, none, some, lookup, lookup-assign_self, length, All,
}
use soem_driver_ros.Master.Bus.{BusUp, returns, throws}
use soem_driver_ros.Master.Setup.{EcSlaveInfo, Scan, Mapping, init, data_access}
use soem_driver_ros.Master.Setup.Positions.{
  Within, Indexed, init-Indexed, start_bus_complete, init_grows, BusUp-cases,
}
use soem_driver_ros.Driver.Urdf.Slaves.{EcSlavePluginInfo}
use soem_driver_ros.Driver.Configure.{
  CallbackReturn, success, failure, exception, Module, SoemDriver, ConfigureModule, is_addressed,
  configure_found, configure_slave, configure_slaves, finish_configure, configure_bus, on_configure,
}
use soem_driver_ros.Driver.Configure.Places.{
  Initialized, Placed, find_if-Within, covered, All-snoc, All-At-mono, All-assign-At,
  All-assigned-At,
}

answer-cases : (o : Option Bool) → (o ≡ none) ⊎ ((o ≡ some true) ⊎ (o ≡ some false))
answer-cases none = inl refl
answer-cases (some true) = inr (inl refl)
answer-cases (some false) = inr (inr refl)

module _ {S : Type 0} (configure : ConfigureModule S) where
  configure_found-Initialized :
      (n : ℕ) (slave_info : EcSlavePluginInfo) (ec_slave : EcSlaveInfo) (slave : Module S)
      (d : SoemDriver S)
      → Within n ec_slave
      → Initialized n d
      → Initialized n (configure_found configure slave_info ec_slave slave d).1
        × ((configure_found configure slave_info ec_slave slave d).1.master ≡ d.master)
  unfolding configure_found
  configure_found-Initialized n slave_info ec_slave slave d w h =
      let placed = record slave {
        position_ec_bus = ec_slave.position;
        state =
            (configure ec_slave.vendor_id ec_slave.product_code ec_slave.revision_number
              slave_info.parameters slave.state).1;
      } in
      let kept = All-assign-At n d.slaves slave_info.name d.initialized_slaves placed w.0 w.1 h in
      elim (answer-cases
        (configure ec_slave.vendor_id ec_slave.product_code ec_slave.revision_number
          slave_info.parameters slave.state).0) [
            | inl threw ↦ rw (threw, configure_found) (kept, refl)
            | inr (inl configured) ↦
                rw (configured, configure_found)
                  (
                    All-snoc _ d.initialized_slaves slave_info.name kept
                        (placed, lookup-assign_self slave_info.name placed d.slaves, w.0, w.1),
                    refl,
                  )
            | inr (inr refused) ↦ rw (refused, configure_found) (kept, refl)
          ]

  configure_slave-Initialized :
      (n : ℕ) (slave_info : EcSlavePluginInfo) (d : SoemDriver S)
      → All (Within n) d.master.slaves
      → Initialized n d
      → Initialized n (configure_slave configure slave_info d).1
        × ((configure_slave configure slave_info d).1.master ≡ d.master)
  unfolding configure_slave
  configure_slave-Initialized n slave_info d w h =
      elim (Option-cases (lookup slave_info.name d.slaves)) [
        | inl missing ↦ rw (missing, configure_slave) (h, refl)
        | inr (slave, found) ↦
            elim (Option-cases (find_if (is_addressed slave_info) d.master.slaves)) [
              | inl missing ↦ rw (found, missing, configure_slave) (h, refl)
              | inr (ec_slave, on_bus) ↦
                  rw (found, on_bus, configure_slave)
                    (configure_found-Initialized n slave_info ec_slave slave d
                      (find_if-Within n (is_addressed slave_info) d.master.slaves ec_slave w on_bus)
                      h)
            ]
      ]

  pub configure_slaves-Initialized :
      (n : ℕ) (slave_infos : List EcSlavePluginInfo) (d : SoemDriver S)
      → All (Within n) d.master.slaves
      → Initialized n d
      → Initialized n (configure_slaves configure slave_infos d).1
        × ((configure_slaves configure slave_infos d).1.master ≡ d.master)
  unfolding configure_slaves
  configure_slaves-Initialized n [] d w h = (h, refl)
  configure_slaves-Initialized n (slave_info ∷ slave_infos) d w h =
      let (kept, same) = configure_slave-Initialized n slave_info d w h in
      let (placed, still) =
        configure_slaves-Initialized n slave_infos (configure_slave configure slave_info d).1
          (rw same w) kept in
      elim (Bool-cases (configure_slave configure slave_info d).0) [
        | inl threw ↦ rw (threw, configure_slaves) (kept, same)
        | inr went_on ↦ rw (went_on, configure_slaves) (placed, still ∙ same)
      ]

  -- What on_configure leaves, with its result: the positions are within the number of the slaves, and if
  -- it succeeds those of the initialized slaves are within the number of the entries of data access.
  abbrev pub Configured : CallbackReturn × SoemDriver S → Type 0
  Configured (result, d) =
      Placed d × ((result ≢ success) ⊎ Initialized (length d.master.slaves_data_access) d)

  finish_configure-Configured :
      (up : BusUp) (d : SoemDriver S)
      → Placed d
      → length d.master.slaves ≤ length d.master.slaves_data_access
      → Configured (finish_configure up d)
  unfolding finish_configure
  finish_configure-Configured throws d h k = (h, inl (λ e. cc))
  finish_configure-Configured returns d h k =
      let assigned =
        All-assigned-At (length d.master.slaves) d.master.slaves_data_access d.initialized_slaves
          d.slaves d.initialized_slaves h.1 in
      ((h.0, assigned), inr (All-At-mono _ _ _ d.initialized_slaves k assigned))

  configure_bus-Configured :
      (mapping : Mapping) (d : SoemDriver S)
      → Placed d
      → (r : CallbackReturn × SoemDriver S) × (configure_bus configure mapping d ≡ some r)
        × Configured r
  unfolding configure_bus
  configure_bus-Configured mapping d0 h =
      let d = (configure_slaves configure d0.slave_infos d0).1 in
      let (placed, same) = configure_slaves-Initialized _ d0.slave_infos d0 h.0 h.1 in
      let indexed : Indexed d.master = rw same h.0 in
      let ((up, master), e, outcome, slaves, added) = start_bus_complete mapping d.master indexed in
      elim (Bool-cases (configure_slaves configure d0.slave_infos d0).0) [
        | inl threw ↦ (
          (exception, d),
          rw (threw, configure_bus) refl,
          ((indexed, rw (ap (λ b. b.slaves) same) placed), inl (λ e. cc)),
        )
        | inr went_on ↦ (
          finish_configure up (record d { master = master }),
          rw (went_on, e, configure_bus) refl,
          finish_configure-Configured up (record d { master = master })
              (rw slaves indexed, rw (slaves, ap (λ b. b.slaves) same) placed)
              (covered d.master master (data_access mapping) slaves added),
        )
      ]

  -- Whatever SOEM and the modules answer, on_configure uses no buffer behind the end of a vector, and keeps the
  -- positions of the slaves on the bus and of the initialized slaves within the number of the first;
  -- if it succeeds, the position of each initialized slave, less one, is an index of slaves_data_access.
  pub on_configure-Configured :
      (scan : Scan) (mapping : Mapping) (d : SoemDriver S)
      → Placed d
      → (r : CallbackReturn × SoemDriver S) × (on_configure configure scan mapping d ≡ some r)
        × Configured r
  unfolding on_configure
  on_configure-Configured scan mapping d h =
      let d' = record d { master = (init scan d.master).1 } in
      let placed : Placed d' = (
        init-Indexed scan d.master h.0,
        All-At-mono _ _ d.slaves d.initialized_slaves (init_grows scan d.master) h.1,
      ) in
      elim (BusUp-cases (init scan d.master).0) [
        | inl up ↦ rw (up, on_configure) (configure_bus-Configured mapping d' placed)
        | inr failed ↦ rw (failed, on_configure) ((failure, d'), refl, (placed, inl (λ e. cc)))
      ]
