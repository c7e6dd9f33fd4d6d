-- ===== src/Driver/Configure/Wired.antt =====
-- The first configuration: every initialized slave uses the buffers of its own position.
use soem_driver_ros.Base.{
  All-map, ℕ, ◌-◌, ◌≤◌, ◌≡◌, ◌≢◌, ◌⊎◌, ◌&&◌, inl, inr, refl, sym, ap, ◌∙◌, Bool, true, false,
  Bool-cases, Option-cases, if◌then◌else◌, List, [], ◌∷◌, ◌++◌, some, Text, Dict, lookup,
  lookup-assign, lookup-assign_self, text_eq, text_eq_iff, length, map, All, arith, ◌==◌, find_if,
  get_elem?,
}
use soem_driver_ros.Master.Bus.{BusUp, returns, throws}
use soem_driver_ros.Master.Setup.{
  DataAccess, FoundSlave, Scan, Mapping, init, data_access, slave_infos_from,
}
use soem_driver_ros.Master.Setup.Positions.{
  Indexed, init-Indexed, init-fresh, init-fails, start_bus_complete, data_access_of_position,
  length-slave_infos_from,
}
use soem_driver_ros.Driver.Configure.{
  CallbackReturn, success, failure, exception, Module, SoemDriver, ConfigureModule,
  configure_slaves, assign_data_access, assign_each_data_access, finish_configure, configure_bus,
  on_configure,
}
use soem_driver_ros.Driver.Configure.Places.{At, Initialized, Placed, assign_data_access-At}
use soem_driver_ros.Driver.Configure.Access.{configure_slaves-Initialized}

-- A named module with the entry of data access of its position, whose buffers it uses.
abbrev pub WiredAt : {S : Type 0} → List DataAccess → Dict (Module S) → Text → Type 0
WiredAt {S} accesses slaves name =
    (m : Module S) × (lookup name slaves ≡ some m)
    × (da : DataAccess) × (get_elem? accesses (m.position_ec_bus - 1) ≡ some da)
    × (da.slave_info.position ≡ m.position_ec_bus)
    × (m.rx_pdo ≡ da.rx_pdo)
    × (m.tx_pdo ≡ da.tx_pdo)

-- All initialized slaves are.
abbrev pub Wired : {S : Type 0} → SoemDriver S → Type 0
Wired d = All (WiredAt d.master.slaves_data_access d.slaves) d.initialized_slaves

-- A search for a position from 1 to n finds its entry.
abbrev Searchable : ℕ → List DataAccess → Type 0
Searchable n accesses =
    (p : ℕ)
    → 1 ≤ p
    → p ≤ n
    → (da : DataAccess) × (find_if (λ a. a.slave_info.position == p) accesses ≡ some da)
      × (get_elem? accesses (p - 1) ≡ some da)
      × (da.slave_info.position ≡ p)

mapped-Searchable :
    (a : Mapping) (found : List FoundSlave)
    → Searchable (length found) (map (data_access a) (slave_infos_from 1 found))
unfolding data_access
mapped-Searchable a found p l u =
    let (s, hit, at, same) =
      data_access_of_position a 1 (p - 1) p found (omega (arith, l)) (omega (arith, l, u)) in
    (data_access a s, hit, at, same)

-- The result of on_configure, by what SOEM answers and whether a module's configure() throws.
abbrev pub configure_result : Scan → Mapping → Bool → CallbackReturn
configure_result scan mapping threw =
    if scan.opened && scan.discovered
    then (if threw then exception else (if mapping.safe_op then success else CallbackReturn.error))
    else failure

-- Whether one throws, in the loop over the slaves behind the scan.
abbrev pub throws_in_configure : {S : Type 0} → ConfigureModule S → Scan → SoemDriver S → Bool
throws_in_configure configure scan d =
    (configure_slaves configure d.slave_infos (record d { master = (init scan d.master).1 })).0

module _ {S : Type 0} where
  assign_data_access-WiredAt :
      (n : ℕ) (accesses : List DataAccess) (name : Text) (slaves : Dict (Module S))
      → Searchable n accesses
      → At n slaves name
      → WiredAt accesses (assign_data_access accesses name slaves) name
  unfolding assign_data_access
  assign_data_access-WiredAt n accesses name slaves s (m, e, l, u) =
      let (da, hit, at, same) = s m.position_ec_bus l u in
      (
        record m { rx_pdo = da.rx_pdo; tx_pdo = da.tx_pdo },
        rw (e, hit, assign_data_access)
            (lookup-assign_self name (record m { rx_pdo = da.rx_pdo; tx_pdo = da.tx_pdo }) slaves),
        da,
        at,
        same,
        refl,
        refl,
      )

  assign_data_access_other :
      (accesses : List DataAccess) (name other : Text) (slaves : Dict (Module S))
      → text_eq name other ≡ false
      → lookup other (assign_data_access accesses name slaves) ≡ lookup other slaves
  unfolding assign_data_access
  assign_data_access_other accesses name other slaves h = elim (Option-cases (lookup name slaves)) [
    | inl missing ↦ rw (missing, assign_data_access) refl
    | inr (m, found) ↦
        elim (Option-cases (find_if (λ da. da.slave_info.position == m.position_ec_bus) accesses)) [
          | inl missing ↦ rw (found, missing, assign_data_access) refl
          | inr (da, hit) ↦
              rw (found, hit, assign_data_access)
                (lookup-assign name other (record m { rx_pdo = da.rx_pdo; tx_pdo = da.tx_pdo })
                    slaves
                  ∙ rw h refl)
        ]
  ]

  assign_data_access_kept :
      (n : ℕ) (accesses : List DataAccess) (name other : Text) (slaves : Dict (Module S))
      → Searchable n accesses
      → At n slaves name
      → WiredAt accesses slaves other
      → WiredAt accesses (assign_data_access accesses name slaves) other
  assign_data_access_kept n accesses name other slaves s a w =
      elim (Bool-cases (text_eq name other)) [
        | inl same ↦
            rw (sym ((text_eq_iff name other).0 same))
              (assign_data_access-WiredAt n accesses name slaves s a)
        | inr different ↦ (
          w.0,
          assign_data_access_other accesses name other slaves different ∙ w.1,
          w.2,
          w.3,
          w.4,
          w.5,
          w.6,
        )
      ]

  All-assign-At :
      (n : ℕ) (accesses : List DataAccess) (name : Text) (names : List Text)
      (slaves : Dict (Module S))
      → All (At n slaves) names
      → All (At n (assign_data_access accesses name slaves)) names
  All-assign-At n accesses name names slaves =
      All-map _ _ (λ other. assign_data_access-At n accesses name other slaves) names

  assign_each_kept :
      (n : ℕ) (accesses : List DataAccess) (names : List Text) (other : Text)
      (slaves : Dict (Module S))
      → Searchable n accesses
      → All (At n slaves) names
      → WiredAt accesses slaves other
      → WiredAt accesses (assign_each_data_access accesses names slaves) other
  unfolding assign_each_data_access
  assign_each_kept n accesses [] other slaves s a w = w
  assign_each_kept n accesses (name ∷ names) other slaves s a w =
      assign_each_kept n accesses names other _ s (All-assign-At n accesses name names slaves a.1)
        (assign_data_access_kept n accesses name other slaves s a.0 w)

  assign_each-WiredAt :
      (n : ℕ) (accesses : List DataAccess) (names : List Text) (slaves : Dict (Module S))
      → Searchable n accesses
      → All (At n slaves) names
      → All (WiredAt accesses (assign_each_data_access accesses names slaves)) names
  unfolding assign_each_data_access
  assign_each-WiredAt n accesses [] slaves s a = tt
  assign_each-WiredAt n accesses (name ∷ names) slaves s a =
      let rest = All-assign-At n accesses name names slaves a.1 in
      (
        assign_each_kept n accesses names name _ s rest
            (assign_data_access-WiredAt n accesses name slaves s a.0),
        assign_each-WiredAt n accesses names _ s rest,
      )

  finish_configure-Wired :
      (up : BusUp) (d : SoemDriver S)
      → Searchable (length d.master.slaves) d.master.slaves_data_access
      → Initialized (length d.master.slaves) d
      → ((finish_configure up d).0 ≢ success) ⊎ Wired (finish_configure up d).1
  unfolding finish_configure
  finish_configure-Wired throws d s h = inl (λ e. cc)
  finish_configure-Wired returns d s h =
      inr (assign_each-WiredAt _ d.master.slaves_data_access d.initialized_slaves d.slaves s h)

  finish_configure_result :
      (up : BusUp) (d : SoemDriver S) (safe_op : Bool)
      → up ≡ (if safe_op then returns else throws)
      → (finish_configure up d).0 ≡ (if safe_op then success else CallbackReturn.error)
  unfolding finish_configure
  finish_configure_result up d true e = rw e refl
  finish_configure_result up d false e = rw e refl

  module _ (configure : ConfigureModule S) where
    configure_bus-Wired :
        (mapping : Mapping) (found : List FoundSlave) (d : SoemDriver S)
        → d.master.slaves ≡ slave_infos_from 1 found
        → d.master.slaves_data_access ≡ []
        → Placed d
        → (r : CallbackReturn × SoemDriver S) × (configure_bus configure mapping d ≡ some r)
          × (r.0 ≡ (
              if (configure_slaves configure d.slave_infos d).0
              then exception
              else (if mapping.safe_op then success else CallbackReturn.error)))
          × ((r.0 ≢ success) ⊎ Wired r.1)
    unfolding configure_bus
    configure_bus-Wired mapping found d0 scanned fresh h =
        let d = (configure_slaves configure d0.slave_infos d0).1 in
        let (placed, same) = configure_slaves-Initialized configure _ d0.slave_infos d0 h.0 h.1 in
        let indexed : Indexed d.master = rw same h.0 in
        let ((up, master), e, outcome, slaves, added) =
          start_bus_complete mapping d.master indexed in
        let listed : master.slaves ≡ slave_infos_from 1 found =
          slaves ∙ ap (λ b. b.slaves) same ∙ scanned in
        let accesses : master.slaves_data_access
            ≡ map (data_access mapping) (slave_infos_from 1 found) =
          rw (sym scanned, sym (ap (λ b. b.slaves) same))
            (added
              ∙ ap (λ l. l ++ map (data_access mapping) d.master.slaves)
                  (ap (λ b. b.slaves_data_access) same ∙ fresh)) in
        elim (Bool-cases (configure_slaves configure d0.slave_infos d0).0) [
          | inl threw ↦
              ((exception, d), rw (threw, configure_bus) refl, rw threw refl, inl (λ e. cc))
          | inr went_on ↦ (
            finish_configure up (record d { master = master }),
            rw (went_on, e, configure_bus) refl,
            rw went_on
                (finish_configure_result up (record d { master = master }) mapping.safe_op outcome),
            finish_configure-Wired up (record d { master = master })
                (rw (listed, accesses, length-slave_infos_from 1 found)
                  (mapped-Searchable mapping found))
                (rw (slaves, ap (λ b. b.slaves) same) placed),
          )
        ]

    -- The first on_configure succeeds just when SOEM opens the interface, discovers the bus, and brings
    -- it to SAFE_OP, and no configure() of a module throws; an exception of one leaves on_configure,
    -- where the other failures are its result. After a success slaves_data_access at the position of each initialized slave, less one, is the
    -- entry of that position, and the slave uses its buffers.
    pub on_configure-Wired :
        (scan : Scan) (mapping : Mapping) (d : SoemDriver S)
        → d.master.slaves ≡ []
        → d.master.slaves_data_access ≡ []
        → d.initialized_slaves ≡ []
        → (r : CallbackReturn × SoemDriver S) × (on_configure configure scan mapping d ≡ some r)
          × (r.0 ≡ configure_result scan mapping (throws_in_configure configure scan d))
          × ((r.0 ≢ success) ⊎ Wired r.1)
    unfolding on_configure
    on_configure-Wired scan mapping d empty fresh none_yet =
        elim (Bool-cases (scan.opened && scan.discovered)) [
          | inl found ↦
              (let (up, scanned, unmapped) = init-fresh scan d.master empty fresh found in
                let placed : Placed (record d { master = (init scan d.master).1 }) =
                  (init-Indexed scan d.master (rw empty tt), rw none_yet tt) in
                rw (up, found, on_configure)
                  (configure_bus-Wired mapping scan.found
                    (record d { master = (init scan d.master).1 }) scanned unmapped placed))
          | inr missing ↦
              rw (init-fails scan d.master missing, missing, on_configure)
                ((failure, record d { master = (init scan d.master).1 }), refl, refl, inl (λ e. cc))
        ]
