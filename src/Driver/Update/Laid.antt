-- ===== src/Driver/Update/Laid.antt =====
-- The entries of data access and the sizes of the buffers that on_configure leaves.
use soem_driver_ros.Base.{
  ◌≡◌, inl, inr, refl, sym, ap, ◌∙◌, Bool, true, false, Option-cases, Bool-cases, List, [], ◌∷◌,
  ◌++◌, some, length, All, arith,
}
use soem_driver_ros.Master.Cycle.{MasterState, starting}
use soem_driver_ros.Master.Cycle.Counters.{bind_some}
use soem_driver_ros.Master.Cycle.Transfers.{copy_whole}
use soem_driver_ros.Master.Bus.{BusUp, returns, throws}
use soem_driver_ros.Master.Setup.Positions.{report_slaves, length-resize, BusUp-cases}
use soem_driver_ros.Driver.Urdf.Slaves.{EcSlavePluginInfo}
use soem_driver_ros.Driver.Configure.{
  success, SoemDriver, ConfigureModule, configure_slave, configure_slaves, finish_configure,
  configure_bus, on_configure,
}
use soem_driver_ros.Master.Setup.{
  EcSlaveInfo, Bus, Scan, Mapping, report, resize, resize_at, data_access, setup_slaves,
  setup_buffers, check_safe_op, start_bus, init,
}

-- The entries of data access are those of the mapping, and the working buffers have its sizes.
abbrev pub Laid : Mapping → Bus → Type 0
Laid a b =
    All (λ da. (s : EcSlaveInfo) × (da ≡ data_access a s)) b.slaves_data_access
    × (length b.rx_pdo_working ≡ length a.outputs)
    × (length b.tx_pdo_working ≡ length a.inputs)

All-snoc {ℓ κ} :
    {A : Type ℓ} (P : A → Type κ) (xs : List A) (x : A) → All P xs → P x → All P (xs ++ x ∷ [])
All-snoc P [] x h p = (p, tt)
All-snoc P (y ∷ ys) x h p = (h.0, All-snoc P ys x h.1 p)

pub some_injective {ℓ} : {A : Type ℓ} (x y : A) → some x ≡ some y → x ≡ y
some_injective x y e = cc

setup_slaves-Laid :
    (a : Mapping) (slaves : List EcSlaveInfo) (b b' : Bus)
    → setup_slaves a slaves b ≡ some b'
    → Laid a b
    → Laid a b'
unfolding setup_slaves
setup_slaves-Laid a [] b b' e h = rw (sym (some_injective b b' e)) h
setup_slaves-Laid a (slave ∷ slaves) b b' e h =
    elim (Option-cases
      (resize_at slave.position (a.slavelist slave.position).mbx_l b.s_mbx_working)) [
        | inl missing ↦ absurd (ground (arith, e, missing))
        | inr (s_mbx, there) ↦
            elim (Option-cases
              (resize_at slave.position (a.slavelist slave.position).mbx_rl b.r_mbx_working)) [
                | inl missing ↦ absurd (ground (arith, e, there, missing))
                | inr (r_mbx, there2) ↦
                    (let b1 = record b {
                      s_mbx_working = s_mbx;
                      r_mbx_working = r_mbx;
                      slaves_data_access = b.slaves_data_access ++ data_access a slave ∷ [];
                    } in
                      setup_slaves-Laid a slaves b1 b' (ground (arith, e, there, there2)) (
                        All-snoc _ b.slaves_data_access (data_access a slave) h.0 (slave, refl),
                        h.1,
                        h.2,
                      ))
              ]
      ]

setup_buffers-Laid :
    (a : Mapping) (b : Bus) → b.slaves_data_access ≡ [] → Laid a (setup_buffers a b)
unfolding setup_buffers
setup_buffers-Laid a b empty = (
  rw empty tt,
  ap length (
      copy_whole a.outputs (resize (length a.outputs) 0 b.rx_pdo_working)
        (sym (length-resize (length a.outputs) 0 b.rx_pdo_working))),
  ap length (
      copy_whole a.inputs (resize (length a.inputs) 0 b.tx_pdo_working)
        (sym (length-resize (length a.inputs) 0 b.tx_pdo_working))),
)

report-Laid : (a : Mapping) (s : MasterState) (b : Bus) → Laid a b → Laid a (report s b)
unfolding report
report-Laid a s b h = ground (arith, h)

check_safe_op-Laid :
    (a : Mapping) (safe : Bool) (b : Bus) → Laid a b → Laid a (check_safe_op safe b).1
unfolding check_safe_op
check_safe_op-Laid a true b h = h
check_safe_op-Laid a false b h = report-Laid a MasterState.error b h

start_bus-Laid :
    (a : Mapping) (b : Bus) (r : BusUp × Bus)
    → b.slaves_data_access ≡ []
    → start_bus a b ≡ some r
    → Laid a r.1
unfolding start_bus
start_bus-Laid a b r empty e =
    let (b', there, done) =
      bind_some (setup_slaves a b.slaves (setup_buffers a (report starting b))) _ r e in
    let laid =
      setup_slaves-Laid a b.slaves (setup_buffers a (report starting b)) b' there
        (setup_buffers-Laid a (report starting b) ((report_slaves starting b).1 ∙ empty)) in
    rw (sym (some_injective _ r done)) (check_safe_op-Laid a a.safe_op b' laid)

init_accesses : (scan : Scan) (b : Bus) → (init scan b).1.slaves_data_access ≡ b.slaves_data_access
unfolding init
init_accesses scan b = ground arith

module _ {S : Type 0} where
  finish_configure-master :
      (up : BusUp) (d : SoemDriver S) → (finish_configure up d).1.master ≡ d.master
  unfolding finish_configure
  finish_configure-master returns d = refl
  finish_configure-master throws d = refl

  module _ (configure : ConfigureModule S) where
    configure_slave-master :
        (slave_info : EcSlavePluginInfo) (d : SoemDriver S)
        → (configure_slave configure slave_info d).1.master ≡ d.master
    unfolding configure_slave
    configure_slave-master slave_info d = ground arith

    configure_slaves-master :
        (slave_infos : List EcSlavePluginInfo) (d : SoemDriver S)
        → (configure_slaves configure slave_infos d).1.master ≡ d.master
    unfolding configure_slaves
    configure_slaves-master [] d = refl
    configure_slaves-master (slave_info ∷ slave_infos) d =
        let here = configure_slave-master slave_info d in
        let rest = configure_slaves-master slave_infos (configure_slave configure slave_info d).1 in
        elim (Bool-cases (configure_slave configure slave_info d).0) [
          | inl threw ↦ rw (threw, configure_slaves) here
          | inr went_on ↦ rw (went_on, configure_slaves) (rest ∙ here)
        ]

    configure_bus-Laid :
        (mapping : Mapping) (d d' : SoemDriver S)
        → d.master.slaves_data_access ≡ []
        → configure_bus configure mapping d ≡ some (success, d')
        → Laid mapping d'.master
    unfolding configure_bus
    configure_bus-Laid mapping d0 d' empty e =
        let d = (configure_slaves configure d0.slave_infos d0).1 in
        let same = configure_slaves-master d0.slave_infos d0 in
        elim (Bool-cases (configure_slaves configure d0.slave_infos d0).0) [
          | inl threw ↦ absurd (ground (arith, e, threw))
          | inr went_on ↦ elim (Option-cases (start_bus mapping d.master)) [
            | inl missing ↦ absurd (ground (arith, e, went_on, missing))
            | inr ((up, master), there) ↦
                (let done : some (finish_configure up (record d { master = master }))
                      ≡ some (success, d') =
                    ground (arith, e, went_on, there) in
                  rw
                    (
                      sym (ap (λ r. r.1) (some_injective _ _ done)),
                      finish_configure-master up (record d { master = master }),
                    )
                    (start_bus-Laid mapping d.master (up, master) (rw same empty) there))
          ]
        ]

    pub on_configure-Laid :
        (scan : Scan) (mapping : Mapping) (d d' : SoemDriver S)
        → d.master.slaves_data_access ≡ []
        → on_configure configure scan mapping d ≡ some (success, d')
        → Laid mapping d'.master
    unfolding on_configure
    on_configure-Laid scan mapping d d' empty e = elim (BusUp-cases (init scan d.master).0) [
      | inl up ↦
          configure_bus-Laid mapping (record d { master = (init scan d.master).1 }) d'
            ((init_accesses scan d.master) ∙ empty) (rw (up, on_configure) at e)
      | inr failed ↦ absurd (ground (arith, e, failed))
    ]
