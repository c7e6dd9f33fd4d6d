-- ===== src/Driver/Lifecycle/Reachable.antt =====
-- What holds in each state of the lifecycle: when the cyclic task has a thread, and that read() and
-- write() index slaves_data_access within its bounds.
use soem_driver_ros.Base.{
  ◌≡◌, ◌≢◌, inl, inr, refl, sym, ap, subst, ◌∙◌, Bool, true, false, some, length, arith,
}
use soem_driver_ros.Master.Setup.{Scan, Mapping, report}
use soem_driver_ros.Driver.Configure.{
  CallbackReturn, success, failure, SoemDriver, ConfigureModule, on_configure,
}
use soem_driver_ros.Driver.Configure.Places.{Placed, Initialized}
use soem_driver_ros.Driver.Configure.Access.{Configured, on_configure-Configured}
use soem_driver_ros.Driver.Lifecycle.{
  Plant, returned, thrown, terminated, bus_up, start_of_task, bus_down, on_activate, on_deactivate,
  on_cleanup, on_shutdown, Phase, unconfigured, inactive, active, finalized, AfterError, recovered,
  given_up, Step, configured, not_configured, configure_failed, activated, activate_failed,
  task_starts, deactivated, cleaned_up, shut_down, Reach, start, later,
}

module _ {S : Type 0} where
  -- The initialized slaves have indices of slaves_data_access.
  abbrev pub Accessible : SoemDriver S → Type 0
  Accessible d = Initialized (length d.master.slaves_data_access) d

  -- By the state: whether the task has a thread, and what is set up.
  abbrev pub Safe : Phase → Plant S → Type 0
  Safe unconfigured t = (t.cyclic_master ≡ false) × Placed t.driver
  Safe inactive t = (t.cyclic_master ≡ false) × Placed t.driver × Accessible t.driver
  Safe active t = (t.cyclic_master ≡ true) × Placed t.driver × Accessible t.driver
  Safe finalized t = (t.cyclic_master ≡ false) × Placed t.driver

  -- A call that changes nothing of the slaves.
  abbrev Keeps : Plant S → Plant S → Type 0
  Keeps t t' =
      (t'.driver.master.slaves ≡ t.driver.master.slaves)
      × (t'.driver.master.slaves_data_access ≡ t.driver.master.slaves_data_access)
      × (t'.driver.slaves ≡ t.driver.slaves)
      × (t'.driver.initialized_slaves ≡ t.driver.initialized_slaves)

  Keeps-Placed : (t t' : Plant S) → Keeps t t' → Placed t.driver → Placed t'.driver
  Keeps-Placed t t' k h = rw (k.0, k.2, k.3) h

  Keeps-Accessible : (t t' : Plant S) → Keeps t t' → Accessible t.driver → Accessible t'.driver
  Keeps-Accessible t t' k h = rw (k.1, k.2, k.3) h

  on_activate-Keeps : (all_op : Bool) (t : Plant S) → Keeps t (on_activate all_op t).1
  unfolding on_activate bus_up report
  on_activate-Keeps all_op t = (ground arith, ground arith, ground arith, ground arith)

  stop-Keeps : (t : Plant S) → Keeps t (on_deactivate t) × Keeps t (on_shutdown t)
  unfolding on_deactivate on_shutdown bus_down report
  stop-Keeps t = (
    (ground arith, ground arith, ground arith, ground arith),
    (ground arith, ground arith, ground arith, ground arith),
  )

  stop_quiet :
      (t : Plant S)
      → ((on_deactivate t).cyclic_master ≡ false) × ((on_shutdown t).cyclic_master ≡ false)
  unfolding on_deactivate on_shutdown
  stop_quiet t = (ground arith, ground arith)

  on_activate_thread :
      (all_op : Bool) (t : Plant S)
      → (on_activate all_op t).0 ≡ returned
      → (on_activate all_op t).1.cyclic_master ≡ true
  unfolding on_activate
  on_activate_thread all_op t e = ground (arith, e)

  on_activate_no_thread :
      (all_op : Bool) (t : Plant S)
      → (on_activate all_op t).0 ≡ thrown
      → (on_activate all_op t).1.cyclic_master ≡ t.cyclic_master
  unfolding on_activate
  on_activate_no_thread all_op t e = ground (arith, e)

  on_activate_returned :
      (all_op : Bool) (t t' : Plant S)
      → on_activate all_op t ≡ (returned, t')
      → (t'.cyclic_master ≡ true) × Keeps t t'
  unfolding on_activate
  on_activate_returned all_op t t' e =
      let k = ap (λ r. r.1) e in
      (
        rw (sym k) (on_activate_thread all_op t (ap (λ r. r.0) e)),
        rw (sym k) (on_activate-Keeps all_op t),
      )

  on_activate_thrown :
      (all_op : Bool) (t t' : Plant S)
      → on_activate all_op t ≡ (thrown, t')
      → (t'.cyclic_master ≡ t.cyclic_master) × Keeps t t'
  unfolding on_activate
  on_activate_thrown all_op t t' e =
      let k = ap (λ r. r.1) e in
      (
        rw (sym k) (on_activate_no_thread all_op t (ap (λ r. r.0) e)),
        rw (sym k) (on_activate-Keeps all_op t),
      )

  start_of_task-Keeps :
      (t : Plant S)
      → Keeps t (record t { driver = record t.driver { master = start_of_task t.driver.master } })
  unfolding start_of_task
  start_of_task-Keeps t = (refl, refl, refl, refl)

  cleanup-Safe : (t : Plant S) → Safe inactive t → Safe unconfigured (on_cleanup t)
  unfolding on_cleanup
  cleanup-Safe t h = (h.0, h.1)

  Safe-all : (p : Phase) (t : Plant S) → Safe p t → Placed t.driver
  Safe-all unconfigured t h = h.1
  Safe-all inactive t h = h.1
  Safe-all active t h = h.1
  Safe-all finalized t h = h.1

  AfterError-Safe :
      (p : Phase) (t : Plant S)
      → AfterError p
      → t.cyclic_master ≡ false
      → Placed t.driver
      → Safe p t
  AfterError-Safe unconfigured t recovered q h = (q, h)
  AfterError-Safe finalized t given_up q h = (q, h)
  AfterError-Safe inactive t a q h = elim a [ ]
  AfterError-Safe active t a q h = elim a [ ]

  some_injective : (r r' : CallbackReturn × SoemDriver S) → some r ≡ some r' → r ≡ r'
  some_injective r r' e = cc

  module _ (configure : ConfigureModule S) where
    configure_result :
        (scan : Scan) (mapping : Mapping) (d d' : SoemDriver S) (c : CallbackReturn)
        → on_configure configure scan mapping d ≡ some (c, d')
        → Placed d
        → Configured configure (c, d')
    configure_result scan mapping d d' c e h =
        let (r, f, k) = on_configure-Configured configure scan mapping d h in
        subst (Configured configure) (some_injective r (c, d') (sym f ∙ e)) k

    Step-Safe : (p q : Phase) (t t' : Plant S) → Step configure t p q t' → Safe p t → Safe q t'
    Step-Safe p q t t' (configured scan mapping {d} e) h =
        let (placed, reached) = configure_result scan mapping t.driver d success e h.1 in
        elim reached [
          | inl other ↦ absurd (other refl)
          | inr accessible ↦ (h.0, placed, accessible)
        ]
    Step-Safe p q t t' (not_configured scan mapping {d} e) h =
        (h.0, (configure_result scan mapping t.driver d failure e h.1).0)
    Step-Safe p q t t' (configure_failed scan mapping {d} e a) h =
        AfterError-Safe q (record t { driver = d }) a h.0
          (configure_result scan mapping t.driver d CallbackReturn.error e h.1).0
    Step-Safe p q t t' (activated all_op e) h =
        let (thread, k) = on_activate_returned all_op t t' e in
        (thread, Keeps-Placed t t' k h.1, Keeps-Accessible t t' k h.2)
    Step-Safe p q t t' (activate_failed all_op e a) h =
        let (thread, k) = on_activate_thrown all_op t t' e in
        AfterError-Safe q t' a (thread ∙ h.0) (Keeps-Placed t t' k h.1)
    Step-Safe p q t t' task_starts h = (
      h.0,
      Keeps-Placed t t' (start_of_task-Keeps t) h.1,
      Keeps-Accessible t t' (start_of_task-Keeps t) h.2,
    )
    Step-Safe p q t t' deactivated h =
        let k = (stop-Keeps t).0 in
        ((stop_quiet t).0, Keeps-Placed t t' k h.1, Keeps-Accessible t t' k h.2)
    Step-Safe p q t t' cleaned_up h = cleanup-Safe t h
    Step-Safe p q t t' (shut_down phase) h =
        ((stop_quiet t).1, Keeps-Placed t t' (stop-Keeps t).1 (Safe-all phase t h))

    -- From a driver without a thread, with its slaves in place, every state that the lifecycle reaches
    -- has the positions of the slaves in place. The cyclic task has a thread just in the active state;
    -- in the inactive and the active state, in which read() and write() are called, the position of
    -- each initialized slave, less one, is an index of slaves_data_access.
    pub Reach-Safe :
        (t0 : Plant S)
        → t0.cyclic_master ≡ false
        → Placed t0.driver
        → (p : Phase) (t : Plant S) → Reach configure t0 p t
        → Safe p t
    Reach-Safe t0 quiet placed p t start = (quiet, placed)
    Reach-Safe t0 quiet placed p t' (later {p = p0} {t = t} r s) =
        Step-Safe p0 p t t' s (Reach-Safe t0 quiet placed p0 t r)

    -- In the inactive state that the lifecycle reaches, on_activate never assigns a thread over one that
    -- runs, which would end the program.
    pub on_activate-ne-terminated :
        (t0 : Plant S)
        → t0.cyclic_master ≡ false
        → Placed t0.driver
        → (t : Plant S) (all_op : Bool) → Reach configure t0 inactive t
        → (on_activate all_op t).0 ≢ terminated
    unfolding on_activate
    on_activate-ne-terminated t0 quiet placed t all_op r e =
        let h = (Reach-Safe t0 quiet placed inactive t r).0 in ground (arith, h, e)
