-- ===== src/Driver/Lifecycle.antt =====
-- SOEMDriver::on_activate, on_deactivate, on_cleanup and on_shutdown (soem_driver.cpp), with
-- SOEMMaster::run, stop, bus_up_OP and bus_down_SAFE_OP (soem_master.cpp), and the order in which the
-- lifecycle of ROS calls them. The driver's node for diagnostics is its thread, running or not.
pub mod Reachable
mod Tests
use soem_driver_ros.Base.{ℕ, ◌≡◌, ◌⊎◌, Bool, true, false, not, if◌then◌else◌, Option, none, some}
use soem_driver_ros.Master.Cycle.{MasterState, MasterStatus, push_status}
use soem_driver_ros.Master.Bus.{BusUp, returns, throws}
use soem_driver_ros.Master.Setup.{Bus, Scan, Mapping, report}
use soem_driver_ros.Driver.Configure.{
  CallbackReturn, success, failure, SoemDriver, ConfigureModule, on_configure,
}

-- The driver, and whether cyclic_master is a thread that can be joined.
pub record Plant (S : Type 0) : Type 0 where
  pub driver : SoemDriver S
  pub cyclic_master : Bool

-- A call that returns or throws, or std::terminate, where a thread is assigned over a running one.
pub data Call : Type 0 where
  returned thrown terminated : Call

-- The status that bus_up_OP leaves, by whether all slaves have reached OP.
unfoldable pub bus_up : Bool → Bus → BusUp × Bus
unfolding report
bus_up true b = (returns, report MasterState.idle b)
bus_up false b = (throws, report MasterState.error b)

-- The end of cyclic_task.
unfoldable pub end_of_task : Bus → Bus
end_of_task b =
    let s = record b.status { state = MasterState.idle } in
    record b {
      cyclic_master_running = false;
      status = s;
      status_queue = push_status s b.status_queue;
    }

-- The start of cyclic_task, in its thread.
unfoldable pub start_of_task : Bus → Bus
start_of_task b = record b {
  cyclic_master_running = true;
  status = record b.status {
    state = MasterState.running;
    rx_error_count_consecutive = 0;
    tx_error_count_consecutive = 0;
    other_ec_error_count_consecutive = 0;
  };
}

unfoldable pub bus_down_safe_op : Bus → Bus
unfolding report
bus_down_safe_op b = report MasterState.initialized b

-- The part of stop() behind the join.
unfoldable pub bus_down : Bus → Bus
unfolding bus_down_safe_op
bus_down b0 =
    let b = record b0 { cyclic_master_running = false } in
    if b.is_init then bus_down_safe_op b else b

module _ {S : Type 0} where
  abbrev in_master : (Bus → Bus) → Plant S → Plant S
  in_master f t = record t { driver = record t.driver { master = f t.driver.master } }

  unfoldable pub run : Bool → Plant S → Call × Plant S
  unfolding bus_up
  run all_op t =
      let (up, b) = bus_up all_op t.driver.master in
      let t' = in_master (λ _. b) t in
      elim up [
        | throws ↦ (thrown, t')
        | returns ↦
            if t'.cyclic_master
            then (terminated, t')
            else (returned, record t' { cyclic_master = true })
      ]

  -- A thread that can be joined has run to its end then.
  unfoldable pub stop : Plant S → Plant S
  unfolding bus_down end_of_task
  stop t =
      if t.cyclic_master
      then record (in_master (λ b. bus_down (end_of_task b)) t) { cyclic_master = false }
      else in_master bus_down t

  unfoldable pub stop_diagnostics_publisher : Plant S → Plant S
  stop_diagnostics_publisher t = record t {
    driver = record t.driver { diagnostics_running = false };
  }

  -- deinit(), with whether it calls ecx_close: is_init stays as it is.
  unfoldable pub deinit : Plant S → Bool × Plant S
  unfolding stop bus_down_safe_op
  deinit t0 =
      let t = stop t0 in
      let down = in_master (λ b. if b.is_init then bus_down_safe_op b else b) t in
      (
        t.driver.master.is_init,
        in_master (λ b. record b { status = record b.status { state = MasterState.uninitialized } })
            down,
      )

  -- The destructors of the driver and of its master.
  unfoldable pub destroy : Plant S → Bool × Plant S
  unfolding deinit stop_diagnostics_publisher
  destroy t = deinit (stop_diagnostics_publisher t)

  unfoldable pub on_activate : Bool → Plant S → Call × Plant S
  unfolding run
  on_activate all_op t = run all_op t

  unfoldable pub on_deactivate : Plant S → Plant S
  unfolding stop
  on_deactivate t = stop t

  unfoldable pub on_cleanup : Plant S → Plant S
  unfolding stop_diagnostics_publisher
  on_cleanup t = stop_diagnostics_publisher t

  unfoldable pub on_shutdown : Plant S → Plant S
  unfolding stop stop_diagnostics_publisher
  on_shutdown t = stop_diagnostics_publisher (stop t)

-- The states of a lifecycle node.
pub data Phase : Type 0 where
  unconfigured inactive active finalized : Phase

-- Where a node goes after an error, which the answer of on_error decides.
pub data AfterError : Phase → Type 0 where
  recovered : AfterError unconfigured
  given_up : AfterError finalized

-- The callbacks in the order of the lifecycle, and the start of the thread that on_activate makes. There
-- is no step for an exception that leaves on_configure, which the driver does not catch.
pub data Step {S : Type 0} (configure : ConfigureModule S) (t : Plant S)
    : Phase → Phase → Plant S → Type 0 where
  configured :
      (scan : Scan) (mapping : Mapping) {d : SoemDriver S}
      → on_configure configure scan mapping t.driver ≡ some (success, d)
      → Step configure t unconfigured inactive (record t { driver = d })
  not_configured :
      (scan : Scan) (mapping : Mapping) {d : SoemDriver S}
      → on_configure configure scan mapping t.driver ≡ some (failure, d)
      → Step configure t unconfigured unconfigured (record t { driver = d })
  configure_failed :
      (scan : Scan) (mapping : Mapping) {d : SoemDriver S} {p : Phase}
      → on_configure configure scan mapping t.driver ≡ some (CallbackReturn.error, d)
      → AfterError p
      → Step configure t unconfigured p (record t { driver = d })
  activated :
      (all_op : Bool) {t' : Plant S}
      → on_activate all_op t ≡ (returned, t')
      → Step configure t inactive active t'
  activate_failed :
      (all_op : Bool) {t' : Plant S} {p : Phase}
      → on_activate all_op t ≡ (thrown, t')
      → AfterError p
      → Step configure t inactive p t'
  task_starts :
      Step configure t active active
        (record t { driver = record t.driver { master = start_of_task t.driver.master } })
  deactivated : Step configure t active inactive (on_deactivate t)
  cleaned_up : Step configure t inactive unconfigured (on_cleanup t)
  shut_down : (p : Phase) → Step configure t p finalized (on_shutdown t)

pub data Reach {S : Type 0} (configure : ConfigureModule S) (t0 : Plant S)
    : Phase → Plant S → Type 0 where
  start : Reach configure t0 unconfigured t0
  later :
      {p q : Phase} {t t' : Plant S}
      → Reach configure t0 p t
      → Step configure t p q t'
      → Reach configure t0 q t'
