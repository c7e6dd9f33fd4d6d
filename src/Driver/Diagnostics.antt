-- ===== src/Driver/Diagnostics.antt =====
-- What the driver publishes for diagnostics: SOEMDiagnosticsPublisher (soem_driver.cpp) over the status
-- of the master (soem_master_helpers_ros.hpp, soem_master.hpp). The wrapper that builds a message is not
-- in the repository, and is a parameter with its documented laws.
pub mod Published
mod Tests
use soem_driver_ros.Base.{
  ℕ, ltb, ◌||◌, Bool, if◌then◌else◌, List, [], ◌∷◌, ◌++◌, Option, none, some, Text, codes,
}
use soem_driver_ros.Master.Cycle.{
  MasterState, uninitialized, initialized, starting, idle, running, error, MasterStatus, Master,
}

-- SOEMMasterState in words.
unfoldable pub master_state_to_string : MasterState → Text
master_state_to_string uninitialized = codes "UNINITIALIZED"
master_state_to_string initialized = codes "INITIALIZED"
master_state_to_string starting = codes "STARTING"
master_state_to_string idle = codes "IDLE"
master_state_to_string running = codes "RUNNING"
master_state_to_string error = codes "ERROR"

-- diagnostic_updater::DiagnosticStatusWrapper, over messages, with the levels of DiagnosticStatus and
-- the text that a number is printed as.
pub record StatusWrapper : Type 1 where
  pub Message : Type 0
  pub ok : ℕ
  pub warn : ℕ
  pub error : ℕ
  pub builder : Message
  pub level : Message → ℕ
  pub hardware_id : Message → Text
  pub values : Message → List (Text × Text)
  pub printed : ℕ → Text
  pub set_name : Text → Message → Message
  pub set_hardware_id : Text → Message → Message
  pub summary : ℕ → Text → Message → Message
  pub merge_summary : ℕ → Text → Message → Message
  pub add_text : Text → Text → Message → Message
  pub add_count : Text → ℕ → Message → Message

abbrev nonzero : ℕ → Bool
nonzero n = ltb 0 n

module _ (w : StatusWrapper) where
  open w use {Message}

  -- The summary, by the counters.
  unfoldable pub summarize : MasterStatus → Message
  summarize s =
      let b0 = w.summary w.ok [] (w.set_name (codes "SOEMMaster") w.builder) in
      let b1 =
        if nonzero s.rx_error_count_consecutive
          || (nonzero s.tx_error_count_consecutive || nonzero s.other_ec_error_count_consecutive)
        then w.merge_summary w.error (codes "Errors communicating with slaves on EtherCAT bus!") b0
        else b0 in
      if nonzero s.missed_cycle_deadline_count
      then w.merge_summary w.warn (codes "Realtime loop misses cycle deadline!") b1
      else b1

  unfoldable pub build_master_status_diagnostics_ros : MasterStatus → Message
  unfolding summarize master_state_to_string
  build_master_status_diagnostics_ros s = w.add_count (codes "cycle_count") s.cycle_count (
      w.add_count (codes "missed_cycle_deadline_count") s.missed_cycle_deadline_count (
        w.add_count (codes "tx_error_count") s.tx_error_count (
          w.add_count (codes "rx_error_count") s.rx_error_count (
            w.add_count (codes "error_count") s.error_count
              (w.add_text (codes "state") (master_state_to_string s.state) (summarize s))))))

  -- consume_all on the queue of one place of the master, and of each slave.
  unfoldable pub master_diagnostics : Text → Option MasterStatus → List Message
  unfolding build_master_status_diagnostics_ros
  master_diagnostics interface none = []
  master_diagnostics interface (some s) =
      w.set_hardware_id interface (build_master_status_diagnostics_ros s) ∷ []

  unfoldable pub slave_diagnostics : List (Option Message) → List Message
  slave_diagnostics [] = []
  slave_diagnostics (none ∷ queues) = slave_diagnostics queues
  slave_diagnostics (some d ∷ queues) = d ∷ slave_diagnostics queues

  -- The callback of the timer: the message, and what it leaves of the queue of the master.
  unfoldable pub publish : Text → List (Option Message) → Master → List Message × Master
  unfolding master_diagnostics slave_diagnostics
  publish interface queues m = (
    master_diagnostics interface m.status_queue ++ slave_diagnostics queues,
    record m { status_queue = none },
  )
