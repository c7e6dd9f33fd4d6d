-- ===== src/Master/Threads.antt =====
-- SOEMMaster::transfer_RxPDO, transfer_TxPDO, run and stop (soem_master.cpp) with the cyclic task, as
-- threads: the one that calls read() and write(), the task, and the one that starts and stops it. A
-- sequence of events says which of them acts next; each access to an atomic flag is an event of its own.
pub mod Exclusion
pub mod Progress
mod Tests
use soem_driver_ros.Base.{
  ℕ, zero, suc, Bool, true, false, not, ◌&&◌, if◌then◌else◌, List, [], ◌∷◌, set,
}
use soem_driver_ros.Trinamic.Pdo.{copy_min}
use soem_driver_ros.Master.Cycle.{copy_all}

pub data Transfer : Type 0 where
  rx_pdo tx_pdo : Transfer

-- Where the thread of the driver stands: outside of the transfers, behind the first test, behind the
-- second, and in wait(true).
pub data CallerStage : Type 0 where
  outside : CallerStage
  seen_running allowed waiting : Transfer → CallerStage

-- Where the cyclic task stands: before it is started, before it sets the flag that it runs, in front of
-- the test of the loop, of the load of the flag, of the copy and of the store for each transfer, of the
-- exchange with the bus, of its last store, and at its end.
pub data TaskStage : Type 0 where
  no_thread created at_test at_rx_pdo copying_rx_pdo copied_rx_pdo at_exchange at_tx_pdo : TaskStage
  copying_tx_pdo copied_tx_pdo leaving ended : TaskStage

-- Where stop() stands: outside, at the join, behind it, and in front of the last store.
pub data Stopper : Type 0 where
  idle joining joined lowered : Stopper

pub record Threads : Type 0 where
  pub rx_pdo_working : List ℕ
  pub rx_pdo_iomap : List ℕ
  pub rx_pdo_transfer : Bool
  pub tx_pdo_working : List ℕ
  pub tx_pdo_iomap : List ℕ
  pub tx_pdo_transfer : Bool
  pub cyclic_master_running : Bool
  pub cyclic_master_terminate : Bool
  pub caller : CallerStage
  pub task : TaskStage
  pub stopper : Stopper

-- `write_output` is a slave module that writes a byte of its process data, between the transfers.
-- `task_goes` has the inputs that SOEM finds, where it is an exchange.
pub data Event : Type 0 where
  write_output : ℕ → ℕ → Event
  call_transfer : Transfer → Event
  caller_goes : Event
  task_goes : List ℕ → Event
  call_run call_stop stopper_goes : Event

abbrev pub is_outside : CallerStage → Bool
is_outside outside = true
is_outside _ = false

abbrev pub has_thread : TaskStage → Bool
has_thread no_thread = false
has_thread _ = true

abbrev pub has_ended : TaskStage → Bool
has_ended ended = true
has_ended _ = false

abbrev pub is_idle : Stopper → Bool
is_idle idle = true
is_idle _ = false

abbrev pub requested : Transfer → Threads → Bool
requested rx_pdo t = t.rx_pdo_transfer
requested tx_pdo t = t.tx_pdo_transfer

unfoldable pub request : Transfer → Threads → Threads
request rx_pdo t = record t { rx_pdo_transfer = true; caller = waiting rx_pdo }
request tx_pdo t = record t { tx_pdo_transfer = true; caller = waiting tx_pdo }

-- transfer_RxPDO and transfer_TxPDO, by where the thread stands.
unfoldable pub caller_step : CallerStage → Threads → Threads
unfolding request
caller_step outside t = t
caller_step (seen_running d) t =
    if t.cyclic_master_terminate
    then record t { caller = outside }
    else record t { caller = allowed d }
caller_step (allowed d) t = request d t
caller_step (waiting d) t = if requested d t then t else record t { caller = outside }

-- cyclic_task
unfoldable pub task_step : TaskStage → List ℕ → Threads → Threads
unfolding copy_all copy_min
task_step no_thread inputs t = t
task_step created inputs t = record t { cyclic_master_running = true; task = at_test }
task_step at_test inputs t =
    if t.cyclic_master_terminate then record t { task = leaving } else record t { task = at_rx_pdo }
task_step at_rx_pdo inputs t =
    if t.rx_pdo_transfer
    then record t { task = copying_rx_pdo }
    else record t { task = at_exchange }
task_step copying_rx_pdo inputs t = record t {
  rx_pdo_iomap = copy_all t.rx_pdo_working t.rx_pdo_iomap;
  task = copied_rx_pdo;
}
task_step copied_rx_pdo inputs t = record t { rx_pdo_transfer = false; task = at_exchange }
task_step at_exchange inputs t = record t {
  tx_pdo_iomap = copy_min inputs t.tx_pdo_iomap;
  task = at_tx_pdo;
}
task_step at_tx_pdo inputs t =
    if t.tx_pdo_transfer then record t { task = copying_tx_pdo } else record t { task = at_test }
task_step copying_tx_pdo inputs t = record t {
  tx_pdo_working = copy_all t.tx_pdo_iomap t.tx_pdo_working;
  task = copied_tx_pdo;
}
task_step copied_tx_pdo inputs t = record t { tx_pdo_transfer = false; task = at_test }
task_step leaving inputs t = record t { cyclic_master_running = false; task = ended }
task_step ended inputs t = t

-- stop(), behind its start.
unfoldable pub stopper_step : Stopper → Threads → Threads
stopper_step idle t = t
stopper_step joining t =
    if has_ended t.task then record t { task = no_thread; stopper = joined } else t
stopper_step joined t = record t { cyclic_master_running = false; stopper = lowered }
stopper_step lowered t = record t { cyclic_master_terminate = false; stopper = idle }

-- An event of a thread that is elsewhere changes nothing; so does run() while there is a thread to
-- join, where the program ends.
unfoldable pub occur : Event → Threads → Threads
unfolding caller_step task_step stopper_step
occur (write_output i v) t =
    if is_outside t.caller then record t { rx_pdo_working = set t.rx_pdo_working i v } else t
occur (call_transfer d) t =
    if is_outside t.caller && t.cyclic_master_running
    then record t { caller = seen_running d }
    else t
occur caller_goes t = caller_step t.caller t
occur (task_goes inputs) t = task_step t.task inputs t
occur call_run t =
    if is_idle t.stopper && not (has_thread t.task)
    then record t { cyclic_master_terminate = false; task = created }
    else t
occur call_stop t =
    if is_idle t.stopper
    then (if has_thread t.task
        then record t { cyclic_master_terminate = true; stopper = joining }
        else record t { stopper = joined })
    else t
occur stopper_goes t = stopper_step t.stopper t

unfoldable pub occur_all : List Event → Threads → Threads
unfolding occur
occur_all [] t = t
occur_all (e ∷ events) t = occur_all events (occur e t)

-- The threads after start_bus, with the outputs and the inputs that SOEM has mapped.
abbrev pub at_start : List ℕ → List ℕ → Threads
at_start outputs inputs = record {
  rx_pdo_working = outputs;
  rx_pdo_iomap = outputs;
  rx_pdo_transfer = false;
  tx_pdo_working = inputs;
  tx_pdo_iomap = inputs;
  tx_pdo_transfer = false;
  cyclic_master_running = false;
  cyclic_master_terminate = false;
  caller = outside;
  task = no_thread;
  stopper = idle;
}
