-- ===== src/Master/Bus.antt =====
-- SOEMMaster::init and bus_up_OP (soem_master.cpp): the sizes of the process data of a slave, and the
-- loop that waits for the slaves to reach OP. What SOEM reports is an argument.
pub mod Waiting
use soem_driver_ros.Base.{ℕ, zero, suc, ◌+◌, ◌/◌, ◌%◌, Bool, true, false, not, if◌then◌else◌}
use soem_driver_ros.Master.Cycle.{MasterState, Master, push_status}

-- RxPDO_size and TxPDO_size, from Obits and Ibits
unfoldable pub pdo_size : ℕ → ℕ
pdo_size bits = bits / 8 + bits % 8

-- status.state = ...; status_queue.push(status), unless the cyclic task runs.
unfoldable pub report_state : Bool → MasterState → Master → Master
report_state cyclic_master_running state m =
    if cyclic_master_running
    then m
    else (let s = record m.status { state = state } in
        record m { status = s; status_queue = push_status s m.status_queue })

-- The result of bus_up_OP: it returns, or it throws.
pub data BusUp : Type 0 where
  returns throws : BusUp

-- do { ... } while (max_OP_PD-- && state != OP): how often the body runs, from its k-th run on, where
-- `reached k` says whether the state is OP after the check in that run.
unfoldable pub wait_op : (ℕ → Bool) → ℕ → ℕ → ℕ
wait_op reached zero k = 1
wait_op reached (suc max_op_pd) k =
    let rest = wait_op reached max_op_pd (suc k) in if reached k then 1 else suc rest

-- The number of exchanges of process data, the outcome, and the status. `all_op` is the state that
-- ecx_readstate reports behind the loop.
unfoldable pub bus_up_op : (ℕ → Bool) → Bool → Bool → Master → ℕ × (BusUp × Master)
unfolding wait_op report_state
bus_up_op reached all_op cyclic_master_running m =
    let exchanges = suc (wait_op reached 200 0) in
    if not all_op
    then (exchanges, (throws, report_state cyclic_master_running MasterState.error m))
    else (exchanges, (returns, report_state cyclic_master_running MasterState.idle m))
