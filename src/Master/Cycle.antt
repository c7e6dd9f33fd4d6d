-- ===== src/Master/Cycle.antt =====
-- One cycle of SOEMMaster::cyclic_task (soem_master.cpp): process data on request, the exchange with
-- the bus, the mailboxes, and the counters of the status. A size_t wraps at 2 ^ 64.
pub mod Counters
pub mod Transfers
use soem_driver_ros.Base.{
  ◌>>=◌, ℕ, ◌+◌, ◌-◌, ltb, ◌%◌, ◌^◌, Bool, true, false, if◌then◌else◌, List, [], ◌∷◌, ◌++◌, Option,
  none, some, length, drop,
}
use soem_driver_ros.Master.Mailboxes.{SlaveDataAccess, MbxAnswer, handle_mailboxes}

-- SOEMMasterState
pub data MasterState : Type 0 where
  uninitialized initialized starting idle running error : MasterState

-- SOEMMasterStatus
pub record MasterStatus : Type 0 where
  pub error_count : ℕ
  pub rx_error_count : ℕ
  pub tx_error_count : ℕ
  pub rx_error_count_consecutive : ℕ
  pub tx_error_count_consecutive : ℕ
  pub other_ec_error_count_consecutive : ℕ
  pub missed_cycle_deadline_count : ℕ
  pub cycle_count : ℕ
  pub state : MasterState

-- The fields of SOEMMaster that the task uses.
pub record Master : Type 0 where
  pub rx_pdo_working : List ℕ
  pub rx_pdo_iomap : List ℕ
  pub rx_pdo_transfer : Bool
  pub tx_pdo_working : List ℕ
  pub tx_pdo_iomap : List ℕ
  pub tx_pdo_transfer : Bool
  pub slaves_data_access : List SlaveDataAccess
  pub status : MasterStatus
  pub cycle_counter : ℕ
  pub status_queue : Option MasterStatus

-- What SOEM and the clock answer in a cycle: whether process data was sent and received, the inputs
-- that stand in the map then, the answers about the mailboxes, ecx_iserror, the number of errors that
-- are taken from the list, and whether the deadline has passed.
pub record CycleInput : Type 0 where
  pub sent : Bool
  pub received : Bool
  pub inputs : List ℕ
  pub answers : ℕ → MbxAnswer
  pub is_error : Bool
  pub popped : ℕ
  pub late : Bool

abbrev pub plus : ℕ → ℕ → ℕ
plus n k = (n + k) % 2 ^ 64

-- std::copy of a whole buffer
unfoldable pub copy_all : List ℕ → List ℕ → List ℕ
copy_all src dst = src ++ drop (length src) dst

unfoldable pub count_sent : Bool → MasterStatus → MasterStatus
count_sent true s = record s { tx_error_count_consecutive = 0 }
count_sent false s = record s {
  tx_error_count_consecutive = plus s.tx_error_count_consecutive 1;
  tx_error_count = plus s.tx_error_count 1;
  error_count = plus s.error_count 1;
  state = error;
}

unfoldable pub count_received : Bool → MasterStatus → MasterStatus
count_received true s = record s { rx_error_count_consecutive = 0 }
count_received false s = record s {
  rx_error_count_consecutive = plus s.rx_error_count_consecutive 1;
  rx_error_count = plus s.rx_error_count 1;
  error_count = plus s.error_count 1;
  state = error;
}

unfoldable pub count_errors : Bool → ℕ → MasterStatus → MasterStatus
count_errors false popped s = record s { other_ec_error_count_consecutive = 0 }
count_errors true popped s = record s {
  other_ec_error_count_consecutive = plus s.other_ec_error_count_consecutive popped;
  error_count = plus s.error_count popped;
  state = error;
}

unfoldable pub count_deadline : Bool → MasterStatus → MasterStatus
count_deadline false s = s
count_deadline true s = record s {
  missed_cycle_deadline_count = plus s.missed_cycle_deadline_count 1;
}

-- status_queue.push(status): a queue of one place, which keeps what it holds.
abbrev pub push_status : MasterStatus → Option MasterStatus → Option MasterStatus
push_status s none = some s
push_status s (some held) = some held

-- The status at the end of a cycle. `state` is the local variable state_flag until it is committed.
unfoldable pub count_cycle : CycleInput → ℕ → MasterStatus → MasterStatus
unfolding count_sent count_received count_errors count_deadline
count_cycle i cycle_count s = count_deadline i.late (
    count_errors i.is_error i.popped (
      count_received i.received
        (count_sent i.sent (record s { cycle_count = cycle_count; state = running }))))

-- The counter is an atomic int, which wraps; its value is converted to a size_t.
abbrev pub next_count : ℕ → ℕ
next_count cycle_counter = (cycle_counter + 1) % 2 ^ 32

abbrev pub to_size : ℕ → ℕ
to_size cycle_counter =
    if ltb cycle_counter (2 ^ 31) then cycle_counter else 2 ^ 64 - 2 ^ 32 + cycle_counter

-- The output process data at the start of a cycle.
unfoldable pub transfer_outputs : Master → Master
unfolding copy_all
transfer_outputs m =
    if m.rx_pdo_transfer
    then record m {
      rx_pdo_iomap = copy_all m.rx_pdo_working m.rx_pdo_iomap;
      rx_pdo_transfer = false;
    }
    else m

-- The input process data, after the exchange with the bus has renewed the map.
unfoldable pub transfer_inputs : List ℕ → Master → Master
unfolding copy_all
transfer_inputs inputs m =
    if m.tx_pdo_transfer
    then record m {
      tx_pdo_iomap = inputs;
      tx_pdo_working = copy_all inputs m.tx_pdo_working;
      tx_pdo_transfer = false;
    }
    else record m { tx_pdo_iomap = inputs }

-- The body of the loop. `none` is the read behind the end of the received mailbox.
unfoldable pub cycle : CycleInput → Master → Option Master
unfolding transfer_outputs transfer_inputs handle_mailboxes count_cycle
cycle i m = do
  let m' = transfer_inputs i.inputs (transfer_outputs m)
  slaves ← handle_mailboxes i.answers 1 m.slaves_data_access
  let s = count_cycle i (to_size (next_count m.cycle_counter)) m.status
  some (record m' {
    slaves_data_access = slaves;
    cycle_counter = next_count m.cycle_counter;
    status = s;
    status_queue = push_status s m.status_queue;
  })

-- The loop, as long as it is not told to stop.
unfoldable pub cycles : List CycleInput → Master → Option Master
unfolding cycle
cycles [] m = some m
cycles (i ∷ is) m = do m' ← cycle i m; cycles is m'
