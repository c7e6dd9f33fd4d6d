-- ===== src/Master/Tests.antt =====
-- The cyclic task run on two cycles with one slave that has a message to send and one to receive.
use soem_driver_ros.Master.Bus.{returns, bus_up_op}
use soem_driver_ros.Master.Bus.Waiting.{reached_in, bus_up_op_lem}
use soem_driver_ros.Base.{
  suc, leb, ◌⊎◌, ◌↔◌, ◌≤◌, ℕ, ◌≡◌, refl, Bool, true, false, if◌then◌else◌, List, [], ◌∷◌, ◌++◌,
  none, some, arith, length, All,
}
use soem_driver_ros.Master.Mailboxes.{SlaveDataAccess, positive}
use soem_driver_ros.Master.Cycle.{MasterState, MasterStatus, Master, CycleInput, cycle, cycles}
use soem_driver_ros.Master.Cycle.Counters.{Counted, InRange, cycles-error_counts}
use soem_driver_ros.Master.Cycle.Transfers.{Fitting, cycle-transfers, cycles_complete}

abbrev status : MasterStatus
status = record {
  error_count = 7;
  rx_error_count = 4;
  tx_error_count = 3;
  rx_error_count_consecutive = 1;
  tx_error_count_consecutive = 0;
  other_ec_error_count_consecutive = 0;
  missed_cycle_deadline_count = 2;
  cycle_count = 10;
  state = MasterState.running;
}

abbrev slave : SlaveDataAccess
slave = record {
  s_mbx = 1 ∷ 2 ∷ [];
  r_mbx = 0 ∷ 0 ∷ [];
  send_mbx_request = true;
  receive_mbx = true;
  receive_mbx_raw = false;
  receive_mbx_has_unread = false;
}

abbrev master : Master
master = record {
  rx_pdo_working = 5 ∷ 6 ∷ [];
  rx_pdo_iomap = 0 ∷ 0 ∷ [];
  rx_pdo_transfer = true;
  tx_pdo_working = 0 ∷ [];
  tx_pdo_iomap = 0 ∷ [];
  tx_pdo_transfer = true;
  slaves_data_access = slave ∷ [];
  status = status;
  cycle_counter = 10;
  status_queue = none;
}

abbrev input : Bool → CycleInput
input good = record {
  sent = good;
  received = good;
  inputs = 9 ∷ [];
  answers = λ k. record { accepted = true; wkc = positive; content = 3 ∷ 4 ∷ 5 ∷ [] };
  is_error = false;
  popped = 0;
  late = true;
}

abbrev bad : List CycleInput
bad = input false ∷ input false ∷ []

bad_answers : All (λ i. (k : ℕ) → length (i.answers k).content ≡ 3) bad
bad_answers = (λ k. refl, (λ k. refl, tt))

fits : Fitting 3 master.slaves_data_access
fits = (omega arith, tt)

-- The master after the failing cycles.
after_bad : (m' : Master) × (cycles bad master ≡ some m') × Fitting 3 m'.slaves_data_access
after_bad = cycles_complete 3 bad master bad_answers fits

-- The master after a good cycle and the failing ones.
after_good :
    (m' : Master) × (cycles ([] ++ input true ∷ bad) master ≡ some m')
    × Fitting 3 m'.slaves_data_access
after_good = cycles_complete 3 ([] ++ input true ∷ bad) master (λ k. refl, bad_answers) fits

status-InRange : InRange master.status
status-InRange = (omega arith, omega arith, omega arith, omega arith)

cycles-error_counts_example : Counted bad master.status after_bad.0.status
cycles-error_counts_example = cycles-error_counts bad master after_bad.0 status-InRange after_bad.1

-- The master after one failing cycle.
next : (m' : Master) × (cycle (input false) master ≡ some m')
unfolding cycle
next = (_, refl)

cycle-transfers_example :
    (next.0.rx_pdo_transfer ≡ false)
    × (next.0.tx_pdo_transfer ≡ false)
    × (next.0.rx_pdo_iomap ≡ (if true then 5 ∷ 6 ∷ [] else 0 ∷ 0 ∷ []))
    × (next.0.tx_pdo_working ≡ (if true then 9 ∷ [] else 0 ∷ []))
    × (next.0.rx_pdo_working ≡ 5 ∷ 6 ∷ [])
cycle-transfers_example = cycle-transfers (input false) master next.0 refl refl next.1

-- Slaves that reach OP by the fourth check.
abbrev fourth : ℕ → Bool
fourth k = leb 3 k

bus_up_op_example :
    let out = bus_up_op fourth true false master in
    (before : ℕ) × (out.0 ≡ suc (suc before))
    × (before ≤ 200)
    × (reached_in fourth 0 before ≡ false)
    × ((fourth before ≡ true) ⊎ (before ≡ 200))
    × ((out.1.0 ≡ returns) ↔ (true ≡ true))
    × (out.1.1.status.state ≡ (
        if false
        then master.status.state
        else (if true then MasterState.idle else MasterState.error)))
bus_up_op_example = bus_up_op_lem fourth true false master
