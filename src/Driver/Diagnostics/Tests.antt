-- ===== src/Driver/Diagnostics/Tests.antt =====
-- A wrapper that keeps the level, the id and the values of a message, and a master without slaves in two cycles.
use soem_driver_ros.Base.{
  ℕ, ltb, ◌||◌, ◌≡◌, refl, inl, Bool, true, false, if◌then◌else◌, List, [], ◌∷◌, ◌++◌, none, some,
  Text, codes, arith,
}
use soem_driver_ros.Master.Mailboxes.{Wkc}
use soem_driver_ros.Master.Cycle.{running, MasterStatus, Master, CycleInput, cycles}
use soem_driver_ros.Driver.Diagnostics.{StatusWrapper, slave_diagnostics, publish}
use soem_driver_ros.Driver.Diagnostics.Published.{
  Lawful, failed, level_of, reported, cycles-published,
}

abbrev Message : Type 0
Message = ℕ × Text × List (Text × Text)

-- A number is printed as one character.
abbrev wrapper : StatusWrapper
wrapper = record {
  Message = Message;
  ok = 0;
  warn = 1;
  error = 2;
  builder = (0, [], []);
  level = λ (l, h, v). l;
  hardware_id = λ (l, h, v). h;
  values = λ (l, h, v). v;
  printed = λ n. n ∷ [];
  set_name = λ t m. m;
  set_hardware_id = λ t (l, h, v). (l, t, v);
  summary = λ l' t (l, h, v). (l', h, v);
  merge_summary = λ l' t (l, h, v). (if ltb l l' then l' else l, h, v);
  add_text = λ k t (l, h, v). (l, h, v ++ (k, t) ∷ []);
  add_count = λ k n (l, h, v). (l, h, v ++ (k, n ∷ []) ∷ []);
}

wrapper-Lawful : Lawful wrapper
wrapper-Lawful = record {
  values-builder = refl;
  values-set_name = λ t m. refl;
  values-set_hardware_id = λ t m. refl;
  values-summary = λ l t m. refl;
  values-merge_summary = λ l t m. refl;
  values-add_text = λ k t m. refl;
  values-add_count = λ k n m. refl;
  hardware_id-set_hardware_id = λ t m. refl;
  ok_below = omega arith;
  warn_below = omega arith;
  level-summary = λ l t m. refl;
  level-merge_summary = λ l t m. refl;
  level-add_text = λ k t m. refl;
  level-add_count = λ k n m. refl;
  level-set_hardware_id = λ t m. refl;
}

abbrev status : MasterStatus
status = record {
  error_count = 0;
  rx_error_count = 0;
  tx_error_count = 0;
  rx_error_count_consecutive = 0;
  tx_error_count_consecutive = 0;
  other_ec_error_count_consecutive = 0;
  missed_cycle_deadline_count = 0;
  cycle_count = 0;
  state = running;
}

abbrev master : Master
master = record {
  rx_pdo_working = [];
  rx_pdo_iomap = [];
  rx_pdo_transfer = false;
  tx_pdo_working = [];
  tx_pdo_iomap = [];
  tx_pdo_transfer = false;
  slaves_data_access = [];
  status = status;
  cycle_counter = 0;
  status_queue = none;
}

abbrev input : Bool → CycleInput
input sent = record {
  sent = sent;
  received = true;
  inputs = [];
  answers = λ k. record { accepted = false; wkc = Wkc.none_received; content = [] };
  is_error = false;
  popped = 0;
  late = true;
}

-- The first cycle fails; the second does not.
recovered : (m : Master) × (cycles (input false ∷ input true ∷ []) master ≡ some m)
unfolding cycles
recovered = (_, refl)

cycles-published_example :
    (d : wrapper.Message) × ((publish wrapper (codes "eth0") (none ∷ []) recovered.0).0
      ≡ d ∷ slave_diagnostics wrapper (none ∷ []))
    × (wrapper.hardware_id d ≡ codes "eth0")
    × (wrapper.values d ≡ reported wrapper (input false) 0 status)
    × (wrapper.level d ≡ level_of wrapper (failed (input false)) (true || ltb 0 0))
cycles-published_example =
    cycles-published wrapper wrapper-Lawful (input false) (input true ∷ []) master recovered.0
      (codes "eth0") (none ∷ []) refl (omega arith, omega arith, omega arith, omega arith)
      (omega arith, omega arith, omega arith, omega arith, inl refl) recovered.1
