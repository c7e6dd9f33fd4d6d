-- ===== src/Driver/Update/Tests.antt =====
-- The configured driver of Driver/Configure/Tests.antt with a module that copies its input to its output.
use soem_driver_ros.Base.{
  codes, ℕ, zero, suc, ◌+◌, ◌≤◌, ◌≡◌, inl, inr, refl, true, false, List, [], ◌∷◌, none, some,
  lookup, text_eq, assign, arith,
}
use soem_driver_ros.Master.Mailboxes.{SlaveDataAccess, positive, MbxAnswer}
use soem_driver_ros.Master.Setup.{MappedSlave, Mapping}
use soem_driver_ros.Driver.Configure.{success, SoemDriver, on_configure}
use soem_driver_ros.Driver.Configure.Tests.{accepts, driver, scan}
use soem_driver_ros.Driver.Update.{
  Station, write, View, Exchange, UpdateOps, mbx_enqueue_send, mbx_consume_incoming, exchange_of,
  Turn, read_call, write_call, master_cycle, turns,
}
use soem_driver_ros.Driver.Update.Complete.{Whole}
use soem_driver_ros.Driver.Update.Still.{Away}
use soem_driver_ros.Driver.Update.Own.{Owns, write-Owns}
use soem_driver_ros.Driver.Update.Configured.{LiesIn, InOrder, configured_turns_complete}

abbrev mapped_at : ℕ → ℕ → MappedSlave
mapped_at outputs inputs = record {
  outputs = outputs;
  obytes = 2;
  inputs = inputs;
  ibytes = 1;
  mbx_l = 3;
  mbx_rl = 3;
}

abbrev absent : MappedSlave
absent = record { outputs = 0; obytes = 0; inputs = 0; ibytes = 0; mbx_l = 0; mbx_rl = 0 }

abbrev slavelist : ℕ → MappedSlave
slavelist zero = absent
slavelist (suc zero) = mapped_at 100 104
slavelist (suc (suc zero)) = mapped_at 102 105
slavelist (suc (suc (suc p))) = absent

abbrev two_slaves : Mapping
two_slaves = record {
  outputs_at = 100;
  outputs = 0 ∷ 0 ∷ 0 ∷ 0 ∷ [];
  inputs_at = 104;
  inputs = 5 ∷ 6 ∷ [];
  slavelist = slavelist;
  safe_op = true;
}

two_slaves-InOrder : InOrder 3 two_slaves
two_slaves-InOrder = (omega arith, omega arith, each)
  where
    each :
        (p : ℕ)
        → LiesIn (slavelist p).outputs (slavelist p).obytes 100 4
          × LiesIn (slavelist p).inputs (slavelist p).ibytes 104 2
          × ((slavelist p).mbx_rl ≤ 3)
    each zero = (inl refl, inl refl, omega arith)
    each (suc zero) = (inr (omega arith, omega arith), inr (omega arith, omega arith), omega arith)
    each (suc (suc zero)) =
        (inr (omega arith, omega arith), inr (omega arith, omega arith), omega arith)
    each (suc (suc (suc p))) = (inl refl, inl refl, omega arith)

abbrev add_first : List ℕ → View ℕ ℕ → View ℕ ℕ
add_first [] v = v
add_first (x ∷ xs) v = record v { values = v.values + x }

-- read() adds up the first bytes of the messages; write() puts the input out and asks for an answer.
abbrev ops : UpdateOps ℕ ℕ
unfolding mbx_consume_incoming mbx_enqueue_send
ops = record {
  read = λ v. (mbx_consume_incoming add_first v).1;
  write = λ v. (mbx_enqueue_send (1 ∷ []) true false (record v { rx_pdo = v.tx_pdo })).1;
  transmissions = [];
}

abbrev answer : MbxAnswer
answer = record { accepted = true; wkc = positive; content = 7 ∷ 8 ∷ 9 ∷ [] }

abbrev calls : List Turn
calls =
    read_call (some (10 ∷ 11 ∷ [])) ∷ write_call ∷ master_cycle (λ k. answer) ∷ read_call none ∷ []

configured : (d : SoemDriver ℕ) × (on_configure accepts scan two_slaves driver ≡ some (success, d))
unfolding on_configure lookup text_eq assign
configured = (_, refl)

-- Each slave has put out its own input, and both messages have been added.
added :
    elim (turns ops calls (exchange_of configured.0 0)) [
      | none ↦ []
      | some e ↦ e.values ∷ e.rx_pdo_working
    ]
    ≡ 14 ∷ 10 ∷ 0 ∷ 11 ∷ 0 ∷ []
unfolding turns exchange_of configured ops lookup text_eq assign
added = refl

configured_turns_complete_example :
    (e : Exchange ℕ ℕ) × (turns ops calls (exchange_of configured.0 0) ≡ some e)
    × (e.initialized_slaves ≡ configured.0.initialized_slaves)
configured_turns_complete_example =
    configured_turns_complete accepts ops scan two_slaves driver configured.0 3 0 calls refl refl
      refl configured.1 two_slaves-InOrder (tt, (tt, (λ k. refl, (tt, tt))))

-- Two modules with two bytes of outputs and one of inputs each.
abbrev station_at : ℕ → ℕ → ℕ → Station ℕ
station_at position outputs inputs = record {
  module_of = record {
    position_ec_bus = position;
    rx_pdo = record { offset = outputs; size = 2 };
    tx_pdo = record { offset = inputs; size = 1 };
    state = 0;
  };
  mbx_send_queue = [];
  mbx_receive_queue = [];
}

abbrev access : SlaveDataAccess
access = record {
  s_mbx = 0 ∷ [];
  r_mbx = 0 ∷ [];
  send_mbx_request = false;
  receive_mbx = false;
  receive_mbx_raw = false;
  receive_mbx_has_unread = false;
}

abbrev exchange : Exchange ℕ ℕ
exchange = record {
  stations = (codes "a", station_at 2 2 1) ∷ (codes "b", station_at 1 0 0) ∷ [];
  initialized_slaves = codes "a" ∷ codes "b" ∷ [];
  slaves_data_access = access ∷ access ∷ [];
  rx_pdo_working = 1 ∷ 2 ∷ 3 ∷ 4 ∷ [];
  tx_pdo_working = 7 ∷ 8 ∷ [];
  values = 0;
}

exchange-Whole : Whole 2 4 2 3 exchange
unfolding lookup text_eq
exchange-Whole = (
  (
    (station_at 2 2 1, refl, (omega arith, omega arith, inr (omega arith), inr (omega arith))),
    (
      (station_at 1 0 0, refl, (omega arith, omega arith, inr (omega arith), inr (omega arith))),
      tt,
    ),
  ),
  refl,
  refl,
  refl,
  (omega arith, (omega arith, tt)),
)

a_there : lookup (codes "a") exchange.stations ≡ some (station_at 2 2 1)
unfolding lookup text_eq
a_there = refl

b-Away :
    Away
      (station_at 2 2 1).module_of.rx_pdo
      (station_at 2 2 1).module_of.tx_pdo
      exchange.stations
      (codes "b")
unfolding lookup text_eq
b-Away = (_, _, refl, inr (inr (omega arith)), inr (inr (omega arith)))

write-Owns_example :
    (e' : Exchange ℕ ℕ) × (write ops exchange ≡ some e')
    × Owns ops [] (codes "a") (station_at 2 2 1) exchange e'
unfolding text_eq
write-Owns_example =
    write-Owns 2 4 2 3 ops [] (codes "b" ∷ []) (codes "a") exchange (station_at 2 2 1) refl
      exchange-Whole a_there tt (b-Away, tt) tt (refl, tt)
