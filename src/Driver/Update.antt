-- ===== src/Driver/Update.antt =====
-- SOEMDriver::read and write (soem_driver.cpp) over all initialized slaves, between cycles of the master.
-- What a module does in its read() and write() is a parameter, and so are the transmissions; modules are
-- kept by their names, as in Driver/Configure.antt.
pub mod Spans
pub mod Apart
pub mod Still
pub mod Own
pub mod Slaves
pub mod Complete
pub mod Laid
pub mod Configured
mod Tests
use soem_driver_ros.Base.{
  ◌>>=◌, ℕ, zero, suc, ◌+◌, ◌≤◌, ltb, leb, ◌==◌, Bool, true, false, if◌then◌else◌, List, [], ◌∷◌,
  ◌++◌, map, Option, none, some, length, take, drop, replicate, get_elem?, set, Text, Dict, lookup,
  assign,
}
use soem_driver_ros.Trinamic.Pdo.{copy_min}
use soem_driver_ros.Master.Mailboxes.{SlaveDataAccess, MbxAnswer, handle_mailboxes}
use soem_driver_ros.Master.Setup.{Span, DataAccess}
use soem_driver_ros.Driver.Configure.{Module, SoemDriver}
use soem_driver_ros.Driver.Mailboxes.{
  Mail, Link, WriteStage, outside, fetch_mailbox, start_message, store_flag,
}
pub use soem_driver_ros.Driver.Views.{Station, View}
unfoldable pub use soem_driver_ros.Driver.Views.{
  has_room, mbx_enqueue_send, call_each, mbx_consume_incoming, part, put_part, entry, set_entry,
}

-- What read() and write() reach.
pub record Exchange (S V : Type 0) : Type 0 where
  pub stations : Dict (Station S)
  pub initialized_slaves : List Text
  pub slaves_data_access : List SlaveDataAccess
  pub rx_pdo_working : List ℕ
  pub tx_pdo_working : List ℕ
  pub values : V

-- The virtual methods read and write of the modules, and for each pair of transmissions actuator_to_joint
-- of the one for states and joint_to_actuator of the one for commands; none of their pointers is null.
pub record UpdateOps (S V : Type 0) : Type 0 where
  pub read : View S V → View S V
  pub write : View S V → View S V
  pub transmissions : List ((V → V) × (V → V))

abbrev pub link_of : {S : Type 0} → Station S → SlaveDataAccess → Link
link_of station access = record {
  access = access;
  mbx_send_queue = station.mbx_send_queue;
  mbx_receive_queue = station.mbx_receive_queue;
  stage = outside;
}

unfoldable pub fetch_mail : Link → Link
unfolding fetch_mailbox
fetch_mail l = fetch_mailbox (has_room l.mbx_receive_queue) l

-- The function given to consume_one, to its end.
unfoldable pub send_mail : Link → Link
unfolding start_message store_flag
send_mail l0 =
    let l1 = start_message l0 in
    let l2 = store_flag l1.stage l1 in let l3 = store_flag l2.stage l2 in store_flag l3.stage l3

module _ {S V : Type 0} where
  unfoldable pub put_link : Text → Station S → Link → Exchange S V → Exchange S V
  put_link name station l e = record e {
    stations =
        assign name
          (record station {
            mbx_send_queue = l.mbx_send_queue;
            mbx_receive_queue = l.mbx_receive_queue;
          })
          e.stations;
    slaves_data_access = set_entry station.module_of.position_ec_bus l.access e.slaves_data_access;
  }

  -- What is done with the mailbox of a slave.
  unfoldable pub on_link : (Link → Link) → Text → Exchange S V → Option (Exchange S V)
  unfolding put_link
  on_link f name e = do
    station ← lookup name e.stations
    access ← entry station.module_of.position_ec_bus e.slaves_data_access
    some (put_link name station (f (link_of station access)) e)

  abbrev pub view_of : Station S → List ℕ → List ℕ → V → View S V
  view_of station rx tx values = record {
    rx_pdo = rx;
    tx_pdo = tx;
    mbx_send_queue = station.mbx_send_queue;
    mbx_receive_queue = station.mbx_receive_queue;
    state = station.module_of.state;
    values = values;
  }

  -- What a module leaves.
  unfoldable pub put_view : Text → Station S → View S V → Exchange S V → Exchange S V
  unfolding put_part
  put_view name station v e = record e {
    stations =
        assign name
          (record station {
            module_of = record station.module_of { state = v.state };
            mbx_send_queue = v.mbx_send_queue;
            mbx_receive_queue = v.mbx_receive_queue;
          })
          e.stations;
    rx_pdo_working = put_part station.module_of.rx_pdo v.rx_pdo e.rx_pdo_working;
    tx_pdo_working = put_part station.module_of.tx_pdo v.tx_pdo e.tx_pdo_working;
    values = v.values;
  }

  unfoldable pub call_module : (View S V → View S V) → Text → Exchange S V → Option (Exchange S V)
  unfolding part put_view
  call_module f name e = do
    station ← lookup name e.stations
    rx ← part station.module_of.rx_pdo e.rx_pdo_working
    tx ← part station.module_of.tx_pdo e.tx_pdo_working
    some (put_view name station (f (view_of station rx tx e.values)) e)

-- A loop over initialized_slaves.
unfoldable pub for_each_slave :
    {S V : Type 0}
    → (Text → Exchange S V → Option (Exchange S V))
    → List Text
    → Exchange S V
    → Option (Exchange S V)
for_each_slave body [] e = some e
for_each_slave body (name ∷ names) e = do e' ← body name e; for_each_slave body names e'

-- A loop over functions.
unfoldable pub apply_each : {A : Type 0} → List (A → A) → A → A
apply_each [] a = a
apply_each (f ∷ fs) a = apply_each fs (f a)

-- What transfer_TxPDO does to the working buffer.
unfoldable pub transfer_tx_pdo : {S V : Type 0} → Option (List ℕ) → Exchange S V → Exchange S V
unfolding copy_min
transfer_tx_pdo none e = e
transfer_tx_pdo (some inputs) e = record e { tx_pdo_working = copy_min inputs e.tx_pdo_working }

module _ {S V : Type 0} (ops : UpdateOps S V) where
  -- The bodies of the loops.
  unfoldable pub read_slave : Text → Exchange S V → Option (Exchange S V)
  unfolding on_link call_module fetch_mail
  read_slave name e = do e' ← on_link fetch_mail name e; call_module ops.read name e'

  unfoldable pub write_slave : Text → Exchange S V → Option (Exchange S V)
  unfolding on_link call_module send_mail
  write_slave name e = do e' ← call_module ops.write name e; on_link send_mail name e'

  -- read(), with the inputs that transfer_TxPDO brings, or none if the cyclic task does not run.
  unfoldable pub read : Option (List ℕ) → Exchange S V → Option (Exchange S V)
  unfolding read_slave for_each_slave transfer_tx_pdo apply_each
  read inputs e0 = do
    let e1 = transfer_tx_pdo inputs e0
    e2 ← for_each_slave read_slave e1.initialized_slaves e1
    some (record e2 { values = apply_each (map (λ t. t.0) ops.transmissions) e2.values })

  -- write(), up to transfer_RxPDO, which leaves these.
  unfoldable pub write : Exchange S V → Option (Exchange S V)
  unfolding write_slave for_each_slave apply_each
  write e0 =
      let e1 = record e0 { values = apply_each (map (λ t. t.1) ops.transmissions) e0.values } in
      for_each_slave write_slave e1.initialized_slaves e1

-- The calls, and the part of a cycle of the master that handles the mailboxes.
pub data Turn : Type 0 where
  read_call : Option (List ℕ) → Turn
  write_call : Turn
  master_cycle : (ℕ → MbxAnswer) → Turn

module _ {S V : Type 0} (ops : UpdateOps S V) where
  unfoldable pub turn : Turn → Exchange S V → Option (Exchange S V)
  unfolding read write handle_mailboxes
  turn (read_call inputs) e = read ops inputs e
  turn write_call e = write ops e
  turn (master_cycle answers) e = do
    accesses ← handle_mailboxes answers 1 e.slaves_data_access
    some (record e { slaves_data_access = accesses })

  unfoldable pub turns : List Turn → Exchange S V → Option (Exchange S V)
  unfolding turn
  turns [] e = some e
  turns (t ∷ ts) e = do e' ← turn t e; turns ts e'

-- An entry as its constructor and start_bus leave it.
unfoldable pub to_access : DataAccess → SlaveDataAccess
to_access da = record {
  s_mbx = replicate da.s_mbx_size 0;
  r_mbx = replicate da.r_mbx_size 0;
  send_mbx_request = false;
  receive_mbx = false;
  receive_mbx_raw = false;
  receive_mbx_has_unread = false;
}

abbrev pub to_station : {S : Type 0} → Text × Module S → Text × Station S
to_station (name, m) = (name, record { module_of = m; mbx_send_queue = []; mbx_receive_queue = [] })

-- What a configured driver starts with.
unfoldable pub exchange_of : {S V : Type 0} → SoemDriver S → V → Exchange S V
unfolding to_access
exchange_of d values = record {
  stations = map to_station d.slaves;
  initialized_slaves = d.initialized_slaves;
  slaves_data_access = map to_access d.master.slaves_data_access;
  rx_pdo_working = d.master.rx_pdo_working;
  tx_pdo_working = d.master.tx_pdo_working;
  values = values;
}
