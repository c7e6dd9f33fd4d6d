-- ===== src/Master/Setup.antt =====
-- SOEMMaster::init, start_bus and bus_down_SAFE_OP (soem_master.cpp): the list of the slaves on the bus
-- and the buffers that the driver uses for each. What SOEM reports is an argument.
pub mod Positions
use soem_driver_ros.Base.{
  ◌>>=◌, ℕ, zero, suc, ◌+◌, ◌-◌, ◌%◌, ◌^◌, Bool, true, false, if◌then◌else◌, List, [], ◌∷◌, ◌++◌,
  Option, none, some, length, take, replicate, Text,
}
use soem_driver_ros.Master.Cycle.{
  MasterState, MasterStatus, uninitialized, initialized, starting, push_status, copy_all,
}
use soem_driver_ros.Master.Bus.{BusUp, returns, throws, pdo_size}

-- SOEMEcSlaveInfo
pub record EcSlaveInfo : Type 0 where
  pub vendor_id : ℕ
  pub product_code : ℕ
  pub revision_number : ℕ
  pub position : ℕ
  pub alias : ℕ
  pub name : Text
  pub rx_pdo_size : ℕ
  pub tx_pdo_size : ℕ

-- A part of a buffer that does not own it.
pub record Span : Type 0 where
  pub offset : ℕ
  pub size : ℕ

-- SOEMEcSlaveDataAccess, as far as it does not change: its slave, the parts of RxPDO_working and
-- TxPDO_working, and the sizes of the mailboxes at its slave's position.
pub record DataAccess : Type 0 where
  pub slave_info : EcSlaveInfo
  pub rx_pdo : Span
  pub tx_pdo : Span
  pub s_mbx_size : ℕ
  pub r_mbx_size : ℕ

-- The fields of SOEMMaster that are set up before the cyclic task runs.
pub record Bus : Type 0 where
  pub slaves : List EcSlaveInfo
  pub slaves_data_access : List DataAccess
  pub rx_pdo_working : List ℕ
  pub tx_pdo_working : List ℕ
  pub s_mbx_working : List (List ℕ)
  pub r_mbx_working : List (List ℕ)
  pub is_init : Bool
  pub cyclic_master_running : Bool
  pub status : MasterStatus
  pub status_queue : Option MasterStatus

-- What the constructor of SOEMMaster sets.
abbrev pub constructed : Bus
constructed = record {
  slaves = [];
  slaves_data_access = [];
  rx_pdo_working = [];
  tx_pdo_working = [];
  s_mbx_working = [];
  r_mbx_working = [];
  is_init = false;
  cyclic_master_running = false;
  status = record {
    error_count = 0;
    rx_error_count = 0;
    tx_error_count = 0;
    rx_error_count_consecutive = 0;
    tx_error_count_consecutive = 0;
    other_ec_error_count_consecutive = 0;
    missed_cycle_deadline_count = 0;
    cycle_count = 0;
    state = uninitialized;
  };
  status_queue = none;
}

-- What SOEM finds for one slave.
pub record FoundSlave : Type 0 where
  pub eep_man : ℕ
  pub eep_id : ℕ
  pub eep_rev : ℕ
  pub aliasadr : ℕ
  pub name : Text
  pub obits : ℕ
  pub ibits : ℕ

-- The results of ecx_init and of the test of ecx_config_init, and the slaves from index 1 on.
pub record Scan : Type 0 where
  pub opened : Bool
  pub discovered : Bool
  pub found : List FoundSlave

-- What SOEM maps for one slave: addresses and sizes.
pub record MappedSlave : Type 0 where
  pub outputs : ℕ
  pub obytes : ℕ
  pub inputs : ℕ
  pub ibytes : ℕ
  pub mbx_l : ℕ
  pub mbx_rl : ℕ

-- What SOEM maps: the addresses and the contents of the process data, the slaves by their index, and
-- whether all of them are in SAFE_OP at the end.
pub record Mapping : Type 0 where
  pub outputs_at : ℕ
  pub outputs : List ℕ
  pub inputs_at : ℕ
  pub inputs : List ℕ
  pub slavelist : ℕ → MappedSlave
  pub safe_op : Bool

-- status.state = ...; status_queue.push(status), unless the cyclic task runs.
unfoldable pub report : MasterState → Bus → Bus
report state b =
    if b.cyclic_master_running
    then b
    else (let s = record b.status { state = state } in
        record b { status = s; status_queue = push_status s b.status_queue })

unfoldable pub to_slave_info : ℕ → FoundSlave → EcSlaveInfo
unfolding pdo_size
to_slave_info slave_idx s = record {
  vendor_id = s.eep_man;
  product_code = s.eep_id;
  revision_number = s.eep_rev;
  position = slave_idx;
  alias = s.aliasadr;
  name = s.name;
  rx_pdo_size = pdo_size s.obits;
  tx_pdo_size = pdo_size s.ibits;
}

-- The slaves from an index on.
unfoldable pub slave_infos_from : ℕ → List FoundSlave → List EcSlaveInfo
unfolding to_slave_info
slave_infos_from slave_idx [] = []
slave_infos_from slave_idx (s ∷ found) =
    to_slave_info slave_idx s ∷ slave_infos_from (suc slave_idx) found

unfoldable pub init : Scan → Bus → BusUp × Bus
unfolding slave_infos_from report
init scan b =
    if scan.opened
    then (if scan.discovered
        then (
          returns,
          record (report initialized
              (record b { slaves = b.slaves ++ slave_infos_from 1 scan.found })) { is_init = true },
        )
        else (throws, b))
    else (throws, b)

-- resize(n, x)
unfoldable pub resize {ℓ} : {A : Type ℓ} → ℕ → A → List A → List A
resize n x xs = take n xs ++ replicate (n - length xs) x

-- The buffer of a position, which counts from 1, is resized; `none` is an access behind the vector.
unfoldable pub resize_at : ℕ → ℕ → List (List ℕ) → Option (List (List ℕ))
unfolding resize
resize_at zero n xs = none
resize_at (suc i) n [] = none
resize_at (suc zero) n (x ∷ xs) = some (resize n 0 x ∷ xs)
resize_at (suc (suc i)) n (x ∷ xs) = elim (resize_at (suc i) n xs) [
  | none ↦ none
  | some ys ↦ some (x ∷ ys)
]

-- The difference of two addresses as a size_t.
abbrev pub pointer_offset : ℕ → ℕ → ℕ
pointer_offset p base = (p + (2 ^ 64 - base)) % 2 ^ 64

unfoldable pub get_rx_pdo : Mapping → EcSlaveInfo → Span
get_rx_pdo a slave = record {
  offset = pointer_offset (a.slavelist slave.position).outputs a.outputs_at;
  size = (a.slavelist slave.position).obytes;
}

unfoldable pub get_tx_pdo : Mapping → EcSlaveInfo → Span
get_tx_pdo a slave = record {
  offset = pointer_offset (a.slavelist slave.position).inputs a.inputs_at;
  size = (a.slavelist slave.position).ibytes;
}

unfoldable pub data_access : Mapping → EcSlaveInfo → DataAccess
unfolding get_rx_pdo get_tx_pdo
data_access a slave = record {
  slave_info = slave;
  rx_pdo = get_rx_pdo a slave;
  tx_pdo = get_tx_pdo a slave;
  s_mbx_size = (a.slavelist slave.position).mbx_l;
  r_mbx_size = (a.slavelist slave.position).mbx_rl;
}

-- The loop over the slaves.
unfoldable pub setup_slaves : Mapping → List EcSlaveInfo → Bus → Option Bus
unfolding resize_at data_access
setup_slaves a [] b = some b
setup_slaves a (slave ∷ slaves) b = do
  s_mbx ← resize_at slave.position (a.slavelist slave.position).mbx_l b.s_mbx_working
  r_mbx ← resize_at slave.position (a.slavelist slave.position).mbx_rl b.r_mbx_working
  setup_slaves a slaves (record b {
    s_mbx_working = s_mbx;
    r_mbx_working = r_mbx;
    slaves_data_access = b.slaves_data_access ++ data_access a slave ∷ [];
  })

-- The buffers before that loop.
unfoldable pub setup_buffers : Mapping → Bus → Bus
unfolding resize copy_all
setup_buffers a b = record b {
  rx_pdo_working = copy_all a.outputs (resize (length a.outputs) 0 b.rx_pdo_working);
  tx_pdo_working = copy_all a.inputs (resize (length a.inputs) 0 b.tx_pdo_working);
  s_mbx_working = resize (length b.slaves) [] b.s_mbx_working;
  r_mbx_working = resize (length b.slaves) [] b.r_mbx_working;
}

-- The check at the end.
unfoldable pub check_safe_op : Bool → Bus → BusUp × Bus
unfolding report
check_safe_op true b = (returns, b)
check_safe_op false b = (throws, report MasterState.error b)

unfoldable pub start_bus : Mapping → Bus → Option (BusUp × Bus)
unfolding setup_slaves setup_buffers check_safe_op report
start_bus a b = do
  b' ← setup_slaves a b.slaves (setup_buffers a (report starting b))
  some (check_safe_op a.safe_op b')
