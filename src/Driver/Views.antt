-- ===== src/Driver/Views.antt =====
-- What a slave module can reach in SOEMDriver::read and write, with the queues and the two methods that
-- use them (soem_driver_slave.hpp), and the parts of the process data at its spans.
use soem_driver_ros.Base.{
  ℕ, zero, suc, ◌+◌, ltb, leb, ◌==◌, Bool, true, false, if◌then◌else◌, List, [], ◌∷◌, ◌++◌, Option,
  none, some, length, take, drop, get_elem?, set,
}
use soem_driver_ros.Trinamic.Pdo.{copy_min}
use soem_driver_ros.Master.Mailboxes.{SlaveDataAccess}
use soem_driver_ros.Master.Setup.{Span}
use soem_driver_ros.Driver.Configure.{Module}
use soem_driver_ros.Driver.Mailboxes.{Mail}

-- A module with its queues.
pub record Station (S : Type 0) : Type 0 where
  pub module_of : Module S
  pub mbx_send_queue : List Mail
  pub mbx_receive_queue : List (List ℕ)

-- What a module can reach in read() and write(): its buffers, queues and state, and the values of the
-- interfaces.
pub record View (S V : Type 0) : Type 0 where
  pub rx_pdo : List ℕ
  pub tx_pdo : List ℕ
  pub mbx_send_queue : List Mail
  pub mbx_receive_queue : List (List ℕ)
  pub state : S
  pub values : V

-- boost::lockfree::spsc_queue({8}): push succeeds if the queue holds less.
abbrev pub has_room {ℓ} : {A : Type ℓ} → List A → Bool
has_room queue = ltb (length queue) 8

-- The methods by which a module uses its queues in read() and write(). The callback is called for each
-- message in their order, and the result of the second is their number.
unfoldable pub mbx_enqueue_send : {S V : Type 0} → List ℕ → Bool → Bool → View S V → Bool × View S V
mbx_enqueue_send msg read_response read_mbx_raw v =
    if has_room v.mbx_send_queue
    then (
      true,
      record v {
        mbx_send_queue =
            v.mbx_send_queue
            ++ record { content = msg; read_response = read_response; read_mbx_raw = read_mbx_raw }
              ∷ [];
      },
    )
    else (false, v)

unfoldable pub call_each :
    {S V : Type 0} → (List ℕ → View S V → View S V) → List (List ℕ) → View S V → View S V
call_each callback [] v = v
call_each callback (msg ∷ msgs) v = call_each callback msgs (callback msg v)

unfoldable pub mbx_consume_incoming :
    {S V : Type 0} → (List ℕ → View S V → View S V) → View S V → ℕ × View S V
unfolding call_each
mbx_consume_incoming callback v = (
  length v.mbx_receive_queue,
  call_each callback v.mbx_receive_queue (record v { mbx_receive_queue = [] }),
)

-- The part of a buffer at a span, which an empty one does not touch; `none` is a span that ends behind
-- the buffer.
unfoldable pub part : Span → List ℕ → Option (List ℕ)
part s xs =
    if s.size == 0
    then some []
    else (if leb (s.offset + s.size) (length xs)
        then some (take s.size (drop s.offset xs))
        else none)

-- The buffer with the bytes at a span replaced, as many as the span has.
unfoldable pub put_part : Span → List ℕ → List ℕ → List ℕ
unfolding copy_min
put_part s bytes xs =
    take s.offset xs
    ++ (copy_min bytes (take s.size (drop s.offset xs)) ++ drop (s.offset + s.size) xs)

-- slaves_data_access[position - 1]; `none` is an access out of its range.
abbrev pub entry : ℕ → List SlaveDataAccess → Option SlaveDataAccess
entry zero accesses = none
entry (suc p) accesses = get_elem? accesses p

abbrev pub set_entry : ℕ → SlaveDataAccess → List SlaveDataAccess → List SlaveDataAccess
set_entry zero a accesses = accesses
set_entry (suc p) a accesses = set accesses p a
