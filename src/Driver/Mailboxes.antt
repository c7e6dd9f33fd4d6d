-- ===== src/Driver/Mailboxes.antt =====
-- The mailbox of one slave between its module, SOEMDriver::read and write (soem_driver.cpp) and the
-- cyclic task, which runs in another thread: a sequence of actions of the three. Each store to a flag
-- by write is an action of its own.
pub mod Handshake
use soem_driver_ros.Base.{
  ℕ, Bool, true, false, not, ◌&&◌, if◌then◌else◌, ◌>>=◌, List, [], ◌∷◌, ◌++◌, Option, none, some,
}
use soem_driver_ros.Trinamic.Pdo.{copy_min}
use soem_driver_ros.Master.Mailboxes.{SlaveDataAccess, MbxAnswer, send_mailbox, receive_mailbox}

-- An element of mbx_send_queue.
pub record Mail : Type 0 where
  pub content : List ℕ
  pub read_response : Bool
  pub read_mbx_raw : Bool

-- Where write() stands: outside of the function given to consume_one, or before its first, second or
-- third store, with what it stores.
pub data WriteStage : Type 0 where
  outside : WriteStage
  copied : Bool → Bool → WriteStage
  raw_stored : Bool → WriteStage
  receive_stored : WriteStage

pub record Link : Type 0 where
  pub access : SlaveDataAccess
  pub mbx_send_queue : List Mail
  pub mbx_receive_queue : List (List ℕ)
  pub stage : WriteStage

-- `fetch` is the part of read() for the mailbox, with the result of push; `start_write` and `store` are
-- write(); `master_send` and `master_receive` are the cyclic task; `enqueue`, with the result of push,
-- and `consume` are the module.
pub data Action : Type 0 where
  fetch : Bool → Action
  start_write store : Action
  master_send master_receive : MbxAnswer → Action
  enqueue : Mail → Bool → Action
  consume : Action

unfoldable pub fetch_mailbox : Bool → Link → Link
fetch_mailbox room l =
    if l.access.receive_mbx_has_unread && room
    then record l {
      mbx_receive_queue = l.mbx_receive_queue ++ l.access.r_mbx ∷ [];
      access = record l.access { receive_mbx_has_unread = false };
    }
    else l

-- The function that consume_one calls, up to its stores.
unfoldable pub take_message : Mail → List Mail → Link → Link
unfolding copy_min
take_message m rest l = record l {
  mbx_send_queue = rest;
  access = record l.access { s_mbx = copy_min m.content l.access.s_mbx };
  stage = copied m.read_response m.read_mbx_raw;
}

unfoldable pub start_message : Link → Link
unfolding take_message
start_message l =
    if not l.access.send_mbx_request && not l.access.receive_mbx
    then elim l.mbx_send_queue [ [] ↦ l | m ∷ rest ↦ take_message m rest l ]
    else l

unfoldable pub store_flag : WriteStage → Link → Link
store_flag outside l = l
store_flag (copied read_response read_mbx_raw) l = record l {
  access = record l.access { receive_mbx_raw = read_mbx_raw };
  stage = raw_stored read_response;
}
store_flag (raw_stored read_response) l = record l {
  access = record l.access { receive_mbx = read_response };
  stage = receive_stored;
}
store_flag receive_stored l = record l {
  access = record l.access { send_mbx_request = true };
  stage = outside;
}

abbrev pub is_outside : WriteStage → Bool
is_outside outside = true
is_outside _ = false

-- `none` is the read behind the end of the received mailbox.
unfoldable pub act : Action → Link → Option Link
unfolding fetch_mailbox start_message store_flag send_mailbox receive_mailbox
act (fetch room) l = some (fetch_mailbox room l)
act start_write l = some (if is_outside l.stage then start_message l else l)
act store l = some (store_flag l.stage l)
act (master_send a) l = some (record l { access = send_mailbox a l.access })
act (master_receive a) l = receive_mailbox a l.access >>= λ s. some (record l { access = s })
act (enqueue m room) l =
    some (if room then record l { mbx_send_queue = l.mbx_send_queue ++ m ∷ [] } else l)
act consume l = some (record l { mbx_receive_queue = [] })

unfoldable pub act_all : List Action → Link → Option Link
unfolding act
act_all [] l = some l
act_all (a ∷ rest) l = act a l >>= act_all rest
