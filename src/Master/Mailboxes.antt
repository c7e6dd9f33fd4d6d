-- ===== src/Master/Mailboxes.antt =====
-- The mailbox of a slave in cyclic_task (soem_master.cpp).
use soem_driver_ros.Base.{
  ◌>>=◌, ℕ, suc, Bool, true, false, not, ◌&&◌, leb, if◌then◌else◌, List, [], ◌∷◌, Option, none,
  some, length, take, replicate,
}
use soem_driver_ros.Trinamic.Pdo.{copy_min}

-- SOEMEcSlaveDataAccess: the buffers and flags that the cyclic task shares with the driver.
pub record SlaveDataAccess : Type 0 where
  pub s_mbx : List ℕ
  pub r_mbx : List ℕ
  pub send_mbx_request : Bool
  pub receive_mbx : Bool
  pub receive_mbx_raw : Bool
  pub receive_mbx_has_unread : Bool

-- The result of ecx_mbxreceive: below, at or above 0.
pub data Wkc : Type 0 where
  negative none_received positive : Wkc

-- What SOEM answers about one mailbox: 0 < ecx_mbxsend(...), the result of ecx_mbxreceive, and the
-- content of EC_RMbx behind it.
pub record MbxAnswer : Type 0 where
  pub accepted : Bool
  pub wkc : Wkc
  pub content : List ℕ

-- The test of the received mailbox.
abbrev pub is_received : Bool → Wkc → Bool
is_received raw positive = true
is_received raw none_received = raw
is_received raw negative = false

-- What goes out: the buffer of the slave, copied to a cleared buffer of a given size.
unfoldable pub outgoing : ℕ → SlaveDataAccess → List ℕ
unfolding copy_min
outgoing size s = copy_min s.s_mbx (replicate size 0)

unfoldable pub send_mailbox : MbxAnswer → SlaveDataAccess → SlaveDataAccess
send_mailbox a s =
    if s.send_mbx_request
    then (if a.accepted then record s { send_mbx_request = false } else s)
    else s

-- std::copy_n(RMbx.begin(), slave_da.RMbx.size(), ...); `none` is the read behind the end of RMbx.
unfoldable pub receive_mailbox : MbxAnswer → SlaveDataAccess → Option SlaveDataAccess
receive_mailbox a s =
    if s.receive_mbx && not s.receive_mbx_has_unread
    then (if is_received s.receive_mbx_raw a.wkc
        then (if leb (length s.r_mbx) (length a.content)
            then some (record s {
              r_mbx = take (length s.r_mbx) a.content;
              receive_mbx_has_unread = true;
              receive_mbx = false;
            })
            else none)
        else some s)
    else some s

-- The body of the loop over the slaves.
unfoldable pub handle_mailbox : MbxAnswer → SlaveDataAccess → Option SlaveDataAccess
unfolding send_mailbox receive_mailbox
handle_mailbox a s = receive_mailbox a (send_mailbox a s)

-- The loop, with the answers about the slave at each position.
unfoldable pub handle_mailboxes :
    (ℕ → MbxAnswer) → ℕ → List SlaveDataAccess → Option (List SlaveDataAccess)
unfolding handle_mailbox
handle_mailboxes answers position [] = some []
handle_mailboxes answers position (s ∷ slaves) = do
  s' ← handle_mailbox (answers position) s
  rest ← handle_mailboxes answers (suc position) slaves
  some (s' ∷ rest)
