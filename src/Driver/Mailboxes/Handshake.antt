-- ===== src/Driver/Mailboxes/Handshake.antt =====
-- In every interleaving of the three, messages are neither lost nor doubled.
use soem_driver_ros.Base.{
  refl, All, Bool-cases, inl, inr, ◌≤◌, ℕ, ◌≡◌, ap, sym, ◌∙◌, Bool, true, not, ◌&&◌, if◌then◌else◌,
  List, [], ◌∷◌, ◌++◌, append-nil, append_assoc, or_default, none, some, arith, length, take, drop,
  min,
}
use soem_driver_ros.Trinamic.Pdo.{copy_min}
use soem_driver_ros.Master.Mailboxes.{SlaveDataAccess, is_received}
use soem_driver_ros.Master.Cycle.Counters.{bind_some}
use soem_driver_ros.Master.Cycle.Transfers.{receive_mailbox-some, send_mailbox-r_mbx}
use soem_driver_ros.Driver.Mailboxes.{
  fetch_mailbox, start_message, store_flag, WriteStage, outside, copied, raw_stored, receive_stored,
  Link, Action, fetch, start_write, store, master_send, master_receive, enqueue, consume,
  is_outside, act, act_all,
}

-- The message that the driver has not fetched.
abbrev pub unread : Link → List (List ℕ)
unread l = if l.access.receive_mbx_has_unread then l.access.r_mbx ∷ [] else []

-- The message that an action of the master receives.
abbrev pub received : Action → Link → List (List ℕ)
received (master_receive a) l =
    if l.access.receive_mbx
      && (not l.access.receive_mbx_has_unread && is_received l.access.receive_mbx_raw a.wkc)
    then take (length l.access.r_mbx) a.content ∷ []
    else []
received _ l = []

-- The messages that an action of the module consumes.
abbrev pub consumed : Action → Link → List (List ℕ)
consumed consume l = l.mbx_receive_queue
consumed _ l = []

-- What a run of actions gathers, as long as it goes on.
abbrev pub gathered : (Action → Link → List (List ℕ)) → List Action → Link → List (List ℕ)
gathered f [] l = []
gathered f (a ∷ rest) l = f a l ++ elim (act a l) [ none ↦ [] | some l' ↦ gathered f rest l' ]

-- The messages under way to the module.
abbrev pub waiting : Link → List (List ℕ)
waiting l = l.mbx_receive_queue ++ unread l

act-waiting :
    (a : Action) (l l' : Link)
    → act a l ≡ some l'
    → consumed a l ++ waiting l' ≡ waiting l ++ received a l
unfolding act
act-waiting (fetch room) l l' e = ground (
  arith,
  e,
  append-nil (waiting l),
  append-nil l.mbx_receive_queue,
  append-nil (l.mbx_receive_queue ++ l.access.r_mbx ∷ []),
)
act-waiting start_write l l' e = ground (
  arith,
  e,
  append-nil (waiting l),
  append-nil l.mbx_receive_queue,
  append-nil (l.mbx_receive_queue ++ l.access.r_mbx ∷ []),
)
act-waiting store l l' e = ground (
  arith,
  e,
  append-nil (waiting l),
  append-nil l.mbx_receive_queue,
  append-nil (l.mbx_receive_queue ++ l.access.r_mbx ∷ []),
)
act-waiting (master_send a) l l' e = ground (
  arith,
  e,
  append-nil (waiting l),
  append-nil l.mbx_receive_queue,
  append-nil (l.mbx_receive_queue ++ l.access.r_mbx ∷ []),
)
act-waiting (master_receive a) l l' e =
    ground (arith, e, append-nil (waiting l), append-nil l.mbx_receive_queue)
act-waiting (enqueue m room) l l' e = ground (
  arith,
  e,
  append-nil (waiting l),
  append-nil l.mbx_receive_queue,
  append-nil (l.mbx_receive_queue ++ l.access.r_mbx ∷ []),
)
act-waiting consume l l' e = ground (
  arith,
  e,
  append-nil (waiting l),
  append-nil l.mbx_receive_queue,
  append-nil (l.mbx_receive_queue ++ l.access.r_mbx ∷ []),
)

-- Every message that the master received is consumed, in the queue of the module or the one that is
-- unread, once and in order, whatever the threads do in between: what was consumed, then what is under
-- way after a run of actions, is what was under way before, then what was received.
pub act_all-in_order :
    (actions : List Action) (l l' : Link)
    → act_all actions l ≡ some l'
    → gathered consumed actions l ++ waiting l' ≡ waiting l ++ gathered received actions l
unfolding act_all
act_all-in_order [] l l' e =
    ap (λ o. waiting (or_default l o)) (sym e) ∙ sym (append-nil (waiting l))
act_all-in_order (a ∷ rest) l l' e =
    let (l1, first, later) = bind_some (act a l) (act_all rest) l' e in
    let ih = act_all-in_order rest l1 l' later in
    let here = act-waiting a l l1 first in
    rw first (
      append_assoc (consumed a l) (gathered consumed rest l1) (waiting l')
      ∙ ap (◌++◌ (consumed a l)) ih
      ∙ sym (append_assoc (consumed a l) (waiting l1) (gathered received rest l1))
      ∙ ap (λ x. x ++ gathered received rest l1) here
      ∙ append_assoc (waiting l) (received a l) (gathered received rest l1))

-- The buffer under way to the slave: filled by write(), not yet sent.
abbrev pub pending : Link → List (List ℕ)
pending l =
    if is_outside l.stage
    then (if l.access.send_mbx_request then l.access.s_mbx ∷ [] else [])
    else l.access.s_mbx ∷ []

-- The flags while write() is at its stores.
abbrev pub quiet : WriteStage → SlaveDataAccess → Bool
quiet outside s = true
quiet (copied _ _) s = not s.send_mbx_request && not s.receive_mbx
quiet (raw_stored _) s = not s.send_mbx_request && not s.receive_mbx
quiet receive_stored s = not s.send_mbx_request

-- A message in a buffer: it stands at the start, as much of it as fits, and the buffer keeps its rest.
abbrev pub laid_over : List ℕ → List ℕ → List ℕ
laid_over content buffer =
    let n = min (length content) (length buffer) in take n content ++ drop n buffer

-- The message that an action takes from the queue of the module, in the buffer of the slave, and the
-- buffer of a send that SOEM accepts.
abbrev pub taken : Action → Link → List (List ℕ)
taken start_write l =
    if is_outside l.stage && (not l.access.send_mbx_request && not l.access.receive_mbx)
    then elim l.mbx_send_queue [ [] ↦ [] | m ∷ rest ↦ laid_over m.content l.access.s_mbx ∷ [] ]
    else []
taken _ l = []

abbrev pub sent : Action → Link → List (List ℕ)
sent (master_send a) l = if l.access.send_mbx_request && a.accepted then l.access.s_mbx ∷ [] else []
sent _ l = []

act-pending :
    (a : Action) (l l' : Link)
    → quiet l.stage l.access ≡ true
    → act a l ≡ some l'
    → (quiet l'.stage l'.access ≡ true) × (pending l ++ taken a l ≡ sent a l ++ pending l')
unfolding act copy_min
act-pending a l l' q e = (ground arith, ground (arith, append-nil (pending l)))

-- In every run of actions from a link with quiet flags: while write() is at its stores no send is
-- requested and, before the store to receive_mbx, no receive; and each message that is taken from the
-- queue of the module is sent once and in order, in the buffer that it was copied to, or still pending
-- there: the buffer that was pending, then those of the messages taken, are the ones that were sent,
-- then the one that is pending.
pub act_all-once :
    (actions : List Action) (l l' : Link)
    → quiet l.stage l.access ≡ true
    → act_all actions l ≡ some l'
    → (quiet l'.stage l'.access ≡ true)
      × (pending l ++ gathered taken actions l ≡ gathered sent actions l ++ pending l')
unfolding act_all
act_all-once [] l l' q e =
    let same = ap (or_default l) e in
    (ap (λ x. quiet x.stage x.access) (sym same) ∙ q, append-nil (pending l) ∙ ap pending same)
act_all-once (a ∷ rest) l l' q e =
    let (l1, first, later) = bind_some (act a l) (act_all rest) l' e in
    let (q1, here) = act-pending a l l1 q first in
    let (q', ih) = act_all-once rest l1 l' q1 later in
    (
      q',
      rw first (
          sym (append_assoc (pending l) (taken a l) (gathered taken rest l1))
          ∙ ap (λ x. x ++ gathered taken rest l1) here
          ∙ append_assoc (sent a l) (pending l1) (gathered taken rest l1)
          ∙ ap (◌++◌ (sent a l)) ih
          ∙ sym (append_assoc (sent a l) (gathered sent rest l1) (pending l'))),
    )

-- The content that an action of the master finds in the received mailbox has a size.
abbrev pub Sized : ℕ → Action → Type 0
Sized size (master_receive a) = length a.content ≡ size
Sized size _ = Unit {0}

fetch_mailbox-r_mbx :
    (room : Bool) (l : Link) → (fetch_mailbox room l).access.r_mbx ≡ l.access.r_mbx
unfolding fetch_mailbox
fetch_mailbox-r_mbx room l = ground arith

start_message-r_mbx : (l : Link) → (start_message l).access.r_mbx ≡ l.access.r_mbx
unfolding start_message
start_message-r_mbx l = ground arith

store_flag-r_mbx : (s : WriteStage) (l : Link) → (store_flag s l).access.r_mbx ≡ l.access.r_mbx
unfolding store_flag
store_flag-r_mbx s l = ground arith

act-some :
    (size : ℕ) (a : Action) (l : Link)
    → Sized size a
    → length l.access.r_mbx ≤ size
    → (l' : Link) × (act a l ≡ some l') × (length l'.access.r_mbx ≤ size)
unfolding act
act-some size (fetch room) l e h =
    (fetch_mailbox room l, refl, omega (arith, h, ap length (fetch_mailbox-r_mbx room l)))
act-some size start_write l e h = elim (Bool-cases (is_outside l.stage)) [
  | inl yes_it ↦
      (start_message l, rw yes_it refl, omega (arith, h, ap length (start_message-r_mbx l)))
  | inr no_it ↦ (l, rw no_it refl, h)
]
act-some size store l e h =
    (store_flag l.stage l, refl, omega (arith, h, ap length (store_flag-r_mbx l.stage l)))
act-some size (master_send a) l e h =
    (_, refl, omega (arith, h, ap length (send_mailbox-r_mbx a l.access)))
act-some size (master_receive a) l e h =
    let (s, done, fits) = receive_mailbox-some size a l.access e h in
    (record l { access = s }, rw done refl, fits)
act-some size (enqueue m room) l e h = elim (Bool-cases room) [
  | inl yes_it ↦ (_, refl, rw yes_it h)
  | inr no_it ↦ (_, refl, rw no_it h)
]
act-some size consume l e h = (_, refl, h)

-- Where the received mailbox has a size that the buffer of the slave does not exceed, no run of actions
-- reads behind its end.
pub act_all_complete :
    (size : ℕ) (actions : List Action) (l : Link)
    → All (Sized size) actions
    → length l.access.r_mbx ≤ size
    → (l' : Link) × (act_all actions l ≡ some l') × (length l'.access.r_mbx ≤ size)
unfolding act_all
act_all_complete size [] l e h = (l, refl, h)
act_all_complete size (a ∷ rest) l e h =
    let (l1, first, fits) = act-some size a l e.0 h in
    let (l', later, fits') = act_all_complete size rest l1 e.1 fits in (l', rw first later, fits')
