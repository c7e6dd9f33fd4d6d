-- ===== src/Master/Threads/Exclusion.antt =====
-- What holds in every interleaving.
use soem_driver_ros.Base.{
  ℕ, ◌≡◌, ◌⊎◌, ◌≢◌, inl, inr, refl, sym, Bool, Bool-cases, not, ◌&&◌, true, false, List, [], ◌∷◌,
  length, length-set, arith,
}
use soem_driver_ros.Trinamic.Pdo.Layout.{length-copy_min}
use soem_driver_ros.Master.Cycle.Transfers.{copy_whole}
use soem_driver_ros.Master.Threads.{
  rx_pdo, tx_pdo, CallerStage, outside, waiting, TaskStage, copying_rx_pdo, copied_rx_pdo,
  at_exchange, copying_tx_pdo, copied_tx_pdo, Threads, Event, caller_step, task_step, stopper_step,
  write_output, caller_goes, task_goes, stopper_goes, occur, occur_all, at_start, is_outside,
}

-- What the flags say, by where the thread of the driver stands.
abbrev CallerSound : CallerStage → Threads → Type 0
CallerSound (waiting rx_pdo) t =
    (t.tx_pdo_transfer ≡ false) × ((t.rx_pdo_transfer ≡ true) ⊎ (t.rx_pdo_iomap ≡ t.rx_pdo_working))
CallerSound (waiting tx_pdo) t = t.rx_pdo_transfer ≡ false
CallerSound _ t = (t.rx_pdo_transfer ≡ false) × (t.tx_pdo_transfer ≡ false)

-- What they say by where the task stands.
abbrev TaskSound : TaskStage → Threads → Type 0
TaskSound copying_rx_pdo t = t.rx_pdo_transfer ≡ true
TaskSound copied_rx_pdo t = (t.rx_pdo_transfer ≡ true) × (t.rx_pdo_iomap ≡ t.rx_pdo_working)
TaskSound copying_tx_pdo t = t.tx_pdo_transfer ≡ true
TaskSound copied_tx_pdo t = (t.tx_pdo_transfer ≡ true) × (t.tx_pdo_working ≡ t.tx_pdo_iomap)
TaskSound _ t = Unit

abbrev Sound : Threads → Type 0
Sound t =
    CallerSound t.caller t
    × TaskSound t.task t
    × (length t.rx_pdo_working ≡ length t.rx_pdo_iomap)
    × (length t.tx_pdo_working ≡ length t.tx_pdo_iomap)

caller_step-Sound : (t : Threads) → Sound t → Sound (caller_step t.caller t)
unfolding caller_step
caller_step-Sound t h = ground (arith, h)

stopper_step-Sound : (t : Threads) → Sound t → Sound (stopper_step t.stopper t)
unfolding stopper_step
stopper_step-Sound t h = ground (arith, h)

task_step-Sound :
    (k : TaskStage) (inputs : List ℕ) (t : Threads)
    → t.task ≡ k
    → Sound t
    → Sound (task_step k inputs t)
unfolding task_step
task_step-Sound copying_rx_pdo inputs t e h =
    ground (arith, e, h, copy_whole t.rx_pdo_working t.rx_pdo_iomap h.2)
task_step-Sound copying_tx_pdo inputs t e h =
    ground (arith, e, h, copy_whole t.tx_pdo_iomap t.tx_pdo_working (sym h.3))
task_step-Sound at_exchange inputs t e h =
    ground (arith, e, h, length-copy_min inputs t.tx_pdo_iomap)
task_step-Sound k inputs t e h = ground (arith, e, h)

occur-Sound : (e : Event) (t : Threads) → Sound t → Sound (occur e t)
unfolding occur
occur-Sound (write_output i v) t h = ground (arith, h, length-set t.rx_pdo_working i v)
occur-Sound (task_goes inputs) t h = task_step-Sound t.task inputs t refl h
occur-Sound caller_goes t h = caller_step-Sound t h
occur-Sound stopper_goes t h = stopper_step-Sound t h
occur-Sound e t h = ground (arith, h)

occur_all-Sound : (events : List Event) (t : Threads) → Sound t → Sound (occur_all events t)
unfolding occur_all
occur_all-Sound [] t h = h
occur_all-Sound (e ∷ events) t h = occur_all-Sound events (occur e t) (occur-Sound e t h)

start-Sound : (outputs inputs : List ℕ) → Sound (at_start outputs inputs)
start-Sound outputs inputs = ((refl, refl), tt, refl, refl)

-- The task reads the working buffer of the outputs and writes the one of the inputs only while the
-- thread of the driver waits in the transfer of that buffer.
abbrev pub Exclusive : Threads → Type 0
Exclusive t =
    ((t.task ≢ copying_rx_pdo) ⊎ (t.caller ≡ waiting rx_pdo))
    × ((t.task ≢ copying_tx_pdo) ⊎ (t.caller ≡ waiting tx_pdo))

Sound-Exclusive :
    (k : TaskStage) (c : CallerStage) (t : Threads)
    → t.task ≡ k
    → t.caller ≡ c
    → Sound t
    → Exclusive t
Sound-Exclusive copying_rx_pdo (waiting rx_pdo) t e f h = (inr f, inl (λ p. cc))
Sound-Exclusive copying_tx_pdo (waiting tx_pdo) t e f h = (inl (λ p. cc), inr f)
Sound-Exclusive k c t e f h = ground (arith, e, f, h)

-- In every interleaving of the thread of the driver, the cyclic task, and run() and stop(), the task
-- copies a working buffer only while the thread of the driver waits in the transfer of that buffer.
pub occur_all-Exclusive :
    (events : List Event) (outputs inputs : List ℕ)
    → Exclusive (occur_all events (at_start outputs inputs))
occur_all-Exclusive events outputs inputs =
    Sound-Exclusive _ _ (occur_all events (at_start outputs inputs)) refl refl
      (occur_all-Sound events (at_start outputs inputs) (start-Sound outputs inputs))

caller_goes-delivered :
    (t : Threads)
    → Sound t
    → t.caller ≡ waiting rx_pdo
    → (caller_step t.caller t).caller ≡ outside
    → (caller_step t.caller t).rx_pdo_iomap ≡ (caller_step t.caller t).rx_pdo_working
unfolding caller_step
caller_goes-delivered t h c d = ground (arith, h, c, d)

caller-task_step :
    (k : TaskStage) (inputs : List ℕ) (t : Threads) → (task_step k inputs t).caller ≡ t.caller
unfolding task_step
caller-task_step k inputs t = ground arith

caller-stopper_step : (t : Threads) → (stopper_step t.stopper t).caller ≡ t.caller
unfolding stopper_step
caller-stopper_step t = ground arith

occur-delivered :
    (e : Event) (t : Threads)
    → Sound t
    → t.caller ≡ waiting rx_pdo
    → (occur e t).caller ≡ outside
    → (occur e t).rx_pdo_iomap ≡ (occur e t).rx_pdo_working
unfolding occur
occur-delivered caller_goes t h c d = caller_goes-delivered t h c d
occur-delivered (task_goes inputs) t h c d =
    absurd (ground (arith, c, d, caller-task_step t.task inputs t))
occur-delivered stopper_goes t h c d = absurd (ground (arith, c, d, caller-stopper_step t))
occur-delivered e t h c d = absurd (ground (arith, c, d))

task_goes-fresh :
    (k : TaskStage) (inputs : List ℕ) (t : Threads)
    → t.task ≡ k
    → Sound t
    → t.tx_pdo_transfer ≡ true
    → (task_step k inputs t).tx_pdo_transfer ≡ false
    → (task_step k inputs t).tx_pdo_working ≡ (task_step k inputs t).tx_pdo_iomap
unfolding task_step
task_goes-fresh k inputs t e h c d = ground (arith, e, h, c, d)

occur-fresh :
    (e : Event) (t : Threads)
    → Sound t
    → t.tx_pdo_transfer ≡ true
    → (occur e t).tx_pdo_transfer ≡ false
    → (occur e t).tx_pdo_working ≡ (occur e t).tx_pdo_iomap
unfolding occur
occur-fresh (task_goes inputs) t h c d = task_goes-fresh t.task inputs t refl h c d
occur-fresh e t h c d = absurd (ground (arith, c, d))

and-left : (a b : Bool) → (a && b) ≡ true → a ≡ true
and-left a b e = ground (arith, e)

and-right : (a b : Bool) → (a && b) ≡ true → b ≡ true
and-right a b e = ground (arith, e)

not-true : (b : Bool) → not b ≡ true → b ≡ false
not-true b e = ground (arith, e)

abbrev pub waits_rx_pdo : CallerStage → Bool
waits_rx_pdo (waiting rx_pdo) = true
waits_rx_pdo _ = false

waits_rx_pdo_iff : (c : CallerStage) → waits_rx_pdo c ≡ true → c ≡ waiting rx_pdo
waits_rx_pdo_iff c e = ground (arith, e)

is_outside_iff : (c : CallerStage) → is_outside c ≡ true → c ≡ outside
is_outside_iff c e = ground (arith, e)

-- An event that ends the wait of transfer_RxPDO, and one that answers the request of transfer_TxPDO.
abbrev pub sends : Event → Threads → Bool
sends e t = waits_rx_pdo t.caller && is_outside (occur e t).caller

abbrev pub answers : Event → Threads → Bool
answers e t = t.tx_pdo_transfer && not (occur e t).tx_pdo_transfer

abbrev pub Delivered : Event → Threads → Type 0
Delivered e t =
    ((sends e t ≡ false) ⊎ ((occur e t).rx_pdo_iomap ≡ (occur e t).rx_pdo_working))
    × ((answers e t ≡ false) ⊎ ((occur e t).tx_pdo_working ≡ (occur e t).tx_pdo_iomap))

Sound-Delivered : (e : Event) (t : Threads) → Sound t → Delivered e t
Sound-Delivered e t h = (
  elim (Bool-cases (sends e t)) [
    | inl ends ↦ inr (
        occur-delivered e t h (waits_rx_pdo_iff _ (and-left _ _ ends))
          (is_outside_iff _ (and-right _ _ ends)))
    | inr no_end ↦ inl no_end
  ],
  elim (Bool-cases (answers e t)) [
    | inl ends ↦ inr (occur-fresh e t h (and-left _ _ ends) (not-true _ (and-right _ _ ends)))
    | inr no_end ↦ inl no_end
  ],
)

-- In every interleaving, an event that takes the thread of the driver out of the wait of transfer_RxPDO
-- leaves the working buffer of the outputs in the map that goes to the bus, and one that answers the
-- request of transfer_TxPDO leaves the inputs of the last exchange in the working buffer of the inputs.
pub occur_all-Delivered :
    (events : List Event) (e : Event) (outputs inputs : List ℕ)
    → Delivered e (occur_all events (at_start outputs inputs))
occur_all-Delivered events e outputs inputs =
    Sound-Delivered e _
      (occur_all-Sound events (at_start outputs inputs) (start-Sound outputs inputs))
