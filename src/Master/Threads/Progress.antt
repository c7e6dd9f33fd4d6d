-- ===== src/Master/Threads/Progress.antt =====
-- Transfers return, as long as the task goes on; one that meets the end of the task does not.
use soem_driver_ros.Base.{
  ℕ, ◌+◌, ◌-◌, ◌≤◌, ◌≡◌, ◌⊎◌, inl, inr, refl, ap, Bool, true, false, if◌then◌else◌, List, [], ◌∷◌,
  ◌++◌, All, arith,
}
use soem_driver_ros.Master.Threads.{
  Transfer, rx_pdo, tx_pdo, outside, waiting, TaskStage, no_thread, created, at_test, at_rx_pdo,
  copying_rx_pdo, copied_rx_pdo, at_exchange, at_tx_pdo, copying_tx_pdo, copied_tx_pdo, leaving,
  ended, Threads, Event, caller_goes, task_goes, call_run, call_stop, stopper_goes, Stopper,
  joining, allowed, requested, caller_step, task_step, stopper_step, occur, occur_all,
}

-- The task has not left its loop.
abbrev pub in_loop : TaskStage → Bool
in_loop no_thread = false
in_loop leaving = false
in_loop ended = false
in_loop _ = true

-- The steps of the task until it has answered a request.
abbrev pub steps_to_answer : Transfer → TaskStage → ℕ
steps_to_answer rx_pdo copied_rx_pdo = 1
steps_to_answer rx_pdo copying_rx_pdo = 2
steps_to_answer rx_pdo at_rx_pdo = 3
steps_to_answer rx_pdo at_test = 4
steps_to_answer rx_pdo copied_tx_pdo = 5
steps_to_answer rx_pdo copying_tx_pdo = 6
steps_to_answer rx_pdo at_tx_pdo = 7
steps_to_answer rx_pdo at_exchange = 8
steps_to_answer rx_pdo created = 5
steps_to_answer tx_pdo copied_tx_pdo = 1
steps_to_answer tx_pdo copying_tx_pdo = 2
steps_to_answer tx_pdo at_tx_pdo = 3
steps_to_answer tx_pdo at_exchange = 4
steps_to_answer tx_pdo copied_rx_pdo = 5
steps_to_answer tx_pdo copying_rx_pdo = 6
steps_to_answer tx_pdo at_rx_pdo = 7
steps_to_answer tx_pdo at_test = 8
steps_to_answer tx_pdo created = 9
steps_to_answer _ _ = 0

-- Those that are left.
abbrev left : Transfer → Threads → ℕ
left d t = if requested d t then steps_to_answer d t.task else 0

abbrev pub is_stop : Event → Bool
is_stop call_stop = true
is_stop _ = false

abbrev pub is_run : Event → Bool
is_run call_run = true
is_run _ = false

-- The number of steps of the task in a sequence of events.
abbrev pub task_steps : List Event → ℕ
task_steps [] = 0
task_steps (task_goes inputs ∷ events) = 1 + task_steps events
task_steps (_ ∷ events) = task_steps events

abbrev task_steps_of : Event → ℕ
task_steps_of e = task_steps (e ∷ [])

-- A transfer that waits, with a task in its loop that is not told to stop.
abbrev pub Served : Transfer → Threads → Type 0
Served d t = (t.caller ≡ waiting d) × (in_loop t.task ≡ true) × (t.cyclic_master_terminate ≡ false)

task_step-left :
    (d : Transfer) (k : TaskStage) (inputs : List ℕ) (t : Threads)
    → t.task ≡ k
    → Served d t
    → Served d (task_step k inputs t) × (left d (task_step k inputs t) ≤ left d t - 1)
unfolding task_step
task_step-left rx_pdo k inputs t e h = ground (arith, e, h)
task_step-left tx_pdo k inputs t e h = ground (arith, e, h)

caller_step-left :
    (d : Transfer) (t : Threads)
    → Served d t
    → ((caller_step t.caller t).caller ≡ outside)
      ⊎ (Served d (caller_step t.caller t) × (left d (caller_step t.caller t) ≤ left d t - 0))
unfolding caller_step
caller_step-left rx_pdo t h = ground (arith, h)
caller_step-left tx_pdo t h = ground (arith, h)

stopper_step-left :
    (d : Transfer) (t : Threads)
    → Served d t
    → Served d (stopper_step t.stopper t) × (left d (stopper_step t.stopper t) ≤ left d t - 0)
unfolding stopper_step
stopper_step-left rx_pdo t h = ground (arith, h)
stopper_step-left tx_pdo t h = ground (arith, h)

occur-left :
    (d : Transfer) (e : Event) (t : Threads)
    → is_stop e ≡ false
    → Served d t
    → ((occur e t).caller ≡ outside)
      ⊎ (Served d (occur e t) × (left d (occur e t) ≤ left d t - task_steps_of e))
unfolding occur
occur-left d (task_goes inputs) t n h = inr (task_step-left d t.task inputs t refl h)
occur-left d caller_goes t n h = caller_step-left d t h
occur-left d stopper_goes t n h = inr (stopper_step-left d t h)
occur-left rx_pdo e t n h = ground (arith, n, h)
occur-left tx_pdo e t n h = ground (arith, n, h)

-- The thread of the driver is outside at some point of a run of events.
abbrev pub Returns : List Event → Threads → Type 0
Returns events t =
    (before : List Event) × (after : List Event) × (events ≡ before ++ after)
    × ((occur_all before t).caller ≡ outside)

caller_goes-outside :
    (d : Transfer) (t : Threads)
    → Served d t
    → left d t ≡ 0
    → (caller_step t.caller t).caller ≡ outside
unfolding caller_step
caller_goes-outside rx_pdo t h z = ground (arith, h, z)
caller_goes-outside tx_pdo t h z = ground (arith, h, z)

task_steps-cons :
    (e : Event) (events : List Event)
    → task_steps (e ∷ events) ≡ task_steps_of e + task_steps events
task_steps-cons e events = ground arith

Served-Returns :
    (d : Transfer) (events : List Event) (t : Threads)
    → Served d t
    → All (λ e. is_stop e ≡ false) events
    → left d t ≤ task_steps events
    → Returns (events ++ caller_goes ∷ []) t
unfolding occur_all
Served-Returns d [] t h n enough =
    (caller_goes ∷ [], [], refl, caller_goes-outside d t h (omega (arith, enough)))
Served-Returns d (e ∷ events) t h n enough = elim (occur-left d e t n.0 h) [
  | inl out ↦ (e ∷ [], events ++ caller_goes ∷ [], refl, out)
  | inr (served, fewer) ↦
      let (before, after, same, out) =
        Served-Returns d events (occur e t) served n.1
          (omega (arith, fewer, enough, task_steps-cons e events)) in
      (e ∷ before, after, ap (λ l. e ∷ l) same, out)
]

left-le : (d : Transfer) (t : Threads) → left d t ≤ steps_to_answer d t.task
left-le d t = ground arith

-- A transfer that waits while the task is in its loop and is not told to stop returns: among any events
-- without a call of stop() that have enough steps of the task, at most 9, and with a step of the thread
-- of the driver behind them, there is a point where that thread is out of the transfer.
pub transfer-Returns :
    (d : Transfer) (events : List Event) (t : Threads)
    → t.caller ≡ waiting d
    → in_loop t.task ≡ true
    → t.cyclic_master_terminate ≡ false
    → All (λ e. is_stop e ≡ false) events
    → steps_to_answer d t.task ≤ task_steps events
    → Returns (events ++ caller_goes ∷ []) t
transfer-Returns d events t c l r n enough =
    Served-Returns d events t (c, l, r) n (omega (arith, enough, left-le d t))

-- The task has left its loop, and there is a request.
abbrev Stuck : Transfer → Threads → Type 0
Stuck d t = (t.caller ≡ waiting d) × (requested d t ≡ true) × (in_loop t.task ≡ false)

occur-Stuck :
    (d : Transfer) (e : Event) (t : Threads) → is_run e ≡ false → Stuck d t → Stuck d (occur e t)
unfolding occur
occur-Stuck rx_pdo e t n h = ground (arith, n, h)
occur-Stuck tx_pdo e t n h = ground (arith, n, h)

occur_all-Stuck :
    (d : Transfer) (events : List Event) (t : Threads)
    → All (λ e. is_run e ≡ false) events
    → Stuck d t
    → Stuck d (occur_all events t)
unfolding occur_all
occur_all-Stuck d [] t n h = h
occur_all-Stuck d (e ∷ events) t n h =
    occur_all-Stuck d events (occur e t) n.1 (occur-Stuck d e t n.0 h)

-- The steps in which a task that is told to stop leaves its loop, at most.
abbrev pub steps_to_leave : TaskStage → ℕ
steps_to_leave at_test = 1
steps_to_leave created = 2
steps_to_leave copied_tx_pdo = 2
steps_to_leave copying_tx_pdo = 3
steps_to_leave at_tx_pdo = 4
steps_to_leave at_exchange = 5
steps_to_leave copied_rx_pdo = 6
steps_to_leave copying_rx_pdo = 7
steps_to_leave at_rx_pdo = 8
steps_to_leave _ = 0

abbrev pub is_caller : Event → Bool
is_caller caller_goes = true
is_caller _ = false

-- Events in which the thread of the driver stands still and run() is not called.
abbrev pub Meanwhile : Event → Type 0
Meanwhile e = (is_run e ≡ false) × (is_caller e ≡ false)

-- The thread of the driver is in front of its store, and the task has been told to stop or has left.
abbrev Told : Transfer → Threads → Type 0
Told d t =
    (t.caller ≡ allowed d)
    × (((t.cyclic_master_terminate ≡ true) × (t.stopper ≡ joining)) ⊎ (in_loop t.task ≡ false))

task_step-Told :
    (d : Transfer) (k : TaskStage) (inputs : List ℕ) (t : Threads)
    → t.task ≡ k
    → Told d t
    → Told d (task_step k inputs t)
      × (steps_to_leave (task_step k inputs t).task ≤ steps_to_leave t.task - 1)
unfolding task_step
task_step-Told d k inputs t e h = ground (arith, e, h)

stopper_step-Told :
    (d : Transfer) (t : Threads)
    → Told d t
    → Told d (stopper_step t.stopper t)
      × (steps_to_leave (stopper_step t.stopper t).task ≤ steps_to_leave t.task - 0)
unfolding stopper_step
stopper_step-Told d t h = ground (arith, h)

occur-Told :
    (d : Transfer) (e : Event) (t : Threads)
    → Meanwhile e
    → Told d t
    → Told d (occur e t)
      × (steps_to_leave (occur e t).task ≤ steps_to_leave t.task - task_steps_of e)
unfolding occur
occur-Told d (task_goes inputs) t n h = task_step-Told d t.task inputs t refl h
occur-Told d stopper_goes t n h = stopper_step-Told d t h
occur-Told d e t n h = ground (arith, n, h)

occur_all-Told :
    (d : Transfer) (events : List Event) (t : Threads)
    → All Meanwhile events
    → Told d t
    → steps_to_leave t.task ≤ task_steps events
    → Told d (occur_all events t) × (steps_to_leave (occur_all events t).task ≡ 0)
unfolding occur_all
occur_all-Told d [] t n h enough = (h, omega (arith, enough))
occur_all-Told d (e ∷ events) t n h enough =
    let (h', fewer) = occur-Told d e t n.0 h in
    occur_all-Told d events (occur e t) n.1 h'
      (omega (arith, fewer, enough, task_steps-cons e events))

Stuck-caller_goes :
    (d : Transfer) (t : Threads)
    → Told d t
    → steps_to_leave t.task ≡ 0
    → Stuck d (caller_step t.caller t)
unfolding caller_step
Stuck-caller_goes rx_pdo t h z = ground (arith, h, z)
Stuck-caller_goes tx_pdo t h z = ground (arith, h, z)

Told-call_stop :
    (d : Transfer) (t : Threads)
    → t.caller ≡ allowed d
    → in_loop t.task ≡ true
    → t.stopper ≡ Stopper.idle
    → Told d (occur call_stop t) × ((occur call_stop t).task ≡ t.task)
unfolding occur
Told-call_stop d t c l i = ground (arith, c, l, i)

occur_all-append :
    (events later : List Event) (t : Threads)
    → occur_all (events ++ later) t ≡ occur_all later (occur_all events t)
unfolding occur_all
occur_all-append [] later t = refl
occur_all-append (e ∷ events) later t = occur_all-append events later (occur e t)

-- From any state in which the thread of the driver stands between the tests of a transfer and its store,
-- the task is in its loop and no stop() is under way: if stop() is called there, and the task takes
-- enough steps to leave its loop, at most 8, before the thread of the driver goes on, then this thread
-- waits in the transfer behind its store whatever happens, until there is another run().
pub transfer_stuck :
    (d : Transfer) (between later : List Event) (t : Threads)
    → t.caller ≡ allowed d
    → in_loop t.task ≡ true
    → t.stopper ≡ Stopper.idle
    → All Meanwhile between
    → steps_to_leave t.task ≤ task_steps between
    → All (λ e. is_run e ≡ false) later
    → (occur_all (call_stop ∷ between ++ caller_goes ∷ later) t).caller ≡ waiting d
unfolding occur_all
transfer_stuck d between later t c l i quiet enough n =
    let (told, same) = Told-call_stop d t c l i in
    let stopped = occur call_stop t in
    let (told', left_loop) = occur_all-Told d between stopped quiet told (rw same enough) in
    rw (occur_all-append between (caller_goes ∷ later) stopped)
      (occur_all-Stuck d later _ n
        (Stuck-caller_goes d (occur_all between stopped) told' left_loop)).0
