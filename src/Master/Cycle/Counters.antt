-- ===== src/Master/Cycle/Counters.antt =====
-- What the counters of the status say after a run of cycles, and that runs complete.
use soem_driver_ros.Base.{
  ◌>>=◌, ℕ, suc, ◌+◌, ◌%◌, ◌^◌, ◌<◌, ◌≡◌, refl, ap, sym, ◌∙◌, Bool, true, false, not, ◌&&◌,
  if◌then◌else◌, List, [], ◌∷◌, ◌++◌, Option, none, some, arith, length, All, or_default,
}
use soem_driver_ros.Master.Mailboxes.{handle_mailboxes}
use soem_driver_ros.Master.Cycle.{
  running, error, MasterStatus, Master, CycleInput, count_cycle, next_count, to_size, cycle, cycles,
}

-- How many inputs fail a test.
abbrev pub failures : (CycleInput → Bool) → List CycleInput → ℕ
failures ok [] = 0
failures ok (i ∷ is) = if ok i then failures ok is else suc (failures ok is)

-- The errors of SOEM that are counted.
abbrev pub ec_errors : List CycleInput → ℕ
ec_errors [] = 0
ec_errors (i ∷ is) = if i.is_error then i.popped + ec_errors is else ec_errors is

-- The status that a run of cycles leads to, whatever else it does.
status_after : List CycleInput → ℕ → MasterStatus → MasterStatus
status_after [] n s = s
status_after (i ∷ is) n s =
    status_after is (next_count n) (count_cycle i (to_size (next_count n)) s)

-- A bind that succeeds has a first result.
pub bind_some {ℓ κ} :
    {A : Type ℓ} {B : Type κ} (o : Option A) (f : A → Option B) (b : B)
    → (o >>= f) ≡ some b
    → (a : A) × (o ≡ some a) × (f a ≡ some b)
bind_some none f b e = absurd cc
bind_some (some a) f b e = (a, refl, e)

pub cycle-status :
    (i : CycleInput) (m m' : Master)
    → cycle i m ≡ some m'
    → (m'.status ≡ count_cycle i (to_size (next_count m.cycle_counter)) m.status)
      × (m'.cycle_counter ≡ next_count m.cycle_counter)
unfolding cycle
cycle-status i m m' e =
    let (slaves, _, done) = bind_some (handle_mailboxes i.answers 1 m.slaves_data_access) _ m' e in
    let same = ap (or_default m) done in
    (ap (λ x. x.status) (sym same), ap (λ x. x.cycle_counter) (sym same))

cycles-status :
    (is : List CycleInput) (m m' : Master)
    → cycles is m ≡ some m'
    → m'.status ≡ status_after is m.cycle_counter m.status
unfolding cycles status_after
cycles-status [] m m' e = ap (λ o. (or_default m o).status) (sym e)
cycles-status (i ∷ is) m m' e =
    let (m1, first, rest) = bind_some (cycle i m) _ m' e in
    let (s, n) = cycle-status i m m1 first in cycles-status is m1 m' rest ∙ rw (s, n) refl

abbrev pub InRange : MasterStatus → Type 0
InRange s =
    (s.error_count < 2 ^ 64)
    × (s.tx_error_count < 2 ^ 64)
    × (s.rx_error_count < 2 ^ 64)
    × (s.missed_cycle_deadline_count < 2 ^ 64)

abbrev pub Counted : List CycleInput → MasterStatus → MasterStatus → Type 0
Counted is s s' =
    (s'.tx_error_count ≡ (s.tx_error_count + failures (λ i. i.sent) is) % 2 ^ 64)
    × (s'.rx_error_count ≡ (s.rx_error_count + failures (λ i. i.received) is) % 2 ^ 64)
    × (s'.missed_cycle_deadline_count
        ≡ (s.missed_cycle_deadline_count + failures (λ i. not i.late) is) % 2 ^ 64)
    × (s'.error_count
        ≡ (s.error_count
            + (failures (λ i. i.sent) is + (failures (λ i. i.received) is + ec_errors is)))
          % 2 ^ 64)

count_cycle-InRange :
    (i : CycleInput) (n : ℕ) (s : MasterStatus) → InRange s → InRange (count_cycle i n s)
unfolding count_cycle
count_cycle-InRange i n s h = ground arith

pub count_cycle-Counted :
    (i : CycleInput) (n : ℕ) (s : MasterStatus) → InRange s → Counted (i ∷ []) s (count_cycle i n s)
unfolding count_cycle
count_cycle-Counted i n s h = ground arith

-- Counts add up modulo the size.
later :
    (a b c x y z : ℕ)
    → x ≡ (a + b) % 2 ^ 64
    → y ≡ (x + c) % 2 ^ 64
    → z ≡ b + c
    → y ≡ (a + z) % 2 ^ 64
later a b c x y z e f g = omega arith

failures_cons :
    (ok : CycleInput → Bool) (i : CycleInput) (is : List CycleInput)
    → failures ok (i ∷ is) ≡ failures ok (i ∷ []) + failures ok is
failures_cons ok i is = ground arith

ec_errors_cons :
    (i : CycleInput) (is : List CycleInput) → ec_errors (i ∷ is) ≡ ec_errors (i ∷ []) + ec_errors is
ec_errors_cons i is = ground arith

status_after-Counted :
    (is : List CycleInput) (n : ℕ) (s : MasterStatus)
    → InRange s
    → Counted is s (status_after is n s)
unfolding status_after
status_after-Counted [] n s h = ground arith
status_after-Counted (i ∷ is) n s h =
    let s1 = count_cycle i (to_size (next_count n)) s in
    let (tx, rx, missed, all) = count_cycle-Counted i (to_size (next_count n)) s h in
    let (tx', rx', missed', all') =
      status_after-Counted is (next_count n) s1
        (count_cycle-InRange i (to_size (next_count n)) s h) in
    let sent_cons = failures_cons (λ x. x.sent) i is in
    let received_cons = failures_cons (λ x. x.received) i is in
    (
      later s.tx_error_count _ _ _ _ _ tx tx' sent_cons,
      later s.rx_error_count _ _ _ _ _ rx rx' received_cons,
      later s.missed_cycle_deadline_count _ _ _ _ _ missed missed'
          (failures_cons (λ x. not x.late) i is),
      later s.error_count _ _ _ _ _ all all'
          (omega (arith, sent_cons, received_cons, ec_errors_cons i is)),
    )

-- The counters of the status after a run of cycles that completes, from counters below 2 ^ 64 and
-- modulo 2 ^ 64: failed sends, failed receives and missed deadlines are each counted once, and the
-- error count grows by the failed sends, the failed receives and the errors that SOEM reported.
pub cycles-error_counts :
    (is : List CycleInput) (m m' : Master)
    → InRange m.status
    → cycles is m ≡ some m'
    → Counted is m.status m'.status
cycles-error_counts is m m' h e =
    rw (cycles-status is m m' e) (status_after-Counted is m.cycle_counter m.status h)

-- A status that was reached by a run and one more cycle.
status_after-append :
    (is js : List CycleInput) (n : ℕ) (s : MasterStatus)
    → (k : ℕ) × ((s' : MasterStatus) × (status_after (is ++ js) n s ≡ status_after js k s'))
unfolding status_after
status_after-append [] js n s = (n, (s, refl))
status_after-append (i ∷ is) js n s = status_after-append is js (next_count n) _

send_streak :
    (js : List CycleInput) (n : ℕ) (s : MasterStatus)
    → s.tx_error_count_consecutive < 2 ^ 64
    → All (λ j. j.sent ≡ false) js
    → (status_after js n s).tx_error_count_consecutive
      ≡ (s.tx_error_count_consecutive + length js) % 2 ^ 64
unfolding status_after
send_streak [] n s h bad = ground arith
send_streak (j ∷ js) n s h bad =
    let s1 = count_cycle j (to_size (next_count n)) s in
    later s.tx_error_count_consecutive 1 (length js) s1.tx_error_count_consecutive _ _
      (one j _ s bad.0)
      (send_streak js (next_count n) s1 (omega (arith, one j (to_size (next_count n)) s bad.0))
        bad.1)
      (omega arith)
  where
    one :
        (j : CycleInput) (n : ℕ) (s : MasterStatus)
        → j.sent ≡ false
        → (count_cycle j n s).tx_error_count_consecutive
          ≡ (s.tx_error_count_consecutive + 1) % 2 ^ 64
    one j n s e = unfold count_cycle in ground arith

receive_streak :
    (js : List CycleInput) (n : ℕ) (s : MasterStatus)
    → s.rx_error_count_consecutive < 2 ^ 64
    → All (λ j. j.received ≡ false) js
    → (status_after js n s).rx_error_count_consecutive
      ≡ (s.rx_error_count_consecutive + length js) % 2 ^ 64
unfolding status_after
receive_streak [] n s h bad = ground arith
receive_streak (j ∷ js) n s h bad =
    let s1 = count_cycle j (to_size (next_count n)) s in
    later s.rx_error_count_consecutive 1 (length js) s1.rx_error_count_consecutive _ _
      (one j _ s bad.0)
      (receive_streak js (next_count n) s1 (omega (arith, one j (to_size (next_count n)) s bad.0))
        bad.1)
      (omega arith)
  where
    one :
        (j : CycleInput) (n : ℕ) (s : MasterStatus)
        → j.received ≡ false
        → (count_cycle j n s).rx_error_count_consecutive
          ≡ (s.rx_error_count_consecutive + 1) % 2 ^ 64
    one j n s e = unfold count_cycle in ground arith

-- After a cycle that sent and received, and cycles that all failed to send and to receive, both
-- consecutive counts are the number of these failed cycles, modulo 2 ^ 64.
pub cycles-streak :
    (is : List CycleInput) (good : CycleInput) (bad : List CycleInput) (m m' : Master)
    → (good.sent ≡ true) × (good.received ≡ true)
    → All (λ j. j.sent ≡ false) bad
    → All (λ j. j.received ≡ false) bad
    → cycles (is ++ good ∷ bad) m ≡ some m'
    → (m'.status.tx_error_count_consecutive ≡ length bad % 2 ^ 64)
      × (m'.status.rx_error_count_consecutive ≡ length bad % 2 ^ 64)
unfolding status_after
cycles-streak is good bad m m' g hs hr e =
    let (k, (s, split)) = status_after-append is (good ∷ bad) m.cycle_counter m.status in
    let s1 = count_cycle good (to_size (next_count k)) s in
    let (tx, rx) = reset good (to_size (next_count k)) s g.0 g.1 in
    rw (cycles-status (is ++ good ∷ bad) m m' e, split)
      (
        omega (arith, send_streak bad (next_count k) s1 (omega (arith, tx)) hs, tx),
        omega (arith, receive_streak bad (next_count k) s1 (omega (arith, rx)) hr, rx),
      )
  where
    reset :
        (i : CycleInput) (n : ℕ) (s : MasterStatus)
        → i.sent ≡ true
        → i.received ≡ true
        → ((count_cycle i n s).tx_error_count_consecutive ≡ 0)
          × ((count_cycle i n s).rx_error_count_consecutive ≡ 0)
    reset i n s e f = unfold count_cycle in ground arith

-- A cycle that completes leaves the state RUNNING if process data was sent and received and SOEM
-- reports no error, and ERROR otherwise.
pub cycle-state :
    (i : CycleInput) (m m' : Master)
    → cycle i m ≡ some m'
    → m'.status.state ≡ (if i.sent && (i.received && not i.is_error) then running else error)
unfolding count_cycle
cycle-state i m m' e = rw (cycle-status i m m' e).0 (ground arith)
