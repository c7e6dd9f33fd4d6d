-- ===== src/Driver/Diagnostics/Published.antt =====
-- What is published for the master, by what happens in its cycles.
use soem_driver_ros.Base.{
  ℕ, ◌+◌, ◌^◌, ◌≤◌, ◌<◌, ◌≡◌, ◌⊎◌, refl, sym, ap, ◌∙◌, ltb, not, ◌||◌, Bool, false, if◌then◌else◌,
  ◌%◌, List, [], ◌∷◌, ◌++◌, Option, none, some, or_default, subst, Text, codes, arith,
}
use soem_driver_ros.Master.Mailboxes.{handle_mailboxes}
use soem_driver_ros.Master.Cycle.{
  MasterStatus, Master, CycleInput, count_cycle, to_size, next_count, push_status, cycle, cycles,
}
use soem_driver_ros.Master.Cycle.Counters.{
  bind_some, cycle-status, failures, ec_errors, InRange, count_cycle-Counted,
}
use soem_driver_ros.Driver.Diagnostics.{
  StatusWrapper, master_state_to_string, summarize, build_master_status_diagnostics_ros,
  master_diagnostics, slave_diagnostics, publish,
}

-- What diagnostic_updater documents: merge_summary keeps the higher level; add() puts a key and a value
-- behind those of the message, which the other methods leave alone; the hardware id is the one that
-- is set; and nothing behind the summary changes the level.
pub record Lawful (w : StatusWrapper) : Type 0 where
  pub values-builder : w.values w.builder ≡ []
  pub values-set_name : (t : Text) (m : w.Message) → w.values (w.set_name t m) ≡ w.values m
  pub values-set_hardware_id :
      (t : Text) (m : w.Message) → w.values (w.set_hardware_id t m) ≡ w.values m
  pub values-summary : (l : ℕ) (t : Text) (m : w.Message) → w.values (w.summary l t m) ≡ w.values m
  pub values-merge_summary :
      (l : ℕ) (t : Text) (m : w.Message) → w.values (w.merge_summary l t m) ≡ w.values m
  pub values-add_text :
      (k t : Text) (m : w.Message) → w.values (w.add_text k t m) ≡ w.values m ++ (k, t) ∷ []
  pub values-add_count :
      (k : Text) (n : ℕ) (m : w.Message)
      → w.values (w.add_count k n m) ≡ w.values m ++ (k, w.printed n) ∷ []
  pub hardware_id-set_hardware_id :
      (t : Text) (m : w.Message) → w.hardware_id (w.set_hardware_id t m) ≡ t
  pub ok_below : w.ok < w.warn
  pub warn_below : w.warn < w.error
  pub level-summary : (l : ℕ) (t : Text) (m : w.Message) → w.level (w.summary l t m) ≡ l
  pub level-merge_summary :
      (l : ℕ) (t : Text) (m : w.Message)
      → w.level (w.merge_summary l t m) ≡ (if ltb (w.level m) l then l else w.level m)
  pub level-add_text : (k t : Text) (m : w.Message) → w.level (w.add_text k t m) ≡ w.level m
  pub level-add_count : (k : Text) (n : ℕ) (m : w.Message) → w.level (w.add_count k n m) ≡ w.level m
  pub level-set_hardware_id :
      (t : Text) (m : w.Message) → w.level (w.set_hardware_id t m) ≡ w.level m

-- A cycle in which SOEM did not send or receive, or reported an error.
abbrev pub failed : CycleInput → Bool
failed i = not i.sent || (not i.received || i.is_error)

-- The level by a failure, and by deadlines missed up to then.
abbrev pub level_of : (w : StatusWrapper) → Bool → Bool → ℕ
level_of w errors late = if errors then w.error else (if late then w.warn else w.ok)

abbrev streaks : MasterStatus → Bool
streaks s =
    ltb 0 s.rx_error_count_consecutive
    || (ltb 0 s.tx_error_count_consecutive || ltb 0 s.other_ec_error_count_consecutive)

module _ (w : StatusWrapper) (lawful : Lawful w) where
  open lawful use {
    ok_below, warn_below, level-summary, level-merge_summary, level-add_text, level-add_count,
    level-set_hardware_id,
  }

  level-summarize :
      (s : MasterStatus)
      → w.level (summarize w s) ≡ level_of w (streaks s) (ltb 0 s.missed_cycle_deadline_count)
  unfolding summarize
  level-summarize s =
      let b0 = w.summary w.ok [] (w.set_name (codes "SOEMMaster") w.builder) in
      let errors = codes "Errors communicating with slaves on EtherCAT bus!" in
      let misses = codes "Realtime loop misses cycle deadline!" in
      ground (
        arith,
        ok_below,
        warn_below,
        level-summary w.ok [] (w.set_name (codes "SOEMMaster") w.builder),
        level-merge_summary w.error errors b0,
        level-merge_summary w.warn misses b0,
        level-merge_summary w.warn misses (w.merge_summary w.error errors b0),
      )

  level-build_master_status_diagnostics_ros :
      (s : MasterStatus)
      → w.level (build_master_status_diagnostics_ros w s)
        ≡ level_of w (streaks s) (ltb 0 s.missed_cycle_deadline_count)
  unfolding build_master_status_diagnostics_ros
  level-build_master_status_diagnostics_ros s =
      level-add_count _ _ _
      ∙ level-add_count _ _ _
      ∙ level-add_count _ _ _
      ∙ level-add_count _ _ _
      ∙ level-add_count _ _ _
      ∙ level-add_text _ _ _
      ∙ level-summarize s

-- What the message says about a cycle behind a status, under each key.
abbrev pub reported : (w : StatusWrapper) → CycleInput → ℕ → MasterStatus → List (Text × Text)
reported w i cycle_counter s =
    (codes "state", if failed i then codes "ERROR" else codes "RUNNING")
    ∷ (
      codes "error_count",
      w.printed (
          (s.error_count
            + (failures (λ j. j.sent) (i ∷ [])
                + (failures (λ j. j.received) (i ∷ []) + ec_errors (i ∷ []))))
          % 2 ^ 64),
    )
    ∷ (
      codes "rx_error_count",
      w.printed ((s.rx_error_count + failures (λ j. j.received) (i ∷ [])) % 2 ^ 64),
    )
    ∷ (
      codes "tx_error_count",
      w.printed ((s.tx_error_count + failures (λ j. j.sent) (i ∷ [])) % 2 ^ 64),
    )
    ∷ (
      codes "missed_cycle_deadline_count",
      w.printed ((s.missed_cycle_deadline_count + failures (λ j. not j.late) (i ∷ [])) % 2 ^ 64),
    )
    ∷ (codes "cycle_count", w.printed (to_size (next_count cycle_counter)))
    ∷ []

module _ (w : StatusWrapper) (lawful : Lawful w) where
  open lawful use {
    values-builder, values-set_name, values-summary, values-merge_summary, values-add_text,
    values-add_count,
  }

  values-summarize : (s : MasterStatus) → w.values (summarize w s) ≡ []
  unfolding summarize
  values-summarize s =
      let b0 = w.summary w.ok [] (w.set_name (codes "SOEMMaster") w.builder) in
      let errors = codes "Errors communicating with slaves on EtherCAT bus!" in
      let misses = codes "Realtime loop misses cycle deadline!" in
      ground (
        arith,
        values-builder,
        values-set_name (codes "SOEMMaster") w.builder,
        values-summary w.ok [] (w.set_name (codes "SOEMMaster") w.builder),
        values-merge_summary w.error errors b0,
        values-merge_summary w.warn misses b0,
        values-merge_summary w.warn misses (w.merge_summary w.error errors b0),
      )

  added :
      (k : Text) (n : ℕ) (m : w.Message) (xs : List (Text × Text))
      → w.values m ≡ xs
      → w.values (w.add_count k n m) ≡ xs ++ (k, w.printed n) ∷ []
  added k n m xs e = values-add_count k n m ∙ ap (λ l. l ++ (k, w.printed n) ∷ []) e

  values-build_master_status_diagnostics_ros :
      (s : MasterStatus)
      → w.values (build_master_status_diagnostics_ros w s)
        ≡ (codes "state", master_state_to_string s.state)
          ∷ (codes "error_count", w.printed s.error_count)
          ∷ (codes "rx_error_count", w.printed s.rx_error_count)
          ∷ (codes "tx_error_count", w.printed s.tx_error_count)
          ∷ (codes "missed_cycle_deadline_count", w.printed s.missed_cycle_deadline_count)
          ∷ (codes "cycle_count", w.printed s.cycle_count)
          ∷ []
  unfolding build_master_status_diagnostics_ros
  values-build_master_status_diagnostics_ros s = added _ _ _ _ (
      added _ _ _ _ (
        added _ _ _ _ (
          added _ _ _ _ (
            added _ _ _ _ (
              values-add_text _ _ _
              ∙ ap (λ l. l ++ (codes "state", master_state_to_string s.state) ∷ [])
                  (values-summarize s))))))

status-count_cycle :
    (i : CycleInput) (n : ℕ) (s : MasterStatus)
    → ((count_cycle i n s).cycle_count ≡ n)
      × (master_state_to_string (count_cycle i n s).state
          ≡ (if failed i then codes "ERROR" else codes "RUNNING"))
unfolding count_cycle master_state_to_string
status-count_cycle i n s = (ground arith, ground arith)

values-reported :
    (w : StatusWrapper) (lawful : Lawful w) (i : CycleInput) (cycle_counter : ℕ) (s : MasterStatus)
    → InRange s
    → w.values (
        build_master_status_diagnostics_ros w
          (count_cycle i (to_size (next_count cycle_counter)) s))
      ≡ reported w i cycle_counter s
values-reported w lawful i cycle_counter s h =
    let n = to_size (next_count cycle_counter) in
    let (count, state) = status-count_cycle i n s in
    let (tx, rx, missed, all) = count_cycle-Counted i n s h in
    values-build_master_status_diagnostics_ros w lawful (count_cycle i n s)
    ∙ rw (state, all, rx, tx, missed, count) refl

-- One more failure of each kind does not wrap a counter, and an error that SOEM reports is in its list.
abbrev pub Room : CycleInput → MasterStatus → Type 0
Room i s =
    (s.rx_error_count_consecutive + 1 < 2 ^ 64)
    × (s.tx_error_count_consecutive + 1 < 2 ^ 64)
    × (s.other_ec_error_count_consecutive + i.popped < 2 ^ 64)
    × (s.missed_cycle_deadline_count + 1 < 2 ^ 64)
    × ((i.is_error ≡ false) ⊎ (1 ≤ i.popped))

streaks-count_cycle :
    (i : CycleInput) (n : ℕ) (s : MasterStatus) → Room i s → streaks (count_cycle i n s) ≡ failed i
unfolding count_cycle
streaks-count_cycle i n s h = ground (arith, h)

late-count_cycle :
    (i : CycleInput) (n : ℕ) (s : MasterStatus)
    → Room i s
    → (ltb 0 (count_cycle i n s).missed_cycle_deadline_count
        ≡ (i.late || ltb 0 s.missed_cycle_deadline_count))
unfolding count_cycle
late-count_cycle i n s h = ground (arith, h)

cycle-status_queue :
    (i : CycleInput) (m m' : Master)
    → cycle i m ≡ some m'
    → m'.status_queue ≡ push_status m'.status m.status_queue
unfolding cycle
cycle-status_queue i m m' e =
    let (slaves, _, done) = bind_some (handle_mailboxes i.answers 1 m.slaves_data_access) _ m' e in
    let same = ap (or_default m) done in
    subst (λ x. x.status_queue ≡ push_status x.status m.status_queue) same refl

cycles-status_queue :
    (is : List CycleInput) (m m' : Master) (s : MasterStatus)
    → m.status_queue ≡ some s
    → cycles is m ≡ some m'
    → m'.status_queue ≡ some s
unfolding cycles
cycles-status_queue [] m m' s h e = ap (λ o. (or_default m o).status_queue) (sym e) ∙ h
cycles-status_queue (i ∷ is) m m' s h e =
    let (m1, first, rest) = bind_some (cycle i m) _ m' e in
    cycles-status_queue is m1 m' s (cycle-status_queue i m m1 first ∙ ap (push_status m1.status) h)
      rest

module _ (w : StatusWrapper) (lawful : Lawful w) where
  open lawful use {level-set_hardware_id, values-set_hardware_id, hardware_id-set_hardware_id}

  -- The message that the timer publishes after cycles that started with an empty status queue, where the
  -- counters are in range and do not wrap in the first of these cycles, and an error that SOEM reports
  -- in it is in its list: it has one status of the master, with the id of the interface, and then
  -- those of the slaves. That status tells the state and the counters as the first of the cycles leaves
  -- them, each under its key: ERROR if that cycle did not send or receive or SOEM reported an error,
  -- else RUNNING; the errors before, with those of the cycle; and the number of the cycle. Its level is
  -- ERROR in the same cases, else WARN if a deadline has been missed until then, and else OK.
  pub cycles-published :
      (i : CycleInput) (is : List CycleInput) (m m' : Master) (interface : Text)
      (queues : List (Option w.Message))
      → m.status_queue ≡ none
      → InRange m.status
      → Room i m.status
      → cycles (i ∷ is) m ≡ some m'
      → (d : w.Message) × ((publish w interface queues m').0 ≡ d ∷ slave_diagnostics w queues)
        × (w.hardware_id d ≡ interface)
        × (w.values d ≡ reported w i m.cycle_counter m.status)
        × (w.level d ≡ level_of w (failed i) (i.late || ltb 0 m.status.missed_cycle_deadline_count))
  unfolding cycles publish master_diagnostics
  cycles-published i is m m' interface queues empty range room e =
      let (m1, first, rest) = bind_some (cycle i m) _ m' e in
      let n = to_size (next_count m.cycle_counter) in
      let status = cycle-status i m m1 first in
      let pushed = cycle-status_queue i m m1 first ∙ ap (push_status m1.status) empty in
      let queued = cycles-status_queue is m1 m' m1.status pushed rest in
      let built = build_master_status_diagnostics_ros w m1.status in
      (
        w.set_hardware_id interface built,
        rw (queued, master_diagnostics) refl,
        hardware_id-set_hardware_id interface built,
        values-set_hardware_id interface built
            ∙ ap (λ x. w.values (build_master_status_diagnostics_ros w x)) status.0
            ∙ values-reported w lawful i m.cycle_counter m.status range,
        level-set_hardware_id interface built
            ∙ level-build_master_status_diagnostics_ros w lawful m1.status
            ∙ ap (λ x. level_of w (streaks x) (ltb 0 x.missed_cycle_deadline_count)) status.0
            ∙ ap (λ b. level_of w b (ltb 0 (count_cycle i n m.status).missed_cycle_deadline_count))
                (streaks-count_cycle i n m.status room)
            ∙ ap (level_of w (failed i)) (late-count_cycle i n m.status room),
      )
