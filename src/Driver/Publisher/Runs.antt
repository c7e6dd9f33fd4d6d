-- ===== src/Driver/Publisher/Runs.antt =====
-- Runs of run_diagnostics_publisher and stop_diagnostics_publisher (soem_driver.cpp), against the node
-- that the calls alone determine.
use soem_driver_ros.Base.{
  ℕ, ◌≡◌, refl, sym, ap, ◌∙◌, ◌⊎◌, inl, inr, Bool, true, false, if◌then◌else◌, List, [], ◌∷◌,
  Option, none, some, Text, arith,
}
use soem_driver_ros.Driver.Publisher.{
  Node, Publisher, Ending, returned, Event, call_run, call_stop, thread_spins, publisher_node,
  happen, happen_all,
}

-- The node that publishes.
abbrev pub publishing : Publisher → Option Node
publishing p = if p.thread then p.node else none

abbrev pub is_made : Option Node → Bool
is_made none = false
is_made (some _) = true

-- There is no executor and no thread, or the thread is in spin() with a node.
abbrev pub Settled : Publisher → Type 0
Settled p =
    ((p.executor ≡ none) × (p.thread ≡ false))
    ⊎ ((p.executor ≡ some true) × (p.thread ≡ true) × (is_made p.node ≡ true))

-- Behind each start, the thread gets into spin() before the next call.
abbrev pub prompt : List Event → Bool
prompt [] = true
prompt (call_run _ ∷ []) = false
prompt (call_run _ ∷ call_run _ ∷ _) = false
prompt (call_run _ ∷ call_stop ∷ _) = false
prompt (call_run _ ∷ thread_spins ∷ events) = prompt events
prompt (call_stop ∷ events) = prompt events
prompt (thread_spins ∷ events) = prompt events

-- A start keeps the node that is there.
abbrev pub started : Node → Option Node → Option Node
started node none = some node
started _ (some node) = some node

-- A run that returned, with that node, and can go on.
abbrev pub Promises : Ending × Publisher → Option Node → Type 0
Promises (ending, p) node = (ending ≡ returned) × (publishing p ≡ node) × Settled p

Promises-moved :
    {r r' : Ending × Publisher} {node node' : Option Node}
    → r ≡ r'
    → node ≡ node'
    → Promises r' node'
    → Promises r node
Promises-moved e n m = rw (e, n) m

module _ (instance_name interface : Text) where
  -- The node after a sequence of events, by the calls alone.
  abbrev pub promised : List Event → Option Node → Option Node
  promised [] node = node
  promised (call_run cycle_time_ms ∷ events) node =
      promised events (started (publisher_node instance_name interface cycle_time_ms) node)
  promised (call_stop ∷ events) _ = promised events none
  promised (thread_spins ∷ events) node = promised events node

  abbrev after : Event → Publisher → Publisher
  after event p = (happen instance_name interface event p).1

  stopped_lem :
      (p : Publisher)
      → Settled p
      → ((happen instance_name interface call_stop p).0 ≡ returned)
        × (publishing (after call_stop p) ≡ none)
        × Settled (after call_stop p)
  unfolding happen
  stopped_lem p (inl (e, t)) = (ground arith, ground arith, inl (refl, refl))
  stopped_lem p (inr (e, t, n)) = (ground arith, ground arith, inl (refl, refl))

  spins_lem :
      (p : Publisher)
      → Settled p
      → ((happen instance_name interface thread_spins p).0 ≡ returned)
        × (publishing (after thread_spins p) ≡ publishing p)
        × Settled (after thread_spins p)
  unfolding happen
  spins_lem p (inl (e, t)) = (refl, ground arith, inl (ground arith, ground arith))
  spins_lem p (inr (e, t, n)) = (refl, ground arith, inr (ground arith, ground arith, ground arith))

  spins_returns : (p : Publisher) → (happen instance_name interface thread_spins p).0 ≡ returned
  unfolding happen
  spins_returns p = refl

  run_lem :
      (c : ℕ) (p : Publisher)
      → Settled p
      → ((happen instance_name interface (call_run c) p).0 ≡ returned)
        × (publishing (after thread_spins (after (call_run c) p))
            ≡ started (publisher_node instance_name interface c) (publishing p))
        × Settled (after thread_spins (after (call_run c) p))
  unfolding happen
  run_lem c p (inl (e, t)) =
      (ground arith, ground arith, inr (ground arith, ground arith, ground arith))
  run_lem c p (inr (e, t, n)) =
      (ground arith, ground arith, inr (ground arith, ground arith, ground arith))

  happen_all-next :
      (event : Event) (events : List Event) (p : Publisher)
      → (happen instance_name interface event p).0 ≡ returned
      → happen_all instance_name interface (event ∷ events) p
        ≡ happen_all instance_name interface events (after event p)
  unfolding happen_all
  happen_all-next event events p h = rw (happen_all, h) refl

  -- From a publisher without executor and thread, or with a node and its thread in spin(), and while
  -- the thread gets into spin() behind each start before the next call: every call returns, and the
  -- node that publishes is the one of the first start behind the last stop, or the one from before if
  -- there was one and no stop, whatever the later starts ask for. The publisher is such a one again.
  pub happen_all-Promises :
      (events : List Event) (p : Publisher)
      → prompt events ≡ true
      → Settled p
      → Promises (happen_all instance_name interface events p) (promised events (publishing p))
  unfolding happen_all
  happen_all-Promises [] p h s = (refl, refl, s)
  happen_all-Promises (call_run c ∷ thread_spins ∷ events) p h s =
      let (r, n, s') = run_lem c p s in
      Promises-moved
        (happen_all-next (call_run c) (thread_spins ∷ events) p r
          ∙ happen_all-next thread_spins events (after (call_run c) p)
              (spins_returns (after (call_run c) p)))
        (ap (promised events) (sym n))
        (happen_all-Promises events (after thread_spins (after (call_run c) p)) h s')
  happen_all-Promises (call_run _ ∷ []) p h s = ground arith
  happen_all-Promises (call_run _ ∷ call_run _ ∷ _) p h s = ground arith
  happen_all-Promises (call_run _ ∷ call_stop ∷ _) p h s = ground arith
  happen_all-Promises (call_stop ∷ events) p h s =
      let (r, n, s') = stopped_lem p s in
      Promises-moved (happen_all-next call_stop events p r) (ap (promised events) (sym n))
        (happen_all-Promises events (after call_stop p) h s')
  happen_all-Promises (thread_spins ∷ events) p h s =
      let (r, n, s') = spins_lem p s in
      Promises-moved (happen_all-next thread_spins events p r) (ap (promised events) (sym n))
        (happen_all-Promises events (after thread_spins p) h s')
