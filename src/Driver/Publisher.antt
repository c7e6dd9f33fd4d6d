-- ===== src/Driver/Publisher.antt =====
-- SOEMDriver::run_diagnostics_publisher and stop_diagnostics_publisher (soem_driver.cpp), with the thread
-- that spins the executor. The executor is that of rclcpp: is_spinning() answers whether a spin() is
-- going on, and cancel() ends it.
pub mod Runs
mod Tests
use soem_driver_ros.Base.{
  ℕ, Bool, true, false, if◌then◌else◌, List, [], ◌∷◌, ◌++◌, Option, none, some, Text, codes,
}

-- What SOEMDiagnosticsPublisher is made with; its timer publishes each cycle_time_ms.
pub record Node : Type 0 where
  pub name : Text
  pub interface : Text
  pub cycle_time_ms : ℕ

-- The members of the driver: the executor, with its is_spinning(), the node, and whether
-- driver_ros_node_executor_thread is joinable.
pub record Publisher : Type 0 where
  pub executor : Option Bool
  pub node : Option Node
  pub thread : Bool

-- How a call ends: it returns, or in std::terminate, where a thread is assigned over a joinable one. It is
-- undecided where stop joins a thread that has not been in spin() when cancel() is called.
pub data Ending : Type 0 where
  returned terminated undecided : Ending

-- The calls of the two methods, and the thread that gets into spin().
pub data Event : Type 0 where
  call_run : ℕ → Event
  call_stop thread_spins : Event

-- The answer of the test of run for an executor that is spinning.
abbrev pub is_spinning : Option Bool → Bool
is_spinning none = false
is_spinning (some spinning) = spinning

-- cancel(), then join().
unfoldable pub cancel_and_join : Publisher → Ending
cancel_and_join p = if is_spinning p.executor then returned else undecided

unfoldable pub stop_publisher : Publisher → Ending × Publisher
unfolding cancel_and_join
stop_publisher p =
    (if p.thread then cancel_and_join p else returned, record p { executor = none; thread = false })

-- The thread gets into spin() of the executor that the member holds.
unfoldable pub spin_publisher : Publisher → Publisher
spin_publisher p =
    if p.thread
    then elim p.executor [ none ↦ p | some _ ↦ record p { executor = some true } ]
    else p

module _ (instance_name interface : Text) where
  unfoldable pub publisher_node : ℕ → Node
  publisher_node cycle_time_ms = record {
    name = codes "soem_driver_" ++ instance_name ++ codes "_diagnostics";
    interface = interface;
    cycle_time_ms = cycle_time_ms;
  }

  unfoldable pub run_publisher : ℕ → Publisher → Ending × Publisher
  unfolding publisher_node
  run_publisher cycle_time_ms p = if is_spinning p.executor then (returned, p) else (
    if p.thread then terminated else returned,
    record { executor = some false; node = some (publisher_node cycle_time_ms); thread = true },
  )

  unfoldable pub happen : Event → Publisher → Ending × Publisher
  unfolding run_publisher stop_publisher spin_publisher
  happen (call_run cycle_time_ms) p = run_publisher cycle_time_ms p
  happen call_stop p = stop_publisher p
  happen thread_spins p = (returned, spin_publisher p)

  -- Events up to the first call that does not return.
  unfoldable pub happen_all : List Event → Publisher → Ending × Publisher
  unfolding happen
  happen_all [] p = (returned, p)
  happen_all (event ∷ events) p =
      let (ending, p') = happen event p in
      let rest = happen_all events p' in
      elim ending [ returned ↦ rest | terminated ↦ (terminated, p') | undecided ↦ (undecided, p') ]
