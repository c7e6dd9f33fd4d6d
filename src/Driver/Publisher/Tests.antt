-- ===== src/Driver/Publisher/Tests.antt =====
-- Starts and stops of the publisher.
use soem_driver_ros.Base.{◌≡◌, inl, refl, false, [], ◌∷◌, none, some, codes}
use soem_driver_ros.Driver.Publisher.{
  Publisher, terminated, undecided, call_run, call_stop, thread_spins, publisher_node, happen_all,
}
use soem_driver_ros.Driver.Publisher.Runs.{Promises, happen_all-Promises}

abbrev stopped : Publisher
stopped = record { executor = none; node = none; thread = false }

-- The second start comes before the thread is in spin().
start_twice :
    (happen_all (codes "d") (codes "eth0") (call_run 100 ∷ call_run 100 ∷ []) stopped).0
    ≡ terminated
unfolding happen_all
start_twice = refl

stop_at_once :
    (happen_all (codes "d") (codes "eth0") (call_run 100 ∷ call_stop ∷ []) stopped).0 ≡ undecided
unfolding happen_all
stop_at_once = refl

happen_all-Promises_example :
    Promises
      (happen_all
        (codes "d")
        (codes "eth0")
        (call_run 50
          ∷ thread_spins
          ∷ call_stop
          ∷ call_run 100
          ∷ thread_spins
          ∷ call_run 200
          ∷ thread_spins
          ∷ [])
        stopped)
      (some (publisher_node (codes "d") (codes "eth0") 100))
happen_all-Promises_example =
    happen_all-Promises (codes "d") (codes "eth0")
      (call_run 50
        ∷ thread_spins
        ∷ call_stop
        ∷ call_run 100
        ∷ thread_spins
        ∷ call_run 200
        ∷ thread_spins
        ∷ [])
      stopped refl (inl (refl, refl))
