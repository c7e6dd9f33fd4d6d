-- ===== src/Master/Threads/Tests.antt =====
-- The threads with two bytes of outputs and one of inputs.
use soem_driver_ros.Base.{◌≡◌, refl, true, List, [], ◌∷◌, ◌++◌, arith}
use soem_driver_ros.Master.Threads.{
  rx_pdo, tx_pdo, waiting, TaskStage, Threads, Event, write_output, call_transfer, caller_goes,
  task_goes, call_run, call_stop, stopper_goes, occur_all, at_start,
}
use soem_driver_ros.Master.Threads.Exclusion.{
  Exclusive, Delivered, occur_all-Exclusive, occur_all-Delivered,
}
use soem_driver_ros.Master.Threads.Progress.{Returns, transfer-Returns, transfer_stuck}

-- A byte is written and sent.
abbrev sending : List Event
sending =
    write_output 1 8
    ∷ call_run
    ∷ task_goes []
    ∷ call_transfer rx_pdo
    ∷ caller_goes
    ∷ caller_goes
    ∷ task_goes []
    ∷ task_goes []
    ∷ task_goes []
    ∷ task_goes []
    ∷ []

sent :
    (occur_all (sending ++ caller_goes ∷ []) (at_start (0 ∷ 0 ∷ []) (0 ∷ []))).rx_pdo_iomap
    ≡ 0 ∷ 8 ∷ []
unfolding occur_all
sent = refl

-- Outside again, the thread of the driver can write, which the map does not show.
later :
    (occur_all
      (sending ++ caller_goes ∷ write_output 0 9 ∷ [])
      (at_start (0 ∷ 0 ∷ []) (0 ∷ []))).rx_pdo_iomap
    ≡ 0 ∷ 8 ∷ []
unfolding occur_all
later = refl

occur_all-Exclusive_example : Exclusive (occur_all sending (at_start (0 ∷ 0 ∷ []) (0 ∷ [])))
occur_all-Exclusive_example = occur_all-Exclusive sending (0 ∷ 0 ∷ []) (0 ∷ [])

occur_all-Delivered_example :
    Delivered caller_goes (occur_all sending (at_start (0 ∷ 0 ∷ []) (0 ∷ [])))
occur_all-Delivered_example = occur_all-Delivered sending caller_goes (0 ∷ 0 ∷ []) (0 ∷ [])

-- A thread that waits for inputs, with the task at its test.
abbrev asking : List Event
asking = call_run ∷ task_goes [] ∷ call_transfer tx_pdo ∷ caller_goes ∷ caller_goes ∷ []

abbrev asked : Threads
asked = record (at_start (0 ∷ 0 ∷ []) (0 ∷ [])) {
  tx_pdo_transfer = true;
  cyclic_master_running = true;
  caller = waiting tx_pdo;
  task = TaskStage.at_test;
}

asked_lem : occur_all asking (at_start (0 ∷ 0 ∷ []) (0 ∷ [])) ≡ asked
unfolding occur_all
asked_lem = refl

abbrev round : List Event
round =
    task_goes []
    ∷ task_goes []
    ∷ caller_goes
    ∷ task_goes (5 ∷ [])
    ∷ task_goes []
    ∷ task_goes []
    ∷ task_goes []
    ∷ task_goes []
    ∷ task_goes []
    ∷ []

transfer-Returns_example : Returns (round ++ caller_goes ∷ []) asked
transfer-Returns_example =
    transfer-Returns tx_pdo round asked refl refl refl
      (refl, (refl, (refl, (refl, (refl, (refl, (refl, (refl, (refl, tt))))))))) (omega arith)

abbrev stopping : List Event
stopping = task_goes [] ∷ stopper_goes ∷ stopper_goes ∷ stopper_goes ∷ caller_goes ∷ []

-- The thread of the driver in front of its store.
abbrev about_to_ask : List Event
about_to_ask = call_run ∷ task_goes [] ∷ call_transfer rx_pdo ∷ caller_goes ∷ []

transfer_stuck_example :
    (occur_all
      (call_stop ∷ (task_goes [] ∷ []) ++ caller_goes ∷ stopping)
      (occur_all about_to_ask (at_start (0 ∷ 0 ∷ []) (0 ∷ [])))).caller
    ≡ waiting rx_pdo
unfolding occur_all
transfer_stuck_example =
    transfer_stuck rx_pdo (task_goes [] ∷ []) stopping
      (occur_all about_to_ask (at_start (0 ∷ 0 ∷ []) (0 ∷ []))) refl refl refl ((refl, refl), tt)
      (omega arith) (refl, (refl, (refl, (refl, (refl, tt)))))
