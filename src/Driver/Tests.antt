-- ===== src/Driver/Tests.antt =====
-- A message sent and its answer fetched while the threads take turns, and a switch of one motor in
-- both phases.
use soem_driver_ros.Base.{All, ◌≡◌, refl, true, false, List, [], ◌∷◌, ◌++◌, some, Text, codes, Dict}
use soem_driver_ros.Slave.{Handle}
use soem_driver_ros.Claims.Resolve.{EcClaimsResolver}
use soem_driver_ros.Master.Mailboxes.{positive, MbxAnswer}
use soem_driver_ros.Driver.Mailboxes.{
  Mail, outside, Link, Action, fetch, start_write, store, master_send, master_receive, enqueue,
  consume, act_all,
}
use soem_driver_ros.Driver.Mailboxes.Handshake.{
  gathered, consumed, received, waiting, pending, quiet, taken, sent, act_all-in_order, Sized,
  act_all-once,
}
use soem_driver_ros.Driver.Modes.{prepare_command_mode_switch, perform_command_mode_switch}
use soem_driver_ros.Driver.Modes.Phases.{
  tmcm1610, tmcm1610-Predicts, perform_command_mode_switch-answer,
}
use soem_driver_ros.Trinamic.Modes.{CommandMode}

abbrev link : Link
link = record {
  access = record {
    s_mbx = 0 ∷ 0 ∷ [];
    r_mbx = 0 ∷ 0 ∷ [];
    send_mbx_request = false;
    receive_mbx = false;
    receive_mbx_raw = false;
    receive_mbx_has_unread = false;
  };
  mbx_send_queue = [];
  mbx_receive_queue = [];
  stage = outside;
}

abbrev answer : MbxAnswer
answer = record { accepted = true; wkc = positive; content = 3 ∷ 4 ∷ 5 ∷ [] }

abbrev mail : Mail
mail = record { content = 8 ∷ []; read_response = true; read_mbx_raw = false }

abbrev actions : List Action
actions =
    enqueue mail true
    ∷ start_write
    ∷ store
    ∷ master_send answer
    ∷ store
    ∷ store
    ∷ master_send answer
    ∷ master_receive answer
    ∷ fetch true
    ∷ master_receive answer
    ∷ consume
    ∷ []

-- The link after the actions.
after : (l' : Link) × (act_all actions link ≡ some l')
unfolding act_all
after = (_, refl)

act_all-in_order_example :
    gathered consumed actions link ++ waiting after.0
    ≡ waiting link ++ gathered received actions link
act_all-in_order_example = act_all-in_order actions link after.0 after.1

act_all-once_example :
    (quiet after.0.stage after.0.access ≡ true)
    × (pending link ++ gathered taken actions link ≡ gathered sent actions link ++ pending after.0)
act_all-once_example = act_all-once actions link after.0 refl after.1

actions-Sized : All (Sized 3) actions
actions-Sized = (tt, (tt, (tt, (tt, (tt, (tt, (tt, (refl, (tt, (refl, (tt, tt)))))))))))

abbrev no_handles : CommandMode → List Handle × CommandMode
no_handles m = ([], m)

abbrev resolver : EcClaimsResolver CommandMode
resolver = record {
  slave_interfaces = [];
  command_interface_map = (codes "arm/velocity", (codes "m", codes "drive/velocity")) ∷ [];
  slaves = (codes "m", CommandMode.stop) ∷ [];
  joint_claims = [];
}

abbrev transmissions : Dict Text
transmissions = (codes "joint/velocity", codes "arm/velocity") ∷ []

perform_command_mode_switch-answer_example :
    let prepared =
      prepare_command_mode_switch
        (tmcm1610 no_handles no_handles)
        transmissions
        (codes "joint/velocity" ∷ [])
        []
        resolver in
    (prepared.1.slaves ≡ resolver.slaves)
    × ((perform_command_mode_switch
          (tmcm1610 no_handles no_handles)
          transmissions
          (codes "joint/velocity" ∷ [])
          []
          prepared.1).0
        ≡ prepared.0)
perform_command_mode_switch-answer_example =
    perform_command_mode_switch-answer (tmcm1610 no_handles no_handles)
      (tmcm1610-Predicts no_handles no_handles) transmissions (codes "joint/velocity" ∷ []) []
      resolver
