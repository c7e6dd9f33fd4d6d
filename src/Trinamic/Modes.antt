-- ===== src/Trinamic/Modes.antt =====
-- TrinamicTMCM1610 (tmcm1610.cpp): command modes, the claims that stand for them, and the choice of
-- the next mode in a command mode switch.
pub mod Laws
use soem_driver_ros.Base.{
  ℕ, Bool, true, false, ◌&&◌, ◌||◌, ◌==◌, List, [], ◌∷◌, Option, none, some, if◌then◌else◌, Text,
  codes, text_eq, contains,
}
use soem_driver_ros.Slave.{ReturnType, ok, error}

pub data CommandMode : Type 0 where
  stop effort velocity position initialize set_reference no_more_action : CommandMode

-- (uint8_t)COMMAND_MODE
abbrev pub mode_code : CommandMode → ℕ
mode_code stop = 0
mode_code effort = 6
mode_code velocity = 2
mode_code position = 1
mode_code initialize = 7
mode_code set_reference = 4
mode_code no_more_action = 3

abbrev pub mode_eq : CommandMode → CommandMode → Bool
mode_eq a b = mode_code a == mode_code b

unfoldable pub command_mode_to_claim : CommandMode → Text
command_mode_to_claim position = codes "drive/position"
command_mode_to_claim velocity = codes "drive/velocity"
command_mode_to_claim effort = codes "drive/effort"
command_mode_to_claim _ = codes "<none>"

unfoldable pub claim_to_command_mode : Text → CommandMode
claim_to_command_mode claim =
    if text_eq claim (codes "drive/position")
    then position
    else (if text_eq claim (codes "drive/velocity")
        then velocity
        else (if text_eq claim (codes "drive/effort") then effort else stop))

-- The loop over start_interfaces; `none` is the early return with ERROR.
unfoldable pub apply_start : List Text → CommandMode → Option CommandMode
unfolding claim_to_command_mode
apply_start [] next_command_mode = some next_command_mode
apply_start (start_interface ∷ start_interfaces) next_command_mode =
    let rest = apply_start start_interfaces (claim_to_command_mode start_interface) in
    if mode_eq (claim_to_command_mode start_interface) next_command_mode
      || mode_eq next_command_mode stop
    then rest
    else none

-- The mode after the stopped claims are given up.
unfoldable pub after_stop : List Text → CommandMode → CommandMode
unfolding command_mode_to_claim
after_stop stop_interfaces command_mode =
    if contains stop_interfaces (command_mode_to_claim command_mode) then stop else command_mode

unfoldable pub next_mode : List Text → List Text → CommandMode → Option CommandMode
unfolding apply_start after_stop
next_mode start_interfaces stop_interfaces command_mode =
    apply_start start_interfaces (after_stop stop_interfaces command_mode)

-- The two methods work on the field command_mode, the only one that they use.
unfoldable pub prepare_command_mode_switch :
    List Text → List Text → CommandMode → ReturnType × CommandMode
unfolding next_mode
prepare_command_mode_switch start_interfaces stop_interfaces command_mode =
    elim (next_mode start_interfaces stop_interfaces command_mode) [
      | none ↦ (error, command_mode)
      | some _ ↦ (ok, command_mode)
    ]

-- The same steps in the other method, which has a text of its own.
unfoldable pub switch_starts : List Text → CommandMode → Option CommandMode
unfolding claim_to_command_mode
switch_starts [] next_command_mode = some next_command_mode
switch_starts (start_interface ∷ start_interfaces) next_command_mode =
    let start_mode = claim_to_command_mode start_interface in
    let rest = switch_starts start_interfaces start_mode in
    if mode_eq start_mode next_command_mode || mode_eq next_command_mode stop then rest else none

unfoldable pub switch_stops : List Text → CommandMode → CommandMode
unfolding command_mode_to_claim
switch_stops stop_interfaces next_command_mode =
    if contains stop_interfaces (command_mode_to_claim next_command_mode)
    then stop
    else next_command_mode

unfoldable pub perform_command_mode_switch :
    List Text → List Text → CommandMode → ReturnType × CommandMode
unfolding switch_starts switch_stops
perform_command_mode_switch start_interfaces stop_interfaces command_mode =
    elim (switch_starts start_interfaces (switch_stops stop_interfaces command_mode)) [
      | none ↦ (error, command_mode)
      | some next_command_mode ↦ (ok, next_command_mode)
    ]
