-- ===== src/Trinamic/Modes/Laws.antt =====
-- Which command mode switches the module accepts, and where they lead.
use soem_driver_ros.Base.{
  ◌≡◌, ◌≢◌, ◌↔◌, inl, inr, refl, Bool, true, false, ◌&&◌, List, [], ◌∷◌, map, Option, none, some,
  arith, if◌then◌else◌, Bool-cases, Option-cases, Text, codes, text_eq, text_eq_iff, text_eq_refl,
  contains,
}
use soem_driver_ros.Slave.{ReturnType, ok, error}
use soem_driver_ros.Trinamic.Modes.{
  CommandMode, stop, effort, velocity, position, mode_eq, command_mode_to_claim,
  claim_to_command_mode, apply_start, after_stop, next_mode, switch_starts, switch_stops,
  prepare_command_mode_switch, perform_command_mode_switch,
}

pub mode_eq_iff : (a b : CommandMode) → (mode_eq a b ≡ true) ↔ (a ≡ b)
mode_eq_iff a b = ground arith

-- Every mode of a list is `m`.
abbrev pub all_mode : CommandMode → List CommandMode → Bool
all_mode m [] = true
all_mode m (x ∷ xs) = mode_eq x m && all_mode m xs

-- What is left behind the claims at the front that stand for no drive mode.
abbrev pub skip_stops : List CommandMode → List CommandMode
skip_stops [] = []
skip_stops (x ∷ xs) = if mode_eq x stop then skip_stops xs else x ∷ xs

-- One mode for all of the list, or none.
abbrev pub agreed : List CommandMode → Option CommandMode
agreed [] = some stop
agreed (x ∷ xs) = if all_mode x xs then some x else none

abbrev pub modes : List Text → List CommandMode
modes = map claim_to_command_mode

apply_start-busy :
    (starts : List Text) (m : CommandMode)
    → m ≢ stop
    → apply_start starts m ≡ (if all_mode m (modes starts) then some m else none)
unfolding apply_start
apply_start-busy [] m h = refl
apply_start-busy (c ∷ cs) m h = ground (
  arith,
  mode_eq_iff (claim_to_command_mode c) m,
  mode_eq_iff m stop,
  apply_start-busy cs (claim_to_command_mode c),
)

apply_start-stopped :
    (starts : List Text) → apply_start starts stop ≡ agreed (skip_stops (modes starts))
unfolding apply_start
apply_start-stopped [] = refl
apply_start-stopped (c ∷ cs) = ground (
  arith,
  apply_start-stopped cs,
  mode_eq_iff (claim_to_command_mode c) stop,
  apply_start-busy cs (claim_to_command_mode c),
)

-- Which switches are accepted, and the mode that follows. Where the current mode keeps its claim,
-- every started claim must stand for it. Otherwise the module is free: the claims of no drive mode
-- (those of the gripper) that come first are passed over, and the claims from the first drive claim
-- on must all stand for the mode of that claim; with none the module stops.
pub next_mode_lem :
    (starts stops : List Text) (m : CommandMode)
    → next_mode starts stops m ≡ (
        if mode_eq (after_stop stops m) stop
        then agreed (skip_stops (modes starts))
        else (if all_mode (after_stop stops m) (modes starts)
            then some (after_stop stops m)
            else none))
unfolding next_mode
next_mode_lem starts stops m = elim (Bool-cases (mode_eq (after_stop stops m) stop)) [
  | inl e ↦ rw (e, (mode_eq_iff (after_stop stops m) stop).0 e) (apply_start-stopped starts)
  | inr e ↦ rw e (
      apply_start-busy starts (after_stop stops m)
        (λ p. ground (arith, mode_eq_iff (after_stop stops m) stop)))
]

switch_stops-after_stop :
    (stops : List Text) (m : CommandMode) → switch_stops stops m ≡ after_stop stops m
unfolding switch_stops after_stop
switch_stops-after_stop stops m = refl

switch_starts-apply_start :
    (starts : List Text) (m : CommandMode) → switch_starts starts m ≡ apply_start starts m
unfolding switch_starts apply_start
switch_starts-apply_start [] m = refl
switch_starts-apply_start (c ∷ cs) m =
    ground (arith, switch_starts-apply_start cs (claim_to_command_mode c))

-- The outcome of a switch that leads to a mode, or is refused.
abbrev pub outcome : CommandMode → Option CommandMode → ReturnType × CommandMode
outcome m none = (error, m)
outcome m (some m') = (ok, m')

pub perform-outcome :
    (starts stops : List Text) (m : CommandMode)
    → perform_command_mode_switch starts stops m ≡ outcome m (next_mode starts stops m)
unfolding perform_command_mode_switch next_mode
perform-outcome starts stops m =
    rw
      (
        switch_stops-after_stop stops m,
        switch_starts-apply_start starts (after_stop stops m),
        perform_command_mode_switch,
      )
      (elim (Option-cases (apply_start starts (after_stop stops m))) [
        | inl e ↦ rw e refl
        | inr (m', e) ↦ rw e refl
      ])

-- Preparing a switch changes nothing and answers as performing it does, which goes through the claims
-- again; a performed switch leads to the mode that preparing it found, and a refused one leaves the mode.
pub prepare-perform :
    (starts stops : List Text) (m : CommandMode)
    → ((prepare_command_mode_switch starts stops m).0
        ≡ (perform_command_mode_switch starts stops m).0)
      × ((prepare_command_mode_switch starts stops m).1 ≡ m)
      × (perform_command_mode_switch starts stops m ≡ outcome m (next_mode starts stops m))
unfolding prepare_command_mode_switch
prepare-perform starts stops m = elim (Option-cases (next_mode starts stops m)) [
  | inl e ↦ (
    rw (perform-outcome starts stops m, e, prepare_command_mode_switch) refl,
    rw (e, prepare_command_mode_switch) refl,
    perform-outcome starts stops m,
  )
  | inr (m', e) ↦ (
    rw (perform-outcome starts stops m, e, prepare_command_mode_switch) refl,
    rw (e, prepare_command_mode_switch) refl,
    perform-outcome starts stops m,
  )
]

-- A mode other than stopped, whose claim is not among the stopped ones, survives every switch,
-- accepted or refused.
pub perform-keeps_mode :
    (starts stops : List Text) (m : CommandMode)
    → m ≢ stop
    → contains stops (command_mode_to_claim m) ≡ false
    → (perform_command_mode_switch starts stops m).1 ≡ m
unfolding after_stop
perform-keeps_mode starts stops m busy kept =
    ground (arith, perform-outcome starts stops m, next_mode_lem starts stops m, mode_eq_iff m stop)

-- The modes that a switch can reach: to stop, and the three of the drive.
abbrev pub is_drive_mode : CommandMode → Bool
is_drive_mode stop = true
is_drive_mode effort = true
is_drive_mode velocity = true
is_drive_mode position = true
is_drive_mode _ = false

claim_to_command_mode-drive : (c : Text) → is_drive_mode (claim_to_command_mode c) ≡ true
unfolding claim_to_command_mode
claim_to_command_mode-drive c = ground arith

apply_start-drive :
    (starts : List Text) (m m' : CommandMode)
    → is_drive_mode m ≡ true
    → apply_start starts m ≡ some m'
    → is_drive_mode m' ≡ true
unfolding apply_start
apply_start-drive [] m m' h e = ground arith
apply_start-drive (c ∷ cs) m m' h e =
    ground (arith, claim_to_command_mode-drive c, apply_start-drive cs (claim_to_command_mode c) m')

after_stop-drive :
    (stops : List Text) (m : CommandMode)
    → is_drive_mode m ≡ true
    → is_drive_mode (after_stop stops m) ≡ true
unfolding after_stop
after_stop-drive stops m h = ground arith

next_mode-drive :
    (starts stops : List Text) (m m' : CommandMode)
    → is_drive_mode m ≡ true
    → next_mode starts stops m ≡ some m'
    → is_drive_mode m' ≡ true
unfolding next_mode
next_mode-drive starts stops m m' h e =
    apply_start-drive starts (after_stop stops m) m' (after_stop-drive stops m h) e

-- No switch leads from a drive mode, or from the stopped mode, to a mode of the initialisation.
pub perform-drive_mode :
    (starts stops : List Text) (m : CommandMode)
    → is_drive_mode m ≡ true
    → is_drive_mode (perform_command_mode_switch starts stops m).1 ≡ true
perform-drive_mode starts stops m h = elim (Option-cases (next_mode starts stops m)) [
  | inl e ↦ rw (perform-outcome starts stops m, e) h
  | inr (m', e) ↦ rw (perform-outcome starts stops m, e) (next_mode-drive starts stops m m' h e)
]

claim_of_mode :
    (m : CommandMode) → is_drive_mode m ≡ true → claim_to_command_mode (command_mode_to_claim m) ≡ m
unfolding claim_to_command_mode command_mode_to_claim text_eq
claim_of_mode stop h = refl
claim_of_mode effort h = refl
claim_of_mode velocity h = refl
claim_of_mode position h = refl
claim_of_mode _ h = cc

mode_of_claim :
    (c : Text)
    → claim_to_command_mode c ≢ stop
    → command_mode_to_claim (claim_to_command_mode c) ≡ c
unfolding claim_to_command_mode command_mode_to_claim
mode_of_claim c h = ground (
  arith,
  text_eq_iff c (codes "drive/position"),
  text_eq_iff c (codes "drive/velocity"),
  text_eq_iff c (codes "drive/effort"),
)

-- Drive modes and their claims stand for one another: the claim of a drive mode, or of the stopped
-- mode, leads back to it, and a claim that leads to another mode than stopped is that mode's claim.
pub claim-mode :
    (m : CommandMode) (c : Text)
    → is_drive_mode m ≡ true
    → claim_to_command_mode c ≢ stop
    → (claim_to_command_mode (command_mode_to_claim m) ≡ m)
      × (command_mode_to_claim (claim_to_command_mode c) ≡ c)
claim-mode m c h k = (claim_of_mode m h, mode_of_claim c k)

after_own_stop : (m : CommandMode) → after_stop (command_mode_to_claim m ∷ []) m ≡ stop
unfolding after_stop contains
after_own_stop m = rw (text_eq_refl (command_mode_to_claim m))

-- The order of the started claims decides: from any mode whose claim is stopped, a claim of no drive
-- mode is accepted before a drive claim and refused behind it.
pub order_of_starts :
    (m : CommandMode) (other drive : Text)
    → claim_to_command_mode other ≡ stop
    → claim_to_command_mode drive ≢ stop
    → (next_mode (other ∷ drive ∷ []) (command_mode_to_claim m ∷ []) m
        ≡ some (claim_to_command_mode drive))
      × (next_mode (drive ∷ other ∷ []) (command_mode_to_claim m ∷ []) m ≡ none)
unfolding next_mode apply_start
order_of_starts m other drive h k =
    rw (after_own_stop m, h)
      (ground (
        arith,
        mode_eq_iff (claim_to_command_mode drive) stop,
        mode_eq_iff stop (claim_to_command_mode drive),
      ))
