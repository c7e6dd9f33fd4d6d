-- ===== src/Trinamic/Reactions/Homing.antt =====
-- How far the homing of TrinamicTMCM1610 (tmcm1610.cpp) has come after read events, and what a write
-- event tells the drive then.
use soem_driver_ros.Base.{
  ◌≡◌, ◌≢◌, refl, sym, ap, subst, ◌∙◌, true, false, List, [], ◌∷◌, ◌++◌, map, Bool-cases, Option,
  none, some, inl, inr, arith,
}
use soem_driver_ros.Trinamic.Pdo.{TxPdo}
use soem_driver_ros.Trinamic.Doubles.{Doubles}
use soem_driver_ros.Trinamic.States.{StateId, initialize, motion_init, motion_c, Request}
use soem_driver_ros.Trinamic.Reactions.{
  WriteReaction, ignored, writes, Context, homing_configured, enter_plan, react_write,
}
use soem_driver_ros.Trinamic.Reactions
use soem_driver_ros.Trinamic.Reactions.Plans.{
  Region, PlanLaws, stages_of, run_reads, passes, walk, met_in_order, HomingStep, initialised,
  halted, at_current_limit, zeroed, backed_off, is_done, homing_steps, state_of, passes-is_done,
  motion_init-walk,
}

-- The state of the step that is under way, or the motion region behind the last one.
abbrev pub state_before : List HomingStep → StateId
state_before [] = motion_c
state_before (s ∷ steps) = state_of s

-- What a write event tells the drive while a step is under way: to stand still, with setpoint 0, in the
-- steps that wait for this; something in the steps that move it; and nothing behind the last step.
abbrev pub Tells : List HomingStep → WriteReaction → Type 0
Tells [] r = r ≡ ignored
Tells (halted ∷ steps) r = r ≡ writes Reactions.halted
Tells (zeroed ∷ steps) r = r ≡ writes Reactions.halted
Tells (_ ∷ steps) r = r ≢ ignored

head_of : {A : Type 0} → List A → Option A
head_of [] = none
head_of (x ∷ xs) = some x

same_head :
    {A B : Type 0} (f : A → B) (s x : A) (steps xs rest : List A)
    → s ∷ steps ≡ (x ∷ xs) ++ rest
    → f x ≡ f s
unfolding head_of
same_head f s x steps xs rest e =
    ap (λ o. elim o [ none ↦ f x | some y ↦ f y ]) (sym (ap head_of e))

module _ (d : Doubles) (c : Context d.D) where
  -- The steps that are done, in the order that readings have shown, and those that are left.
  abbrev Reached : List HomingStep → List TxPdo → StateId → Type 0
  Reached steps ps state =
      (done : List HomingStep) × (rest : List HomingStep) × (steps ≡ done ++ rest)
      × (met_in_order (is_done d c) done ps ≡ true)
      × (state ≡ state_before rest)

  -- The states of the steps, then the motion region.
  abbrev behind : List HomingStep → List StateId
  behind steps = map state_of steps ++ motion_c ∷ []

  walk-nothing : (a : StateId) (ps : List TxPdo) → walk d c a [] ps ≡ (a, [])
  walk-nothing a [] = refl
  walk-nothing a (p ∷ ps) = refl

  met-Reached :
      (s : HomingStep) (steps : List HomingStep) (p : TxPdo) (ps : List TxPdo) (state : StateId)
      → is_done d c s p ≡ true
      → Reached steps ps state
      → Reached (s ∷ steps) (p ∷ ps) state
  met-Reached s steps p ps state h (done, rest, split, met, here) =
      (s ∷ done, rest, ap (λ l. s ∷ l) split, rw h met, here)

  unmet-Reached :
      (s : HomingStep) (steps : List HomingStep) (p : TxPdo) (ps : List TxPdo) (state : StateId)
      → is_done d c s p ≡ false
      → Reached (s ∷ steps) ps state
      → Reached (s ∷ steps) (p ∷ ps) state
  unmet-Reached s steps p ps state h ([], rest, split, met, here) = ([], rest, split, refl, here)
  unmet-Reached s steps p ps state h (x ∷ done, rest, split, met, here) = (
    x ∷ done,
    rest,
    split,
    rw (same_head (λ y. is_done d c y p) s x steps done rest split ∙ h) met,
    here,
  )

  walk-Reached :
      (s : HomingStep) (steps : List HomingStep) (ps : List TxPdo)
      → Reached (s ∷ steps) ps (walk d c (state_of s) (behind steps) ps).0
  walk-Reached s [] [] = ([], s ∷ [], refl, refl, refl)
  walk-Reached s (s' ∷ steps) [] = ([], s ∷ s' ∷ steps, refl, refl, refl)
  walk-Reached s [] (p ∷ ps) = elim (Bool-cases (passes d c (state_of s) p)) [
    | inl yes_it ↦ rw yes_it (
        met-Reached s [] p ps _ (sym (passes-is_done d c s p) ∙ yes_it)
          ([], [], refl, refl, ap (λ w. w.0) (walk-nothing motion_c ps)))
    | inr not_yet ↦
        rw not_yet (
          unmet-Reached s [] p ps _ (sym (passes-is_done d c s p) ∙ not_yet) (walk-Reached s [] ps))
  ]
  walk-Reached s (s' ∷ steps) (p ∷ ps) = elim (Bool-cases (passes d c (state_of s) p)) [
    | inl yes_it ↦ rw yes_it (
        met-Reached s (s' ∷ steps) p ps _ (sym (passes-is_done d c s p) ∙ yes_it)
          (walk-Reached s' steps ps))
    | inr not_yet ↦ rw not_yet (
        unmet-Reached s (s' ∷ steps) p ps _ (sym (passes-is_done d c s p) ∙ not_yet)
          (walk-Reached s (s' ∷ steps) ps))
  ]

  react_write-Tells : (rest : List HomingStep) → Tells rest (react_write d (state_before rest) c)
  unfolding react_write
  react_write-Tells [] = refl
  react_write-Tells (initialised ∷ rest) = ground arith
  react_write-Tells (halted ∷ rest) = refl
  react_write-Tells (at_current_limit ∷ rest) = ground arith
  react_write-Tells (zeroed ∷ rest) = refl
  react_write-Tells (backed_off ∷ rest) = ground arith

-- Under a machine that carries plans out, with homing configured, after any read events: the steps of the
-- homing fall into those that readings have shown to be done, one after the other and in their order,
-- and the rest; the region stands in the state of the first step that is left, or in the motion
-- region; and a write event stops the drive, with setpoint 0, where that step waits for a halt or for
-- the zeroed position, is ignored behind the last step, and has a reaction in the other steps.
pub homing_progress :
    (d : Doubles) (process : Region → Request → Region)
    → PlanLaws process
    → (c : Context d.D) (ps : List TxPdo) → homing_configured d c ≡ true
    → let state = (run_reads d process c (initialize, enter_plan d motion_init c) ps).0 in
      (done : List HomingStep) × (rest : List HomingStep) × (homing_steps ≡ done ++ rest)
      × (met_in_order (is_done d c) done ps ≡ true)
      × (state ≡ state_before rest)
      × Tells rest (react_write d state c)
homing_progress d process laws c ps configured =
    let (done, rest, split, met, here) =
      walk-Reached d c initialised
        (halted ∷ at_current_limit ∷ halted ∷ zeroed ∷ backed_off ∷ halted ∷ zeroed ∷ []) ps in
    let stands =
      ap (λ r. r.0) (motion_init-walk d process laws c ps)
      ∙ ap (λ b. (walk d c initialize (stages_of b) ps).0) configured
      ∙ here in
    (
      done,
      rest,
      split,
      met,
      stands,
      subst (λ s. Tells rest (react_write d s c)) (sym stands) (react_write-Tells d c rest),
    )
