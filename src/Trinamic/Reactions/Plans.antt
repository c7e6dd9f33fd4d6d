-- ===== src/Trinamic/Reactions/Plans.antt =====
-- The two planned regions as sequences of stages. How hfsm2 carries a plan out is a parameter, with
-- what the code relies on: succeed() in the origin of the next task changes to its destination and
-- uses the task up, and a handler that asks for nothing leaves the region as it is.
use soem_driver_ros.Base.{
  ◌≡◌, refl, ap, sym, ◌∙◌, Bool, true, false, ◌&&◌, ltb, ◌^◌, List, [], ◌∷◌, map, arith,
  if◌then◌else◌, Bool-cases, inl, inr, All, length, ◌≤◌,
}
use soem_driver_ros.Trinamic.Pdo.{initialized, position_reached, has_flag, TxPdo}
use soem_driver_ros.Trinamic.Doubles.{Doubles}
use soem_driver_ros.Trinamic.States.{
  StateId, initialize, home_axis, halt_axis, backoff_axis, zero_axis_position, motion_init,
  motion_c, Request, nothing, succeed, Task, task, magnitude, fabs_lt,
}
use soem_driver_ros.Trinamic.Reactions.{
  Context, homing_configured, enter_plan, is_oriented_magnitude_gte, react_read,
}
use mathlib.Core.Path.{subst}

-- The active state of a planned region and the tasks that are left.
abbrev pub Region : Type 0
Region = StateId × List Task

pub record PlanLaws (process : Region → Request → Region) : Type 0 where
  pub advances :
      (a b : StateId) (rest : List Task) → process (a, task a b ∷ rest) succeed ≡ (b, rest)
  pub waits : (r : Region) → process r nothing ≡ r

-- The plan that leads through a list of stages, one after the other.
abbrev pub through : StateId → List StateId → List Task
through a [] = []
through a (b ∷ stages) = task a b ∷ through b stages

-- The stages of the region of motion initialisation behind the first one.
abbrev pub homing_stages : List StateId
homing_stages =
    halt_axis ∷ home_axis ∷ halt_axis ∷ zero_axis_position ∷ backoff_axis ∷ halt_axis
    ∷ zero_axis_position ∷ motion_c ∷ []

abbrev pub stages_of : Bool → List StateId
stages_of true = homing_stages
stages_of false = motion_c ∷ []

module _ (d : Doubles) (process : Region → Request → Region) where
  open d use {D}

  -- A run of read events.
  pub run_reads : Context D → Region → List TxPdo → Region
  run_reads c r [] = r
  run_reads c r (p ∷ ps) = run_reads c (process r (react_read d r.0 p c)) ps

-- The last stage, and those before it.
abbrev pub last_of : StateId → List StateId → StateId
last_of a [] = a
last_of a (b ∷ stages) = last_of b stages

abbrev pub before_last : StateId → List StateId → List StateId
before_last a [] = []
before_last a (b ∷ stages) = a ∷ before_last b stages

abbrev pub is_succeed : Request → Bool
is_succeed succeed = true
is_succeed _ = false

module _ (d : Doubles) (c : Context d.D) where
  -- The process data satisfies the condition of a stage.
  abbrev pub passes : StateId → TxPdo → Bool
  passes s p = is_succeed (react_read d s p c)

  -- The stage that is reached, and those that are left: a reading that satisfies the condition of the
  -- stage leads to the next one, any other changes nothing, and the last stage is kept.
  abbrev pub walk : StateId → List StateId → List TxPdo → StateId × List StateId
  walk a stages [] = (a, stages)
  walk a [] (p ∷ ps) = (a, [])
  walk a (b ∷ stages) (p ∷ ps) = if passes a p then walk b stages ps else walk a (b ∷ stages) ps

  walk_arrives :
      (a : StateId) (stages : List StateId) (ps : List TxPdo)
      → All (λ p. All (λ s. passes s p ≡ true) (before_last a stages)) ps
      → length stages ≤ length ps
      → walk a stages ps ≡ (last_of a stages, [])
  walk_arrives a [] [] h n = refl
  walk_arrives a [] (p ∷ ps) h n = refl
  walk_arrives a (b ∷ stages) [] h n = absurd (omega arith)
  walk_arrives a (b ∷ stages) (p ∷ ps) h n =
      rw h.0.0 (walk_arrives b stages ps (fewer ps h.1) (omega arith))
    where
      fewer :
          (qs : List TxPdo)
          → All (λ q. All (λ s. passes s q ≡ true) (a ∷ before_last b stages)) qs
          → All (λ q. All (λ s. passes s q ≡ true) (before_last b stages)) qs
      fewer [] k = tt
      fewer (q ∷ qs) k = (k.0.1, fewer qs k.1)

  read_request :
      (s : StateId) (p : TxPdo) → react_read d s p c ≡ (if passes s p then succeed else nothing)
  unfolding react_read
  read_request s p = ground arith

  module _ (process : Region → Request → Region) (laws : PlanLaws process) where
    run_reads-last : (ps : List TxPdo) → run_reads d process c (motion_c, []) ps ≡ (motion_c, [])
    unfolding run_reads react_read
    run_reads-last [] = refl
    run_reads-last (p ∷ ps) =
        ap (λ r. run_reads d process c r ps) (laws.waits (motion_c, [])) ∙ run_reads-last ps

    run_reads-walk :
        (a : StateId) (stages : List StateId) (ps : List TxPdo)
        → last_of a stages ≡ motion_c
        → run_reads d process c (a, through a stages) ps
          ≡ ((walk a stages ps).0, through (walk a stages ps).0 (walk a stages ps).1)
    unfolding run_reads
    run_reads-walk a stages [] e = refl
    run_reads-walk a [] (p ∷ ps) e = rw e (run_reads-last (p ∷ ps))
    run_reads-walk a (b ∷ stages) (p ∷ ps) e = elim (Bool-cases (passes a p)) [
      | inl yes_it ↦
          rw (read_request a p, yes_it, laws.advances a b (through b stages))
            (run_reads-walk b stages ps e)
      | inr not_yet ↦
          rw (read_request a p, not_yet, laws.waits (a, through a (b ∷ stages)))
            (run_reads-walk a (b ∷ stages) ps e)
    ]

through_nothing : (a : StateId) (stages : List StateId) → through a stages ≡ [] → stages ≡ []
through_nothing a [] e = refl
through_nothing a (b ∷ stages) e = absurd cc

-- Motion initialisation under a machine that carries plans out: after any read events the region
-- stands where the stages have been walked to, with the rest of the plan before it. With homing
-- configured these are all stages of the homing, otherwise the motion region follows at once.
pub motion_init-walk :
    (d : Doubles) (process : Region → Request → Region)
    → PlanLaws process
    → (c : Context d.D) (ps : List TxPdo)
    → let w = walk d c initialize (stages_of (homing_configured d c)) ps in
      run_reads d process c (initialize, enter_plan d motion_init c) ps ≡ (w.0, through w.0 w.1)
unfolding enter_plan
motion_init-walk d process laws c ps = elim (Bool-cases (homing_configured d c)) [
  | inl e ↦ rw e (run_reads-walk d c process laws initialize homing_stages ps refl)
  | inr e ↦ rw e (run_reads-walk d c process laws initialize (motion_c ∷ []) ps refl)
]

-- Readings meet the conditions of a list of stages one after the other, each by a reading of its own.
abbrev pub met_in_order : {A : Type 0} → (A → TxPdo → Bool) → List A → List TxPdo → Bool
met_in_order f [] ps = true
met_in_order f (s ∷ stages) [] = false
met_in_order f (s ∷ stages) (p ∷ ps) =
    if f s p then met_in_order f stages ps else met_in_order f (s ∷ stages) ps

-- The steps of the homing, and what the process data shows when each is done.
pub data HomingStep : Type 0 where
  initialised halted at_current_limit zeroed backed_off : HomingStep

module _ (d : Doubles) (c : Context d.D) where
  -- The current is at the limit in mA, or beyond it in the direction of its sign.
  abbrev pub is_done : HomingStep → TxPdo → Bool
  is_done initialised p = has_flag initialized p.status_flags
  is_done halted p =
      ltb c.halt_axis_vel_eps_rpm (2 ^ 31) && ltb (magnitude p.vel_rpm) c.halt_axis_vel_eps_rpm
  is_done at_current_limit p =
      let limit_ma = d.mul c.homing_current_limit (d.of_nat 1000) in
      d.leb (d.of_nat 0)
        (d.mul (d.sub (d.of_int32 p.current_ma) limit_ma) (d.copysign (d.of_nat 1) limit_ma))
  is_done zeroed p =
      ltb c.zero_axis_pos_eps_ticks (2 ^ 31)
      && ltb (magnitude p.position_ticks) c.zero_axis_pos_eps_ticks
  is_done backed_off p = has_flag position_reached p.status_flags

-- The order of the homing.
abbrev pub homing_steps : List HomingStep
homing_steps =
    initialised ∷ halted ∷ at_current_limit ∷ halted ∷ zeroed ∷ backed_off ∷ halted ∷ zeroed ∷ []

-- The state that does a step.
abbrev pub state_of : HomingStep → StateId
state_of initialised = initialize
state_of halted = halt_axis
state_of at_current_limit = home_axis
state_of zeroed = zero_axis_position
state_of backed_off = backoff_axis

module _ (d : Doubles) (c : Context d.D) where
  pub passes-is_done : (s : HomingStep) (p : TxPdo) → passes d c (state_of s) p ≡ is_done d c s p
  unfolding react_read fabs_lt is_oriented_magnitude_gte
  passes-is_done s p = ground arith

  walk_in_order :
      (a : StateId) (stages : List StateId) (ps : List TxPdo)
      → (walk d c a stages ps).1 ≡ []
      → met_in_order (passes d c) (before_last a stages) ps ≡ true
  walk_in_order a [] ps e = refl
  walk_in_order a (b ∷ stages) [] e = cc
  walk_in_order a (b ∷ stages) (p ∷ ps) e = elim (Bool-cases (passes d c a p)) [
    | inl yes_it ↦ rw yes_it (walk_in_order b stages ps (ground (arith, yes_it, e)))
    | inr not_yet ↦ rw not_yet (walk_in_order a (b ∷ stages) ps (ground (arith, not_yet, e)))
  ]

  steps_in_order :
      (steps : List HomingStep) (ps : List TxPdo)
      → met_in_order (passes d c) (map state_of steps) ps ≡ met_in_order (is_done d c) steps ps
  steps_in_order [] ps = refl
  steps_in_order (s ∷ steps) [] = refl
  steps_in_order (s ∷ steps) (p ∷ ps) =
      rw (passes-is_done s p, steps_in_order steps ps, steps_in_order (s ∷ steps) ps) refl

-- Under a machine that carries plans out, with homing configured: where read events have used up the
-- plan of motion initialisation, readings have shown in this order, one after the other, that the
-- drive was initialised, was halted, was at the current limit of the homing, was halted, had its
-- position zeroed, was backed off, was halted, and had its position zeroed.
pub homing_complete :
    (d : Doubles) (process : Region → Request → Region)
    → PlanLaws process
    → (c : Context d.D) (ps : List TxPdo) → homing_configured d c ≡ true
    → (run_reads d process c (initialize, enter_plan d motion_init c) ps).1 ≡ []
    → met_in_order (is_done d c) homing_steps ps ≡ true
homing_complete d process laws c ps configured used =
    sym (steps_in_order d c homing_steps ps)
    ∙ walk_in_order d c initialize homing_stages ps (through_nothing _ _ left)
  where
    left :
        through (walk d c initialize homing_stages ps).0 (walk d c initialize homing_stages ps).1
        ≡ []
    left =
        subst (λ st. through (walk d c initialize st ps).0 (walk d c initialize st ps).1 ≡ [])
          (ap stages_of configured)
          (sym (ap (λ r. r.1) (motion_init-walk d process laws c ps)) ∙ used)

-- Under a machine that carries plans out readings that each meet the conditions of all stages lead
-- from motion initialisation to the motion region, with the plan used up: eight are enough with
-- homing, one without.
pub motion_init-arrives :
    (d : Doubles) (process : Region → Request → Region)
    → PlanLaws process
    → (c : Context d.D) (ps : List TxPdo)
    → All
        (λ p.
          All
            (λ s. passes d c s p ≡ true)
            (before_last initialize (stages_of (homing_configured d c))))
        ps
    → length (stages_of (homing_configured d c)) ≤ length ps
    → run_reads d process c (initialize, enter_plan d motion_init c) ps ≡ (motion_c, [])
motion_init-arrives d process laws c ps met enough =
    motion_init-walk d process laws c ps
    ∙ ap (λ w. (w.0, through w.0 w.1))
        (walk_arrives d c initialize (stages_of (homing_configured d c)) ps met enough)
    ∙ ap (λ s. (s, []))
        (elim (Bool-cases (homing_configured d c)) [ inl e ↦ rw e refl | inr e ↦ rw e refl ])
