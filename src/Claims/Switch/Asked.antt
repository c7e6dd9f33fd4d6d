-- ===== src/Claims/Switch/Asked.antt =====
-- Who is asked for what in a command mode switch, and what the answer means.
use soem_driver_ros.Base.{
  ◌≡◌, ◌↔◌, refl, ap, sym, ◌∙◌, Bool, true, false, ◌&&◌, List, [], ◌∷◌, ◌++◌, map, arith,
  if◌then◌else◌, All, append-nil, append_assoc, Text, text_eq, text_eq_iff, Dict, lookup, lookup_or,
  lookup-assign, emplace, lookup-emplace,
}
use soem_driver_ros.Slave.{ReturnType, ok, error, is_ok, SlaveOps}
use soem_driver_ros.Claims.Resolve.{EcClaimsResolver}
use soem_driver_ros.Claims.Switch.{
  push_claim, group_claims, ask_slaves, all_ok, prepare_command_mode_switch,
  perform_command_mode_switch,
}

-- The claims of a slave among the interfaces, in their order. A missing interface counts as claim ""
-- of slave "".
abbrev pub claims_of : Dict (Text × Text) → Text → List Text → List Text
claims_of m slave [] = []
claims_of m slave (i ∷ is) =
    if text_eq (lookup_or ([], []) i m).0 slave
    then (lookup_or ([], []) i m).1 ∷ claims_of m slave is
    else claims_of m slave is

lookup_or-emplace :
    (k j : Text) (m : Dict (Text × Text))
    → lookup_or ([], []) j (emplace k ([], []) m) ≡ lookup_or ([], []) j m
lookup_or-emplace k j m = ground (arith, lookup-emplace k j ([], []) m, text_eq_iff k j)

pub claims_of-eq :
    (m m' : Dict (Text × Text)) (slave : Text) (is : List Text)
    → ((j : Text) → lookup_or ([], []) j m ≡ lookup_or ([], []) j m')
    → claims_of m slave is ≡ claims_of m' slave is
claims_of-eq m m' slave [] e = refl
claims_of-eq m m' slave (i ∷ is) e = rw (e i, claims_of-eq m m' slave is e)

lookup-push_claim :
    (slave claim name : Text) (by_slave : Dict (List Text))
    → lookup_or [] name (push_claim slave claim by_slave)
      ≡ lookup_or [] name by_slave ++ (if text_eq slave name then claim ∷ [] else [])
unfolding push_claim
lookup-push_claim slave claim name by_slave = ground (
  arith,
  lookup-assign slave name (lookup_or [] slave by_slave ++ claim ∷ []) by_slave,
  text_eq_iff slave name,
  append-nil (lookup_or [] name by_slave),
)

if-cons :
    (b : Bool) (c : Text) (cs : List Text)
    → (if b then c ∷ [] else []) ++ cs ≡ (if b then c ∷ cs else cs)
if-cons true c cs = refl
if-cons false c cs = refl

-- The loop gathers the claims of each slave.
group_claims-gathers :
    (is : List Text) (by_slave : Dict (List Text)) (m : Dict (Text × Text)) (name : Text)
    → lookup_or [] name (group_claims is by_slave m).0
      ≡ lookup_or [] name by_slave ++ claims_of m name is
unfolding group_claims
group_claims-gathers [] by_slave m name = sym (append-nil _)
group_claims-gathers (i ∷ is) by_slave m name =
    group_claims-gathers is _ (emplace i ([], []) m) name
    ∙ rw
        (
          claims_of-eq (emplace i ([], []) m) m name is (λ j. lookup_or-emplace i j m),
          lookup-push_claim (lookup_or ([], []) i m).0 (lookup_or ([], []) i m).1 name by_slave,
          append_assoc,
        )
        (ap (◌++◌ (lookup_or [] name by_slave))
          (if-cons (text_eq (lookup_or ([], []) i m).0 name) _ _))

-- What operator[] adds reads as what was missing.
group_claims-lookup :
    (is : List Text) (by_slave : Dict (List Text)) (m : Dict (Text × Text)) (j : Text)
    → lookup_or ([], []) j (group_claims is by_slave m).1 ≡ lookup_or ([], []) j m
unfolding group_claims
group_claims-lookup [] by_slave m j = refl
group_claims-lookup (i ∷ is) by_slave m j =
    group_claims-lookup is _ (emplace i ([], []) m) j ∙ lookup_or-emplace i j m

all_ok_parts :
    (r : ReturnType) (rs : List ReturnType)
    → (if is_ok r && all_ok rs then ok else error) ≡ ok
    → (r ≡ ok) × ((if all_ok rs then ok else error) ≡ ok)
all_ok_parts ok rs h = (refl, h)
all_ok_parts error rs h = cc

module _ {S : Type 0} (switch : List Text → List Text → S → ReturnType × S) where
  -- The answer of a slave and the state that it is left in.
  abbrev pub asked : Dict (Text × Text) → List Text → List Text → Text × S → ReturnType × S
  asked m start stop (name, s) = switch (claims_of m name start) (claims_of m name stop) s

  ask_slaves-asked :
      (m : Dict (Text × Text)) (start stop : List Text) (start_by stop_by : Dict (List Text))
      → ((name : Text) → lookup_or [] name start_by ≡ claims_of m name start)
      → ((name : Text) → lookup_or [] name stop_by ≡ claims_of m name stop)
      → (slaves : Dict S)
      → ask_slaves switch start_by stop_by slaves ≡ (
        map (λ e. (asked m start stop e).0) slaves,
        map (λ e. (e.0, (asked m start stop e).1)) slaves,
      )
  unfolding ask_slaves
  ask_slaves-asked m start stop start_by stop_by hs ht [] = refl
  ask_slaves-asked m start stop start_by stop_by hs ht ((name, s) ∷ slaves) =
      rw (hs name, ht name, ask_slaves-asked m start stop start_by stop_by hs ht slaves)

  all_ok-asked :
      (m : Dict (Text × Text)) (start stop : List Text) (slaves : Dict S)
      → ((if all_ok (map (λ e. (asked m start stop e).0) slaves) then ok else error) ≡ ok)
        ↔ All (λ e. (asked m start stop e).0 ≡ ok) slaves
  all_ok-asked m start stop [] = (λ _. tt, λ _. refl)
  all_ok-asked m start stop (e ∷ slaves) =
      let rest = map (λ e. (asked m start stop e).0) slaves in
      let ih = all_ok-asked m start stop slaves in
      (
        λ h. let parts = all_ok_parts (asked m start stop e).0 rest h in (parts.0, ih.0 parts.1),
        λ h. ground (arith, ih.1 h.1),
      )

  -- Every slave is asked once, with its claims among the started and the stopped interfaces.
  ask_slaves-grouped :
      (m : Dict (Text × Text)) (start stop : List Text) (slaves : Dict S)
      → ask_slaves switch
          (group_claims start [] m).0
          (group_claims stop [] (group_claims start [] m).1).0
          slaves
        ≡ (
          map (λ e. (asked m start stop e).0) slaves,
          map (λ e. (e.0, (asked m start stop e).1)) slaves,
        )
  unfolding lookup
  ask_slaves-grouped m start stop slaves =
      ask_slaves-asked m start stop _ _ (group_claims-gathers start [] m)
        (λ name.
          group_claims-gathers stop [] _ name
          ∙ claims_of-eq _ m name stop (group_claims-lookup start [] m))
        slaves

  -- What a switch has to do, given the state before it and its outcome.
  abbrev pub Asks :
      List Text → List Text → EcClaimsResolver S → ReturnType × EcClaimsResolver S → Type 0
  Asks start stop r out =
      (out.1.slaves ≡ map (λ e. (e.0, (asked r.command_interface_map start stop e).1)) r.slaves)
      × ((out.0 ≡ ok) ↔ All (λ e. (asked r.command_interface_map start stop e).0 ≡ ok) r.slaves)
      × ((j : Text)
          → lookup_or ([], []) j out.1.command_interface_map
            ≡ lookup_or ([], []) j r.command_interface_map)

module _ {S : Type 0} (ops : SlaveOps S) (start stop : List Text) (r : EcClaimsResolver S) where
  open r use {command_interface_map as m}

  both_lookups :
      (j : Text)
      → lookup_or ([], []) j (group_claims stop [] (group_claims start [] m).1).1
        ≡ lookup_or ([], []) j m
  both_lookups j = group_claims-lookup stop [] _ j ∙ group_claims-lookup start [] m j

  -- Preparing and performing a switch ask every slave once, with the claims that the started and the
  -- stopped interfaces map to on that slave and no other, and keep the states that the slaves are
  -- left in, also when one refuses. The answer is OK just when all slaves answer OK, and the map reads
  -- as before.
  pub command_mode_switch-Asks :
      Asks ops.prepare_command_mode_switch start stop r
        (prepare_command_mode_switch ops start stop r)
      × Asks ops.perform_command_mode_switch start stop r
          (perform_command_mode_switch ops start stop r)
  unfolding prepare_command_mode_switch perform_command_mode_switch
  command_mode_switch-Asks =
      let prepared = ask_slaves-grouped ops.prepare_command_mode_switch m start stop r.slaves in
      let performed = ask_slaves-grouped ops.perform_command_mode_switch m start stop r.slaves in
      (
        (
          ap (λ p. p.1) prepared,
          rw prepared (all_ok-asked ops.prepare_command_mode_switch m start stop r.slaves),
          both_lookups,
        ),
        (
          ap (λ p. p.1) performed,
          rw performed (all_ok-asked ops.perform_command_mode_switch m start stop r.slaves),
          both_lookups,
        ),
      )
