-- ===== src/Driver/Modes/Phases.antt =====
-- The two phases of a command mode switch agree, for slaves that prepare a switch without a change and
-- answer as they do when they perform it; the module of the TMCM1610 is such a slave.
use mathlib.Core.Path.{subst}
use soem_driver_ros.Base.{◌≡◌, ◌↔◌, refl, sym, ◌∙◌, List, [], ◌∷◌, map, All, Text, Dict, lookup_or}
use soem_driver_ros.Slave.{Handle, ReturnType, ok, error, SlaveOps}
use soem_driver_ros.Claims.Resolve.{EcClaimsResolver}
use soem_driver_ros.Claims.Switch
use soem_driver_ros.Claims.Switch.Asked.{claims_of, claims_of-eq, asked, command_mode_switch-Asks}
use soem_driver_ros.Driver.Modes.{
  map_interface, prepare_command_mode_switch, perform_command_mode_switch,
}
use soem_driver_ros.Trinamic.Modes.{CommandMode}
use soem_driver_ros.Trinamic.Modes
use soem_driver_ros.Trinamic.Modes.Laws.{prepare-perform}

-- What a slave promises about its preparation of a switch.
pub record Predicts {S : Type 0} (ops : SlaveOps S) : Type 0 where
  pub answer :
      (start stop : List Text) (s : S)
      → (ops.prepare_command_mode_switch start stop s).0
        ≡ (ops.perform_command_mode_switch start stop s).0
  pub keeps :
      (start stop : List Text) (s : S) → (ops.prepare_command_mode_switch start stop s).1 ≡ s

-- The module of the TMCM1610 as a slave, with any exports.
abbrev pub tmcm1610 :
    (CommandMode → List Handle × CommandMode)
    → (CommandMode → List Handle × CommandMode)
    → SlaveOps CommandMode
tmcm1610 states commands = record {
  export_state_interfaces = states;
  export_command_interfaces = commands;
  prepare_command_mode_switch = Modes.prepare_command_mode_switch;
  perform_command_mode_switch = Modes.perform_command_mode_switch;
}

pub tmcm1610-Predicts :
    (states commands : CommandMode → List Handle × CommandMode)
    → Predicts (tmcm1610 states commands)
tmcm1610-Predicts states commands = record {
  answer = λ start stop m. (prepare-perform start stop m).0;
  keeps = λ start stop m. (prepare-perform start stop m).1;
}

same_answer : (a b : ReturnType) → (a ≡ ok) ↔ (b ≡ ok) → a ≡ b
same_answer ok b h = sym (h.0 refl)
same_answer error ok h = h.1 refl
same_answer error error h = refl

module _ {S : Type 0} (ops : SlaveOps S) (laws : Predicts ops) where
  kept :
      (m : Dict (Text × Text)) (start stop : List Text) (slaves : Dict S)
      → map (λ e. (e.0, (asked ops.prepare_command_mode_switch m start stop e).1)) slaves ≡ slaves
  kept m start stop [] = refl
  kept m start stop ((name, s) ∷ slaves) =
      rw (laws.keeps (claims_of m name start) (claims_of m name stop) s, kept m start stop slaves)
        refl

  same_asked :
      (m m' : Dict (Text × Text)) (start stop : List Text) (slaves : Dict S)
      → ((j : Text) → lookup_or ([], []) j m' ≡ lookup_or ([], []) j m)
      → All (λ e. (asked ops.prepare_command_mode_switch m start stop e).0 ≡ ok) slaves
        ↔ All (λ e. (asked ops.perform_command_mode_switch m' start stop e).0 ≡ ok) slaves
  same_asked m m' start stop [] e = (λ h. h, λ h. h)
  same_asked m m' start stop ((name, s) ∷ slaves) e =
      let ih = same_asked m m' start stop slaves e in
      (λ h. (sym there ∙ h.0, ih.0 h.1), λ h. (there ∙ h.0, ih.1 h.1))
    where
      there :
          (ops.prepare_command_mode_switch (claims_of m name start) (claims_of m name stop) s).0
          ≡ (ops.perform_command_mode_switch (claims_of m' name start) (claims_of m' name stop) s).0
      there =
          rw (claims_of-eq m' m name start e, claims_of-eq m' m name stop e)
            (laws.answer (claims_of m name start) (claims_of m name stop) s)

  module _ (t : Dict Text) where
    -- Preparing a switch leaves all slaves as they are, and performing it next answers as preparing it
    -- did, if each slave prepares without a change and answers then as it does when it performs.
    pub perform_command_mode_switch-answer :
        (start stop : List Text) (r : EcClaimsResolver S)
        → let prepared = prepare_command_mode_switch ops t start stop r in
          (prepared.1.slaves ≡ r.slaves)
          × ((perform_command_mode_switch ops t start stop prepared.1).0 ≡ prepared.0)
    unfolding prepare_command_mode_switch perform_command_mode_switch
    perform_command_mode_switch-answer start stop r =
        let start' = map (map_interface t) start in
        let stop' = map (map_interface t) stop in
        let prepared = Switch.prepare_command_mode_switch ops start' stop' r in
        let (slaves, answer, reads) = (command_mode_switch-Asks ops start' stop' r).0 in
        let (_, answer', _) = (command_mode_switch-Asks ops start' stop' prepared.1).1 in
        let same_slaves = slaves ∙ kept r.command_interface_map start' stop' r.slaves in
        let asks =
          same_asked r.command_interface_map prepared.1.command_interface_map start' stop' r.slaves
            reads in
        let performed =
          subst
            (λ slaves.
              ((Switch.perform_command_mode_switch ops start' stop' prepared.1).0 ≡ ok)
              ↔ All
                  (λ e.
                    (asked ops.perform_command_mode_switch prepared.1.command_interface_map start'
                      stop' e).0
                    ≡ ok)
                  slaves)
            same_slaves answer' in
        (
          same_slaves,
          same_answer _ _
              (λ h. answer.1 (asks.1 (performed.0 h)), λ h. performed.1 (asks.0 (answer.0 h))),
        )
