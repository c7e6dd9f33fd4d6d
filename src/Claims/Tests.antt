-- ===== src/Claims/Tests.antt =====
-- Two joints that claim the interfaces of one motor, run through the resolver.
use soem_driver_ros.Base.{
  ℕ, suc, ◌≡◌, ◌↔◌, ◌⊎◌, ◌≤◌, refl, List, [], ◌∷◌, ◌++◌, none, some, arith, All, Text, codes, slash,
  text_eq, Dict, lookup, lookup_or,
}
use soem_driver_ros.Slave.{Handle, ReturnType, ok, error, SlaveOps}
use soem_driver_ros.Claims.Tokens.{tokenize_interface}
use soem_driver_ros.Claims.Tokens.Laws.{
  delimiters, Free, join, tokenize_interface-none, tokenize_interface-join,
}
use soem_driver_ros.Claims.Resolve.{
  EcClaimsResolver, resolve_state_interfaces_by_joint, resolve_command_interfaces_by_joint,
}
use soem_driver_ros.Claims.Resolve.Offers.{
  Offer, all_offers, first_offer, find_named, DistinctNames, AllFit,
}
use soem_driver_ros.Claims.Resolve.StateOffers.{alias, resolve_state_interfaces_by_joint-offers}
use soem_driver_ros.Claims.Resolve.CommandOffers.{
  target, resolve_command_interfaces_by_joint-offers,
}
use soem_driver_ros.Claims.Export.{export_command_interfaces_by_joint}
use soem_driver_ros.Claims.Export.Mapped.{
  Resolves, JointsFit, offered, export_command_interfaces_by_joint-mapped,
}
use soem_driver_ros.Claims.Switch.{prepare_command_mode_switch, perform_command_mode_switch}
use soem_driver_ros.Claims.Switch.Asked.{Asks, command_mode_switch-Asks}

abbrev handle : Text → Text → ℕ → Handle
handle p n v = record { prefix_name = p; interface_name = n; value_ptr = v }

abbrev motor_claims : List Text
motor_claims = codes "m/drive/command/position" ∷ codes "m/drive" ∷ []

-- A resolver over slaves whose state is the number of requests that they have seen.
abbrev resolver : EcClaimsResolver ℕ
resolver = record {
  slave_interfaces =
      (
        codes "m",
        (
          handle (codes "drive") (codes "position") 10
              ∷ handle (codes "drive") (codes "velocity") 11
              ∷ [],
          handle (codes "drive") (codes "velocity") 20
              ∷ handle (codes "drive") (codes "position") 21
              ∷ [],
        ),
      )
      ∷ [];
  command_interface_map = [];
  slaves = (codes "m", 0) ∷ (codes "n", 5) ∷ [];
  joint_claims = (codes "arm", motor_claims) ∷ (codes "leg", []) ∷ [];
}

abbrev mapped_resolver : EcClaimsResolver ℕ
mapped_resolver = record resolver {
  command_interface_map = (codes "arm/position", (codes "m", codes "drive/position")) ∷ [];
}

abbrev full_name : Handle → Text
full_name h = h.prefix_name ++ slash ∷ h.interface_name

abbrev no_handles : ℕ → List Handle × ℕ
no_handles s = ([], s)

-- Slaves that accept at most one started claim, and count.
abbrev counted : List Text → List Text → ℕ → ReturnType × ℕ
counted (_ ∷ _ ∷ _) stop s = (error, s)
counted _ stop s = (ok, suc s)

abbrev counters : SlaveOps ℕ
counters = record {
  export_state_interfaces = no_handles;
  export_command_interfaces = no_handles;
  prepare_command_mode_switch = counted;
  perform_command_mode_switch = counted;
}

motor_claims_fit : AllFit motor_claims
unfolding delimiters
motor_claims_fit = (omega arith, (omega arith, tt))

no_slash : All (Free slash) (codes "m" ∷ codes "drive" ∷ codes "state" ∷ codes "v" ∷ [])
no_slash = ground arith

tokenize_interface-none_example :
    (tokenize_interface (codes "a/b/c/d/e") ≡ none) ↔ (4 ≤ delimiters slash (codes "a/b/c/d/e"))
tokenize_interface-none_example = tokenize_interface-none (codes "a/b/c/d/e")

tokenize_interface-join_example :
    (tokenize_interface (join (codes "m" ∷ codes "drive" ∷ []))
      ≡ some (record { slave = codes "m"; claim = codes "drive"; type = []; name = [] }))
    × (tokenize_interface (join (codes "m" ∷ codes "drive" ∷ codes "state" ∷ []))
        ≡ some
            (record { slave = codes "m"; claim = codes "drive"; type = codes "state"; name = [] }))
    × (tokenize_interface (join (codes "m" ∷ codes "drive" ∷ codes "state" ∷ codes "v" ∷ []))
        ≡ some (record {
          slave = codes "m";
          claim = codes "drive";
          type = codes "state";
          name = codes "v";
        }))
tokenize_interface-join_example =
    tokenize_interface-join (codes "m") (codes "drive") (codes "state") (codes "v") no_slash

resolve_state_interfaces_by_joint-offers_example :
    (os : List Offer) × (out : List Handle) × (all_offers
        (codes "state")
        (λ b. b.0)
        resolver.slave_interfaces
        (lookup_or [] (codes "arm") resolver.joint_claims)
      ≡ some os)
    × (resolve_state_interfaces_by_joint resolver (codes "arm") ≡ some out)
    × ((n : Text) → find_named n out ≡ alias (codes "arm") (first_offer n os))
    × DistinctNames out
unfolding lookup text_eq
resolve_state_interfaces_by_joint-offers_example =
    resolve_state_interfaces_by_joint-offers resolver (codes "arm") motor_claims_fit

resolve_command_interfaces_by_joint-offers_example :
    (os : List Offer) × (out : List Handle) × (names : Dict (Text × Text)) × (all_offers
        (codes "command")
        (λ b. b.1)
        resolver.slave_interfaces
        (lookup_or [] (codes "arm") resolver.joint_claims)
      ≡ some os)
    × (resolve_command_interfaces_by_joint full_name resolver (codes "arm") ≡ some (out, names))
    × ((n : Text) → find_named n out ≡ alias (codes "arm") (first_offer n os))
    × DistinctNames out
    × ((n : Text) → lookup (codes "arm" ++ slash ∷ n) names ≡ target full_name (first_offer n os))
    × ((k : Text) → (lookup k names ≡ none) ⊎ ((n : Text) × (codes "arm" ++ slash ∷ n ≡ k)))
unfolding lookup text_eq
resolve_command_interfaces_by_joint-offers_example =
    resolve_command_interfaces_by_joint-offers full_name resolver (codes "arm") motor_claims_fit

-- Both joints resolve.
joints_resolve : Resolves resolver resolver.joint_claims
unfolding lookup text_eq
joints_resolve = (
  (
    (resolve_state_interfaces_by_joint-offers resolver (codes "arm") motor_claims_fit).1,
    (resolve_state_interfaces_by_joint-offers resolver (codes "arm") motor_claims_fit).3,
  ),
  (
    (
      (resolve_state_interfaces_by_joint-offers resolver (codes "leg") tt).1,
      (resolve_state_interfaces_by_joint-offers resolver (codes "leg") tt).3,
    ),
    tt,
  ),
)

joints_fit : JointsFit resolver resolver.joint_claims
unfolding lookup text_eq
joints_fit = ((ground arith, motor_claims_fit), ((ground arith, tt), tt))

export_command_interfaces_by_joint-mapped_example :
    (d : Dict (List Handle)) × (r' : EcClaimsResolver ℕ) × (export_command_interfaces_by_joint
        full_name resolver
      ≡ some (d, r'))
    × (lookup (codes "arm" ++ slash ∷ codes "position") r'.command_interface_map
        ≡ target full_name
            (offered resolver resolver.joint_claims (codes "arm") (codes "position")))
unfolding lookup text_eq
export_command_interfaces_by_joint-mapped_example =
    export_command_interfaces_by_joint-mapped full_name resolver refl joints_fit (codes "arm")
      (codes "position") joints_fit.0.0

command_mode_switch-Asks_example :
    Asks counters.prepare_command_mode_switch
      (codes "arm/position" ∷ [])
      []
      mapped_resolver
      (prepare_command_mode_switch counters (codes "arm/position" ∷ []) [] mapped_resolver)
    × Asks counters.perform_command_mode_switch
        (codes "arm/position" ∷ [])
        []
        mapped_resolver
        (perform_command_mode_switch counters (codes "arm/position" ∷ []) [] mapped_resolver)
command_mode_switch-Asks_example =
    command_mode_switch-Asks counters (codes "arm/position" ∷ []) [] mapped_resolver
