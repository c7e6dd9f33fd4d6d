-- ===== src/Claims/Resolve.antt =====
-- ECClaimsResolver::init and the two resolve methods: which interfaces of which slaves a joint gets.
-- `none` is the write behind the token array; warnings and log lines are left out.
pub mod Offers
pub mod StateOffers
pub mod CommandOffers
use mathlib.Core.List.{foldl}
use mathlib.Core.Option
use soem_driver_ros.Base.{
  ◌>>=◌, ℕ, Bool, true, false, ◌&&◌, ◌||◌, List, [], ◌∷◌, ◌++◌, map, Option, none, some,
  if◌then◌else◌, Text, codes, slash, text_eq, is_empty, contains, Dict, lookup, lookup_or, assign,
  emplace,
}
use soem_driver_ros.Slave.{Handle, SlaveOps}
use soem_driver_ros.Claims.Tokens.{Tokens, tokenize_interface}

-- The fields of the class.
pub record EcClaimsResolver (S : Type 0) : Type 0 where
  pub slave_interfaces : Dict (List Handle × List Handle)
  pub command_interface_map : Dict (Text × Text)
  pub slaves : Dict S
  pub joint_claims : Dict (List Text)

abbrev pub Interfaces : Type 0
Interfaces = Dict (List Handle × List Handle)

-- AliasInterfaceFactory{interface}.makeInterface(prefix, name): the same value under a new name.
unfoldable pub make_interface : Handle → Text → Text → Handle
make_interface target prefix name = record {
  prefix_name = prefix;
  interface_name = name;
  value_ptr = target.value_ptr;
}

-- The interface that is named in a claim: the range [it, next(it)), or the empty one at the end.
unfoldable pub find_interface : Text → Text → List Handle → List Handle
find_interface claim name [] = []
find_interface claim name (h ∷ hs) =
    if text_eq claim h.prefix_name && text_eq name h.interface_name
    then h ∷ []
    else find_interface claim name hs

-- The range from interfaces_begin to interfaces_end.
unfoldable pub claimed_range : Text → Text → List Handle → List Handle
unfolding find_interface
claimed_range claim name interfaces =
    if is_empty name then interfaces else find_interface claim name interfaces

-- The local variables of resolve_state_interfaces_by_joint.
pub record StateLocals : Type 0 where
  pub joint_state_interfaces : List Handle
  pub joint_mapped_interfaces : List Text

-- The body of the innermost loop.
unfoldable pub map_state_interface : Text → Text → StateLocals → Handle → StateLocals
unfolding make_interface
map_state_interface joint claim l h =
    if text_eq claim h.prefix_name
    then (if contains l.joint_mapped_interfaces h.interface_name then l else record {
      joint_state_interfaces =
          l.joint_state_interfaces ++ make_interface h joint h.interface_name ∷ [];
      joint_mapped_interfaces = l.joint_mapped_interfaces ++ h.interface_name ∷ [];
    })
    else l

-- The local variables of resolve_command_interfaces_by_joint.
pub record CommandLocals : Type 0 where
  pub joint_command_interfaces : List Handle
  pub joint_command_interface_map : Dict (Text × Text)
  pub joint_mapped_interfaces : List Text

-- The body of the loop over the claims of a joint, from the tokens of one.
unfoldable pub resolve_state_tokens : Interfaces → Text → Tokens → StateLocals → StateLocals
unfolding map_state_interface claimed_range
resolve_state_tokens slaves joint t l =
    if is_empty t.type || text_eq t.type (codes "state")
    then elim (lookup t.slave slaves) [
      | none ↦ l
      | some (interfaces, _) ↦
          foldl (map_state_interface joint t.claim) l (claimed_range t.claim t.name interfaces)
    ]
    else l

unfoldable pub resolve_state_claims :
    Interfaces → Text → List Text → StateLocals → Option StateLocals
unfolding resolve_state_tokens
resolve_state_claims slaves joint [] l = some l
resolve_state_claims slaves joint (claim_id ∷ claims) l = tokenize_interface claim_id >>= λ t.
    resolve_state_claims slaves joint claims (resolve_state_tokens slaves joint t l)

module _ {S : Type 0} where
  -- The joint is a key of joint_claims wherever this is called, so operator[] inserts nothing.
  unfoldable pub resolve_state_interfaces_by_joint :
      EcClaimsResolver S → Text → Option (List Handle)
  unfolding resolve_state_claims
  resolve_state_interfaces_by_joint r joint =
      resolve_state_claims r.slave_interfaces joint (lookup_or [] joint r.joint_claims)
        (record { joint_state_interfaces = []; joint_mapped_interfaces = [] })
      >>= λ l. some l.joint_state_interfaces

-- get_name() of a handle is ros2_control's.
module _ (get_name : Handle → Text) where
  unfoldable pub map_command_interface : Text → Text → Text → CommandLocals → Handle → CommandLocals
  unfolding make_interface
  map_command_interface joint slave claim l h =
      if text_eq claim h.prefix_name
      then (if contains l.joint_mapped_interfaces h.interface_name then l else record {
        joint_command_interfaces =
            l.joint_command_interfaces ++ make_interface h joint h.interface_name ∷ [];
        joint_command_interface_map =
            assign (joint ++ slash ∷ h.interface_name) (slave, get_name h)
              l.joint_command_interface_map;
        joint_mapped_interfaces = l.joint_mapped_interfaces ++ h.interface_name ∷ [];
      })
      else l

  unfoldable pub resolve_command_tokens : Interfaces → Text → Tokens → CommandLocals → CommandLocals
  unfolding map_command_interface claimed_range
  resolve_command_tokens slaves joint t l =
      if is_empty t.type || text_eq t.type (codes "command")
      then elim (lookup t.slave slaves) [
        | none ↦ l
        | some (_, interfaces) ↦
            foldl (map_command_interface joint t.slave t.claim) l
              (claimed_range t.claim t.name interfaces)
      ]
      else l

  unfoldable pub resolve_command_claims :
      Interfaces → Text → List Text → CommandLocals → Option CommandLocals
  unfolding resolve_command_tokens
  resolve_command_claims slaves joint [] l = some l
  resolve_command_claims slaves joint (claim_id ∷ claims) l = tokenize_interface claim_id >>= λ t.
      resolve_command_claims slaves joint claims (resolve_command_tokens slaves joint t l)

  module _ {S : Type 0} where
    unfoldable pub resolve_command_interfaces_by_joint :
        EcClaimsResolver S → Text → Option (List Handle × Dict (Text × Text))
    unfolding resolve_command_claims
    resolve_command_interfaces_by_joint r joint =
        resolve_command_claims r.slave_interfaces joint (lookup_or [] joint r.joint_claims)
          (record {
            joint_command_interfaces = [];
            joint_command_interface_map = [];
            joint_mapped_interfaces = [];
          })
        >>= λ l. some (l.joint_command_interfaces, l.joint_command_interface_map)

-- The slaves are asked for their interfaces in turn, and keep the states that this leaves.
module _ {S : Type 0} (ops : SlaveOps S) where
  unfoldable pub import_interfaces : Dict S → Dict (List Handle × List Handle) × Dict S
  import_interfaces [] = ([], [])
  import_interfaces ((name, s) ∷ slaves) =
      let (state_interfaces, s') = ops.export_state_interfaces s in
      let (command_interfaces, s'') = ops.export_command_interfaces s' in
      let (rest, slaves') = import_interfaces slaves in
      ((name, (state_interfaces, command_interfaces)) ∷ rest, (name, s'') ∷ slaves')

  unfoldable pub init : EcClaimsResolver S → Dict S → Dict (List Text) → EcClaimsResolver S
  unfolding import_interfaces
  init r slaves joint_claims =
      let (imported, slaves') = import_interfaces slaves in
      record r {
        slaves = slaves';
        joint_claims = joint_claims;
        slave_interfaces = foldl (λ m e. emplace e.0 e.1 m) r.slave_interfaces imported;
      }
