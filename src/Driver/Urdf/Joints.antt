-- ===== src/Driver/Urdf/Joints.antt =====
-- SOEMDriver::_parse_joint_claims (soem_driver.cpp). Warnings are left out.
pub mod Claimed
use soem_driver_ros.Base.{
  Bool, true, false, if◌then◌else◌, List, [], ◌∷◌, Option, none, some, Text, codes, is_empty, Dict,
  lookup, assign,
}
use soem_driver_ros.Driver.Urdf.Xml.{bad_yaml, Outcome, returns, throws, ◌>>=◌, or_throw}

-- Nodes of yaml-cpp. `load` gives none where YAML::Load throws, and `elements` are those of a
-- sequence.
pub record Yaml : Type 1 where
  pub Node : Type 0
  pub load : Text → Option Node
  pub is_scalar : Node → Bool
  pub is_sequence : Node → Bool
  pub elements : Node → List Node
  pub as_string : Node → Text
  pub as_bool : Node → Option Bool

-- A joint of HardwareInfo, as far as it is read.
pub record ComponentInfo : Type 0 where
  pub name : Text
  pub parameters : Dict Text

abbrev pub store_claims : Text → List Text → Dict (List Text) → Dict (List Text)
store_claims joint claims claims_map =
    if is_empty claims then claims_map else assign joint claims claims_map

module _ (y : Yaml) where
  open y use {Node}

  -- record_claim for each node: scalars are kept, others are passed over.
  unfoldable pub record_claims : List Node → List Text
  record_claims [] = []
  record_claims (claim ∷ claims) =
      if y.is_scalar claim then y.as_string claim ∷ record_claims claims else record_claims claims

  unfoldable pub claims_of_node : Node → List Text
  unfolding record_claims
  claims_of_node claims_yaml =
      if y.is_sequence claims_yaml
      then record_claims (y.elements claims_yaml)
      else record_claims (claims_yaml ∷ [])

  -- claims_list at the end of the loop's body. A joint without the parameter has none.
  unfoldable pub claims_list : ComponentInfo → Outcome (List Text)
  unfolding claims_of_node
  claims_list joint = elim (lookup (codes "ec_claims") joint.parameters) [
    | none ↦ returns []
    | some claims_str ↦
        or_throw bad_yaml (y.load claims_str) >>= λ node. returns (claims_of_node node)
  ]

  unfoldable pub parse_joints : List ComponentInfo → Dict (List Text) → Outcome (Dict (List Text))
  unfolding claims_list
  parse_joints [] claims_map = returns claims_map
  parse_joints (joint ∷ joints) claims_map = do
    claims ← claims_list joint
    parse_joints joints (store_claims joint.name claims claims_map)

  unfoldable pub parse_joint_claims : List ComponentInfo → Outcome (Dict (List Text))
  unfolding parse_joints
  parse_joint_claims joints = parse_joints joints []
