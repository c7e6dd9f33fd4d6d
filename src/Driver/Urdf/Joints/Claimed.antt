-- ===== src/Driver/Urdf/Joints/Claimed.antt =====
-- Which claims the parsing of the joints stores: none that is empty, and for a name that joints
-- share those of the last one that has any.
use soem_driver_ros.Base.{
  or_else, or_else_assoc, or_else-none, is_some, ◌≡◌, ◌≢◌, refl, sym, ◌∙◌, Bool, true, ◌&&◌,
  if◌then◌else◌, Bool-cases, Option-cases, inl, inr, List, [], ◌∷◌, Option, none, some, arith, Text,
  codes, text_eq, Dict, lookup, lookup-assign, keep, map,
}
use soem_driver_ros.Driver.Urdf.Xml.{bad_yaml, returns, throws, returned, thrown, ending}
use soem_driver_ros.Driver.Urdf.Joints.{
  Yaml, ComponentInfo, record_claims, claims_of_node, store_claims, parse_joints,
  parse_joint_claims,
}

abbrev pub nonempty : List Text → Option (List Text)
nonempty [] = none
nonempty (c ∷ cs) = some (c ∷ cs)

nonempty-ne :
    (joint name : Text) (claims : List Text)
    → (if text_eq joint name then nonempty claims else none) ≢ some []
nonempty-ne joint name [] h = ground (arith, h)
nonempty-ne joint name (c ∷ cs) h = ground (arith, h)

lookup-store_claims :
    (joint name : Text) (claims : List Text) (m : Dict (List Text))
    → lookup name (store_claims joint claims m)
      ≡ or_else (if text_eq joint name then nonempty claims else none) (lookup name m)
lookup-store_claims joint name [] m = ground arith
lookup-store_claims joint name (c ∷ cs) m = lookup-assign joint name (c ∷ cs) m ∙ ground arith

module _ (y : Yaml) where
  open y use {Node}

  -- The scalars of a sequence, or of one other node.
  abbrev pub scalars : Node → List Text
  scalars node =
      map y.as_string (keep y.is_scalar (if y.is_sequence node then y.elements node else node ∷ []))

  -- What a joint claims.
  unfoldable pub claimed : ComponentInfo → List Text
  claimed joint = elim (lookup (codes "ec_claims") joint.parameters) [
    | none ↦ []
    | some claims_str ↦ elim (y.load claims_str) [ none ↦ [] | some node ↦ scalars node ]
  ]

  -- The text of a joint's claims, if it has one, is YAML.
  unfoldable pub loads : ComponentInfo → Bool
  loads joint = elim (lookup (codes "ec_claims") joint.parameters) [
    | none ↦ true
    | some claims_str ↦ is_some (y.load claims_str)
  ]

  -- The claims of the last joint of a name that has any.
  abbrev pub last_claimed : Text → List ComponentInfo → Option (List Text)
  last_claimed name [] = none
  last_claimed name (joint ∷ joints) =
      or_else (last_claimed name joints)
        (if text_eq joint.name name then nonempty (claimed joint) else none)

  abbrev pub all_load : List ComponentInfo → Bool
  all_load [] = true
  all_load (joint ∷ joints) = loads joint && all_load joints

  record_claims-keep :
      (nodes : List Node) → record_claims y nodes ≡ map y.as_string (keep y.is_scalar nodes)
  unfolding record_claims
  record_claims-keep [] = refl
  record_claims-keep (node ∷ nodes) = ground (arith, record_claims-keep nodes)

  claims_of_node-scalars : (node : Node) → claims_of_node y node ≡ scalars node
  unfolding claims_of_node
  claims_of_node-scalars node =
      ground (arith, record_claims-keep (y.elements node), record_claims-keep (node ∷ []))

  parse_joints-step :
      (joint : ComponentInfo) (joints : List ComponentInfo) (m : Dict (List Text))
      → parse_joints y (joint ∷ joints) m ≡ (
          if loads joint
          then parse_joints y joints (store_claims joint.name (claimed joint) m)
          else throws bad_yaml)
  unfolding parse_joints claimed loads
  parse_joints-step joint joints m =
      elim (Option-cases (lookup (codes "ec_claims") joint.parameters)) [
        | inl missing ↦ ground (arith, missing)
        | inr (text, found) ↦ elim (Option-cases (y.load text)) [
          | inl failed ↦ ground (arith, found, failed)
          | inr (node, loaded) ↦ ground (arith, found, loaded, claims_of_node-scalars node)
        ]
      ]

  parse_joints-lookup :
      (joints : List ComponentInfo) (m0 m : Dict (List Text))
      → parse_joints y joints m0 ≡ returns m
      → (name : Text) → lookup name m ≡ or_else (last_claimed name joints) (lookup name m0)
  unfolding parse_joints
  parse_joints-lookup [] m0 m h name = ground (arith, h)
  parse_joints-lookup (joint ∷ joints) m0 m h name = elim (Bool-cases (loads joint)) [
    | inl l ↦
        parse_joints-lookup joints (store_claims joint.name (claimed joint) m0) m
          (ground (arith, parse_joints-step joint joints m0, l, h)) name
        ∙ (rw (lookup-store_claims joint.name name (claimed joint) m0) refl)
        ∙ sym (or_else_assoc (last_claimed name joints) _ (lookup name m0))
    | inr l ↦ absurd (ground (arith, parse_joints-step joint joints m0, l, h))
  ]

  parse_joints-ending :
      (joints : List ComponentInfo) (m0 : Dict (List Text))
      → ending (parse_joints y joints m0) ≡ (if all_load joints then returned else thrown)
  unfolding parse_joints
  parse_joints-ending [] m0 = refl
  parse_joints-ending (joint ∷ joints) m0 = ground (
    arith,
    parse_joints-step joint joints m0,
    parse_joints-ending joints (store_claims joint.name (claimed joint) m0),
  )

  last_claimed-nonempty :
      (name : Text) (joints : List ComponentInfo) → last_claimed name joints ≢ some []
  last_claimed-nonempty name [] h = cc
  last_claimed-nonempty name (joint ∷ joints) h = elim (Option-cases (last_claimed name joints)) [
    | inl none_later ↦ nonempty-ne joint.name name (claimed joint) (ground (arith, none_later, h))
    | inr (cs, later) ↦ last_claimed-nonempty name joints (ground (arith, later, h))
  ]

  -- If the joints are parsed, the claims stored for a name are those of the last joint of that name
  -- that claims anything: the scalars of its list of claims, or of its one claim.
  pub parse_joint_claims-lookup :
      (joints : List ComponentInfo) (m : Dict (List Text))
      → parse_joint_claims y joints ≡ returns m
      → (name : Text) → lookup name m ≡ last_claimed name joints
  unfolding parse_joint_claims lookup
  parse_joint_claims-lookup joints m h name =
      parse_joints-lookup joints [] m h name ∙ or_else-none (last_claimed name joints)

  -- No joint is stored with an empty list of claims.
  pub parse_joint_claims-nonempty :
      (joints : List ComponentInfo) (m : Dict (List Text))
      → parse_joint_claims y joints ≡ returns m
      → (name : Text) → lookup name m ≢ some []
  parse_joint_claims-nonempty joints m h name e =
      last_claimed-nonempty name joints (sym (parse_joint_claims-lookup joints m h name) ∙ e)
