-- ===== src/Claims/Export/Mapped.antt =====
-- After an export every joint has its resolved interfaces, and the driver's command interface map
-- takes each joint interface to the slave that offers it.
use soem_driver_ros.Base.{
  or_else, or_else-none, is_some, ◌>>=◌, ◌≡◌, refl, ap, sym, false, List, [], ◌∷◌, ◌++◌, Option,
  none, some, arith, if◌then◌else◌, Bool-cases, inl, inr, Text, text_eq, text_eq_iff, slash, ==_iff,
  All, codes, Dict, lookup, lookup_or, emplace, lookup-emplace,
}
use soem_driver_ros.Slave.{Handle}
use soem_driver_ros.Claims.Tokens.Laws.{Free}
use soem_driver_ros.Claims.Resolve.{
  EcClaimsResolver, resolve_state_interfaces_by_joint, resolve_command_interfaces_by_joint,
}
use soem_driver_ros.Claims.Resolve.Offers.{Offer, first_offer, all_offers, AllFit}
use soem_driver_ros.Claims.Resolve.CommandOffers.{
  target, resolve_command_interfaces_by_joint-offers,
}
use soem_driver_ros.Claims.Export.{
  insert_all, export_state_joints, export_state_interfaces_by_joint, export_command_joints,
  export_command_interfaces_by_joint,
}

pub lookup-insert_all {ℓ} :
    {V : Type ℓ} (k : Text) (names m : Dict V)
    → lookup k (insert_all names m) ≡ or_else (lookup k m) (lookup k names)
unfolding insert_all lookup
lookup-insert_all k [] m = sym (or_else-none (lookup k m))
lookup-insert_all k ((j, v) ∷ names) m =
    ground
      (arith, lookup-insert_all k names (emplace j v m), lookup-emplace j k v m, text_eq_iff j k)

-- Joint names without a slash have no key of the map in common.
other_joint :
    (i j a b : Text)
    → Free slash i
    → Free slash j
    → text_eq i j ≡ false
    → text_eq (i ++ slash ∷ a) (j ++ slash ∷ b) ≡ false
unfolding text_eq
other_joint [] [] a b hi hj e = ground arith
other_joint [] (d ∷ j) a b hi hj e = ground (arith, ==_iff slash d)
other_joint (c ∷ i) [] a b hi hj e = ground (arith, ==_iff c slash)
other_joint (c ∷ i) (d ∷ j) a b hi hj e = ground (arith, other_joint i j a b hi.1 hj.1)

abbrev pub Joints : Type 0
Joints = Dict (List Text)

module _ {S : Type 0} (r : EcClaimsResolver S) where
  -- Each joint of the list resolves.
  abbrev pub Resolves : Joints → Type 0
  Resolves js =
      All (λ e. (hs : List Handle) × (resolve_state_interfaces_by_joint r e.0 ≡ some hs)) js

  exported_joint : Text → Joints → Option (List Handle)
  exported_joint joint js =
      if is_some (lookup joint js) then resolve_state_interfaces_by_joint r joint else none

  export_state_joints-lookup :
      (js : Joints) (acc : Dict (List Handle))
      → Resolves js
      → (d : Dict (List Handle)) × (export_state_joints r js acc ≡ some d)
        × ((j : Text) → lookup j d ≡ or_else (lookup j acc) (exported_joint j js))
  unfolding export_state_joints exported_joint lookup
  export_state_joints-lookup [] acc h = (acc, refl, λ j. sym (or_else-none (lookup j acc)))
  export_state_joints-lookup ((i, cs) ∷ js) acc ((hs, e), rest) =
      let (d, done, found) = export_state_joints-lookup js (emplace i hs acc) rest in
      (d, rw e done, λ j. ground (arith, found j, lookup-emplace i j hs acc, text_eq_iff i j, e))

-- Where every joint of the claims resolves, the export of the state interfaces succeeds, and holds
-- for each of these joints what its resolution gives, and nothing else.
pub export_state_interfaces_by_joint-lookup :
    {S : Type 0} (r : EcClaimsResolver S)
    → Resolves r r.joint_claims
    → (d : Dict (List Handle)) × (export_state_interfaces_by_joint r ≡ some d)
      × ((j : Text)
          → lookup j d ≡ (
              if is_some (lookup j r.joint_claims)
              then resolve_state_interfaces_by_joint r j
              else none))
unfolding export_state_interfaces_by_joint exported_joint lookup
export_state_interfaces_by_joint-lookup r h = export_state_joints-lookup r r.joint_claims [] h

module _ {S : Type 0} where
  -- The command interfaces that the claims of a joint offer.
  abbrev pub command_offers : EcClaimsResolver S → Text → Option (List Offer)
  command_offers r j =
      all_offers (codes "command") (λ b. b.1) r.slave_interfaces (lookup_or [] j r.joint_claims)

  -- The first command interface of a name that the claims of a listed joint offer.
  abbrev pub offered : EcClaimsResolver S → Joints → Text → Text → Option Offer
  offered r js j n = if is_some (lookup j js) then (command_offers r j >>= first_offer n) else none

  -- Joint names without a slash, and claim ids that fit the token array.
  abbrev pub JointsFit : EcClaimsResolver S → Joints → Type 0
  JointsFit r js = All (λ e. Free slash e.0 × AllFit (lookup_or [] e.0 r.joint_claims)) js

module _ (get_name : Handle → Text) {S : Type 0} where
  one_joint :
      (r : EcClaimsResolver S) (i : Text)
      → Free slash i
      → AllFit (lookup_or [] i r.joint_claims)
      → (found : List Handle × Dict (Text × Text)) × (resolve_command_interfaces_by_joint get_name r
            i
          ≡ some found)
        × ((j n : Text)
            → Free slash j
            → lookup (j ++ slash ∷ n) found.1 ≡ (
                if text_eq i j
                then target get_name (command_offers r j >>= first_offer n)
                else none))
  one_joint r i hi fit =
      let (os, out, names, offers, done, _, _, mapped, foreign) =
        resolve_command_interfaces_by_joint-offers get_name r i fit in
      (
        (out, names),
        done,
        λ j n hj. elim (Bool-cases (text_eq i j)) [
          | inl e ↦ rw (e, ← (text_eq_iff i j).0 e, offers) (mapped n)
          | inr e ↦ rw e (elim (foreign (j ++ slash ∷ n)) [
            | inl missing ↦ missing
            | inr (a, same) ↦ absurd (
                ground (
                  arith,
                  other_joint i j a n hi hj e,
                  text_eq_iff (i ++ slash ∷ a) (j ++ slash ∷ n),
                ))
          ])
        ],
      )

  export_command_joints-mapped :
      (js : Joints) (r : EcClaimsResolver S) (acc : Dict (List Handle))
      → JointsFit r js
      → (d : Dict (List Handle)) × (r' : EcClaimsResolver S) × (export_command_joints get_name js r
            acc
          ≡ some (d, r'))
        × ((j n : Text)
            → Free slash j
            → lookup (j ++ slash ∷ n) r'.command_interface_map
              ≡ or_else
                  (lookup (j ++ slash ∷ n) r.command_interface_map)
                  (target get_name (offered r js j n)))
  unfolding export_command_joints lookup
  export_command_joints-mapped [] r acc h = (acc, r, refl, λ j n hj. sym (or_else-none _))
  export_command_joints-mapped ((i, cs) ∷ js) r acc ((hi, fit), rest) =
      let (found, e, mapped) = one_joint r i hi fit in
      let (d, r', done, later) =
        export_command_joints-mapped js
          (record r { command_interface_map = insert_all found.1 r.command_interface_map })
          (emplace i found.0 acc) rest in
      (
        d,
        r',
        rw e done,
        λ j n hj. ground (
          arith,
          later j n hj,
          mapped j n hj,
          lookup-insert_all (j ++ slash ∷ n) found.1 r.command_interface_map,
          text_eq_iff i j,
        ),
      )

-- The map of the command interfaces after an export that starts with an empty map, where joint names
-- have no slash and claim ids fit the token array: <joint>/<name> leads to the slave and the full
-- name of the first interface of that name that the claims of the joint offer, and is missing if
-- there is no such joint or offer.
pub export_command_interfaces_by_joint-mapped :
    (get_name : Handle → Text) {S : Type 0} (r : EcClaimsResolver S)
    → r.command_interface_map ≡ []
    → JointsFit r r.joint_claims
    → (j n : Text) → Free slash j
    → (d : Dict (List Handle)) × (r' : EcClaimsResolver S) × (export_command_interfaces_by_joint
          get_name r
        ≡ some (d, r'))
      × (lookup (j ++ slash ∷ n) r'.command_interface_map
          ≡ target get_name (offered r r.joint_claims j n))
unfolding export_command_interfaces_by_joint lookup
export_command_interfaces_by_joint-mapped get_name r empty h j n hj =
    let (d, r', done, mapped) = export_command_joints-mapped get_name r.joint_claims r [] h in
    (d, r', done, rw (mapped j n hj) (rw (ap (lookup (j ++ slash ∷ n)) empty)))
