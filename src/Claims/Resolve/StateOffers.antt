-- ===== src/Claims/Resolve/StateOffers.antt =====
-- resolve_state_interfaces_by_joint gives each interface name of a joint its first offer.

use mathlib.Core.List.{foldl}
use soem_driver_ros.Base.{
  or_else, is_some, or_else_assoc, or_else-none, ◌≡◌, refl, ap, sym, ◌∙◌, ◌||◌, List, [], ◌∷◌, ◌++◌,
  Option, none, some, arith, keep, Bool-cases, Option-cases, inl, inr, Text, codes, text_eq,
  text_eq_iff, is_empty, lookup, lookup_or, contains, contains-append,
}
use soem_driver_ros.Slave.{Handle}
use soem_driver_ros.Claims.Tokens.{Tokens}
use soem_driver_ros.Claims.Resolve.{
  EcClaimsResolver, Interfaces, make_interface, claimed_range, StateLocals, map_state_interface,
  resolve_state_tokens, resolve_state_claims, resolve_state_interfaces_by_joint,
}
use soem_driver_ros.Claims.Resolve.Offers.{
  Offer, wanted, tag, offers, all_offers, first_offer, find_named, DistinctNames,
  first_offer-append, find_named-append, ranged, ranged-offers, AllFit, tokenize_interface-some,
}

-- The interface of a joint that stands for an offer.
abbrev pub alias : Text → Option Offer → Option Handle
alias joint none = none
alias joint (some (s, h)) = some (make_interface h joint h.interface_name)

-- The locals hold the first offers `F` of each name.
pub record Holds (joint : Text) (l : StateLocals) (F : Text → Option Offer) : Type 0 where
  pub names : (n : Text) → contains l.joint_mapped_interfaces n ≡ is_some (F n)
  pub found : (n : Text) → find_named n l.joint_state_interfaces ≡ alias joint (F n)
  pub distinct : DistinctNames l.joint_state_interfaces

DistinctNames-append :
    (hs : List Handle) (h : Handle)
    → DistinctNames hs
    → find_named h.interface_name hs ≡ none
    → DistinctNames (hs ++ h ∷ [])
DistinctNames-append [] h d e = (refl, tt)
DistinctNames-append (x ∷ hs) h d e = (
  ground (
    arith,
    find_named-append x.interface_name hs (h ∷ []),
    text_eq_iff x.interface_name h.interface_name,
    text_eq_iff h.interface_name x.interface_name,
  ),
  DistinctNames-append hs h d.1 (ground arith),
)

pub Holds-ext :
    (joint : Text) (l : StateLocals) (F G : Text → Option Offer)
    → ((n : Text) → F n ≡ G n)
    → Holds joint l F
    → Holds joint l G
Holds-ext joint l F G e v = record {
  names = λ n. v.names n ∙ ap is_some (e n);
  found = λ n. v.found n ∙ ap (alias joint) (e n);
  distinct = v.distinct;
}

module _ (joint slave claim : Text) where
  -- One interface that the loop meets.
  pub map_state_interface-Holds :
      (l : StateLocals) (F : Text → Option Offer) (h : Handle)
      → Holds joint l F
      → Holds joint
          (map_state_interface joint claim l h)
          (λ n. or_else (F n) (first_offer n (ranged slave claim [] (h ∷ []))))
  unfolding map_state_interface claimed_range contains make_interface
  map_state_interface-Holds l F h v = record {
    names = λ n. ground (
      arith,
      v.names n,
      v.names h.interface_name,
      contains-append l.joint_mapped_interfaces (h.interface_name ∷ []) n,
      text_eq_iff h.interface_name n,
    );
    found = λ n. ground (
      arith,
      v.found n,
      v.names n,
      v.names h.interface_name,
      find_named-append n l.joint_state_interfaces (make_interface h joint h.interface_name ∷ []),
      text_eq_iff h.interface_name n,
    );
    distinct = ground (
      arith,
      v.names h.interface_name,
      v.found h.interface_name,
      DistinctNames-append l.joint_state_interfaces (make_interface h joint h.interface_name)
          v.distinct,
    );
  }

  pub ranged-cons :
      (F : Text → Option Offer) (h : Handle) (hs : List Handle) (n : Text)
      → or_else
          (or_else (F n) (first_offer n (ranged slave claim [] (h ∷ []))))
          (first_offer n (ranged slave claim [] hs))
        ≡ or_else (F n) (first_offer n (ranged slave claim [] (h ∷ hs)))
  unfolding claimed_range
  ranged-cons F h hs n = ground arith

  -- All interfaces of the range.
  foldl-Holds :
      (l : StateLocals) (F : Text → Option Offer) (hs : List Handle)
      → Holds joint l F
      → Holds joint
          (foldl (map_state_interface joint claim) l hs)
          (λ n. or_else (F n) (first_offer n (ranged slave claim [] hs)))
  unfolding claimed_range
  foldl-Holds l F [] v = Holds-ext joint l F _ (λ n. sym (or_else-none (F n))) v
  foldl-Holds l F (h ∷ hs) v =
      Holds-ext joint _ _ _ (ranged-cons F h hs)
        (foldl-Holds (map_state_interface joint claim l h) _ hs (map_state_interface-Holds l F h v))

range-Holds :
    (joint : Text) (t : Tokens) (l : StateLocals) (F : Text → Option Offer) (hs : List Handle)
    → Holds joint l F
    → Holds joint
        (foldl (map_state_interface joint t.claim) l (claimed_range t.claim t.name hs))
        (λ n. or_else (F n) (first_offer n (tag t.slave (keep (wanted t) hs))))
unfolding claimed_range
range-Holds joint t l F hs v =
    Holds-ext joint _ _ _ (λ n. ap (or_else (F n)) (ranged-offers n t hs))
      (foldl-Holds joint t.slave t.claim l F (claimed_range t.claim t.name hs) v)

module _ (slaves : Interfaces) (joint : Text) where
  tokens-Holds :
      (t : Tokens) (l : StateLocals) (F : Text → Option Offer)
      → Holds joint l F
      → Holds joint
          (resolve_state_tokens slaves joint t l)
          (λ n. or_else (F n) (first_offer n (offers (codes "state") (λ b. b.0) slaves t)))
  unfolding resolve_state_tokens
  tokens-Holds t l F v = elim (Bool-cases (is_empty t.type || text_eq t.type (codes "state"))) [
    | inr e ↦ rw e (Holds-ext joint l F _ (λ n. sym (or_else-none (F n))) v)
    | inl e ↦ rw e (elim (Option-cases (lookup t.slave slaves)) [
      | inl m ↦ rw m (Holds-ext joint l F _ (λ n. sym (or_else-none (F n))) v)
      | inr (both, m) ↦ rw m (range-Holds joint t l F both.0 v)
    ])
  ]

  claims-Holds :
      (cs : List Text) (l : StateLocals) (F : Text → Option Offer)
      → AllFit cs
      → Holds joint l F
      → (os : List Offer) × (l' : StateLocals) × (all_offers (codes "state") (λ b. b.0) slaves cs
          ≡ some os)
        × (resolve_state_claims slaves joint cs l ≡ some l')
        × Holds joint l' (λ n. or_else (F n) (first_offer n os))
  unfolding resolve_state_claims
  claims-Holds [] l F h v =
      ([], l, refl, refl, Holds-ext joint l F _ (λ n. sym (or_else-none (F n))) v)
  claims-Holds (c ∷ cs) l F h v =
      let (t, e) = tokenize_interface-some c h.0 in
      let (os, l', offered, done, v') =
        claims-Holds cs (resolve_state_tokens slaves joint t l) _ h.1 (tokens-Holds t l F v) in
      let here = offers (codes "state") (λ b. b.0) slaves t in
      (
        here ++ os,
        l',
        rw (e, offered),
        rw e done,
        Holds-ext joint l' _ _
            (λ n.
              or_else_assoc (F n) (first_offer n here) (first_offer n os)
              ∙ ap (or_else (F n)) (sym (first_offer-append n here os)))
            v',
      )

-- The state interfaces of a joint whose claim ids have fewer than four slashes: the call succeeds,
-- a name is exported just when a claim of the joint offers it, its value is the one of the first
-- such offer under the joint's name, and no name is exported twice.
pub resolve_state_interfaces_by_joint-offers :
    {S : Type 0} (r : EcClaimsResolver S) (joint : Text)
    → AllFit (lookup_or [] joint r.joint_claims)
    → (os : List Offer) × (out : List Handle) × (all_offers
          (codes "state")
          (λ b. b.0)
          r.slave_interfaces
          (lookup_or [] joint r.joint_claims)
        ≡ some os)
      × (resolve_state_interfaces_by_joint r joint ≡ some out)
      × ((n : Text) → find_named n out ≡ alias joint (first_offer n os))
      × DistinctNames out
unfolding resolve_state_interfaces_by_joint contains
resolve_state_interfaces_by_joint-offers r joint h =
    let (os, l, offered, done, v) =
      claims-Holds r.slave_interfaces joint (lookup_or [] joint r.joint_claims)
        (record { joint_state_interfaces = []; joint_mapped_interfaces = [] }) (λ n. none) h
        (record { names = λ n. refl; found = λ n. refl; distinct = tt }) in
    (os, l.joint_state_interfaces, offered, rw done, v.found, v.distinct)
