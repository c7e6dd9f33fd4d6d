-- ===== src/Claims/Resolve/CommandOffers.antt =====
-- resolve_command_interfaces_by_joint gives each interface name of a joint its first offer, and maps
-- the name to the slave of that offer.
use mathlib.Core.List.{foldl}
use soem_driver_ros.Base.{
  or_else, or_else_assoc, or_else-none, ◌≡◌, refl, ap, sym, ◌∙◌, false, ◌||◌, List, [], ◌∷◌, ◌++◌,
  Option, none, some, arith, keep, ◌==◌, ==_iff, ◌⊎◌, Bool-cases, Option-cases, inl, inr, Text,
  codes, text_eq, text_eq_iff, slash, is_empty, Dict, lookup, lookup_or, lookup-assign, contains,
}
use soem_driver_ros.Slave.{Handle}
use soem_driver_ros.Claims.Tokens.{Tokens}
use soem_driver_ros.Claims.Resolve.{
  EcClaimsResolver, Interfaces, claimed_range, StateLocals, CommandLocals, map_state_interface,
  map_command_interface, resolve_command_tokens, resolve_command_claims,
  resolve_command_interfaces_by_joint,
}
use soem_driver_ros.Claims.Resolve.Offers.{
  Offer, wanted, tag, offers, all_offers, first_offer, find_named, DistinctNames,
  first_offer-append, ranged, ranged-offers, AllFit, tokenize_interface-some,
}
use soem_driver_ros.Claims.Resolve.StateOffers.{
  alias, Holds, Holds-ext, map_state_interface-Holds, ranged-cons,
}

-- What a name of a joint is mapped to for command mode switches.
abbrev pub target : (Handle → Text) → Option Offer → Option (Text × Text)
target get_name none = none
target get_name (some (s, h)) = some (s, get_name h)

-- The locals of the two methods agree but for the map.
abbrev exported : CommandLocals → StateLocals
exported l = record {
  joint_state_interfaces = l.joint_command_interfaces;
  joint_mapped_interfaces = l.joint_mapped_interfaces;
}

pub text_eq-append : (p s t : Text) → text_eq (p ++ s) (p ++ t) ≡ text_eq s t
unfolding text_eq
text_eq-append [] s t = refl
text_eq-append (c ∷ p) s t = ground (arith, text_eq-append p s t)

pub same_joint :
    (joint a b : Text) → text_eq (joint ++ slash ∷ a) (joint ++ slash ∷ b) ≡ text_eq a b
unfolding text_eq
same_joint joint a b = text_eq-append joint (slash ∷ a) (slash ∷ b)

module _ (get_name : Handle → Text) (joint : Text) where
  record Maps (l : CommandLocals) (F : Text → Option Offer) : Type 0 where
    pub holds : Holds joint (exported l) F
    pub mapped :
        (n : Text)
        → lookup (joint ++ slash ∷ n) l.joint_command_interface_map ≡ target get_name (F n)
    pub foreign :
        (k : Text)
        → ((n : Text) → text_eq (joint ++ slash ∷ n) k ≡ false)
        → lookup k l.joint_command_interface_map ≡ none

  Maps-ext :
      (l : CommandLocals) (F G : Text → Option Offer)
      → ((n : Text) → F n ≡ G n)
      → Maps l F
      → Maps l G
  Maps-ext l F G e v = record {
    holds = Holds-ext joint (exported l) F G e v.holds;
    mapped = λ n. v.mapped n ∙ ap (target get_name) (e n);
    foreign = v.foreign;
  }

  exported_step :
      (slave claim : Text) (l : CommandLocals) (h : Handle)
      → map_state_interface joint claim (exported l) h
        ≡ exported (map_command_interface get_name joint slave claim l h)
  unfolding map_state_interface map_command_interface
  exported_step slave claim l h = ground arith

  map_command_interface-Maps :
      (slave claim : Text) (l : CommandLocals) (F : Text → Option Offer) (h : Handle)
      → Maps l F
      → Maps
          (map_command_interface get_name joint slave claim l h)
          (λ n. or_else (F n) (first_offer n (ranged slave claim [] (h ∷ []))))
  unfolding map_command_interface claimed_range
  map_command_interface-Maps slave claim l F h v = record {
    holds =
        rw (exported_step slave claim l h) at
          (map_state_interface-Holds joint slave claim (exported l) F h v.holds);
    mapped = λ n. ground (
      arith,
      v.mapped n,
      v.holds.names n,
      v.holds.names h.interface_name,
      text_eq_iff h.interface_name n,
      same_joint joint h.interface_name n,
      lookup-assign (joint ++ slash ∷ h.interface_name) (joint ++ slash ∷ n) (slave, get_name h)
          l.joint_command_interface_map,
    );
    foreign = λ k away. ground (
      arith,
      v.foreign k away,
      away h.interface_name,
      lookup-assign (joint ++ slash ∷ h.interface_name) k (slave, get_name h)
          l.joint_command_interface_map,
    );
  }

  range-Maps :
      (slave claim : Text) (l : CommandLocals) (F : Text → Option Offer) (hs : List Handle)
      → Maps l F
      → Maps
          (foldl (map_command_interface get_name joint slave claim) l hs)
          (λ n. or_else (F n) (first_offer n (ranged slave claim [] hs)))
  unfolding claimed_range
  range-Maps slave claim l F [] v = Maps-ext l F _ (λ n. sym (or_else-none (F n))) v
  range-Maps slave claim l F (h ∷ hs) v = Maps-ext _ _ _ (ranged-cons joint slave claim F h hs) (
      range-Maps slave claim (map_command_interface get_name joint slave claim l h) _ hs
        (map_command_interface-Maps slave claim l F h v))

  claimed-Maps :
      (t : Tokens) (l : CommandLocals) (F : Text → Option Offer) (hs : List Handle)
      → Maps l F
      → Maps
          (foldl
            (map_command_interface get_name joint t.slave t.claim)
            l
            (claimed_range t.claim t.name hs))
          (λ n. or_else (F n) (first_offer n (tag t.slave (keep (wanted t) hs))))
  unfolding claimed_range
  claimed-Maps t l F hs v =
      Maps-ext _ _ _ (λ n. ap (or_else (F n)) (ranged-offers n t hs))
        (range-Maps t.slave t.claim l F (claimed_range t.claim t.name hs) v)

  module _ (slaves : Interfaces) where
    tokens-Maps :
        (t : Tokens) (l : CommandLocals) (F : Text → Option Offer)
        → Maps l F
        → Maps
            (resolve_command_tokens get_name slaves joint t l)
            (λ n. or_else (F n) (first_offer n (offers (codes "command") (λ b. b.1) slaves t)))
    unfolding resolve_command_tokens
    tokens-Maps t l F v = elim (Bool-cases (is_empty t.type || text_eq t.type (codes "command"))) [
      | inr e ↦ rw e (Maps-ext l F _ (λ n. sym (or_else-none (F n))) v)
      | inl e ↦ rw e (elim (Option-cases (lookup t.slave slaves)) [
        | inl m ↦ rw m (Maps-ext l F _ (λ n. sym (or_else-none (F n))) v)
        | inr (both, m) ↦ rw m (claimed-Maps t l F both.1 v)
      ])
    ]

    claims-Maps :
        (cs : List Text) (l : CommandLocals) (F : Text → Option Offer)
        → AllFit cs
        → Maps l F
        → (os : List Offer) × (l' : CommandLocals) × (all_offers
              (codes "command")
              (λ b. b.1)
              slaves
              cs
            ≡ some os)
          × (resolve_command_claims get_name slaves joint cs l ≡ some l')
          × Maps l' (λ n. or_else (F n) (first_offer n os))
    unfolding resolve_command_claims
    claims-Maps [] l F h v = ([], l, refl, refl, Maps-ext l F _ (λ n. sym (or_else-none (F n))) v)
    claims-Maps (c ∷ cs) l F h v =
        let (t, e) = tokenize_interface-some c h.0 in
        let (os, l', offered, done, v') =
          claims-Maps cs (resolve_command_tokens get_name slaves joint t l) _ h.1
            (tokens-Maps t l F v) in
        let here = offers (codes "command") (λ b. b.1) slaves t in
        (
          here ++ os,
          l',
          rw (e, offered),
          rw e done,
          Maps-ext l' _ _
              (λ n.
                or_else_assoc (F n) (first_offer n here) (first_offer n os)
                ∙ ap (or_else (F n)) (sym (first_offer-append n here os)))
              v',
        )

-- A text is a prefix with a slash and a name behind it, or it is not with any name.
named_key :
    (joint k : Text)
    → ((n : Text) × (joint ++ slash ∷ n ≡ k))
      ⊎ ((n : Text) → text_eq (joint ++ slash ∷ n) k ≡ false)
unfolding text_eq
named_key joint [] = inr (λ n. missing joint n)
  where
    missing : (j n : Text) → text_eq (j ++ slash ∷ n) [] ≡ false
    missing [] n = refl
    missing (c ∷ j) n = refl
named_key [] (c ∷ k) = elim (Bool-cases (slash == c)) [
  | inl e ↦ inl (k, ap (λ x. x ∷ k) ((==_iff slash c).0 e))
  | inr e ↦ inr (λ n. rw e refl)
]
named_key (j ∷ joint) (c ∷ k) = elim (Bool-cases (j == c)) [
  | inl e ↦ elim (named_key joint k) [
    | inl (n, found) ↦ inl (n, rw ((==_iff j c).0 e, found) refl)
    | inr away ↦ inr (λ n. rw (e, away n) refl)
  ]
  | inr e ↦ inr (λ n. rw e refl)
]

-- The command interfaces of a joint whose claim ids have fewer than four slashes: the call succeeds;
-- a name is exported just when a claim of the joint offers it, with the value of the first such
-- offer, and never twice; the map takes <joint>/<name> to the slave and the full name of that same
-- offer, and has no key of another form.
pub resolve_command_interfaces_by_joint-offers :
    (get_name : Handle → Text) {S : Type 0} (r : EcClaimsResolver S) (joint : Text)
    → AllFit (lookup_or [] joint r.joint_claims)
    → (os : List Offer) × (out : List Handle) × (names : Dict (Text × Text)) × (all_offers
          (codes "command")
          (λ b. b.1)
          r.slave_interfaces
          (lookup_or [] joint r.joint_claims)
        ≡ some os)
      × (resolve_command_interfaces_by_joint get_name r joint ≡ some (out, names))
      × ((n : Text) → find_named n out ≡ alias joint (first_offer n os))
      × DistinctNames out
      × ((n : Text) → lookup (joint ++ slash ∷ n) names ≡ target get_name (first_offer n os))
      × ((k : Text) → (lookup k names ≡ none) ⊎ ((n : Text) × (joint ++ slash ∷ n ≡ k)))
unfolding resolve_command_interfaces_by_joint contains lookup
resolve_command_interfaces_by_joint-offers get_name r joint h =
    let (os, l, offered, done, v) =
      claims-Maps get_name joint r.slave_interfaces (lookup_or [] joint r.joint_claims)
        (record {
          joint_command_interfaces = [];
          joint_command_interface_map = [];
          joint_mapped_interfaces = [];
        })
        (λ n. none) h
        (record {
          holds = record { names = λ n. refl; found = λ n. refl; distinct = tt };
          mapped = λ n. refl;
          foreign = λ k away. refl;
        }) in
    (
      os,
      l.joint_command_interfaces,
      l.joint_command_interface_map,
      offered,
      rw done,
      v.holds.found,
      v.holds.distinct,
      v.mapped,
      λ k. elim (named_key joint k) [ inl found ↦ inr found | inr away ↦ inl (v.foreign k away) ],
    )
