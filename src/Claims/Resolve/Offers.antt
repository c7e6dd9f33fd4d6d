-- ===== src/Claims/Resolve/Offers.antt =====
-- A description of what the claims of a joint offer to it, without the loops: the interfaces that
-- each claim asks for, in the order of the claims, each with the name of its slave.

use soem_driver_ros.Base.{
  or_else, ◌>>=◌, ◌≡◌, refl, Bool, true, false, ◌&&◌, ◌||◌, List, [], ◌∷◌, ◌++◌, map, Option, none,
  some, arith, if◌then◌else◌, keep, inl, inr, Text, text_eq, text_eq_iff, is_empty, lookup, slash,
  All, ◌<◌, Option-cases,
}
use soem_driver_ros.Slave.{Handle}
use soem_driver_ros.Claims.Tokens.{Tokens, tokenize_interface}
use soem_driver_ros.Claims.Tokens.Laws.{delimiters, tokenize_interface-none}
use soem_driver_ros.Claims.Resolve.{Interfaces, find_interface, claimed_range}

abbrev pub Offer : Type 0
Offer = Text × Handle

-- An interface that a claim asks for: of its claim name, and of its interface name if it has one.
abbrev pub wanted : Tokens → Handle → Bool
wanted t h = text_eq t.claim h.prefix_name && (is_empty t.name || text_eq t.name h.interface_name)

abbrev pub tag : Text → List Handle → List Offer
tag slave = map (λ h. (slave, h))

-- `kind` is "state" or "command", and the function picks these interfaces of a slave.
abbrev pub offers :
    Text → (List Handle × List Handle → List Handle) → Interfaces → Tokens → List Offer
offers kind pick slaves t =
    if is_empty t.type || text_eq t.type kind
    then elim (lookup t.slave slaves) [
      | none ↦ []
      | some both ↦ tag t.slave (keep (wanted t) (pick both))
    ]
    else []

abbrev pub all_offers :
    Text → (List Handle × List Handle → List Handle) → Interfaces → List Text → Option (List Offer)
all_offers kind pick slaves [] = some []
all_offers kind pick slaves (c ∷ cs) = do
  t ← tokenize_interface c
  rest ← all_offers kind pick slaves cs
  some (offers kind pick slaves t ++ rest)

-- The first offer of an interface name.
abbrev pub first_offer : Text → List Offer → Option Offer
first_offer n [] = none
first_offer n ((s, h) ∷ os) = if text_eq h.interface_name n then some (s, h) else first_offer n os

-- The interface of a name.
abbrev pub find_named : Text → List Handle → Option Handle
find_named n [] = none
find_named n (h ∷ hs) = if text_eq h.interface_name n then some h else find_named n hs

-- No two interfaces have one name.
abbrev pub DistinctNames : List Handle → Type 0
DistinctNames [] = Unit {0}
DistinctNames (h ∷ hs) = (find_named h.interface_name hs ≡ none) × DistinctNames hs

pub first_offer-append :
    (n : Text) (xs ys : List Offer)
    → first_offer n (xs ++ ys) ≡ or_else (first_offer n xs) (first_offer n ys)
first_offer-append n [] ys = refl
first_offer-append n ((s, h) ∷ xs) ys = ground (arith, first_offer-append n xs ys)

pub find_named-append :
    (n : Text) (xs ys : List Handle)
    → find_named n (xs ++ ys) ≡ or_else (find_named n xs) (find_named n ys)
find_named-append n [] ys = refl
find_named-append n (h ∷ xs) ys = ground (arith, find_named-append n xs ys)

-- The loops walk over a range of the slave's interfaces and skip those of other claims.
abbrev pub ranged : Text → Text → Text → List Handle → List Offer
ranged slave claim name hs =
    tag slave (keep (λ h. text_eq claim h.prefix_name) (claimed_range claim name hs))

ranged_all :
    (n slave claim : Text) (hs : List Handle)
    → first_offer n (tag slave (keep (λ h. text_eq claim h.prefix_name) hs))
      ≡ first_offer n (tag slave (keep (λ h. text_eq claim h.prefix_name && true) hs))
ranged_all n slave claim [] = refl
ranged_all n slave claim (h ∷ hs) = ground (arith, ranged_all n slave claim hs)

no_offer :
    (n slave claim name : Text) (hs : List Handle)
    → text_eq name n ≡ false
    → first_offer n
        (tag slave (keep (λ h. text_eq claim h.prefix_name && text_eq name h.interface_name) hs))
      ≡ none
no_offer n slave claim name [] e = refl
no_offer n slave claim name (h ∷ hs) e = ground (
  arith,
  text_eq_iff name h.interface_name,
  text_eq_iff h.interface_name n,
  text_eq_iff name n,
  no_offer n slave claim name hs e,
)

ranged_named :
    (n slave claim name : Text) (hs : List Handle)
    → first_offer n
        (tag slave (keep (λ h. text_eq claim h.prefix_name) (find_interface claim name hs)))
      ≡ first_offer n
          (tag slave (keep (λ h. text_eq claim h.prefix_name && text_eq name h.interface_name) hs))
unfolding find_interface
ranged_named n slave claim name [] = refl
ranged_named n slave claim name (h ∷ hs) = ground (
  arith,
  text_eq_iff name h.interface_name,
  text_eq_iff h.interface_name n,
  text_eq_iff name n,
  no_offer n slave claim name hs,
  ranged_named n slave claim name hs,
)

-- The range offers first what the description offers first.
pub ranged-offers :
    (n : Text) (t : Tokens) (hs : List Handle)
    → first_offer n (ranged t.slave t.claim t.name hs)
      ≡ first_offer n (tag t.slave (keep (wanted t) hs))
unfolding claimed_range
ranged-offers n t hs = by_name t.name
  where
    by_name :
        (name : Text)
        → first_offer n (ranged t.slave t.claim name hs)
          ≡ first_offer n (
              tag t.slave (
                keep
                  (λ h.
                    text_eq t.claim h.prefix_name
                    && (is_empty name || text_eq name h.interface_name))
                  hs))
    by_name [] = ranged_all n t.slave t.claim hs
    by_name (c ∷ cs) = ranged_named n t.slave t.claim (c ∷ cs) hs

-- Claim ids that fit the token array: fewer than four slashes.
abbrev pub AllFit : List Text → Type 0
AllFit = All (λ c. delimiters slash c < 4)

-- A claim id that fits has its tokens.
pub tokenize_interface-some :
    (c : Text) → delimiters slash c < 4 → (t : Tokens) × (tokenize_interface c ≡ some t)
tokenize_interface-some c h = elim (Option-cases (tokenize_interface c)) [
  | inl e ↦ absurd (omega (arith, (tokenize_interface-none c).0 e))
  | inr found ↦ found
]
