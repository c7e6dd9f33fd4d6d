-- ===== src/Claims/Tokens/Laws.antt =====
-- What the four tokens of a claim id are.
use soem_driver_ros.Base.{
  ℕ, suc, ◌≤◌, ◌<◌, ◌≡◌, ◌≢◌, ◌↔◌, refl, ap, ◌∙◌, List, [], ◌∷◌, ◌++◌, none, some, arith, ◌==◌,
  if◌then◌else◌, inl, inr, length, length-replicate, length-append, replicate, ◌-◌, ◌⊎◌, All, Text,
  slash,
}
use soem_driver_ros.Claims.Tokens.{
  extend_first, split_pieces, split, pad, copy_tokens, tokenize_interface,
}

-- How often the delimiter stands in a text.
unfoldable pub delimiters : ℕ → Text → ℕ
delimiters d [] = 0
delimiters d (c ∷ cs) = let rest = delimiters d cs in if c == d then suc rest else rest

length-extend_first : (c : ℕ) (ps : List Text) → length (extend_first c ps) ≡ length ps
length-extend_first c [] = refl
length-extend_first c (p ∷ ps) = refl

length-split_pieces : (d : ℕ) (s : Text) → length (split_pieces d s) ≡ suc (delimiters d s)
unfolding split_pieces delimiters
length-split_pieces d [] = refl
length-split_pieces d (c ∷ cs) =
    ground (arith, length-split_pieces d cs, length-extend_first c (split_pieces d cs))

-- A text without the delimiter.
abbrev pub Free : ℕ → Text → Type 0
Free d [] = Unit {0}
Free d (c ∷ cs) = (c ≢ d) × Free d cs

-- The texts with a slash between each two.
abbrev pub join : List Text → Text
join [] = []
join (p ∷ []) = p
join (p ∷ q ∷ ps) = p ++ slash ∷ join (q ∷ ps)

split_pieces-Free : (d : ℕ) (s : Text) → Free d s → split_pieces d s ≡ s ∷ []
unfolding split_pieces
split_pieces-Free d [] h = refl
split_pieces-Free d (c ∷ cs) h = ground (arith, split_pieces-Free d cs h.1)

split_pieces-append :
    (d : ℕ) (s t : Text) → Free d s → split_pieces d (s ++ d ∷ t) ≡ s ∷ split_pieces d t
unfolding split_pieces
split_pieces-append d [] t h = ground arith
split_pieces-append d (c ∷ cs) t h = ground (arith, split_pieces-append d cs t h.1)

split_pieces-join :
    (p : Text) (ps : List Text)
    → All (Free slash) (p ∷ ps)
    → split_pieces slash (join (p ∷ ps)) ≡ p ∷ ps
split_pieces-join p [] h = split_pieces-Free slash p h.0
split_pieces-join p (q ∷ ps) h =
    split_pieces-append slash p (join (q ∷ ps)) h.0 ∙ ap (◌∷◌ p) (split_pieces-join q ps h.1)

length-split : (d : ℕ) (s : Text) → (length (split d s) ≡ suc (delimiters d s)) ⊎ (s ≡ [])
unfolding split
length-split d [] = inr refl
length-split d (c ∷ cs) = inl (length-split_pieces d (c ∷ cs))

length-pad :
    (ps : List Text)
    → ((length ps ≤ 4) × (length (pad 4 [] ps) ≡ 4)) ⊎ ((4 < length ps) × (pad 4 [] ps ≡ ps))
unfolding pad
length-pad ps = ground (
  arith,
  length-append ps (replicate (4 - length ps) []),
  length-replicate {0} {A = Text} (4 - length ps) [],
)

copy_tokens-none : (ps : List Text) → (copy_tokens ps ≡ none) ↔ (4 < length ps)
unfolding copy_tokens
copy_tokens-none [] = ground arith
copy_tokens-none (a ∷ []) = ground arith
copy_tokens-none (a ∷ b ∷ []) = ground arith
copy_tokens-none (a ∷ b ∷ c ∷ []) = ground arith
copy_tokens-none (a ∷ b ∷ c ∷ d ∷ []) = ground arith
copy_tokens-none (a ∷ b ∷ c ∷ d ∷ e ∷ ps) = (λ _. omega arith, λ _. refl)

tokenize_pieces : (ps : List Text) → (copy_tokens (pad 4 [] ps) ≡ none) ↔ (4 < length ps)
tokenize_pieces ps = elim (length-pad ps) [
  | inl (h, e) ↦ ground (arith, copy_tokens-none (pad 4 [] ps))
  | inr (h, e) ↦ rw e (copy_tokens-none ps)
]

-- The write behind the array happens for exactly the claim ids with four slashes or more.
pub tokenize_interface-none : (s : Text) → (tokenize_interface s ≡ none) ↔ (4 ≤ delimiters slash s)
unfolding tokenize_interface
tokenize_interface-none s = elim (length-split slash s) [
  | inl e ↦ ground (arith, tokenize_pieces (split slash s))
  | inr e ↦ rw e (unfold delimiters in ground arith)
]

split-append : (d : ℕ) (s t : Text) → split d (s ++ d ∷ t) ≡ split_pieces d (s ++ d ∷ t)
unfolding split
split-append d [] t = refl
split-append d (c ∷ cs) t = refl

split-join :
    (p q : Text) (ps : List Text)
    → All (Free slash) (p ∷ q ∷ ps)
    → split slash (join (p ∷ q ∷ ps)) ≡ p ∷ q ∷ ps
split-join p q ps h = split-append slash p (join (q ∷ ps)) ∙ split_pieces-join p (q ∷ ps) h

-- A claim id made of two, three or four parts without slashes comes apart into these parts, the
-- missing ones empty.
pub tokenize_interface-join :
    (slave claim type name : Text)
    → All (Free slash) (slave ∷ claim ∷ type ∷ name ∷ [])
    → (tokenize_interface (join (slave ∷ claim ∷ []))
        ≡ some (record { slave = slave; claim = claim; type = []; name = [] }))
      × (tokenize_interface (join (slave ∷ claim ∷ type ∷ []))
          ≡ some (record { slave = slave; claim = claim; type = type; name = [] }))
      × (tokenize_interface (join (slave ∷ claim ∷ type ∷ name ∷ []))
          ≡ some (record { slave = slave; claim = claim; type = type; name = name }))
unfolding tokenize_interface
tokenize_interface-join slave claim type name (hs, (hc, (ht, (hn, _)))) = (
  ap (λ ps. copy_tokens (pad 4 [] ps)) (split-join slave claim [] (hs, (hc, tt))),
  ap (λ ps. copy_tokens (pad 4 [] ps)) (split-join slave claim (type ∷ []) (hs, (hc, (ht, tt)))),
  ap (λ ps. copy_tokens (pad 4 [] ps))
      (split-join slave claim (type ∷ name ∷ []) (hs, (hc, (ht, (hn, tt))))),
)
