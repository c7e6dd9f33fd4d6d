-- ===== src/Driver/Urdf/Xml.antt =====
-- What a parsing method comes to, the XML document that it reads, which is tinyxml2's, and the two
-- methods that read one element (soem_driver.cpp).
use soem_driver_ros.Base.{
  ℕ, ◌≡◌, ◌⊎◌, inl, inr, refl, List, [], ◌∷◌, ◌++◌, Option, none, some, Text, codes,
}

-- An exception: a std::runtime_error with its text, a failed std::stoi or std::stod, or one of
-- yaml-cpp.
pub data Exception : Type 0 where
  runtime_error : Text → Exception
  bad_conversion bad_yaml : Exception

-- The result of a call; `crashes` is the use of a null pointer.
pub data Outcome {ℓ} (A : Type ℓ) : Type ℓ where
  returns : A → Outcome A
  throws : Exception → Outcome A
  crashes : Outcome A

infixl 5 ◌>>=◌
abbrev pub ◌>>=◌ {ℓ κ} : {A : Type ℓ} {B : Type κ} → Outcome A → (A → Outcome B) → Outcome B
returns a >>= f = f a
throws e >>= f = throws e
crashes >>= f = crashes

-- How a call ends.
pub data Ending : Type 0 where
  returned thrown crashed : Ending

abbrev pub ending {ℓ} : {A : Type ℓ} → Outcome A → Ending
ending (returns a) = returned
ending (throws e) = thrown
ending crashes = crashed

-- A bind that returns has a first result.
pub bind_returns {ℓ κ} :
    {A : Type ℓ} {B : Type κ} (r : Outcome A) (f : A → Outcome B) (b : B)
    → (r >>= f) ≡ returns b
    → (a : A) × (r ≡ returns a) × (f a ≡ returns b)
bind_returns (returns a) f b h = (a, refl, h)
bind_returns (throws e) f b h = absurd cc
bind_returns crashes f b h = absurd cc

pub Outcome-cases {ℓ} :
    {A : Type ℓ} (r : Outcome A)
    → ((a : A) × (r ≡ returns a)) ⊎ ((e : Exception) × (r ≡ throws e)) ⊎ (r ≡ crashes)
Outcome-cases (returns a) = inl (a, refl)
Outcome-cases (throws e) = inr (inl (e, refl))
Outcome-cases crashes = inr (inr refl)

-- A call that may throw one exception.
abbrev pub or_throw {ℓ} : {A : Type ℓ} → Exception → Option A → Outcome A
or_throw e none = throws e
or_throw e (some a) = returns a

-- Elements of a document. `children e tag` are the element FirstChildElement(tag) and those that
-- NextSiblingElement(tag) reaches from it. `parse` gives no document where Parse leaves an error, and
-- a document may have no root element. `stoi` is std::stoi, an int as its bit pattern.
pub record Xml : Type 1 where
  pub Element : Type 0
  pub parse : Text → Option (Option Element)
  pub tag_name : Element → Text
  pub get_text : Element → Option Text
  pub attribute : Element → Text → Option Text
  pub children : Element → Text → List Element
  pub stoi : Text → Option ℕ

abbrev pub first {ℓ} : {A : Type ℓ} → List A → Option A
first [] = none
first (x ∷ xs) = some x

module _ (x : Xml) where
  open x use {Element}

  -- An element without text has the empty text.
  unfoldable pub get_text_for_element : Element → Text
  get_text_for_element element_it = elim (x.get_text element_it) [ none ↦ [] | some text ↦ text ]

  unfoldable pub get_attribute_value : Element → Text → Text → Outcome Text
  get_attribute_value element_it attribute_name tag_name =
      or_throw
        (runtime_error (
          codes "no attribute "
          ++ (attribute_name ++ (codes " in " ++ (tag_name ++ codes " tag")))))
        (x.attribute element_it attribute_name)

  -- std::stoi of the text of an element
  unfoldable pub get_int : Element → Outcome ℕ
  unfolding get_text_for_element
  get_int element_it = or_throw bad_conversion (x.stoi (get_text_for_element element_it))

pub or_throw-returns {ℓ} :
    {A : Type ℓ} (e : Exception) (o : Option A) (a : A) → or_throw e o ≡ returns a → o ≡ some a
or_throw-returns e none a h = absurd cc
or_throw-returns e (some b) a h = cc
