-- ===== src/Driver/Urdf/Parser.antt =====
-- A parsing method that sets fields of an object; what it stores before an exception stays stored.
use soem_driver_ros.Base.{Bool, true, false}
use soem_driver_ros.Driver.Urdf.Xml.{Exception, Outcome, returns, throws, crashes}

abbrev pub Parser : Type 0 → Type 0 → Type 0
Parser S A = S → Outcome A × S

infixl 5 ◌>>=◌ ◌>>◌
abbrev pub ◌>>=◌ : {S A B : Type 0} → Parser S A → (A → Parser S B) → Parser S B
◌>>=◌ m f c =
    let (r, c') = m c in
    elim r [ returns a ↦ f a c' | throws e ↦ (throws e, c') | crashes ↦ (crashes, c') ]

abbrev pub ◌>>◌ : {S A B : Type 0} → Parser S A → Parser S B → Parser S B
m >> k = m >>= λ _. k

abbrev pub lift : {S A : Type 0} → Outcome A → Parser S A
lift r c = (r, c)

abbrev pub store : {S : Type 0} → (S → S) → Parser S (Unit {0})
store f c = (returns tt, f c)

abbrev pub throw_if : {S : Type 0} → Bool → Exception → Parser S (Unit {0})
throw_if true e = lift (throws e)
throw_if false e = lift (returns tt)
