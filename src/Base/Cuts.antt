-- ===== src/Base/Cuts.antt =====
-- How take and drop cut lists that are joined.
use Prim.Native.Nat.{ℕ, zero, suc, ◌+◌, ◌-◌, ◌≤◌}
use mathlib.Core.Path.{◌≡◌, refl, ap, sym, ◌∙◌}
use mathlib.Core.List.{List, [], ◌∷◌, ◌++◌}
use native.Mathlib.Omega.{arith}
use soem_driver_ros.Base.Lists.{length, take, drop}

none_left : (n : ℕ) → 0 ≡ 0 - n
none_left n = omega arith

suc_out : (k n : ℕ) → suc (k + n) ≡ suc k + n
suc_out k n = omega arith

module _ {ℓ} {A : Type ℓ} where
  pub drop-append_ge :
      (n : ℕ) (xs ys : List A) → length xs ≤ n → drop n (xs ++ ys) ≡ drop (n - length xs) ys
  drop-append_ge n [] ys h = ap (λ k. drop k ys) (omega arith)
  drop-append_ge zero (x ∷ xs) ys h = absurd (omega (arith, h))
  drop-append_ge (suc n) (x ∷ xs) ys h =
      rw (drop-append_ge n xs ys (omega (arith, h))) (ap (λ k. drop k ys) (omega arith))

  pub drop-append_le :
      (n : ℕ) (xs ys : List A) → n ≤ length xs → drop n (xs ++ ys) ≡ drop n xs ++ ys
  drop-append_le zero xs ys h = refl
  drop-append_le (suc n) [] ys h = absurd (omega (arith, h))
  drop-append_le (suc n) (x ∷ xs) ys h = drop-append_le n xs ys (omega (arith, h))

  pub take-append_le : (n : ℕ) (xs ys : List A) → n ≤ length xs → take n (xs ++ ys) ≡ take n xs
  take-append_le zero xs ys h = refl
  take-append_le (suc n) [] ys h = absurd (omega (arith, h))
  take-append_le (suc n) (x ∷ xs) ys h = ap (λ l. x ∷ l) (take-append_le n xs ys (omega (arith, h)))

  abbrev no_items : List A
  no_items = []

  drop-nil : (n : ℕ) → drop n no_items ≡ []
  drop-nil zero = refl
  drop-nil (suc n) = refl

  take-nil : (n : ℕ) → take n no_items ≡ []
  take-nil zero = refl
  take-nil (suc n) = refl

  pub drop-drop : (n k : ℕ) (xs : List A) → drop n (drop k xs) ≡ drop (k + n) xs
  drop-drop n zero xs = ap (λ i. drop i xs) (omega arith)
  drop-drop n (suc k) [] = drop-nil n ∙ sym (drop-nil (suc k + n))
  drop-drop n (suc k) (x ∷ xs) = drop-drop n k xs ∙ ap (λ i. drop i (x ∷ xs)) (suc_out k n)

  pub drop-take : (n k : ℕ) (xs : List A) → drop n (take k xs) ≡ take (k - n) (drop n xs)
  drop-take zero k xs = ap (λ i. take i xs) (omega arith)
  drop-take (suc n) zero xs = ap (λ i. take i (drop (suc n) xs)) (none_left (suc n))
  drop-take (suc n) (suc k) [] = sym (take-nil (suc k - suc n))
  drop-take (suc n) (suc k) (x ∷ xs) = drop-take n k xs ∙ ap (λ i. take i (drop n xs)) (omega arith)

  pub take-take : (n k : ℕ) (xs : List A) → n ≤ k → take n (take k xs) ≡ take n xs
  take-take zero k xs h = refl
  take-take (suc n) zero xs h = absurd (omega (arith, h))
  take-take (suc n) (suc k) [] h = refl
  take-take (suc n) (suc k) (x ∷ xs) h = ap (λ l. x ∷ l) (take-take n k xs (omega (arith, h)))

  pub take-append-drop : (n : ℕ) (xs : List A) → take n xs ++ drop n xs ≡ xs
  take-append-drop zero xs = refl
  take-append-drop (suc n) [] = refl
  take-append-drop (suc n) (x ∷ xs) = ap (λ l. x ∷ l) (take-append-drop n xs)
