-- ===== src/Trinamic/Endian/Laws.antt =====
-- The conversions give the byte order that they are named after, on either host.
use mathlib.Core.List.{reverse, reverse-reverse, reverse-cons}
use native.Mathlib.Nat.{pow-suc}
use soem_driver_ros.Base.{
  ℕ, zero, suc, ◌+◌, ◌*◌, ◌/◌, ◌%◌, ◌^◌, ◌<◌, ◌≡◌, refl, ap, ◌∙◌, List, [], ◌∷◌, ◌++◌, arith,
  length, length-append, All,
}
use soem_driver_ros.Trinamic.Endian.{
  Endianness, big, little, le_bytes, of_le_bytes, to_memory, of_memory, get_endianness,
  to_big_endian, from_big_endian, to_little_endian, from_little_endian,
}

abbrev pub AllBytes : List ℕ → Type 0
AllBytes = All (λ b. b < 256)

pub length-le_bytes : (n v : ℕ) → length (le_bytes n v) ≡ n
unfolding le_bytes
length-le_bytes zero v = refl
length-le_bytes (suc n) v = ap suc (length-le_bytes n (v / 256))

pub le_bytes-AllBytes : (n v : ℕ) → AllBytes (le_bytes n v)
unfolding le_bytes
le_bytes-AllBytes zero v = tt
le_bytes-AllBytes (suc n) v = (omega arith, le_bytes-AllBytes n (v / 256))

pub of_le_bytes-le_bytes : (n v : ℕ) → v < 256 ^ n → of_le_bytes (le_bytes n v) ≡ v
unfolding le_bytes of_le_bytes
of_le_bytes-le_bytes zero v h = omega arith
of_le_bytes-le_bytes (suc n) v h =
    omega (arith, of_le_bytes-le_bytes n (v / 256) (omega (arith, pow-suc 256 n)), pow-suc 256 n)

pub le_bytes-of_le_bytes : (bs : List ℕ) → AllBytes bs → le_bytes (length bs) (of_le_bytes bs) ≡ bs
unfolding le_bytes of_le_bytes
le_bytes-of_le_bytes [] h = refl
le_bytes-of_le_bytes (b ∷ bs) h =
    let quotient : (b + 256 * of_le_bytes bs) / 256 ≡ of_le_bytes bs = omega (arith, h.0) in
    let remainder : (b + 256 * of_le_bytes bs) % 256 ≡ b = omega (arith, h.0) in
    rw (quotient, remainder, le_bytes-of_le_bytes bs h.1)

All-append : (xs ys : List ℕ) → AllBytes xs → AllBytes ys → AllBytes (xs ++ ys)
All-append [] ys hx hy = hy
All-append (x ∷ xs) ys hx hy = (hx.0, All-append xs ys hx.1 hy)

reverse-AllBytes : (bs : List ℕ) → AllBytes bs → AllBytes (reverse bs)
reverse-AllBytes [] h = tt
reverse-AllBytes (b ∷ bs) h =
    rw (reverse-cons b bs) (All-append (reverse bs) (b ∷ []) (reverse-AllBytes bs h.1) (h.0, tt))

pub length-reverse {ℓ} : {A : Type ℓ} (xs : List A) → length (reverse xs) ≡ length xs
length-reverse [] = refl
length-reverse (x ∷ xs) =
    omega
      (arith, ap length (reverse-cons x xs), length-append (reverse xs) (x ∷ []), length-reverse xs)

-- A number made of n bytes comes apart into them again.
unmake : (n : ℕ) (bs : List ℕ) → length bs ≡ n → AllBytes bs → le_bytes n (of_le_bytes bs) ≡ bs
unmake n bs e h = rw (← e) (le_bytes-of_le_bytes bs h)

reversed : (n v : ℕ) → le_bytes n (of_le_bytes (reverse (le_bytes n v))) ≡ reverse (le_bytes n v)
reversed n v =
    unmake n (reverse (le_bytes n v)) (length-reverse (le_bytes n v) ∙ length-le_bytes n v)
      (reverse-AllBytes (le_bytes n v) (le_bytes-AllBytes n v))

-- The compile-time test finds the byte order of the host.
pub get_endianness_lem : (host : Endianness) → get_endianness host ≡ host
unfolding get_endianness
get_endianness_lem big = refl
get_endianness_lem little = refl

-- On either host a value below 256 ^ n that is made big endian has its n bytes in memory most
-- significant first, and one made little endian has them least significant first.
pub to_endian-memory :
    (host : Endianness) (n v : ℕ)
    → v < 256 ^ n
    → (to_memory host n (to_big_endian host n v) ≡ reverse (le_bytes n v))
      × (to_memory host n (to_little_endian host n v) ≡ le_bytes n v)
unfolding to_big_endian to_little_endian
to_endian-memory little n v h = (reversed n v, refl)
to_endian-memory big n v h = (
  refl,
  rw (reverse-reverse (le_bytes n v)) (ap reverse (reversed n v) ∙ reverse-reverse (le_bytes n v)),
)

-- On either host bytes that stand in memory are read as the big endian or the little endian number
-- that they spell.
pub from_endian-memory :
    (host : Endianness) (bs : List ℕ)
    → AllBytes bs
    → (from_big_endian host (length bs) (of_memory host bs) ≡ of_le_bytes (reverse bs))
      × (from_little_endian host (length bs) (of_memory host bs) ≡ of_le_bytes bs)
unfolding from_big_endian from_little_endian
from_endian-memory little bs h =
    (ap (λ m. of_le_bytes (reverse m)) (le_bytes-of_le_bytes bs h), refl)
from_endian-memory big bs h = (
  refl,
  simp (
    reverse-reverse,
    unmake (length bs) (reverse bs) (length-reverse bs) (reverse-AllBytes bs h),
  ),
)

-- On either host converting a value below 256 ^ n of n bytes to a byte order and back gives the
-- value again.
pub from_endian-to_endian :
    (host : Endianness) (n v : ℕ)
    → v < 256 ^ n
    → (from_big_endian host n (to_big_endian host n v) ≡ v)
      × (from_little_endian host n (to_little_endian host n v) ≡ v)
unfolding from_big_endian to_big_endian from_little_endian to_little_endian
from_endian-to_endian little n v h = (
  ap (λ m. of_le_bytes (reverse m)) (reversed n v)
      ∙ rw (reverse-reverse (le_bytes n v)) (of_le_bytes-le_bytes n v h),
  refl,
)
from_endian-to_endian big n v h =
    (refl, simp (reverse-reverse, reversed n v) (of_le_bytes-le_bytes n v h))

pub of_memory-to_memory :
    (host : Endianness) (n v : ℕ) → v < 256 ^ n → of_memory host (to_memory host n v) ≡ v
unfolding of_memory to_memory
of_memory-to_memory little n v h = of_le_bytes-le_bytes n v h
of_memory-to_memory big n v h = rw (reverse-reverse (le_bytes n v)) (of_le_bytes-le_bytes n v h)

pub length-to_memory : (host : Endianness) (n v : ℕ) → length (to_memory host n v) ≡ n
unfolding to_memory
length-to_memory little n v = length-le_bytes n v
length-to_memory big n v = length-reverse (le_bytes n v) ∙ length-le_bytes n v
