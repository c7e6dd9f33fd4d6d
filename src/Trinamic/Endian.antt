-- ===== src/Trinamic/Endian.antt =====
-- soem_slave_modules/soem_modules_trinamic/include/soem_modules_trinamic/common.hpp: byte order. A
-- value of an unsigned type of n bytes is a number below 256 ^ n, and its memory is a list of n bytes
-- in the order of the host, which is an argument where the compiler knows it.
pub mod Laws
use mathlib.Core.List.{reverse}
use soem_driver_ros.Base.{
  ℕ, zero, suc, ◌+◌, ◌*◌, ◌/◌, ◌%◌, ◌==◌, if◌then◌else◌, List, [], ◌∷◌, Bool, true, false,
}

pub data Endianness : Type 0 where
  big little : Endianness

-- The least significant byte first.
unfoldable pub le_bytes : ℕ → ℕ → List ℕ
le_bytes zero v = []
le_bytes (suc n) v = (v % 256) ∷ le_bytes n (v / 256)

unfoldable pub of_le_bytes : List ℕ → ℕ
of_le_bytes [] = 0
of_le_bytes (b ∷ bs) = b + 256 * of_le_bytes bs

-- std::bit_cast to and from std::array<std::byte, n>
unfoldable pub to_memory : Endianness → ℕ → ℕ → List ℕ
unfolding le_bytes
to_memory little n v = le_bytes n v
to_memory big n v = reverse (le_bytes n v)

unfoldable pub of_memory : Endianness → List ℕ → ℕ
unfolding of_le_bytes
of_memory little bs = of_le_bytes bs
of_memory big bs = of_le_bytes (reverse bs)

abbrev pub first_is_one : List ℕ → Bool
first_is_one [] = false
first_is_one (b ∷ bs) = b == 1

unfoldable pub get_endianness : Endianness → Endianness
unfolding to_memory
get_endianness host = if first_is_one (to_memory host 8 1) then little else big

unfoldable pub swap_endianness : Endianness → ℕ → ℕ → ℕ
unfolding to_memory of_memory
swap_endianness host n v = of_memory host (reverse (to_memory host n v))

abbrev pub is_little : Endianness → Bool
is_little little = true
is_little big = false

abbrev pub is_big : Endianness → Bool
is_big big = true
is_big little = false

unfoldable pub swap_endianness_other_is_big : Endianness → ℕ → ℕ → ℕ
unfolding swap_endianness get_endianness
swap_endianness_other_is_big host n v =
    if is_little (get_endianness host) then swap_endianness host n v else v

unfoldable pub swap_endianness_other_is_little : Endianness → ℕ → ℕ → ℕ
unfolding swap_endianness get_endianness
swap_endianness_other_is_little host n v =
    if is_big (get_endianness host) then swap_endianness host n v else v

unfoldable pub to_big_endian : Endianness → ℕ → ℕ → ℕ
unfolding swap_endianness_other_is_big
to_big_endian = swap_endianness_other_is_big

unfoldable pub from_big_endian : Endianness → ℕ → ℕ → ℕ
unfolding swap_endianness_other_is_big
from_big_endian = swap_endianness_other_is_big

unfoldable pub to_little_endian : Endianness → ℕ → ℕ → ℕ
unfolding swap_endianness_other_is_little
to_little_endian = swap_endianness_other_is_little

unfoldable pub from_little_endian : Endianness → ℕ → ℕ → ℕ
unfolding swap_endianness_other_is_little
from_little_endian = swap_endianness_other_is_little
