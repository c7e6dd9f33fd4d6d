-- ===== src/Trinamic/Doubles.antt =====
-- The double arithmetic of tmcm1610.cpp, which the models take as a parameter: values and the
-- operations that the code applies to them. `to_int32` is the conversion to int32_t, as a bit pattern;
-- `none` is a value out of range, for which C++ leaves the conversion undefined.
use soem_driver_ros.Base.{ℕ, Bool, Option}

pub record Doubles : Type 1 where
  pub D : Type 0
  pub nan : D
  pub pi : D
  pub of_nat : ℕ → D
  pub of_int32 : ℕ → D
  pub of_uint32 : ℕ → D
  pub to_int32 : D → Option ℕ
  pub sub : D → D → D
  pub mul : D → D → D
  pub div : D → D → D
  pub copysign : D → D → D
  pub leb : D → D → Bool
  pub eqb : D → D → Bool
  pub is_finite : D → Bool
