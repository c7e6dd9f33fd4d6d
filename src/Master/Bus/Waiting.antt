-- ===== src/Master/Bus/Waiting.antt =====
-- How long the wait for OP lasts, and how far the sizes of the process data are from the bits.
use soem_driver_ros.Base.{
  ℕ, zero, suc, ◌+◌, ◌/◌, ◌%◌, ◌≤◌, ◌≡◌, ◌↔◌, ◌⊎◌, inl, inr, refl, ap, ◌∙◌, Bool, true, false, ◌||◌,
  if◌then◌else◌, Bool-cases, arith,
}
use soem_driver_ros.Master.Cycle.{MasterState, Master}
use soem_driver_ros.Master.Bus.{pdo_size, returns, wait_op, bus_up_op}

-- The least number of bytes that hold a number of bits.
abbrev pub bytes_for : ℕ → ℕ
bytes_for bits = (bits + 7) / 8

-- The size that is computed for process data is enough for its bits, at most 6 bytes more than the
-- least that is, and the least just when the bits exceed whole bytes by at most one.
pub pdo_size_lem :
    (bits : ℕ)
    → (bytes_for bits ≤ pdo_size bits)
      × (pdo_size bits ≤ bytes_for bits + 6)
      × ((pdo_size bits ≡ bytes_for bits) ↔ (bits % 8 ≤ 1))
unfolding pdo_size
pdo_size_lem bits = (omega arith, omega arith, (λ h. omega (arith, h), λ h. omega (arith, h)))

-- Some check of n, from the k-th on, finds OP.
abbrev pub reached_in : (ℕ → Bool) → ℕ → ℕ → Bool
reached_in reached k zero = false
reached_in reached k (suc n) = reached k || reached_in reached (suc k) n

abbrev Waits : (ℕ → Bool) → ℕ → ℕ → ℕ → Type 0
Waits reached most k runs =
    (before : ℕ) × (runs ≡ suc before)
    × (before ≤ most)
    × (reached_in reached k before ≡ false)
    × ((reached (k + before) ≡ true) ⊎ (before ≡ most))

wait_op-Waits : (reached : ℕ → Bool) (most k : ℕ) → Waits reached most k (wait_op reached most k)
unfolding wait_op
wait_op-Waits reached zero k = (0, refl, omega arith, refl, inr refl)
wait_op-Waits reached (suc most) k = elim (Bool-cases (reached k)) [
  | inl e ↦ (0, rw e refl, omega arith, refl, inl (ground (arith, e)))
  | inr e ↦
      (let (before, runs, fits, none_before, why) = wait_op-Waits reached most (suc k) in
        (
          suc before,
          rw e (ap suc runs),
          omega (arith, fits),
          rw e none_before,
          elim why [
            | inl found ↦ inl (ap reached (shifted k before) ∙ found)
            | inr all ↦ inr (ap suc all)
          ],
        ))
]
  where
    shifted : (k n : ℕ) → k + suc n ≡ suc k + n
    shifted k n = omega arith

-- bus_up_OP exchanges process data once before and at most 201 times in its loop, which ends with the
-- first check that finds OP, or with the 201st; it returns just when all slaves are in OP behind the
-- loop, and throws otherwise. Unless the cyclic task runs the state is IDLE or ERROR accordingly.
pub bus_up_op_lem :
    (reached : ℕ → Bool) (all_op running : Bool) (m : Master)
    → let out = bus_up_op reached all_op running m in
      (before : ℕ) × (out.0 ≡ suc (suc before))
      × (before ≤ 200)
      × (reached_in reached 0 before ≡ false)
      × ((reached before ≡ true) ⊎ (before ≡ 200))
      × ((out.1.0 ≡ returns) ↔ (all_op ≡ true))
      × (out.1.1.status.state ≡ (
          if running
          then m.status.state
          else (if all_op then MasterState.idle else MasterState.error)))
unfolding bus_up_op
bus_up_op_lem reached all_op running m =
    let (before, runs, fits, none_before, why) = wait_op-Waits reached 200 0 in
    (
      before,
      ground (arith, runs),
      fits,
      none_before,
      elim why [ inl found ↦ inl (ap reached (from_zero before) ∙ found) | inr all ↦ inr all ],
      ground arith,
      ground arith,
    )
  where
    from_zero : (n : ℕ) → n ≡ 0 + n
    from_zero n = omega arith
