-- ===== src/Driver/Configure/Hooks.antt =====
-- SOEMMaster::call_slave_SDO_setup_hook (soem_master.cpp) with the hooks that on_configure attaches.
use soem_driver_ros.Base.{
  ℕ, ◌+◌, ◌%◌, ◌^◌, ◌≡◌, refl, ap, inl, inr, Bool, Bool-cases, ==_iff, ◌==◌, if◌then◌else◌, List,
  [], ◌∷◌, Option, none, some, Text, arith,
}
use soem_driver_ros.Driver.Configure.{slave_attach_sdo_setup_hook}

-- The arguments of an SDOwrite_t.
pub record SdoWrite : Type 0 where
  pub index : ℕ
  pub sub_index : ℕ
  pub content : List ℕ
  pub complete_access : Bool

-- SDO_setup_hook_store.find(position)
unfoldable pub find_hook : ℕ → List (ℕ × Text) → Option Text
find_hook position [] = none
find_hook position ((p, name) ∷ hooks) =
    if p == position then some name else find_hook position hooks

-- What a hook writes, one after the other. The result of ecx_SDOwrite is an int, as is the sum.
unfoldable pub write_each : (SdoWrite → ℕ) → List SdoWrite → ℕ → ℕ
write_each ecx_sdo_write [] wkc = wkc
write_each ecx_sdo_write (w ∷ writes) wkc =
    write_each ecx_sdo_write writes ((wkc + ecx_sdo_write w) % 2 ^ 32)

-- The result, by what the setup_SDO_hook of the named module writes and what ecx_SDOwrite answers for
-- the slave at a position.
unfoldable pub call_slave_sdo_setup_hook :
    (Text → List SdoWrite) → (ℕ → SdoWrite → ℕ) → List (ℕ × Text) → ℕ → ℕ
unfolding find_hook write_each
call_slave_sdo_setup_hook setup_sdo_hook ecx_sdo_write store position =
    elim (find_hook position store) [
      | none ↦ 0
      | some name ↦ write_each (ecx_sdo_write position) (setup_sdo_hook name) 0
    ]

find_hook-attach :
    (p q : ℕ) (name : Text) (store : List (ℕ × Text))
    → find_hook q (slave_attach_sdo_setup_hook p name store)
      ≡ (if p == q then some name else find_hook q store)
unfolding find_hook slave_attach_sdo_setup_hook
find_hook-attach p q name [] = refl
find_hook-attach p q name ((r, other) ∷ store) = ground (arith, find_hook-attach p q name store)

-- The sum of what a hook's writes answer.
abbrev pub answers : (SdoWrite → ℕ) → List SdoWrite → ℕ
answers f [] = 0
answers f (w ∷ writes) = f w + answers f writes

write_each-answers :
    (f : SdoWrite → ℕ) (writes : List SdoWrite) (wkc : ℕ)
    → write_each f writes wkc % 2 ^ 32 ≡ (wkc + answers f writes) % 2 ^ 32
unfolding write_each
write_each-answers f [] wkc = omega arith
write_each-answers f (w ∷ writes) wkc =
    omega (arith, write_each-answers f writes ((wkc + f w) % 2 ^ 32))

-- Behind the attachment of a module's hook for a position, SOEM's call for that position makes the writes
-- of that module, of which the answers add up as an int, and its call for another one does what it did.
pub call_slave_sdo_setup_hook-attach :
    (setup_sdo_hook : Text → List SdoWrite) (ecx_sdo_write : ℕ → SdoWrite → ℕ) (p q : ℕ)
    (name : Text) (store : List (ℕ × Text))
    → call_slave_sdo_setup_hook setup_sdo_hook ecx_sdo_write
          (slave_attach_sdo_setup_hook p name store)
          q
        % 2 ^ 32
      ≡ (if p == q
          then answers (ecx_sdo_write p) (setup_sdo_hook name)
          else call_slave_sdo_setup_hook setup_sdo_hook ecx_sdo_write store q)
        % 2 ^ 32
unfolding call_slave_sdo_setup_hook
call_slave_sdo_setup_hook-attach setup_sdo_hook ecx_sdo_write p q name store =
    elim (Bool-cases (p == q)) [
      | inl same ↦
          rw (find_hook-attach p q name store, same, call_slave_sdo_setup_hook)
            (omega (
              arith,
              write_each-answers (ecx_sdo_write q) (setup_sdo_hook name) 0,
              ap (λ r. answers (ecx_sdo_write r) (setup_sdo_hook name)) ((==_iff p q).0 same),
            ))
      | inr other ↦ rw (find_hook-attach p q name store, other, call_slave_sdo_setup_hook) refl
    ]
