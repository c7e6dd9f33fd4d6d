-- ===== src/Driver/Configure/Places.antt =====
-- Modules with positions, and what keeps them.
use soem_driver_ros.Base.{
  All-map, find_if, length-append, length-map, ℕ, ◌≤◌, ◌≡◌, inl, inr, refl, sym, ap, ◌∙◌, Bool,
  true, Bool-cases, Option-cases, List, [], ◌∷◌, ◌++◌, some, Text, Dict, lookup, assign,
  lookup-assign, text_eq, text_eq_iff, length, map, All, arith, ◌==◌,
}
use soem_driver_ros.Master.Setup.{EcSlaveInfo, Span, DataAccess, Bus}
use soem_driver_ros.Master.Setup.Positions.{Within, Indexed}
use soem_driver_ros.Driver.Configure.{
  Module, SoemDriver, assign_data_access, assign_each_data_access,
}

-- A named module with a position from 1 to n.
abbrev pub At : {S : Type 0} → ℕ → Dict (Module S) → Text → Type 0
At {S} n slaves name =
    (m : Module S) × (lookup name slaves ≡ some m)
    × (1 ≤ m.position_ec_bus)
    × (m.position_ec_bus ≤ n)

-- All initialized slaves have one.
abbrev pub Initialized : {S : Type 0} → ℕ → SoemDriver S → Type 0
Initialized n d = All (At n d.slaves) d.initialized_slaves

-- The slaves on the bus and the initialized slaves have positions within the number of the first.
abbrev pub Placed : {S : Type 0} → SoemDriver S → Type 0
Placed d = Indexed d.master × Initialized (length d.master.slaves) d

pub find_if-Within :
    (n : ℕ) (p : EcSlaveInfo → Bool) (xs : List EcSlaveInfo) (x : EcSlaveInfo)
    → All (Within n) xs
    → find_if p xs ≡ some x
    → Within n x
unfolding find_if
find_if-Within n p [] x h e = absurd cc
find_if-Within n p (y ∷ ys) x h e = elim (Bool-cases (p y)) [
  | inl found ↦ rw (sym (same (ground (arith, found, e)))) h.0
  | inr other ↦ find_if-Within n p ys x h.1 (ground (arith, other, e))
]
  where
    same : some y ≡ some x → y ≡ x
    same q = cc

pub All-snoc :
    (P : Text → Type 0) (names : List Text) (name : Text)
    → All P names
    → P name
    → All P (names ++ name ∷ [])
All-snoc P [] name a p = (p, tt)
All-snoc P (x ∷ xs) name a p = (a.0, All-snoc P xs name a.1 p)

pub covered :
    (b b' : Bus) (f : EcSlaveInfo → DataAccess)
    → b'.slaves ≡ b.slaves
    → b'.slaves_data_access ≡ b.slaves_data_access ++ map f b.slaves
    → length b'.slaves ≤ length b'.slaves_data_access
covered b b' f same added =
    rw (same, added)
      (omega (arith, length-append b.slaves_data_access (map f b.slaves), length-map f b.slaves))

module _ {S : Type 0} where
  At-mono :
      (n k : ℕ) (slaves : Dict (Module S)) (name : Text)
      → n ≤ k
      → At n slaves name
      → At k slaves name
  At-mono n k slaves name h (m, e, l, u) = (m, e, l, omega (arith, h, u))

  pub All-At-mono :
      (n k : ℕ) (slaves : Dict (Module S)) (names : List Text)
      → n ≤ k
      → All (At n slaves) names
      → All (At k slaves) names
  All-At-mono n k slaves names h = All-map _ _ (λ name. At-mono n k slaves name h) names

  assign-At :
      (n : ℕ) (slaves : Dict (Module S)) (key name : Text) (m : Module S)
      → 1 ≤ m.position_ec_bus
      → m.position_ec_bus ≤ n
      → At n slaves name
      → At n (assign key m slaves) name
  assign-At n slaves key name m l u (m0, e, l0, u0) = elim (Bool-cases (text_eq key name)) [
    | inl same ↦ (m, lookup-assign key name m slaves ∙ rw same refl, l, u)
    | inr other ↦ (m0, lookup-assign key name m slaves ∙ rw other e, l0, u0)
  ]

  pub All-assign-At :
      (n : ℕ) (slaves : Dict (Module S)) (key : Text) (names : List Text) (m : Module S)
      → 1 ≤ m.position_ec_bus
      → m.position_ec_bus ≤ n
      → All (At n slaves) names
      → All (At n (assign key m slaves)) names
  All-assign-At n slaves key names m l u =
      All-map _ _ (λ name. assign-At n slaves key name m l u) names

  found_same :
      (name other : Text) (slaves : Dict (Module S)) (m m0 : Module S)
      → text_eq name other ≡ true
      → lookup name slaves ≡ some m
      → lookup other slaves ≡ some m0
      → m ≡ m0
  found_same name other slaves m m0 same found e =
      let k = (text_eq_iff name other).0 same in
      some_injective (sym found ∙ ap (λ key. lookup key slaves) k ∙ e)
    where
      some_injective : some m ≡ some m0 → m ≡ m0
      some_injective h = cc

  repointed-At :
      (n : ℕ) (slaves : Dict (Module S)) (name other : Text) (m : Module S) (rx tx : Span)
      → lookup name slaves ≡ some m
      → At n slaves other
      → At n (assign name (record m { rx_pdo = rx; tx_pdo = tx }) slaves) other
  repointed-At n slaves name other m rx tx found (m0, e, l, u) =
      elim (Bool-cases (text_eq name other)) [
        | inl same ↦
            (let k = found_same name other slaves m m0 same found e in
              (
                record m { rx_pdo = rx; tx_pdo = tx },
                lookup-assign name other (record m { rx_pdo = rx; tx_pdo = tx }) slaves
                    ∙ rw same refl,
                rw k l,
                rw k u,
              ))
        | inr different ↦ (
          m0,
          lookup-assign name other (record m { rx_pdo = rx; tx_pdo = tx }) slaves ∙ rw different e,
          l,
          u,
        )
      ]

  pub assign_data_access-At :
      (n : ℕ) (accesses : List DataAccess) (name other : Text) (slaves : Dict (Module S))
      → At n slaves other
      → At n (assign_data_access accesses name slaves) other
  unfolding assign_data_access
  assign_data_access-At n accesses name other slaves h = elim (Option-cases (lookup name slaves)) [
    | inl missing ↦ rw (missing, assign_data_access) h
    | inr (m, found) ↦
        elim (Option-cases (find_if (λ da. da.slave_info.position == m.position_ec_bus) accesses)) [
          | inl missing ↦ rw (found, missing, assign_data_access) h
          | inr (da, hit) ↦
              rw (found, hit, assign_data_access)
                (repointed-At n slaves name other m da.rx_pdo da.tx_pdo found h)
        ]
  ]

  assign_each_data_access-At :
      (n : ℕ) (accesses : List DataAccess) (names : List Text) (slaves : Dict (Module S))
      (other : Text)
      → At n slaves other
      → At n (assign_each_data_access accesses names slaves) other
  unfolding assign_each_data_access
  assign_each_data_access-At n accesses [] slaves other h = h
  assign_each_data_access-At n accesses (name ∷ names) slaves other h =
      assign_each_data_access-At n accesses names _ other
        (assign_data_access-At n accesses name other slaves h)

  pub All-assigned-At :
      (n : ℕ) (accesses : List DataAccess) (names : List Text) (slaves : Dict (Module S))
      (others : List Text)
      → All (At n slaves) others
      → All (At n (assign_each_data_access accesses names slaves)) others
  All-assigned-At n accesses names slaves others =
      All-map _ _ (assign_each_data_access-At n accesses names slaves) others
