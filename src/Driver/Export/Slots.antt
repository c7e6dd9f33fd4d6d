-- ===== src/Driver/Export/Slots.antt =====
-- Which values the exported interfaces of transmissions use.
use soem_driver_ros.Base.{
  ℕ, zero, suc, ◌+◌, ◌*◌, ◌≡◌, refl, sym, ap, ◌∙◌, Option-cases, inl, inr, List, [], ◌∷◌, ◌++◌,
  length, map, append-nil, append_assoc, arith, Text, Dict, lookup, is_some, if◌then◌else◌,
}
use soem_driver_ros.Slave.{Handle}
use soem_driver_ros.Claims.Resolve.{make_interface}
use soem_driver_ros.Driver.Export.{
  TransmissionInfo, ConfigureCall, Exports, no_exports, proxies, aliases, values_count,
  export_joint, export_joints,
}

-- The addresses of n elements of eight bytes, from an index on.
abbrev pub addresses : ℕ → ℕ → ℕ → List ℕ
addresses values i zero = []
addresses values i (suc n) = (values + 8 * i) ∷ addresses values (suc i) n

-- The addresses of the joint handles that transmissions are configured with.
abbrev pub handed : List ConfigureCall → List ℕ
handed [] = []
handed (c ∷ cs) = map (λ h. h.value_ptr) c.joint_handles ++ handed cs

addresses_add :
    (values i n k t j : ℕ)
    → t ≡ n + k
    → j ≡ i + n
    → addresses values i t ≡ addresses values i n ++ addresses values j k
addresses_add values i zero k t j e f =
    let t_eq : t ≡ k = omega (arith, e) in
    let j_eq : j ≡ i = omega (arith, f) in rw (t_eq, j_eq) refl
addresses_add values i (suc n) k zero j e f = absurd (omega (arith, e))
addresses_add values i (suc n) k (suc t) j e f =
    ap (λ l. (values + 8 * i) ∷ l)
      (addresses_add values (suc i) n k t j (omega (arith, e)) (omega (arith, f)))

handed-append : (xs ys : List ConfigureCall) → handed (xs ++ ys) ≡ handed xs ++ handed ys
handed-append [] ys = refl
handed-append (x ∷ xs) ys =
    ap (λ l. map (λ h. h.value_ptr) x.joint_handles ++ l) (handed-append xs ys)
    ∙ sym (append_assoc (map (λ h. h.value_ptr) x.joint_handles) (handed xs) (handed ys))

aliases-proxies :
    (values i : ℕ) (info : TransmissionInfo) (interfaces : List Handle)
    → map (λ h. h.value_ptr) (aliases info.joint_name (proxies values info i interfaces))
      ≡ addresses values i (length interfaces)
unfolding proxies make_interface
aliases-proxies values i info [] = refl
aliases-proxies values i info (h ∷ hs) =
    ap (λ l. (values + 8 * i) ∷ l) (aliases-proxies values (suc i) info hs)

module _ (transmissions : Dict TransmissionInfo) where
  -- The values that a joint uses.
  abbrev pub joint_count : Text → List Handle → ℕ
  joint_count name interfaces = if is_some (lookup name transmissions) then length interfaces else 0

  export_joint-handed :
      (values : ℕ) (name : Text) (interfaces : List Handle) (e : Exports)
      → (handed (export_joint transmissions values name interfaces e).configured
          ≡ handed e.configured ++ addresses values e.iterator (joint_count name interfaces))
        × ((export_joint transmissions values name interfaces e).iterator
            ≡ e.iterator + joint_count name interfaces)
  unfolding export_joint
  export_joint-handed values name interfaces e = elim (Option-cases (lookup name transmissions)) [
    | inl missing ↦ rw (missing, export_joint) (sym (append-nil (handed e.configured)), omega arith)
    | inr (info, found) ↦
        rw (found, export_joint)
          (
            handed-append e.configured _
                ∙ ap (λ l. handed e.configured ++ l)
                    (append-nil _ ∙ aliases-proxies values e.iterator info interfaces),
            refl,
          )
  ]

  export_joints-handed :
      (values : ℕ) (joints : Dict (List Handle)) (e : Exports)
      → (handed (export_joints transmissions values joints e).configured
          ≡ handed e.configured ++ addresses values e.iterator (values_count transmissions joints))
        × ((export_joints transmissions values joints e).iterator
            ≡ e.iterator + values_count transmissions joints)
  unfolding export_joints values_count
  export_joints-handed values [] e = (sym (append-nil (handed e.configured)), omega arith)
  export_joints-handed values ((name, interfaces) ∷ joints) e =
      let e' = export_joint transmissions values name interfaces e in
      let step = export_joint-handed values name interfaces e in
      let rest = export_joints-handed values joints e' in
      let count = joint_count name interfaces in
      let later = values_count transmissions joints in
      (
        rest.0
            ∙ ap (λ l. l ++ addresses values e'.iterator later) step.0
            ∙ append_assoc (handed e.configured) (addresses values e.iterator count) _
            ∙ ap (λ l. handed e.configured ++ l)
                (sym (
                  addresses_add values e.iterator count later (count + later) e'.iterator refl
                    step.1)),
        omega (arith, rest.1, step.1),
      )

  -- The joint handles that the transmissions are configured with have, in the order of the joints and
  -- their interfaces, the addresses of the values from the first to the last that are reserved.
  pub export_joints-addresses :
      (values : ℕ) (joints : Dict (List Handle))
      → handed (export_joints transmissions values joints no_exports).configured
        ≡ addresses values 0 (values_count transmissions joints)
  export_joints-addresses values joints = (export_joints-handed values joints no_exports).0
