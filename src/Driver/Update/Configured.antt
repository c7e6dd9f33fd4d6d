-- ===== src/Driver/Update/Configured.antt =====
-- read() and write() of a configured driver.
use soem_driver_ros.Base.{
  ℕ, zero, suc, ◌+◌, ◌-◌, ◌^◌, ◌≤◌, ◌≡◌, ◌≢◌, ◌⊎◌, inl, inr, refl, sym, ◌∙◌, List, [], ◌∷◌, some,
  Text, Dict, lookup, length, get_elem?-All, All, All-map, length-map, arith, length-replicate, map,
}
use soem_driver_ros.Driver.Configure.{success, Module, SoemDriver, ConfigureModule, on_configure}
use soem_driver_ros.Master.Setup.{
  EcSlaveInfo, DataAccess, Scan, Mapping, pointer_offset, data_access,
}
use soem_driver_ros.Driver.Configure.Places.{At, Initialized}
use soem_driver_ros.Driver.Configure.Access.{on_configure-Configured}
use soem_driver_ros.Driver.Configure.Wired.{WiredAt, Wired, on_configure-Wired}
use soem_driver_ros.Driver.Update.{
  Exchange, UpdateOps, to_access, to_station, exchange_of, Turn, turns,
}
use soem_driver_ros.Driver.Update.Spans.{Inside, Holds}
use soem_driver_ros.Driver.Update.Slaves.{Fits}
use soem_driver_ros.Driver.Update.Complete.{Whole, Answering, turns-Completes}
use soem_driver_ros.Driver.Update.Laid.{Laid, some_injective, on_configure-Laid}

-- A part of the process data at an address, which is empty or lies in the whole.
abbrev pub LiesIn : ℕ → ℕ → ℕ → ℕ → Type 0
LiesIn at bytes base n = (bytes ≡ 0) ⊎ ((base ≤ at) × (at + bytes ≤ base + n))

-- What SOEM maps is in order: the process data ends within the address space, the part of each slave
-- lies in it, and no mailbox of a slave exceeds the one of SOEM.
abbrev pub InOrder : ℕ → Mapping → Type 0
InOrder size a =
    (a.outputs_at + length a.outputs ≤ 2 ^ 64)
    × (a.inputs_at + length a.inputs ≤ 2 ^ 64)
    × ((p : ℕ)
        → LiesIn (a.slavelist p).outputs (a.slavelist p).obytes a.outputs_at (length a.outputs)
          × LiesIn (a.slavelist p).inputs (a.slavelist p).ibytes a.inputs_at (length a.inputs)
          × ((a.slavelist p).mbx_rl ≤ size))

LiesIn-Inside :
    (at bytes base n : ℕ)
    → base + n ≤ 2 ^ 64
    → LiesIn at bytes base n
    → Inside (record { offset = pointer_offset at base; size = bytes }) n
LiesIn-Inside at bytes base n h (inl e) = inl e
LiesIn-Inside at zero base n h (inr k) = inl refl
LiesIn-Inside at (suc bytes) base n h (inr k) = inr (omega (arith, h, k))

data_access-Inside :
    (size : ℕ) (a : Mapping) (da : DataAccess)
    → InOrder size a
    → ((s : EcSlaveInfo) × (da ≡ data_access a s))
    → Inside da.rx_pdo (length a.outputs)
      × Inside da.tx_pdo (length a.inputs)
      × (length (to_access da).r_mbx ≤ size)
unfolding data_access to_access
data_access-Inside size a da h (s, e) = rw e (
  LiesIn-Inside _ _ _ _ h.0 (h.2 s.position).0,
  LiesIn-Inside _ _ _ _ h.1 (h.2 s.position).1,
  omega (arith, length-replicate {A = ℕ} (a.slavelist s.position).mbx_rl 0, (h.2 s.position).2),
)

lookup-map-to_station :
    {S : Type 0} (name : Text) (m : Module S) (slaves : Dict (Module S))
    → lookup name slaves ≡ some m
    → lookup name (map to_station slaves)
      ≡ some (record { module_of = m; mbx_send_queue = []; mbx_receive_queue = [] })
unfolding lookup
lookup-map-to_station name m [] e = absurd cc
lookup-map-to_station name m ((key, other) ∷ slaves) e =
    ground (arith, e, lookup-map-to_station name m slaves)

All-both {ℓ κ} :
    {A : Type ℓ} (P Q : A → Type κ) (xs : List A) → All P xs → All Q xs → All (λ x. P x × Q x) xs
All-both P Q [] h k = tt
All-both P Q (x ∷ xs) h k = ((h.0, k.0), All-both P Q xs h.1 k.1)

All-of-map {ℓ κ} :
    {A B : Type ℓ} (P : B → Type κ) (f : A → B) (xs : List A)
    → All (λ x. P (f x)) xs
    → All P (map f xs)
All-of-map P f [] h = tt
All-of-map P f (x ∷ xs) h = (h.0, All-of-map P f xs h.1)

module _ {S : Type 0} (size : ℕ) (mapping : Mapping) (ordered : InOrder size mapping)
    (d : SoemDriver S) (laid : Laid mapping d.master) where
  wired-Holds :
      (name : Text)
      → At (length d.master.slaves_data_access) d.slaves name
        × WiredAt d.master.slaves_data_access d.slaves name
      → Holds
          (Fits
            (length d.master.slaves_data_access)
            (length mapping.outputs)
            (length mapping.inputs)
            size)
          (map to_station d.slaves)
          name
  wired-Holds name ((m, found, low, high), (m', found', da, at, position, rx, tx)) =
      let same : m' ≡ m = some_injective _ _ (sym found' ∙ found) in
      let inside =
        data_access-Inside size mapping da ordered
          (get_elem?-All _ d.master.slaves_data_access (m'.position_ec_bus - 1) da laid.0 at) in
      (
        _,
        lookup-map-to_station name m d.slaves found,
        (low, high, rw (sym same, rx) inside.0, rw (sym same, tx) inside.1),
      )

  exchange_of-Whole :
      {V : Type 0} (values : V)
      → Initialized (length d.master.slaves_data_access) d
      → Wired d
      → Whole
          (length d.master.slaves_data_access)
          (length mapping.outputs)
          (length mapping.inputs)
          size
          (exchange_of d values)
  unfolding exchange_of
  exchange_of-Whole values placed wired = (
    All-map _ _ wired-Holds d.initialized_slaves (All-both _ _ d.initialized_slaves placed wired),
    length-map to_access d.master.slaves_data_access,
    laid.1,
    laid.2,
    All-of-map _ to_access d.master.slaves_data_access (
        All-map _ _ (λ da e. (data_access-Inside size mapping da ordered e).2)
          d.master.slaves_data_access laid.0),
  )

succeeded {ℓ} : {P : Type ℓ} → (success ≢ success) ⊎ P → P
succeeded (inl h) = absurd (h refl)
succeeded (inr p) = p

module _ {S V : Type 0} (configure : ConfigureModule S) (ops : UpdateOps S V) where
  -- Behind a first on_configure that succeeds, where what SOEM maps is in order and it receives mailboxes
  -- of one size, every sequence of calls of read() and write(), with all initialized slaves, and of the
  -- handling of the mailboxes by the cyclic task completes: no access leaves the vector of the entries,
  -- the process data or the received mailbox.
  pub configured_turns_complete :
      (scan : Scan) (mapping : Mapping) (d d' : SoemDriver S) (size : ℕ) (values : V)
      (ts : List Turn)
      → d.master.slaves ≡ []
      → d.master.slaves_data_access ≡ []
      → d.initialized_slaves ≡ []
      → on_configure configure scan mapping d ≡ some (success, d')
      → InOrder size mapping
      → All (Answering size) ts
      → (e : Exchange S V) × (turns ops ts (exchange_of d' values) ≡ some e)
        × (e.initialized_slaves ≡ d'.initialized_slaves)
  unfolding exchange_of
  configured_turns_complete scan mapping d d' size values ts empty fresh none_yet done ordered
        answering =
      let laid = on_configure-Laid configure scan mapping d d' fresh done in
      let (r, here, result, wired) =
        on_configure-Wired configure scan mapping d empty fresh none_yet in
      let (r', here', placed) =
        on_configure-Configured configure scan mapping d (rw empty tt, rw none_yet tt) in
      let same : r ≡ (success, d') = some_injective _ _ (sym here ∙ done) in
      let same' : r' ≡ (success, d') = some_injective _ _ (sym here' ∙ done) in
      let (e, there, _, kept) =
        turns-Completes (length d'.master.slaves_data_access) (length mapping.outputs)
          (length mapping.inputs) size ops ts (exchange_of d' values) answering
          (exchange_of-Whole size mapping ordered d' laid values (succeeded (rw same' at placed.1))
            (succeeded (rw same at wired))) in
      (e, there, kept)
