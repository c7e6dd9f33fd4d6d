-- ===== src/Master/Setup/Positions.antt =====
-- The positions of the slaves that are found, and what start_bus sets up for each of them.
use soem_driver_ros.Base.{
  take_all, find_if, get_elem?, ◌==◌, ==_iff, ℕ, zero, suc, ◌+◌, ◌-◌, ◌≤◌, ◌<◌, ◌≡◌, ◌⊎◌, ◌&&◌, inl,
  inr, refl, sym, ap, ◌∙◌, Bool, true, false, Bool-cases, if◌then◌else◌, List, [], ◌∷◌, ◌++◌, some,
  length, take, replicate, map, All, arith, length-append, length-take, length-replicate,
  append-nil, append_assoc,
}
use soem_driver_ros.Master.Cycle.{MasterState, starting}
use soem_driver_ros.Master.Bus.{BusUp, returns, throws}
use soem_driver_ros.Master.Setup.{
  to_slave_info, EcSlaveInfo, Bus, FoundSlave, Scan, Mapping, report, slave_infos_from, init,
  resize, resize_at, data_access, setup_slaves, setup_buffers, check_safe_op, start_bus,
}

pub BusUp-cases : (up : BusUp) → (up ≡ returns) ⊎ (up ≡ throws)
BusUp-cases returns = inl refl
BusUp-cases throws = inr refl

-- A position from 1 to n.
abbrev pub Within : ℕ → EcSlaveInfo → Type 0
Within n s = (1 ≤ s.position) × (s.position ≤ n)

-- The positions of all slaves are within their number.
abbrev pub Indexed : Bus → Type 0
Indexed b = All (Within (length b.slaves)) b.slaves

All-mono : (n k : ℕ) (xs : List EcSlaveInfo) → n ≤ k → All (Within n) xs → All (Within k) xs
All-mono n k [] h a = tt
All-mono n k (x ∷ xs) h a = ((a.0.0, omega (arith, h, a.0.1)), All-mono n k xs h a.1)

All-append :
    (n : ℕ) (xs ys : List EcSlaveInfo)
    → All (Within n) xs
    → All (Within n) ys
    → All (Within n) (xs ++ ys)
All-append n [] ys a b = b
All-append n (x ∷ xs) ys a b = (a.0, All-append n xs ys a.1 b)

pub length-slave_infos_from :
    (i : ℕ) (found : List FoundSlave) → length (slave_infos_from i found) ≡ length found
unfolding slave_infos_from
length-slave_infos_from i [] = refl
length-slave_infos_from i (s ∷ found) = ap suc (length-slave_infos_from (suc i) found)

slave_infos_from-Within :
    (i n : ℕ) (found : List FoundSlave)
    → 1 ≤ i
    → i + length found ≤ suc n
    → All (Within n) (slave_infos_from i found)
unfolding slave_infos_from
slave_infos_from-Within i n [] h k = tt
slave_infos_from-Within i n (s ∷ found) h k = (
  (h, omega (arith, k)),
  slave_infos_from-Within (suc i) n found (omega arith) (omega (arith, k)),
)

pub report_slaves :
    (s : MasterState) (b : Bus)
    → ((report s b).slaves ≡ b.slaves) × ((report s b).slaves_data_access ≡ b.slaves_data_access)
unfolding report
report_slaves s b = (ground arith, ground arith)

pub init_slaves :
    (scan : Scan) (b : Bus)
    → (init scan b).1.slaves ≡ (
        if scan.opened
        then (if scan.discovered then b.slaves ++ slave_infos_from 1 scan.found else b.slaves)
        else b.slaves)
unfolding init report
init_slaves scan b = ground arith

append-Indexed :
    (xs : List EcSlaveInfo) (found : List FoundSlave)
    → All (Within (length xs)) xs
    → All (Within (length (xs ++ slave_infos_from 1 found))) (xs ++ slave_infos_from 1 found)
append-Indexed xs found h =
    let l = length-append xs (slave_infos_from 1 found) in
    let k = length-slave_infos_from 1 found in
    All-append _ xs (slave_infos_from 1 found) (All-mono _ _ xs (omega (arith, l)) h)
      (slave_infos_from-Within 1 _ found (omega arith) (omega (arith, l, k)))

pub init-Indexed : (scan : Scan) (b : Bus) → Indexed b → Indexed (init scan b).1
init-Indexed scan b h = rw (init_slaves scan b) (elim (Bool-cases scan.opened) [
  | inl opened ↦ elim (Bool-cases scan.discovered) [
    | inl discovered ↦ rw (opened, discovered) (append-Indexed b.slaves scan.found h)
    | inr failed ↦ rw (opened, failed) h
  ]
  | inr failed ↦ rw failed h
])

-- The master that is set up for the first time.
pub init-fresh :
    (scan : Scan) (b : Bus)
    → b.slaves ≡ []
    → b.slaves_data_access ≡ []
    → (scan.opened && scan.discovered) ≡ true
    → ((init scan b).0 ≡ returns)
      × ((init scan b).1.slaves ≡ slave_infos_from 1 scan.found)
      × ((init scan b).1.slaves_data_access ≡ [])
unfolding init report
init-fresh scan b empty fresh found =
    (ground (arith, found), ground (arith, found, empty), ground (arith, found, fresh))

pub init-fails :
    (scan : Scan) (b : Bus) → (scan.opened && scan.discovered) ≡ false → (init scan b).0 ≡ throws
unfolding init
init-fails scan b missing = ground (arith, missing)

-- The entry of a position, for slaves that are numbered from i on.
pub data_access_of_position :
    (a : Mapping) (i k p : ℕ) (found : List FoundSlave)
    → p ≡ i + k
    → k < length found
    → (s : EcSlaveInfo) × (find_if
          (λ da. da.slave_info.position == p)
          (map (data_access a) (slave_infos_from i found))
        ≡ some (data_access a s))
      × (get_elem? (map (data_access a) (slave_infos_from i found)) k ≡ some (data_access a s))
      × (s.position ≡ p)
unfolding find_if data_access slave_infos_from
data_access_of_position a i k p [] e h = absurd (omega (arith, h))
data_access_of_position a i zero p (f ∷ found) e h =
    (to_slave_info i f, rw ((==_iff i p).1 (omega (arith, e))) refl, refl, omega (arith, e))
data_access_of_position a i (suc k) p (f ∷ found) e h =
    let (s, hit, at, same) =
      data_access_of_position a (suc i) k p found (omega (arith, e)) (omega (arith, h)) in
    (s, rw (passed i k p e) hit, at, same)
  where
    passed : (i k p : ℕ) → p ≡ i + suc k → (i == p) ≡ false
    passed i k p e = ground (arith, e)

-- The slaves on the bus are never removed from the list.
pub init_grows : (scan : Scan) (b : Bus) → length b.slaves ≤ length (init scan b).1.slaves
init_grows scan b =
    ground (arith, init_slaves scan b, length-append b.slaves (slave_infos_from 1 scan.found))

pub length-resize {ℓ} : {A : Type ℓ} (n : ℕ) (x : A) (xs : List A) → length (resize n x xs) ≡ n
unfolding resize
length-resize n x xs = omega (
  arith,
  length-append (take n xs) (replicate (n - length xs) x),
  length-take n xs,
  length-replicate (n - length xs) x,
)

resize_whole {ℓ} : {A : Type ℓ} (n : ℕ) (x : A) (xs : List A) → length xs ≡ n → resize n x xs ≡ xs
unfolding resize
resize_whole n x xs h =
    let none_missing : n - length xs ≡ 0 = omega (arith, h) in
    ap (λ k. take n xs ++ replicate k x) none_missing
    ∙ append-nil (take n xs)
    ∙ take_all xs n (omega (arith, h))

-- Resizing to the same size again changes nothing.
pub resize_again {ℓ} :
    {A : Type ℓ} (n : ℕ) (x : A) (xs : List A) → resize n x (resize n x xs) ≡ resize n x xs
resize_again n x xs = resize_whole n x (resize n x xs) (length-resize n x xs)

resize_at-some :
    (p n : ℕ) (xs : List (List ℕ))
    → 1 ≤ p
    → p ≤ length xs
    → (ys : List (List ℕ)) × (resize_at p n xs ≡ some ys) × (length ys ≡ length xs)
unfolding resize_at
resize_at-some zero n xs h k = absurd (omega (arith, h))
resize_at-some (suc i) n [] h k = absurd (omega (arith, k))
resize_at-some (suc zero) n (x ∷ xs) h k = (resize n 0 x ∷ xs, refl, refl)
resize_at-some (suc (suc i)) n (x ∷ xs) h k =
    let (ys, e, l) = resize_at-some (suc i) n xs (omega arith) (omega (arith, k)) in
    (x ∷ ys, rw e refl, ap suc l)

-- The loop sets up all of its slaves.
setup_slaves_complete :
    (a : Mapping) (n : ℕ) (slaves : List EcSlaveInfo) (b : Bus)
    → All (Within n) slaves
    → length b.s_mbx_working ≡ n
    → length b.r_mbx_working ≡ n
    → (b' : Bus) × (setup_slaves a slaves b ≡ some b')
      × (b'.slaves ≡ b.slaves)
      × (b'.slaves_data_access ≡ b.slaves_data_access ++ map (data_access a) slaves)
unfolding setup_slaves
setup_slaves_complete a n [] b h s r = (b, refl, refl, sym (append-nil b.slaves_data_access))
setup_slaves_complete a n (slave ∷ slaves) b h s r =
    let mapped = a.slavelist slave.position in
    let (ss, e, l) =
      resize_at-some slave.position mapped.mbx_l b.s_mbx_working h.0.0 (omega (arith, h.0.1, s)) in
    let (rs, f, k) =
      resize_at-some slave.position mapped.mbx_rl b.r_mbx_working h.0.0 (omega (arith, h.0.1, r)) in
    let (b', g, same, added) =
      setup_slaves_complete a n slaves
        (record b {
          s_mbx_working = ss;
          r_mbx_working = rs;
          slaves_data_access = b.slaves_data_access ++ data_access a slave ∷ [];
        })
        h.1 (l ∙ s) (k ∙ r) in
    (b', rw (e, f) g, same, added ∙ append_assoc b.slaves_data_access _ _)

check_safe_op_slaves :
    (safe_op : Bool) (b : Bus)
    → ((check_safe_op safe_op b).1.slaves ≡ b.slaves)
      × ((check_safe_op safe_op b).1.slaves_data_access ≡ b.slaves_data_access)
      × ((check_safe_op safe_op b).0 ≡ (if safe_op then returns else throws))
unfolding check_safe_op
check_safe_op_slaves true b = (refl, refl, refl)
check_safe_op_slaves false b =
    let same = report_slaves MasterState.error b in (same.0, same.1, refl)

-- If the positions of the slaves are within their number, no buffer behind the end of a vector is used,
-- and an entry for each slave is added in their order, also when the bus does not start.
pub start_bus_complete :
    (a : Mapping) (b : Bus)
    → Indexed b
    → (r : BusUp × Bus) × (start_bus a b ≡ some r)
      × (r.0 ≡ (if a.safe_op then returns else throws))
      × (r.1.slaves ≡ b.slaves)
      × (r.1.slaves_data_access ≡ b.slaves_data_access ++ map (data_access a) b.slaves)
unfolding start_bus setup_buffers
start_bus_complete a b h =
    let b1 = report starting b in
    let same = report_slaves starting b in
    let sized = ap length same.0 in
    let (b', e, slaves, added) =
      setup_slaves_complete a (length b.slaves) b.slaves (setup_buffers a b1) h
        (length-resize (length b1.slaves) [] b1.s_mbx_working ∙ sized)
        (length-resize (length b1.slaves) [] b1.r_mbx_working ∙ sized) in
    let checked = check_safe_op_slaves a.safe_op b' in
    (
      check_safe_op a.safe_op b',
      rw e refl,
      checked.2,
      checked.0 ∙ slaves ∙ same.0,
      checked.1 ∙ added ∙ ap (λ l. l ++ map (data_access a) b.slaves) same.1,
    )
