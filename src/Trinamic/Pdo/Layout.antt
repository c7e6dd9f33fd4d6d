-- ===== src/Trinamic/Pdo/Layout.antt =====
-- The copies stay inside the buffers and carry the members over.
use soem_driver_ros.Base.{
  take_all, ℕ, zero, suc, ◌^◌, ◌≤◌, ◌<◌, ◌≡◌, min, refl, ap, ◌∙◌, List, [], ◌∷◌, ◌++◌, arith,
  length, take, drop, length-append, length-take, length-drop, append-nil, append_assoc,
}
use soem_driver_ros.Trinamic.Endian.{Endianness, to_memory, of_memory}
use soem_driver_ros.Trinamic.Endian.Laws.{length-to_memory, of_memory-to_memory}
use soem_driver_ros.Trinamic.Pdo.{
  RxPdo, copy_min, rx_pdo_memory, write_rx_pdo, word_at, first_byte, byte_at, tx_pdo_of_memory,
  read_tx_pdo, read_mbx,
}

pub length-copy_min : (src dst : List ℕ) → length (copy_min src dst) ≡ length dst
unfolding copy_min
length-copy_min src dst = omega (
  arith,
  length-append (take (min (length src) (length dst)) src)
      (drop (min (length src) (length dst)) dst),
  length-take (min (length src) (length dst)) src,
  length-drop (min (length src) (length dst)) dst,
)

drop_all : (xs : List ℕ) (n : ℕ) → length xs ≤ n → drop n xs ≡ []
drop_all [] zero h = refl
drop_all [] (suc n) h = refl
drop_all (x ∷ xs) zero h = absurd (omega arith)
drop_all (x ∷ xs) (suc n) h = drop_all xs n (omega arith)

-- A source that fits is copied whole, and the rest of the target stays.
pub copy_min_fits :
    (src dst : List ℕ) → length src ≤ length dst → copy_min src dst ≡ src ++ drop (length src) dst
unfolding copy_min
copy_min_fits src dst h =
    let e : min (length src) (length dst) ≡ length src = omega arith in
    rw (e, take_all src (length src) (omega arith))

-- A target that is full takes the front of the source.
pub copy_min_fills :
    (src dst : List ℕ) → length dst ≤ length src → copy_min src dst ≡ take (length dst) src
unfolding copy_min
copy_min_fills src dst h =
    let e : min (length src) (length dst) ≡ length dst = omega arith in
    rw (e, drop_all dst (length dst) (omega arith), append-nil)

take-append : (n : ℕ) (xs ys : List ℕ) → length xs ≡ n → take n (xs ++ ys) ≡ xs
take-append zero [] ys e = refl
take-append zero (x ∷ xs) ys e = absurd (omega arith)
take-append (suc n) [] ys e = absurd (omega arith)
take-append (suc n) (x ∷ xs) ys e = ap (◌∷◌ x) (take-append n xs ys (omega arith))

drop-append : (n : ℕ) (xs ys : List ℕ) → length xs ≡ n → drop n (xs ++ ys) ≡ ys
drop-append zero [] ys e = refl
drop-append zero (x ∷ xs) ys e = absurd (omega arith)
drop-append (suc n) [] ys e = absurd (omega arith)
drop-append (suc n) (x ∷ xs) ys e = drop-append n xs ys (omega arith)

length-rx_pdo_memory :
    (host : Endianness) (padding : List ℕ) (r : RxPdo)
    → length padding ≡ 35
    → length (rx_pdo_memory host padding r) ≡ 40
unfolding rx_pdo_memory
length-rx_pdo_memory host padding r h = omega (
  arith,
  length-append (to_memory host 4 r.setpoint) (r.mode ∷ padding),
  length-to_memory host 4 r.setpoint,
)

written_front :
    (host : Endianness) (r : RxPdo) (rest : List ℕ)
    → r.setpoint < 256 ^ 4
    → let bytes = to_memory host 4 r.setpoint ++ r.mode ∷ rest in
      (word_at host 0 bytes ≡ r.setpoint) × (byte_at 4 bytes ≡ r.mode)
written_front host r rest hs = (
  ap (of_memory host) (
        take-append 4 (to_memory host 4 r.setpoint) (r.mode ∷ rest)
          (length-to_memory host 4 r.setpoint))
      ∙ of_memory-to_memory host 4 r.setpoint hs,
  ap first_byte (
      drop-append 4 (to_memory host 4 r.setpoint) (r.mode ∷ rest)
        (length-to_memory host 4 r.setpoint)),
)

front_flat :
    (host : Endianness) (padding : List ℕ) (r : RxPdo) (rest : List ℕ)
    → rx_pdo_memory host padding r ++ rest
      ≡ to_memory host 4 r.setpoint ++ r.mode ∷ (padding ++ rest)
unfolding rx_pdo_memory
front_flat host padding r rest = append_assoc (to_memory host 4 r.setpoint) (r.mode ∷ padding) rest

written :
    (host : Endianness) (padding : List ℕ) (r : RxPdo) (buffer : List ℕ)
    → length padding ≡ 35
    → 40 ≤ length buffer
    → write_rx_pdo host padding r buffer ≡ rx_pdo_memory host padding r ++ drop 40 buffer
unfolding write_rx_pdo
written host padding r buffer hp room =
    copy_min_fits (rx_pdo_memory host padding r) buffer
      (omega (arith, length-rx_pdo_memory host padding r hp))
    ∙ ap (λ n. rx_pdo_memory host padding r ++ drop n buffer)
        (length-rx_pdo_memory host padding r hp)

room_enough :
    (host : Endianness) (padding : List ℕ) (r : RxPdo) (buffer : List ℕ)
    → length padding ≡ 35
    → r.setpoint < 256 ^ 4
    → 40 ≤ length buffer
    → let out = write_rx_pdo host padding r buffer in
      (word_at host 0 out ≡ r.setpoint) × (byte_at 4 out ≡ r.mode) × (drop 40 out ≡ drop 40 buffer)
room_enough host padding r buffer hp hs room =
    let e = written host padding r buffer hp room in
    let flat = front_flat host padding r (drop 40 buffer) in
    let front = written_front host r (padding ++ drop 40 buffer) hs in
    (
      ap (word_at host 0) (e ∙ flat) ∙ front.0,
      ap (byte_at 4) (e ∙ flat) ∙ front.1,
      ap (drop 40) e
          ∙ drop-append 40 (rx_pdo_memory host padding r) (drop 40 buffer)
              (length-rx_pdo_memory host padding r hp),
    )

-- Writing an RxPDO with a setpoint of 32 bits into a buffer of 40 bytes or more keeps the size of
-- the buffer, puts the setpoint in the first four bytes, in the byte order of the host, and the
-- mode in the next one, and leaves the bytes from the 41st on alone.
pub write_rx_pdo-layout :
    (host : Endianness) (padding : List ℕ) (r : RxPdo) (buffer : List ℕ)
    → length padding ≡ 35
    → r.setpoint < 256 ^ 4
    → 40 ≤ length buffer
    → let out = write_rx_pdo host padding r buffer in
      (length out ≡ length buffer)
      × (word_at host 0 out ≡ r.setpoint)
      × (byte_at 4 out ≡ r.mode)
      × (drop 40 out ≡ drop 40 buffer)
unfolding write_rx_pdo
write_rx_pdo-layout host padding r buffer hp hs room =
    let (setpoint, mode, rest) = room_enough host padding r buffer hp hs room in
    (length-copy_min (rx_pdo_memory host padding r) buffer, setpoint, mode, rest)

-- Reading a TxPDO from a buffer of 40 bytes or more gives the members that its first 40 bytes hold,
-- whatever the local variable held before.
pub read_tx_pdo-determined :
    (host : Endianness) (indeterminate buffer : List ℕ)
    → length indeterminate ≡ 40
    → 40 ≤ length buffer
    → read_tx_pdo host indeterminate buffer ≡ tx_pdo_of_memory host (take 40 buffer)
unfolding read_tx_pdo
read_tx_pdo-determined host indeterminate buffer hi hb =
    ap (tx_pdo_of_memory host)
      (copy_min_fills buffer indeterminate (omega arith) ∙ ap (λ n. take n buffer) hi)

-- A message of eight bytes or more is read as its first eight bytes, whatever the local held before.
pub read_mbx-message :
    (host : Endianness) (ind : List ℕ) (o m s k a b e f : ℕ) (rest : List ℕ)
    → length ind ≡ 8
    → read_mbx host ind (o ∷ m ∷ s ∷ k ∷ a ∷ b ∷ e ∷ f ∷ rest) ≡ record {
      origin_address = o;
      module_address = m;
      status = s;
      command = k;
      value = of_memory host (a ∷ b ∷ e ∷ f ∷ []);
    }
unfolding read_mbx
read_mbx-message host ind o m s k a b e f rest hi =
    let buffer = o ∷ m ∷ s ∷ k ∷ a ∷ b ∷ e ∷ f ∷ rest in
    rw (copy_min_fills buffer ind (omega arith), hi)
