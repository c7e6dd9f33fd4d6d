-- ===== src/Master/Cycle/Transfers.antt =====
-- What a cycle does to the process data, and that cycles complete.
use soem_driver_ros.Base.{
  ◌>>=◌, ℕ, suc, ◌≤◌, ◌≡◌, refl, ap, false, if◌then◌else◌, Option-cases, inl, inr, List, [], ◌∷◌,
  append-nil, Option, some, or_default, arith, length, drop, length-take, All,
}
use soem_driver_ros.Master.Mailboxes.{
  SlaveDataAccess, MbxAnswer, handle_mailbox, handle_mailboxes, send_mailbox, receive_mailbox,
}
use soem_driver_ros.Master.Cycle.{Master, CycleInput, copy_all, cycle, cycles}
use soem_driver_ros.Master.Cycle.Counters.{bind_some}

drop-length : (xs ys : List ℕ) → length xs ≡ length ys → drop (length xs) ys ≡ []
drop-length [] [] e = refl
drop-length [] (y ∷ ys) e = absurd (omega arith)
drop-length (x ∷ xs) [] e = absurd (omega arith)
drop-length (x ∷ xs) (y ∷ ys) e = drop-length xs ys (omega arith)

pub copy_whole : (src dst : List ℕ) → length src ≡ length dst → copy_all src dst ≡ src
unfolding copy_all
copy_whole src dst e = rw (drop-length src dst e) (append-nil src)

-- A cycle that completes has answered both requests for a transfer, where the buffers have the sizes
-- of their maps: requested outputs stand in the map, requested inputs in the working buffer, and
-- without a request the outputs in the map and the inputs in the working buffer stay.
pub cycle-transfers :
    (i : CycleInput) (m m' : Master)
    → length m.rx_pdo_working ≡ length m.rx_pdo_iomap
    → length i.inputs ≡ length m.tx_pdo_working
    → cycle i m ≡ some m'
    → (m'.rx_pdo_transfer ≡ false)
      × (m'.tx_pdo_transfer ≡ false)
      × (m'.rx_pdo_iomap ≡ (if m.rx_pdo_transfer then m.rx_pdo_working else m.rx_pdo_iomap))
      × (m'.tx_pdo_working ≡ (if m.tx_pdo_transfer then i.inputs else m.tx_pdo_working))
      × (m'.rx_pdo_working ≡ m.rx_pdo_working)
unfolding cycle
cycle-transfers i m m' hr ht e =
    let (slaves, _, done) = bind_some (handle_mailboxes i.answers 1 m.slaves_data_access) _ m' e in
    let same = ap (or_default m) done in
    let out = copy_whole m.rx_pdo_working m.rx_pdo_iomap hr in
    let inp = copy_whole i.inputs m.tx_pdo_working ht in rw (← same) (ground (arith, out, inp))

-- The buffers of the slaves fit what SOEM receives.
abbrev pub Fitting : ℕ → List SlaveDataAccess → Type 0
Fitting size = All (λ s. length s.r_mbx ≤ size)

bind_of {ℓ κ} :
    {A : Type ℓ} {B : Type κ} (o : Option A) (f : A → Option B) (a : A)
    → o ≡ some a
    → (o >>= f) ≡ f a
bind_of o f a e = ap (λ p. p >>= f) e

pub receive_mailbox-some :
    (size : ℕ) (a : MbxAnswer) (s : SlaveDataAccess)
    → length a.content ≡ size
    → length s.r_mbx ≤ size
    → (s' : SlaveDataAccess) × (receive_mailbox a s ≡ some s') × (length s'.r_mbx ≤ size)
unfolding receive_mailbox
receive_mailbox-some size a s e h = elim (Option-cases (receive_mailbox a s)) [
  | inl missing ↦ absurd (ground (arith, missing))
  | inr (s', done) ↦ (s', done, ground (arith, done, length-take (length s.r_mbx) a.content))
]

pub send_mailbox-r_mbx : (a : MbxAnswer) (s : SlaveDataAccess) → (send_mailbox a s).r_mbx ≡ s.r_mbx
unfolding send_mailbox
send_mailbox-r_mbx a s = ground arith

handle_mailbox-some :
    (size : ℕ) (a : MbxAnswer) (s : SlaveDataAccess)
    → length a.content ≡ size
    → length s.r_mbx ≤ size
    → (s' : SlaveDataAccess) × (handle_mailbox a s ≡ some s') × (length s'.r_mbx ≤ size)
unfolding handle_mailbox
handle_mailbox-some size a s e h =
    receive_mailbox-some size a (send_mailbox a s) e
      (omega (arith, ap length (send_mailbox-r_mbx a s)))

pub handle_mailboxes-some :
    (size : ℕ) (answers : ℕ → MbxAnswer) (position : ℕ) (slaves : List SlaveDataAccess)
    → ((k : ℕ) → length (answers k).content ≡ size)
    → Fitting size slaves
    → (slaves' : List SlaveDataAccess) × (handle_mailboxes answers position slaves ≡ some slaves')
      × Fitting size slaves'
      × (length slaves' ≡ length slaves)
unfolding handle_mailboxes
handle_mailboxes-some size answers position [] e h = ([], refl, tt, refl)
handle_mailboxes-some size answers position (s ∷ slaves) e h =
    let (s', done, fits) = handle_mailbox-some size (answers position) s (e position) h.0 in
    let (rest, rest_done, rest_fits, as_many) =
      handle_mailboxes-some size answers (suc position) slaves e h.1 in
    (s' ∷ rest, rw (done, rest_done) refl, (fits, rest_fits), ap suc as_many)

-- Where the received mailbox has a size that no buffer of a slave exceeds, every run of cycles
-- completes, with buffers that fit again.
pub cycles_complete :
    (size : ℕ) (is : List CycleInput) (m : Master)
    → All (λ i. (k : ℕ) → length (i.answers k).content ≡ size) is
    → Fitting size m.slaves_data_access
    → (m' : Master) × (cycles is m ≡ some m') × Fitting size m'.slaves_data_access
unfolding cycles cycle
cycles_complete size [] m e h = (m, refl, h)
cycles_complete size (i ∷ is) m e h =
    let (m1, first, fits) = one in
    let (m', rest, fits') = cycles_complete size is m1 e.1 fits in (m', rw first rest, fits')
  where
    one : (m1 : Master) × (cycle i m ≡ some m1) × Fitting size m1.slaves_data_access
    one =
        let (slaves, done, fits, as_many) =
          handle_mailboxes-some size i.answers 1 m.slaves_data_access e.0 h in
        (_, bind_of _ _ slaves done, fits)
