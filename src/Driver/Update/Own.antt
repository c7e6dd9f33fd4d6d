-- ===== src/Driver/Update/Own.antt =====
-- Slaves with parts of the process data of their own do not disturb one another in write().
use soem_driver_ros.Base.{
  ◌>>=◌, ℕ, ◌≡◌, sym, ap, subst, ◌∙◌, List, [], ◌∷◌, ◌++◌, some, Text, lookup, text_eq, false,
  length, take, drop, All, All-append, map,
}
use soem_driver_ros.Trinamic.Pdo.{copy_min}
use soem_driver_ros.Master.Setup.{Span}
use soem_driver_ros.Driver.Update.{
  Station, View, Exchange, view_of, UpdateOps, part, put_part, write_slave, for_each_slave,
  apply_each, write,
}
use soem_driver_ros.Driver.Update.Spans.{Inside, part-some}
use soem_driver_ros.Driver.Update.Apart.{part-put_part_self}
use soem_driver_ros.Driver.Update.Laid.{some_injective}
use soem_driver_ros.Driver.Update.Slaves.{Sound}
use soem_driver_ros.Driver.Update.Complete.{Whole}
use soem_driver_ros.Driver.Update.Still.{
  Called, Away, write_slave-Written, Away-same, write_slaves-still, for_each_slave-append,
}

own_part :
    (p r : Span) (xs0 xs1 xs2 xs3 bytes old : List ℕ)
    → r ≡ p
    → Inside r (length xs1)
    → part p xs1 ≡ part p xs0
    → part r xs1 ≡ some old
    → xs2 ≡ put_part r bytes xs1
    → part p xs3 ≡ part p xs2
    → (part p xs0 ≡ some old) × (part p xs3 ≡ some (copy_min bytes old))
own_part p r xs0 xs1 xs2 xs3 bytes old same inside first seen put last =
    let to_p = ap (λ s. part s xs1) same in
    let taken : take r.size (drop r.offset xs1) ≡ old =
      some_injective _ _ (sym (part-some r xs1 inside) ∙ seen) in
    (
      sym first ∙ sym to_p ∙ seen,
      last
          ∙ ap (part p) put
          ∙ ap (λ s. part s (put_part r bytes xs1)) (sym same)
          ∙ part-put_part_self r bytes xs1 inside
          ∙ ap (λ o. some (copy_min bytes o)) taken,
    )

-- The values of the commands are those that the transmissions make.
abbrev pub commanded : {S V : Type 0} → UpdateOps S V → Exchange S V → Exchange S V
commanded ops e = record e { values = apply_each (map (λ t. t.1) ops.transmissions) e.values }

-- What the call of a module sees.
abbrev pub seen_by : {S V : Type 0} → Station S → List ℕ → List ℕ → V → View S V
seen_by station rx tx values = record {
  rx_pdo = rx;
  tx_pdo = tx;
  mbx_send_queue = station.mbx_send_queue;
  mbx_receive_queue = station.mbx_receive_queue;
  state = station.module_of.state;
  values = values;
}

-- A call of a module's write() between e and e', which has seen its buffers, queues and state as in e and
-- the values of e1; and what it left of the buffers, of the state and of the queue of received
-- messages in e'.
abbrev pub CalledOn :
    {S V : Type 0}
    → UpdateOps S V
    → Text
    → Station S
    → Exchange S V
    → Exchange S V
    → Exchange S V
    → Type 0
CalledOn {S} {V} ops name station e e1 e' =
    (rx : List ℕ) × (tx : List ℕ) × (part station.module_of.rx_pdo e.rx_pdo_working ≡ some rx)
    × (part station.module_of.tx_pdo e.tx_pdo_working ≡ some tx)
    × (let v = ops.write (seen_by station rx tx e1.values) in
        (part station.module_of.rx_pdo e'.rx_pdo_working ≡ some (copy_min v.rx_pdo rx))
        × (part station.module_of.tx_pdo e'.tx_pdo_working ≡ some (copy_min v.tx_pdo tx))
        × Called name v e'.stations)

-- The same, with the values that the slaves of a list leave.
abbrev pub Owns :
    {S V : Type 0}
    → UpdateOps S V
    → List Text
    → Text
    → Station S
    → Exchange S V
    → Exchange S V
    → Type 0
Owns {S} {V} ops before name station e e' =
    (e1 : Exchange S V) × (for_each_slave (write_slave ops) before (commanded ops e) ≡ some e1)
    × CalledOn ops name station e e1 e'

-- No slave of a list has the name.
abbrev pub Others : Text → List Text → Type 0
Others name = All (λ other. text_eq other name ≡ false)

All-middle {ℓ κ} :
    {A : Type ℓ} (P : A → Type κ) (xs ys : List A) (x : A) → All P (xs ++ x ∷ ys) → P x
All-middle P [] ys x h = h.0
All-middle P (y ∷ xs) ys x h = All-middle P xs ys x h.1

module _ (n rx tx size : ℕ) {S V : Type 0} (ops : UpdateOps S V) (before after : List Text)
    (name : Text) (e : Exchange S V) (station : Station S) where
  abbrev p : Span
  p = station.module_of.rx_pdo

  abbrev q : Span
  q = station.module_of.tx_pdo

  write_slaves-Owns :
      Sound n rx tx size (before ++ name ∷ after) e
      → Inside p rx
      → Inside q tx
      → lookup name e.stations ≡ some station
      → All (Away p q e.stations) before
      → All (Away p q e.stations) after
      → Others name before
      → Others name after
      → (e1 : Exchange S V) × (e' : Exchange S V) × (for_each_slave (write_slave ops) before e
          ≡ some e1)
        × (for_each_slave (write_slave ops) (before ++ name ∷ after) e ≡ some e')
        × CalledOn ops name station e e1 e'
  unfolding for_each_slave
  write_slaves-Owns h ip iq found away away' others others' =
      let (e1, there1, sound1, rx1, tx1, same1, kept1) =
        write_slaves-still n rx tx size ops p q ip iq before (name ∷ after) e h away in
      let (
        station2, u, e2, found2, fits, rx_seen, tx_seen, seen, there2, sound2, wrx, wtx, same2,
        called, _,
      ) =
        write_slave-Written n rx tx size ops name after e1 sound1 in
      let st : station2 ≡ station = some_injective _ _ (sym found2 ∙ kept1 name others ∙ found) in
      let is_p : station2.module_of.rx_pdo ≡ p = ap (λ s. s.module_of.rx_pdo) st in
      let is_q : station2.module_of.tx_pdo ≡ q = ap (λ s. s.module_of.tx_pdo) st in
      let view : u ≡ seen_by station u.rx_pdo u.tx_pdo e1.values =
        seen ∙ ap (λ s. view_of s u.rx_pdo u.tx_pdo e1.values) st in
      let (e3, there3, sound3, rx3, tx3, same3, kept3) =
        write_slaves-still n rx tx size ops p q ip iq after after e2
          (All-append _ after after sound2.0.1 sound2.0.1, sound2.1, sound2.2, sound2.3, sound2.4)
          (Away-same n rx tx size ops p q ip iq e e2 (λ other. same2 other ∙ same1 other) after
            away') in
      let (saw_rx, has_rx) =
        own_part p station2.module_of.rx_pdo e.rx_pdo_working e1.rx_pdo_working e2.rx_pdo_working
          e3.rx_pdo_working (ops.write u).rx_pdo u.rx_pdo is_p (rw sound1.2 fits.2) rx1 rx_seen wrx
          rx3 in
      let (saw_tx, has_tx) =
        own_part q station2.module_of.tx_pdo e.tx_pdo_working e1.tx_pdo_working e2.tx_pdo_working
          e3.tx_pdo_working (ops.write u).tx_pdo u.tx_pdo is_q (rw sound1.3 fits.3) tx1 tx_seen wtx
          tx3 in
      let (station3, found3, state3, queue3) = called in
      (
        e1,
        e3,
        there1,
        for_each_slave-append (write_slave ops) before (name ∷ after) e e1 there1
            ∙ (ap (λ o. o >>= for_each_slave (write_slave ops) after) there2 ∙ there3),
        (
          u.rx_pdo,
          u.tx_pdo,
          saw_rx,
          saw_tx,
          (
            has_rx ∙ ap (λ w. some (copy_min (ops.write w).rx_pdo u.rx_pdo)) view,
            has_tx ∙ ap (λ w. some (copy_min (ops.write w).tx_pdo u.tx_pdo)) view,
            (
              station3,
              kept3 name others' ∙ found3,
              state3 ∙ ap (λ w. (ops.write w).state) view,
              queue3 ∙ ap (λ w. (ops.write w).mbx_receive_queue) view,
            ),
          ),
        ),
      )

module _ (n rx tx size : ℕ) {S V : Type 0} (ops : UpdateOps S V) (before after : List Text)
    (name : Text) (e : Exchange S V) (station : Station S) where
  -- Where all initialized slaves fit, and the other ones have other names and no byte of the process data in
  -- common with a module: write() completes, and calls the write() of this module with its state, its
  -- queues and the parts of the process data at its spans as they were before, whatever the slaves do
  -- that come before it, and with the values that these leave of those that the transmissions make. What
  -- that call leaves stands there at the end: in the parts of the process data, cut to the spans, in the
  -- state, and in the queue of received messages.
  pub write-Owns :
      e.initialized_slaves ≡ before ++ name ∷ after
      → Whole n rx tx size e
      → lookup name e.stations ≡ some station
      → All (Away station.module_of.rx_pdo station.module_of.tx_pdo e.stations) before
      → All (Away station.module_of.rx_pdo station.module_of.tx_pdo e.stations) after
      → Others name before
      → Others name after
      → (e' : Exchange S V) × (write ops e ≡ some e') × Owns ops before name station e e'
  unfolding write
  write-Owns listed h found away away' others others' =
      let sound : Sound n rx tx size (before ++ name ∷ after) e =
        (subst (All _) listed h.0, h.1, h.2, h.3, h.4) in
      let (station', found', fits) = All-middle _ before after name sound.0 in
      let same : station' ≡ station = some_injective _ _ (sym found' ∙ found) in
      let (e1, e', there1, there, owns) =
        write_slaves-Owns n rx tx size ops before after name (commanded ops e) station sound
          (subst (λ s. Inside s.module_of.rx_pdo rx) same fits.2)
          (subst (λ s. Inside s.module_of.tx_pdo tx) same fits.3) found away away' others others' in
      (
        e',
        ap (λ names. for_each_slave (write_slave ops) names (commanded ops e)) listed ∙ there,
        (e1, there1, owns),
      )
