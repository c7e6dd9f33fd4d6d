-- ===== src/Driver/Update/Complete.antt =====
-- Every sequence of calls of read() and write() and of cycles stays within the buffers and the entries.
use soem_driver_ros.Base.{
  All-append, ◌>>=◌, ℕ, ◌≡◌, refl, ap, ◌∙◌, List, [], ◌∷◌, ◌++◌, Option, none, some, Text, length,
  All, map,
}
use soem_driver_ros.Trinamic.Pdo.Layout.{length-copy_min}
use soem_driver_ros.Master.Cycle.Transfers.{handle_mailboxes-some}
use soem_driver_ros.Driver.Update.{
  Exchange, UpdateOps, read_slave, write_slave, for_each_slave, read, write, transfer_tx_pdo,
  apply_each, Turn, read_call, write_call, master_cycle, turn, turns,
}
use soem_driver_ros.Driver.Update.Slaves.{Sound, Goes, read_slave-Goes, write_slave-Goes}

-- The answers of SOEM have the size of its mailbox.
abbrev pub Answering : ℕ → Turn → Type 0
Answering size (master_cycle answers) = (k : ℕ) → length (answers k).content ≡ size
Answering size _ = Unit

module _ (n rx tx size : ℕ) {S V : Type 0} where
  -- All initialized slaves fit.
  abbrev pub Whole : Exchange S V → Type 0
  Whole e = Sound n rx tx size e.initialized_slaves e

  for_each_slave-Goes :
      (body : Text → Exchange S V → Option (Exchange S V)) (names kept : List Text)
      (e : Exchange S V)
      → ((name : Text) (rest : List Text) (e' : Exchange S V)
          → Sound n rx tx size (name ∷ rest) e'
          → Goes n rx tx size (name ∷ rest) e' (body name e'))
      → Sound n rx tx size (names ++ kept) e
      → Goes n rx tx size kept e (for_each_slave body names e)
  unfolding for_each_slave
  for_each_slave-Goes body [] kept e goes h = (e, refl, h, refl)
  for_each_slave-Goes body (name ∷ names) kept e goes h =
      let (e1, there, sound, same) = goes name (names ++ kept) e h in
      let (e2, there2, sound2, same2) =
        for_each_slave-Goes body names kept e1 goes
          (sound.0.1, sound.1, sound.2, sound.3, sound.4) in
      (e2, ap (λ p. p >>= for_each_slave body names) there ∙ there2, sound2, same2 ∙ same)

  -- A result that is there, with the same initialized slaves, which all fit.
  abbrev pub Completes : Exchange S V → Option (Exchange S V) → Type 0
  Completes e o =
      (e' : Exchange S V) × (o ≡ some e')
      × Whole e'
      × (e'.initialized_slaves ≡ e.initialized_slaves)

  doubled :
      (e : Exchange S V)
      → Whole e
      → Sound n rx tx size (e.initialized_slaves ++ e.initialized_slaves) e
  doubled e h = (All-append _ e.initialized_slaves e.initialized_slaves h.0 h.0, h.1, h.2, h.3, h.4)

  transfer-Whole :
      (inputs : Option (List ℕ)) (e : Exchange S V) → Whole e → Whole (transfer_tx_pdo inputs e)
  unfolding transfer_tx_pdo
  transfer-Whole none e h = h
  transfer-Whole (some inputs) e h =
      (h.0, h.1, h.2, length-copy_min inputs e.tx_pdo_working ∙ h.3, h.4)

  kept :
      (inputs : Option (List ℕ)) (e : Exchange S V)
      → (transfer_tx_pdo inputs e).initialized_slaves ≡ e.initialized_slaves
  unfolding transfer_tx_pdo
  kept none e = refl
  kept (some inputs) e = refl

  module _ (ops : UpdateOps S V) where
    read-Completes :
        (inputs : Option (List ℕ)) (e : Exchange S V) → Whole e → Completes e (read ops inputs e)
    unfolding read
    read-Completes inputs e0 h =
        let e1 = transfer_tx_pdo inputs e0 in
        let (e2, there, sound, same) =
          for_each_slave-Goes (read_slave ops) e1.initialized_slaves e1.initialized_slaves e1
            (read_slave-Goes n rx tx size ops) (doubled e1 (transfer-Whole inputs e0 h)) in
        (
          record e2 { values = apply_each (map (λ t. t.0) ops.transmissions) e2.values },
          rw (there, read) refl,
          rw same sound,
          same ∙ kept inputs e0,
        )

    write-Completes : (e : Exchange S V) → Whole e → Completes e (write ops e)
    unfolding write
    write-Completes e0 h =
        let e1 = record e0 { values = apply_each (map (λ t. t.1) ops.transmissions) e0.values } in
        let (e2, there, sound, same) =
          for_each_slave-Goes (write_slave ops) e1.initialized_slaves e1.initialized_slaves e1
            (write_slave-Goes n rx tx size ops) (doubled e1 h) in
        (e2, there, rw same sound, same)

    turn-Completes :
        (t : Turn) (e : Exchange S V) → Answering size t → Whole e → Completes e (turn ops t e)
    unfolding turn
    turn-Completes (read_call inputs) e a h = read-Completes inputs e h
    turn-Completes write_call e a h = write-Completes e h
    turn-Completes (master_cycle answers) e a h =
        let (accesses, there, fits, as_many) =
          handle_mailboxes-some size answers 1 e.slaves_data_access a h.4 in
        (
          record e { slaves_data_access = accesses },
          rw there refl,
          (h.0, as_many ∙ h.1, h.2, h.3, fits),
          refl,
        )

    -- From where all initialized slaves fit, every sequence of calls and cycles completes.
    pub turns-Completes :
        (ts : List Turn) (e : Exchange S V)
        → All (Answering size) ts
        → Whole e
        → Completes e (turns ops ts e)
    unfolding turns
    turns-Completes [] e a h = (e, refl, h, refl)
    turns-Completes (t ∷ ts) e a h =
        let (e1, there, whole, same) = turn-Completes t e a.0 h in
        let (e2, there2, whole2, same2) = turns-Completes ts e1 a.1 whole in
        (e2, ap (λ p. p >>= turns ops ts) there ∙ there2, whole2, same2 ∙ same)
