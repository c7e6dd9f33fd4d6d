-- ===== src/Driver/Update/Slaves.antt =====
-- What is done for one slave in read() and write() stays within the buffers and the entries.
use soem_driver_ros.Base.{
  ◌>>=◌, ℕ, ◌≤◌, ◌≡◌, refl, ap, ◌∙◌, List, ◌∷◌, Option, some, Text, lookup, length, take, drop, All,
  arith,
}
use soem_driver_ros.Master.Mailboxes.{SlaveDataAccess}
use soem_driver_ros.Master.Cycle.Transfers.{Fitting}
use soem_driver_ros.Driver.Mailboxes.{Link}
use soem_driver_ros.Driver.Update.{
  Station, View, Exchange, UpdateOps, part, entry, link_of, put_link, view_of, on_link, fetch_mail,
  send_mail, put_view, call_module, read_slave, write_slave,
}
use soem_driver_ros.Driver.Update.Spans.{
  Inside, Holds, All-assign-Holds, length-put_part, part-some, entry-some, length-set_entry,
  Fitting-entry, Fitting-set_entry, r_mbx-fetch_mail, r_mbx-send_mail,
}

module _ (n rx tx size : ℕ) where
  -- The position and the spans of a module are within the entries and the buffers.
  abbrev pub Fits : {S : Type 0} → Station S → Type 0
  Fits s =
      (1 ≤ s.module_of.position_ec_bus)
      × (s.module_of.position_ec_bus ≤ n)
      × Inside s.module_of.rx_pdo rx
      × Inside s.module_of.tx_pdo tx

  -- So are all that are named; the buffers have those sizes, and the mailboxes fit what SOEM receives.
  abbrev pub Sound : {S V : Type 0} → List Text → Exchange S V → Type 0
  Sound names e =
      All (Holds Fits e.stations) names
      × (length e.slaves_data_access ≡ n)
      × (length e.rx_pdo_working ≡ rx)
      × (length e.tx_pdo_working ≡ tx)
      × Fitting size e.slaves_data_access

  -- A result that is there, and as sound.
  abbrev pub Goes : {S V : Type 0} → List Text → Exchange S V → Option (Exchange S V) → Type 0
  Goes {S} {V} names e o =
      (e' : Exchange S V) × (o ≡ some e')
      × Sound names e'
      × (e'.initialized_slaves ≡ e.initialized_slaves)

  module _ {S V : Type 0} where
    -- The module of a name, its entry, and what is done with its mailbox.
    pub on_link-there :
        (f : Link → Link) (name : Text) (names : List Text) (e : Exchange S V)
        → Sound (name ∷ names) e
        → (station : Station S) × (access : SlaveDataAccess) × (lookup name e.stations
            ≡ some station)
          × Fits station
          × (entry station.module_of.position_ec_bus e.slaves_data_access ≡ some access)
          × (on_link f name e ≡ some (put_link name station (f (link_of station access)) e))
    unfolding on_link
    on_link-there f name names e h =
        let (station, found, fits) = h.0.0 in
        let (access, there) =
          entry-some station.module_of.position_ec_bus e.slaves_data_access fits.0
            (omega (arith, fits, h)) in
        (station, access, found, fits, there, rw (found, there, on_link) refl)

    pub on_link-Goes :
        (f : Link → Link) (name : Text) (names : List Text) (e : Exchange S V)
        → ((l : Link) → length (f l).access.r_mbx ≡ length l.access.r_mbx)
        → Sound (name ∷ names) e
        → Goes (name ∷ names) e (on_link f name e)
    unfolding put_link
    on_link-Goes f name names e same h =
        let (station, access, _, fits, there, done) = on_link-there f name names e h in
        (
          put_link name station (f (link_of station access)) e,
          done,
          (
            All-assign-Holds Fits e.stations name (name ∷ names) _ fits h.0,
            length-set_entry _ _ e.slaves_data_access ∙ h.1,
            h.2,
            h.3,
            Fitting-set_entry size _ _ e.slaves_data_access h.4 (
                omega (
                  arith,
                  same (link_of station access),
                  Fitting-entry size _ access e.slaves_data_access h.4 there,
                )),
          ),
          refl,
        )

    pub put_view-Sound :
        (name : Text) (names : List Text) (station : Station S) (v : View S V) (e : Exchange S V)
        → Fits station
        → Sound (name ∷ names) e
        → Sound (name ∷ names) (put_view name station v e)
    unfolding put_view
    put_view-Sound name names station v e fits h = (
      All-assign-Holds Fits e.stations name (name ∷ names) _ fits h.0,
      h.1,
      length-put_part station.module_of.rx_pdo v.rx_pdo e.rx_pdo_working (rw h.2 fits.2) ∙ h.2,
      length-put_part station.module_of.tx_pdo v.tx_pdo e.tx_pdo_working (rw h.3 fits.3) ∙ h.3,
      h.4,
    )

    -- The module of a name, what it sees, and what its call leaves.
    pub call_module-there :
        (f : View S V → View S V) (name : Text) (names : List Text) (e : Exchange S V)
        → Sound (name ∷ names) e
        → (station : Station S) × (u : View S V) × (lookup name e.stations ≡ some station)
          × Fits station
          × (part station.module_of.rx_pdo e.rx_pdo_working ≡ some u.rx_pdo)
          × (part station.module_of.tx_pdo e.tx_pdo_working ≡ some u.tx_pdo)
          × (u ≡ view_of station u.rx_pdo u.tx_pdo e.values)
          × (call_module f name e ≡ some (put_view name station (f u) e))
    unfolding call_module
    call_module-there f name names e h =
        let (station, found, fits) = h.0.0 in
        let rx_there = part-some station.module_of.rx_pdo e.rx_pdo_working (rw h.2 fits.2) in
        let tx_there = part-some station.module_of.tx_pdo e.tx_pdo_working (rw h.3 fits.3) in
        let u =
          view_of station
            (take station.module_of.rx_pdo.size
              (drop station.module_of.rx_pdo.offset e.rx_pdo_working))
            (take station.module_of.tx_pdo.size
              (drop station.module_of.tx_pdo.offset e.tx_pdo_working))
            e.values in
        (
          station,
          u,
          found,
          fits,
          rx_there,
          tx_there,
          refl,
          rw (found, rx_there, tx_there, call_module) refl,
        )

    call_module-Goes :
        (f : View S V → View S V) (name : Text) (names : List Text) (e : Exchange S V)
        → Sound (name ∷ names) e
        → Goes (name ∷ names) e (call_module f name e)
    unfolding put_view
    call_module-Goes f name names e h =
        let (station, u, _, fits, _, _, _, there) = call_module-there f name names e h in
        (
          put_view name station (f u) e,
          there,
          put_view-Sound name names station (f u) e fits h,
          refl,
        )

    then-Goes :
        (names : List Text) (e : Exchange S V) (o : Option (Exchange S V))
        (f : Exchange S V → Option (Exchange S V))
        → Goes names e o
        → ((e' : Exchange S V) → Sound names e' → Goes names e' (f e'))
        → Goes names e (o >>= f)
    then-Goes names e o f (e1, there, sound, same) next =
        let (e2, there2, sound2, same2) = next e1 sound in
        (e2, ap (λ p. p >>= f) there ∙ there2, sound2, same2 ∙ same)

    module _ (ops : UpdateOps S V) where
      pub read_slave-Goes :
          (name : Text) (names : List Text) (e : Exchange S V)
          → Sound (name ∷ names) e
          → Goes (name ∷ names) e (read_slave ops name e)
      unfolding read_slave
      read_slave-Goes name names e h =
          then-Goes (name ∷ names) e _ (call_module ops.read name)
            (on_link-Goes fetch_mail name names e r_mbx-fetch_mail h)
            (call_module-Goes ops.read name names)

      pub write_slave-Goes :
          (name : Text) (names : List Text) (e : Exchange S V)
          → Sound (name ∷ names) e
          → Goes (name ∷ names) e (write_slave ops name e)
      unfolding write_slave
      write_slave-Goes name names e h =
          then-Goes (name ∷ names) e _ (on_link send_mail name)
            (call_module-Goes ops.write name names e h)
            (λ e'. on_link-Goes send_mail name names e' r_mbx-send_mail)
