-- ===== src/Driver/Update/Still.antt =====
-- What write() does for the slaves leaves the parts of the process data that are not theirs.
use soem_driver_ros.Base.{
  ◌>>=◌, ℕ, ◌≡◌, inl, inr, refl, sym, ap, subst, ◌∙◌, Bool-cases, List, [], ◌∷◌, ◌++◌, Option, none,
  some, Text, Dict, lookup, assign, lookup-assign, lookup-assign_self, false, text_eq, text_eq_iff,
  All, All-map, Option-cases, arith,
}
use soem_driver_ros.Master.Setup.{Span}
use soem_driver_ros.Driver.Update.{
  Station, View, view_of, Exchange, UpdateOps, part, put_part, link_of, put_link, on_link, put_view,
  call_module, send_mail, write_slave, for_each_slave,
}
use soem_driver_ros.Driver.Mailboxes.{Link}
use soem_driver_ros.Driver.Update.Spans.{Inside, r_mbx-send_mail}
use soem_driver_ros.Driver.Update.Apart.{Apart, part-put_part-Apart}
use soem_driver_ros.Driver.Update.Laid.{some_injective}
use soem_driver_ros.Driver.Update.Slaves.{
  Fits, Sound, put_view-Sound, on_link-there, on_link-Goes, call_module-there,
}

-- The spans of a named module.
abbrev pub spans_of : {S : Type 0} → Text → Dict (Station S) → Option (Span × Span)
spans_of name stations = elim (lookup name stations) [
  | none ↦ none
  | some s ↦ some (s.module_of.rx_pdo, s.module_of.tx_pdo)
]

module _ {S : Type 0} where
  lookup-assign_other :
      (name other : Text) (s : Station S) (stations : Dict (Station S))
      → text_eq name other ≡ false
      → lookup other (assign name s stations) ≡ lookup other stations
  lookup-assign_other name other s stations distinct =
      ground (arith, lookup-assign name other s stations, distinct)

  spans_of-assign :
      (name other : Text) (s s' : Station S) (stations : Dict (Station S))
      → lookup name stations ≡ some s
      → s'.module_of.rx_pdo ≡ s.module_of.rx_pdo
      → s'.module_of.tx_pdo ≡ s.module_of.tx_pdo
      → spans_of other (assign name s' stations) ≡ spans_of other stations
  spans_of-assign name other s s' stations found rx tx = elim (Bool-cases (text_eq name other)) [
    | inl same ↦
        (let k = (text_eq_iff name other).0 same in
          let found' : lookup other stations ≡ some s =
            ap (λ n. lookup n stations) (sym k) ∙ found in
          ground (arith, lookup-assign name other s' stations, same, found', rx, tx))
    | inr distinct ↦ ground (arith, lookup-assign name other s' stations, distinct)
  ]

  pub spans_of-found :
      (name : Text) (s : Station S) (stations : Dict (Station S))
      → lookup name stations ≡ some s
      → some (s.module_of.rx_pdo, s.module_of.tx_pdo) ≡ spans_of name stations
  spans_of-found name s stations found = ground (arith, found)

send_mail-kept : (l : Link) → (send_mail l).mbx_receive_queue ≡ l.mbx_receive_queue
unfolding send_mail
send_mail-kept l = ground arith

-- A module that has been called: its state and the messages that it has not consumed are those that
-- the call left.
abbrev pub Called : {S V : Type 0} → Text → View S V → Dict (Station S) → Type 0
Called {S} {V} name v stations =
    (station : Station S) × (lookup name stations ≡ some station)
    × (station.module_of.state ≡ v.state)
    × (station.mbx_receive_queue ≡ v.mbx_receive_queue)

-- A named module whose spans have no byte in common with p and q.
abbrev pub Away : {S : Type 0} → Span → Span → Dict (Station S) → Text → Type 0
Away p q stations other =
    (r : Span) × (t : Span) × (spans_of other stations ≡ some (r, t)) × Apart p r × Apart q t

module _ (n rx tx size : ℕ) {S V : Type 0} where
  -- What write() does for one slave, in terms of the process data.
  abbrev pub Written : List Text → UpdateOps S V → Text → Exchange S V → Type 0
  Written names ops name e =
      (station : Station S) × (u : View S V) × (e' : Exchange S V) × (lookup name e.stations
        ≡ some station)
      × Fits n rx tx size station
      × (part station.module_of.rx_pdo e.rx_pdo_working ≡ some u.rx_pdo)
      × (part station.module_of.tx_pdo e.tx_pdo_working ≡ some u.tx_pdo)
      × (u ≡ view_of station u.rx_pdo u.tx_pdo e.values)
      × (write_slave ops name e ≡ some e')
      × Sound n rx tx size names e'
      × (e'.rx_pdo_working
          ≡ put_part station.module_of.rx_pdo (ops.write u).rx_pdo e.rx_pdo_working)
      × (e'.tx_pdo_working
          ≡ put_part station.module_of.tx_pdo (ops.write u).tx_pdo e.tx_pdo_working)
      × ((other : Text) → spans_of other e'.stations ≡ spans_of other e.stations)
      × Called name (ops.write u) e'.stations
      × ((other : Text)
          → text_eq name other ≡ false
          → lookup other e'.stations ≡ lookup other e.stations)

  module _ (ops : UpdateOps S V) where
    write_slave-some :
        (name : Text) (e e1 e3 : Exchange S V)
        → call_module ops.write name e ≡ some e1
        → on_link send_mail name e1 ≡ some e3
        → write_slave ops name e ≡ some e3
    unfolding write_slave
    write_slave-some name e e1 e3 called linked =
        ap (λ o. o >>= on_link send_mail name) called ∙ linked

    pub write_slave-Written :
        (name : Text) (names : List Text) (e : Exchange S V)
        → Sound n rx tx size (name ∷ names) e
        → Written (name ∷ names) ops name e
    unfolding put_view put_link
    write_slave-Written name names e h =
        let (station, u, found, fits, rx_there, tx_there, seen, called) =
          call_module-there n rx tx size ops.write name names e h in
        let e1 = put_view name station (ops.write u) e in
        let sound = put_view-Sound n rx tx size name names station (ops.write u) e fits h in
        let (station1, access, found1, _, _, linked) =
          on_link-there n rx tx size send_mail name names e1 sound in
        let (e2, there2, sound2, _) =
          on_link-Goes n rx tx size send_mail name names e1 r_mbx-send_mail sound in
        let e3 = put_link name station1 (send_mail (link_of station1 access)) e1 in
        let same : e2 ≡ e3 = some_injective _ _ (sym there2 ∙ linked) in
        let left_by : station1 ≡ _ =
          some_injective _ _ (sym found1 ∙ lookup-assign_self name _ e.stations) in
        (
          station,
          u,
          e3,
          found,
          fits,
          rx_there,
          tx_there,
          seen,
          write_slave-some name e e1 e3 called linked,
          subst (Sound n rx tx size (name ∷ names)) same sound2,
          refl,
          refl,
          λ other.
              spans_of-assign name other station1 _ e1.stations found1 refl refl
              ∙ spans_of-assign name other station _ e.stations found refl refl,
          (
            _,
            lookup-assign_self name _ e1.stations,
            ap (λ s. s.module_of.state) left_by,
            send_mail-kept (link_of station1 access) ∙ ap (λ s. s.mbx_receive_queue) left_by,
          ),
          λ other distinct.
              lookup-assign_other name other _ e1.stations distinct
              ∙ lookup-assign_other name other _ e.stations distinct,
        )

    module _ (p q : Span) (ip : Inside p rx) (iq : Inside q tx) where
      pub Away-same :
          (e e' : Exchange S V)
          → ((other : Text) → spans_of other e'.stations ≡ spans_of other e.stations)
          → (names : List Text) → All (Away p q e.stations) names
          → All (Away p q e'.stations) names
      Away-same e e' same =
          All-map _ _ (λ other (r, t, found, ar, at). (r, t, same other ∙ found, ar, at))

      -- One slave that is away leaves what stands at p and q.
      Written-still :
          (name : Text) (names : List Text) (e : Exchange S V)
          → Sound n rx tx size (name ∷ names) e
          → Away p q e.stations name
          → (e' : Exchange S V) × (write_slave ops name e ≡ some e')
            × Sound n rx tx size names e'
            × (part p e'.rx_pdo_working ≡ part p e.rx_pdo_working)
            × (part q e'.tx_pdo_working ≡ part q e.tx_pdo_working)
            × ((other : Text) → spans_of other e'.stations ≡ spans_of other e.stations)
            × ((other : Text)
                → text_eq name other ≡ false
                → lookup other e'.stations ≡ lookup other e.stations)
      Written-still name names e h (r, t, spans, ar, at) =
          let (station, u, e', found, fits, _, _, _, there, sound, wrx, wtx, same, _, kept) =
            write_slave-Written name names e h in
          let spans' : some (station.module_of.rx_pdo, station.module_of.tx_pdo) ≡ some (r, t) =
            spans_of-found name station e.stations found ∙ spans in
          let both = some_injective _ _ spans' in
          let is_r = ap (λ x. x.0) both in
          let is_t = ap (λ x. x.1) both in
          (
            e',
            there,
            (sound.0.1, sound.1, sound.2, sound.3, sound.4),
            ap (part p) wrx
                ∙ part-put_part-Apart p station.module_of.rx_pdo (ops.write u).rx_pdo
                    e.rx_pdo_working (rw h.2 ip) (rw h.2 fits.2) (rw is_r ar),
            ap (part q) wtx
                ∙ part-put_part-Apart q station.module_of.tx_pdo (ops.write u).tx_pdo
                    e.tx_pdo_working (rw h.3 iq) (rw h.3 fits.3) (rw is_t at),
            same,
            kept,
          )

      pub write_slaves-still :
          (names kept : List Text) (e : Exchange S V)
          → Sound n rx tx size (names ++ kept) e
          → All (Away p q e.stations) names
          → (e' : Exchange S V) × (for_each_slave (write_slave ops) names e ≡ some e')
            × Sound n rx tx size kept e'
            × (part p e'.rx_pdo_working ≡ part p e.rx_pdo_working)
            × (part q e'.tx_pdo_working ≡ part q e.tx_pdo_working)
            × ((other : Text) → spans_of other e'.stations ≡ spans_of other e.stations)
            × ((who : Text)
                → All (λ other. text_eq other who ≡ false) names
                → lookup who e'.stations ≡ lookup who e.stations)
      unfolding for_each_slave
      write_slaves-still [] kept e h away =
          (e, refl, h, refl, refl, λ other. refl, λ who distinct. refl)
      write_slaves-still (name ∷ names) kept e h away =
          let (e1, there, sound, wrx, wtx, same, others) =
            Written-still name (names ++ kept) e h away.0 in
          let (e2, there2, sound2, wrx2, wtx2, same2, others2) =
            write_slaves-still names kept e1 sound (Away-same e e1 same names away.1) in
          (
            e2,
            ap (λ o. o >>= for_each_slave (write_slave ops) names) there ∙ there2,
            sound2,
            wrx2 ∙ wrx,
            wtx2 ∙ wtx,
            λ other. same2 other ∙ same other,
            λ who distinct. others2 who distinct.1 ∙ others who distinct.0,
          )

module _ {S V : Type 0} where
  pub for_each_slave-append :
      (body : Text → Exchange S V → Option (Exchange S V)) (xs ys : List Text) (e e1 : Exchange S V)
      → for_each_slave body xs e ≡ some e1
      → for_each_slave body (xs ++ ys) e ≡ for_each_slave body ys e1
  unfolding for_each_slave
  for_each_slave-append body [] ys e e1 there =
      ap (for_each_slave body ys) (some_injective _ _ there)
  for_each_slave-append body (x ∷ xs) ys e e1 there = elim (Option-cases (body x e)) [
    | inl missing ↦ absurd (ground (arith, there, missing))
    | inr (e2, step) ↦
        rw (step, for_each_slave)
          (for_each_slave-append body xs ys e2 e1 (rw (step, for_each_slave) at there))
  ]
