-- ===== src/Driver/Update/Spans.antt =====
-- The parts of buffers, the entries of data access, and the mailboxes that read() and write() use.
use soem_driver_ros.Base.{
  ℕ, zero, suc, ◌+◌, ◌≤◌, ◌≡◌, ◌⊎◌, inl, inr, refl, ap, ◌∙◌, Bool-cases, ==_iff, ◌==◌, List, ◌++◌,
  some, Text, Dict, lookup, assign, lookup-assign, text_eq, length, take, drop, get_elem?-some,
  get_elem?-All, All-set, All-map, All, arith, length-append, length-take, length-drop, length-set,
}
use soem_driver_ros.Trinamic.Pdo.{copy_min}
use soem_driver_ros.Trinamic.Pdo.Layout.{length-copy_min}
use soem_driver_ros.Master.Mailboxes.{SlaveDataAccess}
use soem_driver_ros.Master.Setup.{Span}
use soem_driver_ros.Master.Cycle.Transfers.{Fitting}
use soem_driver_ros.Driver.Mailboxes.{Link, start_message, store_flag}
use soem_driver_ros.Driver.Update.{Station, part, put_part, entry, set_entry, fetch_mail, send_mail}

-- A span that is empty or ends within a number of bytes.
abbrev pub Inside : Span → ℕ → Type 0
Inside s n = (s.size ≡ 0) ⊎ (s.offset + s.size ≤ n)

-- A name with a station of some kind.
abbrev pub Holds : {S : Type 0} → (Station S → Type 0) → Dict (Station S) → Text → Type 0
Holds {S} P stations name = (s : Station S) × (lookup name stations ≡ some s) × P s

module _ {S : Type 0} (P : Station S → Type 0) where
  pub assign-Holds :
      (stations : Dict (Station S)) (key name : Text) (s : Station S)
      → P s
      → Holds P stations name
      → Holds P (assign key s stations) name
  assign-Holds stations key name s p (found, e, q) = elim (Bool-cases (text_eq key name)) [
    | inl same ↦ (s, lookup-assign key name s stations ∙ rw same refl, p)
    | inr other ↦ (found, lookup-assign key name s stations ∙ rw other e, q)
  ]

  pub All-assign-Holds :
      (stations : Dict (Station S)) (key : Text) (names : List Text) (s : Station S)
      → P s
      → All (Holds P stations) names
      → All (Holds P (assign key s stations)) names
  All-assign-Holds stations key names s p =
      All-map _ _ (λ name. assign-Holds stations key name s p) names

length_three : (xs ys zs : List ℕ) → length (xs ++ (ys ++ zs)) ≡ length xs + (length ys + length zs)
length_three xs ys zs = omega (arith, length-append xs (ys ++ zs), length-append ys zs)

pub length-put_part :
    (s : Span) (bytes xs : List ℕ) → Inside s (length xs) → length (put_part s bytes xs) ≡ length xs
unfolding put_part
length-put_part s bytes xs h =
    length_three (take s.offset xs) (copy_min bytes (take s.size (drop s.offset xs)))
      (drop (s.offset + s.size) xs)
    ∙ omega (
      arith,
      h,
      length-copy_min bytes (take s.size (drop s.offset xs)),
      length-take s.offset xs,
      length-take s.size (drop s.offset xs),
      length-drop s.offset xs,
      length-drop (s.offset + s.size) xs,
    )

pub part-some :
    (s : Span) (xs : List ℕ)
    → Inside s (length xs)
    → part s xs ≡ some (take s.size (drop s.offset xs))
unfolding part
part-some s xs (inl h) = rw h refl
part-some s xs (inr h) = elim (Bool-cases (s.size == 0)) [
  | inl e ↦ rw ((==_iff s.size 0).0 e) refl
  | inr e ↦ ground (arith, h, e)
]

pub entry-some :
    (p : ℕ) (accesses : List SlaveDataAccess)
    → 1 ≤ p
    → p ≤ length accesses
    → (a : SlaveDataAccess) × (entry p accesses ≡ some a)
entry-some zero accesses l u = absurd (omega (arith, l))
entry-some (suc p) accesses l u = get_elem?-some accesses p u

pub length-set_entry :
    (p : ℕ) (a : SlaveDataAccess) (accesses : List SlaveDataAccess)
    → length (set_entry p a accesses) ≡ length accesses
length-set_entry zero a accesses = refl
length-set_entry (suc p) a accesses = length-set accesses p a

pub Fitting-entry :
    (size p : ℕ) (a : SlaveDataAccess) (accesses : List SlaveDataAccess)
    → Fitting size accesses
    → entry p accesses ≡ some a
    → length a.r_mbx ≤ size
Fitting-entry size zero a accesses h e = absurd cc
Fitting-entry size (suc p) a accesses h e =
    get_elem?-All (λ x. length x.r_mbx ≤ size) accesses p a h e

pub Fitting-set_entry :
    (size p : ℕ) (a : SlaveDataAccess) (accesses : List SlaveDataAccess)
    → Fitting size accesses
    → length a.r_mbx ≤ size
    → Fitting size (set_entry p a accesses)
Fitting-set_entry size zero a accesses h k = h
Fitting-set_entry size (suc p) a accesses h k =
    All-set (λ x. length x.r_mbx ≤ size) accesses p a h k

pub r_mbx-fetch_mail : (l : Link) → length (fetch_mail l).access.r_mbx ≡ length l.access.r_mbx
unfolding fetch_mail
r_mbx-fetch_mail l = ground arith

r_mbx-store_flag : (l : Link) → (store_flag l.stage l).access.r_mbx ≡ l.access.r_mbx
unfolding store_flag
r_mbx-store_flag l = ground arith

r_mbx-start_message : (l : Link) → (start_message l).access.r_mbx ≡ l.access.r_mbx
unfolding start_message
r_mbx-start_message l = ground arith

pub r_mbx-send_mail : (l : Link) → length (send_mail l).access.r_mbx ≡ length l.access.r_mbx
unfolding send_mail
r_mbx-send_mail l0 =
    let l1 = start_message l0 in
    let l2 = store_flag l1.stage l1 in
    let l3 = store_flag l2.stage l2 in
    ap length
      (r_mbx-store_flag l3 ∙ r_mbx-store_flag l2 ∙ r_mbx-store_flag l1 ∙ r_mbx-start_message l0)
