-- ===== src/Driver/Update/Apart.antt =====
-- Parts of the process data that do not overlap, and what is put into one of them.
use soem_driver_ros.Base.{
  ℕ, ◌+◌, ◌-◌, ◌≤◌, ◌≡◌, ◌⊎◌, inl, inr, refl, sym, ap, ◌∙◌, List, [], ◌∷◌, ◌++◌, some, length, take,
  drop, arith, length-take, length-drop, drop-append_ge, drop-append_le, take-append_le, drop-drop,
  drop-take, take_all, take-take, take-append-drop,
}
use soem_driver_ros.Trinamic.Pdo.{copy_min}
use soem_driver_ros.Trinamic.Pdo.Layout.{length-copy_min}
use soem_driver_ros.Master.Setup.{Span}
use soem_driver_ros.Driver.Update.{part, put_part}
use soem_driver_ros.Driver.Update.Spans.{Inside, length-put_part, part-some}

-- Two spans that have no byte in common.
abbrev pub Apart : Span → Span → Type 0
Apart s t =
    ((s.size ≡ 0) ⊎ (t.size ≡ 0))
    ⊎ ((s.offset + s.size ≤ t.offset) ⊎ (t.offset + t.size ≤ s.offset))

abbrev bytes_of : Span → List ℕ → List ℕ
bytes_of s xs = take s.size (drop s.offset xs)

-- What stands at a span does not change when the bytes of another one are put.
bytes_of-below :
    (n off size : ℕ) (xs rest : List ℕ)
    → off + size ≤ n
    → n ≤ length xs
    → take size (drop off (take n xs ++ rest)) ≡ take size (drop off xs)
bytes_of-below n off size xs rest h k =
    let long = length-take n xs in
    ap (take size) (drop-append_le off (take n xs) rest (omega (arith, long, h, k)))
    ∙ take-append_le size (drop off (take n xs)) rest
        (omega (arith, length-drop off (take n xs), long, h, k))
    ∙ ap (take size) (drop-take off n xs)
    ∙ take-take size (n - off) (drop off xs) (omega (arith, h))

bytes_of-above :
    (n end off : ℕ) (xs bytes : List ℕ)
    → n ≤ length xs
    → n + length bytes ≡ end
    → end ≤ off
    → drop off (take n xs ++ (bytes ++ drop end xs)) ≡ drop off xs
bytes_of-above n end off xs bytes h same k =
    let long = length-take n xs in
    drop-append_ge off (take n xs) (bytes ++ drop end xs) (omega (arith, long, h, same, k))
    ∙ drop-append_ge (off - length (take n xs)) bytes (drop end xs)
        (omega (arith, long, h, same, k))
    ∙ drop-drop (off - length (take n xs) - length bytes) end xs
    ∙ ap (λ i. drop i xs) (omega (arith, long, h, same, k))

-- The bytes that are put, at a span inside of the buffer.
abbrev put_bytes : Span → List ℕ → List ℕ → List ℕ
put_bytes t bytes xs = copy_min bytes (bytes_of t xs)

length-bytes_of :
    (t : Span) (xs : List ℕ) → t.offset + t.size ≤ length xs → length (bytes_of t xs) ≡ t.size
length-bytes_of t xs h =
    omega (arith, h, length-take t.size (drop t.offset xs), length-drop t.offset xs)

length-put_bytes :
    (t : Span) (bytes xs : List ℕ)
    → t.offset + t.size ≤ length xs
    → t.offset + length (put_bytes t bytes xs) ≡ t.offset + t.size
length-put_bytes t bytes xs h =
    omega (arith, length-copy_min bytes (bytes_of t xs), length-bytes_of t xs h)

part-empty : (s : Span) (xs : List ℕ) → s.size ≡ 0 → part s xs ≡ some []
unfolding part
part-empty s xs e = rw e refl

length_zero : (xs : List ℕ) → length xs ≡ 0 → xs ≡ []
length_zero [] e = refl
length_zero (x ∷ xs) e = absurd (omega (arith, e))

put_bytes-empty : (t : Span) (bytes xs : List ℕ) → t.size ≡ 0 → put_bytes t bytes xs ≡ []
put_bytes-empty t bytes xs e =
    length_zero (put_bytes t bytes xs) (
      omega
        (arith, e, length-copy_min bytes (bytes_of t xs), length-take t.size (drop t.offset xs)))

put_part-empty : (t : Span) (bytes xs : List ℕ) → t.size ≡ 0 → put_part t bytes xs ≡ xs
unfolding put_part
put_part-empty t bytes xs e =
    ap (λ c. take t.offset xs ++ (c ++ drop (t.offset + t.size) xs)) (put_bytes-empty t bytes xs e)
    ∙ ap (λ i. take t.offset xs ++ drop i xs) (omega (arith, e))
    ∙ take-append-drop t.offset xs

bytes_of-put_part :
    (s t : Span) (bytes xs : List ℕ)
    → t.offset + t.size ≤ length xs
    → ((s.offset + s.size ≤ t.offset) ⊎ (t.offset + t.size ≤ s.offset))
    → bytes_of s (put_part t bytes xs) ≡ bytes_of s xs
unfolding put_part
bytes_of-put_part s t bytes xs h (inl below) =
    bytes_of-below t.offset s.offset s.size xs (put_bytes t bytes xs ++ drop (t.offset + t.size) xs)
      below (omega (arith, h))
bytes_of-put_part s t bytes xs h (inr above) = ap (take s.size) (
    bytes_of-above t.offset (t.offset + t.size) s.offset xs (put_bytes t bytes xs)
      (omega (arith, h)) (length-put_bytes t bytes xs h) above)

pub part-put_part-Apart :
    (s t : Span) (bytes xs : List ℕ)
    → Inside s (length xs)
    → Inside t (length xs)
    → Apart s t
    → part s (put_part t bytes xs) ≡ part s xs
part-put_part-Apart s t bytes xs i (inl e) apart = ap (part s) (put_part-empty t bytes xs e)
part-put_part-Apart s t bytes xs i j (inl (inl e)) =
    part-empty s (put_part t bytes xs) e ∙ sym (part-empty s xs e)
part-put_part-Apart s t bytes xs i j (inl (inr e)) = ap (part s) (put_part-empty t bytes xs e)
part-put_part-Apart s t bytes xs i (inr j) (inr apart) =
    part-some s (put_part t bytes xs) (rw (length-put_part t bytes xs (inr j)) i)
    ∙ ap some (bytes_of-put_part s t bytes xs j apart)
    ∙ sym (part-some s xs i)

bytes_of-put_part_self :
    (s : Span) (bytes xs : List ℕ)
    → s.offset + s.size ≤ length xs
    → bytes_of s (put_part s bytes xs) ≡ put_bytes s bytes xs
unfolding put_part
bytes_of-put_part_self s bytes xs h =
    let long = length-take s.offset xs in
    let new = put_bytes s bytes xs in
    let rest = drop (s.offset + s.size) xs in
    let as_long = length-put_bytes s bytes xs h in
    ap (take s.size) (
      drop-append_ge s.offset (take s.offset xs) (new ++ rest) (omega (arith, long))
      ∙ ap (λ i. drop i (new ++ rest))
          (gap s.offset (length (take s.offset xs)) (omega (arith, long, h))))
    ∙ take-append_le s.size new rest (omega (arith, as_long))
    ∙ take_all new s.size (omega (arith, as_long))
  where
    gap : (a b : ℕ) → a ≤ b → a - b ≡ 0
    gap a b k = omega (arith, k)

pub part-put_part_self :
    (s : Span) (bytes xs : List ℕ)
    → Inside s (length xs)
    → part s (put_part s bytes xs) ≡ some (copy_min bytes (take s.size (drop s.offset xs)))
part-put_part_self s bytes xs (inl e) =
    part-empty s (put_part s bytes xs) e ∙ ap some (sym (put_bytes-empty s bytes xs e))
part-put_part_self s bytes xs (inr h) =
    part-some s (put_part s bytes xs) (rw (length-put_part s bytes xs (inr h)) (inr h))
    ∙ ap some (bytes_of-put_part_self s bytes xs h)
