-- ===== src/Trinamic/Log.antt =====
-- The lists of interfaces in the log line of a refused switch (tmcm1610.cpp).
use soem_driver_ros.Base.{
  ◌≡◌, ◌∙◌, refl, ap, not, true, false, if◌then◌else◌, List, [], ◌∷◌, ◌++◌, append-nil, Text,
  text_eq, text_eq_refl, codes, All,
}

-- back(), with what there is of none.
abbrev last_of : Text → List Text → Text
last_of x [] = x
last_of x (y ∷ ys) = last_of y ys

-- The loop, with the last interface.
unfoldable pub join_each : Text → List Text → Text
join_each back [] = []
join_each back (interface ∷ interfaces) =
    interface
    ++ ((if not (text_eq interface back) then codes ", " else []) ++ join_each back interfaces)

unfoldable pub interfaces_log : List Text → Text
unfolding join_each
interfaces_log [] = []
interfaces_log (interface ∷ interfaces) =
    join_each (last_of interface interfaces) (interface ∷ interfaces)

-- Each of some texts with a separator behind it, and then one more.
abbrev pub separated : List Text → Text → Text
separated [] z = z
separated (y ∷ ys) z = y ++ (codes ", " ++ separated ys z)

last_of-append : (x : Text) (ys : List Text) (z : Text) → last_of x (ys ++ z ∷ []) ≡ z
last_of-append x [] z = refl
last_of-append x (y ∷ ys) z = last_of-append y ys z

join_each-separated :
    (ys : List Text) (z : Text)
    → All (λ y. text_eq y z ≡ false) ys
    → text_eq z z ≡ true
    → join_each z (ys ++ z ∷ []) ≡ separated ys z
unfolding join_each
join_each-separated [] z h e = rw e (append-nil z)
join_each-separated (y ∷ ys) z h e =
    rw h.0 (ap (λ l. y ++ (codes ", " ++ l)) (join_each-separated ys z h.1 e))

-- Interfaces of which the last is not among the others are listed with a separator between them.
pub interfaces_log-separated :
    (ys : List Text) (z : Text)
    → All (λ y. text_eq y z ≡ false) ys
    → interfaces_log (ys ++ z ∷ []) ≡ separated ys z
unfolding interfaces_log
interfaces_log-separated [] z h = join_each-separated [] z h (text_eq_refl z)
interfaces_log-separated (y ∷ ys) z h =
    ap (λ b. join_each b (y ∷ (ys ++ z ∷ []))) (last_of-append y ys z)
    ∙ join_each-separated (y ∷ ys) z h (text_eq_refl z)

-- A separator is missing behind an interface that is the same as the last.
missing_separator :
    interfaces_log (codes "a" ∷ codes "b" ∷ codes "a" ∷ codes "a" ∷ []) ≡ codes "ab, aa"
unfolding interfaces_log text_eq
missing_separator = refl
