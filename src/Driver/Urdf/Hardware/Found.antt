-- ===== src/Driver/Urdf/Hardware/Found.antt =====
-- Which hardware tag is found, and when the search runs into a null pointer.
use soem_driver_ros.Base.{
  ◌≡◌, ◌≢◌, ◌↔◌, refl, sym, ◌∙◌, true, false, Bool-cases, Option-cases, inl, inr, List, [], ◌∷◌,
  ◌++◌, none, some, arith, All, Text, codes, text_eq, text_eq_iff, text_eq_refl,
}
use soem_driver_ros.Driver.Urdf.Xml.{returns, crashes, ◌>>=◌, Xml}
use soem_driver_ros.Driver.Urdf.Hardware.{
  find_ros2_control, hardware_of, search_tags, parse_hardware_from_doc,
}

module _ (x : Xml) where
  open x use {Element}

  -- A tag of another hardware.
  abbrev pub Other : Text → Element → Type 0
  Other name e = (n : Text) × (x.attribute e (codes "name") ≡ some n) × (n ≢ name)

  different_passed :
      (name : Text) (e : Element) (es : List Element)
      → Other name e
      → find_ros2_control x name (e ∷ es) ≡ find_ros2_control x name es
  unfolding find_ros2_control
  different_passed name e es (n, has, other) = ground (arith, has, different)
    where
      different : text_eq name n ≡ false
      different = ground (arith, other, text_eq_iff name n)

  -- A tag that ends the search without a result is one of another hardware.
  passed_different :
      (name : Text) (e : Element) (es : List Element)
      → find_ros2_control x name (e ∷ es) ≡ returns none
      → Other name e
  unfolding find_ros2_control
  passed_different name e es h = elim (Option-cases (x.attribute e (codes "name"))) [
    | inl missing ↦ ground (arith, missing)
    | inr (n, found) ↦ (n, found, λ same. ground (arith, found, text_eq_iff name n))
  ]

  find_ros2_control-none :
      (name : Text) (es : List Element)
      → (find_ros2_control x name es ≡ returns none) ↔ All (Other name) es
  unfolding find_ros2_control
  find_ros2_control-none name [] = (λ _. tt, λ _. refl)
  find_ros2_control-none name (e ∷ es) =
      let ih = find_ros2_control-none name es in
      (
        λ h.
            let other = passed_different name e es h in
            (other, ih.0 (sym (different_passed name e es other) ∙ h)),
        λ h. different_passed name e es h.0 ∙ ih.1 h.1,
      )

  find_ros2_control-found :
      (name : Text) (before : List Element) (e : Element) (after : List Element)
      → All (Other name) before
      → x.attribute e (codes "name") ≡ some name
      → find_ros2_control x name (before ++ e ∷ after) ≡ returns (some e)
  unfolding find_ros2_control
  find_ros2_control-found name [] e after h found = rw (found, text_eq_refl name) refl
  find_ros2_control-found name (b ∷ before) e after h found =
      different_passed name b (before ++ e ∷ after) h.0
      ∙ find_ros2_control-found name before e after h.1 found

  find_ros2_control-ne-crashes :
      (name : Text) (es : List Element) → find_ros2_control x name es ≢ crashes
  unfolding find_ros2_control
  find_ros2_control-ne-crashes name [] h = cc
  find_ros2_control-ne-crashes name (e ∷ es) h =
      ground (arith, find_ros2_control-ne-crashes name es)

  search_crashes :
      (name : Text) (es : List Element)
      → ((find_ros2_control x name es >>= hardware_of x) ≡ crashes)
        ↔ (find_ros2_control x name es ≡ returns none)
  unfolding hardware_of
  search_crashes name es = ground (arith, find_ros2_control-ne-crashes name es)

  search_tags-crashes :
      (name : Text) (es : List Element)
      → (search_tags x name es ≡ crashes) ↔ ((es ≢ []) × All (Other name) es)
  unfolding search_tags
  search_tags-crashes name [] = (λ h. cc, λ h. absurd (h.0 refl))
  search_tags-crashes name (e ∷ es) =
      let found = search_crashes name (e ∷ es) in
      let others = find_ros2_control-none name (e ∷ es) in
      (λ h. (λ p. cc, others.0 (found.0 h)), λ h. found.1 (others.1 h.1))

  -- The hardware tag of the first ros2_control tag with the name of the hardware is found, if all tags
  -- before it have other names.
  pub parse_hardware_from_doc-found :
      (root : Element) (name : Text) (before : List Element) (e : Element) (after : List Element)
      (h : Element) (rest : List Element)
      → x.tag_name root ≡ codes "robot"
      → x.children root (codes "ros2_control") ≡ before ++ e ∷ after
      → All (Other name) before
      → x.attribute e (codes "name") ≡ some name
      → x.children e (codes "hardware") ≡ h ∷ rest
      → parse_hardware_from_doc x (some root) name ≡ returns h
  unfolding parse_hardware_from_doc text_eq
  parse_hardware_from_doc-found root name [] e after h rest robot tags others named has =
      rw (robot, tags, find_ros2_control-found name [] e after others named, has) refl
  parse_hardware_from_doc-found root name (b ∷ before) e after h rest robot tags others named has =
      rw (robot, tags, find_ros2_control-found name (b ∷ before) e after others named, has) refl

  -- The search for a document with a root uses a null pointer just when the root is robot, there are
  -- ros2_control tags, and all of them have other names than the hardware.
  pub parse_hardware_from_doc-crashes :
      (root : Element) (name : Text)
      → (parse_hardware_from_doc x (some root) name ≡ crashes) ↔ (
          (x.tag_name root ≡ codes "robot")
          × (x.children root (codes "ros2_control") ≢ [])
          × All (Other name) (x.children root (codes "ros2_control")))
  unfolding parse_hardware_from_doc
  parse_hardware_from_doc-crashes root name =
      elim (Bool-cases (text_eq (codes "robot") (x.tag_name root))) [
        | inl e ↦
            (let tags = search_tags-crashes name (x.children root (codes "ros2_control")) in
              rw e (λ h. (sym (is_robot.0 e), (tags.0 h).0, (tags.0 h).1), λ h. tags.1 (h.1, h.2)))
        | inr e ↦ rw e (λ h. cc, λ h. ground (arith, e, is_robot, h.0))
      ]
    where
      is_robot :
          (text_eq (codes "robot") (x.tag_name root) ≡ true) ↔ (codes "robot" ≡ x.tag_name root)
      is_robot = text_eq_iff (codes "robot") (x.tag_name root)
