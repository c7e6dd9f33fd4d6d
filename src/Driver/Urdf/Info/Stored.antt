-- ===== src/Driver/Urdf/Info/Stored.antt =====
-- What a parsing that returns has stored.
use soem_driver_ros.Base.{
  ℕ, ◌≡◌, Bool-cases, Option-cases, inl, inr, List, Option, none, some, arith, Text, codes,
  is_empty,
}
use soem_driver_ros.Driver.Urdf.Xml.{
  returns, Xml, first, get_text_for_element, get_int, Outcome-cases,
}
use soem_driver_ros.Driver.Urdf.Hardware.{parse_hardware_from_doc}
use soem_driver_ros.Driver.Urdf.Slaves.{parse_slaves_from_hardware}
use soem_driver_ros.Driver.Urdf.Joints.{Yaml, ComponentInfo, parse_joint_claims}
use soem_driver_ros.Driver.Urdf.Info.{
  HardwareInfo, Configuration, parse_hardware, parse_hardware_info,
}

module _ (x : Xml) where
  open x use {Element}

  -- The text of a tag, if there is one.
  unfoldable pub tag_text : Element → Text → Option Text
  tag_text hardware tag = elim (first (x.children hardware tag)) [
    | none ↦ none
    | some e ↦ some (get_text_for_element x e)
  ]

  -- The number in a tag, if it is one, or a default where the tag is missing.
  unfoldable pub tag_int : Option ℕ → Element → Text → Option ℕ
  tag_int default hardware tag = elim (first (x.children hardware tag)) [
    | none ↦ default
    | some e ↦ x.stoi (get_text_for_element x e)
  ]

module _ (x : Xml) (y : Yaml) where
  open x use {Element}

  -- What the tags of a hardware say of its configuration; a timeout without a tag stays as it was.
  pub record Stored (joints : List ComponentInfo) (hardware : Element)
      (before after : Configuration) : Type 0 where
    pub diagnostics :
        tag_int x (some 100) hardware (codes "diagnostics_cycle_ms")
        ≡ some after.diagnostics_cycle_ms
    pub interface : tag_text x hardware (codes "ec_interface") ≡ some after.ec_interface
    pub cycle : tag_int x none hardware (codes "ec_cycle_us") ≡ some after.ec_cycle_us
    pub process_data :
        tag_int x (some before.timeout_process_data) hardware (codes "ec_timeout_pd_us")
        ≡ some after.timeout_process_data
    pub mbx_receive :
        tag_int x (some before.timeout_mbx_receive) hardware (codes "ec_timeout_mbxrx_us")
        ≡ some after.timeout_mbx_receive
    pub mbx_send :
        tag_int x (some before.timeout_mbx_send) hardware (codes "ec_timeout_mbxtx_us")
        ≡ some after.timeout_mbx_send
    pub slaves : parse_slaves_from_hardware x hardware ≡ returns after.slave_infos
    pub claims : parse_joint_claims y joints ≡ returns after.joint_claims

  parse_hardware-diagnostics :
      (joints : List ComponentInfo) (hardware : Element) (before after : Configuration)
      → parse_hardware x y joints hardware before ≡ (returns tt, after)
      → tag_int x (some 100) hardware (codes "diagnostics_cycle_ms")
        ≡ some after.diagnostics_cycle_ms
  unfolding parse_hardware tag_int tag_text get_int
  parse_hardware-diagnostics joints hardware before after h = ground (arith, h)

  parse_hardware-interface :
      (joints : List ComponentInfo) (hardware : Element) (before after : Configuration)
      → parse_hardware x y joints hardware before ≡ (returns tt, after)
      → tag_text x hardware (codes "ec_interface") ≡ some after.ec_interface
  unfolding parse_hardware tag_int tag_text get_int
  parse_hardware-interface joints hardware before after h = ground (arith, h)

  parse_hardware-cycle :
      (joints : List ComponentInfo) (hardware : Element) (before after : Configuration)
      → parse_hardware x y joints hardware before ≡ (returns tt, after)
      → tag_int x none hardware (codes "ec_cycle_us") ≡ some after.ec_cycle_us
  unfolding parse_hardware tag_int tag_text get_int
  parse_hardware-cycle joints hardware before after h = ground (arith, h)

  parse_hardware-process_data :
      (joints : List ComponentInfo) (hardware : Element) (before after : Configuration)
      → parse_hardware x y joints hardware before ≡ (returns tt, after)
      → tag_int x (some before.timeout_process_data) hardware (codes "ec_timeout_pd_us")
        ≡ some after.timeout_process_data
  unfolding parse_hardware tag_int tag_text get_int
  parse_hardware-process_data joints hardware before after h = ground (arith, h)

  parse_hardware-mbx_receive :
      (joints : List ComponentInfo) (hardware : Element) (before after : Configuration)
      → parse_hardware x y joints hardware before ≡ (returns tt, after)
      → tag_int x (some before.timeout_mbx_receive) hardware (codes "ec_timeout_mbxrx_us")
        ≡ some after.timeout_mbx_receive
  unfolding parse_hardware tag_int tag_text get_int
  parse_hardware-mbx_receive joints hardware before after h = ground (arith, h)

  parse_hardware-mbx_send :
      (joints : List ComponentInfo) (hardware : Element) (before after : Configuration)
      → parse_hardware x y joints hardware before ≡ (returns tt, after)
      → tag_int x (some before.timeout_mbx_send) hardware (codes "ec_timeout_mbxtx_us")
        ≡ some after.timeout_mbx_send
  unfolding parse_hardware tag_int tag_text get_int
  parse_hardware-mbx_send joints hardware before after h = ground (arith, h)

  parse_hardware-slaves :
      (joints : List ComponentInfo) (hardware : Element) (before after : Configuration)
      → parse_hardware x y joints hardware before ≡ (returns tt, after)
      → parse_slaves_from_hardware x hardware ≡ returns after.slave_infos
  unfolding parse_hardware tag_int tag_text get_int
  parse_hardware-slaves joints hardware before after h = ground (arith, h)

  parse_hardware-claims :
      (joints : List ComponentInfo) (hardware : Element) (before after : Configuration)
      → parse_hardware x y joints hardware before ≡ (returns tt, after)
      → parse_joint_claims y joints ≡ returns after.joint_claims
  unfolding parse_hardware tag_int tag_text get_int
  parse_hardware-claims joints hardware before after h = ground (arith, h)

  parse_hardware-Stored :
      (joints : List ComponentInfo) (hardware : Element) (before after : Configuration)
      → parse_hardware x y joints hardware before ≡ (returns tt, after)
      → Stored joints hardware before after
  parse_hardware-Stored joints hardware before after h = record {
    diagnostics = parse_hardware-diagnostics joints hardware before after h;
    interface = parse_hardware-interface joints hardware before after h;
    cycle = parse_hardware-cycle joints hardware before after h;
    process_data = parse_hardware-process_data joints hardware before after h;
    mbx_receive = parse_hardware-mbx_receive joints hardware before after h;
    mbx_send = parse_hardware-mbx_send joints hardware before after h;
    slaves = parse_hardware-slaves joints hardware before after h;
    claims = parse_hardware-claims joints hardware before after h;
  }

  -- A parsing of the hardware info that returns has found a document and the hardware tag in it, and
  -- has stored what the tags say.
  pub parse_hardware_info-Stored :
      (info : HardwareInfo) (before after : Configuration)
      → parse_hardware_info x y info before ≡ (returns tt, after)
      → (root : Option Element) × (hardware : Element) × (x.parse info.original_xml ≡ some root)
        × (parse_hardware_from_doc x root info.name ≡ returns hardware)
        × Stored info.joints hardware before after
  unfolding parse_hardware_info
  parse_hardware_info-Stored info before after h = elim (Bool-cases (is_empty info.original_xml)) [
    | inl empty ↦ absurd (ground (arith, empty, h))
    | inr nonempty ↦ elim (Option-cases (x.parse info.original_xml)) [
      | inl invalid ↦ absurd (ground (arith, nonempty, invalid, h))
      | inr (root, parsed) ↦ elim (Outcome-cases (parse_hardware_from_doc x root info.name)) [
        | inl (hardware, found) ↦ (
          root,
          hardware,
          parsed,
          found,
          parse_hardware-Stored info.joints hardware before after
              (ground (arith, nonempty, parsed, found, h)),
        )
        | inr missing ↦ absurd (ground (arith, nonempty, parsed, missing, h))
      ]
    ]
  ]
