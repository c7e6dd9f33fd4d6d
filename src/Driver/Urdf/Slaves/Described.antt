-- ===== src/Driver/Urdf/Slaves/Described.antt =====
-- What the parsing of the slaves gives for well-formed tags, and that it throws for all others.
use soem_driver_ros.Base.{
  or_else, or_else-none, is_some, ℕ, ◌≡◌, inl, inr, refl, sym, ◌∙◌, Bool, true, false, ◌&&◌,
  if◌then◌else◌, Option-cases, List, [], ◌∷◌, Option, none, some, arith, Text, codes, text_eq, Dict,
  lookup, assign, lookup-assign,
}
use soem_driver_ros.Driver.Urdf.Xml.{
  returns, Xml, first, returned, thrown, ending, or_throw-returns, Outcome-cases,
  get_text_for_element, get_attribute_value, get_int,
}
use soem_driver_ros.Driver.Urdf.Slaves.{
  EcSlavePluginInfo, parse_parameters, mandatory_tags, slave_from_tags, parse_slave_info,
  parse_slaves, parse_slaves_from_hardware,
}

module _ (x : Xml) where
  open x use {Element}

  abbrev pub has_name : Text → Element → Bool
  has_name k e = elim (x.attribute e (codes "name")) [ none ↦ false | some n ↦ text_eq n k ]

  -- The text of the last param tag of a name.
  abbrev pub last_param : Text → List Element → Option Text
  last_param k [] = none
  last_param k (e ∷ es) =
      or_else (last_param k es) (if has_name k e then some (get_text_for_element x e) else none)

  abbrev pub all_named : List Element → Bool
  all_named [] = true
  all_named (e ∷ es) = is_some (x.attribute e (codes "name")) && all_named es

  parse_parameters-lookup :
      (es : List Element) (m0 m : Dict Text)
      → parse_parameters x es m0 ≡ returns m
      → (k : Text) → lookup k m ≡ or_else (last_param k es) (lookup k m0)
  unfolding parse_parameters
  parse_parameters-lookup [] m0 m h k = ground (arith, h)
  parse_parameters-lookup (e ∷ es) m0 m h k = elim (Option-cases (x.attribute e (codes "name"))) [
    | inl missing ↦ absurd (ground (arith, missing, h))
    | inr (n, found) ↦
        parse_parameters-lookup es (assign n (get_text_for_element x e) m0) m
          (ground (arith, found, h)) k
        ∙ ground (arith, found, lookup-assign n k (get_text_for_element x e) m0)
  ]

  parse_parameters-ending :
      (es : List Element) (m0 : Dict Text)
      → ending (parse_parameters x es m0) ≡ (if all_named es then returned else thrown)
  unfolding parse_parameters
  parse_parameters-ending [] m0 = refl
  parse_parameters-ending (e ∷ es) m0 = elim (Option-cases (x.attribute e (codes "name"))) [
    | inl missing ↦ ground (arith, missing)
    | inr (n, found) ↦
        ground (arith, found, parse_parameters-ending es (assign n (get_text_for_element x e) m0))
  ]

  -- What the tags of a slave say about it.
  pub record Described (slave : Element) (info : EcSlavePluginInfo) : Type 0 where
    pub alias_it : Element
    pub position_it : Element
    pub plugin_it : Element
    pub alias_tag : first (x.children slave (codes "alias")) ≡ some alias_it
    pub position_tag : first (x.children slave (codes "position")) ≡ some position_it
    pub plugin_tag : first (x.children slave (codes "plugin")) ≡ some plugin_it
    pub name : x.attribute slave (codes "name") ≡ some info.name
    pub alias : x.stoi (get_text_for_element x alias_it) ≡ some info.alias
    pub position : x.stoi (get_text_for_element x position_it) ≡ some info.position
    pub plugin : get_text_for_element x plugin_it ≡ info.plugin_name
    pub parameters :
        (k : Text) → lookup k info.parameters ≡ last_param k (x.children slave (codes "param"))

  abbrev pub AllDescribed : List Element → List EcSlavePluginInfo → Type 0
  AllDescribed [] [] = Unit {0}
  AllDescribed (e ∷ es) (info ∷ infos) = Described e info × AllDescribed es infos
  AllDescribed _ _ = ◌≡◌ {A = Bool} true false

  abbrev pub has_int : Option Element → Bool
  has_int none = false
  has_int (some e) = is_some (x.stoi (get_text_for_element x e))

  -- A slave with a name, a number for its alias and its position, a plugin, and names for its
  -- parameters.
  abbrev pub well_formed : Element → Bool
  well_formed slave =
      is_some (x.attribute slave (codes "name"))
      && has_int (first (x.children slave (codes "alias")))
      && has_int (first (x.children slave (codes "position")))
      && is_some (first (x.children slave (codes "plugin")))
      && all_named (x.children slave (codes "param"))

  parse_slave_info-ending :
      (slave : Element)
      → ending (parse_slave_info x slave) ≡ (if well_formed slave then returned else thrown)
  unfolding parse_slave_info
  parse_slave_info-ending slave =
      ground (arith, parse_parameters-ending (x.children slave (codes "param")) [])

  mandatory_tags-some :
      (slave a p q : Element)
      → mandatory_tags x slave ≡ some (a, p, q)
      → (first (x.children slave (codes "alias")) ≡ some a)
        × (first (x.children slave (codes "position")) ≡ some p)
        × (first (x.children slave (codes "plugin")) ≡ some q)
  unfolding mandatory_tags
  mandatory_tags-some slave a p q h = ground (arith, h)

  get_int-returns :
      (e : Element) (n : ℕ) → get_int x e ≡ returns n → x.stoi (get_text_for_element x e) ≡ some n
  unfolding get_int
  get_int-returns e n h = or_throw-returns _ _ n h

  -- What the members of a slave with its mandatory tags are read from.
  slave_from_tags-members :
      (slave a p q : Element) (info : EcSlavePluginInfo)
      → slave_from_tags x slave a p q ≡ returns info
      → (x.attribute slave (codes "name") ≡ some info.name)
        × (x.stoi (get_text_for_element x a) ≡ some info.alias)
        × (x.stoi (get_text_for_element x p) ≡ some info.position)
        × (get_text_for_element x q ≡ info.plugin_name)
        × (parse_parameters x (x.children slave (codes "param")) [] ≡ returns info.parameters)
  unfolding slave_from_tags get_attribute_value get_int
  slave_from_tags-members slave a p q info h = ground (arith, h)

  slave_from_tags-Described :
      (slave a p q : Element) (info : EcSlavePluginInfo)
      → mandatory_tags x slave ≡ some (a, p, q)
      → slave_from_tags x slave a p q ≡ returns info
      → Described slave info
  unfolding lookup
  slave_from_tags-Described slave a p q info tags h =
      let found = mandatory_tags-some slave a p q tags in
      let members = slave_from_tags-members slave a p q info h in
      record {
        alias_it = a;
        position_it = p;
        plugin_it = q;
        alias_tag = found.0;
        position_tag = found.1;
        plugin_tag = found.2;
        name = members.0;
        alias = members.1;
        position = members.2;
        plugin = members.3;
        parameters = λ k.
            parse_parameters-lookup (x.children slave (codes "param")) [] info.parameters members.4
              k
            ∙ or_else-none (last_param k (x.children slave (codes "param")));
      }

  parse_slave_info-Described :
      (slave : Element) (info : EcSlavePluginInfo)
      → parse_slave_info x slave ≡ returns info
      → Described slave info
  unfolding parse_slave_info
  parse_slave_info-Described slave info h = elim (Option-cases (mandatory_tags x slave)) [
    | inl missing ↦ absurd (ground (arith, missing, h))
    | inr ((a, p, q), tags) ↦
        slave_from_tags-Described slave a p q info tags (ground (arith, tags, h))
  ]

  parsed_both :
      (e : Element) (es : List Element) (info : EcSlavePluginInfo)
      (rest infos : List EcSlavePluginInfo)
      → parse_slave_info x e ≡ returns info
      → parse_slaves x es ≡ returns rest
      → parse_slaves x (e ∷ es) ≡ returns infos
      → info ∷ rest ≡ infos
  unfolding parse_slaves
  parsed_both e es info rest infos parsed others h = ground (arith, parsed, others, h)

  parse_slaves-AllDescribed :
      (es : List Element) (infos : List EcSlavePluginInfo)
      → parse_slaves x es ≡ returns infos
      → AllDescribed es infos
  unfolding parse_slaves
  parse_slaves-AllDescribed [] [] h = tt
  parse_slaves-AllDescribed [] (info ∷ infos) h = absurd cc
  parse_slaves-AllDescribed (e ∷ es) infos h = elim (Outcome-cases (parse_slave_info x e)) [
    | inl (info, parsed) ↦ elim (Outcome-cases (parse_slaves x es)) [
      | inl (rest, others) ↦
          rw (sym (parsed_both e es info rest infos parsed others h))
            (parse_slave_info-Described e info parsed, parse_slaves-AllDescribed es rest others)
      | inr others ↦ absurd (ground (arith, parsed, others, h))
    ]
    | inr failed ↦ absurd (ground (arith, failed, h))
  ]

  abbrev pub all_well_formed : List Element → Bool
  all_well_formed [] = true
  all_well_formed (e ∷ es) = well_formed e && all_well_formed es

  parse_slaves-ending :
      (es : List Element)
      → ending (parse_slaves x es) ≡ (if all_well_formed es then returned else thrown)
  unfolding parse_slaves
  parse_slaves-ending [] = refl
  parse_slaves-ending (e ∷ es) = ground (arith, parse_slave_info-ending e, parse_slaves-ending es)

  -- Slaves that are parsed are described by the ec_slave tags, one by one and in their order.
  pub parse_slaves_from_hardware-AllDescribed :
      (hardware : Element) (infos : List EcSlavePluginInfo)
      → parse_slaves_from_hardware x hardware ≡ returns infos
      → AllDescribed (x.children hardware (codes "ec_slave")) infos
  unfolding parse_slaves_from_hardware
  parse_slaves_from_hardware-AllDescribed hardware infos h = parse_slaves-AllDescribed _ infos h

  -- The parsing of the slaves returns if all ec_slave tags are well-formed, throws if one is not, and
  -- never uses a null pointer.
  pub parse_slaves_from_hardware-ending :
      (hardware : Element)
      → ending (parse_slaves_from_hardware x hardware)
        ≡ (if all_well_formed (x.children hardware (codes "ec_slave")) then returned else thrown)
  unfolding parse_slaves_from_hardware
  parse_slaves_from_hardware-ending hardware = parse_slaves-ending _
