-- ===== src/Driver/Urdf/Slaves.antt =====
-- SOEMDriver::_parse_parameters_from_xml, _parse_slave_info and _parse_slaves_from_hardware
-- (soem_driver.cpp).
pub mod Described
use soem_driver_ros.Base.{ℕ, List, [], ◌∷◌, Option, none, some, Text, codes, Dict, assign}
use soem_driver_ros.Driver.Urdf.Xml.{
  runtime_error, Outcome, returns, throws, ◌>>=◌, Xml, first, get_text_for_element,
  get_attribute_value, get_int,
}

pub record EcSlavePluginInfo : Type 0 where
  pub name : Text
  pub alias : ℕ
  pub position : ℕ
  pub plugin_name : Text
  pub parameters : Dict Text

module _ (x : Xml) where
  open x use {Element}

  -- The loop over the param tags.
  unfoldable pub parse_parameters : List Element → Dict Text → Outcome (Dict Text)
  unfolding get_text_for_element
  parse_parameters [] parameters = returns parameters
  parse_parameters (params_it ∷ rest) parameters = elim (x.attribute params_it (codes "name")) [
    | none ↦ throws (runtime_error (codes "no parameter name attribute set in param tag"))
    | some parameter_name ↦
        parse_parameters rest (assign parameter_name (get_text_for_element x params_it) parameters)
  ]

  -- The three mandatory tags.
  unfoldable pub mandatory_tags : Element → Option (Element × Element × Element)
  mandatory_tags slave = elim (first (x.children slave (codes "alias"))) [
    | none ↦ none
    | some alias_it ↦ elim (first (x.children slave (codes "position"))) [
      | none ↦ none
      | some position_it ↦ elim (first (x.children slave (codes "plugin"))) [
        | none ↦ none
        | some plugin_it ↦ some (alias_it, position_it, plugin_it)
      ]
    ]
  ]

  -- The part behind the test for the mandatory tags.
  unfoldable pub slave_from_tags : Element → Element → Element → Element → Outcome EcSlavePluginInfo
  unfolding parse_parameters get_int get_attribute_value
  slave_from_tags slave alias_it position_it plugin_it = do
    name ← get_attribute_value x slave (codes "name") (codes "ec_slave")
    alias ← get_int x alias_it
    position ← get_int x position_it
    parameters ← parse_parameters (x.children slave (codes "param")) []
    returns (record {
      name = name;
      alias = alias;
      position = position;
      plugin_name = get_text_for_element x plugin_it;
      parameters = parameters;
    })

  unfoldable pub parse_slave_info : Element → Outcome EcSlavePluginInfo
  unfolding mandatory_tags slave_from_tags
  parse_slave_info slave = elim (mandatory_tags slave) [
    | none ↦ throws (
        runtime_error
          (codes "ec_slaves does not contain all mandatory tags alias, position and plugin"))
    | some (alias_it, position_it, plugin_it) ↦ slave_from_tags slave alias_it position_it plugin_it
  ]

  -- The loop over the ec_slave tags.
  unfoldable pub parse_slaves : List Element → Outcome (List EcSlavePluginInfo)
  unfolding parse_slave_info
  parse_slaves [] = returns []
  parse_slaves (ec_slave_it ∷ rest) = do
    info ← parse_slave_info ec_slave_it
    infos ← parse_slaves rest
    returns (info ∷ infos)

  unfoldable pub parse_slaves_from_hardware : Element → Outcome (List EcSlavePluginInfo)
  unfolding parse_slaves
  parse_slaves_from_hardware hardware = parse_slaves (x.children hardware (codes "ec_slave"))
