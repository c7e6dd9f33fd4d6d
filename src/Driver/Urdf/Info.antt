-- ===== src/Driver/Urdf/Info.antt =====
-- SOEMDriver::parse_hardware_info (soem_driver.cpp). What is stored before an exception stays stored.
pub mod Stored
use soem_driver_ros.Base.{
  ℕ, Bool, true, false, if◌then◌else◌, List, Option, none, some, Text, codes, is_empty, Dict,
}
use soem_driver_ros.Driver.Urdf.Xml.{
  Exception, runtime_error, Outcome, returns, throws, crashes, or_throw, Xml, first,
  get_text_for_element, get_int,
}
use soem_driver_ros.Driver.Urdf.Parser.{Parser, ◌>>=◌, ◌>>◌, lift, store, throw_if}
use soem_driver_ros.Driver.Urdf.Hardware.{parse_hardware_from_doc}
use soem_driver_ros.Driver.Urdf.Slaves.{EcSlavePluginInfo, parse_slaves_from_hardware}
use soem_driver_ros.Driver.Urdf.Joints.{Yaml, ComponentInfo, parse_joint_claims}

-- HardwareInfo, as far as it is read.
pub record HardwareInfo : Type 0 where
  pub name : Text
  pub original_xml : Text
  pub joints : List ComponentInfo

-- The fields of the driver, and of its master, that the parsing sets.
pub record Configuration : Type 0 where
  pub diagnostics_cycle_ms : ℕ
  pub ec_interface : Text
  pub ec_cycle_us : ℕ
  pub timeout_process_data : ℕ
  pub timeout_mbx_receive : ℕ
  pub timeout_mbx_send : ℕ
  pub slave_infos : List EcSlavePluginInfo
  pub joint_claims : Dict (List Text)

module _ (x : Xml) (y : Yaml) where
  open x use {Element}

  -- The number of a tag, or a default where the tag is missing.
  unfoldable pub int_or : ℕ → Element → Text → Outcome ℕ
  int_or default hardware_it tag = elim (first (x.children hardware_it tag)) [
    | none ↦ returns default
    | some element_it ↦ get_int x element_it
  ]

  -- if (element) { ... std::stoi(...) ... }
  unfoldable pub optional_int :
      Element → Text → (ℕ → Configuration → Configuration) → Parser Configuration (Unit {0})
  optional_int hardware_it tag set_field = elim (first (x.children hardware_it tag)) [
    | none ↦ lift (returns tt)
    | some element_it ↦ lift (get_int x element_it) >>= λ n. store (set_field n)
  ]

  abbrev pub mandatory : Element → Text → Text → Parser Configuration Element
  mandatory hardware_it tag message =
      lift (or_throw (runtime_error message) (first (x.children hardware_it tag)))

  -- The part behind the search for the hardware tag.
  unfoldable pub parse_hardware : List ComponentInfo → Element → Parser Configuration (Unit {0})
  unfolding optional_int int_or
  parse_hardware joints hardware_it = do
    ros_diagnostics_cycle_ms ← lift (int_or 100 hardware_it (codes "diagnostics_cycle_ms"))
    store (λ c. record c { diagnostics_cycle_ms = ros_diagnostics_cycle_ms })
    ec_interface_it ←
        mandatory hardware_it (codes "ec_interface") (codes "no ec_interface tag in hardware")
    store (λ c. record c { ec_interface = get_text_for_element x ec_interface_it })
    ec_cycle_us_it ←
        mandatory hardware_it (codes "ec_cycle_us") (codes "no ec_cycle_us tag in hardware")
    ec_cycle_us ← lift (get_int x ec_cycle_us_it)
    store (λ c. record c { ec_cycle_us = ec_cycle_us })
    optional_int hardware_it (codes "ec_timeout_pd_us")
        (λ n c. record c { timeout_process_data = n })
    optional_int hardware_it (codes "ec_timeout_mbxrx_us")
        (λ n c. record c { timeout_mbx_receive = n })
    optional_int hardware_it (codes "ec_timeout_mbxtx_us")
        (λ n c. record c { timeout_mbx_send = n })
    slave_infos ← lift (parse_slaves_from_hardware x hardware_it)
    store (λ c. record c { slave_infos = slave_infos })
    joint_claims ← lift (parse_joint_claims y joints)
    store (λ c. record c { joint_claims = joint_claims })

  unfoldable pub parse_hardware_info : HardwareInfo → Parser Configuration (Unit {0})
  unfolding parse_hardware
  parse_hardware_info info = do
    throw_if (is_empty info.original_xml) (runtime_error (codes "empty URDF passed to robot"))
    root ← lift (
        or_throw (runtime_error (codes "invalid URDF passed in to robot parser"))
          (x.parse info.original_xml))
    hardware_it ← lift (parse_hardware_from_doc x root info.name)
    parse_hardware info.joints hardware_it
