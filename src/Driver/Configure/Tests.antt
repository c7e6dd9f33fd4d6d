-- ===== src/Driver/Configure/Tests.antt =====
-- A driver with two modules, of which the bus has the slaves.
use soem_driver_ros.Base.{
  ℕ, suc, ◌+◌, ◌*◌, ◌≡◌, ◌≢◌, ◌⊎◌, refl, true, false, [], ◌∷◌, none, some, codes, lookup, assign,
  text_eq, map,
}
use soem_driver_ros.Master.Setup.{constructed, FoundSlave, Scan, Mapping}
use soem_driver_ros.Driver.Urdf.Slaves.{EcSlavePluginInfo}
use soem_driver_ros.Driver.Configure.{
  CallbackReturn, success, Module, SoemDriver, ConfigureModule, on_configure,
}
use soem_driver_ros.Driver.Configure.Wired.{
  Wired, configure_result, throws_in_configure, on_configure-Wired,
}

-- A module counts how often it has been configured.
abbrev pub accepts : ConfigureModule ℕ
accepts vendor_id product_code revision_number parameters n = (some true, suc n)

abbrev unplaced : Module ℕ
unplaced = record {
  position_ec_bus = 0;
  rx_pdo = record { offset = 0; size = 0 };
  tx_pdo = record { offset = 0; size = 0 };
  state = 0;
}

abbrev by_alias : EcSlavePluginInfo
by_alias = record {
  name = codes "a";
  alias = 7;
  position = 0;
  plugin_name = codes "p";
  parameters = [];
}

abbrev by_position : EcSlavePluginInfo
by_position = record {
  name = codes "b";
  alias = 0;
  position = 1;
  plugin_name = codes "p";
  parameters = [];
}

abbrev pub driver : SoemDriver ℕ
driver = record {
  slave_infos = by_alias ∷ by_position ∷ [];
  slaves = (codes "a", unplaced) ∷ (codes "b", unplaced) ∷ [];
  initialized_slaves = [];
  master = constructed;
  sdo_setup_hook_store = [];
  diagnostics_running = false;
}

abbrev found_with : ℕ → FoundSlave
found_with alias = record {
  eep_man = 1;
  eep_id = 2;
  eep_rev = 3;
  aliasadr = alias;
  name = codes "s";
  obits = 16;
  ibits = 8;
}

abbrev pub scan : Scan
scan = record { opened = true; discovered = true; found = found_with 0 ∷ found_with 7 ∷ [] }

-- Two bytes of output and one of input for each slave.
abbrev pub mapping : Mapping
mapping = record {
  outputs_at = 100;
  outputs = 0 ∷ 0 ∷ 0 ∷ 0 ∷ [];
  inputs_at = 104;
  inputs = 5 ∷ 6 ∷ [];
  slavelist = λ p. record {
    outputs = 98 + 2 * p;
    obytes = 2;
    inputs = 103 + p;
    ibytes = 1;
    mbx_l = 9;
    mbx_rl = 9;
  };
  safe_op = true;
}

-- The order is that of the driver's slaves, and the positions are those of the bus.
positions :
    elim (on_configure accepts scan mapping driver) [
      | none ↦ []
      | some r ↦ map (λ s. s.1.position_ec_bus) r.1.slaves
    ]
    ≡ 2 ∷ 1 ∷ []
unfolding on_configure lookup assign text_eq
positions = refl

-- A module that throws leaves on_configure, and the slaves behind it are not configured.
abbrev throws_at_first : ConfigureModule ℕ
throws_at_first vendor_id product_code revision_number parameters n = (none, suc n)

left_by_exception :
    elim (on_configure throws_at_first scan mapping driver) [
      | none ↦ []
      | some r ↦ map (λ s. s.1.state) r.1.slaves
    ]
    ≡ 1 ∷ 0 ∷ []
unfolding on_configure lookup assign text_eq
left_by_exception = refl

on_configure-Wired_example :
    (r : CallbackReturn × SoemDriver ℕ) × (on_configure accepts scan mapping driver ≡ some r)
    × (r.0 ≡ configure_result scan mapping (throws_in_configure accepts scan driver))
    × ((r.0 ≢ success) ⊎ Wired r.1)
on_configure-Wired_example = on_configure-Wired accepts scan mapping driver refl refl refl
