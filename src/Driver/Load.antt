-- ===== src/Driver/Load.antt =====
-- SOEMDriver::on_init (soem_driver.cpp) with its loading of slave modules and transmissions. Loading a
-- plugin is a function that is a parameter; `none` stands for its exception.
pub mod Loaded
mod Tests
use soem_driver_ros.Base.{
  ℕ, ◌==◌, ◌&&◌, Bool, true, false, not, if◌then◌else◌, List, [], ◌∷◌, Option, none, some, length,
  Text, codes, text_eq, Dict, lookup, assign, emplace,
}
use soem_driver_ros.Slave.{SlaveOps}
use soem_driver_ros.Claims.Resolve
use soem_driver_ros.Claims.Resolve.{EcClaimsResolver}
use soem_driver_ros.Driver.Urdf.Xml.{Outcome, returns, throws, crashes, Xml}
use soem_driver_ros.Driver.Urdf.Slaves.{EcSlavePluginInfo}
use soem_driver_ros.Driver.Urdf.Joints.{Yaml}
use soem_driver_ros.Driver.Urdf.Info.{HardwareInfo, Configuration, parse_hardware_info}
use soem_driver_ros.Driver.Configure.{CallbackReturn, success, failure}
use soem_driver_ros.Driver.Export.{TransmissionInfo}

-- A TransmissionInfo as it is given, with the names of its joints and actuators.
pub record GivenTransmission : Type 0 where
  pub type : Text
  pub joints : List Text
  pub actuators : List Text

-- createSharedInstance and init of a slave module, and, for a transmission, whether its loader is
-- created and what the two calls of load return: whether each pointer is not null, or `none` where one
-- of them throws.
pub record Plugins (S : Type 0) : Type 0 where
  pub create : Text → Option S
  pub init : Text → Dict Text → S → Option (Bool × S)
  pub creates_loader : Text → Bool
  pub loads : GivenTransmission → Option (Bool × Bool)

module _ {S : Type 0} (plugins : Plugins S) where
  -- The loop over slave_infos; false is the early return with FAILURE.
  unfoldable pub load_slaves : List EcSlavePluginInfo → Dict S → Bool × Dict S
  load_slaves [] slaves = (true, slaves)
  load_slaves (slave ∷ slave_infos) slaves = elim (plugins.create slave.plugin_name) [
    | none ↦ load_slaves slave_infos slaves
    | some plugin ↦ elim (plugins.init slave.name slave.parameters plugin) [
      | none ↦ load_slaves slave_infos slaves
      | some (initialized, slave_plugin) ↦ elim initialized [
        | true ↦ load_slaves slave_infos (assign slave.name slave_plugin slaves)
        | false ↦ (false, slaves)
      ]
    ]
  ]

  -- A simple transmission that targets one joint, with the name of the joint.
  unfoldable pub supported : GivenTransmission → Option Text
  supported t =
      if text_eq t.type (codes "transmission_interface/SimpleTransmission")
      then elim t.joints [
        | [] ↦ none
        | joint ∷ others ↦ elim others [ [] ↦ some joint | _ ∷ _ ↦ none ]
      ]
      else none

  -- One transmission; `none` is actuators[0] of an empty vector.
  unfoldable pub load_transmission :
      GivenTransmission → Dict TransmissionInfo → Option (Dict TransmissionInfo)
  unfolding supported
  load_transmission t transmissions = elim (supported t) [
    | none ↦ some transmissions
    | some joint ↦
        if not (plugins.creates_loader t.type) then some transmissions else elim t.actuators [
          | [] ↦ none
          | actuator ∷ _ ↦ some (elim (plugins.loads t) [
            | none ↦ transmissions
            | some (state_loaded, command_loaded) ↦
                emplace actuator
                  (record {
                    joint_name = joint;
                    actuator_name = actuator;
                    state_loaded = state_loaded;
                    command_loaded = command_loaded;
                  })
                  transmissions
          ])
        ]
  ]

  unfoldable pub load_transmissions :
      List GivenTransmission → Dict TransmissionInfo → Option (Dict TransmissionInfo)
  unfolding load_transmission
  load_transmissions [] transmissions = some transmissions
  load_transmissions (t ∷ ts) transmissions = elim (load_transmission t transmissions) [
    | none ↦ none
    | some transmissions' ↦ load_transmissions ts transmissions'
  ]

-- The fields of the driver that on_init sets.
pub record DriverFields (S : Type 0) : Type 0 where
  pub configuration : Configuration
  pub slaves : Dict S
  pub transmissions : Dict TransmissionInfo
  pub claims_resolver : EcClaimsResolver S

module _ (x : Xml) (y : Yaml) {S : Type 0} (plugins : Plugins S) (ops : SlaveOps S) where
  -- Behind the loading of the slave modules.
  unfoldable pub finish_init :
      List GivenTransmission → DriverFields S → Option (CallbackReturn × DriverFields S)
  unfolding load_transmissions Resolve.init
  finish_init given l = elim (load_transmissions plugins given l.transmissions) [
    | none ↦ none
    | some transmissions ↦ some (
      success,
      record l {
        transmissions = transmissions;
        claims_resolver = Resolve.init ops l.claims_resolver l.slaves l.configuration.joint_claims;
      },
    )
  ]

  -- `none` is undefined behaviour: a null pointer in the parsing, or actuators[0] of an empty vector.
  unfoldable pub on_init :
      HardwareInfo
      → List GivenTransmission
      → DriverFields S
      → Option (CallbackReturn × DriverFields S)
  unfolding parse_hardware_info load_slaves finish_init
  on_init info given l0 =
      let (parsed, configuration) = parse_hardware_info x y info l0.configuration in
      let l1 = record l0 { configuration = configuration } in
      elim parsed [
        | crashes ↦ none
        | throws e ↦ some (failure, l1)
        | returns _ ↦
            let (all_initialized, slaves) =
              load_slaves plugins configuration.slave_infos l1.slaves in
            let l = record l1 { slaves = slaves } in
            elim all_initialized [ false ↦ some (failure, l) | true ↦ finish_init given l ]
      ]
