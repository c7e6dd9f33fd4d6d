-- ===== src/Driver/Load/Loaded.antt =====
-- Which modules and transmissions are loaded.
use soem_driver_ros.Base.{
  or_else, or_else_assoc, or_else-none, ◌≡◌, refl, sym, ap, ◌∙◌, Bool, true, false, ◌&&◌,
  Bool-cases, Option-cases, inl, inr, List, [], ◌∷◌, Option, none, some, arith, Text, text_eq, Dict,
  lookup, assign, lookup-assign, if◌then◌else◌,
}
use soem_driver_ros.Driver.Urdf.Slaves.{EcSlavePluginInfo}
use soem_driver_ros.Driver.Urdf.Xml.{returns, Xml}
use soem_driver_ros.Driver.Urdf.Joints.{Yaml}
use soem_driver_ros.Driver.Urdf.Info.{HardwareInfo, parse_hardware_info}
use soem_driver_ros.Slave.{SlaveOps}
use soem_driver_ros.Driver.Configure.{success}
use soem_driver_ros.Driver.Load.{
  GivenTransmission, Plugins, load_slaves, DriverFields, finish_init, on_init,
}

module _ {S : Type 0} (plugins : Plugins S) where
  -- The module of a slave, after its init: an exception of either call is passed over.
  unfoldable pub made : EcSlavePluginInfo → Option (Bool × S)
  made slave = elim (plugins.create slave.plugin_name) [
    | none ↦ none
    | some plugin ↦ plugins.init slave.name slave.parameters plugin
  ]

  -- No init returns false.
  unfoldable pub none_refuses : List EcSlavePluginInfo → Bool
  none_refuses [] = true
  none_refuses (slave ∷ slaves) =
      (elim (made slave) [ none ↦ true | some m ↦ m.0 ]) && none_refuses slaves

  -- The last module that is made for a name.
  unfoldable pub last_made : Text → List EcSlavePluginInfo → Option S
  last_made name [] = none
  last_made name (slave ∷ slaves) = or_else (last_made name slaves) (
      if text_eq slave.name name
      then (elim (made slave) [ none ↦ none | some m ↦ some m.1 ])
      else none)

  load_slaves-step :
      (slave : EcSlavePluginInfo) (slave_infos : List EcSlavePluginInfo) (slaves : Dict S)
      → load_slaves plugins (slave ∷ slave_infos) slaves ≡ elim (made slave) [
        | none ↦ load_slaves plugins slave_infos slaves
        | some m ↦
            if m.0
            then load_slaves plugins slave_infos (assign slave.name m.1 slaves)
            else (false, slaves)
      ]
  unfolding load_slaves made
  load_slaves-step slave slave_infos slaves = ground arith

  load_slaves-skips :
      (slave : EcSlavePluginInfo) (slave_infos : List EcSlavePluginInfo) (slaves : Dict S)
      → made slave ≡ none
      → load_slaves plugins (slave ∷ slave_infos) slaves ≡ load_slaves plugins slave_infos slaves
  load_slaves-skips slave slave_infos slaves h =
      load_slaves-step slave slave_infos slaves ∙ rw h refl

  load_slaves-stores :
      (slave : EcSlavePluginInfo) (slave_infos : List EcSlavePluginInfo) (slaves : Dict S) (m : S)
      → made slave ≡ some (true, m)
      → load_slaves plugins (slave ∷ slave_infos) slaves
        ≡ load_slaves plugins slave_infos (assign slave.name m slaves)
  load_slaves-stores slave slave_infos slaves m h =
      load_slaves-step slave slave_infos slaves ∙ rw h refl

  load_slaves_result :
      (slave_infos : List EcSlavePluginInfo) (slaves : Dict S)
      → (load_slaves plugins slave_infos slaves).0 ≡ none_refuses slave_infos
  unfolding none_refuses load_slaves
  load_slaves_result [] slaves = refl
  load_slaves_result (slave ∷ slave_infos) slaves = elim (Option-cases (made slave)) [
    | inl failed ↦
        ap (λ r. r.0) (load_slaves-skips slave slave_infos slaves failed)
        ∙ load_slaves_result slave_infos slaves
        ∙ ground (arith, failed)
    | inr ((initialized, m), is_made) ↦ elim (Bool-cases initialized) [
      | inl ok ↦
          ap (λ r. r.0)
            (load_slaves-stores slave slave_infos slaves m (is_made ∙ ap (λ b. some (b, m)) ok))
          ∙ load_slaves_result slave_infos (assign slave.name m slaves)
          ∙ ground (arith, is_made, ok)
      | inr refused ↦
          ap (λ r. r.0) (load_slaves-step slave slave_infos slaves)
          ∙ ground (arith, is_made, refused)
    ]
  ]

  load_slaves-lookup :
      (slave_infos : List EcSlavePluginInfo) (slaves : Dict S)
      → none_refuses slave_infos ≡ true
      → (name : Text)
      → lookup name (load_slaves plugins slave_infos slaves).1
        ≡ or_else (last_made name slave_infos) (lookup name slaves)
  unfolding none_refuses last_made load_slaves
  load_slaves-lookup [] slaves h name = refl
  load_slaves-lookup (slave ∷ slave_infos) slaves h name = elim (Option-cases (made slave)) [
    | inl failed ↦
        ap (λ r. lookup name r.1) (load_slaves-skips slave slave_infos slaves failed)
        ∙ load_slaves-lookup slave_infos slaves (ground (arith, failed, h)) name
        ∙ ground (arith, failed, or_else-none (last_made name slave_infos))
    | inr ((initialized, m), is_made) ↦ elim (Bool-cases initialized) [
      | inl ok ↦
          ap (λ r. lookup name r.1)
            (load_slaves-stores slave slave_infos slaves m (is_made ∙ ap (λ b. some (b, m)) ok))
          ∙ load_slaves-lookup slave_infos (assign slave.name m slaves)
              (ground (arith, is_made, ok, h)) name
          ∙ ap (or_else (last_made name slave_infos))
              (lookup-assign slave.name name m slaves ∙ ground arith)
          ∙ sym (
              or_else_assoc (last_made name slave_infos)
                (if text_eq slave.name name then some m else none) (lookup name slaves))
          ∙ ground (arith, is_made)
      | inr refused ↦ absurd (ground (arith, is_made, refused, h))
    ]
  ]

module _ (x : Xml) (y : Yaml) {S : Type 0} (plugins : Plugins S) (ops : SlaveOps S) where
  on_init-runs :
      (info : HardwareInfo) (given : List GivenTransmission) (l l' : DriverFields S)
      → on_init x y plugins ops info given l ≡ some (success, l')
      → (parse_hardware_info x y info l.configuration ≡ (returns tt, l'.configuration))
        × (load_slaves plugins l'.configuration.slave_infos l.slaves ≡ (true, l'.slaves))
  unfolding on_init finish_init
  on_init-runs info given l l' h = (ground (arith, h), ground (arith, h))

  -- If on_init succeeds, the hardware info has been parsed, no module has returned false from its init,
  -- and the module of a name is the last that was made for it, where slaves whose module could not be
  -- made are passed over; a name without any keeps what it had.
  pub on_init-loads :
      (info : HardwareInfo) (given : List GivenTransmission) (l l' : DriverFields S)
      → on_init x y plugins ops info given l ≡ some (success, l')
      → (name : Text)
      → (parse_hardware_info x y info l.configuration ≡ (returns tt, l'.configuration))
        × (none_refuses plugins l'.configuration.slave_infos ≡ true)
        × (lookup name l'.slaves
            ≡ or_else (last_made plugins name l'.configuration.slave_infos) (lookup name l.slaves))
  on_init-loads info given l l' h name =
      let (parsed, loaded) = on_init-runs info given l l' h in
      let accepted : none_refuses plugins l'.configuration.slave_infos ≡ true =
        sym (load_slaves_result plugins l'.configuration.slave_infos l.slaves)
        ∙ ap (λ r. r.0) loaded in
      (
        parsed,
        accepted,
        ap (λ r. lookup name r.1) (sym loaded)
            ∙ load_slaves-lookup plugins l'.configuration.slave_infos l.slaves accepted name,
      )
