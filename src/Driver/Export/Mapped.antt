-- ===== src/Driver/Export/Mapped.antt =====
-- Which interface a mode switch finds for one that is exported through a transmission.
use soem_driver_ros.Base.{
  or_else, or_else_assoc, or_else-none, ◌≡◌, refl, sym, ap, ◌∙◌, Option-cases, inl, inr, List, [],
  ◌∷◌, ◌++◌, Option, none, some, arith, Text, codes, text_eq, Dict, lookup, assign, lookup-assign,
  or_default, if◌then◌else◌,
}
use soem_driver_ros.Slave.{Handle}
use soem_driver_ros.Driver.Modes.{map_interface}
use soem_driver_ros.Driver.Export.{TransmissionInfo, map_proxies, map_joints}

-- The full name of the interface that stands for one behind a transmission.
abbrev pub proxy_name : TransmissionInfo → Handle → Text
proxy_name info h = info.joint_name ++ (codes "/" ++ h.interface_name)

module _ (get_name : Handle → Text) (name : Text) where
  -- The last of some interfaces whose proxy has a name.
  unfoldable pub last_proxy : TransmissionInfo → List Handle → Option Text
  last_proxy info [] = none
  last_proxy info (h ∷ hs) =
      or_else (last_proxy info hs)
        (if text_eq (proxy_name info h) name then some (get_name h) else none)

  map_proxies-lookup :
      (info : TransmissionInfo) (interfaces : List Handle) (m : Dict Text)
      → lookup name (map_proxies get_name info interfaces m)
        ≡ or_else (last_proxy info interfaces) (lookup name m)
  unfolding map_proxies last_proxy
  map_proxies-lookup info [] m = refl
  map_proxies-lookup info (h ∷ hs) m =
      map_proxies-lookup info hs (assign (proxy_name info h) (get_name h) m)
      ∙ ap (or_else (last_proxy info hs))
          (lookup-assign (proxy_name info h) name (get_name h) m ∙ ground arith)
      ∙ sym (or_else_assoc (last_proxy info hs) _ (lookup name m))

  module _ (transmissions : Dict TransmissionInfo) where
    -- The last over the joints that have a transmission.
    unfoldable pub last_proxied : Dict (List Handle) → Option Text
    unfolding last_proxy
    last_proxied [] = none
    last_proxied ((joint, interfaces) ∷ joints) =
        or_else (last_proxied joints) (elim (lookup joint transmissions) [
          | none ↦ none
          | some info ↦ last_proxy info interfaces
        ])

    map_joints-lookup :
        (joints : Dict (List Handle)) (m : Dict Text)
        → lookup name (map_joints transmissions get_name joints m)
          ≡ or_else (last_proxied joints) (lookup name m)
    unfolding map_joints last_proxied
    map_joints-lookup [] m = refl
    map_joints-lookup ((joint, interfaces) ∷ joints) m =
        elim (Option-cases (lookup joint transmissions)) [
          | inl missing ↦
              rw (missing, map_joints, last_proxied)
                (map_joints-lookup joints m
                  ∙ sym (ap (λ o. or_else o (lookup name m)) (or_else-none (last_proxied joints))))
          | inr (info, found) ↦
              rw (found, map_joints, last_proxied)
                (map_joints-lookup joints (map_proxies get_name info interfaces m)
                  ∙ ap (or_else (last_proxied joints)) (map_proxies-lookup info interfaces m)
                  ∙ sym (or_else_assoc (last_proxied joints) _ (lookup name m)))
        ]

    -- A mode switch maps a name to the slave's interface behind the last proxy of that name that was
    -- exported, and leaves a name that no proxy has.
    pub map_interface-map_joints :
        (joints : Dict (List Handle))
        → map_interface (map_joints transmissions get_name joints []) name
          ≡ or_default name (last_proxied joints)
    unfolding map_interface lookup
    map_interface-map_joints joints =
        ground (arith, map_joints-lookup joints [], or_else-none (last_proxied joints))
