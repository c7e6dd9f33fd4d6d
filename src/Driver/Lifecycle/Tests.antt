-- ===== src/Driver/Lifecycle/Tests.antt =====
-- A driver that is configured and activated.
use soem_driver_ros.Base.{ℕ, refl, true, false, none, some, lookup, assign, text_eq}
use soem_driver_ros.Driver.Configure.{SoemDriver, on_configure}
use soem_driver_ros.Driver.Configure.Tests.{accepts, driver, scan, mapping}
use soem_driver_ros.Driver.Lifecycle.{
  Plant, on_activate, inactive, active, configured, activated, Reach, start, later,
}
use soem_driver_ros.Driver.Lifecycle.Reachable.{Safe, Reach-Safe}

abbrev loaded : Plant ℕ
loaded = record { driver = driver; cyclic_master = false }

abbrev configured_driver : SoemDriver ℕ
configured_driver = elim (on_configure accepts scan mapping driver) [ none ↦ driver | some r ↦ r.1 ]

abbrev ready : Plant ℕ
ready = record loaded { driver = configured_driver }

ready-Reach : Reach accepts loaded inactive ready
unfolding on_configure lookup assign text_eq
ready-Reach = later start (configured scan mapping refl)

abbrev running : Plant ℕ
running = (on_activate true ready).1

running-Reach : Reach accepts loaded active running
unfolding on_activate
running-Reach = later ready-Reach (activated true refl)

Reach-Safe_example : Safe active running
Reach-Safe_example = Reach-Safe accepts loaded refl (tt, tt) active running running-Reach
