-- ===== src/Trinamic/Module/Exported.antt =====
-- How the exported interfaces fit the claims of the command modes.
use soem_driver_ros.Base.{ℕ, ◌≡◌, refl, [], ◌∷◌, ◌++◌, Text, codes, text_eq, map}
use soem_driver_ros.Slave.{Handle}
use soem_driver_ros.Trinamic.Modes.{CommandMode, claim_to_command_mode}
use soem_driver_ros.Trinamic.Module.{exported}

-- get_name() of a handle.
abbrev pub full_name : Handle → Text
full_name h = h.prefix_name ++ (codes "/" ++ h.interface_name)

-- The modes that the claims of the exported commands stand for.
pub exported-modes :
    (base : ℕ)
    → map (λ h. claim_to_command_mode (full_name h)) (exported base)
      ≡ CommandMode.position ∷ CommandMode.velocity ∷ CommandMode.effort ∷ CommandMode.stop ∷ []
unfolding exported claim_to_command_mode text_eq
exported-modes base = refl
