-- ===== src/Trinamic/Reactions/Safety.antt =====
-- What the drive is told in each state, and what the module learns from its answers.
use soem_driver_ros.Base.{
  ℕ, ◌+◌, ◌*◌, ◌/◌, ◌%◌, ◌^◌, if◌then◌else◌, ◌≡◌, ◌≢◌, ◌⊎◌, ap, Bool, true, false, Option, none,
  some, List, [], ◌∷◌, arith, length,
}
use soem_driver_ros.Trinamic.Endian.{Endianness, little, of_le_bytes, of_memory, from_big_endian}
use soem_driver_ros.Trinamic.Endian.Laws.{AllBytes, from_endian-memory}
use soem_driver_ros.Trinamic.Modes.{CommandMode, mode_code}
use soem_driver_ros.Trinamic.Pdo.{RxPdo, MbxReceive, read_mbx}
use soem_driver_ros.Trinamic.Pdo.Layout.{read_mbx-message}
use soem_driver_ros.Trinamic.Doubles.{Doubles}
use soem_driver_ros.Trinamic.States.{
  StateId, read_fw, read_encoder_ticks, motion_c, succeed, change_to,
}
use soem_driver_ros.Trinamic.Reactions.{
  Context, writes, react_write, react_mbx, update, motion_state,
}

-- The command that a mode follows, where it moves the drive.
abbrev pub followed : {D : Type 0} → CommandMode → Context D → Option D
followed CommandMode.effort c = some c.effort_command
followed CommandMode.velocity c = some c.velocity_command
followed CommandMode.position c = some c.position_command
followed _ c = none

module _ (d : Doubles) where
  open d use {D}

  -- Whether there is a finite command.
  abbrev pub has_finite : Option D → Bool
  has_finite none = false
  has_finite (some command) = d.is_finite command

  abbrev pub moves : Option D → Bool
  moves none = false
  moves (some _) = true

  -- Where the state that an update of the motion region changes to sends the drive a setpoint: it goes
  -- with the mode of the last switch if that is effort, velocity or position, and with the mode that
  -- stops the drive otherwise; and it is 0 unless that mode is one of the three and its command is
  -- finite.
  pub motion-follows_mode :
      (c : Context D) (r : RxPdo)
      → react_write d (motion_state c.command_mode) c ≡ writes r
      → (update motion_c c ≡ change_to (motion_state c.command_mode))
        × (r.mode ≡ (
            if moves (followed c.command_mode c)
            then mode_code c.command_mode
            else mode_code CommandMode.stop))
        × ((r.setpoint ≡ 0) ⊎ (has_finite (followed c.command_mode c) ≡ true))
  unfolding react_write motion_state update
  motion-follows_mode c r h = ground arith

  -- A message that does not make the state succeed, since it is refused or met in a state without a
  -- reaction, changes nothing.
  pub react_mbx-keeps :
      (host : Endianness) (s : StateId) (msg : MbxReceive) (c : Context D)
      → (react_mbx d host s msg c).1 ≢ succeed
      → (react_mbx d host s msg c).0 ≡ c
  unfolding react_mbx
  react_mbx-keeps host s msg c h = ground arith

  firmware_fields :
      (c : Context D) (a b e f : ℕ)
      → AllBytes (a ∷ b ∷ e ∷ f ∷ [])
      → let value = of_memory little (a ∷ b ∷ e ∷ f ∷ []) in
        ◌≡◌ {A = Context D}
          (record c {
            module_type = from_big_endian little 2 (value % 2 ^ 16);
            firmware_major = value / 2 ^ 16 % 2 ^ 8;
            firmware_minor = value / 2 ^ 24 % 2 ^ 8;
          })
          (record c { module_type = 256 * a + b; firmware_major = e; firmware_minor = f })
  unfolding from_big_endian of_memory
  firmware_fields c a b e f h = ground arith

  -- The successful answer of the drive to a firmware request, as its bytes stand in the mailbox: on
  -- a little endian host the first two data bytes are read as the module type, most significant
  -- first, and the next two as the major and the minor version; the answer to the request of the
  -- encoder ticks is read as a big endian number on either host. Both make the state succeed.
  pub react_mbx-answers :
      (ind : List ℕ) (origin a b e f : ℕ) (rest : List ℕ) (c : Context D)
      → AllBytes (a ∷ b ∷ e ∷ f ∷ [])
      → length ind ≡ 8
      → (react_mbx d little read_fw
            (read_mbx little ind (origin ∷ 0 ∷ 100 ∷ 136 ∷ a ∷ b ∷ e ∷ f ∷ rest))
            c
          ≡ (
            record c { module_type = 256 * a + b; firmware_major = e; firmware_minor = f },
            succeed,
          ))
        × ((host : Endianness)
            → react_mbx d host read_encoder_ticks
                (read_mbx host ind (origin ∷ 0 ∷ 100 ∷ 6 ∷ a ∷ b ∷ e ∷ f ∷ rest))
                c
              ≡ (record c { encoder_ticks = of_le_bytes (f ∷ e ∷ b ∷ a ∷ []) }, succeed))
  unfolding react_mbx
  react_mbx-answers ind origin a b e f rest c h hi = (
    rw (read_mbx-message little ind origin 0 100 136 a b e f rest hi)
        (ap (λ r. (r, succeed)) (firmware_fields c a b e f h)),
    λ host. rw (read_mbx-message host ind origin 0 100 6 a b e f rest hi) (
        ap (λ t. (record c { encoder_ticks = t }, succeed))
          (from_endian-memory host (a ∷ b ∷ e ∷ f ∷ []) h).0),
  )
