-- ===== src/Trinamic/Pdo.antt =====
-- TrinamicTMCM1610 (tmcm1610.cpp): process data and mailbox structs, and how they are copied to and
-- from the buffers. A packed struct is its bytes; the members stand in memory in the byte order of
-- the host. Bytes that the code leaves indeterminate are arguments.
pub mod Layout
use Prim.Native.Nat.{bit_and}
use soem_driver_ros.Base.{
  ℕ, ◌+◌, ◌*◌, ◌/◌, ◌%◌, min, List, [], ◌∷◌, ◌++◌, Bool, true, false, not, ◌==◌, length, take, drop,
}
use soem_driver_ros.Trinamic.Endian.{Endianness, to_memory, of_memory, from_big_endian}

-- EC_StatusFlags
pub data StatusFlag : Type 0 where
  over_current under_voltage over_voltage over_temperature motor_halted : StatusFlag
  hall_sensor_error encoder_error pwm_mode_active velocity_mode position_mode : StatusFlag
  torque_mode position_reached initialized ethercat_timeout i2t_exceeded : StatusFlag

abbrev pub flag_code : StatusFlag → ℕ
flag_code over_current = 0x1
flag_code under_voltage = 0x2
flag_code over_voltage = 0x4
flag_code over_temperature = 0x8
flag_code motor_halted = 0x10
flag_code hall_sensor_error = 0x20
flag_code encoder_error = 0x40
flag_code pwm_mode_active = 0x100
flag_code velocity_mode = 0x200
flag_code position_mode = 0x400
flag_code torque_mode = 0x800
flag_code position_reached = 0x4000
flag_code initialized = 0x8000
flag_code ethercat_timeout = 0x10000
flag_code i2t_exceeded = 0x20000

-- (bool)((uint32_t)flag & status_flags)
unfoldable pub has_flag : StatusFlag → ℕ → Bool
has_flag flag status_flags = not (bit_and (flag_code flag) status_flags == 0)

-- Numbers are bit patterns of their width: a setpoint is the pattern of an int32_t.
pub record RxPdo : Type 0 where
  pub setpoint : ℕ
  pub mode : ℕ

pub record TxPdo : Type 0 where
  pub position_ticks : ℕ
  pub current_ma : ℕ
  pub vel_rpm : ℕ
  pub status_flags : ℕ
  pub target_position_ticks : ℕ
  pub target_current_ma : ℕ
  pub target_vel_rpm : ℕ
  pub ramp_gen_vel_rpm : ℕ

pub record MbxSend : Type 0 where
  pub module_address : ℕ
  pub command : ℕ
  pub parameter : ℕ
  pub motor_bank : ℕ
  pub value : ℕ

pub record MbxReceive : Type 0 where
  pub origin_address : ℕ
  pub module_address : ℕ
  pub status : ℕ
  pub command : ℕ
  pub value : ℕ

-- std::copy_n(src.begin(), std::min(src.size(), dst.size()), dst.begin())
unfoldable pub copy_min : List ℕ → List ℕ → List ℕ
copy_min src dst = let n = min (length src) (length dst) in take n src ++ drop n dst

-- The 40 bytes of an RxPDO_t, with the 35 bytes of padding that nothing sets.
unfoldable pub rx_pdo_memory : Endianness → List ℕ → RxPdo → List ℕ
rx_pdo_memory host padding r = to_memory host 4 r.setpoint ++ r.mode ∷ padding

-- The copy at the end of each reaction to a write event.
unfoldable pub write_rx_pdo : Endianness → List ℕ → RxPdo → List ℕ → List ℕ
unfolding copy_min rx_pdo_memory
write_rx_pdo host padding r buffer = copy_min (rx_pdo_memory host padding r) buffer

-- The member of four bytes at an offset.
abbrev pub word_at : Endianness → ℕ → List ℕ → ℕ
word_at host offset bytes = of_memory host (take 4 (drop offset bytes))

abbrev pub first_byte : List ℕ → ℕ
first_byte [] = 0
first_byte (b ∷ bs) = b

-- The member of one byte at an offset.
abbrev pub byte_at : ℕ → List ℕ → ℕ
byte_at offset bytes = first_byte (drop offset bytes)

unfoldable pub tx_pdo_of_memory : Endianness → List ℕ → TxPdo
tx_pdo_of_memory host bytes = record {
  position_ticks = word_at host 0 bytes;
  current_ma = word_at host 4 bytes;
  vel_rpm = word_at host 8 bytes;
  status_flags = word_at host 12 bytes;
  target_position_ticks = word_at host 16 bytes;
  target_current_ma = word_at host 20 bytes;
  target_vel_rpm = word_at host 24 bytes;
  ramp_gen_vel_rpm = word_at host 28 bytes;
}

-- The copy at the start of read(); `indeterminate` is what the 40 bytes of the local hold before.
unfoldable pub read_tx_pdo : Endianness → List ℕ → List ℕ → TxPdo
unfolding copy_min tx_pdo_of_memory
read_tx_pdo host indeterminate buffer = tx_pdo_of_memory host (copy_min buffer indeterminate)

unfoldable pub mbx_send_memory : Endianness → MbxSend → List ℕ
mbx_send_memory host m =
    m.module_address ∷ m.command ∷ m.parameter ∷ m.motor_bank ∷ to_memory host 4 m.value

-- The copy of a mailbox message in read(), into 8 bytes that are indeterminate before.
unfoldable pub read_mbx : Endianness → List ℕ → List ℕ → MbxReceive
unfolding copy_min
read_mbx host indeterminate buffer =
    let bytes = copy_min buffer indeterminate in
    record {
      origin_address = byte_at 0 bytes;
      module_address = byte_at 1 bytes;
      status = byte_at 2 bytes;
      command = byte_at 3 bytes;
      value = word_at host 4 bytes;
    }
