-- ===== src/Trinamic/Tmcl.antt =====
-- soem_modules_trinamic/tmcl.hpp: the command numbers and status codes of TMCL.
use soem_driver_ros.Base.{ℕ}

pub data Command : Type 0 where
  ror rol mst mvp sap gap stap rsap sgp ggp stgp rsgp rfs sio gio sco gco cco : Command
  appl_stop appl_run appl_reset firmware_version factory_reset : Command

abbrev pub command_code : Command → ℕ
command_code ror = 1
command_code rol = 2
command_code mst = 3
command_code mvp = 4
command_code sap = 5
command_code gap = 6
command_code stap = 7
command_code rsap = 8
command_code sgp = 9
command_code ggp = 10
command_code stgp = 11
command_code rsgp = 12
command_code rfs = 13
command_code sio = 14
command_code gio = 15
command_code sco = 30
command_code gco = 31
command_code cco = 32
command_code appl_stop = 128
command_code appl_run = 129
command_code appl_reset = 131
command_code firmware_version = 136
command_code factory_reset = 137

pub data Status : Type 0 where
  success command_loaded checksum_error invalid_command wrong_type invalid_value : Status
  eeprom_locked command_not_available parameter_password_protected : Status

abbrev pub status_code : Status → ℕ
status_code success = 100
status_code command_loaded = 101
status_code checksum_error = 1
status_code invalid_command = 2
status_code wrong_type = 3
status_code invalid_value = 4
status_code eeprom_locked = 5
status_code command_not_available = 6
status_code parameter_password_protected = 8
