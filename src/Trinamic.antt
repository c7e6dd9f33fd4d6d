-- ===== src/Trinamic.antt =====
-- soem_slave_modules/soem_modules_trinamic: the slave module of the Trinamic TMCM-1610.
pub mod Endian
pub mod Modes
pub mod Log
pub mod Tmcl
pub mod Pdo
pub mod Doubles
pub mod States
pub mod Reactions
pub mod Module
pub mod Configure
mod Tests
