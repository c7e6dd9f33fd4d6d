-- ===== src/Driver.antt =====
-- soem_driver/src/soem_driver.cpp: how the driver passes mailbox messages between the modules and the
-- master, and a command mode switch from the transmissions to the claims resolver.
pub mod Mailboxes
pub mod Modes
pub mod Urdf
pub mod Configure
pub mod Lifecycle
pub mod Export
pub mod Load
pub mod Views
pub mod Update
pub mod Diagnostics
pub mod Publisher
mod Tests
