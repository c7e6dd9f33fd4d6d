-- ===== src/Master.antt =====
-- soem_driver/src/soem_master.cpp and soem_driver/include/soem_driver/soem_master.hpp: what the cyclic
-- task of SOEMMaster keeps and does in one cycle. SOEM is not in the repository: its answers in a
-- cycle are the input of the cycle.
pub mod Mailboxes
pub mod Cycle
pub mod Bus
pub mod Setup
pub mod Threads
mod Tests
