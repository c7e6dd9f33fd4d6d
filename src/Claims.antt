-- ===== src/Claims.antt =====
-- soem_driver/src/claims_resolver.cpp and soem_driver/include/soem_driver/claims_resolver.hpp: the
-- class ECClaimsResolver.
pub mod Tokens
pub mod Resolve
pub mod Export
pub mod Switch
mod Tests
