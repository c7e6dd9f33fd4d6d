-- ===== src/Driver/Urdf.antt =====
-- The parsing of the URDF in soem_driver/src/soem_driver.cpp: the hardware of the driver, the slaves
-- with their parameters, and the claims of the joints.
pub mod Xml
pub mod Parser
pub mod Hardware
pub mod Slaves
pub mod Joints
pub mod Info
pub mod Tests
