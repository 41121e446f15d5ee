-- ===== src/Network.antt =====
-- The control of the network of src/core/network_manager.cpp.
pub mod Terse
pub mod Connect
pub mod Attempt
pub mod Scan
pub mod Profiles
pub mod Hotspot
pub mod Tests
