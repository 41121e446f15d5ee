-- ===== src/Download.antt =====
-- The download manager of src/core/download_manager.cpp.
pub mod Name
pub mod Encoding
pub mod Cut
pub mod Safe
pub mod Target
pub mod Suffixes
pub mod Unique
pub mod Queue
pub mod Tests
