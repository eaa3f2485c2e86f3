-- ===== src/Config.antt =====
-- src/config.cpp and include/ibmmq_exporter/config.h: the configuration.
pub mod Records
pub mod Connection
pub mod Duration
pub mod Sections
pub mod Load
pub mod Overrides
pub mod Validate
