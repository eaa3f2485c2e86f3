-- ===== src/Pcf.antt =====
-- src/pcf_parser.cpp and include/ibmmq_exporter/pcf_parser.h: the parser of PCF messages.
pub mod Constants
pub mod Parser
pub mod Records
pub mod Fold
pub mod Mqi
pub mod Queue
pub mod Channel
pub mod Message
