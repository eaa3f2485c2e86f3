-- ===== src/Inquiry.antt =====
-- src/pcf_inquiry.cpp and include/ibmmq_exporter/pcf_inquiry.h: PCF commands and their responses.
pub mod Builder
pub mod Commands
pub mod Reader
pub mod Details
pub mod Safety
pub mod Handles
pub mod QueueOnline
pub mod UsagePs
pub mod UsageBp
pub mod ClusterQmgr
pub mod QmgrStatus
pub mod SubStatus
pub mod TopicStatus
pub mod ChannelStatus
