-- ===== src/Monitor.antt =====
-- src/resource_monitor.cpp and include/ibmmq_exporter/resource_monitor.h: metrics from the
-- publications of system topics.
pub mod Params
pub mod Names
pub mod Records
pub mod Discovery
pub mod Subscriptions
pub mod Publications
