-- ===== src/Tests.antt =====
-- Runs of the definitions on concrete messages, and the theorems at concrete inputs.
pub mod PcfTests
pub mod InquiryTests
pub mod MonitorTests
pub mod ClientTests
pub mod MqiTests
pub mod CommandTests
pub mod CollectTests
pub mod ConfigTests
pub mod CollectorTests
pub mod MetricsTests
