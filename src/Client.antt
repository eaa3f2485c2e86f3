-- ===== src/Client.antt =====
-- src/mqclient.cpp: what the client does, over the calls of the MQ library.
pub mod Exclusion
pub mod Queues
pub mod Headers
pub mod Mqi
pub mod State
pub mod Ends
pub mod Finishes
pub mod Buffers
pub mod Connection
pub mod Messages
pub mod Inquiries
pub mod Topics
pub mod Commands
pub mod Handles
