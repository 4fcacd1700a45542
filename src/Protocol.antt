-- ===== src/Protocol.antt =====
-- crates/common/src/protocol.rs, one module for each part.
pub mod FrameType
pub mod Header
pub mod Frame
pub mod Version
pub mod Payload
pub mod Discovery
