-- ===== src/Udp.antt =====
-- crates/common/src/udp.rs: frames cut into checksummed datagrams, and put together again.
pub mod Checksum
pub mod Chunk
pub mod Capacity
pub mod Split
pub mod Single
pub mod Reassembler
