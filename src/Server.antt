-- ===== src/Server.antt =====
-- crates/server: the snapshot cache, the summary of a snapshot, and the request handlers.
pub mod Collector
pub mod Summary
pub mod Cache
pub mod Transport
pub mod Startup
pub mod Ports
pub mod Announce
pub mod TcpStream
pub mod UdpTransport
