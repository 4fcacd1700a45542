-- ===== src/Tests.antt =====
-- The theorems at concrete inputs, and runs of the definitions.
pub mod Samples
pub mod Protocol
pub mod Udp
pub mod Snapshot
pub mod Cache
pub mod Transport
pub mod UdpTransport
pub mod Client
pub mod Startup
pub mod Filter
pub mod Settings
pub mod Collector
pub mod Local
pub mod TcpClient
pub mod Announce
