-- ===== src/Client.antt =====
-- crates/client-backend: what a client sends, and what it makes of the answers.
pub mod Filter
pub mod Transport
pub mod Cache
pub mod Discovery
pub mod Adapter
pub mod LocalApi
pub mod UdpClient
pub mod TcpClient
