-- ===== src/Protocol/Discovery.antt =====
-- crates/common/src/protocol.rs: what a client asks and what a server announces to find each other.
use gpustat4cluster.Base.{ℕ, Bool, Option}
use gpustat4cluster.Base.Text.{Text}

pub record DiscoveryQuery : Type 0 where
  pub version : ℕ

pub record DiscoveryAnnounce : Type 0 where
  pub version : ℕ
  pub hostname : Text
  pub ip : Text
  pub port : ℕ
  pub tcp_port : Option ℕ
  pub kcp_port : Option ℕ
  pub udp_port : Option ℕ
  pub ttl : Option ℕ
  pub load : Option ℕ
  pub degraded : Option Bool
