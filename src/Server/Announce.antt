-- ===== src/Server/Announce.antt =====
-- crates/server/src/main.rs: how a server makes itself known, at start-up and in answer to a query.
-- The outcome of each send, serde_json and the printer of addresses are parameters.
pub mod Found
use gpustat4cluster.Base.{
  ℕ, zero, suc, ◌+◌, ◌<◌, if◌then◌else◌, Bool, true, false, Option, none, some, List, [], ◌∷◌, map,
  take,
}
use gpustat4cluster.Base.Bytes.{Bytes}
use gpustat4cluster.Base.Text.{Text}
use gpustat4cluster.Protocol.Header.{protocol_version}
use gpustat4cluster.Protocol.Discovery.{DiscoveryQuery, DiscoveryAnnounce}

unfoldable pub discovery_announce : Text → Text → ℕ → ℕ → DiscoveryAnnounce
discovery_announce hostname ip udp_port tcp_port = record {
  version = protocol_version;
  hostname = hostname;
  ip = ip;
  port = udp_port;
  tcp_port = some tcp_port;
  udp_port = some udp_port;
  kcp_port = none;
  ttl = none;
  load = none;
  degraded = some false;
}

-- What a server knows of itself, with `serde_json` of what it writes and reads. A socket that cannot
-- be bound sends nothing.
pub record Announcer : Type 1 where
  pub Ipv4Addr : Type 0
  pub print_ip : Ipv4Addr → Text
  pub hostname : Text
  pub ip : Text
  pub udp_port : ℕ
  pub tcp_port : ℕ
  pub to_vec : DiscoveryAnnounce → Option Bytes
  pub from_slice : Bytes → Option DiscoveryQuery
  pub is_sent : ℕ → Option Ipv4Addr → Bool

module _ (self : Announcer) where
  unfoldable pub announce_interfaces : List self.Ipv4Addr → List (Option self.Ipv4Addr)
  announce_interfaces [] = none ∷ []
  announce_interfaces (ip ∷ ips) = map (λ ip. some ip) (ip ∷ ips)

  unfoldable pub announce_ip : Option self.Ipv4Addr → Text
  announce_ip none = self.ip
  announce_ip (some ip) = self.print_ip ip

  -- The loop over the interfaces: the messages that are sent, and whether an announcement could not
  -- be encoded, which ends the start-up announcement.
  unfoldable pub announce_round : ℕ → List (Option self.Ipv4Addr) → List Bytes × Bool
  unfolding announce_ip discovery_announce
  announce_round attempt [] = ([], false)
  announce_round attempt (interface ∷ interfaces) =
      let (later, failed) = announce_round attempt interfaces in
      elim (self.to_vec
        (discovery_announce self.hostname (announce_ip interface) self.udp_port self.tcp_port)) [
          | none ↦ ([], true)
          | some msg ↦ (if self.is_sent attempt interface then msg ∷ later else later, failed)
        ]

  -- The attempts from `attempt` on, while none has sent a message.
  unfoldable pub announce_attempts : ℕ → ℕ → List (Option self.Ipv4Addr) → List Bytes
  unfolding announce_round
  announce_attempts zero attempt interfaces = []
  announce_attempts (suc left) attempt interfaces =
      let later = announce_attempts left (attempt + 1) interfaces in
      let (sent, failed) = announce_round attempt interfaces in
      if failed then sent else elim sent [ [] ↦ later | msg ∷ msgs ↦ msg ∷ msgs ]

  unfoldable pub announce_startup_once : ℕ → List self.Ipv4Addr → List Bytes
  unfolding announce_interfaces announce_attempts
  announce_startup_once retry_limit multicast_outbound_ip =
      announce_attempts retry_limit 1 (announce_interfaces multicast_outbound_ip)

  -- The answer of `discovery_query_loop` to one datagram, of which it takes 2048 bytes.
  unfoldable pub answer_discovery_query : Bytes → Option Bytes
  unfolding discovery_announce
  answer_discovery_query datagram = elim (self.from_slice (take 2048 datagram)) [
    | none ↦ none
    | some query ↦
        self.to_vec (discovery_announce self.hostname self.ip self.udp_port self.tcp_port)
  ]
