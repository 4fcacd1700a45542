-- ===== src/Server/Announce/Found.antt =====
-- A client finds a server that announces itself.
use gpustat4cluster.Base.{
  ℕ, zero, suc, ◌+◌, ◌≤◌, ◌<◌, ◌≡◌, ◌≢◌, sym, subst, true, if◌then◌else◌, Option, none, some, List,
  [], ◌∷◌, length, take_all, All, arith, Bool-cases, Option-cases, inl, inr, ◌⊎◌,
}
use gpustat4cluster.Base.Bytes.{Bytes, bytes_eq}
use gpustat4cluster.Base.Text.{Text, text}
use gpustat4cluster.Base.Scan.{trim, to_ascii_lowercase}
use gpustat4cluster.Protocol.Discovery.{DiscoveryQuery, DiscoveryAnnounce}
use gpustat4cluster.Server.Announce.{
  Announcer, discovery_announce, announce_interfaces, announce_ip, announce_round,
  announce_attempts, announce_startup_once, answer_discovery_query,
}
use gpustat4cluster.Client.Filter.{Net}
use gpustat4cluster.Client.Cache.{DiscoveredNode}
use gpustat4cluster.Client.Discovery.{JsonValue, announced_port, parse_announce_for_protocol}

module _ (self : Announcer) (net : Net) (json : JsonValue) (read : Text → Option DiscoveryAnnounce)
    (now : ℕ) (src : net.IpAddr) (protocol : Text) where
  -- The node of the server, at the address that the message came from and its port of the protocol.
  abbrev pub server_node : DiscoveredNode net
  server_node = record {
    hostname = self.hostname;
    addr = (
      src,
      if bytes_eq (to_ascii_lowercase (trim protocol)) (text "tcp")
          then self.tcp_port
          else self.udp_port,
    );
    ts_ms = now;
  }

  abbrev pub IsFound : Bytes → Type 0
  IsFound msg = parse_announce_for_protocol net json read now msg src protocol ≡ some server_node

  announced-IsFound :
      (ip : Text) (msg : Bytes)
      → read msg ≡ some (discovery_announce self.hostname ip self.udp_port self.tcp_port)
      → IsFound msg
  unfolding parse_announce_for_protocol announced_port discovery_announce
  announced-IsFound ip msg e = ground arith

  module _
      (back : (a : DiscoveryAnnounce) (msg : Bytes)
        → self.to_vec a ≡ some msg
        → read msg ≡ some a) where
    announce_round-IsFound :
        (attempt : ℕ) (interfaces : List (Option self.Ipv4Addr))
        → All IsFound (announce_round self attempt interfaces).0
    unfolding announce_round
    announce_round-IsFound attempt [] = tt
    announce_round-IsFound attempt (i ∷ is) =
        let a = discovery_announce self.hostname (announce_ip self i) self.udp_port self.tcp_port in
        let later = announce_round-IsFound attempt is in
        let whole = (announce_round self attempt (i ∷ is)).0 in
        let rest = (announce_round self attempt is).0 in
        elim (Option-cases (self.to_vec a)) [
          | inl e ↦ let shown : whole ≡ [] = ground arith in subst (All IsFound) (sym shown) tt
          | inr (msg, e) ↦
              let split : (whole ≡ msg ∷ rest) ⊎ (whole ≡ rest) = ground arith in
              elim split [
                | inl f ↦
                    subst (All IsFound) (sym f)
                      (announced-IsFound (announce_ip self i) msg (back a msg e), later)
                | inr f ↦ subst (All IsFound) (sym f) later
              ]
        ]

    announce_attempts-IsFound :
        (left attempt : ℕ) (interfaces : List (Option self.Ipv4Addr))
        → All IsFound (announce_attempts self left attempt interfaces)
    unfolding announce_attempts
    announce_attempts-IsFound zero attempt interfaces = tt
    announce_attempts-IsFound (suc left) attempt interfaces =
        let split : (announce_attempts self (suc left) attempt interfaces
              ≡ (announce_round self attempt interfaces).0)
            ⊎ (announce_attempts self (suc left) attempt interfaces
                ≡ announce_attempts self left (attempt + 1) interfaces) =
          ground arith in
        elim split [
          | inl e ↦ subst (All IsFound) (sym e) (announce_round-IsFound attempt interfaces)
          | inr e ↦
              subst (All IsFound) (sym e) (announce_attempts-IsFound left (attempt + 1) interfaces)
        ]

    -- Where the client reads back each announcement that the server can encode: a server whose
    -- announcement can be encoded answers a query of at most 2048 bytes that it can read with that
    -- announcement, and from it, and from each message of the start-up announcement, the client
    -- makes the node with the server's hostname, the address that the message came from, and the
    -- server's port of the client's protocol.
    pub answer_discovery_query-IsFound :
        (retry_limit : ℕ) (ips : List self.Ipv4Addr) (datagram : Bytes) (q : DiscoveryQuery)
        (msg : Bytes)
        → length datagram ≤ 2048
        → self.from_slice datagram ≡ some q
        → self.to_vec (discovery_announce self.hostname self.ip self.udp_port self.tcp_port)
          ≡ some msg
        → (answer_discovery_query self datagram ≡ some msg)
          × IsFound msg
          × All IsFound (announce_startup_once self retry_limit ips)
    unfolding answer_discovery_query announce_startup_once
    answer_discovery_query-IsFound retry_limit ips datagram q msg fits query encoded = (
      ground (arith, take_all 2048 datagram fits),
      announced-IsFound self.ip msg (back _ msg encoded),
      announce_attempts-IsFound retry_limit 1 (announce_interfaces self ips),
    )

module _ (self : Announcer) (msg : Bytes)
    (encoded : self.to_vec (discovery_announce self.hostname self.ip self.udp_port self.tcp_port)
      ≡ some msg) where
  -- Without outbound addresses, the server announces itself if a send succeeds in some attempt.
  announce_attempts_sends :
      (left attempt k : ℕ)
      → attempt ≤ k
      → k < attempt + left
      → self.is_sent k none ≡ true
      → announce_attempts self left attempt (none ∷ []) ≢ []
  unfolding announce_attempts announce_round announce_ip
  announce_attempts_sends zero attempt k low high sent = absurd (omega arith)
  announce_attempts_sends (suc left) attempt k low high sent = λ h.
      elim (Bool-cases (self.is_sent attempt none)) [
        | inl e ↦ absurd (ground arith)
        | inr e ↦
            let later : announce_attempts self left (attempt + 1) (none ∷ []) ≡ [] = ground arith in
            let next : attempt ≢ k = λ eq. absurd (ground arith) in
            announce_attempts_sends left (attempt + 1) k (omega arith) (omega arith) sent later
      ]
