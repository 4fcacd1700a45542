-- ===== src/Server/Startup/Valid.antt =====
-- The configurations that start-up accepts.
use gpustat4cluster.Base.{
  ℕ, ◌≤◌, ◌<◌, ◌≡◌, ◌↔◌, refl, not, true, some, List, [], ◌∷◌, Result, ok, err, ◌>>=◌, All, map,
  filter, arith, Option-cases, Result-cases, Bool-cases, inl, inr,
}
use gpustat4cluster.Base.Text.{Text, text}
use gpustat4cluster.Base.Scan.{is_empty, is_some, is_member, trim, to_ascii_lowercase}
use gpustat4cluster.Config.{Config}
use gpustat4cluster.ErrorCode.{ErrorCode}
use gpustat4cluster.Server.Ports.{validate_port_range}
use gpustat4cluster.Server.Startup.{
  validate_protocol, validate_positive, parse_log_size_bytes, Resolver, validate_multicast_addr,
  parse_ips, validate_multicast_outbound_ips, validate_config,
}

module _ (net : Resolver) where
  -- The first address that the name of the multicast group is resolved to is a multicast one.
  abbrev pub IsGroup : Text → Type 0
  IsGroup raw =
      (addr : net.SocketAddr) × (others : List net.SocketAddr) × (net.to_socket_addrs raw
        ≡ some (addr ∷ others))
      × (net.is_multicast addr ≡ true)

  abbrev pub IsIpv4 : Text → Type 0
  IsIpv4 t = is_some (net.parse_ipv4 t) ≡ true

  abbrev pub IsRunnable : Config → Type 0
  IsRunnable c =
      (0 < c.connecting.port_range.0)
      × (c.connecting.port_range.0 ≤ c.connecting.port_range.1)
      × IsGroup c.connecting.multicast_addr
      × (is_member (to_ascii_lowercase (trim c.connecting.protocol)) (text "udp" ∷ text "tcp" ∷ [])
          ≡ true)
      × (0 < c.services.cache_ttl_ms)
      × (0 < c.services.collector_interval_ms)
      × (0 < c.connecting.heartbeat_interval)
      × (0 < c.connecting.connection_idle_timeout)
      × (0 < c.connecting.max_connections)
      × (0 < c.connecting.discover_wait_secs)
      × (0 < c.connecting.multicast_retry_limit)
      × All IsIpv4
          (filter (λ item. not (is_empty item)) (map trim c.connecting.multicast_outbound_ip))
      × ((size : ℕ) × (parse_log_size_bytes c.log.max_size ≡ ok size))

  validate_multicast_addr-IsGroup :
      (raw : Text) (addr : net.SocketAddr) → validate_multicast_addr net raw ≡ ok addr → IsGroup raw
  unfolding validate_multicast_addr
  validate_multicast_addr-IsGroup raw addr h = elim (Option-cases (net.to_socket_addrs raw)) [
    | inl e ↦ absurd (ground arith)
    | inr ([], e) ↦ absurd (ground arith)
    | inr (first ∷ others, e) ↦ (first, others, e, ground arith)
  ]

  parse_ips-All :
      (items : List Text) (ips : List net.Ipv4Addr)
      → parse_ips net items ≡ ok ips
      → All IsIpv4 items
  unfolding parse_ips
  parse_ips-All [] ips h = tt
  parse_ips-All (item ∷ items) ips h = elim (Option-cases (net.parse_ipv4 item)) [
    | inl e ↦ absurd (ground arith)
    | inr (ip, e) ↦ elim (Result-cases (parse_ips net items)) [
      | inl (rest, f) ↦ (rw e refl, parse_ips-All items rest f)
      | inr (x, f) ↦ absurd (ground arith)
    ]
  ]

  -- The first failing step gives the error; all steps passed give what each asks for.
  step {ℓ} :
      {A : Type ℓ} {B : Type 0} (r : Result A ErrorCode) (f : A → Result B ErrorCode) (b : B)
      → (r >>= f) ≡ ok b
      → (a : A) × (r ≡ ok a) × (f a ≡ ok b)
  step (ok a) f b h = (a, refl, h)
  step (err e) f b h = cc

  positive : (v : ℕ) (u : Unit {0}) → validate_positive v ≡ ok u → 0 < v
  unfolding validate_positive
  positive v u h = ground arith

  ports_ordered :
      (range : ℕ × ℕ) (u : Unit {0})
      → validate_port_range range ≡ ok u
      → (0 < range.0) × (range.0 ≤ range.1)
  unfolding validate_port_range
  ports_ordered range u h = ground arith

  known_protocol :
      (raw : Text) (u : Unit {0})
      → validate_protocol raw ≡ ok u
      → is_member (to_ascii_lowercase (trim raw)) (text "udp" ∷ text "tcp" ∷ []) ≡ true
  unfolding validate_protocol
  known_protocol raw u h =
      elim (Bool-cases (is_member (to_ascii_lowercase (trim raw)) (text "udp" ∷ text "tcp" ∷ []))) [
        | inl e ↦ e
        | inr e ↦ absurd (ground arith)
      ]

  pub validate_config-IsRunnable : (c : Config) → validate_config net c ≡ ok tt → IsRunnable c
  unfolding validate_config validate_multicast_outbound_ips
  validate_config-IsRunnable c h =
      let (a1, e1, h1) = step _ _ tt h in
      let (a2, e2, h2) = step _ _ tt h1 in
      let (a3, e3, h3) = step _ _ tt h2 in
      let (a4, e4, h4) = step _ _ tt h3 in
      let (a5, e5, h5) = step _ _ tt h4 in
      let (a6, e6, h6) = step _ _ tt h5 in
      let (a7, e7, h7) = step _ _ tt h6 in
      let (a8, e8, h8) = step _ _ tt h7 in
      let (a9, e9, h9) = step _ _ tt h8 in
      let (a10, e10, h10) = step _ _ tt h9 in
      let (a11, e11, h11) = step _ _ tt h10 in
      let (a12, e12, h12) = step _ _ tt h11 in
      let (low, ordered) = ports_ordered c.connecting.port_range a1 e1 in
      (
        low,
        ordered,
        validate_multicast_addr-IsGroup c.connecting.multicast_addr a2 e2,
        known_protocol c.connecting.protocol a3 e3,
        positive _ a4 e4,
        positive _ a5 e5,
        positive _ a6 e6,
        positive _ a7 e7,
        positive _ a8 e8,
        positive _ a9 e9,
        positive _ a10 e10,
        parse_ips-All _ a11 e11,
        (a12, e12),
      )

  ips_of :
      (items : List Text)
      → All IsIpv4 items
      → (ips : List net.Ipv4Addr) × (parse_ips net items ≡ ok ips)
  unfolding parse_ips
  ips_of [] all = ([], refl)
  ips_of (item ∷ items) all = elim (Option-cases (net.parse_ipv4 item)) [
    | inl e ↦ absurd (ground (arith, all.0))
    | inr (ip, e) ↦ let (rest, f) = ips_of items all.1 in (ip ∷ rest, ground arith)
  ]

  positive_ok : (v : ℕ) → 0 < v → validate_positive v ≡ ok tt
  unfolding validate_positive
  positive_ok v h = ground arith

  ports_ok : (range : ℕ × ℕ) → 0 < range.0 → range.0 ≤ range.1 → validate_port_range range ≡ ok tt
  unfolding validate_port_range
  ports_ok range low ordered = ground arith

  protocol_ok :
      (raw : Text)
      → is_member (to_ascii_lowercase (trim raw)) (text "udp" ∷ text "tcp" ∷ []) ≡ true
      → validate_protocol raw ≡ ok tt
  unfolding validate_protocol
  protocol_ok raw h = rw h refl

  group_ok :
      (raw : Text) (addr : net.SocketAddr) (others : List net.SocketAddr)
      → net.to_socket_addrs raw ≡ some (addr ∷ others)
      → net.is_multicast addr ≡ true
      → validate_multicast_addr net raw ≡ ok addr
  unfolding validate_multicast_addr
  group_ok raw addr others e h = ground arith

  bind_ok {ℓ} :
      {A : Type ℓ} {B : Type 0} (r : Result A ErrorCode) (f : A → Result B ErrorCode) (a : A)
      (b : B)
      → r ≡ ok a
      → f a ≡ ok b
      → (r >>= f) ≡ ok b
  bind_ok r f a b e h = rw e h

  IsRunnable-validate_config : (c : Config) → IsRunnable c → validate_config net c ≡ ok tt
  unfolding validate_config validate_multicast_outbound_ips
  IsRunnable-validate_config c r =
      let (addr, others, found, multicast) = r.2 in
      let (ips, parsed) = ips_of _ r.11 in
      let (size, sized) = r.12 in
      bind_ok _ _ tt tt (ports_ok c.connecting.port_range r.0 r.1) (
        bind_ok _ _ addr tt (group_ok c.connecting.multicast_addr addr others found multicast) (
          bind_ok _ _ tt tt (protocol_ok c.connecting.protocol r.3) (
            bind_ok _ _ tt tt (positive_ok _ r.4) (
              bind_ok _ _ tt tt (positive_ok _ r.5) (
                bind_ok _ _ tt tt (positive_ok _ r.6) (
                  bind_ok _ _ tt tt (positive_ok _ r.7) (
                    bind_ok _ _ tt tt (positive_ok _ r.8) (
                      bind_ok _ _ tt tt (positive_ok _ r.9) (
                        bind_ok _ _ tt tt (positive_ok _ r.10)
                          (bind_ok _ _ ips tt parsed (bind_ok _ _ size tt sized refl)))))))))))

  -- A configuration passes start-up's check exactly if its port range is in order and starts above
  -- 0, its multicast address is resolved and the first result is a multicast address, its protocol
  -- is udp or tcp up to case and space, its times, its connection limit and its retry limit are
  -- above 0, its outbound addresses are IPv4 addresses, where they are not blank, and its log size
  -- can be read.
  pub validate_config_lem : (c : Config) → (validate_config net c ≡ ok tt) ↔ IsRunnable c
  validate_config_lem c = (validate_config-IsRunnable c, IsRunnable-validate_config c)
