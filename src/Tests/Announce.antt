-- ===== src/Tests/Announce.antt =====
-- A server that is found, at concrete inputs.
use gpustat4cluster.Base.{
  ℕ, ◌≡◌, refl, Bool, true, false, Option, none, some, [], ◌∷◌, ◌++◌, length, take, drop,
  take-append, drop-append, All, arith,
}
use gpustat4cluster.Base.Bytes.{Bytes}
use gpustat4cluster.Base.Text.{Text, text}
use gpustat4cluster.Protocol.Discovery.{DiscoveryAnnounce}
use gpustat4cluster.Server.Announce.{
  Announcer, discovery_announce, answer_discovery_query, announce_startup_once,
}
use gpustat4cluster.Server.Announce.Found.{IsFound, answer_discovery_query-IsFound}
use gpustat4cluster.Client.Filter.{Net}
use gpustat4cluster.Client.Discovery.{JsonValue}

-- Entries stand for bytes of any size here.
abbrev announce_to :
    ℕ
    → Text
    → Text
    → ℕ
    → Option ℕ
    → Option ℕ
    → Option ℕ
    → Option ℕ
    → Option ℕ
    → Option Bool
    → Option Bytes
announce_to version hostname ip port (some tcp) none (some udp) none none (some false) =
    some (version ∷ port ∷ tcp ∷ udp ∷ length hostname ∷ (hostname ++ ip))
announce_to _ _ _ _ _ _ _ _ _ _ = none

abbrev announce_from : Text → Option DiscoveryAnnounce
announce_from (version ∷ port ∷ tcp ∷ udp ∷ len ∷ rest) = some (record {
  version = version;
  hostname = take len rest;
  ip = drop len rest;
  port = port;
  tcp_port = some tcp;
  kcp_port = none;
  udp_port = some udp;
  ttl = none;
  load = none;
  degraded = some false;
})
announce_from _ = none

abbrev announce_vec : DiscoveryAnnounce → Option Bytes
announce_vec a =
    announce_to a.version a.hostname a.ip a.port a.tcp_port a.kcp_port a.udp_port a.ttl a.load
      a.degraded

announce_back :
    (version : ℕ) (hostname ip : Text) (port : ℕ) (tcp kcp udp ttl load : Option ℕ)
    (degraded : Option Bool) (msg : Bytes)
    → announce_to version hostname ip port tcp kcp udp ttl load degraded ≡ some msg
    → announce_from msg
      ≡ some (record {
        version = version;
        hostname = hostname;
        ip = ip;
        port = port;
        tcp_port = tcp;
        kcp_port = kcp;
        udp_port = udp;
        ttl = ttl;
        load = load;
        degraded = degraded;
      })
announce_back version hostname ip port (some tcp) none (some udp) none none (some false) msg e =
    ground (
      arith,
      take-append (length hostname) hostname ip refl,
      drop-append (length hostname) hostname ip refl,
    )
announce_back version hostname ip port none kcp udp ttl load degraded msg e = absurd (ground arith)
announce_back version hostname ip port (some tcp) (some kcp) udp ttl load degraded msg e =
    absurd (ground arith)
announce_back version hostname ip port (some tcp) none none ttl load degraded msg e =
    absurd (ground arith)
announce_back version hostname ip port (some tcp) none (some udp) (some ttl) load degraded msg e =
    absurd (ground arith)
announce_back version hostname ip port (some tcp) none (some udp) none (some load) degraded msg e =
    absurd (ground arith)
announce_back version hostname ip port (some tcp) none (some udp) none none none msg e =
    absurd (ground arith)
announce_back version hostname ip port (some tcp) none (some udp) none none (some true) msg e =
    absurd (ground arith)

-- A server with one address.
abbrev announcer : Announcer
announcer = record {
  Ipv4Addr = ℕ;
  print_ip = λ ip. ip ∷ [];
  hostname = text "n1";
  ip = text "10.0.0.1";
  udp_port = 4001;
  tcp_port = 4000;
  to_vec = announce_vec;
  from_slice = λ bytes. some (record { version = 1 });
  is_sent = λ attempt interface. true;
}

abbrev addresses : Net
addresses = record {
  IpAddr = ℕ;
  ip_eq = λ a b. true;
  parse_ip = λ t. none;
  parse_socket_addr = λ t. none;
  ip_to_string = λ ip. [];
  socket_addr_to_string = λ addr. [];
}

abbrev no_json : JsonValue
no_json = record {
  Value = ℕ;
  parse = λ t. none;
  get_field = λ v t. none;
  as_str = λ v. none;
  as_u64 = λ v. none;
  as_bool = λ v. none;
  as_array = λ v. none;
}

abbrev announced : Bytes
announced = 1 ∷ 4001 ∷ 4000 ∷ 4001 ∷ 2 ∷ text "n110.0.0.1"

answer_discovery_query-IsFound_example :
    (answer_discovery_query announcer (7 ∷ []) ≡ some announced)
    × IsFound announcer addresses no_json announce_from 9 5 (text "TCP ") announced
    × All
        (IsFound announcer addresses no_json announce_from 9 5 (text "TCP "))
        (announce_startup_once announcer 3 (6 ∷ 7 ∷ []))
answer_discovery_query-IsFound_example =
    answer_discovery_query-IsFound announcer addresses no_json announce_from 9 5 (text "TCP ")
      (λ a msg e.
        announce_back a.version a.hostname a.ip a.port a.tcp_port a.kcp_port a.udp_port a.ttl a.load
          a.degraded msg e)
      3 (6 ∷ 7 ∷ []) (7 ∷ []) (record { version = 1 }) announced (omega arith) refl
      (unfold discovery_announce in refl)
