-- ===== src/Server/Startup.antt =====
-- crates/server/src/main.rs: the check of the configuration at start-up. Errors are their codes,
-- without the texts; the resolver of addresses and the parser of IPv4 addresses are parameters.
pub mod LogSize
pub mod Valid
use gpustat4cluster.Base.{
  ℕ, ◌+◌, ◌*◌, ◌^◌, ltb, ◌==◌, not, if◌then◌else◌, Bool, true, false, ◌&&◌, ◌||◌, Option, none,
  some, List, [], ◌∷◌, ◌++◌, Result, ok, err, ◌>>=◌, map, filter,
}
use gpustat4cluster.Base.Bytes.{bytes_eq}
use gpustat4cluster.Base.Text.{Text, text}
use gpustat4cluster.Base.Scan.{is_empty, is_digit, is_member, trim, to_ascii_lowercase}
use gpustat4cluster.Base.Scan.Digits.{parse_uint}
use gpustat4cluster.Config.{Config}
use gpustat4cluster.ErrorCode.{ErrorCode, config_invalid, multicast_failed}
use gpustat4cluster.Server.Ports.{validate_port_range}

unfoldable pub validate_protocol : Text → Result (Unit {0}) ErrorCode
validate_protocol raw =
    if is_member (to_ascii_lowercase (trim raw)) (text "udp" ∷ text "tcp" ∷ [])
    then ok tt
    else err config_invalid

unfoldable pub validate_positive : ℕ → Result (Unit {0}) ErrorCode
validate_positive value = if value == 0 then err config_invalid else ok tt

-- `find(|ch| !ch.is_ascii_digit())` and `split_at`
unfoldable pub split_digits : Text → Text × Text
split_digits [] = ([], [])
split_digits (c ∷ t) =
    let (number, unit) = split_digits t in if is_digit c then (c ∷ number, unit) else ([], c ∷ t)

unfoldable pub multiplier : Text → Option ℕ
multiplier unit =
    if is_member unit ([] ∷ text "b" ∷ [])
    then some 1
    else if is_member unit (text "kb" ∷ text "kib" ∷ [])
    then some 1024
    else if is_member unit (text "mb" ∷ text "mib" ∷ [])
    then some (1024 * 1024)
    else if is_member unit (text "gb" ∷ text "gib" ∷ [])
    then some (1024 * 1024 * 1024)
    else none

-- `value.checked_mul(multiplier)`
unfoldable pub checked_mul : ℕ → ℕ → Option ℕ
checked_mul value times = if ltb (value * times) (2 ^ 64) then some (value * times) else none

-- The number is `value`, not zero; the unit follows.
unfoldable pub scale : ℕ → Text → Result ℕ ErrorCode
unfolding multiplier checked_mul
scale value unit = elim (multiplier (to_ascii_lowercase (trim unit))) [
  | none ↦ err config_invalid
  | some times ↦ elim (checked_mul value times) [
    | none ↦ err config_invalid
    | some bytes ↦ ok bytes
  ]
]

unfoldable pub parse_log_size_bytes : Text → Result ℕ ErrorCode
unfolding split_digits scale
parse_log_size_bytes raw =
    let trimmed = trim raw in
    let (number, unit) = split_digits trimmed in
    if is_empty trimmed
    then err config_invalid
    else if is_empty number
    then err config_invalid
    else elim (parse_uint (2 ^ 64) number) [
      | none ↦ err config_invalid
      | some value ↦ if value == 0 then err config_invalid else scale value unit
    ]

pub record Resolver : Type 1 where
  pub SocketAddr : Type 0
  pub Ipv4Addr : Type 0
  pub to_socket_addrs : Text → Option (List SocketAddr)
  pub is_multicast : SocketAddr → Bool
  pub parse_ipv4 : Text → Option Ipv4Addr

module _ (net : Resolver) where
  unfoldable pub validate_multicast_addr : Text → Result net.SocketAddr ErrorCode
  validate_multicast_addr raw = elim (net.to_socket_addrs raw) [
    | none ↦ err multicast_failed
    | some addrs ↦ elim addrs [
      | [] ↦ err multicast_failed
      | addr ∷ others ↦ if not (net.is_multicast addr) then err multicast_failed else ok addr
    ]
  ]

  unfoldable pub parse_ips : List Text → Result (List net.Ipv4Addr) ErrorCode
  parse_ips [] = ok []
  parse_ips (item ∷ items) =
      let others = parse_ips items in
      elim (net.parse_ipv4 item) [
        | none ↦ err config_invalid
        | some ip ↦ others >>= λ ips. ok (ip ∷ ips)
      ]

  unfoldable pub validate_multicast_outbound_ips : List Text → Result (List net.Ipv4Addr) ErrorCode
  unfolding parse_ips
  validate_multicast_outbound_ips raw =
      parse_ips (filter (λ item. not (is_empty item)) (map trim raw))

  unfoldable pub validate_config : Config → Result (Unit {0}) ErrorCode
  validate_config config = validate_port_range config.connecting.port_range >>= λ ports.
      validate_multicast_addr config.connecting.multicast_addr >>= λ addr.
      validate_protocol config.connecting.protocol >>= λ protocol.
      validate_positive config.services.cache_ttl_ms >>= λ ttl.
      validate_positive config.services.collector_interval_ms >>= λ interval.
      validate_positive config.connecting.heartbeat_interval >>= λ heartbeat.
      validate_positive config.connecting.connection_idle_timeout >>= λ idle.
      validate_positive config.connecting.max_connections >>= λ connections.
      validate_positive config.connecting.discover_wait_secs >>= λ wait.
      validate_positive config.connecting.multicast_retry_limit >>= λ retry.
      validate_multicast_outbound_ips config.connecting.multicast_outbound_ip >>= λ ips.
      parse_log_size_bytes config.log.max_size >>= λ size. ok tt
