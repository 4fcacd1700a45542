-- ===== src/Udp/Capacity.antt =====
-- crates/common/src/udp.rs: the payload limit towards a peer.
use gpustat4cluster.Base.{
  ℕ, ◌+◌, ◌-◌, ◌≤◌, Bool, true, false, Option, none, some, max, ltb, if◌then◌else◌, arith,
}
use gpustat4cluster.Udp.Chunk.{udp_chunk_header_len, udp_min_payload}

abbrev pub udp_fallback_mtu : ℕ
udp_fallback_mtu = 1200

-- The route MTU that `detect_route_mtu` found is an argument; `saturating_sub` is `-`.
unfoldable pub effective_udp_payload_capacity : Bool → Option ℕ → ℕ → ℕ
effective_udp_payload_capacity is_ipv4 route_mtu configured_mtu =
    let detected : ℕ = elim route_mtu [ none ↦ udp_fallback_mtu | some found ↦ found ] in
    let mtu = if ltb 0 configured_mtu then configured_mtu else detected in
    let ip_header = if is_ipv4 then 20 else 40 in
    max (mtu - (ip_header + 8 + udp_chunk_header_len)) udp_min_payload

-- A datagram with a payload of the limit fits the configured MTU, the IP and UDP headers included,
-- for an MTU of at least 336 bytes, and the limit is at least 256 bytes.
pub effective_udp_payload_capacity_lem :
    (is_ipv4 : Bool) (route_mtu : Option ℕ) (configured_mtu : ℕ)
    → 336 ≤ configured_mtu
    → (effective_udp_payload_capacity is_ipv4 route_mtu configured_mtu
          + udp_chunk_header_len
          + 8
          + (if is_ipv4 then 20 else 40)
        ≤ configured_mtu)
      × (udp_min_payload ≤ effective_udp_payload_capacity is_ipv4 route_mtu configured_mtu)
unfolding effective_udp_payload_capacity
effective_udp_payload_capacity_lem true route_mtu configured_mtu large = ground arith
effective_udp_payload_capacity_lem false route_mtu configured_mtu large = ground arith
