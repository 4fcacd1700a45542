-- ===== src/Client/Discovery.antt =====
-- crates/client-backend/src/discovery.rs: the nodes that are named in the environment, those that
-- announce themselves, and the merge of both. The resolver of names and serde_json are parameters.
pub mod Merged
use gpustat4cluster.Base.{
  ℕ, zero, suc, ◌+◌, ◌^◌, ltb, ◌==◌, ◌&&◌, not, if◌then◌else◌, Bool, true, false, Option, none,
  some, List, [], ◌∷◌, ◌++◌, Result, ok, err, map, filter, any,
}
use gpustat4cluster.Base.Bytes.{Bytes, bytes_eq}
use gpustat4cluster.Base.Text.{Text, text}
use gpustat4cluster.Base.Scan.{is_empty, trim, split_char, to_ascii_lowercase}
use gpustat4cluster.Base.TextMap.{insert, sort_by}
use gpustat4cluster.Protocol.Header.{protocol_version}
use gpustat4cluster.Protocol.Discovery.{DiscoveryAnnounce}
use gpustat4cluster.Client.Filter.{Net}
use gpustat4cluster.Client.Cache.{DiscoveredNode}

-- `serde_json::Value` with the accessors that the client uses.
pub record JsonValue : Type 1 where
  pub Value : Type 0
  pub parse : Text → Option Value
  pub get_field : Value → Text → Option Value
  pub as_str : Value → Option Text
  pub as_u64 : Value → Option ℕ
  pub as_bool : Value → Option Bool
  pub as_array : Value → Option (List Value)

-- `try_into` of an unsigned number
abbrev pub narrow : ℕ → ℕ → Option ℕ
narrow limit v = if ltb v limit then some v else none

abbrev pub bind_option {ℓ κ} : {A : Type ℓ} {B : Type κ} → Option A → (A → Option B) → Option B
bind_option none f = none
bind_option (some a) f = f a

abbrev pub or_else {ℓ} : {A : Type ℓ} → Option A → A → A
or_else none d = d
or_else (some a) d = a

module _ (json : JsonValue) where
  abbrev number : json.Value → Text → ℕ → Option ℕ
  number raw name limit =
      bind_option (bind_option (json.get_field raw name) json.as_u64) (narrow limit)

  unfoldable pub legacy_fields : json.Value → Text → Text → ℕ → DiscoveryAnnounce
  legacy_fields raw hostname ip port = record {
    version = or_else (number raw (text "version") (2 ^ 8)) protocol_version;
    hostname = hostname;
    ip = ip;
    port = port;
    tcp_port = number raw (text "tcp_port") (2 ^ 16);
    kcp_port = none;
    udp_port = number raw (text "udp_port") (2 ^ 16);
    ttl = number raw (text "ttl") (2 ^ 16);
    load = number raw (text "load") (2 ^ 8);
    degraded = bind_option (json.get_field raw (text "degraded")) json.as_bool;
  }

  unfoldable pub parse_legacy_announce : Text → Option DiscoveryAnnounce
  unfolding legacy_fields
  parse_legacy_announce msg = bind_option (json.parse msg) λ raw.
      bind_option (bind_option (json.get_field raw (text "hostname")) json.as_str) λ hostname.
        bind_option (bind_option (json.get_field raw (text "ip")) json.as_str) λ ip.
          bind_option (number raw (text "port") (2 ^ 16))
            λ port. some (legacy_fields raw hostname ip port)

-- The port that an announcement gives for a protocol.
unfoldable pub announced_port : DiscoveryAnnounce → Text → ℕ
announced_port ann protocol =
    if bytes_eq (to_ascii_lowercase (trim protocol)) (text "tcp")
    then or_else ann.tcp_port ann.port
    else or_else ann.udp_port ann.port

module _ (net : Net) where
  -- `read` is the reading of the announcement by its derived `Deserialize`.
  unfoldable pub parse_announce_for_protocol :
      JsonValue
      → (Text → Option DiscoveryAnnounce)
      → ℕ
      → Text
      → net.IpAddr
      → Text
      → Option (DiscoveredNode net)
  unfolding announced_port
  parse_announce_for_protocol json read now msg src protocol =
      let ann : Option DiscoveryAnnounce = elim (read msg) [
        | some ann ↦ some ann
        | none ↦ parse_legacy_announce json msg
      ] in
      bind_option ann λ ann.
        if not (ann.version == protocol_version)
        then none
        else some (record {
          hostname = ann.hostname;
          addr = (src, announced_port ann protocol);
          ts_ms = now;
        })

  -- The items of `parse_static_nodes`; `seen` has the addresses that came before, and an item that is
  -- not resolved is passed over.
  unfoldable pub static_from :
      (Text → Option (net.IpAddr × ℕ))
      → ℕ
      → List (net.IpAddr × ℕ)
      → List Text
      → List (DiscoveredNode net)
  static_from resolve now seen [] = []
  static_from resolve now seen (item ∷ items) =
      let again = static_from resolve now seen items in
      elim (resolve item) [
        | none ↦ again
        | some addr ↦
            let fresh = static_from resolve now (addr ∷ seen) items in
            if any (λ old. net.ip_eq old.0 addr.0 && (old.1 == addr.1)) seen
            then again
            else record { hostname = net.ip_to_string addr.0; addr = addr; ts_ms = now } ∷ fresh
      ]

  unfoldable pub parse_static_nodes :
      (Text → Option (net.IpAddr × ℕ)) → ℕ → Text → List (DiscoveredNode net)
  unfolding static_from
  parse_static_nodes resolve now raw =
      static_from resolve now []
        (filter (λ item. not (is_empty item)) (map trim (split_char b',' raw)))

  -- `map.insert(node.addr.to_string(), node)` of each node in turn
  unfoldable pub insert_nodes :
      List (DiscoveredNode net)
      → List (Text × DiscoveredNode net)
      → List (Text × DiscoveredNode net)
  insert_nodes [] rows = rows
  insert_nodes (node ∷ rest) rows =
      insert_nodes rest (insert (net.socket_addr_to_string node.addr) node rows)

  abbrev pub addr_text : DiscoveredNode net → Text
  addr_text node = net.socket_addr_to_string node.addr

  abbrev pub values : List (Text × DiscoveredNode net) → List (DiscoveredNode net)
  values [] = []
  values ((key, node) ∷ rest) = node ∷ values rest

  unfoldable pub merge_discovered_nodes :
      List (DiscoveredNode net) → List (DiscoveredNode net) → List (DiscoveredNode net)
  unfolding insert_nodes
  merge_discovered_nodes discovered static_nodes =
      sort_by addr_text (values (insert_nodes (discovered ++ static_nodes) []))

  -- The nodes that `discover_nodes` makes of the datagrams that came: their texts and sources.
  unfoldable pub announced_nodes :
      JsonValue
      → (Text → Option DiscoveryAnnounce)
      → ℕ
      → Text
      → List (Text × net.IpAddr)
      → List (Text × DiscoveredNode net)
      → List (Text × DiscoveredNode net)
  announced_nodes json read now protocol [] rows = rows
  announced_nodes json read now protocol ((msg, src) ∷ rest) rows =
      announced_nodes json read now protocol rest
        (elim (parse_announce_for_protocol json read now msg src protocol) [
          | none ↦ rows
          | some node ↦ insert (net.socket_addr_to_string node.addr) node rows
        ])

  unfoldable pub discovered_nodes :
      JsonValue
      → (Text → Option DiscoveryAnnounce)
      → ℕ
      → Text
      → List (Text × net.IpAddr)
      → List (DiscoveredNode net)
  unfolding announced_nodes
  discovered_nodes json read now protocol received =
      sort_by addr_text (values (announced_nodes json read now protocol received []))
