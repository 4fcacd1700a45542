-- ===== src/Client/LocalApi.antt =====
-- crates/client-backend/src/local_api.rs: the state behind the local socket, the pool of connections
-- and the cache, as one thread changes them. The outcome of connecting and of a query is an argument,
-- as is the clock; no lock is poisoned, and logging is left out.
pub mod Pool
pub mod Refresh
pub mod Ids
pub mod Stale
pub mod Commands
use gpustat4cluster.Base.{
  ℕ, min, zero, suc, ◌+◌, ◌-◌, max, ltb, leb, not, ◌==◌, ◌&&◌, ◌||◌, if◌then◌else◌, Bool, true,
  false, Option, none, some, List, [], ◌∷◌, ◌++◌, Result, ok, err, length, map, filter, any,
}
use gpustat4cluster.Base.Bytes.{bytes_eq}
use gpustat4cluster.Base.Text.{Text, text}
use gpustat4cluster.Base.Scan.{is_empty, is_some, trim}
use gpustat4cluster.Base.Scan.Digits.{pad_decimal, decimal}
use gpustat4cluster.Base.TextMap.{get, insert, sort_by}
use gpustat4cluster.Snapshot.{ServerGresSnapshot}
use gpustat4cluster.Snapshot.{HostMetadata}
use gpustat4cluster.Client.Filter.{Net}
use gpustat4cluster.Client.Cache.{
  DiscoveredNode, ConnectionCacheEntry, CacheMap, cache_key, upsert_snapshot, mark_stale,
}

-- `format!("conn-{:03}", n)`
unfoldable pub conn_id : ℕ → Text
conn_id n = text "conn-" ++ pad_decimal 3 n

-- `HashMap::remove`
unfoldable pub remove_row {ℓ} : {A : Type ℓ} → Text → List (Text × A) → List (Text × A)
remove_row key [] = []
remove_row key ((k, a) ∷ rows) =
    let others = remove_row key rows in if bytes_eq k key then others else (k, a) ∷ others

module _ (net : Net) where
  abbrev Addr : Type 0
  Addr = net.IpAddr × ℕ

  abbrev pub addr_eq : Addr → Addr → Bool
  addr_eq a b = net.ip_eq a.0 b.0 && (a.1 == b.1)

  abbrev new_entry : Text → Text → ℕ → ℕ → Addr → ConnectionCacheEntry net
  new_entry connection_id hostname num timestamp addr = record {
    connection_id = connection_id;
    hostname = hostname;
    num = num;
    server_gres = [];
    record_timestamp = timestamp;
    addr = addr;
    last_snapshot = none;
    last_error = none;
    last_query_latency_us = none;
  }

  -- The loop of `add_discovered_nodes`, at the node with number `idx`.
  unfoldable pub add_from : ℕ → ℕ → List (DiscoveredNode net) → CacheMap net → CacheMap net
  add_from index_base idx [] rows = rows
  add_from index_base idx (node ∷ nodes) rows =
      let key = cache_key net node.addr in
      let entry = new_entry (conn_id (index_base + idx + 1)) node.hostname 0 node.ts_ms node.addr in
      add_from index_base (idx + 1) nodes (
        if any (λ row. bytes_eq row.1.hostname node.hostname) rows
        then rows
        else if is_some (get key rows)
        then rows
        else insert key entry rows)

  unfoldable pub add_discovered_nodes : List (DiscoveredNode net) → CacheMap net → CacheMap net
  unfolding add_from
  add_discovered_nodes nodes rows = add_from (length rows) 0 nodes rows

  -- A pooled connection: what its `addr`, `hostname` and `gres_num` read at the moment. The last two
  -- read its metadata, which a query may replace (`set_metadata`).
  pub record Connection : Type 0 where
    pub peer : Addr
    pub hostname : Text
    pub gres_num : ℕ

  pub record LocalApiState : Type 0 where
    pub cache : CacheMap net
    pub connections : List (Addr × Connection)
    pub max_connections : ℕ
    pub last_discovery_reconcile_ms : ℕ

  -- `LocalApiState::new`
  unfoldable pub new_local_state : ℕ → LocalApiState
  new_local_state max_connections = record {
    cache = [];
    connections = [];
    max_connections = max_connections;
    last_discovery_reconcile_ms = 0;
  }

  unfoldable pub find_connection : Addr → List (Addr × Connection) → Option Connection
  find_connection addr [] = none
  find_connection addr ((a, c) ∷ rest) =
      let later = find_connection addr rest in if addr_eq a addr then some c else later

  unfoldable pub remove_connection : Addr → List (Addr × Connection) → List (Addr × Connection)
  remove_connection addr [] = []
  remove_connection addr ((a, c) ∷ rest) =
      let others = remove_connection addr rest in if addr_eq a addr then others else (a, c) ∷ others

  -- The metadata of the connection under an address, after a query has stored it there:
  -- `self.metadata` of both clients, of which `hostname` and `gres_num` are read.
  unfoldable pub set_metadata :
      Addr → HostMetadata → List (Addr × Connection) → List (Addr × Connection)
  set_metadata addr metadata [] = []
  set_metadata addr metadata ((a, c) ∷ rest) =
      let later = set_metadata addr metadata rest in
      if addr_eq a addr
      then (a, record c { hostname = metadata.hostname; gres_num = min (length metadata.gres) 255 })
        ∷ rest
      else (a, c) ∷ later

  -- `iter().find` of the host name: the address it stands under.
  unfoldable pub find_host : Text → List (Addr × Connection) → Option (Addr × Connection)
  find_host host [] = none
  find_host host ((a, c) ∷ rest) =
      let later = find_host host rest in if bytes_eq c.hostname host then some (a, c) else later

  unfoldable pub upsert_connection_placeholder : ℕ → ℕ → Connection → CacheMap net → CacheMap net
  upsert_connection_placeholder now index connection rows =
      let key = cache_key net connection.peer in
      elim (get key rows) [
        | some entry ↦
            insert key
              (record entry {
                connection_id = conn_id index;
                hostname = connection.hostname;
                num = connection.gres_num;
              })
              rows
        | none ↦
            insert key
              (new_entry (conn_id index) connection.hostname connection.gres_num now
                connection.peer)
              rows
      ]

  -- The pool, and the cache, after a connection to `addr` was made: one to the same host is replaced.
  unfoldable pub replace_host : Connection → LocalApiState → LocalApiState
  unfolding find_host remove_connection
  replace_host connection self = elim (find_host connection.hostname self.connections) [
    | none ↦ self
    | some (a, existing) ↦ record self {
      connections = remove_connection a self.connections;
      cache = remove_row (cache_key net existing.peer) self.cache;
    }
  ]

  unfoldable pub keep_connection : ℕ → ℕ → Addr → Connection → LocalApiState → LocalApiState
  unfolding replace_host
  keep_connection now index addr connection self =
      let self' = replace_host connection self in
      if leb self'.max_connections (length self'.connections) then self' else record self' {
        connections = (addr, connection) ∷ self'.connections;
        cache = upsert_connection_placeholder now index connection self'.cache;
      }

  -- `connect` is `connect_with_retry`; no other thread connects to the address.
  unfoldable pub establish_one_connection :
      (Addr → Option Connection) → ℕ → ℕ → Addr → LocalApiState → LocalApiState
  unfolding keep_connection
  establish_one_connection connect now index addr self =
      if is_some (find_connection addr self.connections)
      then self
      else if leb self.max_connections (length self.connections)
      then self
      else elim (connect addr) [
        | none ↦ self
        | some connection ↦ keep_connection now index addr connection self
      ]

  unfoldable pub establish_from :
      (Addr → Option Connection) → ℕ → ℕ → List (DiscoveredNode net) → LocalApiState → LocalApiState
  establish_from connect now index [] self = self
  establish_from connect now index (node ∷ nodes) self =
      establish_from connect now (index + 1) nodes
        (establish_one_connection connect now index node.addr self)

  unfoldable pub establish_connections :
      (Addr → Option Connection) → ℕ → List (DiscoveredNode net) → LocalApiState → LocalApiState
  unfolding establish_from
  establish_connections connect now nodes self =
      establish_from connect now (length self.cache + 1) nodes self

  -- `disconnect_hostname`: the connections that are left, their number, and the rows of the cache.
  unfoldable pub disconnect_hostname : Text → LocalApiState → LocalApiState × ℕ
  disconnect_hostname hostname self =
      let gone = filter (λ c. bytes_eq c.1.hostname hostname) self.connections in
      (
        record self {
          connections = filter (λ c. not (bytes_eq c.1.hostname hostname)) self.connections;
          cache = filter (λ row. not (bytes_eq row.1.hostname hostname)) self.cache;
        },
        length gone,
      )

-- `uds_path_from_config_or_env`, of the variable and of the configured path.
unfoldable pub uds_path_from_config_or_env : Option Text → Option Text → Text
uds_path_from_config_or_env variable configured =
    let configured' : Text = elim configured [
      | none ↦ text "/run/clustat/client.sock"
      | some path ↦ if is_empty (trim path) then text "/run/clustat/client.sock" else trim path
    ] in
    elim variable [
      | none ↦ configured'
      | some path ↦ if is_empty (trim path) then configured' else trim path
    ]
