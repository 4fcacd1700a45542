-- ===== src/Client/Cache.antt =====
-- crates/client-backend/src/cache.rs: what the client knows of each node, by address. The clock is an
-- argument, in milliseconds after the epoch.
use gpustat4cluster.Base.{ℕ, ◌+◌, min, Bool, Option, none, some, List, [], ◌∷◌, ◌++◌, length}
use gpustat4cluster.Base.Bytes.{Bytes}
use gpustat4cluster.Base.Text.{Text, text}
use gpustat4cluster.Base.Scan.Digits.{decimal, pad_decimal}
use gpustat4cluster.Base.TextMap.{insert}
use gpustat4cluster.Snapshot.{ServerGresSnapshot}
use gpustat4cluster.Client.Filter.{Net, matches_target}

module _ (net : Net) where
  -- `DiscoveredNode` of discovery.rs
  pub record DiscoveredNode : Type 0 where
    pub hostname : Text
    pub addr : net.IpAddr × ℕ
    pub ts_ms : ℕ

  pub record ConnectionCacheEntry : Type 0 where
    pub connection_id : Text
    pub hostname : Text
    pub num : ℕ
    pub server_gres : Bytes
    pub record_timestamp : ℕ
    pub addr : net.IpAddr × ℕ
    pub last_snapshot : Option ServerGresSnapshot
    pub last_error : Option Text
    pub last_query_latency_us : Option ℕ

  abbrev pub CacheMap : Type 0
  CacheMap = List (Text × ConnectionCacheEntry)

  -- `format!("{}-{}", addr.ip(), addr.port())`
  unfoldable pub cache_key : net.IpAddr × ℕ → Text
  cache_key (ip, port) = net.ip_to_string ip ++ (text "-" ++ decimal port)

  unfoldable pub matches_filter : ConnectionCacheEntry → List Text → Bool
  matches_filter self patterns =
      matches_target net patterns self.hostname self.addr self.connection_id

  -- `ConnectionCacheEntry::from_snapshot`
  unfoldable pub entry_of_snapshot :
      ℕ → Text → net.IpAddr × ℕ → ServerGresSnapshot → Option ℕ → ConnectionCacheEntry
  entry_of_snapshot now connection_id addr snapshot last_query_latency_us = record {
    connection_id = connection_id;
    hostname = snapshot.hostname;
    num = min (length snapshot.gres) 255;
    server_gres = [];
    record_timestamp = now;
    addr = addr;
    last_snapshot = some snapshot;
    last_error = none;
    last_query_latency_us = last_query_latency_us;
  }

  -- `build_cache`, from the node with number `idx` on: of two nodes with one key the later stays.
  unfoldable pub build_from : ℕ → List DiscoveredNode → CacheMap → CacheMap
  build_from idx [] rows = rows
  build_from idx (n ∷ rest) rows = build_from (idx + 1) rest (
      insert (cache_key n.addr)
        (record {
          connection_id = text "conn-" ++ pad_decimal 3 (idx + 1);
          hostname = n.hostname;
          num = 0;
          server_gres = [];
          record_timestamp = n.ts_ms;
          addr = n.addr;
          last_snapshot = none;
          last_error = none;
          last_query_latency_us = none;
        })
        rows)

  unfoldable pub build_cache : List DiscoveredNode → CacheMap
  unfolding build_from
  build_cache discovered = build_from 0 discovered []

  unfoldable pub upsert_snapshot :
      ℕ → CacheMap → Text → net.IpAddr × ℕ → ServerGresSnapshot → Option ℕ → CacheMap
  unfolding entry_of_snapshot
  upsert_snapshot now rows connection_id addr snapshot last_query_latency_us =
      insert (cache_key addr)
        (entry_of_snapshot now connection_id addr snapshot last_query_latency_us) rows

  unfoldable pub mark_stale : ℕ → CacheMap → Text → net.IpAddr × ℕ → Text → Text → CacheMap
  mark_stale now rows connection_id addr hostname error =
      insert (cache_key addr)
        (record {
          connection_id = connection_id;
          hostname = hostname;
          num = 0;
          server_gres = [];
          record_timestamp = now;
          addr = addr;
          last_snapshot = none;
          last_error = some error;
          last_query_latency_us = none;
        })
        rows
