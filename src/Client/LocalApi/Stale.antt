-- ===== src/Client/LocalApi/Stale.antt =====
-- crates/client-backend/src/local_api.rs: `refresh_stale_cache_for_query`, and whether a query starts
-- a discovery.
use gpustat4cluster.Base.{
  ℕ, ◌-◌, max, ltb, leb, not, ◌==◌, ◌||◌, if◌then◌else◌, Bool, true, false, Option, none, some,
  List, [], ◌∷◌, Result, ok, err, length,
}
use gpustat4cluster.Base.Text.{Text}
use gpustat4cluster.Base.Scan.{is_some}
use gpustat4cluster.Snapshot.{ServerGresSnapshot, HostMetadata}
use gpustat4cluster.Client.Filter.{Net}
use gpustat4cluster.Client.Cache.{
  DiscoveredNode, ConnectionCacheEntry, CacheMap, cache_key, upsert_snapshot, mark_stale,
}
use gpustat4cluster.Client.LocalApi.{
  remove_row, Connection, LocalApiState, find_connection, remove_connection, set_metadata,
  establish_connections,
}

module _ (net : Net) where
  abbrev Addr : Type 0
  Addr = net.IpAddr × ℕ

  pub record RefreshTarget : Type 0 where
    pub connection_id : Text
    pub hostname : Text
    pub addr : Addr
    pub had_snapshot : Bool

  -- `now.saturating_sub(record_timestamp) > cache_ttl_ms`, or no snapshot
  unfoldable pub is_stale : ℕ → ℕ → ConnectionCacheEntry net → Bool
  is_stale now cache_ttl_ms entry =
      not (is_some entry.last_snapshot) || ltb cache_ttl_ms (now - entry.record_timestamp)

  unfoldable pub stale_targets : ℕ → ℕ → CacheMap net → List RefreshTarget
  unfolding is_stale
  stale_targets now cache_ttl_ms [] = []
  stale_targets now cache_ttl_ms ((key, entry) ∷ rows) =
      let others = stale_targets now cache_ttl_ms rows in
      if is_stale now cache_ttl_ms entry
      then record {
        connection_id = entry.connection_id;
        hostname = entry.hostname;
        addr = entry.addr;
        had_snapshot = is_some entry.last_snapshot;
      }
        ∷ others
      else others

  -- What a query of one connection did: the metadata that the connection has then, which is that of
  -- before or a refreshed one, and the snapshot with the latency, or the text of the error.
  pub record QueryOutcome : Type 0 where
    pub metadata : HostMetadata
    pub result : Result (ServerGresSnapshot × ℕ) Text

  unfoldable pub refreshed :
      ℕ → RefreshTarget → QueryOutcome → (LocalApiState net) → (LocalApiState net)
  refreshed now target outcome self = elim outcome.result [
    | ok (snapshot, latency) ↦ record self {
      connections = set_metadata net target.addr outcome.metadata self.connections;
      cache =
          upsert_snapshot net now self.cache target.connection_id target.addr snapshot
            (some latency);
    }
    | err e ↦ record self {
      connections = remove_connection net target.addr self.connections;
      cache = remove_row (cache_key net target.addr) self.cache;
    }
  ]

  -- A target that no connection can be made to.
  unfoldable pub unavailable : ℕ → RefreshTarget → Text → (LocalApiState net) → (LocalApiState net)
  unavailable now target error self =
      if target.had_snapshot
      then record self {
        cache =
            mark_stale net now self.cache target.connection_id target.addr target.hostname error;
      }
      else record self { cache = remove_row (cache_key net target.addr) self.cache }

  -- One round of the loop of `refresh_stale_cache_for_query`.
  unfoldable pub refresh_target :
      (Addr → Option (Connection net))
      → ((Connection net) → QueryOutcome)
      → ℕ
      → Text
      → RefreshTarget
      → (LocalApiState net)
      → (LocalApiState net)
  unfolding refreshed unavailable
  refresh_target connect query now error target self =
      elim (find_connection net target.addr self.connections) [
        | some connection ↦ refreshed now target (query connection) self
        | none ↦
            let node : DiscoveredNode net = record {
              hostname = target.hostname;
              addr = target.addr;
              ts_ms = now;
            } in
            let self' = establish_connections net connect now (node ∷ []) self in
            elim (find_connection net target.addr self'.connections) [
              | some connection ↦ refreshed now target (query connection) self'
              | none ↦ unavailable now target error self'
            ]
      ]

  unfoldable pub refresh_targets :
      (Addr → Option (Connection net))
      → ((Connection net) → QueryOutcome)
      → ℕ
      → Text
      → List RefreshTarget
      → (LocalApiState net)
      → (LocalApiState net)
  unfolding refresh_target
  refresh_targets connect query now error [] self = self
  refresh_targets connect query now error (target ∷ targets) self =
      refresh_targets connect query now error targets
        (refresh_target connect query now error target self)

  unfoldable pub refresh_stale_cache_for_query :
      (Addr → Option (Connection net))
      → ((Connection net) → QueryOutcome)
      → ℕ
      → ℕ
      → Text
      → (LocalApiState net)
      → (LocalApiState net)
  unfolding stale_targets refresh_targets
  refresh_stale_cache_for_query connect query now cache_ttl_ms error self =
      refresh_targets connect query now error (stale_targets now cache_ttl_ms self.cache) self

  -- The state, and whether the discovery is left out; `discover_wait` is in milliseconds.
  unfoldable pub should_skip_query_discovery_reconcile :
      ℕ → ℕ → (LocalApiState net) → (LocalApiState net) × Bool
  should_skip_query_discovery_reconcile now discover_wait state =
      let marked = record state { last_discovery_reconcile_ms = now } in
      if length state.cache == 0
      then (marked, false)
      else if leb state.max_connections (length state.cache)
      then (state, true)
      else if ltb (now - state.last_discovery_reconcile_ms) (max discover_wait 1)
      then (state, true)
      else (marked, false)
