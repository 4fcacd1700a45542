-- ===== src/Client/LocalApi/Refresh.antt =====
-- The refresh of the stale rows, and the pool.
use gpustat4cluster.Base.{
  ℕ, ◌≡◌, some, subst, true, Option, List, [], ◌∷◌, arith, Bool-cases, Option-cases, Result-cases,
  inl, inr,
}
use gpustat4cluster.Base.Text.{Text}
use gpustat4cluster.Client.Filter.{Net}
use gpustat4cluster.Client.Cache.{DiscoveredNode}
use gpustat4cluster.Client.LocalApi.{
  Connection, LocalApiState, find_connection, establish_connections,
}
use gpustat4cluster.Client.LocalApi.Stale.{
  RefreshTarget, QueryOutcome, refreshed, unavailable, refresh_target, refresh_targets,
  stale_targets, refresh_stale_cache_for_query,
}
use gpustat4cluster.Client.LocalApi.Pool.{
  IsPool, length-set_metadata, set_metadata-HasDistinctKeys, length-remove_connection,
  remove_connection-HasDistinctKeys, establish_connections-IsPool,
}

module _ (net : Net) (same_ip : (ip : net.IpAddr) → net.ip_eq ip ip ≡ true)
    (connect : net.IpAddr × ℕ → Option (Connection net)) (now : ℕ)
    (query : Connection net → QueryOutcome net) (error : Text)
    (steady : (c : Connection net) → (query c).metadata.hostname ≡ c.hostname) where
  refreshed-IsPool :
      (target : RefreshTarget net) (c : Connection net) (s : LocalApiState net)
      → find_connection net target.addr s.connections ≡ some c
      → IsPool net same_ip s
      → IsPool net same_ip (refreshed net now target (query c) s)
  unfolding refreshed
  refreshed-IsPool target c s found v = elim (Result-cases (query c).result) [
    | inl ((snapshot, latency), e) ↦ rw e (record {
      bounded =
          rw (length-set_metadata net same_ip target.addr (query c).metadata s.connections)
            v.bounded;
      hosts =
          set_metadata-HasDistinctKeys net same_ip target.addr (query c).metadata c s.connections
            found (steady c) v.hosts;
    })
    | inr (failure, e) ↦ rw e (record {
      bounded =
          omega (arith, v.bounded, length-remove_connection net same_ip target.addr s.connections);
      hosts = remove_connection-HasDistinctKeys net same_ip target.addr s.connections v.hosts;
    })
  ]

  unavailable-IsPool :
      (target : RefreshTarget net) (s : LocalApiState net)
      → IsPool net same_ip s
      → IsPool net same_ip (unavailable net now target error s)
  unfolding unavailable
  unavailable-IsPool target s v = elim (Bool-cases target.had_snapshot) [
    | inl e ↦ rw e (record { bounded = v.bounded; hosts = v.hosts })
    | inr e ↦ rw e (record { bounded = v.bounded; hosts = v.hosts })
  ]

  refresh_target-IsPool :
      (target : RefreshTarget net) (s : LocalApiState net)
      → IsPool net same_ip s
      → IsPool net same_ip (refresh_target net connect query now error target s)
  unfolding refresh_target
  refresh_target-IsPool target s v =
      elim (Option-cases (find_connection net target.addr s.connections)) [
        | inr (c, e) ↦
            let whole : refreshed net now target (query c) s
                ≡ refresh_target net connect query now error target s =
              ground arith in
            subst (IsPool net same_ip) whole (refreshed-IsPool target c s e v)
        | inl e ↦
            let node : DiscoveredNode net = record {
              hostname = target.hostname;
              addr = target.addr;
              ts_ms = now;
            } in
            let s' = establish_connections net connect now (node ∷ []) s in
            let v' = establish_connections-IsPool net same_ip connect now (node ∷ []) s v in
            elim (Option-cases (find_connection net target.addr s'.connections)) [
              | inr (c, f) ↦
                  let whole : refreshed net now target (query c) s'
                      ≡ refresh_target net connect query now error target s =
                    ground arith in
                  subst (IsPool net same_ip) whole (refreshed-IsPool target c s' f v')
              | inl f ↦
                  let whole : unavailable net now target error s'
                      ≡ refresh_target net connect query now error target s =
                    ground arith in
                  subst (IsPool net same_ip) whole (unavailable-IsPool target s' v')
            ]
      ]

  refresh_targets-IsPool :
      (targets : List (RefreshTarget net)) (s : LocalApiState net)
      → IsPool net same_ip s
      → IsPool net same_ip (refresh_targets net connect query now error targets s)
  unfolding refresh_targets
  refresh_targets-IsPool [] s v = v
  refresh_targets-IsPool (target ∷ targets) s v =
      refresh_targets-IsPool targets (refresh_target net connect query now error target s)
        (refresh_target-IsPool target s v)

  -- The pool of connections has at most max_connections connections and no two of one hostname: if
  -- it is so, then connecting to any nodes and refreshing the stale entries keep it so, where a query
  -- leaves a connection's hostname as it is and an IP address equals itself.
  pub local_state-IsPool :
      (nodes : List (DiscoveredNode net)) (cache_ttl_ms : ℕ) (s : LocalApiState net)
      → IsPool net same_ip s
      → IsPool net same_ip (establish_connections net connect now nodes s)
        × IsPool net same_ip
            (refresh_stale_cache_for_query net connect query now cache_ttl_ms error s)
  unfolding refresh_stale_cache_for_query
  local_state-IsPool nodes cache_ttl_ms s v = (
    establish_connections-IsPool net same_ip connect now nodes s v,
    refresh_targets-IsPool (stale_targets net now cache_ttl_ms s.cache) s v,
  )
