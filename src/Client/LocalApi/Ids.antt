-- ===== src/Client/LocalApi/Ids.antt =====
-- The connection ids that two discoveries give.
use gpustat4cluster.Base.{
  ℕ, ◌+◌, ◌<◌, ◌≡◌, refl, ap, ◌∙◌, false, Option, none, some, List, [], ◌∷◌, ok, length, any, leb,
  arith,
}
use gpustat4cluster.Base.Bytes.{bytes_eq, bytes_eq_refl}
use gpustat4cluster.Base.Text.{Text}
use gpustat4cluster.Base.TextMap.{get, insert, sort_by, insert_by}
use gpustat4cluster.Client.Filter.{Net}
use gpustat4cluster.Client.Cache.{DiscoveredNode, ConnectionCacheEntry, CacheMap, cache_key}
use gpustat4cluster.Client.Discovery.{merge_discovered_nodes, insert_nodes}
use gpustat4cluster.Client.LocalApi.{
  conn_id, Connection, LocalApiState, new_local_state, add_from, add_discovered_nodes,
  find_connection, find_host, upsert_connection_placeholder, replace_host, keep_connection,
  establish_one_connection, establish_from, establish_connections,
}
use gpustat4cluster.Client.LocalApi.Commands.{
  World, ok_or_empty, reconcile_nodes, run_discovery_reconcile,
}

module _ (net : Net) where
  -- Discovery finds one node.
  abbrev pub IsAlone : World net → DiscoveredNode net → Type 0
  IsAlone world node = (world.multicast_nodes ≡ ok (node ∷ [])) × (world.static_nodes ≡ ok [])

  merge_one :
      (world : World net) (node : DiscoveredNode net)
      → IsAlone world node
      → merge_discovered_nodes net
          (ok_or_empty world.multicast_nodes)
          (ok_or_empty world.static_nodes)
        ≡ node ∷ []
  unfolding merge_discovered_nodes ok_or_empty insert_nodes insert sort_by insert_by
  merge_one world node alone = rw alone.0 (rw alone.1 refl)

  reconcile_one :
      (world : World net) (node : DiscoveredNode net) (s : LocalApiState net)
      → IsAlone world node
      → run_discovery_reconcile net world s
        ≡ establish_one_connection net world.connect world.now
            (length (add_discovered_nodes net (node ∷ []) s.cache) + 1)
            node.addr
            (record s { cache = add_discovered_nodes net (node ∷ []) s.cache })
  unfolding run_discovery_reconcile reconcile_nodes establish_connections establish_from
  reconcile_one world node s alone = rw (merge_one world node alone) refl

  -- A row of one node, as discovery makes it.
  abbrev placeholder : Text → Text → ℕ → ℕ → net.IpAddr × ℕ → ConnectionCacheEntry net
  placeholder connection_id hostname num timestamp addr = record {
    connection_id = connection_id;
    hostname = hostname;
    num = num;
    server_gres = [];
    record_timestamp = timestamp;
    addr = addr;
    last_snapshot = none;
    last_error = none;
    last_query_latency_us = none;
  }

  abbrev pool : CacheMap net → List ((net.IpAddr × ℕ) × Connection net) → ℕ → LocalApiState net
  pool rows connections max_connections = record {
    cache = rows;
    connections = connections;
    max_connections = max_connections;
    last_discovery_reconcile_ms = 0;
  }

  added_first :
      (a : DiscoveredNode net)
      → add_discovered_nodes net (a ∷ []) []
        ≡ (cache_key net a.addr, placeholder (conn_id 1) a.hostname 0 a.ts_ms a.addr) ∷ []
  unfolding add_discovered_nodes add_from any get insert
  added_first a = refl

  added_second :
      (b : DiscoveredNode net) (k : Text) (x : ConnectionCacheEntry net)
      → bytes_eq x.hostname b.hostname ≡ false
      → bytes_eq k (cache_key net b.addr) ≡ false
      → add_discovered_nodes net (b ∷ []) ((k, x) ∷ [])
        ≡ (k, x) ∷ (cache_key net b.addr, placeholder (conn_id 2) b.hostname 0 b.ts_ms b.addr) ∷ []
  unfolding add_discovered_nodes add_from any get insert
  added_second b k x host key = rw host (rw key refl)

  -- The placeholder of a connection has a new number and the connection's hostname.
  numbered :
      (now index : ℕ) (a : DiscoveredNode net) (c : Connection net)
      → c.peer ≡ a.addr
      → upsert_connection_placeholder net now index c
          ((cache_key net a.addr, placeholder (conn_id 1) a.hostname 0 a.ts_ms a.addr) ∷ [])
        ≡ (cache_key net a.addr, placeholder (conn_id index) c.hostname c.gres_num a.ts_ms a.addr)
          ∷ []
  unfolding upsert_connection_placeholder get insert
  numbered now index a c peer =
      let here = ap (cache_key net) peer in
      ground (arith, here, bytes_eq_refl (cache_key net a.addr))

  connected_first :
      (connect : net.IpAddr × ℕ → Option (Connection net)) (now index : ℕ) (addr : net.IpAddr × ℕ)
      (c : Connection net) (rows : CacheMap net) (max_connections : ℕ)
      → 0 < max_connections
      → connect addr ≡ some c
      → establish_one_connection net connect now index addr (pool rows [] max_connections)
        ≡ pool (upsert_connection_placeholder net now index c rows) ((addr, c) ∷ []) max_connections
  unfolding establish_one_connection keep_connection replace_host find_host find_connection
  connected_first connect now index addr c rows max_connections room made =
      let room' : leb max_connections 0 ≡ false = ground arith in rw room' (rw made (rw room' refl))

  -- The first discovery numbers the node by the size of the cache, and the connection to it numbers
  -- it again.
  first_discovery :
      (world : World net) (a : DiscoveredNode net) (c : Connection net) (max_connections : ℕ)
      → 0 < max_connections
      → IsAlone world a
      → world.connect a.addr ≡ some c
      → c.peer ≡ a.addr
      → run_discovery_reconcile net world (new_local_state net max_connections)
        ≡ pool
            ((cache_key net a.addr, placeholder (conn_id 2) c.hostname c.gres_num a.ts_ms a.addr)
              ∷ [])
            ((a.addr, c) ∷ [])
            max_connections
  unfolding new_local_state
  first_discovery world a c max_connections room alone made peer =
      reconcile_one world a (new_local_state net max_connections) alone
      ∙ ap
          (λ rows.
            establish_one_connection net world.connect world.now (length rows + 1) a.addr
              (pool rows [] max_connections))
          (added_first a)
      ∙ connected_first world.connect world.now 2 a.addr c _ max_connections room made
      ∙ ap (λ rows. pool rows ((a.addr, c) ∷ []) max_connections) (numbered world.now 2 a c peer)

  -- Where no connection can be made, none is.
  not_connected :
      (connect : net.IpAddr × ℕ → Option (Connection net)) (now index : ℕ) (addr : net.IpAddr × ℕ)
      (s : LocalApiState net)
      → connect addr ≡ none
      → establish_one_connection net connect now index addr s ≡ s
  unfolding establish_one_connection
  not_connected connect now index addr s lost = ground arith

  found_first :
      (k l : Text) (x y : ConnectionCacheEntry net) → get k ((k, x) ∷ (l, y) ∷ []) ≡ some x
  unfolding get
  found_first k l x y = rw (bytes_eq_refl k) refl

  found_second :
      (k l : Text) (x y : ConnectionCacheEntry net)
      → bytes_eq k l ≡ false
      → get l ((k, x) ∷ (l, y) ∷ []) ≡ some y
  unfolding get
  found_second k l x y other = rw other (rw (bytes_eq_refl l) refl)

  -- Two nodes of the cache get the same connection id: from the initial state of a client that may
  -- have a connection, a discovery finds one node, which is connected, and a later discovery finds
  -- another one alone, to which no connection can be made; its hostname is not that of the
  -- connection, and its key in the cache not that of the first node. Then both have an entry, under
  -- their own keys and hostnames, and the entries have one connection id.
  pub run_discovery_reconcile_repeats :
      (first second : World net) (a b : DiscoveredNode net) (c : Connection net)
      (max_connections : ℕ)
      → 0 < max_connections
      → IsAlone first a
      → first.connect a.addr ≡ some c
      → c.peer ≡ a.addr
      → IsAlone second b
      → second.connect b.addr ≡ none
      → bytes_eq c.hostname b.hostname ≡ false
      → bytes_eq (cache_key net a.addr) (cache_key net b.addr) ≡ false
      → (x : ConnectionCacheEntry net) × (y : ConnectionCacheEntry net) × (get
            (cache_key net a.addr)
            (run_discovery_reconcile net second
              (run_discovery_reconcile net first (new_local_state net max_connections))).cache
          ≡ some x)
        × (get
              (cache_key net b.addr)
              (run_discovery_reconcile net second
                (run_discovery_reconcile net first (new_local_state net max_connections))).cache
            ≡ some y)
        × (x.hostname ≡ c.hostname)
        × (y.hostname ≡ b.hostname)
        × (x.connection_id ≡ y.connection_id)
  run_discovery_reconcile_repeats first second a b c max_connections room alone made peer alone'
        lost host key =
      let ka = cache_key net a.addr in
      let kb = cache_key net b.addr in
      let x = placeholder (conn_id 2) c.hostname c.gres_num a.ts_ms a.addr in
      let y = placeholder (conn_id 2) b.hostname 0 b.ts_ms b.addr in
      let s = pool ((ka, x) ∷ []) ((a.addr, c) ∷ []) max_connections in
      let after : run_discovery_reconcile net second
            (run_discovery_reconcile net first (new_local_state net max_connections))
          ≡ pool ((ka, x) ∷ (kb, y) ∷ []) ((a.addr, c) ∷ []) max_connections =
        ap (run_discovery_reconcile net second)
          (first_discovery first a c max_connections room alone made peer)
        ∙ reconcile_one second b s alone'
        ∙ not_connected second.connect second.now _ b.addr _ lost
        ∙ ap (λ rows. pool rows ((a.addr, c) ∷ []) max_connections)
            (added_second b ka x host key) in
      (
        x,
        y,
        rw after (found_first ka kb x y),
        rw after (found_second ka kb x y key),
        refl,
        refl,
        refl,
      )
