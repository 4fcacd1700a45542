-- ===== src/Tests/Local.antt =====
-- A client's nodes, its cache and its answers at concrete inputs.
use gpustat4cluster.Base.{
  ℕ, ◌≡◌, refl, false, ◌==◌, some, none, Option, List, [], ◌∷◌, ok, err, All, length, map, arith,
}
use gpustat4cluster.Base.Bytes.{Bytes, bytes_eq}
use gpustat4cluster.Base.Text.{Text, text}
use gpustat4cluster.Base.TextMap.{get}
use gpustat4cluster.Base.TextMap.Sorted.{HasDistinctKeys, IsSortedBy}
use gpustat4cluster.Base.TextMap.Sorted.Reordered.{swap}
use gpustat4cluster.Client.Filter.{Net}
use gpustat4cluster.Client.Cache.{DiscoveredNode, ConnectionCacheEntry, CacheMap, cache_key}
use gpustat4cluster.Client.Discovery.{addr_text, merge_discovered_nodes}
use gpustat4cluster.Client.Discovery.Merged.{find_node, last_node, merge_discovered_nodes_lem}
use gpustat4cluster.Client.Adapter.{GresView, build_query_response}
use gpustat4cluster.Client.Adapter.Base64.{
  decode_base64, encode_base64, decode_base64-encode_base64,
}
use gpustat4cluster.Client.Adapter.Answer.{
  row_id, by_id, ShowsUser, build_query_response-Reordered, build_query_response_user,
}
use gpustat4cluster.Client.LocalApi.{
  Connection, LocalApiState, new_local_state, find_connection, set_metadata,
}
use gpustat4cluster.Tests.Samples.{node}
use gpustat4cluster.Client.LocalApi.Stale.{
  QueryOutcome, is_stale, stale_targets, refreshed, refresh_target, refresh_targets,
  refresh_stale_cache_for_query,
}
use gpustat4cluster.Client.LocalApi.Commands.{World, run_discovery_reconcile}
use gpustat4cluster.Client.LocalApi.Ids.{run_discovery_reconcile_repeats}

-- An address is a number here.
abbrev net : Net
net = record {
  IpAddr = ℕ;
  ip_eq = λ a b. a == b;
  parse_ip = λ t. none;
  parse_socket_addr = λ t. none;
  ip_to_string = λ ip. ip ∷ [];
  socket_addr_to_string = λ addr. addr.0 ∷ addr.1 ∷ [];
}

abbrev found : ℕ → DiscoveredNode net
found n = record { hostname = n ∷ []; addr = (n, 4000); ts_ms = 1 }

abbrev row : ℕ → Text → ConnectionCacheEntry net
row n id = record {
  connection_id = id;
  hostname = n ∷ [];
  num = 0;
  server_gres = [];
  record_timestamp = 1;
  addr = (n, 4000);
  last_snapshot = none;
  last_error = none;
  last_query_latency_us = none;
}

merge_discovered_nodes_lem_example :
    IsSortedBy (addr_text net) (merge_discovered_nodes net (found 2 ∷ []) (found 1 ∷ []))
    × HasDistinctKeys (addr_text net) (merge_discovered_nodes net (found 2 ∷ []) (found 1 ∷ []))
    × (find_node net (1 ∷ 4000 ∷ []) (merge_discovered_nodes net (found 2 ∷ []) (found 1 ∷ []))
        ≡ last_node net (1 ∷ 4000 ∷ []) (found 2 ∷ found 1 ∷ []))
merge_discovered_nodes_lem_example =
    merge_discovered_nodes_lem net (found 2 ∷ []) (found 1 ∷ []) (1 ∷ 4000 ∷ [])

abbrev rows : CacheMap net
rows = (text "b", row 2 (text "conn-002")) ∷ (text "a", row 1 (text "conn-001")) ∷ []

abbrev other_rows : CacheMap net
other_rows = (text "a", row 1 (text "conn-001")) ∷ (text "b", row 2 (text "conn-002")) ∷ []

abbrev nobody : ℕ → Text
nobody uid = text "?"

abbrev no_payload : Bytes → Option ℕ × List GresView
no_payload bytes = (none, [])

unlike : HasDistinctKeys (row_id net) rows
unfolding bytes_eq
unlike = (((refl, refl), tt), (tt, tt))

build_query_response-Reordered_example :
    build_query_response nobody net no_payload 9 rows none none
    ≡ build_query_response nobody net no_payload 9 other_rows none none
build_query_response-Reordered_example =
    build_query_response-Reordered nobody net no_payload 9 none none rows other_rows (swap _ _)
      unlike

build_query_response_user_example :
    All
      (ShowsUser (text "ann"))
      (build_query_response nobody net no_payload 9 rows none (some (text "ann"))).nodes
    × IsSortedBy by_id
        (build_query_response nobody net no_payload 9 rows none (some (text "ann"))).nodes
    × ((build_query_response nobody net no_payload 9 rows none (some (text "ann"))).meta.node_count
        ≡ length (build_query_response nobody net no_payload 9 rows none (some (text "ann"))).nodes)
build_query_response_user_example =
    build_query_response_user nobody net no_payload 9 none rows (text "ann") refl

decode_base64-encode_base64_example :
    decode_base64 (encode_base64 (1 ∷ 2 ∷ 250 ∷ 7 ∷ [])) ≡ some (1 ∷ 2 ∷ 250 ∷ 7 ∷ [])
decode_base64-encode_base64_example =
    decode_base64-encode_base64 (1 ∷ 2 ∷ 250 ∷ 7 ∷ []) (omega arith)

abbrev connect : ℕ × ℕ → Option (Connection net)
connect addr = some (record { peer = addr; hostname = addr.0 ∷ []; gres_num = 1 })

abbrev fails : Connection net → QueryOutcome net
fails c = record {
  metadata = record { hostname = c.hostname; driver_version = none; gres = [] };
  result = err (text "timeout");
}

abbrev start : LocalApiState net
start = record {
  cache = rows;
  connections = ((2, 4000), record { peer = (2, 4000); hostname = 2 ∷ []; gres_num = 1 }) ∷ [];
  max_connections = 2;
  last_discovery_reconcile_ms = 0;
}

abbrev answers : Connection net → QueryOutcome net
answers c = record {
  metadata = record { hostname = c.hostname; driver_version = none; gres = [] };
  result = ok (node, 5);
}

abbrev world : World net
world = record {
  connect = connect;
  query = fails;
  now = 9;
  error = text "gone";
  cache_ttl_ms = 40;
  discover_wait = 5000;
  multicast_nodes = ok (found 1 ∷ []);
  static_nodes = err (text "unset");
  username = nobody;
  payload = no_payload;
  from_str = λ s. none;
  to_string = λ resp. some resp.meta.status;
}

-- A query that finds the host with another name: both connections of the pool read it then.
abbrev renamed : Connection net → QueryOutcome net
renamed c = record {
  metadata = record { hostname = 2 ∷ []; driver_version = none; gres = [] };
  result = ok (node, 5);
}

abbrev pair : LocalApiState net
pair = record {
  cache = rows;
  connections =
      ((1, 4000), record { peer = (1, 4000); hostname = 1 ∷ []; gres_num = 1 })
      ∷ ((2, 4000), record { peer = (2, 4000); hostname = 2 ∷ []; gres_num = 1 })
      ∷ [];
  max_connections = 2;
  last_discovery_reconcile_ms = 0;
}

hosts_of_pair :
    map
      (λ (c : (ℕ × ℕ) × Connection net). c.1.hostname)
      (refresh_stale_cache_for_query net connect renamed 9 40 (text "gone") pair).connections
    ≡ (2 ∷ []) ∷ (2 ∷ []) ∷ []
unfolding refresh_stale_cache_for_query stale_targets refresh_targets refresh_target refreshed
    is_stale find_connection set_metadata
hosts_of_pair = refl

-- Discovery finds the first node, which is connected, and then the second, which is not.
abbrev finds : ℕ → (ℕ × ℕ → Option (Connection net)) → World net
finds n connect = record world {
  connect = connect;
  multicast_nodes = ok (found n ∷ []);
  static_nodes = ok [];
}

abbrev nobody_listens : ℕ × ℕ → Option (Connection net)
nobody_listens addr = none

apart : bytes_eq (cache_key net (1, 4000)) (cache_key net (3, 4000)) ≡ false
unfolding cache_key bytes_eq
apart = refl

other_host : bytes_eq (1 ∷ []) (3 ∷ []) ≡ false
unfolding bytes_eq
other_host = refl

run_discovery_reconcile_repeats_example :
    (x : ConnectionCacheEntry net) × (y : ConnectionCacheEntry net) × (get
        (cache_key net (1, 4000))
        (run_discovery_reconcile net
          (finds 3 nobody_listens)
          (run_discovery_reconcile net (finds 1 connect) (new_local_state net 8))).cache
      ≡ some x)
    × (get
          (cache_key net (3, 4000))
          (run_discovery_reconcile net
            (finds 3 nobody_listens)
            (run_discovery_reconcile net (finds 1 connect) (new_local_state net 8))).cache
        ≡ some y)
    × (x.hostname ≡ 1 ∷ [])
    × (y.hostname ≡ 3 ∷ [])
    × (x.connection_id ≡ y.connection_id)
run_discovery_reconcile_repeats_example =
    run_discovery_reconcile_repeats net (finds 1 connect) (finds 3 nobody_listens) (found 1)
      (found 3) (record { peer = (1, 4000); hostname = 1 ∷ []; gres_num = 1 }) 8 (omega arith)
      (refl, refl) refl refl (refl, refl) refl other_host apart
