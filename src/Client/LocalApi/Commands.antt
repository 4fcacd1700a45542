-- ===== src/Client/LocalApi/Commands.antt =====
-- crates/client-backend/src/local_api.rs: the commands on the local socket, of a build with the debug
-- feature, the discovery that a query starts, and the end of a heartbeat. What discovery finds is an
-- argument, and so are serde_json's reading of a query and writing of an answer.
pub mod Kept
use gpustat4cluster.Base.{
  ℕ, ltb, ◌==◌, ◌&&◌, if◌then◌else◌, Bool, true, false, Option, none, some, List, [], ◌∷◌, ◌++◌,
  Result, ok, err, length,
}
use gpustat4cluster.Base.Bytes.{Bytes, bytes_eq}
use gpustat4cluster.Base.Text.{Text, text}
use gpustat4cluster.Base.Scan.{is_empty, trim, strip_prefix}
use gpustat4cluster.Base.Scan.Digits.{decimal}
use gpustat4cluster.Base.TextMap.{sort_by}
use gpustat4cluster.Client.Filter.{Net}
use gpustat4cluster.Client.Cache.{DiscoveredNode, ConnectionCacheEntry, CacheMap, mark_stale}
use gpustat4cluster.Client.Discovery.{merge_discovered_nodes}
use gpustat4cluster.Client.Adapter.{GresView, LocalResponse, build_query_response}
use gpustat4cluster.Client.LocalApi.{
  addr_eq, Connection, LocalApiState, remove_connection, add_discovered_nodes,
  establish_connections, disconnect_hostname,
}
use gpustat4cluster.Client.LocalApi.Stale.{
  QueryOutcome, refresh_stale_cache_for_query, should_skip_query_discovery_reconcile,
}

-- What keeps a command from an answer.
pub data CommandError : Type 0 where
  invalid_query : CommandError
  not_encoded : CommandError

-- `adapter::QueryRequest`, and its reading
pub record LocalQuery : Type 0 where
  pub filter_ : Option Text
  pub user : Option Text

unfoldable pub parse_query_request :
    (Text → Option LocalQuery) → Text → Result LocalQuery CommandError
parse_query_request from_str s =
    if is_empty s
    then ok (record { filter_ = none; user = none })
    else elim (from_str s) [ none ↦ err invalid_query | some req ↦ ok req ]

-- What a command meets: the outcome of connecting and of queries, the clock, the error of a target
-- that cannot be connected, and what discovery finds. Times are in milliseconds.
pub record World (net : Net) : Type 0 where
  pub connect : net.IpAddr × ℕ → Option (Connection net)
  pub query : Connection net → QueryOutcome net
  pub now : ℕ
  pub error : Text
  pub cache_ttl_ms : ℕ
  pub discover_wait : ℕ
  pub multicast_nodes : Result (List (DiscoveredNode net)) Text
  pub static_nodes : Result (List (DiscoveredNode net)) Text
  pub username : ℕ → Text
  pub payload : Bytes → Option ℕ × List GresView
  pub from_str : Text → Option LocalQuery
  pub to_string : LocalResponse → Option Text

unfoldable pub ok_or_empty {ℓ} : {A : Type ℓ} → Result (List A) Text → List A
ok_or_empty (ok nodes) = nodes
ok_or_empty (err e) = []

module _ (net : Net) where
  -- The id of the first entry with an address.
  unfoldable pub id_at : net.IpAddr × ℕ → CacheMap net → Text
  id_at addr [] = text "conn-unknown"
  id_at addr ((key, entry) ∷ rows) =
      let later = id_at addr rows in
      if addr_eq net entry.addr addr then entry.connection_id else later

  -- The end of the loop of `spawn_heartbeat`, of the connection as it is then.
  unfoldable pub heartbeat_failed :
      ℕ → Connection net → Text → LocalApiState net → LocalApiState net
  unfolding id_at
  heartbeat_failed now connection error self = record self {
    connections = remove_connection net connection.peer self.connections;
    cache =
        mark_stale net now self.cache (id_at connection.peer self.cache) connection.peer
          connection.hostname error;
  }

  -- `run_discovery_reconcile`, from the merged nodes on.
  unfoldable pub reconcile_nodes :
      World net → List (DiscoveredNode net) → LocalApiState net → LocalApiState net
  reconcile_nodes world [] state = state
  reconcile_nodes world (node ∷ nodes) state =
      establish_connections net world.connect world.now (node ∷ nodes)
        (record state { cache = add_discovered_nodes net (node ∷ nodes) state.cache })

  unfoldable pub run_discovery_reconcile : World net → LocalApiState net → LocalApiState net
  unfolding reconcile_nodes
  run_discovery_reconcile world state =
      reconcile_nodes world
        (merge_discovered_nodes net (ok_or_empty world.multicast_nodes)
          (ok_or_empty world.static_nodes))
        state

  -- The state, and whether `run_discovery_reconcile` is left to another thread.
  unfoldable pub reconcile_discovery_for_query :
      World net → LocalApiState net → LocalApiState net × Bool
  unfolding run_discovery_reconcile
  reconcile_discovery_for_query world state =
      let (state', skip) =
        should_skip_query_discovery_reconcile net world.now world.discover_wait state in
      if skip
      then (state', false)
      else if ltb 0 (length state'.cache) && ltb 0 (length state'.connections)
      then (state', true)
      else (run_discovery_reconcile world state', false)

  -- A line of the answer to `LIST`.
  unfoldable pub list_line : ConnectionCacheEntry net → Text
  list_line n =
      n.connection_id
      ++ (text " "
          ++ (n.hostname
              ++ (text " "
                  ++ (net.socket_addr_to_string n.addr
                      ++ (text " " ++ (decimal n.record_timestamp ++ (0x0a ∷ [])))))))

  unfoldable pub list_lines : List (Text × ConnectionCacheEntry net) → Text
  list_lines [] = []
  list_lines ((key, n) ∷ rows) = list_line n ++ list_lines rows

  unfoldable pub handle_list : LocalApiState net → Text
  unfolding list_lines
  handle_list state = list_lines (sort_by (λ row. row.1.connection_id) state.cache)

  unfoldable pub handle_query_command :
      World net → Text → LocalApiState net → LocalApiState net × Result Text CommandError
  unfolding reconcile_discovery_for_query parse_query_request
  handle_query_command world payload state =
      elim (parse_query_request world.from_str (trim payload)) [
        | err e ↦ (state, err e)
        | ok req ↦
            let state' =
              refresh_stale_cache_for_query net world.connect world.query world.now
                world.cache_ttl_ms world.error (reconcile_discovery_for_query world state).0 in
            let resp =
              build_query_response world.username net world.payload world.now state'.cache
                req.filter_ req.user in
            elim (world.to_string resp) [
              | none ↦ (state', err not_encoded)
              | some json ↦ (state', ok (json ++ (0x0a ∷ [])))
            ]
      ]

  unfoldable pub handle_disconnect_host :
      Text → LocalApiState net → LocalApiState net × Result Text CommandError
  handle_disconnect_host hostname state =
      if is_empty hostname
      then (state, ok (text "ERR missing hostname" ++ (0x0a ∷ [])))
      else let (state', count) = disconnect_hostname net hostname state in
        (
          state',
          ok (
              text "OK disconnect_host hostname="
              ++ (hostname ++ (text " count=" ++ (decimal count ++ (0x0a ∷ []))))),
        )

  -- `SHUTDOWN` tells the peers, and leaves the pool as it is.
  unfoldable pub handle_command :
      World net → Text → LocalApiState net → LocalApiState net × Result Text CommandError
  unfolding handle_query_command handle_disconnect_host handle_list
  handle_command world cmd state =
      if bytes_eq cmd (text "LIST")
      then (state, ok (handle_list state))
      else elim (strip_prefix (text "QUERY") cmd) [
        | some payload ↦ handle_query_command world payload state
        | none ↦ elim (strip_prefix (text "SHUTDOWN") cmd) [
          | some reason ↦ (state, ok (text "OK shutdown" ++ (0x0a ∷ [])))
          | none ↦ elim (strip_prefix (text "DISCONNECT_HOST") cmd) [
            | some hostname ↦ handle_disconnect_host (trim hostname) state
            | none ↦ (state, ok (text "ERR unsupported command: " ++ (cmd ++ (0x0a ∷ []))))
          ]
        ]
      ]

  -- `handle_client`, of what each line meets: the state and the answers, until a command fails.
  unfoldable pub handle_client :
      List (World net × Text)
      → LocalApiState net
      → LocalApiState net × List Text × Result (Unit {0}) CommandError
  unfolding handle_command
  handle_client [] state = (state, [], ok tt)
  handle_client ((world, line) ∷ lines) state =
      let (state', response) = handle_command world (trim line) state in
      let (state'', answers, result) = handle_client lines state' in
      elim response [
        | err e ↦ (state', [], err e)
        | ok answer ↦ (state'', answer ∷ answers, result)
      ]
