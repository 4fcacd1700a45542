-- ===== src/Client/Adapter.antt =====
-- crates/client-backend/src/adapter.rs: the answer to a local query, from what the client's cache
-- holds. The names of users, UTF-8 decoding and serde_json are parameters.
pub mod Base64
pub mod Legacy
pub mod Answer
use gpustat4cluster.Base.{
  ℕ, ◌+◌, ◌-◌, ◌^◌, min, ltb, ◌==◌, not, if◌then◌else◌, Bool, true, false, Option, none, some, List,
  [], ◌∷◌, ◌++◌, length, map, filter,
}
use gpustat4cluster.Base.Bytes.{Bytes, bytes_eq}
use gpustat4cluster.Base.Text.{Text, text}
use gpustat4cluster.Base.Scan.{is_empty}
use gpustat4cluster.Base.TextMap.{sort_by}
use gpustat4cluster.Snapshot.{GresInfo, GresProcessInfo, ServerGresSnapshot}
use gpustat4cluster.Client.Filter.{Net, node_filter}
use gpustat4cluster.Client.Cache.{ConnectionCacheEntry, CacheMap, matches_filter}

pub record ProcessView : Type 0 where
  pub uid : ℕ
  pub username : Text
  pub pid : ℕ
  pub command : Option Text
  pub used_memory_mb : ℕ

pub record GresView : Type 0 where
  pub index : ℕ
  pub name : Text
  pub temperature_c : Option ℕ
  pub util : ℕ
  pub mem_used_mb : ℕ
  pub mem_total_mb : ℕ
  pub processes : Option (List ProcessView)

pub record NodeView : Type 0 where
  pub connection_id : Text
  pub hostname : Text
  pub addr : Text
  pub timestamp_ms : ℕ
  pub driver_version : Option Text
  pub num : ℕ
  pub stale : Bool
  pub error : Option Text
  pub delay_us : Option ℕ
  pub gres : List GresView

pub record QueryMeta : Type 0 where
  pub status : Text
  pub timestamp_ms : ℕ
  pub node_count : ℕ
  pub errors : List Text

pub record LocalResponse : Type 0 where
  pub meta : QueryMeta
  pub nodes : List NodeView

-- `QueryMeta::default`
abbrev pub default_meta : QueryMeta
default_meta = record { status = text "unknown"; timestamp_ms = 0; node_count = 0; errors = [] }

unfoldable pub clamp_u64_to_u32 : ℕ → ℕ
clamp_u64_to_u32 value = min value (2 ^ 32 - 1)

-- `username_for_uid`; `resolve` is the lookup of a user's name, and `print` writes a number.
unfoldable pub username_for_uid : (ℕ → Option Text) → (ℕ → Text) → ℕ → Text
username_for_uid resolve print uid =
    if uid == 2 ^ 32 - 1
    then text "?"
    else elim (resolve uid) [ none ↦ print uid | some name ↦ name ]

-- Names as `username_for_uid` gives them.
module _ (username : ℕ → Text) where
  unfoldable pub process_view : GresProcessInfo → ProcessView
  unfolding clamp_u64_to_u32
  process_view process = record {
    uid = process.uid;
    username = username process.uid;
    pid = process.pid;
    command = process.command;
    used_memory_mb = clamp_u64_to_u32 process.used_memory_mb;
  }

  unfoldable pub gres_view : GresInfo → GresView
  unfolding process_view
  gres_view gres = record {
    index = gres.index;
    name = gres.name;
    temperature_c = gres.temperature_c;
    util = min gres.utilization.gres_percent 100;
    mem_used_mb = clamp_u64_to_u32 gres.memory.used_mb;
    mem_total_mb = clamp_u64_to_u32 gres.memory.total_mb;
    processes = some (map process_view gres.processes);
  }

  unfoldable pub gres_views_from_snapshot : ServerGresSnapshot → List GresView
  unfolding gres_view
  gres_views_from_snapshot snapshot = map gres_view snapshot.gres

  module _ (net : Net) where
    unfoldable pub node_view_from_snapshot :
        Text → net.IpAddr × ℕ → ℕ → ServerGresSnapshot → Option ℕ → NodeView
    unfolding gres_views_from_snapshot
    node_view_from_snapshot connection_id addr timestamp_ms snapshot delay_us = record {
      connection_id = connection_id;
      hostname = snapshot.hostname;
      addr = net.socket_addr_to_string addr;
      timestamp_ms = timestamp_ms;
      driver_version = snapshot.driver_version;
      num = min (length snapshot.gres) 255;
      stale = false;
      error = none;
      delay_us = delay_us;
      gres = gres_views_from_snapshot snapshot;
    }

    -- `payload` is what `parse_payload_view`, and else `parse_legacy_gres_views`, makes of the bytes
    -- that an entry without snapshot holds: a time, if there is one, and resources.
    unfoldable pub node_view_from_entry :
        (Bytes → Option ℕ × List GresView) → ConnectionCacheEntry net → NodeView
    unfolding node_view_from_snapshot
    node_view_from_entry payload entry = elim entry.last_snapshot [
      | some snapshot ↦
          node_view_from_snapshot entry.connection_id entry.addr entry.record_timestamp snapshot
            entry.last_query_latency_us
      | none ↦
          let (time, gres) = payload entry.server_gres in
          record {
            connection_id = entry.connection_id;
            hostname = entry.hostname;
            addr = net.socket_addr_to_string entry.addr;
            timestamp_ms = elim time [ none ↦ entry.record_timestamp | some t ↦ t ];
            driver_version = none;
            num = entry.num;
            stale = true;
            error = entry.last_error;
            delay_us = entry.last_query_latency_us;
            gres = gres;
          }
    ]

-- `retain` of the processes of one user
unfoldable pub retain_user : Text → GresView → GresView
retain_user user gres = elim gres.processes [
  | none ↦ gres
  | some processes ↦ record gres {
    processes = some (filter (λ process. bytes_eq process.username user) processes);
  }
]

unfoldable pub apply_user_filter : NodeView → Option Text → NodeView
unfolding retain_user
apply_user_filter node none = node
apply_user_filter node (some user) =
    if is_empty user then node else record node { gres = map (retain_user user) node.gres }

module _ (username : ℕ → Text) (net : Net) (payload : Bytes → Option ℕ × List GresView) where
  -- The values of the map that the filter lets pass, as views.
  unfoldable pub selected_views : CacheMap net → List Text → Option Text → List NodeView
  selected_views [] patterns user = []
  selected_views ((key, entry) ∷ rows) patterns user =
      let others = selected_views rows patterns user in
      if matches_filter net entry patterns
      then apply_user_filter (node_view_from_entry username net payload entry) user ∷ others
      else others

  unfoldable pub build_query_response : ℕ → CacheMap net → Option Text → Option Text → LocalResponse
  unfolding selected_views
  build_query_response now rows filter_ user =
      let nodes =
        sort_by (λ (n : NodeView). n.connection_id)
          (selected_views rows (node_filter filter_) user) in
      record {
        meta = record {
          status = if length nodes == 0 then text "empty" else text "ok";
          timestamp_ms = now;
          node_count = length nodes;
          errors = [];
        };
        nodes = nodes;
      }
