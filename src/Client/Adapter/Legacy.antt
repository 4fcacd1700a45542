-- ===== src/Client/Adapter/Legacy.antt =====
-- crates/client-backend/src/adapter.rs: the forms of a node's state that older servers sent.
use gpustat4cluster.Base.{
  ℕ, zero, suc, ◌+◌, ◌^◌, min, ◌==◌, if◌then◌else◌, Option, none, some, List, [], ◌∷◌, length,
  get_or,
}
use gpustat4cluster.Base.Bytes.{Bytes}
use gpustat4cluster.Base.Text.{Text, text}
use gpustat4cluster.Base.Scan.{split_char}
use gpustat4cluster.Base.Scan.Digits.{parse_uint}
use gpustat4cluster.Snapshot.{ServerGresSnapshot}
use gpustat4cluster.Client.Discovery.{JsonValue, bind_option, narrow}
use gpustat4cluster.Client.Adapter.{GresView, gres_views_from_snapshot}
use gpustat4cluster.Client.Adapter.Base64.{decode_base64}

-- One item of the comma-separated form.
unfoldable pub csv_view : List Text → Option GresView
csv_view parts =
    if length parts == 4
    then (bind_option (parse_uint (2 ^ 8) (get_or parts 0 [])) λ index.
        bind_option (parse_uint (2 ^ 8) (get_or parts 1 [])) λ util.
          bind_option (parse_uint (2 ^ 32) (get_or parts 2 [])) λ used.
            bind_option (parse_uint (2 ^ 32) (get_or parts 3 [])) λ total. some (record {
              index = index;
              name = text "GPU";
              temperature_c = none;
              util = util;
              mem_used_mb = used;
              mem_total_mb = total;
              processes = none;
            }))
    else none

-- `filter_map`
unfoldable pub csv_views : List Text → List GresView
unfolding csv_view
csv_views [] = []
csv_views (item ∷ items) =
    let others = csv_views items in
    elim (csv_view (split_char b',' item)) [ none ↦ others | some view ↦ view ∷ others ]

unfoldable pub parse_round1_csv : Text → List GresView
unfolding csv_views
parse_round1_csv s = csv_views (split_char b';' s)

-- `count` views from the index `idx` on.
unfoldable pub plain_views : ℕ → ℕ → ℕ → List GresView
plain_views util idx zero = []
plain_views util idx (suc count) =
    record {
      index = idx;
      name = text "GPU";
      temperature_c = none;
      util = util;
      mem_used_mb = 0;
      mem_total_mb = 0;
      processes = none;
    }
    ∷ plain_views util (idx + 1) count

module _ (json : JsonValue) where
  unfoldable pub parse_round1_server_json : Text → Option (List GresView)
  unfolding plain_views
  parse_round1_server_json s = bind_option (json.parse s) λ value.
      bind_option (bind_option (json.get_field value (text "gres_num")) json.as_u64) λ gres_num.
        bind_option (bind_option (json.get_field value (text "avg_utilization")) json.as_u64)
          λ util. some (plain_views (min util 100) 0 (min gres_num 255))

  -- `lossy` is `String::from_utf8_lossy`.
  unfoldable pub parse_legacy_gres_views : (Bytes → Text) → Bytes → List GresView
  unfolding parse_round1_server_json parse_round1_csv
  parse_legacy_gres_views lossy raw = elim (parse_round1_server_json (lossy raw)) [
    | some view ↦ view
    | none ↦ parse_round1_csv (lossy raw)
  ]

  -- `collect` of the elements into bytes, if each is one.
  unfoldable pub byte_values : List json.Value → Option Bytes
  byte_values [] = some []
  byte_values (item ∷ items) =
      let others = byte_values items in
      bind_option (bind_option (json.as_u64 item) (narrow (2 ^ 8)))
        λ byte. bind_option others λ bytes. some (byte ∷ bytes)

  unfoldable pub payload_bytes_from_server_json : json.Value → Option Bytes
  unfolding byte_values
  payload_bytes_from_server_json value =
      elim (bind_option (json.get_field value (text "payload_b64")) json.as_str) [
        | some raw ↦ decode_base64 raw
        | none ↦
            bind_option (bind_option (json.get_field value (text "payload")) json.as_array)
              byte_values
      ]

  -- `utf8` is `std::str::from_utf8`, `decode` is `decode_snapshot_payload` of the protocol.
  unfoldable pub parse_payload_view :
      (ℕ → Text)
      → (Bytes → Option Text)
      → (Bytes → Option ServerGresSnapshot)
      → ℕ
      → Bytes
      → Option (ℕ × List GresView)
  unfolding payload_bytes_from_server_json
  parse_payload_view username utf8 decode now raw = bind_option (utf8 raw) λ s.
      bind_option (json.parse s) λ value.
        bind_option (payload_bytes_from_server_json value) λ payload.
          bind_option (decode payload)
            λ snapshot. some (now, gres_views_from_snapshot username snapshot)

  -- The payload of an entry without snapshot, as `node_view_from_entry` reads it.
  unfoldable pub payload_view :
      (ℕ → Text)
      → (Bytes → Option Text)
      → (Bytes → Text)
      → (Bytes → Option ServerGresSnapshot)
      → ℕ
      → Bytes
      → Option ℕ × List GresView
  unfolding parse_payload_view parse_legacy_gres_views
  payload_view username utf8 lossy decode now raw =
      elim (parse_payload_view username utf8 decode now raw) [
        | some (time, gres) ↦ (some time, gres)
        | none ↦ (none, parse_legacy_gres_views lossy raw)
      ]
