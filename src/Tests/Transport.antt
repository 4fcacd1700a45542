-- ===== src/Tests/Transport.antt =====
-- The answers of a server at concrete inputs.
use gpustat4cluster.Base.{◌++◌, ◌≡◌, refl, [], ◌∷◌, some, ok, arith}
use gpustat4cluster.Base.Bytes.{Bytes, to_be_bytes}
use gpustat4cluster.Protocol.FrameType.{runtime_payload}
use gpustat4cluster.Protocol.Version.{validate_request, validate_protocol_version, check_version}
use gpustat4cluster.Protocol.Payload.{encode_rkyv_payload, payload_len_from_archived_len}
use gpustat4cluster.Udp.Checksum.{remainder_crc}
use gpustat4cluster.Snapshot.{
  metadata_of, runtime_of, static_info, runtime_info, metadata_hash, write_bytes, write_static,
  write_optional, hash_byte,
}
use gpustat4cluster.Server.Cache.{CacheEntry, GresCache, new, get_latest_or_refresh, latest}
use gpustat4cluster.Server.Cache.Metrics.{record_hit}
use gpustat4cluster.Server.Transport.{
  encode_transport_frame, handle_query, query_id, accept_handshake, runtime_reply,
  handle_empty_query_udp_datagram,
}
use gpustat4cluster.Server.Transport.Reply.{IsShortJson}
use gpustat4cluster.Server.Transport.Datagram.{through, handle_empty_query_udp_datagram_lem}
use gpustat4cluster.Tests.Samples.{json_codec, metadata_archive, runtime_archive, node}

abbrev pub entry : CacheEntry
entry = record { snapshot = node; collected_at = 3 }

abbrev pub filled_cache : GresCache
filled_cache = record new { entry = some entry }

abbrev pub after_hit : GresCache
after_hit = record filled_cache { metrics = record_hit filled_cache.metrics }

latest_filled : get_latest_or_refresh filled_cache [] ≡ (after_hit, some (ok entry))
unfolding get_latest_or_refresh latest
latest_filled = refl

abbrev pub runtime_bytes : Bytes
runtime_bytes = to_be_bytes 8 (metadata_hash (metadata_of node)) ++ (0 ∷ 3 ∷ 55 ∷ 4 ∷ [])

pub encode_runtime : encode_rkyv_payload runtime_archive (runtime_of node) ≡ ok runtime_bytes
unfolding encode_rkyv_payload payload_len_from_archived_len runtime_of runtime_info metadata_of
    static_info metadata_hash write_bytes write_static write_optional hash_byte
encode_runtime = refl

abbrev metadata_bytes : Bytes
metadata_bytes = 0 ∷ 80 ∷ 4 ∷ b'A' ∷ b'1' ∷ b'0' ∷ b'0' ∷ b'n' ∷ b'1' ∷ []

pub answered_query :
    handle_query json_codec metadata_archive runtime_archive filled_cache [] 7 []
    ≡ (after_hit, some (ok (encode_transport_frame runtime_payload 7 runtime_bytes)))
unfolding handle_query query_id runtime_reply get_latest_or_refresh latest
answered_query = ground (arith, encode_runtime)

encode_metadata : encode_rkyv_payload metadata_archive (metadata_of node) ≡ ok metadata_bytes
unfolding encode_rkyv_payload payload_len_from_archived_len metadata_of static_info
encode_metadata = refl

accepted : accept_handshake json_codec metadata_archive runtime_archive (1 ∷ []) ≡ ok tt
unfolding accept_handshake validate_request validate_protocol_version check_version
accepted = refl

pub json_codec-IsShortJson : IsShortJson json_codec
json_codec-IsShortJson r b e = ground arith

handle_empty_query_udp_datagram_lem_example :
    handle_empty_query_udp_datagram json_codec metadata_archive runtime_archive remainder_crc
      filled_cache [] 7 1200
    ≡ through remainder_crc 1200
        (handle_query json_codec metadata_archive runtime_archive filled_cache [] 7 [])
handle_empty_query_udp_datagram_lem_example =
    handle_empty_query_udp_datagram_lem remainder_crc json_codec metadata_archive runtime_archive
      filled_cache [] 7 1200 (omega arith) json_codec-IsShortJson
