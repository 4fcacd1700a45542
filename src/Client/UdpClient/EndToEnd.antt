-- ===== src/Client/UdpClient/EndToEnd.antt =====
-- A query of a client, the server's answer to its datagram, and what the client makes of it.
use gpustat4cluster.Base.{
  ℕ, ◌+◌, ◌^◌, ◌≤◌, ◌<◌, List, [], ◌∷◌, ◌≡◌, refl, sym, ap, some, ok, arith, length, All,
}
use gpustat4cluster.Base.Bytes.{Bytes, IsByte}
use gpustat4cluster.Protocol.FrameType.{
  FrameType, query_request, runtime_payload, frame_type_eq_refl,
}
use gpustat4cluster.Protocol.Header
use gpustat4cluster.Protocol.Frame.{encode_frame, decode_frame}
use gpustat4cluster.Protocol.Frame.RoundTrip.{decode_frame-encode_frame}
use gpustat4cluster.Protocol.Payload.{Archive, encode_rkyv_payload}
use gpustat4cluster.Protocol.Payload.RoundTrip.{decode_rkyv_payload-encode_rkyv_payload}
use gpustat4cluster.Udp.Checksum.{Crc}
use gpustat4cluster.Udp.Single.{encode_udp_single_chunk_from_parts, decode_udp_single_chunk_ref}
use gpustat4cluster.Udp.Single.Whole.{encode_udp_single_chunk_from_parts_lem}
use gpustat4cluster.Snapshot.{
  HostMetadata, RuntimeSnapshot, metadata_of, runtime_of, metadata_hash, omit_process_commands,
}
use gpustat4cluster.Snapshot.Rebuild.{IsDistinct, to_snapshot-runtime_of}
use gpustat4cluster.Server.Cache.{CacheEntry, Env}
use gpustat4cluster.Server.Transport.{
  Json, decode_transport_frame, handle_empty_query_udp_datagram, runtime_reply, datagram,
}
use gpustat4cluster.Server.UdpTransport.{
  UdpServer, Network, payload_cap, receive_datagram, try_fast, serve_frame, serve_datagram,
}
use gpustat4cluster.Server.UdpTransport.FastPath.{entry_hit}
use gpustat4cluster.Client.Transport.{ClientJson, split_frame, parse_runtime_payload_frame}
use gpustat4cluster.Client.UdpClient
use gpustat4cluster.Client.UdpClient.{
  Round, ConnectedUdpNode, next_id, recv_frame, recv_loop, take_datagram, is_answer, expired,
  send_empty_query, parse_query_runtime,
}
use gpustat4cluster.Client.UdpClient.Query.{with_metadata, query_connected}

module _ (crc : Crc) (m : Archive HostMetadata) (r : Archive RuntimeSnapshot) where
  frame_back :
      (t : FrameType) (id : ℕ) (p : Bytes)
      → id < 2 ^ 64
      → length p < 2 ^ 32
      → decode_frame (encode_frame (Header.new t id (length p)) p)
        ≡ ok (Header.new t id (length p), p)
  unfolding Header.new
  frame_back t id p id_u64 small =
      decode_frame-encode_frame (Header.new t id (length p)) p refl id_u64 small

  -- The server's side.
  module _ (j : Json) (net : Network) where
    served :
        (s : UdpServer) (now peer : ℕ) (envs again : List Env) (e : CacheEntry) (id : ℕ)
        (query p answer : Bytes)
        → s.cache.entry ≡ some e
        → id < 2 ^ 64
        → decode_udp_single_chunk_ref crc query
          ≡ ok (some (encode_frame (Header.new query_request id 0) []))
        → encode_rkyv_payload r (runtime_of e.snapshot) ≡ ok p
        → 18 + length p ≤ payload_cap net peer s.payload_caps
        → encode_udp_single_chunk_from_parts crc runtime_payload id p ≡ ok answer
        → (serve_datagram j m r crc net s now peer envs again query).1 ≡ some (answer ∷ [])
    unfolding serve_datagram receive_datagram serve_frame decode_transport_frame try_fast
        handle_empty_query_udp_datagram runtime_reply datagram Header.new
    served s now peer envs again e id query p answer h id_u64 q encoded fits built = ground (
      arith,
      q,
      frame_back query_request id [] id_u64 (omega arith),
      entry_hit s.cache envs e h,
      encoded,
      built,
    )

  -- The client's side.
  module _ (codec : ClientJson) where
    received :
        (id start timeout : ℕ) (round : Round) (answer p : Bytes)
        → id < 2 ^ 64
        → length p < 2 ^ 32
        → round.now < start + timeout
        → round.received ≡ UdpClient.datagram answer
        → decode_udp_single_chunk_ref crc answer
          ≡ ok (some (encode_frame (Header.new runtime_payload id (length p)) p))
        → recv_frame crc id start timeout (round ∷ [])
          ≡ ([], some (ok (encode_frame (Header.new runtime_payload id (length p)) p)))
    unfolding recv_frame recv_loop take_datagram is_answer expired Header.new
    received id start timeout round answer p id_u64 small early got back =
        ground (arith, got, back, frame_back runtime_payload id p id_u64 small)

    parsed :
        (id : ℕ) (runtime : RuntimeSnapshot) (p : Bytes)
        → id < 2 ^ 64
        → encode_rkyv_payload r runtime ≡ ok p
        → parse_query_runtime codec m r (encode_frame (Header.new runtime_payload id (length p)) p)
          ≡ ok runtime
    unfolding parse_query_runtime parse_runtime_payload_frame split_frame Header.new
    parsed id runtime p id_u64 encoded =
        let (decoded, short) = decode_rkyv_payload-encode_rkyv_payload r runtime p encoded in
        ground (
          arith,
          decoded,
          frame_back runtime_payload id p id_u64 (omega arith),
          frame_type_eq_refl runtime_payload,
        )

    concluded :
        (node : ConnectedUdpNode) (start restart timeout : ℕ) (round : Round) (e : CacheEntry)
        (query answer p : Bytes)
        → IsDistinct e.snapshot.gres
        → node.metadata ≡ metadata_of e.snapshot
        → node.next_request_id < 2 ^ 64
        → encode_rkyv_payload r (runtime_of e.snapshot) ≡ ok p
        → round.now < start + timeout
        → round.received ≡ UdpClient.datagram answer
        → send_empty_query crc node.next_request_id ≡ ok query
        → decode_udp_single_chunk_ref crc answer
          ≡ ok (some (encode_frame (Header.new runtime_payload node.next_request_id (length p)) p))
        → (query_connected codec m r crc node start restart timeout (round ∷ [])).1.1
          ≡ some (ok (omit_process_commands e.snapshot))
    unfolding query_connected with_metadata next_id
    concluded node start restart timeout round e query answer p distinct known id_u64 encoded early
          got sent back =
        let (decoded, short) =
          decode_rkyv_payload-encode_rkyv_payload r (runtime_of e.snapshot) p encoded in
        let same_hash : (runtime_of e.snapshot).metadata_hash ≡ metadata_hash node.metadata =
          unfold runtime_of in ap metadata_hash (sym known) in
        ground (
          arith,
          sent,
          received node.next_request_id start timeout round answer p id_u64 (omega arith) early got
              back,
          parsed node.next_request_id (runtime_of e.snapshot) p id_u64 encoded,
          same_hash,
          known,
          to_snapshot-runtime_of e.snapshot distinct,
        )

    -- Take a server whose cache has an entry and a connected client, with a 64-bit next request id,
    -- that knows the metadata of the entry's snapshot, whose resources have distinct indices. If
    -- the archive of the runtime part is made of bytes and its frame fits the server's payload
    -- limit towards the client and 65535 bytes, then the client's query datagram is built, the
    -- server answers it with one datagram, and the query returns, from that datagram received
    -- before the deadline, the entry's snapshot without the commands of processes.
    pub query_connected_lem :
        (j : Json) (net : Network) (s : UdpServer) (now peer : ℕ) (envs again : List Env)
        (e : CacheEntry) (node : ConnectedUdpNode) (start restart timeout before after : ℕ)
        (p : Bytes)
        → s.cache.entry ≡ some e
        → IsDistinct e.snapshot.gres
        → node.metadata ≡ metadata_of e.snapshot
        → node.next_request_id < 2 ^ 64
        → encode_rkyv_payload r (runtime_of e.snapshot) ≡ ok p
        → All IsByte p
        → 18 + length p ≤ payload_cap net peer s.payload_caps
        → 18 + length p < 2 ^ 16
        → before < start + timeout
        → (query : Bytes) × (answer : Bytes) × (send_empty_query crc node.next_request_id
            ≡ ok query)
          × ((serve_datagram j m r crc net s now peer envs again query).1 ≡ some (answer ∷ []))
          × ((query_connected codec m r crc node start restart timeout (
                record { now = before; received = UdpClient.datagram answer; after = after }
                ∷ [])).1.1
              ≡ some (ok (omit_process_commands e.snapshot)))
    unfolding send_empty_query
    query_connected_lem j net s now peer envs again e node start restart timeout before after p
          entry distinct known id_u64 encoded all fits short early =
        let id = node.next_request_id in
        let (query, asked, read) =
          encode_udp_single_chunk_from_parts_lem crc query_request id [] id_u64 (omega arith) tt in
        let (answer, built, back) =
          encode_udp_single_chunk_from_parts_lem crc runtime_payload id p id_u64 short all in
        let sent : send_empty_query crc id ≡ ok query = ground (arith, asked) in
        (
          query,
          answer,
          sent,
          served j net s now peer envs again e id query p answer entry id_u64 read encoded fits
              built,
          concluded node start restart timeout
              (record { now = before; received = UdpClient.datagram answer; after = after }) e query
              answer p distinct known id_u64 encoded early refl sent back,
        )
