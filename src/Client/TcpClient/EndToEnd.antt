-- ===== src/Client/TcpClient/EndToEnd.antt =====
-- A client and a server on a TCP stream.
use gpustat4cluster.Base.{
  ℕ, ◌+◌, ◌^◌, ◌<◌, ◌≡◌, refl, sym, ap, ◌∙◌, List, [], ◌∷◌, ◌++◌, some, ok, arith, length,
  append-nil, append_assoc, take-append, drop-append, length-append, false,
}
use gpustat4cluster.Base.Bytes.{Bytes}
use gpustat4cluster.Protocol.FrameType.{
  FrameType, query_request, runtime_payload, frame_type_eq_refl,
}
use gpustat4cluster.Protocol.Header
use gpustat4cluster.Protocol.Header.{FrameHeader, protocol_version}
use gpustat4cluster.Protocol.Header.Layout.{length-encode, decode-encode}
use gpustat4cluster.Protocol.Frame.{encode_frame, decode_frame}
use gpustat4cluster.Protocol.Frame.RoundTrip.{encode_frame_lem, decode_frame-encode_frame}
use gpustat4cluster.Protocol.Version.{validate_protocol_version, check_version}
use gpustat4cluster.Protocol.Payload.{Archive, encode_rkyv_payload}
use gpustat4cluster.Protocol.Payload.RoundTrip.{decode_rkyv_payload-encode_rkyv_payload}
use gpustat4cluster.Snapshot.{
  HostMetadata, RuntimeSnapshot, metadata_of, runtime_of, metadata_hash, omit_process_commands,
}
use gpustat4cluster.Snapshot.Rebuild.{IsDistinct, to_snapshot-runtime_of}
use gpustat4cluster.Server.Cache.{GresCache, CacheEntry, Env}
use gpustat4cluster.Server.Cache.Metrics.{record_hit}
use gpustat4cluster.Server.Transport.{
  Json, decode_transport_frame, encode_transport_frame, handle_frame, handle_decoded_frame,
  handle_query, query_id, runtime_reply,
}
use gpustat4cluster.Server.TcpStream.{read_tcp_frame, is_disconnect, handle_query_stream}
use gpustat4cluster.Server.TcpStream.Serve.{handle_query_stream-encode_frame}
use gpustat4cluster.Server.UdpTransport.FastPath.{entry_hit}
use gpustat4cluster.Client.Transport.{
  ClientJson, split_frame, encode_bytes_frame, build_query_request_frame,
  parse_runtime_payload_frame,
}
use gpustat4cluster.Client.TcpClient.{
  ConnectedTcpNode, read_frame, tcp_with_metadata, query_tcp_connected,
}

no_bytes : (payload : Bytes) → length payload ≡ 0 → payload ≡ []
no_bytes [] h = refl
no_bytes (b ∷ bytes) h = absurd (omega (arith, h))

-- A frame at the beginning of the stream is what the client reads, and the rest stays.
pub read_frame-encode_frame :
    (h : FrameHeader) (payload rest : Bytes)
    → h.version ≡ protocol_version
    → h.request_id < 2 ^ 64
    → length payload < 2 ^ 32
    → read_frame (encode_frame h payload ++ rest) ≡ (rest, ok (encode_frame h payload))
unfolding read_frame
read_frame-encode_frame h payload rest current id_u64 small =
    let h' : FrameHeader = record h { payload_len = length payload } in
    let head = Header.encode h' in
    let len : length head ≡ 18 = length-encode h' in
    let back =
      decode-encode h' []
        (record { current = current; request_id_u64 = id_u64; payload_len_u32 = small }) in
    let frame_eq : encode_frame h payload ≡ head ++ payload = encode_frame_lem h payload small in
    let whole : (head ++ payload) ++ rest ≡ head ++ (payload ++ rest) =
      append_assoc head payload rest in
    rw (frame_eq, whole)
      (ground (
        arith,
        take-append 18 head (payload ++ rest) len,
        drop-append 18 head (payload ++ rest) len,
        length-append head (payload ++ rest),
        length-append payload rest,
        len,
        back,
        append-nil head,
        take-append (length payload) payload rest refl,
        drop-append (length payload) payload rest refl,
        no_bytes payload,
      ))

module _ (m : Archive HostMetadata) (r : Archive RuntimeSnapshot) where
  frame_back :
      (t : FrameType) (id : ℕ) (p : Bytes)
      → id < 2 ^ 64
      → length p < 2 ^ 32
      → decode_frame (encode_frame (Header.new t id (length p)) p)
        ≡ ok (Header.new t id (length p), p)
  unfolding Header.new
  frame_back t id p id_u64 small =
      decode_frame-encode_frame (Header.new t id (length p)) p refl id_u64 small

  module _ (j : Json) where
    not_disconnect :
        (q : Bytes)
        → length q < 2 ^ 32
        → is_disconnect j m r (encode_frame (Header.new query_request 2 (length q)) q) ≡ false
    unfolding is_disconnect decode_transport_frame Header.new
    not_disconnect q small = ground (arith, frame_back query_request 2 q (omega arith) small)

    silent :
        (cache : GresCache) (envs : ℕ → List Env)
        → handle_query_stream j m r 1 cache envs [] ≡ (cache, some [])
    unfolding handle_query_stream read_tcp_frame
    silent cache envs = ground arith

    served :
        (cache : GresCache) (envs : List Env) (e : CacheEntry) (q p : Bytes)
        → cache.entry ≡ some e
        → length q < 2 ^ 32
        → 0 < length q
        → j.read_query q ≡ some (record { version = protocol_version; request_id = 2 })
        → encode_rkyv_payload r (runtime_of e.snapshot) ≡ ok p
        → handle_frame j m r cache envs (encode_frame (Header.new query_request 2 (length q)) q) ≡ (
          record cache { metrics = record_hit cache.metrics },
          some (ok (encode_transport_frame runtime_payload 2 p)),
        )
    unfolding handle_frame handle_decoded_frame handle_query decode_transport_frame query_id
        runtime_reply Header.new validate_protocol_version check_version
    served cache envs e q p entry small nonempty read encoded = ground (
      arith,
      frame_back query_request 2 q (omega arith) small,
      entry_hit cache envs e entry,
      read,
      encoded,
    )

  module _ (codec : ClientJson) where
    built :
        (q : Bytes)
        → codec.write_query (record { version = protocol_version; request_id = 2 }) ≡ some q
        → length q < 2 ^ 32
        → build_query_request_frame codec 2
          ≡ ok (encode_frame (Header.new query_request 2 (length q)) q)
    unfolding build_query_request_frame encode_bytes_frame
    built q written small = ground (arith, written)

    parsed :
        (runtime : RuntimeSnapshot) (p : Bytes)
        → encode_rkyv_payload r runtime ≡ ok p
        → parse_runtime_payload_frame r (encode_frame (Header.new runtime_payload 2 (length p)) p)
          ≡ ok runtime
    unfolding parse_runtime_payload_frame split_frame Header.new
    parsed runtime p encoded =
        let (decoded, short) = decode_rkyv_payload-encode_rkyv_payload r runtime p encoded in
        ground (
          arith,
          decoded,
          frame_back runtime_payload 2 p (omega arith) (omega arith),
          frame_type_eq_refl runtime_payload,
        )

    -- The frame that the server writes is the one with the payload's own length.
    same_frame :
        (p : Bytes)
        → length p < 2 ^ 32
        → encode_transport_frame runtime_payload 2 p
          ≡ encode_frame (Header.new runtime_payload 2 (length p)) p
    unfolding encode_transport_frame
    same_frame p small = ap (λ n. encode_frame (Header.new runtime_payload 2 n) p) (omega arith)

    concluded :
        (node : ConnectedTcpNode) (e : CacheEntry) (q p rest : Bytes)
        → IsDistinct e.snapshot.gres
        → node.metadata ≡ metadata_of e.snapshot
        → encode_rkyv_payload r (runtime_of e.snapshot) ≡ ok p
        → node.io ≡ encode_frame (Header.new runtime_payload 2 (length p)) p ++ rest
        → build_query_request_frame codec 2
          ≡ ok (encode_frame (Header.new query_request 2 (length q)) q)
        → query_tcp_connected codec m r node ≡ (
          record node { io = rest },
          (
            encode_frame (Header.new query_request 2 (length q)) q ∷ [],
            ok (omit_process_commands e.snapshot),
          ),
        )
    unfolding query_tcp_connected tcp_with_metadata
    concluded node e q p rest distinct known encoded stream asked =
        let (decoded, short) =
          decode_rkyv_payload-encode_rkyv_payload r (runtime_of e.snapshot) p encoded in
        let same_hash : (runtime_of e.snapshot).metadata_hash ≡ metadata_hash node.metadata =
          unfold runtime_of in ap metadata_hash (sym known) in
        let read =
          ap read_frame stream
          ∙ read_frame-encode_frame (Header.new runtime_payload 2 (length p)) p rest
              (unfold Header.new in refl) (unfold Header.new in omega arith) (omega arith) in
        ground (
          arith,
          read,
          asked,
          parsed (runtime_of e.snapshot) p encoded,
          same_hash,
          known,
          to_snapshot-runtime_of e.snapshot distinct,
        )

    -- Take a server whose cache has an entry, whose resources have distinct indices and whose
    -- runtime part can be encoded, and a client that knows the entry's metadata. If the server
    -- reads the query text that the client writes, of at least one and fewer than 2^32 bytes, as
    -- the query with the current version and the id 2, then there are a query frame and an answer:
    -- serving the query as a whole stream, the server writes exactly that answer, and with the
    -- answer next on its stream, whatever comes behind it, the client sends that query, takes just
    -- the answer from the stream and returns the entry's snapshot without the commands of
    -- processes.
    pub query_tcp_connected_lem :
        (j : Json) (cache : GresCache) (envs : ℕ → List Env) (e : CacheEntry)
        (node : ConnectedTcpNode) (q p rest : Bytes)
        → cache.entry ≡ some e
        → codec.write_query (record { version = protocol_version; request_id = 2 }) ≡ some q
        → j.read_query q ≡ some (record { version = protocol_version; request_id = 2 })
        → 0 < length q
        → length q < 2 ^ 32
        → IsDistinct e.snapshot.gres
        → node.metadata ≡ metadata_of e.snapshot
        → encode_rkyv_payload r (runtime_of e.snapshot) ≡ ok p
        → (query : Bytes) × (answer : Bytes) × ((handle_query_stream j m r 2 cache envs query).1
            ≡ some (answer ∷ []))
          × (query_tcp_connected codec m r (record node { io = answer ++ rest })
              ≡ (record node { io = rest }, (query ∷ [], ok (omit_process_commands e.snapshot))))
    query_tcp_connected_lem j cache envs e node q p rest entry written read nonempty small distinct
          known encoded =
        let query = encode_frame (Header.new query_request 2 (length q)) q in
        let answer = encode_frame (Header.new runtime_payload 2 (length p)) p in
        let (decoded, short) =
          decode_rkyv_payload-encode_rkyv_payload r (runtime_of e.snapshot) p encoded in
        let after : GresCache = record cache { metrics = record_hit cache.metrics } in
        let frame =
          served j cache (envs 0) e q p entry small nonempty read encoded
          ∙ ap (λ (b : Bytes). (after, some (ok b))) (same_frame p (omega arith)) in
        let stream =
          handle_query_stream-encode_frame j m r 1 cache after after envs
            (Header.new query_request 2 (length q)) q [] answer [] (unfold Header.new in refl)
            (unfold Header.new in omega arith) small (not_disconnect j q small) frame
            (silent j after (λ i. envs (i + 1))) in
        (
          query,
          answer,
          ap (λ (b : Bytes). (handle_query_stream j m r 2 cache envs b).1) (sym (append-nil query))
              ∙ ap (λ t. t.1) stream,
          concluded (record node { io = answer ++ rest }) e q p rest distinct known encoded refl
              (built q written small),
        )
