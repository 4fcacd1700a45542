-- ===== src/Server/UdpTransport/FastPath.antt =====
-- The fast answers of the UDP loop send what its general path sends.
use gpustat4cluster.Base.{
  ℕ, ◌^◌, ◌<◌, List, [], ◌∷◌, ◌≡◌, ◌≢◌, refl, ap, sym, ◌∙◌, some, ok, err, Result, inl, inr, arith,
  length, All, ◌==◌, Result-cases, ◌>>=◌, true,
}
use gpustat4cluster.Base.Assoc.{find-put}
use gpustat4cluster.Base.Bytes.{Bytes, IsByte}
use gpustat4cluster.Protocol.FrameType.{disconnect, handshake_request, query_request}
use gpustat4cluster.Protocol.Header.{FrameHeader}
use gpustat4cluster.Protocol.Header.Layout.{encode-decode}
use gpustat4cluster.Protocol.Frame.{decode_frame}
use gpustat4cluster.Protocol.Frame.RoundTrip.{decode_frame-inv}
use gpustat4cluster.Protocol.Payload.{Archive}
use gpustat4cluster.Udp.Checksum.{Crc}
use gpustat4cluster.Snapshot.{HostMetadata, RuntimeSnapshot}
use gpustat4cluster.Server.Cache.{GresCache, CacheEntry, Env, get_latest_or_refresh, latest}
use gpustat4cluster.Server.Cache.Metrics.{record_hit}
use gpustat4cluster.Server.Transport.{
  Json, TransportError, DecodedFrame, decode_transport_frame, handle_frame, handle_decoded_frame,
  handle_query, handle_handshake, query_id, accept_handshake, runtime_reply, metadata_reply, framed,
  handle_empty_query_udp_datagram, handle_udp_metadata_datagram,
}
use gpustat4cluster.Server.Transport.Reply.{IsShortJson}
use gpustat4cluster.Server.Transport.Datagram.{
  through, handle_empty_query_udp_datagram_lem, handle_udp_metadata_datagram_lem,
}
use gpustat4cluster.Server.UdpTransport.{
  UdpServer, Network, payload_cap, remember_cap, respond, try_fast, serve_frame, send_response,
}

empty : (bytes : Bytes) → (length bytes == 0) ≡ true → bytes ≡ []
empty [] h = refl
empty (b ∷ bytes) h = absurd (ground arith)

pub entry_hit :
    (c : GresCache) (envs : List Env) (e : CacheEntry)
    → c.entry ≡ some e
    → get_latest_or_refresh c envs ≡ (record c { metrics = record_hit c.metrics }, some (ok e))
unfolding get_latest_or_refresh latest
entry_hit c envs e h = ground arith

module _ (j : Json) (m : Archive HostMetadata) (r : Archive RuntimeSnapshot) (e : CacheEntry) where
  -- What a server with this entry answers, whatever its counters.
  abbrev query_answer : ℕ → Bytes → Result Bytes TransportError
  query_answer id payload =
      query_id j m r id payload >>= λ i. (runtime_reply j m r i (ok e) >>= framed j m r i)

  abbrev handshake_answer : ℕ → Bytes → Result Bytes TransportError
  handshake_answer id payload =
      accept_handshake j m r payload >>= λ _. (metadata_reply j m r id (ok e) >>= framed j m r id)

  query_hit :
      (c : GresCache) (envs : List Env) (id : ℕ) (payload : Bytes)
      → c.entry ≡ some e
      → ((handle_query j m r c envs id payload).1 ≡ some (query_answer id payload))
        × ((handle_query j m r c envs id payload).0.entry ≡ some e)
  unfolding handle_query
  query_hit c envs id payload h = ground (arith, entry_hit c envs e h)

  handshake_hit :
      (c : GresCache) (envs : List Env) (id : ℕ) (payload : Bytes)
      → c.entry ≡ some e
      → ((handle_handshake j m r c envs id payload).1 ≡ some (handshake_answer id payload))
        × ((handle_handshake j m r c envs id payload).0.entry ≡ some e)
  unfolding handle_handshake
  handshake_hit c envs id payload h = ground (arith, entry_hit c envs e h)

payload_cap-remember_cap :
    (net : Network) (peer : ℕ) (caps : List (ℕ × ℕ))
    → payload_cap net peer (remember_cap net peer caps) ≡ payload_cap net peer caps
unfolding payload_cap remember_cap
payload_cap-remember_cap net peer caps =
    ground (arith, find-put peer (payload_cap net peer caps) caps)

module _ (crc : Crc) (j : Json) (m : Archive HostMetadata) (r : Archive RuntimeSnapshot)
    (net : Network) where
  -- What the general path sends for an answer.
  abbrev sent_of : ℕ → Result Bytes TransportError → List Bytes
  sent_of max_payload (ok response) = send_response crc max_payload response
  sent_of max_payload (err e) = []

  respond_lem :
      (s : UdpServer) (peer : ℕ) (envs : List Env) (frame : Bytes) (a : Result Bytes TransportError)
      → (handle_frame j m r s.cache envs frame).1 ≡ some a
      → (respond j m r crc net s peer envs frame).1
        ≡ some (sent_of (payload_cap net peer s.payload_caps) a)
  unfolding respond
  respond_lem s peer envs frame (ok response) h = ground (arith, h)
  respond_lem s peer envs frame (err e) h = ground (arith, h)

  -- A fast answer, or the fallback behind it, sends the same.
  try_fast_lem :
      (s : UdpServer) (peer : ℕ) (envs : List Env) (frame : Bytes) (c : GresCache)
      (a : Result Bytes TransportError)
      → (handle_frame j m r c envs frame).1 ≡ some a
      → (try_fast j m r crc net s peer envs frame
          (through crc (payload_cap net peer s.payload_caps) (c, some a))).1
        ≡ some (sent_of (payload_cap net peer s.payload_caps) a)
  unfolding try_fast send_response
  try_fast_lem s peer envs frame c (err e) h = refl
  try_fast_lem s peer envs frame c (ok response) h =
      let cap = payload_cap net peer s.payload_caps in
      let s' : UdpServer = record s {
        cache = c;
        payload_caps = remember_cap net peer s.payload_caps;
      } in
      ground (
        arith,
        respond_lem s' peer envs frame (ok response) h,
        payload_cap-remember_cap net peer s.payload_caps,
      )

  module _ (e : CacheEntry) (short : IsShortJson j) where
    handshake_fast :
        (s : UdpServer) (peer : ℕ) (envs again : List Env) (frame : Bytes) (d : DecodedFrame)
        → s.cache.entry ≡ some e
        → decode_transport_frame frame ≡ ok d
        → d.header.request_id < 2 ^ 64
        → d.header.frame_type ≡ handshake_request
        → (try_fast j m r crc net s peer again frame (
            handle_udp_metadata_datagram j m r crc s.cache envs d.header.request_id d.payload
              (payload_cap net peer s.payload_caps))).1
          ≡ (respond j m r crc net s peer again frame).1
    unfolding handle_frame handle_decoded_frame
    handshake_fast s peer envs again frame d h decoded id_u64 t =
        let cap = payload_cap net peer s.payload_caps in
        let a = handshake_answer j m r e d.header.request_id d.payload in
        let first = handle_handshake j m r s.cache envs d.header.request_id d.payload in
        let (answered, kept) = handshake_hit j m r e s.cache envs d.header.request_id d.payload h in
        let slow = handshake_hit j m r e s.cache again d.header.request_id d.payload h in
        let next = handshake_hit j m r e first.0 again d.header.request_id d.payload kept in
        let fast : handle_udp_metadata_datagram j m r crc s.cache envs d.header.request_id d.payload
              cap
            ≡ through crc cap (first.0, some a) =
          handle_udp_metadata_datagram_lem crc j m r s.cache envs d.header.request_id d.payload cap
            id_u64 short
          ∙ ap (λ x. through crc cap (first.0, x)) answered in
        rw fast (
          try_fast_lem s peer again frame first.0 a (ground (arith, next))
          ∙ sym (respond_lem s peer again frame a (ground (arith, slow))))

    query_fast :
        (s : UdpServer) (peer : ℕ) (envs again : List Env) (frame : Bytes) (d : DecodedFrame)
        → s.cache.entry ≡ some e
        → decode_transport_frame frame ≡ ok d
        → d.header.request_id < 2 ^ 64
        → d.header.frame_type ≡ query_request
        → d.payload ≡ []
        → (try_fast j m r crc net s peer again frame (
            handle_empty_query_udp_datagram j m r crc s.cache envs d.header.request_id
              (payload_cap net peer s.payload_caps))).1
          ≡ (respond j m r crc net s peer again frame).1
    unfolding handle_frame handle_decoded_frame
    query_fast s peer envs again frame d h decoded id_u64 t empty =
        let cap = payload_cap net peer s.payload_caps in
        let a = query_answer j m r e d.header.request_id [] in
        let first = handle_query j m r s.cache envs d.header.request_id [] in
        let (answered, kept) = query_hit j m r e s.cache envs d.header.request_id [] h in
        let slow = query_hit j m r e s.cache again d.header.request_id [] h in
        let next = query_hit j m r e first.0 again d.header.request_id [] kept in
        let fast : handle_empty_query_udp_datagram j m r crc s.cache envs d.header.request_id cap
            ≡ through crc cap (first.0, some a) =
          handle_empty_query_udp_datagram_lem crc j m r s.cache envs d.header.request_id cap id_u64
            short
          ∙ ap (λ x. through crc cap (first.0, x)) answered in
        rw fast (
          try_fast_lem s peer again frame first.0 a (ground (arith, next))
          ∙ sym (respond_lem s peer again frame a (ground (arith, slow))))

    -- While the cache has an entry, the UDP loop sends for a frame of bytes that is no disconnect
    -- the datagrams of its general path, handle_frame and then one datagram or several, whether or
    -- not a fast answer is tried first, where JSON texts are below 2^32 bytes.
    pub serve_frame_lem :
        (s : UdpServer) (peer : ℕ) (envs again : List Env) (frame : Bytes)
        → All IsByte frame
        → s.cache.entry ≡ some e
        → ((h : FrameHeader) (p : Bytes)
            → decode_frame frame ≡ ok (h, p)
            → h.frame_type ≢ disconnect)
        → (serve_frame j m r crc net s peer envs again frame).1
          ≡ (respond j m r crc net s peer again frame).1
    unfolding serve_frame decode_transport_frame
    serve_frame_lem s peer envs again frame all h other = elim (Result-cases (decode_frame frame)) [
      | inl ((header, payload), d) ↦
          let fits =
            (encode-decode frame header all (decode_frame-inv frame header payload d).0).0 in
          let decoded : DecodedFrame = record { header = header; payload = payload } in
          let same : decode_transport_frame frame ≡ ok decoded = ground (arith, d) in
          ground (
            arith,
            d,
            other header payload d,
            handshake_fast s peer envs again frame decoded h same fits.request_id_u64,
            query_fast s peer envs again frame decoded h same fits.request_id_u64,
            empty payload,
          )
      | inr (x, d) ↦ ground (arith, d)
    ]
