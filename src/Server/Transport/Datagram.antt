-- ===== src/Server/Transport/Datagram.antt =====
-- The datagram of a fast answer is the datagram of the answer that the stream transport gives.
use gpustat4cluster.Base.{
  ℕ, ◌%◌, ◌^◌, ◌<◌, [], ◌≡◌, refl, some, none, ok, err, Result, List, Option, inl, inr, arith, ltb,
  if◌then◌else◌, length, Option-cases, ◌>>=◌, map_err, map_ok,
}
use gpustat4cluster.Base.Bytes.{Bytes}
use gpustat4cluster.Protocol.FrameType.{FrameType}
use gpustat4cluster.Protocol.Header
use gpustat4cluster.Protocol.Frame.RoundTrip.{length-encode_frame}
use gpustat4cluster.Protocol.Payload.{Archive}
use gpustat4cluster.Udp.Checksum.{Crc}
use gpustat4cluster.Udp.Single.{encode_udp_single_chunk}
use gpustat4cluster.Udp.Single.Parts.{encode_udp_single_chunk-encode_frame}
use gpustat4cluster.Snapshot.{HostMetadata, RuntimeSnapshot}
use gpustat4cluster.Server.Cache.{GresCache, Env, get_latest_or_refresh}
use gpustat4cluster.Server.Transport.{
  Json, Answer, TransportError, udp, encode_transport_frame, metadata_reply, runtime_reply, framed,
  datagram, handle_handshake, handle_query, query_id, handle_empty_query_udp_datagram,
  handle_udp_metadata_datagram,
}
use gpustat4cluster.Server.Transport.Reply.{
  IsShortJson, length-runtime_reply, length-metadata_reply,
}

module _ (crc : Crc) where
  -- A frame as one datagram, `none` if it does not fit.
  abbrev pub in_datagram : ℕ → Bytes → Result (Option Bytes) TransportError
  in_datagram max_payload frame =
      if ltb max_payload (length frame)
      then ok none
      else map_ok some (map_err udp (encode_udp_single_chunk crc frame))

  -- The answer of a stream handler, its frame put into a datagram.
  abbrev pub through : ℕ → Answer Bytes → Answer (Option Bytes)
  through max_payload (cache, none) = (cache, none)
  through max_payload (cache, some result) = (cache, some (result >>= in_datagram max_payload))

  module _ (j : Json) (m : Archive HostMetadata) (r : Archive RuntimeSnapshot) where
    datagram_lem :
        (id max_payload : ℕ) (t : FrameType) (p : Bytes)
        → id < 2 ^ 64
        → length p < 2 ^ 32
        → datagram j m r crc id max_payload (t, p)
          ≡ in_datagram max_payload (encode_transport_frame t id p)
    unfolding datagram encode_transport_frame
    datagram_lem id max_payload t p id_u64 small =
        let e : length p % 2 ^ 32 ≡ length p = omega arith in
        rw e (
          ground (
            arith,
            encode_udp_single_chunk-encode_frame crc t id p id_u64 small,
            length-encode_frame (Header.new t id (length p)) p,
          ))

    reply_in_datagram :
        (id max_payload : ℕ) (reply : Result (FrameType × Bytes) TransportError)
        → id < 2 ^ 64
        → ((t : FrameType) (p : Bytes) → reply ≡ ok (t, p) → length p < 2 ^ 32)
        → (reply >>= datagram j m r crc id max_payload)
          ≡ ((reply >>= framed j m r id) >>= in_datagram max_payload)
    reply_in_datagram id max_payload (ok (t, p)) id_u64 short =
        datagram_lem id max_payload t p id_u64 (short t p refl)
    reply_in_datagram id max_payload (err e) id_u64 short = refl

    -- The fast answer to an empty query is that of the stream handler, cache and errors included,
    -- its frame put into one datagram if it fits the payload limit, for a 64-bit id and JSON texts
    -- below 2^32 bytes.
    pub handle_empty_query_udp_datagram_lem :
        (cache : GresCache) (envs : List Env) (id max_payload : ℕ)
        → id < 2 ^ 64
        → IsShortJson j
        → handle_empty_query_udp_datagram j m r crc cache envs id max_payload
          ≡ through max_payload (handle_query j m r cache envs id [])
    unfolding handle_empty_query_udp_datagram handle_query query_id
    handle_empty_query_udp_datagram_lem cache envs id max_payload id_u64 short =
        elim (Option-cases (get_latest_or_refresh cache envs).1) [
          | inl waits ↦ ground (arith, waits)
          | inr (result, got) ↦ ground (
            arith,
            got,
            reply_in_datagram id max_payload (runtime_reply j m r id result) id_u64
                (λ t p. length-runtime_reply j m r id result t p short),
          )
        ]

    -- The fast answer to a metadata request, accepted or refused, is that of the stream handler,
    -- cache and errors included, its frame put into one datagram if it fits the payload limit, for
    -- a 64-bit id and JSON texts below 2^32 bytes.
    pub handle_udp_metadata_datagram_lem :
        (cache : GresCache) (envs : List Env) (id : ℕ) (payload : Bytes) (max_payload : ℕ)
        → id < 2 ^ 64
        → IsShortJson j
        → handle_udp_metadata_datagram j m r crc cache envs id payload max_payload
          ≡ through max_payload (handle_handshake j m r cache envs id payload)
    unfolding handle_udp_metadata_datagram handle_handshake
    handle_udp_metadata_datagram_lem cache envs id payload max_payload id_u64 short =
        elim (Option-cases (get_latest_or_refresh cache envs).1) [
          | inl waits ↦ ground (arith, waits)
          | inr (result, got) ↦ ground (
            arith,
            got,
            reply_in_datagram id max_payload (metadata_reply j m r id result) id_u64
                (λ t p. length-metadata_reply j m r id result t p short),
          )
        ]
