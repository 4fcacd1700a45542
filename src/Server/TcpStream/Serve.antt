-- ===== src/Server/TcpStream/Serve.antt =====
-- The frames of a stream are read one by one, and the bound on the rounds is enough.
use gpustat4cluster.Base.{
  ℕ, zero, suc, ◌+◌, ◌*◌, ◌^◌, ◌≤◌, ◌<◌, List, [], ◌∷◌, ◌++◌, ◌≡◌, refl, some, none, ok, arith,
  length, take, drop, length-append, length-drop, take-append, drop-append, append_assoc,
  append-nil, false, Result-cases, inl, inr,
}
use gpustat4cluster.Base.Bytes.{Bytes}
use gpustat4cluster.Protocol.Header
use gpustat4cluster.Protocol.Header.{FrameHeader, protocol_version}
use gpustat4cluster.Protocol.Header.Layout.{length-encode, decode-encode}
use gpustat4cluster.Protocol.Frame.{encode_frame}
use gpustat4cluster.Protocol.Frame.RoundTrip.{encode_frame_lem}
use gpustat4cluster.Protocol.Payload.{Archive}
use gpustat4cluster.Snapshot.{HostMetadata, RuntimeSnapshot}
use gpustat4cluster.Server.Cache.{GresCache, Env}
use gpustat4cluster.Server.Transport.{Json, handle_frame}
use gpustat4cluster.Server.TcpStream.{read_tcp_frame, is_disconnect, handle_query_stream}

no_payload : (payload : Bytes) → length payload ≡ 0 → payload ≡ []
no_payload [] h = refl
no_payload (b ∷ bytes) h = absurd (omega (arith, h))

-- Read.
pub read_tcp_frame-encode_frame :
    (h : FrameHeader) (payload rest : Bytes)
    → h.version ≡ protocol_version
    → h.request_id < 2 ^ 64
    → length payload < 2 ^ 32
    → read_tcp_frame (encode_frame h payload ++ rest) ≡ (rest, ok (some (encode_frame h payload)))
unfolding read_tcp_frame
read_tcp_frame-encode_frame h payload rest current id_u64 small =
    let h' : FrameHeader = record h { payload_len = length payload } in
    let head = Header.encode h' in
    let len : length head ≡ 18 = length-encode h' in
    let back =
      decode-encode h' []
        (record { current = current; request_id_u64 = id_u64; payload_len_u32 = small }) in
    let frame_eq : encode_frame h payload ≡ head ++ payload = encode_frame_lem h payload small in
    let whole : (head ++ payload) ++ rest ≡ head ++ (payload ++ rest) =
      append_assoc head payload rest in
    rw (frame_eq, whole)
      (ground (
        arith,
        take-append 18 head (payload ++ rest) len,
        drop-append 18 head (payload ++ rest) len,
        length-append head (payload ++ rest),
        length-append payload rest,
        len,
        back,
        append-nil head,
        take-append (length payload) payload rest refl,
        drop-append (length payload) payload rest refl,
        no_payload payload,
      ))

read_tcp_frame-shorter :
    (stream frame : Bytes)
    → (read_tcp_frame stream).1 ≡ ok (some frame)
    → length (read_tcp_frame stream).0 + 18 ≤ length stream
unfolding read_tcp_frame
read_tcp_frame-shorter stream frame e = elim (Result-cases (Header.decode (take 18 stream))) [
  | inl (header, d) ↦
      ground (arith, d, length-drop 18 stream, length-drop header.payload_len (drop 18 stream))
  | inr (x, d) ↦ absurd (ground (arith, d))
]

module _ (j : Json) (m : Archive HostMetadata) (r : Archive RuntimeSnapshot) where
  -- A bound on the rounds of a TCP stream's service is enough if 18 times the bound is above the
  -- length of the stream: one round more changes nothing.
  pub handle_query_stream_enough :
      (rounds : ℕ) (cache : GresCache) (envs : ℕ → List Env) (stream : Bytes)
      → length stream < 18 * rounds
      → handle_query_stream j m r (suc rounds) cache envs stream
        ≡ handle_query_stream j m r rounds cache envs stream
  unfolding handle_query_stream
  handle_query_stream_enough zero cache envs stream h = absurd (omega (arith, h))
  handle_query_stream_enough (suc n) cache envs stream h =
      elim (Result-cases (read_tcp_frame stream).1) [
        | inr (x, d) ↦ ground (arith, d)
        | inl (none, d) ↦ ground (arith, d)
        | inl (some frame, d) ↦
            let answered = handle_frame j m r cache (envs 0) frame in
            let rest = (read_tcp_frame stream).0 in
            ground (
              arith,
              d,
              handle_query_stream_enough n answered.0 (λ i. envs (i + 1)) rest
                  (omega (arith, h, read_tcp_frame-shorter stream frame d)),
            )
      ]

  -- On a TCP stream that begins with a frame of the current version, a 64-bit request id and a
  -- payload below 2^32 bytes, which is no disconnect and which handle_frame answers, that answer is
  -- written first and then what is written for the rest of the stream, from the cache that the
  -- answer has left.
  pub handle_query_stream-encode_frame :
      (rounds : ℕ) (cache cache' last : GresCache) (envs : ℕ → List Env) (h : FrameHeader)
      (payload rest response : Bytes) (responses : List Bytes)
      → h.version ≡ protocol_version
      → h.request_id < 2 ^ 64
      → length payload < 2 ^ 32
      → is_disconnect j m r (encode_frame h payload) ≡ false
      → handle_frame j m r cache (envs 0) (encode_frame h payload) ≡ (cache', some (ok response))
      → handle_query_stream j m r rounds cache' (λ i. envs (i + 1)) rest ≡ (last, some responses)
      → handle_query_stream j m r (suc rounds) cache envs (encode_frame h payload ++ rest)
        ≡ (last, some (response ∷ responses))
  unfolding handle_query_stream
  handle_query_stream-encode_frame rounds cache cache' last envs h payload rest response responses
        current id_u64 small stays answered later =
      ground (
        arith,
        read_tcp_frame-encode_frame h payload rest current id_u64 small,
        stays,
        answered,
        later,
      )
