-- ===== src/Server/TcpStream.antt =====
-- crates/server/src/main.rs: `read_tcp_frame` and `handle_query_stream`, the service of one TCP
-- connection.
pub mod Serve
use gpustat4cluster.Base.{
  ℕ, zero, suc, ◌+◌, ltb, ◌==◌, if◌then◌else◌, Bool, true, false, Option, none, some, List, [], ◌∷◌,
  ◌++◌, Result, ok, err, length, take, drop,
}
use gpustat4cluster.Base.Bytes.{Bytes}
use gpustat4cluster.Protocol.FrameType.{FrameType, disconnect}
use gpustat4cluster.Protocol.Header
use gpustat4cluster.Protocol.Header.{frame_header_len}
use gpustat4cluster.Protocol.Payload.{Archive}
use gpustat4cluster.Snapshot.{HostMetadata, RuntimeSnapshot}
use gpustat4cluster.Server.Cache.{GresCache, Env}
use gpustat4cluster.Server.Transport.{Json, decode_transport_frame, handle_frame}

-- An error of a stream: what the header is refused for, or the end of the stream inside a payload.
pub data StreamError : Type 0 where
  invalid_header : StreamError
  unexpected_eof : StreamError

-- A stream is the bytes that the peer sends before it closes; the rest of it is returned.
-- `read_exact` fails where too few bytes are left.
unfoldable pub read_tcp_frame : Bytes → Bytes × Result (Option Bytes) StreamError
read_tcp_frame stream =
    let header_bytes = take frame_header_len stream in
    let rest = drop frame_header_len stream in
    if ltb (length stream) frame_header_len
    then ([], ok none)
    else elim (Header.decode header_bytes) [
      | err e ↦ (rest, err invalid_header)
      | ok header ↦
          if header.payload_len == 0
          then (rest, ok (some header_bytes))
          else if ltb (length rest) header.payload_len
          then ([], err unexpected_eof)
          else (
            drop header.payload_len rest,
            ok (some (header_bytes ++ take header.payload_len rest)),
          )
    ]

module _ (json_codec : Json) (metadata_archive : Archive HostMetadata)
    (runtime_archive : Archive RuntimeSnapshot) where
  -- Whether the frame is a disconnect.
  unfoldable pub is_disconnect : Bytes → Bool
  is_disconnect frame = elim (decode_transport_frame frame) [
    | err e ↦ false
    | ok decoded ↦ elim decoded.header.frame_type [ disconnect ↦ true | other ↦ false ]
  ]

  -- The responses that are written, in a row, and the cache. The first argument bounds the rounds;
  -- a round takes 18 bytes of the stream at least. `envs` gives the steps of each round's look at the
  -- cache. `none` while the cache waits for another thread's refresh.
  unfoldable pub handle_query_stream :
      ℕ → GresCache → (ℕ → List Env) → Bytes → GresCache × Option (List Bytes)
  handle_query_stream zero cache envs stream = (cache, some [])
  handle_query_stream (suc rounds) cache envs stream =
      let (rest, read) = read_tcp_frame stream in
      elim read [
        | err e ↦ (cache, some [])
        | ok none ↦ (cache, some [])
        | ok (some frame) ↦
            let (cache', answer) =
              handle_frame json_codec metadata_archive runtime_archive cache (envs 0) frame in
            let (last, later) = handle_query_stream rounds cache' (λ i. envs (i + 1)) rest in
            if is_disconnect frame then (cache, some []) else elim answer [
              | none ↦ (cache', none)
              | some (err e) ↦ (cache', some [])
              | some (ok response) ↦ elim later [
                | none ↦ (last, none)
                | some responses ↦ (last, some (response ∷ responses))
              ]
            ]
      ]
