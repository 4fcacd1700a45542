-- ===== src/Server/Transport/Reply.antt =====
-- What the answers of a server are decoded to.
use gpustat4cluster.Base.{
  ℕ, ◌%◌, ◌^◌, ◌<◌, [], ◌≡◌, refl, some, ok, err, Result, List, arith, length,
}
use gpustat4cluster.Base.Bytes.{Bytes}
use gpustat4cluster.ErrorCode.{ErrorCode}
use gpustat4cluster.Protocol.FrameType.{
  FrameType, metadata_payload, runtime_payload, query_response,
}
use gpustat4cluster.Protocol.Header
use gpustat4cluster.Protocol.Header.{FrameHeader}
use gpustat4cluster.Protocol.Frame.{decode_frame}
use gpustat4cluster.Protocol.Frame.RoundTrip.{decode_frame-encode_frame}
use gpustat4cluster.Protocol.Version.{QueryResponse, error_response}
use gpustat4cluster.Protocol.Payload.{Archive, encode_rkyv_payload, decode_rkyv_payload}
use gpustat4cluster.Protocol.Payload.RoundTrip.{decode_rkyv_payload-encode_rkyv_payload}
use gpustat4cluster.Snapshot.{HostMetadata, RuntimeSnapshot, metadata_of, runtime_of}
use gpustat4cluster.Server.Cache.{GresCache, CacheEntry, Env, get_latest_or_refresh}
use gpustat4cluster.Server.Transport.{
  accept_handshake, Json, encode_transport_frame, metadata_reply, runtime_reply, handle_handshake,
  handle_query, query_id,
}

-- The texts that serde_json writes are shorter than 2^32 bytes.
abbrev pub IsShortJson : Json → Type 0
IsShortJson j = (r : QueryResponse) (b : Bytes) → j.write_response r ≡ some b → length b < 2 ^ 32

pub decode_transport :
    (frame_type : FrameType) (id : ℕ) (payload : Bytes)
    → id < 2 ^ 64
    → length payload < 2 ^ 32
    → decode_frame (encode_transport_frame frame_type id payload)
      ≡ ok (Header.new frame_type id (length payload), payload)
unfolding encode_transport_frame Header.new
decode_transport frame_type id payload id_u64 small =
    decode_frame-encode_frame (Header.new frame_type id (length payload % 2 ^ 32)) payload refl
      id_u64 small

module _ (j : Json) (m : Archive HostMetadata) (r : Archive RuntimeSnapshot) where
  pub runtime_reply_ok :
      (id : ℕ) (entry : CacheEntry) (t : FrameType) (p : Bytes)
      → runtime_reply j m r id (ok entry) ≡ ok (t, p)
      → (t ≡ runtime_payload) × (encode_rkyv_payload r (runtime_of entry.snapshot) ≡ ok p)
  unfolding runtime_reply
  runtime_reply_ok id entry t p e = ground arith

  pub metadata_reply_ok :
      (id : ℕ) (entry : CacheEntry) (t : FrameType) (p : Bytes)
      → metadata_reply j m r id (ok entry) ≡ ok (t, p)
      → (t ≡ metadata_payload) × (encode_rkyv_payload m (metadata_of entry.snapshot) ≡ ok p)
  unfolding metadata_reply
  metadata_reply_ok id entry t p e = ground arith

  reply_err :
      (id : ℕ) (code : ErrorCode) (t : FrameType) (p : Bytes)
      → runtime_reply j m r id (err code) ≡ ok (t, p)
      → (t ≡ query_response) × (j.write_response (error_response id code) ≡ some p)
  unfolding runtime_reply
  reply_err id code t p e = ground arith

  -- Both kinds of answers are short enough for a frame.
  pub length-runtime_reply :
      (id : ℕ) (result : Result CacheEntry ErrorCode) (t : FrameType) (p : Bytes)
      → IsShortJson j
      → runtime_reply j m r id result ≡ ok (t, p)
      → length p < 2 ^ 32
  length-runtime_reply id (ok entry) t p short e = omega (
    arith,
    decode_rkyv_payload-encode_rkyv_payload r (runtime_of entry.snapshot) p
        (runtime_reply_ok id entry t p e).1,
  )
  length-runtime_reply id (err code) t p short e =
      short (error_response id code) p (reply_err id code t p e).1

  pub length-metadata_reply :
      (id : ℕ) (result : Result CacheEntry ErrorCode) (t : FrameType) (p : Bytes)
      → IsShortJson j
      → metadata_reply j m r id result ≡ ok (t, p)
      → length p < 2 ^ 32
  unfolding metadata_reply
  length-metadata_reply id (ok entry) t p short e = omega (
    arith,
    decode_rkyv_payload-encode_rkyv_payload m (metadata_of entry.snapshot) p
        (metadata_reply_ok id entry t p e).1,
  )
  length-metadata_reply id (err code) t p short e = short (error_response id code) p (ground arith)

  -- A query without payload and with a 64-bit id is answered, if the cache returns an entry whose
  -- runtime part can be encoded: the answer is a frame of the type RuntimePayload with the id of
  -- the query, its payload is decoded to the runtime part of the entry's snapshot, and the cache is
  -- the one that the lookup leaves.
  pub handle_query_ok :
      (cache after : GresCache) (envs : List Env) (id : ℕ) (entry : CacheEntry) (p : Bytes)
      → id < 2 ^ 64
      → get_latest_or_refresh cache envs ≡ (after, some (ok entry))
      → encode_rkyv_payload r (runtime_of entry.snapshot) ≡ ok p
      → (bytes : Bytes) × (handle_query j m r cache envs id [] ≡ (after, some (ok bytes)))
        × (decode_frame bytes ≡ ok (Header.new runtime_payload id (length p), p))
        × (decode_rkyv_payload r p ≡ ok (runtime_of entry.snapshot))
  unfolding handle_query query_id runtime_reply
  handle_query_ok cache after envs id entry p id_u64 latest encoded =
      let (decoded, short) =
        decode_rkyv_payload-encode_rkyv_payload r (runtime_of entry.snapshot) p encoded in
      (
        encode_transport_frame runtime_payload id p,
        ground (arith, latest, encoded),
        decode_transport runtime_payload id p id_u64 (omega arith),
        decoded,
      )

  -- A metadata request that is accepted, with a 64-bit id, is answered, if the cache returns an
  -- entry whose metadata can be encoded: the answer is a frame of the type MetadataPayload with the
  -- id of the request, its payload is decoded to the metadata of the entry's snapshot, and the
  -- cache is the one that the lookup leaves.
  pub handle_handshake_ok :
      (cache after : GresCache) (envs : List Env) (id : ℕ) (payload : Bytes) (entry : CacheEntry)
      (p : Bytes)
      → id < 2 ^ 64
      → accept_handshake j m r payload ≡ ok tt
      → get_latest_or_refresh cache envs ≡ (after, some (ok entry))
      → encode_rkyv_payload m (metadata_of entry.snapshot) ≡ ok p
      → (bytes : Bytes) × (handle_handshake j m r cache envs id payload ≡ (after, some (ok bytes)))
        × (decode_frame bytes ≡ ok (Header.new metadata_payload id (length p), p))
        × (decode_rkyv_payload m p ≡ ok (metadata_of entry.snapshot))
  unfolding handle_handshake metadata_reply
  handle_handshake_ok cache after envs id payload entry p id_u64 accepted latest encoded =
      let (decoded, short) =
        decode_rkyv_payload-encode_rkyv_payload m (metadata_of entry.snapshot) p encoded in
      (
        encode_transport_frame metadata_payload id p,
        ground (arith, accepted, latest, encoded),
        decode_transport metadata_payload id p id_u64 (omega arith),
        decoded,
      )
