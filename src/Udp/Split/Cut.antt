-- ===== src/Udp/Split/Cut.antt =====
-- What is known of a frame that `encode_udp_chunks` has cut, and of its datagrams.
use gpustat4cluster.Base.{
  ℕ, zero, suc, ◌+◌, ◌^◌, ◌≤◌, ◌<◌, List, [], ◌∷◌, ◌++◌, ◌≡◌, refl, ap, ◌∙◌, arith, ok, inl, inr,
  map, length, length-map, get_or, All, Result-cases,
}
use gpustat4cluster.Base.Bytes.{Bytes, IsByte}
use gpustat4cluster.Base.Chunks.{chunks, length-chunks}
use gpustat4cluster.Protocol.Header.{FrameHeader}
use gpustat4cluster.Protocol.Header.Layout.{IsHeader, encode-decode}
use gpustat4cluster.Protocol.Frame.{decode_frame}
use gpustat4cluster.Protocol.Frame.RoundTrip.{decode_frame-inv}
use gpustat4cluster.Udp.Checksum.{Crc}
use gpustat4cluster.Udp.Chunk
use gpustat4cluster.Udp.Chunk.Layout.{IsChunkHeader}
use gpustat4cluster.Udp.Split.{chunk_header, datagrams, encode_udp_chunks}

All-weaken :
    (n m : ℕ) (ps : List Bytes) → n ≤ m → All (λ p. length p ≤ n) ps → All (λ p. length p ≤ m) ps
All-weaken n m [] h all = tt
All-weaken n m (p ∷ ps) h all = (omega (arith, all.0), All-weaken n m ps h all.1)

module _ (crc : Crc) where
  hash-lt : (ps : List Bytes) (i : ℕ) → get_or (map crc.hash ps) i 0 < 2 ^ 32
  hash-lt [] i = omega arith
  hash-lt (p ∷ ps) zero = crc.hash_u32 p
  hash-lt (p ∷ ps) (suc i) = hash-lt ps i

  pub record Cut (bytes : Bytes) (max_payload : ℕ) (ds : List Bytes) : Type 0 where
    pub header : FrameHeader
    pub payload : Bytes
    pub frame : decode_frame bytes ≡ ok (header, payload)
    pub is_header : IsHeader header
    pub below : length bytes < 2 ^ 32
    pub room : 256 ≤ max_payload
    pub few : length (chunks max_payload bytes) < 2 ^ 16
    pub written :
        ds
        ≡ datagrams header
            (length bytes)
            (map crc.hash (chunks max_payload bytes))
            0
            (chunks max_payload bytes)

  pub encode_udp_chunks-inv :
      (bytes : Bytes) (max_payload : ℕ) (ds : List Bytes)
      → All IsByte bytes
      → encode_udp_chunks crc bytes max_payload ≡ ok ds
      → Cut bytes max_payload ds
  unfolding encode_udp_chunks
  encode_udp_chunks-inv bytes max_payload ds all e = elim (Result-cases (decode_frame bytes)) [
    | inl ((header, payload), d) ↦
        let room : 256 ≤ max_payload = ground arith in
        record {
          header = header;
          payload = payload;
          frame = d;
          is_header =
              (encode-decode bytes header all (decode_frame-inv bytes header payload d).0).0;
          below = ground arith;
          room = room;
          few = ground (arith, length-chunks max_payload bytes (omega arith));
          written = ground arith;
        }
    | inr (x, d) ↦ absurd (ground arith)
  ]

  pub chunk_header-IsChunkHeader :
      (fh : FrameHeader) (len : ℕ) (pieces : List Bytes) (i : ℕ) (p : Bytes)
      → IsHeader fh
      → len < 2 ^ 32
      → length pieces < 2 ^ 16
      → i < length pieces
      → IsChunkHeader (chunk_header fh len (map crc.hash pieces) i p)
  unfolding chunk_header
  chunk_header-IsChunkHeader fh len pieces i p v below few lt = record {
    current = refl;
    request_id_u64 = v.request_id_u64;
    frame_len_u32 = below;
    total_chunks_u16 = omega arith;
    payload_len_u16 = omega arith;
    prev_checksum_u32 = hash-lt pieces _;
    next_checksum_u32 = hash-lt pieces _;
    in_range = omega (arith, length-map crc.hash pieces);
  }

pub get_or-datagrams :
    (fh : FrameHeader) (len : ℕ) (sums : List ℕ) (idx i : ℕ) (ps : List Bytes)
    → i < length ps
    → get_or (datagrams fh len sums idx ps) i []
      ≡ Chunk.encode (chunk_header fh len sums (idx + i) (get_or ps i [])) ++ get_or ps i []
unfolding datagrams
get_or-datagrams fh len sums idx i [] h = elim h [ ]
get_or-datagrams fh len sums idx zero (p ∷ ps) h =
    ap (λ k. Chunk.encode (chunk_header fh len sums k p) ++ p) {x = idx} (omega arith)
get_or-datagrams fh len sums idx (suc i) (p ∷ ps) h =
    get_or-datagrams fh len sums (idx + 1) i ps (omega arith)
    ∙ ap (λ k. Chunk.encode (chunk_header fh len sums k (get_or ps i [])) ++ get_or ps i [])
        {x = idx + 1 + i} (omega arith)

pub length-datagrams :
    (fh : FrameHeader) (len : ℕ) (sums : List ℕ) (idx : ℕ) (ps : List Bytes)
    → length (datagrams fh len sums idx ps) ≡ length ps
unfolding datagrams
length-datagrams fh len sums idx [] = refl
length-datagrams fh len sums idx (p ∷ ps) = ap suc (length-datagrams fh len sums (idx + 1) ps)
