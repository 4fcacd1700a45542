-- ===== src/Tests/Udp.antt =====
-- A frame of two datagrams, and one of one, on their way to the receiver.
use gpustat4cluster.Base.{
  ◌≤◌, ℕ, zero, suc, List, [], ◌∷◌, ◌++◌, ◌≡◌, refl, some, ok, arith, length, replicate, get_or,
  All, All-append, map,
}
use gpustat4cluster.Base.Bytes.{Bytes, IsByte, bytes_eq}
use gpustat4cluster.Base.Chunks.{chunks, chunks_fuel}
use gpustat4cluster.Protocol.FrameType.{try_from, as_u8, query_request, runtime_payload}
use gpustat4cluster.Protocol.Header
use gpustat4cluster.Protocol.Header.{FrameHeader}
use gpustat4cluster.Protocol.Frame.{decode_frame}
use gpustat4cluster.Udp.Checksum.{remainder_crc}
use gpustat4cluster.Udp.Chunk
use gpustat4cluster.Udp.Chunk.{UdpChunkHeader, check_layout}
use gpustat4cluster.Udp.Split.{chunk_header, datagrams, encode_udp_chunks}
use gpustat4cluster.Udp.Split.Size.{encode_udp_chunks_lem}
use gpustat4cluster.Udp.Single.{single_header, encode_udp_single_chunk, decode_udp_single_chunk_ref}
use gpustat4cluster.Udp.Single.RoundTrip.{decode_udp_single_chunk_ref-encode_udp_single_chunk}
use gpustat4cluster.Udp.Reassembler.{Reassembler, new, lookup, insert, new_group}
use gpustat4cluster.Udp.Reassembler.Slots.{covers}
use gpustat4cluster.Udp.Reassembler.Delivery.{occurs, receive, deliver}
use gpustat4cluster.Udp.Reassembler.Isolation.{insert_sound}
use gpustat4cluster.Udp.Reassembler.Invariant.{IsValid, insert-IsValid}

pub replicate-IsByte : (n b : ℕ) → IsByte b → All IsByte (replicate n b)
replicate-IsByte zero b h = tt
replicate-IsByte (suc n) b h = (h, replicate-IsByte n b h)

-- A runtime payload of 300 bytes for request 7.
abbrev pub large_header : FrameHeader
large_header = record {
  version = 1;
  frame_type = runtime_payload;
  request_id = 7;
  payload_len = 300;
}

abbrev large_start : Bytes
large_start =
    b'G' ∷ b'4' ∷ b'C' ∷ b'1' ∷ 1 ∷ 11 ∷ 0 ∷ 0 ∷ 0 ∷ 0 ∷ 0 ∷ 0 ∷ 0 ∷ 7 ∷ 0 ∷ 0 ∷ 1 ∷ 44 ∷ []

abbrev pub large_frame : Bytes
large_frame = large_start ++ replicate 300 5

large_frame-IsByte : All IsByte large_frame
large_frame-IsByte =
    All-append IsByte large_start (replicate 300 5) (omega arith)
      (replicate-IsByte 300 5 (omega arith))

pub decode_large : decode_frame large_frame ≡ ok (large_header, replicate 300 5)
unfolding decode_frame Header.decode bytes_eq try_from
decode_large = refl

abbrev large_datagrams : List Bytes
large_datagrams =
    datagrams large_header 318 (map remainder_crc.hash (chunks 256 large_frame)) 0
      (chunks 256 large_frame)

encode_large : encode_udp_chunks remainder_crc large_frame 256 ≡ ok large_datagrams
unfolding encode_udp_chunks decode_frame Header.decode bytes_eq try_from
encode_large = refl

encode_udp_chunks_lem_example :
    (ds : List Bytes) × (encode_udp_chunks remainder_crc large_frame 256 ≡ ok ds)
    × (length ds ≡ 2)
    × All (λ d. length d ≤ 288) ds
encode_udp_chunks_lem_example =
    encode_udp_chunks_lem remainder_crc large_frame 256 large_header (replicate 300 5) decode_large
      (omega arith) (omega arith) (omega arith) (omega arith)

-- The second datagram twice, then the first.
deliver_example :
    (insert remainder_crc
      (receive remainder_crc (new 0 100) large_datagrams (1 ∷ 1 ∷ []))
      (get_or large_datagrams 0 [])).1
    ≡ ok (some large_frame)
unfolding covers occurs datagrams chunks chunks_fuel
deliver_example =
    deliver remainder_crc large_frame 256 large_datagrams (new 0 100) 0 (1 ∷ 1 ∷ [])
      large_frame-IsByte (omega arith) encode_large (λ h payload e. unfold new lookup in refl)
      (unfold datagrams chunks chunks_fuel in omega arith)

abbrev first_header : UdpChunkHeader
first_header =
    chunk_header large_header 318 (map remainder_crc.hash (chunks 256 large_frame)) 0
      (get_or (chunks 256 large_frame) 0 [])

decode_first : Chunk.decode (get_or large_datagrams 0 []) ≡ ok first_header
unfolding Chunk.decode Chunk.encode check_layout datagrams chunk_header chunks chunks_fuel bytes_eq
    try_from as_u8
decode_first = refl

insert_sound_example :
    (h : FrameHeader) × (payload : Bytes) × (decode_frame large_frame ≡ ok (h, payload))
    × (h.frame_type ≡ runtime_payload)
    × (h.request_id ≡ 7)
unfolding chunk_header
insert_sound_example =
    insert_sound remainder_crc (receive remainder_crc (new 0 100) large_datagrams (1 ∷ 1 ∷ []))
      (get_or large_datagrams 0 []) large_frame first_header decode_first deliver_example

-- The group of request 8 is not touched by a datagram of request 7.
abbrev two_requests : Reassembler
two_requests = record { deadline = 100; groups = (8, new_group query_request 8 600 3) ∷ [] }

two_requests-IsValid : IsValid two_requests
unfolding new_group
two_requests-IsValid = ((refl, refl), tt)

insert-IsValid_example : IsValid (insert remainder_crc two_requests (get_or large_datagrams 0 [])).0
insert-IsValid_example =
    insert-IsValid remainder_crc two_requests (get_or large_datagrams 0 []) two_requests-IsValid

abbrev pub single_datagram : Bytes
single_datagram =
    Chunk.encode (single_header runtime_payload 7 318 (remainder_crc.hash large_frame))
    ++ large_frame

encode_single : encode_udp_single_chunk remainder_crc large_frame ≡ ok single_datagram
unfolding encode_udp_single_chunk decode_frame Header.decode bytes_eq try_from single_header
encode_single = refl

pub decode_single :
    decode_udp_single_chunk_ref remainder_crc single_datagram ≡ ok (some large_frame)
decode_single =
    decode_udp_single_chunk_ref-encode_udp_single_chunk remainder_crc large_frame single_datagram
      large_frame-IsByte encode_single

decode_udp_single_chunk_ref-encode_udp_single_chunk_example :
    decode_udp_single_chunk_ref remainder_crc single_datagram ≡ ok (some large_frame)
decode_udp_single_chunk_ref-encode_udp_single_chunk_example =
    decode_udp_single_chunk_ref-encode_udp_single_chunk remainder_crc large_frame single_datagram
      large_frame-IsByte encode_single
