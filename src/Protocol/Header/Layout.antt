-- ===== src/Protocol/Header/Layout.antt =====
-- What a header's bytes are, and what bytes are a header.
use gpustat4cluster.Base.{
  ℕ, ◌-◌, ◌^◌, ◌≤◌, ◌<◌, ◌∷◌, sym, ap, ◌∙◌, ◌++◌, ◌≡◌, refl, arith, ok, length, get_or, drop,
  drop-cons, All, append_assoc, ap₂,
}
use gpustat4cluster.Base.Bytes.{
  Bytes, from_be_bytes-to_be_bytes, bytes_eq, bytes_eq→eq, slice, from_be_bytes, to_be_bytes,
  IsByte, drop-field, to_be_bytes-field, field-lt,
}
use gpustat4cluster.Protocol.FrameType.{as_u8, try_from, try_from-as_u8, as_u8-try_from}
use gpustat4cluster.Protocol.Header.{FrameHeader, protocol_version, frame_magic, encode, decode}

pub record IsHeader (h : FrameHeader) : Type 0 where
  pub current : h.version ≡ protocol_version
  pub request_id_u64 : h.request_id < 2 ^ 64
  pub payload_len_u32 : h.payload_len < 2 ^ 32

pub length-encode : (h : FrameHeader) → length (encode h) ≡ 18
unfolding encode
length-encode h = refl

pub decode-encode : (h : FrameHeader) (rest : Bytes) → IsHeader h → decode (encode h ++ rest) ≡ ok h
unfolding decode encode bytes_eq
decode-encode h rest v = ground (
  arith,
  try_from-as_u8 h.frame_type,
  from_be_bytes-to_be_bytes 8 h.request_id,
  from_be_bytes-to_be_bytes 4 h.payload_len,
)

-- What the tests of `decode` have found, and where each field was read.
pub record Decoded (input : Bytes) (h : FrameHeader) : Type 0 where
  pub long : 18 ≤ length input
  pub magic : slice input 0 4 ≡ frame_magic
  pub version : get_or input 4 0 ≡ protocol_version
  pub frame_type : try_from (get_or input 5 0) ≡ ok h.frame_type
  pub fields :
      (h.version ≡ protocol_version)
      × (h.request_id ≡ from_be_bytes (slice input 6 14))
      × (h.payload_len ≡ from_be_bytes (slice input 14 18))

decode-inv : (input : Bytes) (h : FrameHeader) → decode input ≡ ok h → Decoded input h
unfolding decode
decode-inv input h e = record {
  long = ground arith;
  magic = ground (arith, bytes_eq→eq (slice input 0 4) frame_magic);
  version = ground arith;
  frame_type = ground arith;
  fields = ground arith;
}

-- Bytes that are decoded to a header are that header's encoding and what follows it, and the header
-- has the current version and fields in range.
pub encode-decode :
    (input : Bytes) (h : FrameHeader)
    → All IsByte input
    → decode input ≡ ok h
    → IsHeader h × (encode h ++ drop 18 input ≡ input)
unfolding encode
encode-decode input h bytes e = (
  record {
    current = fields.0;
    request_id_u64 = rw (fields.1) (field-lt 6 14 input (omega arith) (omega (arith, long)) bytes);
    payload_len_u32 =
        rw (fields.2) (field-lt 14 18 input (omega arith) (omega (arith, long)) bytes);
  },
  sym (
      split_magic
      ∙ ap (λ t. frame_magic ++ t)
          (split_bytes ∙ ap (λ t. h.version ∷ as_u8 h.frame_type ∷ t) split_numbers)),
)
  where
    open (decode-inv input h e) use {long, magic, version, frame_type, fields}

    split_magic : input ≡ frame_magic ++ drop 4 input
    split_magic = drop-field 0 4 input (omega arith) ∙ ap (λ m. m ++ drop 4 input) magic

    split_bytes : drop 4 input ≡ h.version ∷ as_u8 h.frame_type ∷ drop 6 input
    split_bytes =
        drop-cons 4 input 0 (omega (arith, long))
        ∙ ap₂ ◌∷◌ (version ∙ sym (fields.0)) (
            drop-cons 5 input 0 (omega (arith, long))
            ∙ ap (λ b. b ∷ drop 6 input) (sym (as_u8-try_from _ _ frame_type)))

    number_at :
        (a b v : ℕ)
        → a ≤ b
        → b ≤ 18
        → v ≡ from_be_bytes (slice input a b)
        → slice input a b ≡ to_be_bytes (b - a) v
    number_at a b v ordered inside e =
        sym (rw e (to_be_bytes-field a b input ordered (omega (arith, long)) bytes))

    split_numbers :
        drop 6 input ≡ (to_be_bytes 8 h.request_id ++ to_be_bytes 4 h.payload_len) ++ drop 18 input
    split_numbers =
        drop-field 6 14 input (omega arith)
        ∙ ap₂ ◌++◌ (number_at 6 14 h.request_id (omega arith) (omega arith) (fields.1)) (
            drop-field 14 18 input (omega arith)
            ∙ ap (λ m. m ++ drop 18 input)
                (number_at 14 18 h.payload_len (omega arith) (omega arith) (fields.2)))
        ∙ sym (
            append_assoc (to_be_bytes 8 h.request_id) (to_be_bytes 4 h.payload_len) (drop 18 input))
