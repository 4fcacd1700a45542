-- ===== src/Protocol/Header.antt =====
-- crates/common/src/protocol.rs: the fixed binary frame header.
pub mod Layout
use gpustat4cluster.Base.{
  ℕ, ◌≡◌, List, [], ◌∷◌, ◌++◌, not, ltb, ◌==◌, if◌then◌else◌, Result, ok, err, ◌>>=◌, length,
  get_or,
}
use gpustat4cluster.Base.Bytes.{Bytes, slice, to_be_bytes, from_be_bytes, bytes_eq}
use gpustat4cluster.Protocol.FrameType.{
  FrameType, as_u8, try_from, FrameHeaderError, too_short, bad_magic, version_mismatch,
}

abbrev pub protocol_version : ℕ
protocol_version = 1

-- ASCII `G4C1`
abbrev pub frame_magic : Bytes
frame_magic = b'G' ∷ b'4' ∷ b'C' ∷ b'1' ∷ []

abbrev pub frame_header_len : ℕ
frame_header_len = 18

pub record FrameHeader : Type 0 where
  pub version : ℕ
  pub frame_type : FrameType
  pub request_id : ℕ
  pub payload_len : ℕ

unfoldable pub new : FrameType → ℕ → ℕ → FrameHeader
new frame_type request_id payload_len = record {
  version = protocol_version;
  frame_type = frame_type;
  request_id = request_id;
  payload_len = payload_len;
}

-- The fields fill the 18 bytes without gaps, in the order of their offsets 0, 4, 5, 6 and 14.
unfoldable pub encode : FrameHeader → Bytes
encode h =
    frame_magic
    ++ (h.version
        ∷ as_u8 h.frame_type
        ∷ (to_be_bytes 8 h.request_id ++ to_be_bytes 4 h.payload_len))

unfoldable pub decode : Bytes → Result FrameHeader FrameHeaderError
decode input =
    if ltb (length input) frame_header_len
    then err (too_short (length input) frame_header_len)
    else if not (bytes_eq (slice input 0 4) frame_magic)
    then err bad_magic
    else let version = get_or input 4 0 in
      if not (version == protocol_version)
      then err (version_mismatch protocol_version version)
      else do
        frame_type ← try_from (get_or input 5 0)
        ok (record {
          version = version;
          frame_type = frame_type;
          request_id = from_be_bytes (slice input 6 14);
          payload_len = from_be_bytes (slice input 14 18);
        })
