-- ===== src/Protocol/Frame.antt =====
-- crates/common/src/protocol.rs: complete binary frames, a header and its payload.
pub mod RoundTrip
use gpustat4cluster.Base.{
  ℕ, ◌%◌, ◌^◌, ◌++◌, not, ◌==◌, if◌then◌else◌, Result, ok, err, ◌>>=◌, map_err, length, drop,
}
use gpustat4cluster.Base.Bytes.{Bytes}
use gpustat4cluster.Protocol.FrameType.{FrameHeaderError}
use gpustat4cluster.Protocol.Header
use gpustat4cluster.Protocol.Header.{FrameHeader, frame_header_len}

pub data FrameDecodeError : Type 0 where
  short_header : ℕ → ℕ → FrameDecodeError
  bad_magic : FrameDecodeError
  version_mismatch : ℕ → ℕ → FrameDecodeError
  unknown_frame_type : ℕ → FrameDecodeError
  payload_length_mismatch : ℕ → ℕ → FrameDecodeError

-- `impl From<FrameHeaderError> for FrameDecodeError`
unfoldable pub from_header_error : FrameHeaderError → FrameDecodeError
from_header_error (FrameHeaderError.too_short got min) = short_header got min
from_header_error FrameHeaderError.bad_magic = bad_magic
from_header_error (FrameHeaderError.version_mismatch expected got) = version_mismatch expected got
from_header_error (FrameHeaderError.unknown_frame_type t) = unknown_frame_type t

-- `payload.len() as u32` keeps the low 32 bits.
unfoldable pub encode_frame : FrameHeader → Bytes → Bytes
encode_frame header payload =
    Header.encode (record header { payload_len = length payload % 2 ^ 32 }) ++ payload

unfoldable pub decode_frame : Bytes → Result (FrameHeader × Bytes) FrameDecodeError
decode_frame bytes = do
  header ← map_err from_header_error (Header.decode bytes)
  let payload = drop frame_header_len bytes
  if not (length payload == header.payload_len)
      then err (payload_length_mismatch header.payload_len (length payload))
      else ok (header, payload)
