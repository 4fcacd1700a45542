-- ===== src/Protocol/Payload.antt =====
-- crates/common/src/protocol.rs: payloads made by rkyv, and the deprecated payload with a timestamp.
pub mod RoundTrip
use gpustat4cluster.Base.{
  ℕ, ◌+◌, ◌-◌, ◌%◌, ◌^◌, ◌++◌, Option, none, some, ltb, ◌==◌, if◌then◌else◌, Result, ok, err, ◌>>=◌,
  map_err, length, take, drop, [], ◌≡◌,
}
use gpustat4cluster.Base.Bytes.{Bytes, to_be_bytes, from_be_bytes}
use gpustat4cluster.Base.Text.{Text}

abbrev pub max_payload_len : ℕ
max_payload_len = 2 ^ 16 - 1

abbrev pub payload_timestamp_len : ℕ
payload_timestamp_len = 8

-- `len` then `max`
pub data PayloadLenError : Type 0 where
  too_large : ℕ → ℕ → PayloadLenError

pub data PayloadEncodeError : Type 0 where
  payload_too_large : ℕ → ℕ → PayloadEncodeError
  serialize_failed : Text → PayloadEncodeError

pub data PayloadDecodeError : Type 0 where
  empty : PayloadDecodeError
  deserialize_failed : Text → PayloadDecodeError

unfoldable pub payload_len_from_archived_len : ℕ → Result ℕ PayloadLenError
payload_len_from_archived_len archived_len =
    if ltb max_payload_len archived_len
    then err (too_large archived_len max_payload_len)
    else ok (archived_len % 2 ^ 16)

unfoldable pub archived_len_from_payload_len : ℕ → Option ℕ
archived_len_from_payload_len payload_len = some payload_len

abbrev pub from_len_error : PayloadLenError → PayloadEncodeError
from_len_error (too_large len max) = payload_too_large len max

-- What rkyv does for one type of values: `to_bytes` and `from_bytes`, with the text of an error.
-- What is archived is read back, and an archive is not empty.
pub record Archive (A : Type 0) : Type 0 where
  pub to_bytes : A → Result Bytes Text
  pub from_bytes : Bytes → Result A Text
  pub from_bytes-to_bytes :
      (a : A) (bytes : Bytes) → to_bytes a ≡ ok bytes → from_bytes bytes ≡ ok a
  pub to_bytes_nonempty : (a : A) → to_bytes a ≡ ok [] → ⊥

module _ {A : Type 0} (archive : Archive A) where
  -- `encode_rkyv_payload`, and `encode_snapshot_payload`, which has the same body
  unfoldable pub encode_rkyv_payload : A → Result Bytes PayloadEncodeError
  encode_rkyv_payload value = do
    bytes ← map_err serialize_failed (archive.to_bytes value)
    checked ← map_err from_len_error (payload_len_from_archived_len (length bytes))
    ok bytes

  -- `decode_rkyv_payload`, and `decode_snapshot_payload`, which has the same body
  unfoldable pub decode_rkyv_payload : Bytes → Result A PayloadDecodeError
  decode_rkyv_payload bytes =
      if length bytes == 0 then err empty else map_err deserialize_failed (archive.from_bytes bytes)

-- The timestamp is the bit pattern of an `i64`. `checked_add` fails past `usize`.
unfoldable pub encode_payload : ℕ → Bytes → Result Bytes PayloadLenError
encode_payload timestamp_ms archived_server_gres =
    let payload_len = payload_timestamp_len + length archived_server_gres in
    if ltb (2 ^ 64 - 1) payload_len
    then err (too_large (2 ^ 64 - 1) max_payload_len)
    else if ltb max_payload_len payload_len
    then err (too_large payload_len max_payload_len)
    else ok (to_be_bytes 8 timestamp_ms ++ archived_server_gres)

unfoldable pub decode_payload : Bytes → Option (ℕ × Bytes)
decode_payload payload =
    if ltb (length payload) payload_timestamp_len
    then none
    else some
        (from_be_bytes (take payload_timestamp_len payload), drop payload_timestamp_len payload)
