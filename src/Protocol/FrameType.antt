-- ===== src/Protocol/FrameType.antt =====
-- crates/common/src/protocol.rs: frame types, and the errors of a frame header.
use gpustat4cluster.Base.{
  ℕ, ◌≡◌, ◌<◌, refl, ap, Bool, true, arith, ◌==◌, if◌then◌else◌, Result, ok, err,
}

-- `got` then `min`; `expected` then `got`
pub data FrameHeaderError : Type 0 where
  too_short : ℕ → ℕ → FrameHeaderError
  bad_magic : FrameHeaderError
  version_mismatch : ℕ → ℕ → FrameHeaderError
  unknown_frame_type : ℕ → FrameHeaderError

pub data FrameType : Type 0 where
  discovery_query discovery_announce handshake_request handshake_info : FrameType
  query_request query_response data_payload heartbeat : FrameType
  disconnect metadata_payload runtime_payload : FrameType

-- `frame_type as u8`
unfoldable pub as_u8 : FrameType → ℕ
as_u8 discovery_query = 1
as_u8 discovery_announce = 2
as_u8 handshake_request = 3
as_u8 handshake_info = 4
as_u8 query_request = 5
as_u8 query_response = 6
as_u8 data_payload = 7
as_u8 heartbeat = 8
as_u8 disconnect = 9
as_u8 metadata_payload = 10
as_u8 runtime_payload = 11

unfoldable pub try_from : ℕ → Result FrameType FrameHeaderError
try_from value =
    if value == 1
    then ok discovery_query
    else if value == 2
    then ok discovery_announce
    else if value == 3
    then ok handshake_request
    else if value == 4
    then ok handshake_info
    else if value == 5
    then ok query_request
    else if value == 6
    then ok query_response
    else if value == 7
    then ok data_payload
    else if value == 8
    then ok heartbeat
    else if value == 9
    then ok disconnect
    else if value == 10
    then ok metadata_payload
    else if value == 11
    then ok runtime_payload
    else err (unknown_frame_type value)

-- The derived `==`, which compares discriminants.
unfoldable pub frame_type_eq : FrameType → FrameType → Bool
frame_type_eq a b = as_u8 a == as_u8 b

pub try_from-as_u8 : (t : FrameType) → try_from (as_u8 t) ≡ ok t
unfolding try_from as_u8
try_from-as_u8 discovery_query = refl
try_from-as_u8 _ = refl

pub as_u8-try_from : (v : ℕ) (t : FrameType) → try_from v ≡ ok t → as_u8 t ≡ v
unfolding try_from as_u8
as_u8-try_from v t h = ground arith

pub as_u8-IsByte : (t : FrameType) → as_u8 t < 256
unfolding as_u8
as_u8-IsByte discovery_query = omega arith
as_u8-IsByte _ = omega arith

pub frame_type_eq_refl : (t : FrameType) → frame_type_eq t t ≡ true
unfolding frame_type_eq
frame_type_eq_refl t = ground arith

pub as_u8-injective : (a b : FrameType) → as_u8 a ≡ as_u8 b → a ≡ b
as_u8-injective a b h = cc (try_from-as_u8 a, try_from-as_u8 b, ap try_from h)

pub frame_type_eq→eq : (a b : FrameType) → frame_type_eq a b ≡ true → a ≡ b
unfolding frame_type_eq
frame_type_eq→eq a b h = as_u8-injective a b (ground arith)
