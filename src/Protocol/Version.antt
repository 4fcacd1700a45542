-- ===== src/Protocol/Version.antt =====
-- crates/common/src/protocol.rs: the version test, and the messages that carry a version.
use gpustat4cluster.Base.{ℕ, Option, none, some, ◌==◌, if◌then◌else◌, Result, ok, err}
use gpustat4cluster.Base.Text.{Text}
use gpustat4cluster.ErrorCode.{ErrorCode, protocol_version_mismatch}
use gpustat4cluster.Protocol.Header.{protocol_version}

pub data VersionCheck : Type 0 where
  matched : VersionCheck
  -- `expected` then `got`
  mismatch : ℕ → ℕ → VersionCheck

unfoldable pub check_version : ℕ → VersionCheck
check_version version =
    if version == protocol_version then matched else mismatch protocol_version version

unfoldable pub validate_protocol_version : ℕ → Result (Unit {0}) ErrorCode
unfolding check_version
validate_protocol_version version = elim (check_version version) [
  | matched ↦ ok tt
  | mismatch expected got ↦ err protocol_version_mismatch
]

pub record HandshakeInfo : Type 0 where
  pub version : ℕ
  pub hostname : Text
  pub gpu_num : ℕ
  pub payload_len : ℕ

unfoldable pub current_info : Text → ℕ → ℕ → HandshakeInfo
current_info hostname gpu_num payload_len = record {
  version = protocol_version;
  hostname = hostname;
  gpu_num = gpu_num;
  payload_len = payload_len;
}

pub record HandshakeRequest : Type 0 where
  pub version : ℕ

unfoldable pub current_request : HandshakeRequest
current_request = record { version = protocol_version }

unfoldable pub validate_request : HandshakeRequest → Result (Unit {0}) ErrorCode
validate_request self = validate_protocol_version self.version

pub record QueryRequest : Type 0 where
  pub version : ℕ
  pub request_id : ℕ

pub data ResponseStatus : Type 0 where
  ok_status error_status : ResponseStatus

pub record QueryResponse : Type 0 where
  pub version : ℕ
  pub request_id : ℕ
  pub status : ResponseStatus
  pub error : Option ErrorCode

unfoldable pub ok_response : ℕ → QueryResponse
ok_response request_id = record {
  version = protocol_version;
  request_id = request_id;
  status = ok_status;
  error = none;
}

unfoldable pub error_response : ℕ → ErrorCode → QueryResponse
error_response request_id error = record {
  version = protocol_version;
  request_id = request_id;
  status = error_status;
  error = some error;
}
