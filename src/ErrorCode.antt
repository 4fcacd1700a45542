-- ===== src/ErrorCode.antt =====
-- crates/common/src/error.rs: the stable numeric error codes.
use gpustat4cluster.Base.{ℕ, ◌≡◌, refl, Option, none, some, arith, ◌==◌, if◌then◌else◌}

pub data ErrorCode : Type 0 where
  nvml_unavailable config_invalid port_exhausted multicast_failed : ErrorCode
  transport_init_failed heartbeat_timeout connection_closed : ErrorCode
  query_timeout invalid_filter protocol_version_mismatch internal : ErrorCode

pub code : ErrorCode → ℕ
code nvml_unavailable = 1001
code config_invalid = 1002
code port_exhausted = 1003
code multicast_failed = 1004
code transport_init_failed = 1005
code heartbeat_timeout = 1006
code connection_closed = 1007
code query_timeout = 1008
code invalid_filter = 1009
code protocol_version_mismatch = 1010
code internal = 1999

pub from_code : ℕ → Option ErrorCode
from_code c =
    if c == 1001
    then some nvml_unavailable
    else if c == 1002
    then some config_invalid
    else if c == 1003
    then some port_exhausted
    else if c == 1004
    then some multicast_failed
    else if c == 1005
    then some transport_init_failed
    else if c == 1006
    then some heartbeat_timeout
    else if c == 1007
    then some connection_closed
    else if c == 1008
    then some query_timeout
    else if c == 1009
    then some invalid_filter
    else if c == 1010
    then some protocol_version_mismatch
    else if c == 1999
    then some internal
    else none

from_code-code : (e : ErrorCode) → from_code (code e) ≡ some e
unfolding from_code code
from_code-code nvml_unavailable = refl
from_code-code _ = refl

code-from_code : (c : ℕ) (e : ErrorCode) → from_code c ≡ some e → code e ≡ c
unfolding from_code code
code-from_code c e h = ground arith

-- A number is read as an error exactly when it is the number of that error.
from_code_iff :
    (c : ℕ) (e : ErrorCode)
    → (from_code c ≡ some e → code e ≡ c) × (code e ≡ c → from_code c ≡ some e)
from_code_iff c e = (code-from_code c e, λ h. rw (← h) (from_code-code e))
