-- ===== src/Udp/Checksum.antt =====
-- The checksums that crates/common/src/udp.rs takes from the crate `crc32fast`.
use gpustat4cluster.Base.{ℕ, ◌^◌, ◌%◌, ◌<◌, ◌++◌, ◌≡◌, refl, [], arith}
use gpustat4cluster.Base.Bytes.{Bytes, from_be_bytes}

-- `crc32fast` is a parameter: `hash`, a `Hasher`, and what its documentation says of the two.
pub record Crc : Type 1 where
  pub hash : Bytes → ℕ
  pub Hasher : Type 0
  pub start : Hasher
  pub update : Hasher → Bytes → Hasher
  pub finalize : Hasher → ℕ
  -- A checksum is a `u32`.
  pub hash_u32 : (bytes : Bytes) → hash bytes < 2 ^ 32
  -- Feeding a hasher in two parts gives the hash of the whole.
  pub finalize_parts : (a b : Bytes) → finalize (update (update start a) b) ≡ hash (a ++ b)

-- A checksum with these laws: the bytes as a number, modulo 2^32.
abbrev pub remainder_crc : Crc
remainder_crc = record {
  hash = λ bytes. from_be_bytes bytes % 2 ^ 32;
  Hasher = Bytes;
  start = [];
  update = λ state bytes. state ++ bytes;
  finalize = λ state. from_be_bytes state % 2 ^ 32;
  hash_u32 = λ bytes. omega arith;
  finalize_parts = λ a b. refl;
}
