-- ===== src/Protocol/Payload/RoundTrip.antt =====
-- Payloads are read back as they were written.
use gpustat4cluster.Base.{
  ℕ, ◌^◌, ◌≤◌, ◌<◌, ◌++◌, ◌≡◌, refl, [], ◌∷◌, ok, some, arith, length, Result-cases, inl, inr,
  Bool-cases, ◌==◌,
}
use gpustat4cluster.Base.Bytes.{Bytes, to_be_bytes, from_be_bytes-to_be_bytes}
use gpustat4cluster.Protocol.Payload.{
  Archive, encode_rkyv_payload, decode_rkyv_payload, payload_len_from_archived_len, encode_payload,
  decode_payload,
}

length-zero : (bytes : Bytes) → length bytes ≡ 0 → bytes ≡ []
length-zero [] h = refl
length-zero (b ∷ bytes) h = absurd (omega arith)

module _ {A : Type 0} (archive : Archive A) where
  -- A payload that was encoded is decoded to the value and has at most 65535 bytes.
  pub decode_rkyv_payload-encode_rkyv_payload :
      (value : A) (bytes : Bytes)
      → encode_rkyv_payload archive value ≡ ok bytes
      → (decode_rkyv_payload archive bytes ≡ ok value) × (length bytes ≤ 65535)
  unfolding encode_rkyv_payload decode_rkyv_payload payload_len_from_archived_len
  decode_rkyv_payload-encode_rkyv_payload value bytes e =
      elim (Result-cases (archive.to_bytes value)) [
        | inl (archived, a) ↦
            let same : archived ≡ bytes = ground (arith, a) in
            let back = archive.from_bytes-to_bytes value archived a in
            (
              elim (Bool-cases (length bytes == 0)) [
                | inl is_empty ↦ absurd (
                    archive.to_bytes_nonempty value
                      (ground (arith, a, same, length-zero bytes (ground arith))))
                | inr filled ↦ ground (arith, a, same, back)
              ],
              ground (arith, a),
            )
        | inr (text, a) ↦ absurd (ground (arith, a))
      ]

-- The deprecated payload: the timestamp and the archive that were encoded are read back, for a
-- 64-bit timestamp.
pub decode_payload-encode_payload :
    (timestamp_ms : ℕ) (archived bytes : Bytes)
    → timestamp_ms < 2 ^ 64
    → encode_payload timestamp_ms archived ≡ ok bytes
    → decode_payload bytes ≡ some (timestamp_ms, archived)
unfolding encode_payload decode_payload
decode_payload-encode_payload timestamp_ms archived bytes small e =
    let built : bytes ≡ to_be_bytes 8 timestamp_ms ++ archived = ground arith in
    rw built (ground (arith, from_be_bytes-to_be_bytes 8 timestamp_ms))
