-- ===== src/Client/UdpClient/Disconnect.antt =====
-- crates/client-backend/src/udp_client.rs: `disconnect`, and the frame that its datagrams are cut
-- from. Sending is taken to succeed.
use gpustat4cluster.Base.{
  ◌^◌, ◌<◌, ◌≡◌, refl, ltb, List, Result, ok, ◌>>=◌, map_err, length, arith, Result-cases, inl, inr,
  Bool-cases,
}
use gpustat4cluster.Base.Bytes.{Bytes}
use gpustat4cluster.Protocol.FrameType.{disconnect}
use gpustat4cluster.Protocol.Header
use gpustat4cluster.Protocol.Header.{FrameHeader}
use gpustat4cluster.Protocol.Frame.{encode_frame, decode_frame}
use gpustat4cluster.Protocol.Frame.RoundTrip.{decode_frame-encode_frame}
use gpustat4cluster.Udp.Checksum.{Crc}
use gpustat4cluster.Udp.Chunk.{UdpChunkError}
use gpustat4cluster.Udp.Split.{encode_udp_chunks}
use gpustat4cluster.Client.Transport.{ClientError, build_disconnect_frame, encode_bytes_frame}
use gpustat4cluster.Client.UdpClient.{ConnectedUdpNode, next_id}

pub data DisconnectError : Type 0 where
  not_built : ClientError → DisconnectError
  not_cut : UdpChunkError → DisconnectError

module _ (crc : Crc) where
  -- The node with its next request id, and the datagrams that are sent.
  unfoldable pub udp_disconnect :
      ConnectedUdpNode → Bytes → ConnectedUdpNode × Result (List Bytes) DisconnectError
  unfolding next_id
  udp_disconnect self reason =
      let (self', request_id) = next_id self in
      (
        self',
        map_err not_built (build_disconnect_frame request_id reason) >>= λ frame.
            map_err not_cut (encode_udp_chunks crc frame self.max_payload),
      )

  -- The datagrams of a disconnect are cut from one frame, which is decoded as a disconnect with the
  -- request id and the reason, for a 64-bit id.
  udp_disconnect-encode_udp_chunks :
      (self : ConnectedUdpNode) (reason : Bytes) (ds : List Bytes)
      → self.next_request_id < 2 ^ 64
      → (udp_disconnect self reason).1 ≡ ok ds
      → (frame : Bytes) × (encode_udp_chunks crc frame self.max_payload ≡ ok ds)
        × (decode_frame frame
            ≡ ok (Header.new disconnect self.next_request_id (length reason), reason))
  unfolding udp_disconnect build_disconnect_frame encode_bytes_frame Header.new
  udp_disconnect-encode_udp_chunks self reason ds id_u64 sent =
      let header = Header.new disconnect self.next_request_id (length reason) in
      elim (Bool-cases (ltb (length reason) (2 ^ 32))) [
        | inr e ↦ absurd (ground arith)
        | inl e ↦
            let small : length reason < 2 ^ 32 = ground arith in
            (
              encode_frame header reason,
              elim (Result-cases
                  (encode_udp_chunks crc (encode_frame header reason) self.max_payload)) [
                    | inl (cut, f) ↦ ground arith
                    | inr (bad, f) ↦ absurd (ground arith)
                  ],
              ground (arith, decode_frame-encode_frame header reason refl id_u64 small),
            )
      ]
