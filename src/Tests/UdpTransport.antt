-- ===== src/Tests/UdpTransport.antt =====
-- The UDP loop at concrete inputs.
use gpustat4cluster.Base.{◌≡◌, refl, [], ◌∷◌, ◌++◌, true, none, ok, arith}
use gpustat4cluster.Base.Bytes.{Bytes, bytes_eq}
use gpustat4cluster.Protocol.FrameType.{query_request, try_from}
use gpustat4cluster.Protocol.Header
use gpustat4cluster.Protocol.Frame.{decode_frame}
use gpustat4cluster.Udp.Checksum.{remainder_crc}
use gpustat4cluster.Udp.Capacity.{effective_udp_payload_capacity}
use gpustat4cluster.Udp.Chunk
use gpustat4cluster.Udp.Single.{single_header}
use gpustat4cluster.Udp.Reassembler
use gpustat4cluster.Server.UdpTransport.{UdpServer, Network, respond, serve_frame, serve_datagram}
use gpustat4cluster.Server.UdpTransport.FastPath.{serve_frame_lem}
use gpustat4cluster.Server.UdpTransport.Peers.{IsUntouched, serve_datagram-IsUntouched}
use gpustat4cluster.Tests.Samples.{json_codec, metadata_archive, runtime_archive}
use gpustat4cluster.Tests.Transport.{filled_cache, entry, json_codec-IsShortJson}

abbrev pub network : Network
network = record {
  is_ipv4 = λ peer. true;
  route_mtu = λ peer. none;
  configured_mtu = 1500;
  idle_timeout = 1000;
}

abbrev pub server : UdpServer
server = record {
  cache = filled_cache;
  reassemblers = (9, Reassembler.new 0 50) ∷ [];
  payload_caps = [];
}

capacity_of_ethernet : effective_udp_payload_capacity true none 1500 ≡ 1440
unfolding effective_udp_payload_capacity
capacity_of_ethernet = refl

-- A query for request 7 without a payload.
abbrev query_frame : Bytes
query_frame = b'G' ∷ b'4' ∷ b'C' ∷ b'1' ∷ 1 ∷ 5 ∷ 0 ∷ 0 ∷ 0 ∷ 0 ∷ 0 ∷ 0 ∷ 0 ∷ 7 ∷ 0 ∷ 0 ∷ 0 ∷ 0 ∷ []

abbrev query_datagram : Bytes
query_datagram =
    Chunk.encode (single_header query_request 7 18 (remainder_crc.hash query_frame)) ++ query_frame

query_decodes : decode_frame query_frame ≡ ok (Header.new query_request 7 0, [])
unfolding decode_frame Header.decode Header.new bytes_eq try_from
query_decodes = refl

serve_frame_lem_example :
    (serve_frame json_codec metadata_archive runtime_archive remainder_crc network server 3 [] []
      query_frame).1
    ≡ (respond json_codec metadata_archive runtime_archive remainder_crc network server 3 []
        query_frame).1
serve_frame_lem_example =
    serve_frame_lem remainder_crc json_codec metadata_archive runtime_archive network entry
      json_codec-IsShortJson server 3 [] [] query_frame (omega arith) refl
      (λ h p d. unfold Header.new in ground (arith, d, query_decodes))

serve_datagram-IsUntouched_example :
    IsUntouched 9 server
      (serve_datagram json_codec metadata_archive runtime_archive remainder_crc network server 5 3
        [] [] query_datagram).0
serve_datagram-IsUntouched_example =
    serve_datagram-IsUntouched remainder_crc network json_codec metadata_archive runtime_archive
      server 5 3 9 [] [] query_datagram (omega arith)
