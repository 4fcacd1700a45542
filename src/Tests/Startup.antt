-- ===== src/Tests/Startup.antt =====
-- The metrics, the ports and a TCP connection at concrete inputs.
use gpustat4cluster.Base.{
  ℕ, ◌≤◌, ◌≡◌, refl, [], ◌∷◌, ◌++◌, Bool, true, false, some, ok, err, arith, ◌==◌,
}
use gpustat4cluster.Base.Bytes.{bytes_eq}
use gpustat4cluster.ErrorCode.{port_exhausted}
use gpustat4cluster.Protocol.FrameType.{query_request, runtime_payload, try_from, as_u8}
use gpustat4cluster.Protocol.Header
use gpustat4cluster.Protocol.Frame.{encode_frame, decode_frame}
use gpustat4cluster.Server.Cache.Metrics.{percentile_us, sort, insert_sorted, rank}
use gpustat4cluster.Server.Ports.{
  pick_port, first_free, port_candidates, candidates_from, is_excluded,
}
use gpustat4cluster.Server.Ports.Picked.{pick_port-IsIn}
use gpustat4cluster.Server.Transport.{
  encode_transport_frame, decode_transport_frame, handle_frame, handle_decoded_frame,
}
use gpustat4cluster.Server.TcpStream.{read_tcp_frame, is_disconnect, handle_query_stream}
use gpustat4cluster.Server.TcpStream.Serve.{
  handle_query_stream_enough, handle_query_stream-encode_frame,
}
use gpustat4cluster.Tests.Samples.{json_codec, metadata_archive, runtime_archive}
use gpustat4cluster.Tests.Transport.{filled_cache, after_hit, runtime_bytes, answered_query}

-- As in the tests of the source, for fewer samples.
median : percentile_us (30 ∷ 10 ∷ 20 ∷ []) 50 ≡ 20
unfolding percentile_us sort insert_sorted rank
median = refl

abbrev only_4002 : ℕ → Bool
only_4002 port = port == 4002

picked : pick_port only_4002 (some 4000) (4000, 4003) 0 1 ≡ ok 4002
unfolding pick_port first_free port_candidates candidates_from is_excluded
picked = refl

pick_port-IsIn_example :
    (4000 ≤ 4002) × (4002 ≤ 4003) × (only_4002 4002 ≡ true) × (is_excluded 4002 (some 4000) ≡ false)
pick_port-IsIn_example = pick_port-IsIn only_4002 (some 4000) 4000 4003 1 4002 (omega arith) picked

exhausted : pick_port only_4002 (some 4002) (4000, 4003) 0 1 ≡ err port_exhausted
unfolding pick_port first_free port_candidates candidates_from is_excluded
exhausted = refl

handle_query_stream_enough_example :
    handle_query_stream json_codec metadata_archive runtime_archive 3 filled_cache
      (λ i. [])
      (encode_frame (Header.new query_request 7 0) [])
    ≡ handle_query_stream json_codec metadata_archive runtime_archive 2 filled_cache
        (λ i. [])
        (encode_frame (Header.new query_request 7 0) [])
handle_query_stream_enough_example =
    handle_query_stream_enough json_codec metadata_archive runtime_archive 2 filled_cache (λ i. [])
      (encode_frame (Header.new query_request 7 0) [])
      (unfold encode_frame Header.encode in omega arith)

query_stays :
    is_disconnect json_codec metadata_archive runtime_archive
      (encode_frame (Header.new query_request 7 0) [])
    ≡ false
unfolding is_disconnect decode_transport_frame decode_frame encode_frame Header.encode Header.decode
    Header.new as_u8 try_from bytes_eq
query_stays = refl

query_answered :
    handle_frame json_codec metadata_archive runtime_archive filled_cache []
      (encode_frame (Header.new query_request 7 0) [])
    ≡ (after_hit, some (ok (encode_transport_frame runtime_payload 7 runtime_bytes)))
unfolding handle_frame handle_decoded_frame decode_transport_frame decode_frame encode_frame
    Header.encode Header.decode Header.new as_u8 try_from bytes_eq
query_answered = answered_query

handle_query_stream-encode_frame_example :
    handle_query_stream json_codec metadata_archive runtime_archive 2 filled_cache
      (λ i. [])
      (encode_frame (Header.new query_request 7 0) [] ++ [])
    ≡ (after_hit, some (encode_transport_frame runtime_payload 7 runtime_bytes ∷ []))
handle_query_stream-encode_frame_example =
    handle_query_stream-encode_frame json_codec metadata_archive runtime_archive 1 filled_cache
      after_hit after_hit (λ i. []) (Header.new query_request 7 0) [] []
      (encode_transport_frame runtime_payload 7 runtime_bytes) [] (unfold Header.new in refl)
      (unfold Header.new in omega arith) (omega arith) query_stays query_answered
      (unfold handle_query_stream read_tcp_frame in refl)
