-- ===== src/Tests/TcpClient.antt =====
-- A client over TCP at concrete inputs.
use gpustat4cluster.Base.{◌≡◌, refl, true, some, none, [], ◌∷◌, ◌++◌, ok, arith}
use gpustat4cluster.Base.Bytes.{Bytes}
use gpustat4cluster.Protocol.Header.{protocol_version}
use gpustat4cluster.Snapshot.{metadata_of, omit_process_commands}
use gpustat4cluster.Server.Transport.{Json}
use gpustat4cluster.Server.TcpStream.{handle_query_stream}
use gpustat4cluster.Client.TcpClient.{ConnectedTcpNode, query_tcp_connected}
use gpustat4cluster.Client.TcpClient.EndToEnd.{query_tcp_connected_lem}
use gpustat4cluster.Tests.Samples.{json_codec, metadata_archive, runtime_archive, node}
use gpustat4cluster.Tests.Transport.{entry, filled_cache, runtime_bytes, encode_runtime}
use gpustat4cluster.Tests.Client.{client_codec}

-- The query that a client sends over TCP has the id 2.
abbrev tcp_json : Json
tcp_json = record json_codec {
  read_query =
      λ bytes. elim bytes [ [] ↦ none | v ∷ _ ↦ some (record { version = v; request_id = 2 }) ];
}

abbrev tcp_node : ConnectedTcpNode
tcp_node = record { io = []; metadata = metadata_of node; is_open = true }

query_tcp_connected_lem_example :
    (query : Bytes) × (answer : Bytes) × ((handle_query_stream tcp_json metadata_archive
        runtime_archive 2 filled_cache
        (λ i. [])
        query).1
      ≡ some (answer ∷ []))
    × (query_tcp_connected client_codec metadata_archive runtime_archive
          (record tcp_node { io = answer ++ [] })
        ≡ (record tcp_node { io = [] }, (query ∷ [], ok (omit_process_commands node))))
query_tcp_connected_lem_example =
    query_tcp_connected_lem metadata_archive runtime_archive client_codec tcp_json filled_cache
      (λ i. []) entry tcp_node (protocol_version ∷ []) runtime_bytes [] refl refl refl (omega arith)
      (omega arith) (tt, tt) refl encode_runtime
