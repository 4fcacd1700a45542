-- ===== src/Client/UdpClient/Query.antt =====
-- crates/client-backend/src/udp_client.rs: connecting to a node, and a query of it.
use gpustat4cluster.Base.{
  ℕ, not, ◌&&◌, ◌==◌, if◌then◌else◌, Option, none, some, List, [], ◌∷◌, Result, ok, err, ◌>>=◌,
  map_err,
}
use gpustat4cluster.Base.Bytes.{Bytes}
use gpustat4cluster.Protocol.Payload.{Archive}
use gpustat4cluster.Udp.Checksum.{Crc}
use gpustat4cluster.Snapshot.{
  ServerGresSnapshot, HostMetadata, RuntimeSnapshot, metadata_hash, to_snapshot,
}
use gpustat4cluster.Client.Transport.{ClientJson, build_handshake_request_frame}
use gpustat4cluster.Client.UdpClient.{
  UdpClientError, transport_error, Round, Waited, ConnectedUdpNode, next_id, recv_frame, send_frame,
  send_empty_query, parse_handshake_reply, parse_query_runtime,
}

-- The datagrams that were sent, and the result with the rounds that are left.
abbrev pub Asked : Type 0 → Type 0
Asked A = List Bytes × Waited A

-- The node afterwards, the datagrams that were sent, and the outcome.
abbrev pub Queried : Type 0
Queried = ConnectedUdpNode × (List Bytes × Option (Result ServerGresSnapshot UdpClientError))

module _ (codec : ClientJson) (metadata_archive : Archive HostMetadata)
    (runtime_archive : Archive RuntimeSnapshot) (crc : Crc) where
  -- `refresh_metadata`, and the request of `connect_node`
  unfoldable pub refresh_metadata : ℕ → ℕ → ℕ → ℕ → List Round → Asked HostMetadata
  refresh_metadata request_id start timeout max_payload rounds =
      elim (map_err transport_error (build_handshake_request_frame codec request_id) >>= λ frame.
      send_frame crc frame max_payload) [
        | err e ↦ ([], (rounds, some (err e)))
        | ok sent ↦
            let (rest, reply) = recv_frame crc request_id start timeout rounds in
            (
              sent,
              (
                rest,
                elim reply [
                  | none ↦ none
                  | some result ↦
                      some (result >>= parse_handshake_reply codec metadata_archive runtime_archive)
                ],
              ),
            )
      ]

  unfoldable pub connect_node : ℕ → ℕ → ℕ → List Round → Asked ConnectedUdpNode
  connect_node start timeout max_payload rounds =
      let (sent, (rest, reply)) = refresh_metadata 1 start timeout max_payload rounds in
      (
        sent,
        (
          rest,
          elim reply [
            | none ↦ none
            | some (err e) ↦ some (err e)
            | some (ok metadata) ↦ some (
                ok (record { metadata = metadata; max_payload = max_payload; next_request_id = 2 }))
          ],
        ),
      )

  -- What follows the runtime part: other metadata are asked for where the hash is not that of the
  -- node's.
  unfoldable pub with_metadata : ConnectedUdpNode → RuntimeSnapshot → ℕ → ℕ → List Round → Queried
  with_metadata self runtime start timeout rounds =
      let (self', request_id) = next_id self in
      let (sent, (rest, reply)) =
        refresh_metadata request_id start timeout self.max_payload rounds in
      if not (runtime.metadata_hash == 0)
        && not (runtime.metadata_hash == metadata_hash self.metadata)
      then elim reply [
        | none ↦ (self', (sent, none))
        | some (err e) ↦ (self', (sent, some (err e)))
        | some (ok refreshed) ↦ (
          record self' { metadata = refreshed },
          (sent, some (ok (to_snapshot runtime refreshed))),
        )
      ]
      else (self, ([], some (ok (to_snapshot runtime self.metadata))))

  -- The two instants are those of the two calls of `recv_frame`.
  unfoldable pub query_connected : ConnectedUdpNode → ℕ → ℕ → ℕ → List Round → Queried
  query_connected self start restart timeout rounds =
      let (self', request_id) = next_id self in
      let (rest, reply) = recv_frame crc request_id start timeout rounds in
      elim (send_empty_query crc request_id) [
        | err e ↦ (self', ([], some (err e)))
        | ok query ↦ elim reply [
          | none ↦ (self', (query ∷ [], none))
          | some result ↦
              elim (result >>= parse_query_runtime codec metadata_archive runtime_archive) [
                | err e ↦ (self', (query ∷ [], some (err e)))
                | ok runtime ↦
                    let (self'', (sent, outcome)) =
                      with_metadata self' runtime restart timeout rest in
                    (self'', (query ∷ sent, outcome))
              ]
        ]
      ]
