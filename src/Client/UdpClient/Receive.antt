-- ===== src/Client/UdpClient/Receive.antt =====
-- What the receiving loop of a client returns, and that it returns.
use gpustat4cluster.Base.{
  ℕ, ◌+◌, ◌≤◌, List, [], ◌∷◌, ◌++◌, ◌≡◌, ◌≢◌, ◌⊎◌, refl, some, none, ok, Result, Option, arith,
  true, Result-cases, Option-cases, inl, inr, ◌>>=◌,
}
use gpustat4cluster.Base.Bytes.{Bytes}
use gpustat4cluster.Protocol.Header.{FrameHeader}
use gpustat4cluster.Protocol.Frame.{decode_frame}
use gpustat4cluster.Protocol.Payload.{Archive}
use gpustat4cluster.Udp.Checksum.{Crc}
use gpustat4cluster.Udp.Reassembler.{Reassembler}
use gpustat4cluster.Snapshot.{ServerGresSnapshot, HostMetadata, RuntimeSnapshot, to_snapshot}
use gpustat4cluster.Client.Transport.{ClientJson}
use gpustat4cluster.Client.UdpClient.{
  Round, Received, datagram, nothing, failure, UdpClientError, ConnectedUdpNode, next_id,
  recv_frame, recv_loop, take_datagram, is_answer, send_empty_query, parse_query_runtime,
}
use gpustat4cluster.Client.UdpClient.Query.{with_metadata, query_connected}

Received-cases :
    (x : Received) → (x ≡ nothing) ⊎ ((x ≡ failure) ⊎ ((bytes : Bytes) × (x ≡ datagram bytes)))
Received-cases nothing = inl refl
Received-cases failure = inr (inl refl)
Received-cases (datagram bytes) = inr (inr (bytes, refl))

module _ (crc : Crc) (id timeout : ℕ) where
  abbrev IsAnswer : Bytes → Type 0
  IsAnswer frame =
      (h : FrameHeader) × (payload : Bytes) × (decode_frame frame ≡ ok (h, payload))
      × (h.request_id ≡ id)

  is_answer_sound : (frame : Bytes) → is_answer crc id timeout frame ≡ ok true → IsAnswer frame
  unfolding is_answer
  is_answer_sound frame e = elim (Result-cases (decode_frame frame)) [
    | inl ((h, payload), d) ↦ (h, payload, d, ground (arith, d))
    | inr (x, d) ↦ absurd (ground (arith, d))
  ]

  recv_loop_sound :
      (deadline : ℕ) (re : Option Reassembler) (rounds : List Round) (frame : Bytes)
      → (recv_loop crc id timeout deadline re rounds).1 ≡ some (ok frame)
      → is_answer crc id timeout frame ≡ ok true
  unfolding recv_loop
  recv_loop_sound deadline re [] frame e = absurd (ground arith)
  recv_loop_sound deadline re (round ∷ rest) frame e = elim (Received-cases round.received) [
    | inl r ↦ ground (arith, r)
    | inr (inl r) ↦ ground (arith, r)
    | inr (inr (bytes, r)) ↦
        let taken = take_datagram crc id timeout re round.after bytes in
        ground (arith, r, recv_loop_sound deadline taken.0 rest frame)
  ]

  -- Bytes that the receiving loop of a client returns are decoded as a frame with the request id
  -- that it waits for.
  pub recv_frame_sound :
      (start : ℕ) (rounds : List Round) (frame : Bytes)
      → (recv_frame crc id start timeout rounds).1 ≡ some (ok frame)
      → (h : FrameHeader) × (payload : Bytes) × (decode_frame frame ≡ ok (h, payload))
        × (h.request_id ≡ id)
  unfolding recv_frame
  recv_frame_sound start rounds frame e =
      is_answer_sound frame (recv_loop_sound (start + timeout) none rounds frame e)

  recv_loop_returns :
      (deadline : ℕ) (re : Option Reassembler) (early : List Round) (late : Round)
      (rest : List Round)
      → deadline ≤ late.now
      → (recv_loop crc id timeout deadline re (early ++ late ∷ rest)).1 ≢ none
  unfolding recv_loop
  recv_loop_returns deadline re [] late rest h = ground arith
  recv_loop_returns deadline re (round ∷ early) late rest h = elim (Received-cases round.received) [
    | inl r ↦ ground (arith, r)
    | inr (inl r) ↦ ground (arith, r)
    | inr (inr (bytes, r)) ↦
        let taken = take_datagram crc id timeout re round.after bytes in
        ground (arith, r, recv_loop_returns deadline taken.0 early late rest h)
  ]

  -- The receiving loop of a client returns, a frame or an error, at the latest in the first round
  -- that begins at the deadline or later, whatever has come before.
  pub recv_frame_returns :
      (start : ℕ) (early : List Round) (late : Round) (rest : List Round)
      → start + timeout ≤ late.now
      → (recv_frame crc id start timeout (early ++ late ∷ rest)).1 ≢ none
  unfolding recv_frame
  recv_frame_returns start early late rest h =
      recv_loop_returns (start + timeout) none early late rest h

module _ (codec : ClientJson) (m : Archive HostMetadata) (r : Archive RuntimeSnapshot)
    (crc : Crc) where
  with_metadata_consistent :
      (node : ConnectedUdpNode) (runtime : RuntimeSnapshot) (start timeout : ℕ)
      (rounds : List Round) (snapshot : ServerGresSnapshot)
      → (with_metadata codec m r crc node runtime start timeout rounds).1.1 ≡ some (ok snapshot)
      → snapshot
        ≡ to_snapshot runtime
            (with_metadata codec m r crc node runtime start timeout rounds).0.metadata
  unfolding with_metadata
  with_metadata_consistent node runtime start timeout rounds snapshot e = ground arith

  -- The runtime part that a query goes on with, if it gets one.
  abbrev pub runtime_of_reply :
      ConnectedUdpNode → ℕ → ℕ → List Round → Option (Result RuntimeSnapshot UdpClientError)
  runtime_of_reply node start timeout rounds =
      elim (recv_frame crc (next_id node).1 start timeout rounds).1 [
        | none ↦ none
        | some result ↦ some (result >>= parse_query_runtime codec m r)
      ]

  -- A snapshot that a query returns is rebuilt from the runtime part of its reply and the metadata
  -- that the connection holds afterwards.
  pub query_connected_consistent :
      (node : ConnectedUdpNode) (start restart timeout : ℕ) (rounds : List Round)
      (snapshot : ServerGresSnapshot)
      → (query_connected codec m r crc node start restart timeout rounds).1.1 ≡ some (ok snapshot)
      → (runtime : RuntimeSnapshot) × (runtime_of_reply node start timeout rounds
          ≡ some (ok runtime))
        × (snapshot
            ≡ to_snapshot runtime
                (query_connected codec m r crc node start restart timeout rounds).0.metadata)
  unfolding query_connected
  query_connected_consistent node start restart timeout rounds snapshot e =
      let self' = (next_id node).0 in
      let rest = (recv_frame crc (next_id node).1 start timeout rounds).0 in
      elim (Result-cases (send_empty_query crc (next_id node).1)) [
        | inr (x, q) ↦ absurd (ground (arith, q))
        | inl (query, q) ↦
            elim (Option-cases (recv_frame crc (next_id node).1 start timeout rounds).1) [
              | inl waits ↦ absurd (ground (arith, q, waits))
              | inr (result, got) ↦ elim (Result-cases (result >>= parse_query_runtime codec m r)) [
                | inr (x, parsed) ↦ absurd (ground (arith, q, got, parsed))
                | inl (runtime, parsed) ↦ (
                  runtime,
                  ground (arith, got, parsed),
                  ground (
                    arith,
                    q,
                    got,
                    parsed,
                    with_metadata_consistent self' runtime restart timeout rest snapshot,
                  ),
                )
              ]
            ]
      ]
