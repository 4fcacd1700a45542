-- ===== src/Udp/Reassembler/Delivery.antt =====
-- Whatever the order in which the datagrams of a frame arrive, and however often, the frame comes
-- out when the last missing one does.
use gpustat4cluster.Base.{
  ℕ, subst, ◌+◌, ◌^◌, ◌≤◌, ◌<◌, List, [], ◌∷◌, ◌++◌, ◌≡◌, refl, ap, ◌∙◌, Bool, false, ◌||◌, ◌==◌,
  ==_refl, if◌then◌else◌, Option, none, some, Result, ok, length, length-map, get_or, take_all, All,
  Bool-cases, inl, inr, drop, arith, All-get_or,
}
use gpustat4cluster.Base.Bytes.{Bytes, IsByte}
use gpustat4cluster.Base.Chunks.{chunks, concat, concat-chunks, chunks-IsShort}
use gpustat4cluster.Protocol.FrameType.{frame_type_eq_refl}
use gpustat4cluster.Protocol.Header.{FrameHeader}
use gpustat4cluster.Protocol.Frame.{decode_frame}
use gpustat4cluster.Udp.Checksum.{Crc}
use gpustat4cluster.Udp.Chunk
use gpustat4cluster.Udp.Chunk.{UdpChunkError}
use gpustat4cluster.Udp.Chunk.Layout.{decode-encode, drop-encode}
use gpustat4cluster.Udp.Split.{chunk_header, encode_udp_chunks}
use gpustat4cluster.Udp.Split.Cut.{
  Cut, encode_udp_chunks-inv, chunk_header-IsChunkHeader, get_or-datagrams, length-datagrams,
}
use gpustat4cluster.Udp.Reassembler.{
  ChunkGroup, Reassembler, lookup, store, new_group, group_for, finish, group_insert, insert,
}
use gpustat4cluster.Udp.Reassembler.Slots.{
  covers, add, mask, set-mask, mask-none, is_complete-mask, filled-mask, joined-slots,
  verify_all-slots, sums,
}

lookup-store :
    (id : ℕ) (g : ChunkGroup) (gs : List (ℕ × ChunkGroup)) → lookup id (store id g gs) ≡ some g
unfolding lookup store
lookup-store id g [] = rw (==_refl id)
lookup-store id g ((key, old) ∷ rest) = ground (arith, lookup-store id g rest)

group_for-store :
    (h : Chunk.UdpChunkHeader) (g : ChunkGroup) (gs : List (ℕ × ChunkGroup)) {id : ℕ}
    → h.request_id ≡ id
    → group_for (store id g gs) h ≡ g
unfolding group_for
group_for-store h g gs {id} e = ground (arith, lookup-store id g gs)

module _ (crc : Crc) (fh : FrameHeader) (bytes : Bytes) (pieces : List Bytes) where
  abbrev header_of : ℕ → Bytes → Chunk.UdpChunkHeader
  header_of i p = chunk_header fh (length bytes) (sums crc fh (length bytes) pieces) i p

  -- The group of the frame after the chunks in the set have arrived.
  abbrev group_with : (ℕ → Bool) → ChunkGroup
  group_with has = record {
    frame_type = fh.frame_type;
    request_id = fh.request_id;
    frame_len = length bytes;
    total_chunks = length pieces;
    chunks = mask crc fh (length bytes) pieces has 0 pieces;
  }

  abbrev outcome : (ℕ → Bool) → Result (Option Bytes) UdpChunkError
  outcome has = if covers has 0 (length pieces) then ok (some bytes) else ok none

  -- What the datagrams are cut from.
  module _ (whole : concat pieces ≡ bytes) (payload : Bytes)
      (frame : decode_frame bytes ≡ ok (fh, payload)) where
    finish-group_with : (has : ℕ → Bool) → finish crc (group_with has) ≡ outcome has
    unfolding finish
    finish-group_with has = elim (Bool-cases (covers has 0 (length pieces))) [
      | inl all ↦ ground (
        arith,
        is_complete-mask crc fh (length bytes) pieces has 0 pieces,
        filled-mask crc fh (length bytes) pieces has 0 pieces all,
        verify_all-slots crc fh (length bytes) pieces,
        joined-slots crc fh (length bytes) pieces 0 pieces,
        take_all (length bytes) bytes (omega arith),
        frame_type_eq_refl fh.frame_type,
      )
      | inr some_missing ↦
          ground (arith, is_complete-mask crc fh (length bytes) pieces has 0 pieces)
    ]

    module _ (few : length pieces < 2 ^ 16) where
      group_insert-group_with :
          (has : ℕ → Bool) (i : ℕ)
          → i < length pieces
          → group_insert crc
              (group_with has)
              (header_of i (get_or pieces i []))
              (get_or pieces i [])
            ≡ (group_with (add has i), outcome (add has i))
      unfolding group_insert chunk_header
      group_insert-group_with has i lt = ground (
        arith,
        length-map crc.hash pieces,
        frame_type_eq_refl fh.frame_type,
        set-mask crc fh (length bytes) pieces has 0 i pieces lt,
        finish-group_with (add has i),
      )

-- Whether an index is in a history of arrivals.
unfoldable pub occurs : ℕ → List ℕ → Bool
occurs k [] = false
occurs k (i ∷ history) = k == i || occurs k history

module _ (crc : Crc) where
  -- The state after the datagrams with these indices have arrived, the latest first.
  unfoldable pub receive : Reassembler → List Bytes → List ℕ → Reassembler
  receive r ds [] = r
  receive r ds (i ∷ history) = (insert crc (receive r ds history) (get_or ds i [])).0

  module _ (bytes : Bytes) (max_payload : ℕ) (ds : List Bytes) (small : max_payload < 2 ^ 16)
      (cut : Cut crc bytes max_payload ds) where
    open cut use {header, payload, frame, is_header, below, room, few, written}

    abbrev pieces : List Bytes
    pieces = chunks max_payload bytes

    -- The group that the next datagram of the frame meets.
    abbrev Holds : Reassembler → (ℕ → Bool) → Type 0
    Holds r has =
        (i : ℕ) (p : Bytes)
        → group_for r.groups (header_of crc header bytes pieces i p)
          ≡ group_with crc header bytes pieces has

    Holds-fresh :
        (r : Reassembler) → lookup header.request_id r.groups ≡ none → Holds r (λ _. false)
    unfolding group_for new_group chunk_header
    Holds-fresh r fresh i p =
        ground
          (arith, length-map crc.hash pieces, mask-none crc header (length bytes) pieces 0 pieces)

    datagram_lem :
        (i : ℕ)
        → i < length pieces
        → get_or ds i []
          ≡ Chunk.encode (header_of crc header bytes pieces i (get_or pieces i []))
            ++ get_or pieces i []
    datagram_lem i lt = rw written (
        get_or-datagrams header (length bytes) _ 0 i pieces lt
        ∙ ap
            (λ k.
              Chunk.encode (header_of crc header bytes pieces k (get_or pieces i []))
              ++ get_or pieces i [])
            {x = 0 + i} (omega arith))

    decoded :
        (i : ℕ)
        → i < length pieces
        → Chunk.decode (get_or ds i [])
          ≡ ok (header_of crc header bytes pieces i (get_or pieces i []))
    decoded i lt =
        let p = get_or pieces i [] in
        let short : length p ≤ max_payload =
          All-get_or (λ q. length q ≤ max_payload) pieces i [] (chunks-IsShort max_payload bytes)
            lt in
        rw (datagram_lem i lt) (
          decode-encode (header_of crc header bytes pieces i p) p
            (chunk_header-IsChunkHeader crc header (length bytes) pieces i p is_header below few lt)
            (unfold chunk_header in omega arith))

    carried : (i : ℕ) → i < length pieces → drop 32 (get_or ds i []) ≡ get_or pieces i []
    carried i lt = rw (datagram_lem i lt) (drop-encode _ (get_or pieces i []))

    insert_lem :
        (r : Reassembler) (has : ℕ → Bool) (i : ℕ)
        → Holds r has
        → i < length pieces
        → insert crc r (get_or ds i []) ≡ (
          record r {
            groups =
                store header.request_id (group_with crc header bytes pieces (add has i)) r.groups;
          },
          outcome crc header bytes pieces (add has i),
        )
    unfolding insert chunk_header
    insert_lem r has i holds lt =
        let p = get_or pieces i [] in
        let whole : concat pieces ≡ bytes = concat-chunks max_payload bytes (omega (arith, room)) in
        ground (
          arith,
          decoded i lt,
          carried i lt,
          holds i p,
          group_insert-group_with crc header bytes pieces whole payload frame few has i lt,
        )

    step :
        (r : Reassembler) (has : ℕ → Bool) (i : ℕ)
        → Holds r has
        → i < length pieces
        → Holds (insert crc r (get_or ds i [])).0 (add has i)
    step r has i holds lt j q = rw (insert_lem r has i holds lt) (
        group_for-store (header_of crc header bytes pieces j q)
          (group_with crc header bytes pieces (add has i)) r.groups (unfold chunk_header in refl))

    receive-Holds :
        (r : Reassembler) (history : List ℕ)
        → lookup header.request_id r.groups ≡ none
        → All (λ i. i < length pieces) history
        → Holds (receive r ds history) (λ k. occurs k history)
    unfolding receive occurs
    receive-Holds r [] fresh all = Holds-fresh r fresh
    receive-Holds r (i ∷ history) fresh all =
        step (receive r ds history) (λ k. occurs k history) i (receive-Holds r history fresh all.1)
          all.0

    deliver_cut :
        (r : Reassembler) (i : ℕ) (history : List ℕ)
        → lookup header.request_id r.groups ≡ none
        → All (λ j. j < length pieces) (i ∷ history)
        → (insert crc (receive r ds history) (get_or ds i [])).1 ≡ (
            if covers (λ k. occurs k (i ∷ history)) 0 (length pieces)
            then ok (some bytes)
            else ok none)
    unfolding occurs
    deliver_cut r i history fresh all =
        ap (λ t. t.1)
          (insert_lem (receive r ds history) (λ k. occurs k history) i
            (receive-Holds r history fresh all.1) all.0)

  -- Take the datagrams of a frame of bytes, cut for a payload of at most 65535 bytes, and a
  -- reassembler with no group for the frame's request id. However many of the datagrams have
  -- arrived, in any order and with repetitions, the next one returns the frame if each datagram has
  -- arrived by then, and nothing (without an error) if one is missing.
  pub deliver :
      (bytes : Bytes) (max_payload : ℕ) (ds : List Bytes) (r : Reassembler) (i : ℕ)
      (history : List ℕ)
      → All IsByte bytes
      → max_payload < 2 ^ 16
      → encode_udp_chunks crc bytes max_payload ≡ ok ds
      → ((h : FrameHeader) (payload : Bytes)
          → decode_frame bytes ≡ ok (h, payload)
          → lookup h.request_id r.groups ≡ none)
      → All (λ j. j < length ds) (i ∷ history)
      → (insert crc (receive r ds history) (get_or ds i [])).1
        ≡ (if covers (λ k. occurs k (i ∷ history)) 0 (length ds) then ok (some bytes) else ok none)
  deliver bytes max_payload ds r i history all small encoded fresh inside =
      let cut = encode_udp_chunks-inv crc bytes max_payload ds all encoded in
      let len : length ds ≡ length (chunks max_payload bytes) =
        ap length cut.written
        ∙ length-datagrams cut.header (length bytes) _ 0 (chunks max_payload bytes) in
      rw len (
        deliver_cut bytes max_payload ds small cut r i history
          (fresh cut.header cut.payload cut.frame)
          (subst (λ n. All (λ j. j < n) (i ∷ history)) len inside))
