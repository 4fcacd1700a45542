-- ===== src/Udp/Reassembler/Slots.antt =====
-- The slots of a group that has received some of the chunks of one frame.
use gpustat4cluster.Base.{
  ℕ, zero, suc, ◌+◌, ◌≤◌, ◌<◌, List, [], ◌∷◌, ◌++◌, ◌≡◌, refl, ap, ap₂, subst, ◌∙◌, Bool, true,
  false, ◌&&◌, ◌||◌, ◌==◌, if◌then◌else◌, Option, none, some, map, length, length-map, get_or,
  get_or-map, set, replicate, arith, ==_refl,
}
use gpustat4cluster.Base.Bytes.{Bytes}
use gpustat4cluster.Base.Chunks.{concat}
use gpustat4cluster.Protocol.Header.{FrameHeader}
use gpustat4cluster.Udp.Checksum.{Crc}
use gpustat4cluster.Udp.Split.{prev_index, next_index, chunk_header}
use gpustat4cluster.Udp.Reassembler.{
  ChunkSlot, slot_of, is_complete, filled, joined, verify_slot, verify_from, verify_all, empty_slot,
}

-- Every index from `idx` on, `count` of them, is in the set.
unfoldable pub covers : (ℕ → Bool) → ℕ → ℕ → Bool
covers has idx zero = true
covers has idx (suc count) = has idx && covers has (idx + 1) count

abbrev pub add : (ℕ → Bool) → ℕ → ℕ → Bool
add has j k = k == j || has k

module _ (crc : Crc) (fh : FrameHeader) (len : ℕ) (pieces : List Bytes) where
  abbrev pub sums : List ℕ
  sums = map crc.hash pieces

  abbrev pub slot_at : ℕ → Bytes → ChunkSlot
  slot_at idx p = slot_of (chunk_header fh len sums idx p) p

  -- The slots from `idx` on, filled where the set has the index.
  pub mask : (ℕ → Bool) → ℕ → List Bytes → List (Option ChunkSlot)
  mask has idx [] = []
  mask has idx (p ∷ ps) = (if has idx then some (slot_at idx p) else none) ∷ mask has (idx + 1) ps

  pub slots : ℕ → List Bytes → List ChunkSlot
  slots idx [] = []
  slots idx (p ∷ ps) = slot_at idx p ∷ slots (idx + 1) ps

  mask-cong :
      (has more : ℕ → Bool) (idx : ℕ) (ps : List Bytes)
      → ((k : ℕ) → idx ≤ k → has k ≡ more k)
      → mask has idx ps ≡ mask more idx ps
  unfolding mask
  mask-cong has more idx [] h = refl
  mask-cong has more idx (p ∷ ps) h =
      ap₂ ◌∷◌ (ap (λ b. if b then some (slot_at idx p) else none) (h idx (omega arith)))
        (mask-cong has more (idx + 1) ps (λ k le. h k (omega arith)))

  -- Writing the slot of an index adds the index to the set.
  pub set-mask :
      (has : ℕ → Bool) (idx i : ℕ) (ps : List Bytes)
      → i < length ps
      → set (mask has idx ps) i (some (slot_at (idx + i) (get_or ps i [])))
        ≡ mask (add has (idx + i)) idx ps
  unfolding mask
  set-mask has idx i [] h = elim h [ ]
  set-mask has idx zero (p ∷ ps) h =
      let here : idx ≡ idx + 0 = omega arith in
      subst
        (λ j. set (mask has idx (p ∷ ps)) 0 (some (slot_at j p)) ≡ mask (add has j) idx (p ∷ ps))
        here
        (ap₂ ◌∷◌ (rw (==_refl idx))
          (mask-cong has (add has idx) (idx + 1) ps (λ k le. ground arith)))
  set-mask has idx (suc i) (p ∷ ps) h =
      let there : idx + 1 + i ≡ idx + suc i = omega arith in
      subst
        (λ j.
          set (mask has idx (p ∷ ps)) (suc i) (some (slot_at j (get_or ps i [])))
          ≡ mask (add has j) idx (p ∷ ps))
        there (ap₂ ◌∷◌ (ground arith) (set-mask has (idx + 1) i ps (omega arith)))

  pub mask-none :
      (idx : ℕ) (ps : List Bytes) → mask (λ _. false) idx ps ≡ replicate (length ps) none
  unfolding mask
  mask-none idx [] = refl
  mask-none idx (p ∷ ps) = ap (λ r. none ∷ r) (mask-none (idx + 1) ps)

  pub is_complete-mask :
      (has : ℕ → Bool) (idx : ℕ) (ps : List Bytes)
      → is_complete (mask has idx ps) ≡ covers has idx (length ps)
  unfolding mask is_complete covers
  is_complete-mask has idx [] = refl
  is_complete-mask has idx (p ∷ ps) = ground (arith, is_complete-mask has (idx + 1) ps)

  pub filled-mask :
      (has : ℕ → Bool) (idx : ℕ) (ps : List Bytes)
      → covers has idx (length ps) ≡ true
      → filled (mask has idx ps) ≡ slots idx ps
  unfolding mask filled covers slots
  filled-mask has idx [] h = refl
  filled-mask has idx (p ∷ ps) h = ground (arith, filled-mask has (idx + 1) ps)

  pub joined-slots : (idx : ℕ) (ps : List Bytes) → joined (slots idx ps) ≡ concat ps
  unfolding slots joined
  joined-slots idx [] = refl
  joined-slots idx (p ∷ ps) = ap (λ r. p ++ r) (joined-slots (idx + 1) ps)

  length-slots : (idx : ℕ) (ps : List Bytes) → length (slots idx ps) ≡ length ps
  unfolding slots
  length-slots idx [] = refl
  length-slots idx (p ∷ ps) = ap suc (length-slots (idx + 1) ps)

  get_or-slots :
      (idx i : ℕ) (ps : List Bytes) (d : ChunkSlot)
      → i < length ps
      → get_or (slots idx ps) i d ≡ slot_at (idx + i) (get_or ps i [])
  unfolding slots
  get_or-slots idx i [] d h = elim h [ ]
  get_or-slots idx zero (p ∷ ps) d h = ap (λ k. slot_at k p) {x = idx} (omega arith)
  get_or-slots idx (suc i) (p ∷ ps) d h =
      get_or-slots (idx + 1) i ps d (omega arith)
      ∙ ap (λ k. slot_at k (get_or ps i [])) {x = idx + 1 + i} (omega arith)

  verify_slot-slots : (i : ℕ) → i < length pieces → verify_slot crc (slots 0 pieces) i ≡ true
  unfolding verify_slot chunk_header
  verify_slot-slots i h =
      let before = prev_index (length pieces) i in
      let after = next_index (length pieces) i in
      let before_lt : before < length pieces = ground arith in
      let after_lt : after < length pieces = ground arith in
      ground (
        arith,
        length-slots 0 pieces,
        length-map crc.hash pieces,
        get_or-slots 0 i pieces (empty_slot crc) h,
        get_or-slots 0 before pieces (empty_slot crc) before_lt,
        get_or-slots 0 after pieces (empty_slot crc) after_lt,
        get_or-map crc.hash pieces before [] 0 before_lt,
        get_or-map crc.hash pieces after [] 0 after_lt,
      )

  verify_from-slots :
      (rounds i : ℕ) → i + rounds ≤ length pieces → verify_from crc (slots 0 pieces) rounds i ≡ true
  unfolding verify_from
  verify_from-slots zero i h = refl
  verify_from-slots (suc rounds) i h =
      ground (arith, verify_slot-slots i, verify_from-slots rounds (i + 1))

  -- The checksums of a complete group agree with its neighbours.
  pub verify_all-slots : verify_all crc (slots 0 pieces) ≡ true
  unfolding verify_all
  verify_all-slots =
      ap (λ n. verify_from crc (slots 0 pieces) n 0) (length-slots 0 pieces)
      ∙ verify_from-slots (length pieces) 0 (omega arith)
