-- ===== src/Client/Discovery/Merged.antt =====
-- What the merge of discovered and static nodes holds.
use gpustat4cluster.Base.{
  ◌≡◌, refl, sym, subst, ◌∙◌, false, Option, none, some, List, [], ◌∷◌, ◌++◌, All, if◌then◌else◌,
  arith, Bool-cases, Option-cases, inl, inr,
}
use gpustat4cluster.Base.Bytes.{bytes_eq, bytes_eq_refl, bytes_eq→eq, bytes_eq_sym}
use gpustat4cluster.Base.Text.{Text}
use gpustat4cluster.Base.TextMap.{get, insert, get-insert_if}
use gpustat4cluster.Base.TextMap.Sorted.{
  Reordered, Differ, HasDistinctKeys, IsSortedBy, Reordered-sort_by, sort_by-IsSortedBy,
  Reordered-HasDistinctKeys, Reordered-back,
}
use gpustat4cluster.Base.TextMap.Sorted.Reordered.{same, keep, swap, both}
use gpustat4cluster.Client.Filter.{Net}
use gpustat4cluster.Client.Cache.{DiscoveredNode}
use gpustat4cluster.Client.Discovery.{values, addr_text, insert_nodes, merge_discovered_nodes}

or_none {ℓ} : {A : Type ℓ} (o : Option A) → (elim o [ some a ↦ some a | none ↦ none ]) ≡ o
or_none none = refl
or_none (some a) = refl

module _ (net : Net) where
  -- The node of a list with an address, and the last one.
  unfoldable pub find_node : Text → List (DiscoveredNode net) → Option (DiscoveredNode net)
  find_node k [] = none
  find_node k (n ∷ ns) =
      let later = find_node k ns in if bytes_eq (addr_text net n) k then some n else later

  unfoldable pub last_node : Text → List (DiscoveredNode net) → Option (DiscoveredNode net)
  last_node k [] = none
  last_node k (n ∷ ns) = elim (last_node k ns) [
    | some m ↦ some m
    | none ↦ if bytes_eq (addr_text net n) k then some n else none
  ]

  -- Every node stands under its own address.
  abbrev IsKeyed : List (Text × DiscoveredNode net) → Type 0
  IsKeyed [] = Unit
  IsKeyed ((k, n) ∷ rest) = (k ≡ addr_text net n) × IsKeyed rest

  insert-IsKeyed :
      (n : DiscoveredNode net) (rows : List (Text × DiscoveredNode net))
      → IsKeyed rows
      → IsKeyed (insert (addr_text net n) n rows)
  unfolding insert
  insert-IsKeyed n [] h = (refl, tt)
  insert-IsKeyed n ((k, m) ∷ rows) h = elim (Bool-cases (bytes_eq k (addr_text net n))) [
    | inl e ↦ rw e (refl, h.1)
    | inr e ↦ rw e (h.0, insert-IsKeyed n rows h.1)
  ]

  get-values :
      (k : Text) (rows : List (Text × DiscoveredNode net))
      → IsKeyed rows
      → find_node k (values net rows) ≡ get k rows
  unfolding find_node get
  get-values k [] h = refl
  get-values k ((j, n) ∷ rows) h = ground (arith, h.0, get-values k rows h.1)

  differ :
      (a b : DiscoveredNode net)
      → bytes_eq (addr_text net a) (addr_text net b) ≡ false
      → Differ (addr_text net) a b
  differ a b h = (h, bytes_eq_sym (addr_text net b) (addr_text net a) ∙ h)

  insert-Differ :
      (a n : DiscoveredNode net) (rows : List (Text × DiscoveredNode net))
      → Differ (addr_text net) a n
      → All (Differ (addr_text net) a) (values net rows)
      → All (Differ (addr_text net) a) (values net (insert (addr_text net n) n rows))
  unfolding insert
  insert-Differ a n [] d h = (d, tt)
  insert-Differ a n ((k, m) ∷ rows) d h = elim (Bool-cases (bytes_eq k (addr_text net n))) [
    | inl e ↦ rw e (d, h.1)
    | inr e ↦ rw e (h.0, insert-Differ a n rows d h.1)
  ]

  insert-HasDistinctKeys :
      (n : DiscoveredNode net) (rows : List (Text × DiscoveredNode net))
      → IsKeyed rows
      → HasDistinctKeys (addr_text net) (values net rows)
      → HasDistinctKeys (addr_text net) (values net (insert (addr_text net n) n rows))
  unfolding insert
  insert-HasDistinctKeys n [] k d = (tt, tt)
  insert-HasDistinctKeys n ((j, m) ∷ rows) k d = elim (Bool-cases (bytes_eq j (addr_text net n))) [
    | inl e ↦ rw e (
      subst
          (λ t.
            All
              (λ b. (bytes_eq t (addr_text net b) ≡ false) × (bytes_eq (addr_text net b) t ≡ false))
              (values net rows))
          (sym k.0 ∙ bytes_eq→eq j (addr_text net n) e) d.0,
      d.1,
    )
    | inr e ↦ rw e (
      insert-Differ m n rows (differ m n (subst (λ t. bytes_eq t (addr_text net n) ≡ false) k.0 e))
          d.0,
      insert-HasDistinctKeys n rows k.1 d.1,
    )
  ]

  -- The rows after a list of nodes: each under its own address, no address twice, and under each the
  -- last node of the list, or what was there before.
  inserted :
      (ns : List (DiscoveredNode net)) (rows : List (Text × DiscoveredNode net)) (k : Text)
      → IsKeyed rows
      → HasDistinctKeys (addr_text net) (values net rows)
      → IsKeyed (insert_nodes net ns rows)
        × HasDistinctKeys (addr_text net) (values net (insert_nodes net ns rows))
        × (get k (insert_nodes net ns rows)
            ≡ (elim (last_node k ns) [ some m ↦ some m | none ↦ get k rows ]))
  unfolding insert_nodes last_node
  inserted [] rows k keyed distinct = (keyed, distinct, refl)
  inserted (n ∷ ns) rows k keyed distinct =
      let (keyed', distinct', found) =
        inserted ns (insert (addr_text net n) n rows) k (insert-IsKeyed n rows keyed)
          (insert-HasDistinctKeys n rows keyed distinct) in
      (
        keyed',
        distinct',
        elim (Option-cases (last_node k ns)) [
          | inr (m, e) ↦ found ∙ rw e refl
          | inl e ↦ found ∙ rw e (get-insert_if (addr_text net n) k n rows ∙ ground (arith))
        ],
      )

  find_node-Reordered :
      (k : Text) {xs ys : List (DiscoveredNode net)}
      → Reordered xs ys
      → HasDistinctKeys (addr_text net) xs
      → find_node k xs ≡ find_node k ys
  unfolding find_node
  find_node-Reordered k same h = refl
  find_node-Reordered k (keep x r) h = ground (arith, find_node-Reordered k r h.1)
  find_node-Reordered k (swap x y) h = ground (
    arith,
    h.0.0.0,
    bytes_eq→eq (addr_text net x) k,
    bytes_eq→eq (addr_text net y) k,
    bytes_eq_refl k,
  )
  find_node-Reordered k (both r s) h =
      find_node-Reordered k r h
      ∙ find_node-Reordered k s (Reordered-HasDistinctKeys (addr_text net) r h)

  -- The merge of discovered and static nodes is a map from addresses: it is sorted by the text of
  -- the address, has each address at most once, and has at an address the last node of that
  -- address, static nodes behind discovered ones.
  pub merge_discovered_nodes_lem :
      (discovered static_nodes : List (DiscoveredNode net)) (k : Text)
      → IsSortedBy (addr_text net) (merge_discovered_nodes net discovered static_nodes)
        × HasDistinctKeys (addr_text net) (merge_discovered_nodes net discovered static_nodes)
        × (find_node k (merge_discovered_nodes net discovered static_nodes)
            ≡ last_node k (discovered ++ static_nodes))
  unfolding merge_discovered_nodes get last_node
  merge_discovered_nodes_lem discovered static_nodes k =
      let all = discovered ++ static_nodes in
      let rows = insert_nodes net all [] in
      let (keyed, distinct, found) = inserted all [] k tt tt in
      let sorted = Reordered-sort_by (addr_text net) (values net rows) in
      let distinct' = Reordered-HasDistinctKeys (addr_text net) (Reordered-back sorted) distinct in
      (
        sort_by-IsSortedBy (addr_text net) (values net rows),
        distinct',
        find_node-Reordered k sorted distinct'
            ∙ get-values k rows keyed
            ∙ found
            ∙ or_none (last_node k all),
      )
