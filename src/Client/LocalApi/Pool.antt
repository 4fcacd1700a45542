-- ===== src/Client/LocalApi/Pool.antt =====
-- The pool of connections: no more than are allowed, and one for each host.
use gpustat4cluster.Base.{
  ℕ, ◌+◌, ◌≤◌, ◌≡◌, refl, sym, ap, subst, ◌∙◌, leb, ==_refl, true, false, Option, none, some, List,
  [], ◌∷◌, All, length, arith, Bool-cases, Option-cases, inl, inr,
}
use gpustat4cluster.Base.Bytes.{bytes_eq, bytes_eq→eq, bytes_eq_sym}
use gpustat4cluster.Base.Text.{Text}
use gpustat4cluster.Base.Scan.{is_some}
use gpustat4cluster.Base.TextMap.Sorted.{Differ, HasDistinctKeys}
use gpustat4cluster.Snapshot.{HostMetadata}
use gpustat4cluster.Client.Filter.{Net}
use gpustat4cluster.Client.Cache.{DiscoveredNode, cache_key}
use gpustat4cluster.Client.LocalApi.{
  addr_eq, Connection, LocalApiState, remove_row, find_connection, remove_connection, set_metadata,
  find_host, replace_host, keep_connection, establish_one_connection, establish_from,
  establish_connections,
}

module _ (net : Net) (same_ip : (ip : net.IpAddr) → net.ip_eq ip ip ≡ true) where
  abbrev Row : Type 0
  Row = (net.IpAddr × ℕ) × Connection net

  abbrev pub host : (net.IpAddr × ℕ) × Connection net → Text
  host row = row.1.hostname

  -- At most as many connections as are allowed, and no two to one host.
  pub record IsPool (s : LocalApiState net) : Type 0 where
    pub bounded : length s.connections ≤ s.max_connections
    pub hosts : HasDistinctKeys host s.connections

  pub length-remove_connection :
      (a : net.IpAddr × ℕ) (rows : List Row) → length (remove_connection net a rows) ≤ length rows
  unfolding remove_connection
  length-remove_connection a [] = omega arith
  length-remove_connection a (row ∷ rows) = ground (arith, length-remove_connection a rows)

  All-remove_connection :
      (P : Row → Type 0) (a : net.IpAddr × ℕ) (rows : List Row)
      → All P rows
      → All P (remove_connection net a rows)
  unfolding remove_connection
  All-remove_connection P a [] h = tt
  All-remove_connection P a ((b, c) ∷ rows) h = elim (Bool-cases (addr_eq net b a)) [
    | inl e ↦ rw e (All-remove_connection P a rows h.1)
    | inr e ↦ rw e (h.0, All-remove_connection P a rows h.1)
  ]

  pub remove_connection-HasDistinctKeys :
      (a : net.IpAddr × ℕ) (rows : List Row)
      → HasDistinctKeys host rows
      → HasDistinctKeys host (remove_connection net a rows)
  unfolding remove_connection
  remove_connection-HasDistinctKeys a [] h = tt
  remove_connection-HasDistinctKeys a ((b, c) ∷ rows) h = elim (Bool-cases (addr_eq net b a)) [
    | inl e ↦ rw e (remove_connection-HasDistinctKeys a rows h.1)
    | inr e ↦ rw e (
      All-remove_connection (Differ host (b, c)) a rows h.0,
      remove_connection-HasDistinctKeys a rows h.1,
    )
  ]

  abbrev IsOther : Text → Row → Type 0
  IsOther h row = bytes_eq row.1.hostname h ≡ false

  All-IsOther : (h : Text) (rows : List Row) → find_host net h rows ≡ none → All (IsOther h) rows
  unfolding find_host
  All-IsOther h [] e = tt
  All-IsOther h (row ∷ rows) e = (ground arith, All-IsOther h rows (ground arith))

  others_of :
      (h : Text) (row : Row) (rows : List Row)
      → bytes_eq row.1.hostname h ≡ true
      → All (Differ host row) rows
      → All (IsOther h) rows
  others_of h row [] e d = tt
  others_of h row (other ∷ rows) e d = (
    ap (λ t. bytes_eq other.1.hostname t) (sym (bytes_eq→eq row.1.hostname h e)) ∙ d.0.1,
    others_of h row rows e d.1,
  )

  pub length-set_metadata :
      (a : net.IpAddr × ℕ) (m : HostMetadata) (rows : List Row)
      → length (set_metadata net a m rows) ≡ length rows
  unfolding set_metadata
  length-set_metadata a m [] = refl
  length-set_metadata a m ((b, c) ∷ rows) = ground (arith, length-set_metadata a m rows)

  -- New metadata with the old hostname differs in it from what the old differs from.
  set_metadata-Differ :
      (row : Row) (a : net.IpAddr × ℕ) (m : HostMetadata) (c : Connection net) (rows : List Row)
      → find_connection net a rows ≡ some c
      → m.hostname ≡ c.hostname
      → All (Differ host row) rows
      → All (Differ host row) (set_metadata net a m rows)
  unfolding set_metadata
  set_metadata-Differ row a m c [] e same d = tt
  set_metadata-Differ row a m c ((b, f) ∷ rows) e same d = elim (Bool-cases (addr_eq net b a)) [
    | inl g ↦
        let here : f.hostname ≡ m.hostname = unfold find_connection in ground arith in
        rw g (
          subst (λ h. (bytes_eq row.1.hostname h ≡ false) × (bytes_eq h row.1.hostname ≡ false))
              here d.0,
          d.1,
        )
    | inr g ↦
        let there : find_connection net a rows ≡ some c = unfold find_connection in ground arith in
        rw g (d.0, set_metadata-Differ row a m c rows there same d.1)
  ]

  pub set_metadata-HasDistinctKeys :
      (a : net.IpAddr × ℕ) (m : HostMetadata) (c : Connection net) (rows : List Row)
      → find_connection net a rows ≡ some c
      → m.hostname ≡ c.hostname
      → HasDistinctKeys host rows
      → HasDistinctKeys host (set_metadata net a m rows)
  unfolding set_metadata
  set_metadata-HasDistinctKeys a m c [] e same d = tt
  set_metadata-HasDistinctKeys a m c ((b, f) ∷ rows) e same d =
      elim (Bool-cases (addr_eq net b a)) [
        | inl g ↦
            let here : f.hostname ≡ m.hostname = unfold find_connection in ground arith in
            rw g (
              subst
                  (λ h.
                    All (λ r. (bytes_eq h r.1.hostname ≡ false) × (bytes_eq r.1.hostname h ≡ false))
                      rows)
                  here d.0,
              d.1,
            )
        | inr g ↦
            let there : find_connection net a rows ≡ some c =
              unfold find_connection in ground arith in
            rw g (
              set_metadata-Differ (b, f) a m c rows there same d.0,
              set_metadata-HasDistinctKeys a m c rows there same d.1,
            )
      ]

  addr_same : (a : net.IpAddr × ℕ) → addr_eq net a a ≡ true
  addr_same a = rw (same_ip a.0) (==_refl a.1)

  IsOther-remove_connection :
      (h : Text) (a b : net.IpAddr × ℕ) (f : Connection net) (rows : List Row)
      → bytes_eq f.hostname h ≡ false
      → All (IsOther h) (remove_connection net a rows)
      → All (IsOther h) (remove_connection net a ((b, f) ∷ rows))
  unfolding remove_connection
  IsOther-remove_connection h a b f rows other all = elim (Bool-cases (addr_eq net b a)) [
    | inl e ↦ rw e all
    | inr e ↦ rw e (other, all)
  ]

  first_removed :
      (h : Text) (a : net.IpAddr × ℕ) (f : Connection net) (rows : List Row)
      → All (IsOther h) rows
      → All (IsOther h) (remove_connection net a ((a, f) ∷ rows))
  unfolding remove_connection
  first_removed h a f rows all = rw (addr_same a) (All-remove_connection (IsOther h) a rows all)

  -- Without the connection that is found for a host there is none to it.
  removed_host :
      (h : Text) (a : net.IpAddr × ℕ) (c : Connection net) (rows : List Row)
      → HasDistinctKeys host rows
      → find_host net h rows ≡ some (a, c)
      → All (IsOther h) (remove_connection net a rows)
  removed_host h a c [] d e = unfold find_host in cc e
  removed_host h a c ((b, f) ∷ rows) d e = elim (Bool-cases (bytes_eq f.hostname h)) [
    | inl first ↦
        let here : a ≡ b = unfold find_host in ground arith in
        subst (λ x. All (IsOther h) (remove_connection net x ((b, f) ∷ rows))) (sym here)
          (first_removed h b f rows (others_of h (b, f) rows first d.0))
    | inr later ↦
        let there : find_host net h rows ≡ some (a, c) = unfold find_host in ground arith in
        IsOther-remove_connection h a b f rows later (removed_host h a c rows d.1 there)
  ]

  other_differs :
      (row : Row) (rows : List Row) → All (IsOther row.1.hostname) rows → All (Differ host row) rows
  other_differs row [] h = tt
  other_differs row (other ∷ rows) h =
      ((bytes_eq_sym row.1.hostname other.1.hostname ∙ h.0, h.0), other_differs row rows h.1)

  abbrev After : Connection net → LocalApiState net → LocalApiState net → Type 0
  After c s t =
      IsPool t × All (IsOther c.hostname) t.connections × (t.max_connections ≡ s.max_connections)

  replaced :
      (c : Connection net) (s : LocalApiState net) → IsPool s → After c s (replace_host net c s)
  unfolding replace_host
  replaced c s v = elim (Option-cases (find_host net c.hostname s.connections)) [
    | inl e ↦
        let whole : s ≡ replace_host net c s = ground arith in
        subst (After c s) whole (v, All-IsOther c.hostname s.connections e, refl)
    | inr ((a, old), e) ↦
        let s' : LocalApiState net = record s {
          connections = remove_connection net a s.connections;
          cache = remove_row (cache_key net old.peer) s.cache;
        } in
        let whole : s' ≡ replace_host net c s = ground arith in
        subst (After c s) whole (
          record {
            bounded = omega (arith, v.bounded, length-remove_connection a s.connections);
            hosts = remove_connection-HasDistinctKeys a s.connections v.hosts;
          },
          removed_host c.hostname a old s.connections v.hosts e,
          refl,
        )
  ]

  keep_connection-IsPool :
      (now index : ℕ) (addr : net.IpAddr × ℕ) (c : Connection net) (s : LocalApiState net)
      → IsPool s
      → IsPool (keep_connection net now index addr c s)
  unfolding keep_connection
  keep_connection-IsPool now index addr c s v =
      let (v', others, same_max) = replaced c s v in
      let s' = replace_host net c s in
      elim (Bool-cases (leb s'.max_connections (length s'.connections))) [
        | inl full ↦ rw full v'
        | inr room ↦ rw room (record {
          bounded = ground arith;
          hosts = (other_differs (addr, c) s'.connections others, v'.hosts);
        })
      ]

  module _ (connect : net.IpAddr × ℕ → Option (Connection net)) (now : ℕ) where
    establish_one_connection-IsPool :
        (index : ℕ) (addr : net.IpAddr × ℕ) (s : LocalApiState net)
        → IsPool s
        → IsPool (establish_one_connection net connect now index addr s)
    unfolding establish_one_connection
    establish_one_connection-IsPool index addr s v =
        elim (Bool-cases (is_some (find_connection net addr s.connections))) [
          | inl e ↦ rw e v
          | inr e ↦ elim (Bool-cases (leb s.max_connections (length s.connections))) [
            | inl f ↦ rw e (rw f v)
            | inr f ↦ elim (Option-cases (connect addr)) [
              | inl g ↦ rw e (rw f (rw g v))
              | inr (c, g) ↦ rw e (rw f (rw g (keep_connection-IsPool now index addr c s v)))
            ]
          ]
        ]

    establish_from-IsPool :
        (index : ℕ) (nodes : List (DiscoveredNode net)) (s : LocalApiState net)
        → IsPool s
        → IsPool (establish_from net connect now index nodes s)
    unfolding establish_from
    establish_from-IsPool index [] s v = v
    establish_from-IsPool index (node ∷ nodes) s v =
        establish_from-IsPool (index + 1) nodes
          (establish_one_connection net connect now index node.addr s)
          (establish_one_connection-IsPool index node.addr s v)

    pub establish_connections-IsPool :
        (nodes : List (DiscoveredNode net)) (s : LocalApiState net)
        → IsPool s
        → IsPool (establish_connections net connect now nodes s)
    unfolding establish_connections
    establish_connections-IsPool nodes s v = establish_from-IsPool (length s.cache + 1) nodes s v
