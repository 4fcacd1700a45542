-- ===== src/Client/Adapter/Answer.antt =====
-- What the answer to a local query holds.
use gpustat4cluster.Base.{
  ℕ, ◌≡◌, refl, sym, ap, subst, ◌∙◌, false, Option, none, some, List, [], ◌∷◌, All, map, filter,
  length, if◌then◌else◌, ◌==◌, arith, Bool-cases, Option-cases, inl, inr,
}
use gpustat4cluster.Base.Bytes.{Bytes, bytes_eq, bytes_eq→eq}
use gpustat4cluster.Base.Text.{Text, text}
use gpustat4cluster.Base.Scan.{is_empty}
use gpustat4cluster.Base.TextMap.Sorted.{
  Reordered, Differ, HasDistinctKeys, IsSortedBy, Reordered-sort_by, sort_by-IsSortedBy,
  sort_by-Reordered, Reordered-back, All-Reordered,
}
use gpustat4cluster.Base.TextMap.Sorted.Reordered.{same, keep, swap, both}
use gpustat4cluster.Client.Filter.{Net, node_filter}
use gpustat4cluster.Client.Cache.{ConnectionCacheEntry, CacheMap, matches_filter}
use gpustat4cluster.Client.Adapter.{
  ProcessView, GresView, NodeView, LocalResponse, node_view_from_entry, node_view_from_snapshot,
  retain_user, apply_user_filter, selected_views, build_query_response,
}

abbrev pub by_id : NodeView → Text
by_id n = n.connection_id

module _ (net : Net) where
  abbrev pub row_id : Text × ConnectionCacheEntry net → Text
  row_id row = row.1.connection_id

module _ (username : ℕ → Text) (net : Net) (payload : Bytes → Option ℕ × List GresView)
    (patterns : List Text) (user : Option Text) where
  abbrev view : ConnectionCacheEntry net → NodeView
  view entry = apply_user_filter (node_view_from_entry username net payload entry) user

  selected-Reordered :
      {xs ys : CacheMap net}
      → Reordered xs ys
      → Reordered
          (selected_views username net payload xs patterns user)
          (selected_views username net payload ys patterns user)
  unfolding selected_views
  selected-Reordered same = same
  selected-Reordered (keep (k, e) r) = elim (Bool-cases (matches_filter net e patterns)) [
    | inl h ↦ rw h (keep (view e) (selected-Reordered r))
    | inr h ↦ rw h (selected-Reordered r)
  ]
  selected-Reordered (swap (k, e) (l, f)) = elim (Bool-cases (matches_filter net e patterns)) [
    | inl h ↦ elim (Bool-cases (matches_filter net f patterns)) [
      | inl g ↦ rw h (rw g (swap (view e) (view f)))
      | inr g ↦ rw h (rw g same)
    ]
    | inr h ↦ elim (Bool-cases (matches_filter net f patterns)) [
      | inl g ↦ rw h (rw g same)
      | inr g ↦ rw h (rw g same)
    ]
  ]
  selected-Reordered (both r s) = both (selected-Reordered r) (selected-Reordered s)

  apply_user_filter_id : (n : NodeView) → (apply_user_filter n user).connection_id ≡ n.connection_id
  unfolding apply_user_filter
  apply_user_filter_id n = elim (Option-cases user) [
    | inl e ↦ rw e refl
    | inr (u, e) ↦ ground arith
  ]

  view_id : (e : ConnectionCacheEntry net) → (view e).connection_id ≡ e.connection_id
  unfolding node_view_from_entry node_view_from_snapshot
  view_id e =
      apply_user_filter_id (node_view_from_entry username net payload e)
      ∙ (elim (Option-cases e.last_snapshot) [ inl f ↦ ground arith | inr (s, f) ↦ ground arith ])

  selected-Differ :
      (k : Text) (e : ConnectionCacheEntry net) (rows : CacheMap net)
      → All (Differ (row_id net) (k, e)) rows
      → All (Differ by_id (view e)) (selected_views username net payload rows patterns user)
  unfolding selected_views
  selected-Differ k e [] h = tt
  selected-Differ k e ((l, f) ∷ rows) h = elim (Bool-cases (matches_filter net f patterns)) [
    | inr g ↦ rw g (selected-Differ k e rows h.1)
    | inl g ↦ rw g (
      (
        ap (λ (t : Text). bytes_eq t (view f).connection_id) (view_id e)
            ∙ ap (λ (t : Text). bytes_eq e.connection_id t) (view_id f)
            ∙ h.0.0,
        ap (λ (t : Text). bytes_eq t (view e).connection_id) (view_id f)
            ∙ ap (λ (t : Text). bytes_eq f.connection_id t) (view_id e)
            ∙ h.0.1,
      ),
      selected-Differ k e rows h.1,
    )
  ]

  selected-HasDistinctKeys :
      (rows : CacheMap net)
      → HasDistinctKeys (row_id net) rows
      → HasDistinctKeys by_id (selected_views username net payload rows patterns user)
  unfolding selected_views
  selected-HasDistinctKeys [] h = tt
  selected-HasDistinctKeys ((k, e) ∷ rows) h = elim (Bool-cases (matches_filter net e patterns)) [
    | inr g ↦ rw g (selected-HasDistinctKeys rows h.1)
    | inl g ↦ rw g (selected-Differ k e rows h.0, selected-HasDistinctKeys rows h.1)
  ]

module _ (username : ℕ → Text) (net : Net) (payload : Bytes → Option ℕ × List GresView) (now : ℕ)
    (filter_ user : Option Text) where
  -- The answer to a local query does not depend on the order in which the map of the cache is
  -- iterated, where the entries have distinct connection ids.
  pub build_query_response-Reordered :
      (rows other : CacheMap net)
      → Reordered rows other
      → HasDistinctKeys (row_id net) rows
      → build_query_response username net payload now rows filter_ user
        ≡ build_query_response username net payload now other filter_ user
  unfolding build_query_response
  build_query_response-Reordered rows other r h =
      let nodes =
        sort_by-Reordered by_id
          (selected-Reordered username net payload (node_filter filter_) user r)
          (selected-HasDistinctKeys username net payload (node_filter filter_) user rows h) in
      ap
        (λ ns.
          let answer : LocalResponse = record {
            meta = record {
              status = if length ns == 0 then text "empty" else text "ok";
              timestamp_ms = now;
              node_count = length ns;
              errors = [];
            };
            nodes = ns;
          } in
          answer)
        nodes

-- The processes that are shown, if any are, are those of a user.
abbrev pub OfUser : Text → Option (List ProcessView) → Type 0
OfUser u none = Unit
OfUser u (some processes) = All (λ p. p.username ≡ u) processes

abbrev pub ShowsUser : Text → NodeView → Type 0
ShowsUser u n = All (λ g. OfUser u g.processes) n.gres

filter_user :
    (u : Text) (ps : List ProcessView)
    → All (λ p. p.username ≡ u) (filter (λ p. bytes_eq p.username u) ps)
unfolding filter
filter_user u [] = tt
filter_user u (p ∷ ps) = elim (Bool-cases (bytes_eq p.username u)) [
  | inl e ↦ rw e (bytes_eq→eq p.username u e, filter_user u ps)
  | inr e ↦ rw e (filter_user u ps)
]

retain_user-OfUser : (u : Text) (g : GresView) → OfUser u (retain_user u g).processes
unfolding retain_user
retain_user-OfUser u g = elim (Option-cases g.processes) [
  | inl e ↦
      let shown : (retain_user u g).processes ≡ none = ground arith in
      subst (OfUser u) (sym shown) tt
  | inr (ps, e) ↦
      let kept = filter (λ p. bytes_eq p.username u) ps in
      let shown : (retain_user u g).processes ≡ some kept = ground arith in
      subst (OfUser u) (sym shown) (filter_user u ps)
]

map-OfUser :
    (u : Text) (gs : List GresView) → All (λ g. OfUser u g.processes) (map (retain_user u) gs)
map-OfUser u [] = tt
map-OfUser u (g ∷ gs) = (retain_user-OfUser u g, map-OfUser u gs)

apply_user_filter-ShowsUser :
    (u : Text) (n : NodeView) → is_empty u ≡ false → ShowsUser u (apply_user_filter n (some u))
unfolding apply_user_filter
apply_user_filter-ShowsUser u n h = rw h (map-OfUser u n.gres)

module _ (username : ℕ → Text) (net : Net) (payload : Bytes → Option ℕ × List GresView) (now : ℕ)
    (filter_ : Option Text) (rows : CacheMap net) (u : Text) (named : is_empty u ≡ false) where
  selected-ShowsUser :
      (some_ : CacheMap net) (patterns : List Text)
      → All (ShowsUser u) (selected_views username net payload some_ patterns (some u))
  unfolding selected_views
  selected-ShowsUser [] patterns = tt
  selected-ShowsUser ((k, e) ∷ rest) patterns = elim (Bool-cases (matches_filter net e patterns)) [
    | inl h ↦ rw h (
      apply_user_filter-ShowsUser u (node_view_from_entry username net payload e) named,
      selected-ShowsUser rest patterns,
    )
    | inr h ↦ rw h (selected-ShowsUser rest patterns)
  ]

  -- The answer to a query for a user with a name that is not empty shows only processes of that
  -- user, its nodes are sorted by connection id, and node_count is their number.
  pub build_query_response_user :
      All (ShowsUser u) (build_query_response username net payload now rows filter_ (some u)).nodes
      × IsSortedBy by_id (build_query_response username net payload now rows filter_ (some u)).nodes
      × ((build_query_response username net payload now rows filter_ (some u)).meta.node_count
          ≡ length (build_query_response username net payload now rows filter_ (some u)).nodes)
  unfolding build_query_response
  build_query_response_user =
      let chosen = selected_views username net payload rows (node_filter filter_) (some u) in
      (
        All-Reordered by_id (ShowsUser u) (Reordered-back (Reordered-sort_by by_id chosen))
            (selected-ShowsUser rows (node_filter filter_)),
        sort_by-IsSortedBy by_id chosen,
        refl,
      )
