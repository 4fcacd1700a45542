-- ===== src/Cli/Render.antt =====
-- crates/client-cli/src/render.rs: which resources and processes are shown, and the width of names.
-- A character is a byte with the continuation bytes behind it.
pub mod Shown
use gpustat4cluster.Base.{
  ℕ, zero, suc, ◌+◌, ◌-◌, ◌^◌, max, ltb, leb, ◌==◌, not, if◌then◌else◌, Bool, true, false, ◌&&◌,
  Option, none, some, List, [], ◌∷◌, ◌++◌, length, drop, map, filter, any,
}
use gpustat4cluster.Base.Bytes.{bytes_eq}
use gpustat4cluster.Base.Chunks.{concat}
use gpustat4cluster.Base.Text.{Text, text}
use gpustat4cluster.Base.Scan.{is_empty, trim}
use gpustat4cluster.Base.Scan.Digits.{decimal}
use gpustat4cluster.Client.Adapter.{ProcessView, GresView, NodeView}

abbrev pub is_continuation : ℕ → Bool
is_continuation b = leb 0x80 b && leb b 0xbf

abbrev pub attach : ℕ → List Text → List Text
attach b [] = (b ∷ []) ∷ []
attach b ([] ∷ rest) = (b ∷ []) ∷ rest
attach b ((c ∷ cs) ∷ rest) =
    if is_continuation c then (b ∷ c ∷ cs) ∷ rest else (b ∷ []) ∷ (c ∷ cs) ∷ rest

-- `str::chars`
unfoldable pub chars : Text → List Text
chars [] = []
chars (b ∷ t) = attach b (chars t)

abbrev pub ellipsis : Text
ellipsis = 0xe2 ∷ 0x80 ∷ 0xa6 ∷ []

-- The last `keep` characters stand behind the others.
unfoldable pub shorten_left : Text → ℕ → Text
shorten_left value width =
    let len = length (chars value) in
    if width == 0
    then []
    else if leb len width
    then value
    else if width == 1
    then ellipsis
    else (ellipsis ++ concat (drop (len - (width - 1)) (chars value)))

unfoldable pub normalized_user_filter : Option Text → Option Text
normalized_user_filter none = none
normalized_user_filter (some s) = if is_empty (trim s) then none else some (trim s)

-- `resolve` is the lookup of a user's name.
module _ (resolve : ℕ → Option Text) where
  unfoldable pub shown_uid : ℕ → Text
  shown_uid uid =
      if uid == 0
      then text "root"
      else if uid == 2 ^ 32 - 1
      then text "?"
      else elim (resolve uid) [ none ↦ decimal uid | some name ↦ name ]

  unfoldable pub display_username : ProcessView → Text
  unfolding shown_uid
  display_username process =
      let username = trim process.username in
      if not (is_empty username) && not (bytes_eq username (text "?"))
      then username
      else shown_uid process.uid

  unfoldable pub should_render_gres : GresView → Option Text → Bool
  should_render_gres gres user_filter = elim (normalized_user_filter user_filter) [
    | none ↦ true
    | some user ↦ elim gres.processes [
      | none ↦ true
      | some processes ↦ any (λ process. bytes_eq (display_username process) user) processes
    ]
  ]

  unfoldable pub visible_processes : GresView → Option Text → List ProcessView
  visible_processes gres user_filter = elim gres.processes [
    | none ↦ []
    | some processes ↦ elim (normalized_user_filter user_filter) [
      | none ↦ processes
      | some user ↦ filter (λ process. bytes_eq (display_username process) user) processes
    ]
  ]

  -- The widest of the names that are shown, at least 16.
  unfoldable pub widest : List GresView → Option Text → ℕ
  widest [] user_filter = 16
  widest (gres ∷ rest) user_filter =
      let others = widest rest user_filter in
      if should_render_gres gres user_filter
      then max (if is_empty (trim gres.name) then 3 else length (chars gres.name)) others
      else others

  unfoldable pub gresname_width : List NodeView → Option Text → Option ℕ → ℕ
  unfolding widest
  gresname_width nodes user_filter configured = elim configured [
    | some width ↦ width
    | none ↦ widest (concat (map (λ (node : NodeView). node.gres) nodes)) user_filter
  ]

  -- The rows of each node that `remember_layout` counts.
  unfoldable pub shown_rows : NodeView → Option Text → ℕ
  shown_rows node user_filter =
      length (filter (λ gres. should_render_gres gres user_filter) node.gres)

-- `format_delay`; `millis` prints thousandths with two digits.
unfoldable pub format_delay : (ℕ → Text) → Option ℕ → Option Text
format_delay millis none = none
format_delay millis (some delay_us) =
    if ltb delay_us 1000
    then some (decimal delay_us ++ text "us")
    else some (millis delay_us ++ text "ms")
