-- ===== src/Cli/Render/Shown.antt =====
-- A resource is shown where a process of it is.
use gpustat4cluster.Base.{
  ℕ, ◌≡◌, ◌≢◌, refl, Bool, true, Option, none, some, List, [], ◌∷◌, any, filter, length, arith,
  Option-cases, inl, inr, ltb,
}
use gpustat4cluster.Base.Bytes.{bytes_eq}
use gpustat4cluster.Base.Text.{Text}
use gpustat4cluster.Client.Adapter.{ProcessView, GresView}
use gpustat4cluster.Cli.Render.{
  normalized_user_filter, should_render_gres, visible_processes, display_username,
}

any-filter {ℓ} :
    {A : Type ℓ} (test : A → Bool) (xs : List A) → any test xs ≡ ltb 0 (length (filter test xs))
unfolding any filter
any-filter test [] = refl
any-filter test (x ∷ xs) = ground (arith, any-filter test xs)

-- For a user that is named, a resource whose processes are known is shown exactly if one of its
-- processes is; without a user, or without knowledge of the processes, it is always shown.
pub should_render_gres_lem :
    (resolve : ℕ → Option Text) (g : GresView) (u : Text) (ps : List ProcessView)
    → (normalized_user_filter (some u) ≡ none → should_render_gres resolve g (some u) ≡ true)
      × (g.processes ≡ none → should_render_gres resolve g (some u) ≡ true)
      × (normalized_user_filter (some u) ≢ none
          → g.processes ≡ some ps
          → should_render_gres resolve g (some u)
            ≡ ltb 0 (length (visible_processes resolve g (some u))))
unfolding should_render_gres visible_processes
should_render_gres_lem resolve g u ps = elim (Option-cases (normalized_user_filter (some u))) [
  | inl e ↦ (λ h. ground arith, λ h. ground arith, λ n h. absurd (n e))
  | inr (v, e) ↦ (
    λ h. ground arith,
    λ h. ground arith,
    λ n h. ground (arith, any-filter (λ process. bytes_eq (display_username resolve process) v) ps),
  )
]
