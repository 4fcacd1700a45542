-- ===== src/Server/Cache/System/Effect.antt =====
-- What one step does to the refresh that is in flight.
use gpustat4cluster.Base.{
  ℕ, true, false, ◌≡◌, refl, arith, Bool-cases, Option-cases, Result-cases, ◌==◌, inl, inr,
}
use gpustat4cluster.Server.Cache.{
  GresCache, Env, Pc, start, missed, waiting, woken, collecting, storing, finishing, done, resume,
  try_hit, round, collected, store, finish_refresh, get_fresh,
}
use gpustat4cluster.Server.Cache.System.{refreshing, is_waiting, ends}

pub data Effect (c : GresCache) (p : Pc) (c' : GresCache) (p' : Pc) : Type 0 where
  -- No refresh begins or ends. Who waits waits for a refresh in flight.
  quiet :
      c'.in_flight ≡ c.in_flight
      → refreshing p' ≡ refreshing p
      → ends p ≡ false
      → (is_waiting p' ≡ true → (c.in_flight ≡ true))
      → Effect c p c' p'
  begins :
      c.in_flight ≡ false
      → c'.in_flight ≡ true
      → refreshing p' ≡ true
      → ends p ≡ false
      → is_waiting p' ≡ false
      → Effect c p c' p'
  finishes :
      ends p ≡ true
      → refreshing p ≡ true
      → c'.in_flight ≡ false
      → refreshing p' ≡ false
      → is_waiting p' ≡ false
      → Effect c p c' p'

round-Effect :
    (c : GresCache) (p : Pc) (ttl now observed : ℕ)
    → refreshing p ≡ false
    → ends p ≡ false
    → Effect c p (round c ttl now observed).0 (round c ttl now observed).1
unfolding round refreshing is_waiting ends
round-Effect c p ttl now observed r e = elim (Option-cases (get_fresh c ttl now)) [
  | inr (hit, fresh) ↦ rw (fresh, round) (quiet refl (ground arith) e (λ h. cc))
  | inl miss ↦
      rw (miss, round)
        (elim (Bool-cases (c.generation == observed)) [
          | inr other ↦ rw other (quiet refl (ground arith) e (λ h. cc))
          | inl same ↦ rw same (elim (Bool-cases c.in_flight) [
            | inl flying ↦ rw flying (quiet refl (ground arith) e (λ h. refl))
            | inr idle ↦ rw idle (begins refl refl refl e refl)
          ])
        ])
]

pub resume-Effect :
    (env : Env) (c : GresCache) (p : Pc)
    → (is_waiting p ≡ true → c.in_flight ≡ true)
    → Effect c p (resume env c p).0 (resume env c p).1
unfolding resume refreshing is_waiting ends try_hit collected
resume-Effect env c start w = elim (Option-cases (get_fresh c env.ttl_ms env.now)) [
  | inl miss ↦ rw (miss, try_hit) (quiet refl refl refl (λ h. cc))
  | inr (hit, fresh) ↦ rw (fresh, try_hit) (quiet refl refl refl (λ h. cc))
]
resume-Effect env c missed w = round-Effect c missed env.ttl_ms env.now c.generation refl refl
resume-Effect env c (waiting o) w = quiet refl (ground arith) refl (λ _. w refl)
resume-Effect env c (woken o) w = round-Effect c (woken o) env.ttl_ms env.now o refl refl
resume-Effect env c collecting w = elim (Result-cases env.answer) [
  | inl (snapshot, got) ↦ rw (got, collected) (quiet refl refl refl (λ h. cc))
  | inr (code, got) ↦ rw (got, collected) (quiet refl refl refl (λ h. cc))
]
resume-Effect env c (storing x) w = unfold store in quiet refl refl refl (λ h. cc)
resume-Effect env c (finishing r) w = unfold finish_refresh in finishes refl refl refl refl refl
resume-Effect env c (done r) w = quiet refl refl refl (λ h. cc)
