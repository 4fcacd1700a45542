-- ===== src/Server/Cache/System/SingleFlight.antt =====
-- At most one thread refreshes at a time, and who waits is notified in the end.
use gpustat4cluster.Base.{ℕ, true, false, ◌≡◌, refl, sym, ◌∙◌, ◌==◌, if◌then◌else◌, arith}
use gpustat4cluster.Server.Cache.{GresCache, Env, Pc, waiting, notify, resume, new}
use gpustat4cluster.Server.Cache.System.{
  System, refreshing, is_waiting, ends, advance, call, initial, Reach, here, step, again,
}
use gpustat4cluster.Server.Cache.System.Effect.{Effect, quiet, begins, finishes, resume-Effect}

pub record Inv (s : System) : Type 0 where
  -- A thread that refreshes has set the flag,
  pub flagged : (i : ℕ) → refreshing (s.pcs i) ≡ true → s.cache.in_flight ≡ true
  -- it is the only one,
  pub unique : (i j : ℕ) → refreshing (s.pcs i) ≡ true → refreshing (s.pcs j) ≡ true → i ≡ j
  -- the flag is set by a thread,
  pub owned : s.cache.in_flight ≡ true → (i : ℕ) × (refreshing (s.pcs i) ≡ true)
  -- and a thread that waits to be notified waits for it.
  pub expected : (i : ℕ) → is_waiting (s.pcs i) ≡ true → s.cache.in_flight ≡ true

Inv-initial : Inv initial
unfolding initial new refreshing is_waiting
Inv-initial = record {
  flagged = λ i h. cc;
  unique = λ i j h k. cc;
  owned = λ h. cc;
  expected = λ i h. cc;
}

refreshing-notify : (p : Pc) → refreshing (notify p) ≡ refreshing p
unfolding notify refreshing
refreshing-notify (waiting o) = refl
refreshing-notify _ = refl

pub is_waiting-notify : (p : Pc) → is_waiting (notify p) ≡ false
unfolding notify is_waiting
is_waiting-notify (waiting o) = refl
is_waiting-notify _ = refl

-- A step of thread `i`, by what it does to the refresh.
module _ (s : System) (i : ℕ) (cache : GresCache) (pc : Pc) (inv : Inv s) where
  abbrev after : System
  after = record {
    cache = cache;
    pcs = λ j. if j == i then pc else if ends (s.pcs i) then notify (s.pcs j) else s.pcs j;
  }

  after_self : after.pcs i ≡ pc
  after_self = ground arith

  after_quiet :
      cache.in_flight ≡ s.cache.in_flight
      → refreshing pc ≡ refreshing (s.pcs i)
      → ends (s.pcs i) ≡ false
      → (is_waiting pc ≡ true → s.cache.in_flight ≡ true)
      → Inv after
  after_quiet same kept going waits = record {
    flagged = λ j h. ground (arith, inv.flagged i, inv.flagged j);
    unique = λ j k h h'. ground (arith, inv.unique j k, inv.unique i k, inv.unique j i);
    owned = λ h. let (j, r) = inv.owned (sym same ∙ h) in (j, ground (arith, r));
    expected = λ j h. ground (arith, inv.expected j);
  }

  after_begins :
      s.cache.in_flight ≡ false
      → cache.in_flight ≡ true
      → refreshing pc ≡ true
      → ends (s.pcs i) ≡ false
      → Inv after
  after_begins idle flying r going = record {
    flagged = λ j h. flying;
    unique = λ j k h h'. ground (arith, inv.flagged j, inv.flagged k);
    owned = λ h. (i, ground (arith, r));
    expected = λ j h. flying;
  }

  after_finishes :
      ends (s.pcs i) ≡ true
      → refreshing (s.pcs i) ≡ true
      → cache.in_flight ≡ false
      → refreshing pc ≡ false
      → is_waiting pc ≡ false
      → Inv after
  after_finishes last r idle left quiet' = record {
    flagged = λ j h. ground (arith, inv.unique i j r, refreshing-notify (s.pcs j));
    unique = λ j k h h'. ground (arith, inv.unique i j r, refreshing-notify (s.pcs j));
    owned = λ h. absurd (ground arith);
    expected = λ j h. ground (arith, is_waiting-notify (s.pcs j));
  }

advance-Inv : (env : Env) (i : ℕ) (s : System) → Inv s → Inv (advance env i s)
unfolding advance
advance-Inv env i s inv = go (resume-Effect env s.cache (s.pcs i) (inv.expected i))
  where
    go :
        Effect s.cache (s.pcs i) (resume env s.cache (s.pcs i)).0 (resume env s.cache (s.pcs i)).1
        → Inv (advance env i s)
    go (quiet a b c d) =
        after_quiet s i (resume env s.cache (s.pcs i)).0 (resume env s.cache (s.pcs i)).1 inv a b c
          d
    go (begins a b c d e) =
        after_begins s i (resume env s.cache (s.pcs i)).0 (resume env s.cache (s.pcs i)).1 inv a b c
          d
    go (finishes a b c d e) =
        after_finishes s i (resume env s.cache (s.pcs i)).0 (resume env s.cache (s.pcs i)).1 inv a b
          c d e

call-Inv : (i : ℕ) (s : System) → refreshing (s.pcs i) ≡ false → Inv s → Inv (call i s)
unfolding call refreshing is_waiting
call-Inv i s idle inv = record {
  flagged = λ j h. ground (arith, inv.flagged j);
  unique = λ j k h h'. ground (arith, inv.unique j k);
  owned = λ h. let (j, r) = inv.owned h in (j, ground (arith, r));
  expected = λ j h. ground (arith, inv.expected j);
}

pub Reach-Inv : {s : System} → Reach s → Inv s
Reach-Inv here = Inv-initial
Reach-Inv (step {s} env i r) = advance-Inv env i s (Reach-Inv r)
Reach-Inv (again {s} i result e r) =
    call-Inv i s (unfold refreshing in ground (arith, e)) (Reach-Inv r)
