-- ===== src/Server/Cache/System/Safety.antt =====
-- What callers of the cache may rely on, however their steps interleave.
use gpustat4cluster.Base.{ℕ, true, false, ◌≡◌, ◌≢◌, arith}
use gpustat4cluster.Server.Cache.{Env, resume, collected, store}
use gpustat4cluster.Server.Cache.System.{System, refreshing, is_waiting, ends, advance, Reach}
use gpustat4cluster.Server.Cache.System.SingleFlight.{Reach-Inv, is_waiting-notify}

-- In every reachable state of any number of threads in get_or_refresh at most one thread has a
-- refresh in flight, that is, calls the collector, stores its answer or ends the refresh.
pub single_flight :
    (s : System) (i j : ℕ)
    → Reach s
    → refreshing (s.pcs i) ≡ true
    → refreshing (s.pcs j) ≡ true
    → i ≡ j
single_flight s i j r hi hj = (Reach-Inv r).unique i j hi hj

-- The three steps of a refresher: the collector's answer, the store, and the end of the refresh.
abbrev pub three : Env → Env → Env → ℕ → System → System
three e1 e2 e3 j s = advance e3 j (advance e2 j (advance e1 j s))

still_waiting :
    (env : Env) (i j : ℕ) (s : System)
    → i ≢ j
    → is_waiting (s.pcs i) ≡ false
    → is_waiting ((advance env j s).pcs i) ≡ false
unfolding advance
still_waiting env i j s ne h = ground (arith, is_waiting-notify (s.pcs i))

ended :
    (env : Env) (i j : ℕ) (s : System)
    → i ≢ j
    → ends (s.pcs j) ≡ true
    → is_waiting ((advance env j s).pcs i) ≡ false
unfolding advance
ended env i j s ne h = ground (arith, is_waiting-notify (s.pcs i))

-- Where the refresher stands after its next step.
own_step :
    (env : Env) (j : ℕ) (s : System) → (advance env j s).pcs j ≡ (resume env s.cache (s.pcs j)).1
unfolding advance
own_step env j s = ground arith

in_two :
    (e1 e2 e3 : Env) (i j : ℕ) (s : System)
    → i ≢ j
    → refreshing (s.pcs j) ≡ true
    → is_waiting ((three e1 e2 e3 j s).pcs i) ≡ false
unfolding refreshing ends resume collected store
in_two e1 e2 e3 i j s ne h =
    let s1 = advance e1 j s in
    let s2 = advance e2 j s1 in
    ground (
      arith,
      own_step e1 j s,
      own_step e2 j s1,
      ended e1 i j s ne,
      ended e2 i j s1 ne,
      ended e3 i j s2 ne,
      still_waiting e2 i j s1 ne,
      still_waiting e3 i j s2 ne,
    )

-- In every reachable state in which a thread waits, some thread refreshes, and when that thread has
-- made three steps, whatever the collector answers, the first one waits no more.
pub no_lost_wakeup :
    (s : System) (i : ℕ)
    → Reach s
    → is_waiting (s.pcs i) ≡ true
    → (j : ℕ) × (refreshing (s.pcs j) ≡ true)
      × ((e1 e2 e3 : Env) → is_waiting ((three e1 e2 e3 j s).pcs i) ≡ false)
unfolding refreshing is_waiting
no_lost_wakeup s i r w =
    let inv = Reach-Inv r in
    let (j, h) = inv.owned (inv.expected i w) in
    (j, h, λ e1 e2 e3. in_two e1 e2 e3 i j s (λ same. ground (arith, same)) h)
