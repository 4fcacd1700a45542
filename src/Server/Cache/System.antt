-- ===== src/Server/Cache/System.antt =====
-- Several threads in `get_or_refresh` of one cache, as interleavings of their steps.
pub mod Effect
pub mod SingleFlight
pub mod Safety
pub mod Waiters
use gpustat4cluster.Base.{ℕ, Bool, true, false, ◌≡◌, ◌==◌, if◌then◌else◌, Result}
use gpustat4cluster.ErrorCode.{ErrorCode}
use gpustat4cluster.Server.Cache.{
  GresCache, CacheEntry, new, Env, Pc, start, missed, waiting, woken, collecting, storing,
  finishing, done, notify, resume,
}

pub record System : Type 0 where
  pub cache : GresCache
  pub pcs : ℕ → Pc

-- The thread has begun a refresh that has not ended.
unfoldable pub refreshing : Pc → Bool
refreshing collecting = true
refreshing (storing _) = true
refreshing (finishing _) = true
refreshing _ = false

unfoldable pub is_waiting : Pc → Bool
is_waiting (waiting _) = true
is_waiting _ = false

-- The thread's next step ends the refresh and notifies the others.
unfoldable pub ends : Pc → Bool
ends (finishing _) = true
ends _ = false

-- A step of thread `i`.
unfoldable pub advance : Env → ℕ → System → System
advance env i s =
    let (cache, pc) = resume env s.cache (s.pcs i) in
    record {
      cache = cache;
      pcs = λ j. if j == i then pc else if ends (s.pcs i) then notify (s.pcs j) else s.pcs j;
    }

-- A thread that has returned calls again.
unfoldable pub call : ℕ → System → System
call i s = record s { pcs = λ j. if j == i then start else s.pcs j }

unfoldable pub initial : System
initial = record { cache = new; pcs = λ _. start }

-- Any number of threads, in any order, with any time and any answers of the collector.
pub data Reach : System → Type 0 where
  here : Reach initial
  step : {s : System} (env : Env) (i : ℕ) → Reach s → Reach (advance env i s)
  again :
      {s : System} (i : ℕ) (r : Result CacheEntry ErrorCode)
      → s.pcs i ≡ done r
      → Reach s
      → Reach (call i s)
