-- ===== src/Server/Cache.antt =====
-- crates/server/src/cache.rs: the snapshot cache, its metrics, and a caller's way through
-- `get_or_refresh` in atomic steps. `System` runs the steps of several threads.
pub mod Metrics
pub mod System
pub mod Alone
use gpustat4cluster.Base.{
  ℕ, ◌+◌, ◌-◌, ◌/◌, ◌%◌, ◌^◌, Bool, true, false, not, leb, ◌==◌, if◌then◌else◌, Option, none, some,
  Result, ok, err, List, [], ◌∷◌,
}
use gpustat4cluster.ErrorCode.{ErrorCode, internal}
use gpustat4cluster.Snapshot.{ServerGresSnapshot, omit_process_commands}
use gpustat4cluster.Server.Cache.Metrics.{
  CacheMetrics, no_metrics, record_hit, record_miss, record_merge, record_collect_latency,
}

-- Instants are nanoseconds.
pub record CacheEntry : Type 0 where
  pub snapshot : ServerGresSnapshot
  pub collected_at : ℕ

-- `duration_since` is zero for a later `collected_at`, and `as_millis` rounds down.
unfoldable pub is_expired : CacheEntry → ℕ → ℕ → Bool
is_expired self ttl_ms now = leb ttl_ms ((now - self.collected_at) / 1000000 % 2 ^ 64)

-- `GresCache`, with the fields of `RefreshState`.
pub record GresCache : Type 0 where
  pub entry : Option CacheEntry
  pub in_flight : Bool
  pub generation : ℕ
  pub last_error : Option ErrorCode
  pub metrics : CacheMetrics

unfoldable pub new : GresCache
new = record {
  entry = none;
  in_flight = false;
  generation = 0;
  last_error = none;
  metrics = no_metrics;
}

-- Where a caller of `get_or_refresh` stands.
pub data Pc : Type 0 where
  -- about to read the entry
  start : Pc
  -- has missed, and is about to lock the refresh state
  missed : Pc
  -- waits on the condition variable, with the generation it has observed
  waiting : ℕ → Pc
  -- was notified, and is about to go through the loop again
  woken : ℕ → Pc
  -- has begun a refresh, and calls the collector
  collecting : Pc
  -- has an entry, and is about to store it
  storing : CacheEntry → Pc
  -- is about to end the refresh with this result
  finishing : Result CacheEntry ErrorCode → Pc
  done : Result CacheEntry ErrorCode → Pc

unfoldable pub get_fresh : GresCache → ℕ → ℕ → Option CacheEntry
get_fresh self ttl_ms now = elim self.entry [
  | none ↦ none
  | some entry ↦ if not (is_expired entry ttl_ms now) then some entry else none
]

unfoldable pub latest : GresCache → Option CacheEntry
latest self = self.entry

-- `get_or_refresh` up to the lock.
unfoldable pub try_hit : GresCache → ℕ → ℕ → GresCache × Pc
try_hit self ttl_ms now = elim (get_fresh self ttl_ms now) [
  | some hit ↦ (record self { metrics = record_hit self.metrics }, done (ok hit))
  | none ↦ (record self { metrics = record_miss self.metrics }, missed)
]

-- The error for a waiter whose refresh has ended without a fresh entry.
unfoldable pub refresh_error : Option ErrorCode → ErrorCode
refresh_error none = internal
refresh_error (some code) = code

-- One round of the loop, under the lock. The entry is read once, and the tests behind it do not
-- read it, so a store of another thread in between is the same as a store after the round.
unfoldable pub round : GresCache → ℕ → ℕ → ℕ → GresCache × Pc
round self ttl_ms now observed_generation = elim (get_fresh self ttl_ms now) [
  | some hit ↦ (self, done (ok hit))
  | none ↦
      if not (self.generation == observed_generation)
      then (self, done (err (refresh_error self.last_error)))
      else if not self.in_flight
      then (record self { in_flight = true; last_error = none }, collecting)
      else (record self { metrics = record_merge self.metrics }, waiting observed_generation)
]

-- What the collector returned after `elapsed` nanoseconds, at the instant `now`.
unfoldable pub collected : GresCache → Result ServerGresSnapshot ErrorCode → ℕ → ℕ → GresCache × Pc
collected self result elapsed now =
    let measured = record self { metrics = record_collect_latency self.metrics elapsed } in
    elim result [
      | ok snapshot ↦ (
        measured,
        storing (record { snapshot = omit_process_commands snapshot; collected_at = now }),
      )
      | err code ↦ (measured, finishing (err code))
    ]

unfoldable pub store : GresCache → CacheEntry → GresCache × Pc
store self entry = (record self { entry = some entry }, finishing (ok entry))

abbrev pub error_of : Result CacheEntry ErrorCode → Option ErrorCode
error_of (ok entry) = none
error_of (err code) = some code

-- `finish_refresh`, but for the notification.
unfoldable pub finish_refresh : GresCache → Option ErrorCode → GresCache
finish_refresh self error = record self {
  in_flight = false;
  generation = (self.generation + 1) % 2 ^ 64;
  last_error = error;
}

-- `notify_all`, for one of the other threads.
unfoldable pub notify : Pc → Pc
notify (waiting observed) = woken observed
notify pc = pc

-- What the surroundings contribute to one step: the time, the collector's answer and how long it
-- took, and whether the condition variable lets go without a notification.
pub record Env : Type 0 where
  pub ttl_ms : ℕ
  pub now : ℕ
  pub answer : Result ServerGresSnapshot ErrorCode
  pub elapsed : ℕ
  pub spurious : Bool

-- The next step of a caller of `get_or_refresh`.
unfoldable pub resume : Env → GresCache → Pc → GresCache × Pc
resume env self start = try_hit self env.ttl_ms env.now
resume env self missed = round self env.ttl_ms env.now self.generation
resume env self (waiting observed) =
    (self, if env.spurious then woken observed else waiting observed)
resume env self (woken observed) = round self env.ttl_ms env.now observed
resume env self collecting = collected self env.answer env.elapsed env.now
resume env self (storing entry) = store self entry
resume env self (finishing result) = (finish_refresh self (error_of result), done result)
resume env self (done result) = (self, done result)

-- The steps of one caller with no other thread in between.
unfoldable pub run : GresCache → Pc → List Env → GresCache × Pc
run self pc [] = (self, pc)
run self pc (env ∷ envs) = let (self', pc') = resume env self pc in run self' pc' envs

-- `none` for a caller that has not returned.
abbrev pub returned : Pc → Option (Result CacheEntry ErrorCode)
returned (done result) = some result
returned pc = none

unfoldable pub get_or_refresh :
    GresCache → List Env → GresCache × Option (Result CacheEntry ErrorCode)
get_or_refresh self envs = let (self', pc) = run self start envs in (self', returned pc)

unfoldable pub get_latest_or_refresh :
    GresCache → List Env → GresCache × Option (Result CacheEntry ErrorCode)
get_latest_or_refresh self envs = elim (latest self) [
  | some entry ↦ (record self { metrics = record_hit self.metrics }, some (ok entry))
  | none ↦ get_or_refresh self envs
]
