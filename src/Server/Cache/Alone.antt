-- ===== src/Server/Cache/Alone.antt =====
-- A caller of `get_or_refresh` while no refresh is in flight.
use gpustat4cluster.Base.{[], ◌∷◌, ◌≡◌, some, none, ok, err, false, Result, arith, Option}
use gpustat4cluster.ErrorCode.{ErrorCode}
use gpustat4cluster.Snapshot.{omit_process_commands}
use gpustat4cluster.Server.Cache.{
  GresCache, CacheEntry, Env, get_or_refresh, get_fresh, run, resume, try_hit, round, collected,
  store, finish_refresh,
}

-- What a caller gets: the fresh entry if there is one, else what the collector answers.
abbrev answer_of : Option CacheEntry → Env → Result CacheEntry ErrorCode
answer_of (some hit) env = ok hit
answer_of none env = elim env.answer [
  | ok snapshot ↦ ok (record { snapshot = omit_process_commands snapshot; collected_at = env.now })
  | err code ↦ err code
]

abbrev stored_of : Result CacheEntry ErrorCode → Option CacheEntry → Option CacheEntry
stored_of (ok entry) old = some entry
stored_of (err code) old = old

-- While no refresh is in flight and the time stands still, a caller of get_or_refresh returns after
-- at most five steps: with the fresh entry if there is one, and else with what the collector
-- answers, which is then stored (an error leaves the old entry), and no refresh is in flight.
pub get_or_refresh_alone :
    (s : GresCache) (env : Env)
    → s.in_flight ≡ false
    → ((get_or_refresh s (env ∷ env ∷ env ∷ env ∷ env ∷ [])).1
        ≡ some (answer_of (get_fresh s env.ttl_ms env.now) env))
      × ((get_or_refresh s (env ∷ env ∷ env ∷ env ∷ env ∷ [])).0.in_flight ≡ false)
      × ((get_or_refresh s (env ∷ env ∷ env ∷ env ∷ env ∷ [])).0.entry
          ≡ stored_of (answer_of (get_fresh s env.ttl_ms env.now) env) s.entry)
unfolding get_or_refresh run resume try_hit round collected store finish_refresh get_fresh
get_or_refresh_alone s env idle = ground arith
