-- ===== src/Server/Cache/System/Waiters.antt =====
-- What a waiter returns when a refresh that it waited for has ended.
use gpustat4cluster.Base.{ℕ, ◌≡◌, ◌≢◌, true, some, none, ok, err, arith}
use gpustat4cluster.ErrorCode.{ErrorCode, internal}
use gpustat4cluster.Server.Cache.{
  CacheEntry, Env, missed, waiting, finishing, done, notify, resume, round, finish_refresh,
  get_fresh, refresh_error, is_expired,
}
use gpustat4cluster.Server.Cache.System.{System, ends, advance}

-- A waiter that goes on right after a failed refresh returns the error of that refresh, where the
-- cache has no entry.
pub waiter_gets_error :
    (s : System) (e1 e2 : Env) (owner waiter : ℕ) (code : ErrorCode)
    → owner ≢ waiter
    → s.cache.entry ≡ none
    → s.pcs owner ≡ finishing (err code)
    → s.pcs waiter ≡ waiting s.cache.generation
    → (advance e2 waiter (advance e1 owner s)).pcs waiter ≡ done (err code)
unfolding advance ends resume round finish_refresh get_fresh refresh_error notify
waiter_gets_error s e1 e2 owner waiter code ne empty o w = ground arith

-- Where the cache has no entry, a waiter returns the code Internal, whatever the failed refresh had
-- reported, if another caller begins the next refresh before the waiter goes on.
pub waiter_loses_error :
    (s : System) (e1 e2 e3 : Env) (owner other waiter : ℕ) (code : ErrorCode)
    → owner ≢ waiter
    → owner ≢ other
    → other ≢ waiter
    → s.cache.entry ≡ none
    → s.pcs owner ≡ finishing (err code)
    → s.pcs other ≡ missed
    → s.pcs waiter ≡ waiting s.cache.generation
    → (advance e3 waiter (advance e2 other (advance e1 owner s))).pcs waiter ≡ done (err internal)
unfolding advance ends resume round finish_refresh get_fresh refresh_error notify
waiter_loses_error s e1 e2 e3 owner other waiter code n1 n2 n3 empty o t w = ground arith

-- A waiter returns the code Internal after a refresh that succeeded, if the entry has expired by
-- the time the waiter goes on.
pub waiter_after_expiry :
    (s : System) (e1 e2 : Env) (owner waiter : ℕ) (entry : CacheEntry)
    → owner ≢ waiter
    → s.cache.entry ≡ some entry
    → is_expired entry e2.ttl_ms e2.now ≡ true
    → s.pcs owner ≡ finishing (ok entry)
    → s.pcs waiter ≡ waiting s.cache.generation
    → (advance e2 waiter (advance e1 owner s)).pcs waiter ≡ done (err internal)
unfolding advance ends resume round finish_refresh get_fresh refresh_error notify
waiter_after_expiry s e1 e2 owner waiter entry ne stored old o w = ground arith
