-- ===== src/Tests/Cache.antt =====
-- Callers of the cache at concrete inputs.
use gpustat4cluster.Base.{ℕ, zero, suc, ◌≡◌, refl, [], ◌∷◌, true, false, some, ok, err, arith}
use gpustat4cluster.ErrorCode.{internal, nvml_unavailable}
use gpustat4cluster.Snapshot.{omit_process_commands}
use gpustat4cluster.Server.Cache.{
  CacheEntry, new, Env, Pc, missed, waiting, finishing, done, get_fresh, get_or_refresh, resume,
  try_hit, round, is_expired,
}
use gpustat4cluster.Server.Cache.Alone.{get_or_refresh_alone}
use gpustat4cluster.Server.Cache.System.{
  System, refreshing, is_waiting, ends, advance, initial, Reach, here, step,
}
use gpustat4cluster.Server.Cache.System.Safety.{single_flight, no_lost_wakeup, three}
use gpustat4cluster.Server.Cache.System.Waiters.{waiter_loses_error, waiter_after_expiry}
use gpustat4cluster.Tests.Samples.{big_node}

-- At 9 milliseconds, with a time to live of 5, and a collector that answers.
abbrev pub healthy : Env
healthy = record {
  ttl_ms = 5;
  now = 9000000;
  answer = ok big_node;
  elapsed = 2000;
  spurious = false;
}

abbrev failing : Env
failing = record healthy { answer = err nvml_unavailable }

abbrev stored : CacheEntry
stored = record { snapshot = omit_process_commands big_node; collected_at = 9000000 }

get_or_refresh_alone_example :
    ((get_or_refresh new (healthy ∷ healthy ∷ healthy ∷ healthy ∷ healthy ∷ [])).1
      ≡ some (ok stored))
    × ((get_or_refresh new (healthy ∷ healthy ∷ healthy ∷ healthy ∷ healthy ∷ [])).0.in_flight
        ≡ false)
    × ((get_or_refresh new (healthy ∷ healthy ∷ healthy ∷ healthy ∷ healthy ∷ [])).0.entry
        ≡ some stored)
unfolding get_fresh new
get_or_refresh_alone_example = get_or_refresh_alone new healthy (unfold new in refl)

-- Two callers miss; the first one refreshes, and the second one waits.
abbrev first_refreshes : System
first_refreshes = advance healthy 0 (advance healthy 0 initial)

abbrev second_waits : System
second_waits = advance healthy 1 (advance healthy 1 first_refreshes)

first_refreshes-Reach : Reach first_refreshes
first_refreshes-Reach = step healthy 0 (step healthy 0 here)

second_waits-Reach : Reach second_waits
second_waits-Reach = step healthy 1 (step healthy 1 first_refreshes-Reach)

first_refreshing : refreshing (second_waits.pcs 0) ≡ true
unfolding advance initial resume try_hit round get_fresh new refreshing ends
first_refreshing = refl

second_is_waiting : is_waiting (second_waits.pcs 1) ≡ true
unfolding advance initial resume try_hit round get_fresh new is_waiting ends
second_is_waiting = refl

single_flight_example : ◌≡◌ {A = ℕ} 0 0
single_flight_example =
    single_flight second_waits 0 0 second_waits-Reach first_refreshing first_refreshing

no_lost_wakeup_example :
    (j : ℕ) × (refreshing (second_waits.pcs j) ≡ true)
    × ((e1 e2 e3 : Env) → is_waiting ((three e1 e2 e3 j second_waits).pcs 1) ≡ false)
no_lost_wakeup_example = no_lost_wakeup second_waits 1 second_waits-Reach second_is_waiting

-- Thread 0 is about to end a refresh, thread 1 waits for it, and thread 2 has missed.
abbrev third_of : Pc → Pc → Pc → ℕ → Pc
third_of a b c zero = a
third_of a b c (suc zero) = b
third_of a b c (suc (suc _)) = c

abbrev failed : System
failed = record {
  cache = record new { in_flight = true };
  pcs = third_of (finishing (err nvml_unavailable)) (waiting 0) missed;
}

waiter_loses_error_example :
    (advance failing 1 (advance failing 2 (advance failing 0 failed))).pcs 1 ≡ done (err internal)
waiter_loses_error_example =
    waiter_loses_error failed failing failing failing 0 2 1 nvml_unavailable (omega arith)
      (omega arith) (omega arith) (unfold new in refl) refl refl (unfold new in refl)

-- The refresh took longer than the time to live.
abbrev expired : CacheEntry
expired = record stored { collected_at = 0 }

abbrev finished : System
finished = record {
  cache = record new { in_flight = true; entry = some expired };
  pcs = third_of (finishing (ok expired)) (waiting 0) missed;
}

waiter_after_expiry_example :
    (advance healthy 1 (advance healthy 0 finished)).pcs 1 ≡ done (err internal)
waiter_after_expiry_example =
    waiter_after_expiry finished healthy healthy 0 1 expired (omega arith) refl
      (unfold is_expired in refl) refl (unfold new in refl)
