-- ===== src/Server/Cache/Metrics/Window.antt =====
-- The samples that the latency percentiles are taken of.
use mathlib.Core.List.{foldl}
use gpustat4cluster.Base.{
  ℕ, zero, suc, map, min, ◌%◌, ◌^◌, ◌/◌, ◌+◌, ◌-◌, ◌≤◌, List, [], ◌∷◌, ◌++◌, ◌≡◌, refl, sym, ap,
  subst, ◌∙◌, arith, length, length-append, length-drop, drop, drop-drop, append_assoc, append-nil,
}
use gpustat4cluster.Server.Cache.Metrics.{
  CacheMetrics, no_metrics, push_sample, record_collect_latency,
}

-- The last 128 elements.
abbrev pub recent : List ℕ → List ℕ
recent xs = drop (length xs - 128) xs

drop-snoc :
    (n : ℕ) (xs : List ℕ) (x : ℕ) → n ≤ length xs → drop n xs ++ (x ∷ []) ≡ drop n (xs ++ (x ∷ []))
drop-snoc zero xs x h = refl
drop-snoc (suc n) [] x h = absurd (omega arith)
drop-snoc (suc n) (y ∷ xs) x h = drop-snoc n xs x (omega arith)

push_sample-recent : (xs : List ℕ) (x : ℕ) → push_sample (recent xs) x ≡ recent (xs ++ (x ∷ []))
unfolding push_sample
push_sample-recent xs x =
    let n = length xs - 128 in
    ground (
      arith,
      length-drop n xs,
      length-append xs (x ∷ []),
      drop-drop n 1 xs,
      drop-snoc n xs x (omega arith),
      drop-snoc (n + 1) xs x,
      ap (λ k. drop k (xs ++ (x ∷ []))) {x = length (xs ++ (x ∷ [])) - 128} {y = n},
      ap (λ k. drop k (xs ++ (x ∷ []))) {x = length (xs ++ (x ∷ [])) - 128} {y = n + 1},
    )

-- A latency of so many nanoseconds, as a sample.
abbrev pub micros : ℕ → ℕ
micros elapsed = min (elapsed / 1000) (2 ^ 64 - 1)

record_all :
    (m : CacheMetrics) (seen latencies : List ℕ)
    → m.collect_latency_samples_us ≡ recent seen
    → m.collect_count ≡ length seen % 2 ^ 64
    → ((foldl record_collect_latency m latencies).collect_latency_samples_us
        ≡ recent (seen ++ map micros latencies))
      × ((foldl record_collect_latency m latencies).collect_count
          ≡ length (seen ++ map micros latencies) % 2 ^ 64)
record_all m seen [] h n = (
  h ∙ ap recent (sym (append-nil seen)),
  n ∙ ap (λ xs. length xs % 2 ^ 64) (sym (append-nil seen)),
)
record_all m seen (l ∷ latencies) h n =
    subst
      (λ xs.
        ((foldl record_collect_latency (record_collect_latency m l)
            latencies).collect_latency_samples_us
          ≡ recent xs)
        × ((foldl record_collect_latency (record_collect_latency m l) latencies).collect_count
            ≡ length xs % 2 ^ 64))
      (append_assoc seen (micros l ∷ []) (map micros latencies))
      (record_all (record_collect_latency m l) (seen ++ (micros l ∷ [])) latencies
        (unfold record_collect_latency in
          ap (λ xs. push_sample xs (micros l)) h ∙ push_sample-recent seen (micros l))
        (unfold record_collect_latency in omega (arith, n, length-append seen (micros l ∷ []))))

-- After any sequence of collector calls the latency samples are the 128 most recent latencies in
-- microseconds, in their order, and the counter of calls is their number modulo 2^64.
pub record_collect_latency-recent :
    (latencies : List ℕ)
    → ((foldl record_collect_latency no_metrics latencies).collect_latency_samples_us
        ≡ recent (map micros latencies))
      × ((foldl record_collect_latency no_metrics latencies).collect_count
          ≡ length (map micros latencies) % 2 ^ 64)
record_collect_latency-recent latencies = record_all no_metrics [] latencies refl refl
