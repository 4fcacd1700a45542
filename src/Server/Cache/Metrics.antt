-- ===== src/Server/Cache/Metrics.antt =====
-- crates/server/src/cache.rs: counters and latency samples.
pub mod Window
pub mod Percentile
use gpustat4cluster.Base.{
  ℕ, ◌+◌, ◌-◌, ◌*◌, ◌/◌, ◌%◌, ◌^◌, List, [], ◌∷◌, ◌++◌, min, leb, ◌==◌, if◌then◌else◌, length, drop,
  get_or,
}

abbrev pub latency_sample_limit : ℕ
latency_sample_limit = 128

pub record CacheMetrics : Type 0 where
  pub cache_hits : ℕ
  pub cache_misses : ℕ
  pub merge_count : ℕ
  pub collect_count : ℕ
  pub collect_latency_total_ns : ℕ
  pub collect_latency_samples_us : List ℕ

-- `CacheMetrics::default`
abbrev pub no_metrics : CacheMetrics
no_metrics = record {
  cache_hits = 0;
  cache_misses = 0;
  merge_count = 0;
  collect_count = 0;
  collect_latency_total_ns = 0;
  collect_latency_samples_us = [];
}

-- `fetch_add` on an `AtomicU64` wraps around.
abbrev pub fetch_add : ℕ → ℕ → ℕ
fetch_add a b = (a + b) % 2 ^ 64

unfoldable pub record_hit : CacheMetrics → CacheMetrics
record_hit self = record self { cache_hits = fetch_add self.cache_hits 1 }

unfoldable pub record_miss : CacheMetrics → CacheMetrics
record_miss self = record self { cache_misses = fetch_add self.cache_misses 1 }

unfoldable pub record_merge : CacheMetrics → CacheMetrics
record_merge self = record self { merge_count = fetch_add self.merge_count 1 }

-- The oldest sample stands first.
unfoldable pub push_sample : List ℕ → ℕ → List ℕ
push_sample samples elapsed_us =
    (if length samples == latency_sample_limit then drop 1 samples else samples)
    ++ (elapsed_us ∷ [])

-- `elapsed` is in nanoseconds.
unfoldable pub record_collect_latency : CacheMetrics → ℕ → CacheMetrics
record_collect_latency self elapsed = record self {
  collect_count = fetch_add self.collect_count 1;
  collect_latency_total_ns = fetch_add self.collect_latency_total_ns (min elapsed (2 ^ 64 - 1));
  collect_latency_samples_us =
      push_sample self.collect_latency_samples_us (min (elapsed / 1000) (2 ^ 64 - 1));
}

pub record CacheMetricsSnapshot : Type 0 where
  pub cache_hits : ℕ
  pub cache_misses : ℕ
  pub merge_count : ℕ
  pub collect_count : ℕ
  pub avg_collect_latency_us : ℕ
  pub collect_latency_p50_us : ℕ
  pub collect_latency_p95_us : ℕ
  pub cache_hit_rate_bps : ℕ
  pub cache_miss_rate_bps : ℕ
  pub merge_ratio_bps : ℕ

-- `saturating_mul`, then the quotient
unfoldable pub ratio_bps : ℕ → ℕ → ℕ
ratio_bps numerator denominator =
    if denominator == 0 then 0 else min (numerator * 10000) (2 ^ 64 - 1) / denominator

-- `sort_unstable` of numbers
unfoldable pub insert_sorted : ℕ → List ℕ → List ℕ
insert_sorted x [] = x ∷ []
insert_sorted x (y ∷ ys) = if leb x y then x ∷ y ∷ ys else y ∷ insert_sorted x ys

unfoldable pub sort : List ℕ → List ℕ
sort [] = []
sort (x ∷ xs) = insert_sorted x (sort xs)

-- The index that `percentile_us` reads, for `len` samples.
unfoldable pub rank : ℕ → ℕ → ℕ
rank len percentile = min (min (len * percentile % 2 ^ 64 + 99) (2 ^ 64 - 1) / 100 - 1) (len - 1)

unfoldable pub percentile_us : List ℕ → ℕ → ℕ
percentile_us samples percentile =
    if length samples == 0 then 0 else get_or (sort samples) (rank (length samples) percentile) 0

-- `CacheMetrics::snapshot`; the sum of hits and misses is taken as `u64`.
unfoldable pub snapshot : CacheMetrics → CacheMetricsSnapshot
snapshot self =
    let total_requests = (self.cache_hits + self.cache_misses) % 2 ^ 64 in
    record {
      cache_hits = self.cache_hits;
      cache_misses = self.cache_misses;
      merge_count = self.merge_count;
      collect_count = self.collect_count;
      avg_collect_latency_us =
          if self.collect_count == 0
          then 0
          else self.collect_latency_total_ns / self.collect_count / 1000;
      collect_latency_p50_us = percentile_us self.collect_latency_samples_us 50;
      collect_latency_p95_us = percentile_us self.collect_latency_samples_us 95;
      cache_hit_rate_bps = ratio_bps self.cache_hits total_requests;
      cache_miss_rate_bps = ratio_bps self.cache_misses total_requests;
      merge_ratio_bps = ratio_bps self.merge_count self.cache_misses;
    }
