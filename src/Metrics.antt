-- ===== src/Metrics.antt =====
-- metrics.rs: the counters, which wrap at 64 bits as `fetch_add` does.
use ferrumdns.Base.{ℕ, ◌+◌, ◌%◌, ◌^◌, ◌/◌, ◌==◌, if◌then◌else◌}

abbrev pub u64_mod : ℕ
u64_mod = 2 ^ 64

abbrev pub fetch_add : ℕ → ℕ → ℕ
fetch_add counter n = (counter + n) % u64_mod

pub record Metrics : Type 0 where
  pub queries : ℕ
  pub responses : ℕ
  pub cache_hits : ℕ
  pub cache_misses : ℕ
  pub cache_lazy_hits : ℕ
  pub upstream_ok : ℕ
  pub upstream_err : ℕ
  pub dropped : ℕ
  pub latency_us_sum : ℕ

abbrev pub new_metrics : Metrics
new_metrics = record {
  queries = 0;
  responses = 0;
  cache_hits = 0;
  cache_misses = 0;
  cache_lazy_hits = 0;
  upstream_ok = 0;
  upstream_err = 0;
  dropped = 0;
  latency_us_sum = 0;
}

unfoldable pub observe_query : Metrics → ℕ → Metrics
observe_query m latency_us = record m {
  queries = fetch_add m.queries 1;
  latency_us_sum = fetch_add m.latency_us_sum latency_us;
}

-- The average of a snapshot.
unfoldable pub avg_latency_us : Metrics → ℕ
avg_latency_us m = if m.queries == 0 then 0 else m.latency_us_sum / m.queries
