-- ===== src/Metrics.antt =====
-- src/metrics.rs: the counters and gauges that the daemon's components count in. A gauge is an
-- integer; a family of counters has one counter for each label. The histograms and the CPU and memory
-- gauges only pass on what they observe, and are left out.
use nylon_run.Prelude.{
  ℕ, zero, suc, ◌+◌, ◌==◌, List, [], ◌∷◌, Text, unwrap_or, if◌then◌else◌, ◌&&◌, text_eq,
}
use nylon_run.Prelude.Maps.{Map, lookup, insert}

-- `negsuc n` is -(n + 1).
pub data ℤ : Type 0 where
  pos : ℕ → ℤ
  negsuc : ℕ → ℤ

unfoldable pub inc : ℤ → ℤ
inc (pos n) = pos (n + 1)
inc (negsuc zero) = pos 0
inc (negsuc (suc n)) = negsuc n

unfoldable pub dec : ℤ → ℤ
dec (pos zero) = negsuc 0
dec (pos (suc n)) = pos n
dec (negsuc n) = negsuc (n + 1)

pub record RequestLabels : Type 0 where
  pub method : Text
  pub status : ℕ
  pub host : Text

pub record Metrics : Type 0 where
  pub http_requests_total : List (RequestLabels × ℕ)
  pub active_connections : ℤ
  pub cache_hits : ℕ
  pub cache_misses : ℕ
  pub managed_processes : ℤ
  pub process_restarts_total : Map ℕ
  pub network_received_bytes_total : Map ℕ
  pub network_sent_bytes_total : Map ℕ
  pub upstream_errors_total : Map ℕ
  pub oci_pulls_total : ℕ
  pub oci_pull_errors_total : ℕ

unfoldable pub new_registered : Metrics
new_registered = record {
  http_requests_total = [];
  active_connections = pos 0;
  cache_hits = 0;
  cache_misses = 0;
  managed_processes = pos 0;
  process_restarts_total = [];
  network_received_bytes_total = [];
  network_sent_bytes_total = [];
  upstream_errors_total = [];
  oci_pulls_total = 0;
  oci_pull_errors_total = 0;
}

-- `family.get_or_create(label).inc_by(n)`.
unfoldable pub inc_by : Text → ℕ → Map ℕ → Map ℕ
inc_by label n m = insert label (unwrap_or (lookup label m) 0 + n) m

unfoldable pub inc_request : RequestLabels → List (RequestLabels × ℕ) → List (RequestLabels × ℕ)
inc_request l [] = (l, 1) ∷ []
inc_request l ((k, n) ∷ m) =
    if text_eq k.method l.method && k.status == l.status && text_eq k.host l.host
    then (k, n + 1) ∷ m
    else (k, n) ∷ inc_request l m

unfoldable pub record_cache_hit : Metrics → Metrics
record_cache_hit m = record m { cache_hits = m.cache_hits + 1 }

unfoldable pub record_cache_miss : Metrics → Metrics
record_cache_miss m = record m { cache_misses = m.cache_misses + 1 }
