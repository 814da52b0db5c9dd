-- ===== src/BufferPool/Metrics.antt =====
-- buffer_pool/metrics.rs: the counters, each an atomic u64.
use pocket_data_mining.Base.{ℕ, ltb, if◌then◌else◌}
use pocket_data_mining.Base.Words.{add_u64}

pub record BufferPoolMetrics : Type 0 where
  pub hits : ℕ
  pub misses : ℕ
  pub evictions : ℕ
  pub dirty_flushes : ℕ
  pub bytes_read : ℕ
  pub bytes_written : ℕ
  pub peak_bytes : ℕ

abbrev pub metrics_new : BufferPoolMetrics
metrics_new = record {
  hits = 0;
  misses = 0;
  evictions = 0;
  dirty_flushes = 0;
  bytes_read = 0;
  bytes_written = 0;
  peak_bytes = 0;
}

unfoldable pub record_hit : BufferPoolMetrics → BufferPoolMetrics
record_hit m = record m { hits = add_u64 m.hits 1 }

unfoldable pub record_miss : BufferPoolMetrics → BufferPoolMetrics
record_miss m = record m { misses = add_u64 m.misses 1 }

unfoldable pub record_eviction : BufferPoolMetrics → BufferPoolMetrics
record_eviction m = record m { evictions = add_u64 m.evictions 1 }

unfoldable pub record_dirty_flush : BufferPoolMetrics → BufferPoolMetrics
record_dirty_flush m = record m { dirty_flushes = add_u64 m.dirty_flushes 1 }

unfoldable pub record_bytes_read : ℕ → BufferPoolMetrics → BufferPoolMetrics
record_bytes_read n m = record m { bytes_read = add_u64 m.bytes_read n }

unfoldable pub record_bytes_written : ℕ → BufferPoolMetrics → BufferPoolMetrics
record_bytes_written n m = record m { bytes_written = add_u64 m.bytes_written n }

-- The compare-and-exchange loop, run alone.
unfoldable pub update_peak : ℕ → BufferPoolMetrics → BufferPoolMetrics
update_peak n m = if ltb m.peak_bytes n then record m { peak_bytes = n } else m
