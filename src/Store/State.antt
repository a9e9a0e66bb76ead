-- ===== src/Store/State.antt =====
-- The state of internal/cache/store/store.go. The counters and gauges of the metrics registry are
-- fields; a gauge holds the integer that the code converts to a float64. Locks are left out: an
-- operation is one step.
use log_cache.Common.{ℕ, String, List, [], zero64, max64, sub64, div64}
use log_cache.Tree.{Tree}
use log_cache.Envelope.{Envelope}

-- logcache_v1.MetaInfo; the times are int64.
pub record MetaInfo : Type 0 where
  pub count : ℕ
  pub expired : ℕ
  pub oldest_timestamp : ℕ
  pub newest_timestamp : ℕ

pub record Storage : Type 0 where
  pub source_id : String
  pub meta : MetaInfo
  pub tree : Tree Envelope

pub record Metrics : Type 0 where
  pub expired : ℕ
  pub cache_period : ℕ
  pub ingress : ℕ
  pub egress : ℕ
  pub store_size : ℕ

-- `count` never falls below the number of stored envelopes, so ℕ is enough for it.
pub record Store : Type 0 where
  pub storage_index : List (String × Storage)
  pub count : ℕ
  pub oldest_timestamp : ℕ
  pub max_per_source : ℕ
  pub max_timestamp_fudge : ℕ
  pub metrics : Metrics

-- The constant MIN_INT64 of the source, which is the greatest int64.
abbrev pub min_int64 : ℕ
min_int64 = max64

-- A limit that is not positive stands as 0.
unfoldable pub new_store : ℕ → Store
new_store max_per_source = record {
  storage_index = [];
  count = 0;
  oldest_timestamp = min_int64;
  max_per_source = max_per_source;
  max_timestamp_fudge = 4000;
  metrics = record { expired = 0; cache_period = zero64; ingress = 0; egress = 0; store_size = 0 };
}

-- The first argument is time.Now().UnixNano(); a millisecond has a million nanoseconds.
unfoldable pub calculate_cache_period : ℕ → ℕ → ℕ
unfolding sub64 div64
calculate_cache_period now oldest_timestamp = div64 (sub64 now oldest_timestamp) 1000000
