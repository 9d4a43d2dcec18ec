-- ===== src/Server/Metrics.antt =====
-- The shards of the metrics of src/server.rs, and their snapshot.
use cachebox.Prelude.{
  ℕ, zero, suc, ◌+◌, ◌≤◌, min, ◌≡◌, refl, List, [], ◌∷◌, map, arith, sum, u64_max, saturating_add,
}
use mathlib.Core.List.{foldl}
use cachebox.Server.Answers.{MetricsShard}

pub record MetricsSnapshot : Type 0 where
  pub requests_total : ℕ
  pub health_requests : ℕ
  pub get_requests : ℕ
  pub put_requests : ℕ
  pub delete_requests : ℕ
  pub batch_get_requests : ℕ
  pub tag_invalidate_requests : ℕ
  pub hits_total : ℕ
  pub misses_total : ℕ
  pub stale_total : ℕ
  pub lease_grants : ℕ
  pub lease_denials : ℕ
  pub errors_total : ℕ

-- `MetricsSnapshot::default()`, and the counters of `MetricsShard::default()`
abbrev pub default_snapshot : MetricsSnapshot
default_snapshot = record {
  requests_total = 0;
  health_requests = 0;
  get_requests = 0;
  put_requests = 0;
  delete_requests = 0;
  batch_get_requests = 0;
  tag_invalidate_requests = 0;
  hits_total = 0;
  misses_total = 0;
  stale_total = 0;
  lease_grants = 0;
  lease_denials = 0;
  errors_total = 0;
}

abbrev pub default_shard : MetricsShard
default_shard = record {
  requests_total = 0;
  health_requests = 0;
  get_requests = 0;
  put_requests = 0;
  delete_requests = 0;
  batch_get_requests = 0;
  tag_invalidate_requests = 0;
  hits_total = 0;
  misses_total = 0;
  stale_total = 0;
  lease_grants = 0;
  lease_denials = 0;
  errors_total = 0;
}

abbrev pub metric_shard_count : ℕ
metric_shard_count = 64

abbrev repeat_shard : ℕ → List MetricsShard
repeat_shard zero = []
repeat_shard (suc n) = default_shard ∷ repeat_shard n

-- `Metrics::default()`
abbrev pub default_metrics : List MetricsShard
default_metrics = repeat_shard metric_shard_count

-- `MetricsShard::snapshot`
unfoldable pub snapshot_shard : MetricsShard → MetricsSnapshot
snapshot_shard shard = record {
  requests_total = shard.requests_total;
  health_requests = shard.health_requests;
  get_requests = shard.get_requests;
  put_requests = shard.put_requests;
  delete_requests = shard.delete_requests;
  batch_get_requests = shard.batch_get_requests;
  tag_invalidate_requests = shard.tag_invalidate_requests;
  hits_total = shard.hits_total;
  misses_total = shard.misses_total;
  stale_total = shard.stale_total;
  lease_grants = shard.lease_grants;
  lease_denials = shard.lease_denials;
  errors_total = shard.errors_total;
}

-- `MetricsSnapshot::saturating_add`
unfoldable pub add_snapshot : MetricsSnapshot → MetricsSnapshot → MetricsSnapshot
add_snapshot s other = record {
  requests_total = saturating_add s.requests_total other.requests_total;
  health_requests = saturating_add s.health_requests other.health_requests;
  get_requests = saturating_add s.get_requests other.get_requests;
  put_requests = saturating_add s.put_requests other.put_requests;
  delete_requests = saturating_add s.delete_requests other.delete_requests;
  batch_get_requests = saturating_add s.batch_get_requests other.batch_get_requests;
  tag_invalidate_requests = saturating_add s.tag_invalidate_requests other.tag_invalidate_requests;
  hits_total = saturating_add s.hits_total other.hits_total;
  misses_total = saturating_add s.misses_total other.misses_total;
  stale_total = saturating_add s.stale_total other.stale_total;
  lease_grants = saturating_add s.lease_grants other.lease_grants;
  lease_denials = saturating_add s.lease_denials other.lease_denials;
  errors_total = saturating_add s.errors_total other.errors_total;
}

-- `Metrics::snapshot`
unfoldable pub snapshot : List MetricsShard → MetricsSnapshot
snapshot shards = foldl add_snapshot default_snapshot (map snapshot_shard shards)

-- The counters by name
pub data Counter : Type 0 where
  requests_total health_requests get_requests put_requests delete_requests batch_get_requests
        tag_invalidate_requests hits_total misses_total stale_total lease_grants lease_denials
        errors_total :
      Counter

abbrev pub value_in : Counter → MetricsSnapshot → ℕ
value_in Counter.requests_total s = s.requests_total
value_in Counter.health_requests s = s.health_requests
value_in Counter.get_requests s = s.get_requests
value_in Counter.put_requests s = s.put_requests
value_in Counter.delete_requests s = s.delete_requests
value_in Counter.batch_get_requests s = s.batch_get_requests
value_in Counter.tag_invalidate_requests s = s.tag_invalidate_requests
value_in Counter.hits_total s = s.hits_total
value_in Counter.misses_total s = s.misses_total
value_in Counter.stale_total s = s.stale_total
value_in Counter.lease_grants s = s.lease_grants
value_in Counter.lease_denials s = s.lease_denials
value_in Counter.errors_total s = s.errors_total

abbrev pub count_in : Counter → MetricsShard → ℕ
count_in Counter.requests_total shard = shard.requests_total
count_in Counter.health_requests shard = shard.health_requests
count_in Counter.get_requests shard = shard.get_requests
count_in Counter.put_requests shard = shard.put_requests
count_in Counter.delete_requests shard = shard.delete_requests
count_in Counter.batch_get_requests shard = shard.batch_get_requests
count_in Counter.tag_invalidate_requests shard = shard.tag_invalidate_requests
count_in Counter.hits_total shard = shard.hits_total
count_in Counter.misses_total shard = shard.misses_total
count_in Counter.stale_total shard = shard.stale_total
count_in Counter.lease_grants shard = shard.lease_grants
count_in Counter.lease_denials shard = shard.lease_denials
count_in Counter.errors_total shard = shard.errors_total

value_in-add_snapshot :
    (k : Counter) (s other : MetricsSnapshot)
    → value_in k (add_snapshot s other) ≡ min (value_in k s + value_in k other) u64_max
unfolding add_snapshot saturating_add
value_in-add_snapshot Counter.requests_total s other = refl
value_in-add_snapshot Counter.health_requests s other = refl
value_in-add_snapshot Counter.get_requests s other = refl
value_in-add_snapshot Counter.put_requests s other = refl
value_in-add_snapshot Counter.delete_requests s other = refl
value_in-add_snapshot Counter.batch_get_requests s other = refl
value_in-add_snapshot Counter.tag_invalidate_requests s other = refl
value_in-add_snapshot Counter.hits_total s other = refl
value_in-add_snapshot Counter.misses_total s other = refl
value_in-add_snapshot Counter.stale_total s other = refl
value_in-add_snapshot Counter.lease_grants s other = refl
value_in-add_snapshot Counter.lease_denials s other = refl
value_in-add_snapshot Counter.errors_total s other = refl

value_in-snapshot_shard :
    (k : Counter) (shard : MetricsShard) → value_in k (snapshot_shard shard) ≡ count_in k shard
unfolding snapshot_shard
value_in-snapshot_shard Counter.requests_total shard = refl
value_in-snapshot_shard Counter.health_requests shard = refl
value_in-snapshot_shard Counter.get_requests shard = refl
value_in-snapshot_shard Counter.put_requests shard = refl
value_in-snapshot_shard Counter.delete_requests shard = refl
value_in-snapshot_shard Counter.batch_get_requests shard = refl
value_in-snapshot_shard Counter.tag_invalidate_requests shard = refl
value_in-snapshot_shard Counter.hits_total shard = refl
value_in-snapshot_shard Counter.misses_total shard = refl
value_in-snapshot_shard Counter.stale_total shard = refl
value_in-snapshot_shard Counter.lease_grants shard = refl
value_in-snapshot_shard Counter.lease_denials shard = refl
value_in-snapshot_shard Counter.errors_total shard = refl

fold_sum :
    (k : Counter) (shards : List MetricsShard) (s : MetricsSnapshot)
    → value_in k s ≤ u64_max
    → value_in k (foldl add_snapshot s (map snapshot_shard shards))
      ≡ min (value_in k s + sum (map (count_in k) shards)) u64_max
fold_sum k [] s small = omega (arith, small)
fold_sum k (shard ∷ shards) s small =
    let one = value_in-add_snapshot k s (snapshot_shard shard) in
    let same = value_in-snapshot_shard k shard in
    let rest = fold_sum k shards (add_snapshot s (snapshot_shard shard)) (omega (arith, one)) in
    omega (arith, rest, one, same)

default_zero : (k : Counter) → value_in k default_snapshot ≡ 0
default_zero Counter.requests_total = refl
default_zero Counter.health_requests = refl
default_zero Counter.get_requests = refl
default_zero Counter.put_requests = refl
default_zero Counter.delete_requests = refl
default_zero Counter.batch_get_requests = refl
default_zero Counter.tag_invalidate_requests = refl
default_zero Counter.hits_total = refl
default_zero Counter.misses_total = refl
default_zero Counter.stale_total = refl
default_zero Counter.lease_grants = refl
default_zero Counter.lease_denials = refl
default_zero Counter.errors_total = refl

-- Each counter of a snapshot is the sum over the shards, up to the largest word and no further.
pub snapshot-sum :
    (k : Counter) (shards : List MetricsShard)
    → value_in k (snapshot shards) ≡ min (sum (map (count_in k) shards)) u64_max
unfolding snapshot
snapshot-sum k shards =
    let z = default_zero k in
    omega (arith, fold_sum k shards default_snapshot (omega (arith, z)), z)
