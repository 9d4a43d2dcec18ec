-- ===== src/Server/Admin.antt =====
-- The admin routes of src/server.rs.
use cachebox.Prelude.{
  ℕ, ◌<◌, ◌≡◌, refl, Bool, true, false, ◌&&◌, Option, none, some, List, [], ◌∷◌, ◌++◌, arith,
  if◌then◌else◌, u64_max, saturating_add, wrapping_add,
}
use cachebox.Bytes.{Text, text, same_text}
use cachebox.Engine.Lease.{decimal}
use cachebox.Sharded.Store.{ShardedEngine, stats, memory_used_bytes, cost_score_total}
use cachebox.Server.Answers.{MetricsShard, bump}
use cachebox.Server.Metrics.{snapshot, Counter, snapshot-sum}

-- `HttpMethod`: GET, or one of the others
pub data Method : Type 0 where
  get other_method : Method

pub data Status : Type 0 where
  ok_status not_found : Status

pub record Response : Type 0 where
  pub status : Status
  pub content_type : Option Text
  pub body : Text

abbrev pub is_get : Method → Bool
is_get Method.get = true
is_get Method.other_method = false

-- A line of the body: a name, and the number that `{}` prints.
abbrev line : Text → ℕ → Text
line name n = name ++ (text " " ++ (decimal n ++ text "\n"))

abbrev lines : List Text → Text
lines [] = []
lines (l ∷ ls) = l ++ lines ls

unfoldable pub metrics_response : ShardedEngine → List MetricsShard → Response
metrics_response engine shards =
    let s = snapshot shards in
    let engine_stats = stats engine in
    record {
      status = Status.ok_status;
      content_type = some (text "text/plain; version=0.0.4");
      body = lines (
          text "# HELP cachebox_requests_total Total admin HTTP requests handled.\n"
          ∷ text "# TYPE cachebox_requests_total counter\n"
          ∷ line (text "cachebox_requests_total") s.requests_total
          ∷ line (text "cachebox_requests_health_total") s.health_requests
          ∷ line (text "cachebox_requests_get_total") s.get_requests
          ∷ line (text "cachebox_requests_put_total") s.put_requests
          ∷ line (text "cachebox_requests_delete_total") s.delete_requests
          ∷ line (text "cachebox_requests_batch_get_total") s.batch_get_requests
          ∷ line (text "cachebox_requests_tag_invalidate_total") s.tag_invalidate_requests
          ∷ text "# HELP cachebox_cache_hits_total Cache hit outcomes.\n"
          ∷ text "# TYPE cachebox_cache_hits_total counter\n"
          ∷ line (text "cachebox_cache_hits_total") s.hits_total
          ∷ line (text "cachebox_cache_misses_total") s.misses_total
          ∷ line (text "cachebox_cache_stale_total") s.stale_total
          ∷ line (text "cachebox_lease_grants_total") s.lease_grants
          ∷ line (text "cachebox_lease_denials_total") s.lease_denials
          ∷ line (text "cachebox_errors_total") s.errors_total
          ∷ line (text "cachebox_expirations_total") engine_stats.expirations
          ∷ line (text "cachebox_evictions_total") engine_stats.evictions
          ∷ line (text "cachebox_memory_used_bytes") (memory_used_bytes engine)
          ∷ line (text "cachebox_memory_limit_bytes") engine.limits.max_memory_bytes
          ∷ line (text "cachebox_cost_score_total") (cost_score_total engine)
          ∷ text "cachebox_connections_current 0\n"
          ∷ []);
    }

-- What the route counts on the admin shard, and its answer
unfoldable pub counted_route : Bool → MetricsShard → MetricsShard × Response
counted_route true shard = (
  record shard {
    requests_total = bump shard.requests_total;
    health_requests = bump shard.health_requests;
  },
  record { status = Status.ok_status; content_type = none; body = text "ok" },
)
counted_route false shard = (
  record shard {
    requests_total = bump shard.requests_total;
    errors_total = bump shard.errors_total;
  },
  record {
    status = Status.not_found;
    content_type = none;
    body = text "HTTP is admin-only; use the native socket protocol for cache operations";
  },
)

-- `admin_shard()`, the first. Without shards the index is out of range.
unfoldable pub on_admin_shard : Bool → List MetricsShard → Option (List MetricsShard × Response)
on_admin_shard health [] = none
on_admin_shard health (shard ∷ shards) =
    let (shard', response) = counted_route health shard in some (shard' ∷ shards, response)

abbrev pub is_route : Text → Method → Text → Bool
is_route route method path = is_get method && same_text path route

unfoldable pub handle_request :
    Method → Text → ShardedEngine → List MetricsShard → Option (List MetricsShard × Response)
handle_request method path engine shards =
    if is_route (text "/metrics") method path
    then some (shards, metrics_response engine shards)
    else on_admin_shard (is_route (text "/healthz") method path) shards

abbrev pub errors_of : Bool → ℕ
errors_of true = 0
errors_of false = 1

abbrev pub status_of : Bool → Status
status_of true = Status.ok_status
status_of false = Status.not_found

counted_sums :
    (health : Bool) (shard : MetricsShard) (shards : List MetricsShard)
    → shard.requests_total < u64_max
    → shard.errors_total < u64_max
    → ((snapshot ((counted_route health shard).0 ∷ shards)).requests_total
        ≡ saturating_add (snapshot (shard ∷ shards)).requests_total 1)
      × ((snapshot ((counted_route health shard).0 ∷ shards)).errors_total
          ≡ saturating_add (snapshot (shard ∷ shards)).errors_total (errors_of health))
      × ((counted_route health shard).1.status ≡ status_of health)
unfolding counted_route saturating_add wrapping_add
counted_sums true shard shards few fewer = (
  omega (
    arith,
    snapshot-sum Counter.requests_total ((counted_route true shard).0 ∷ shards),
    snapshot-sum Counter.requests_total (shard ∷ shards),
    few,
  ),
  omega (
    arith,
    snapshot-sum Counter.errors_total ((counted_route true shard).0 ∷ shards),
    snapshot-sum Counter.errors_total (shard ∷ shards),
  ),
  refl,
)
counted_sums false shard shards few fewer = (
  omega (
    arith,
    snapshot-sum Counter.requests_total ((counted_route false shard).0 ∷ shards),
    snapshot-sum Counter.requests_total (shard ∷ shards),
    few,
  ),
  omega (
    arith,
    snapshot-sum Counter.errors_total ((counted_route false shard).0 ∷ shards),
    snapshot-sum Counter.errors_total (shard ∷ shards),
    fewer,
  ),
  refl,
)

-- A request on another route than the metrics is counted once in the snapshot that the metrics show, as an error
-- unless it is a GET of the health route, and its answer has the status 200 on that route and 404 on all others;
-- the counters of the first shard must not be at their end.
pub handle_request-counts :
    (method : Method) (path : Text) (engine : ShardedEngine) (shard : MetricsShard)
    (shards : List MetricsShard)
    → is_route (text "/metrics") method path ≡ false
    → shard.requests_total < u64_max
    → shard.errors_total < u64_max
    → (shards' : List MetricsShard) × (response : Response) × (handle_request method path engine
          (shard ∷ shards)
        ≡ some (shards', response))
      × ((snapshot shards').requests_total
          ≡ saturating_add (snapshot (shard ∷ shards)).requests_total 1)
      × ((snapshot shards').errors_total
          ≡ saturating_add
              (snapshot (shard ∷ shards)).errors_total
              (errors_of (is_route (text "/healthz") method path)))
      × (response.status ≡ status_of (is_route (text "/healthz") method path))
unfolding handle_request on_admin_shard
handle_request-counts method path engine shard shards other few fewer =
    let health = is_route (text "/healthz") method path in
    let counts = counted_sums health shard shards few fewer in
    (
      (counted_route health shard).0 ∷ shards,
      (counted_route health shard).1,
      rw (other, handle_request) refl,
      counts.0,
      counts.1,
      counts.2,
    )
