-- ===== src/Server/Answers.antt =====
-- The counters of src/server.rs, and what it makes of the outcomes of the engine.
use cachebox.Prelude.{
  ℕ, ◌-◌, ◌^◌, min, Option, none, some, List, [], ◌∷◌, Result, ok, err, wrapping_add,
}
use cachebox.Bytes.{Bytes, Text}
use cachebox.Engine.Types.{
  PutCommand, PutOutcome, PutError, value_too_large, value_too_large_for_memory,
  insufficient_memory, CompleteLeaseError, invalid_lease_token, put_failed, StartLeaseOutcome,
  lease_granted, lease_denied, GetOutcome, miss,
}
use cachebox.Sharded.Store.{ShardedEngine}
use cachebox.Wire.Types.{Metadata, BatchItem, ErrorCode, ResponsePayload}

pub record MetricsShard : Type 0 where
  pub requests_total : ℕ
  pub health_requests : ℕ
  pub get_requests : ℕ
  pub put_requests : ℕ
  pub delete_requests : ℕ
  pub batch_get_requests : ℕ
  pub tag_invalidate_requests : ℕ
  pub hits_total : ℕ
  pub misses_total : ℕ
  pub stale_total : ℕ
  pub lease_grants : ℕ
  pub lease_denials : ℕ
  pub errors_total : ℕ

-- The engine, and the metrics shard of the request.
pub record State : Type 0 where
  pub engine : ShardedEngine
  pub metrics : MetricsShard

-- `fetch_add(1)`
abbrev pub bump : ℕ → ℕ
bump n = wrapping_add n 1

abbrev pub u32_max : ℕ
u32_max = 2 ^ 32 - 1

abbrev value_limit_text : Text
value_limit_text =
    b'v' ∷ b'a' ∷ b'l' ∷ b'u' ∷ b'e' ∷ b' ' ∷ b'e' ∷ b'x' ∷ b'c' ∷ b'e' ∷ b'e' ∷ b'd' ∷ b's' ∷ b' '
    ∷ b'c' ∷ b'o' ∷ b'n' ∷ b'f' ∷ b'i' ∷ b'g' ∷ b'u' ∷ b'r' ∷ b'e' ∷ b'd' ∷ b' ' ∷ b'v' ∷ b'a'
    ∷ b'l' ∷ b'u' ∷ b'e' ∷ b' ' ∷ b'l' ∷ b'i' ∷ b'm' ∷ b'i' ∷ b't' ∷ []

abbrev memory_limit_text : Text
memory_limit_text =
    b'e' ∷ b'n' ∷ b't' ∷ b'r' ∷ b'y' ∷ b' ' ∷ b'c' ∷ b'a' ∷ b'n' ∷ b'n' ∷ b'o' ∷ b't' ∷ b' ' ∷ b'f'
    ∷ b'i' ∷ b't' ∷ b' ' ∷ b'c' ∷ b'o' ∷ b'n' ∷ b'f' ∷ b'i' ∷ b'g' ∷ b'u' ∷ b'r' ∷ b'e' ∷ b'd'
    ∷ b' ' ∷ b'm' ∷ b'e' ∷ b'm' ∷ b'o' ∷ b'r' ∷ b'y' ∷ b' ' ∷ b'l' ∷ b'i' ∷ b'm' ∷ b'i' ∷ b't' ∷ []

abbrev no_room_text : Text
no_room_text =
    b'e' ∷ b'n' ∷ b't' ∷ b'r' ∷ b'y' ∷ b' ' ∷ b'c' ∷ b'o' ∷ b'u' ∷ b'l' ∷ b'd' ∷ b' ' ∷ b'n' ∷ b'o'
    ∷ b't' ∷ b' ' ∷ b'f' ∷ b'i' ∷ b't' ∷ b' ' ∷ b'a' ∷ b'f' ∷ b't' ∷ b'e' ∷ b'r' ∷ b' ' ∷ b'c'
    ∷ b'l' ∷ b'e' ∷ b'a' ∷ b'n' ∷ b'u' ∷ b'p' ∷ b' ' ∷ b'a' ∷ b'n' ∷ b'd' ∷ b' ' ∷ b'e' ∷ b'v'
    ∷ b'i' ∷ b'c' ∷ b't' ∷ b'i' ∷ b'o' ∷ b'n' ∷ []

abbrev lease_text : Text
lease_text =
    b'l' ∷ b'e' ∷ b'a' ∷ b's' ∷ b'e' ∷ b' ' ∷ b't' ∷ b'o' ∷ b'k' ∷ b'e' ∷ b'n' ∷ b' ' ∷ b'i' ∷ b's'
    ∷ b' ' ∷ b'm' ∷ b'i' ∷ b's' ∷ b's' ∷ b'i' ∷ b'n' ∷ b'g' ∷ b',' ∷ b' ' ∷ b'e' ∷ b'x' ∷ b'p'
    ∷ b'i' ∷ b'r' ∷ b'e' ∷ b'd' ∷ b',' ∷ b' ' ∷ b'o' ∷ b'r' ∷ b' ' ∷ b'n' ∷ b'o' ∷ b' ' ∷ b'l'
    ∷ b'o' ∷ b'n' ∷ b'g' ∷ b'e' ∷ b'r' ∷ b' ' ∷ b'a' ∷ b'c' ∷ b't' ∷ b'i' ∷ b'v' ∷ b'e' ∷ []

unfoldable pub native_put_command : Text → Bytes → Metadata → Bytes → PutCommand
native_put_command namespace key metadata value = record {
  namespace = namespace;
  key = key;
  value = value;
  ttl = metadata.ttl;
  stale_ttl = metadata.stale_ttl;
  tags = metadata.tags;
  cost = metadata.cost;
}

unfoldable pub native_put_error : PutError → ResponsePayload
native_put_error (value_too_large _ _) =
    ResponsePayload.error ErrorCode.value_too_large value_limit_text
native_put_error (value_too_large_for_memory _ _) =
    ResponsePayload.error ErrorCode.entry_too_large memory_limit_text
native_put_error (insufficient_memory _ _ _) =
    ResponsePayload.error ErrorCode.insufficient_memory no_room_text

-- The `match` of the results: the counters and the answer.
unfoldable pub stored_answer :
    Result PutError PutOutcome → MetricsShard → MetricsShard × ResponsePayload
stored_answer (ok outcome) m = (m, ResponsePayload.stored (min outcome.evicted u32_max))
stored_answer (err error) m =
    (record m { errors_total = bump m.errors_total }, native_put_error error)

unfoldable pub completed_answer :
    Result CompleteLeaseError PutOutcome → MetricsShard → MetricsShard × ResponsePayload
completed_answer (ok outcome) m = (m, ResponsePayload.stored (min outcome.evicted u32_max))
completed_answer (err invalid_lease_token) m = (
  record m { errors_total = bump m.errors_total },
  ResponsePayload.error ErrorCode.invalid_lease_token lease_text,
)
completed_answer (err (put_failed error)) m =
    (record m { errors_total = bump m.errors_total }, native_put_error error)

unfoldable pub got_answer : GetOutcome → MetricsShard → MetricsShard × ResponsePayload
got_answer (GetOutcome.hit value) m =
    (record m { hits_total = bump m.hits_total }, ResponsePayload.hit value)
got_answer (GetOutcome.stale value) m =
    (record m { stale_total = bump m.stale_total }, ResponsePayload.stale value)
got_answer miss m = (record m { misses_total = bump m.misses_total }, ResponsePayload.miss)

-- The loop over the outcomes of a batch.
unfoldable pub batch_items : List GetOutcome → MetricsShard → MetricsShard × List BatchItem
batch_items [] m = (m, [])
batch_items (GetOutcome.hit value ∷ outcomes) m =
    let (m', items) = batch_items outcomes (record m { hits_total = bump m.hits_total }) in
    (m', BatchItem.hit value ∷ items)
batch_items (GetOutcome.stale value ∷ outcomes) m =
    let (m', items) = batch_items outcomes (record m { stale_total = bump m.stale_total }) in
    (m', BatchItem.stale value ∷ items)
batch_items (miss ∷ outcomes) m =
    let (m', items) = batch_items outcomes (record m { misses_total = bump m.misses_total }) in
    (m', BatchItem.miss ∷ items)

unfoldable pub leased_answer : StartLeaseOutcome → MetricsShard → MetricsShard × ResponsePayload
leased_answer (StartLeaseOutcome.hit value) m =
    (record m { hits_total = bump m.hits_total }, ResponsePayload.hit value)
leased_answer (StartLeaseOutcome.stale value) m =
    (record m { stale_total = bump m.stale_total }, ResponsePayload.stale value)
leased_answer (lease_granted token stale_value) m = (
  record m { lease_grants = bump m.lease_grants },
  ResponsePayload.lease_granted token stale_value,
)
leased_answer lease_denied m =
    (record m { lease_denials = bump m.lease_denials }, ResponsePayload.lease_denied)

-- A call of the engine, and what is made of its result.
unfoldable pub answer {ℓ} :
    {R : Type ℓ}
    → Option (ShardedEngine × R)
    → (R → MetricsShard × ResponsePayload)
    → Option (State × ResponsePayload)
answer none respond = none
answer (some (engine, result)) respond =
    let (metrics, payload) = respond result in
    some (record { engine = engine; metrics = metrics }, payload)
