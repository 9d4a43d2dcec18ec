-- ===== src/Sharded/Store.antt =====
-- The state of the sharded engine of src/engine.rs and its operations, one client at a time. A call that
-- indexes past the shards panics, and has no result here.
use cachebox.Prelude.{
  ℕ, zero, suc, ◌+◌, ◌/◌, ◌%◌, ◌^◌, Bool, true, false, Option, none, some, List, [], ◌∷◌, map, ◌==◌,
  if◌then◌else◌, Result, ok, err, length, sum, saturating_add, saturating_sub,
}
use cachebox.Prelude.{get_elem?, set_elem}
use cachebox.Prelude.Map.{Assoc, get}
use cachebox.Prelude.Map
use mathlib.Core.List.{foldl}
use cachebox.Engine.Types.{
  Bytes, Text, TagId, EngineLimits, EngineStats, Engine, PutCommand, PutOutcome, PutError,
  CompleteLeaseCommand, CompleteLeaseError, StartLeaseOutcome, GetOutcome, entry_key, tag_key,
}
use cachebox.Engine.Entry.{tag_ids}
use cachebox.Engine.Tags.{has_ids}
use cachebox.Engine.Hashing.{Hashing}
use cachebox.Engine.Store
use cachebox.Engine.Store.{Clock, new_engine}
use cachebox.Engine.Read
use cachebox.Engine.Read.{entry_id, get_ref_inner}
use cachebox.Engine.Lease
use cachebox.Sharded.Directory.{Directory, update_tag_routes, routes}

pub record ShardedEngine : Type 0 where
  pub shards : List Engine
  pub tag_directory : Directory
  pub limits : EngineLimits

-- `usize::div_ceil`
unfoldable pub div_ceil : ℕ → ℕ → ℕ
div_ceil a b = if a % b == 0 then a / b else a / b + 1

abbrev pub default_shard_count : ℕ
default_shard_count = 16

unfoldable pub repeat : ℕ → Engine → List Engine
repeat zero engine = []
repeat (suc count) engine = engine ∷ repeat count engine

-- `none` stands for the panic of the assertion.
unfoldable pub with_clock_and_limits : EngineLimits → ℕ → Option ShardedEngine
unfolding repeat
with_clock_and_limits limits zero = none
with_clock_and_limits limits (suc count) =
    let shard_limits = record limits {
      max_memory_bytes = div_ceil limits.max_memory_bytes (suc count);
    } in
    some (record {
      shards = repeat (suc count) (new_engine shard_limits);
      tag_directory = [];
      limits = limits;
    })

-- `tag_ids_for_entry` of a shard
unfoldable pub tag_ids_for_entry : Text → Bytes → Engine → List TagId
tag_ids_for_entry namespace key shard = elim (get (entry_id namespace key) shard.entries) [
  | none ↦ []
  | some entry ↦ tag_ids namespace entry.tags
]

unfoldable pub has_tag_id : TagId → Engine → Bool
has_tag_id tag_id shard = has_ids tag_id shard.tag_index

-- `filter(|tag_id| !shard.has_tag_id(tag_id))`
unfoldable pub without_entries : Engine → List TagId → List TagId
without_entries shard [] = []
without_entries shard (tag_id ∷ tag_ids) =
    let rest = without_entries shard tag_ids in
    if has_tag_id tag_id shard then rest else tag_id ∷ rest

-- The end of an operation on one shard: the shard is stored and the directory is updated.
unfoldable pub settle : ℕ → Engine → List TagId → List TagId → ShardedEngine → ShardedEngine
settle shard_index shard add_tags remove_tags s = record s {
  shards = set_elem s.shards shard_index shard;
  tag_directory = update_tag_routes shard_index add_tags remove_tags s.tag_directory;
}

-- `if result.is_ok() { new_tags } else { Vec::new() }`
unfoldable pub tags_if_ok {ℓ} : {X : Type ℓ} → Result X PutOutcome → List TagId → List TagId
tags_if_ok (ok outcome) new_tags = new_tags
tags_if_ok (err error) new_tags = []

-- An operation that leaves the directory alone: what it does to the shard of the key.
unfoldable pub on_shard {ℓ} :
    {R : Type ℓ} → ℕ → (Engine → Engine × R) → ShardedEngine → Option (ShardedEngine × R)
on_shard shard_index operation s = elim (get_elem? s.shards shard_index) [
  | none ↦ none
  | some shard ↦
      let (shard', result) = operation shard in
      some (record s { shards = set_elem s.shards shard_index shard' }, result)
]

module _ (h : Hashing) where
  unfoldable pub shard_index_for : Text → Bytes → ShardedEngine → ℕ
  shard_index_for namespace key s = h.hash namespace key % length s.shards

  unfoldable pub put :
      Clock → PutCommand → ShardedEngine → Option (ShardedEngine × Result PutError PutOutcome)
  put clock command s =
      let shard_index = shard_index_for command.namespace command.key s in
      elim (get_elem? s.shards shard_index) [
        | none ↦ none
        | some shard ↦
            let old_tags = tag_ids_for_entry command.namespace command.key shard in
            let (shard', result) = Store.put h clock command shard in
            let old_tags_without_entries = without_entries shard' old_tags in
            let add_tags = tags_if_ok result (tag_ids command.namespace command.tags) in
            some (settle shard_index shard' add_tags old_tags_without_entries s, result)
      ]

  unfoldable pub get_value : ℕ → Text → Bytes → ShardedEngine → Option (ShardedEngine × GetOutcome)
  get_value now_ms namespace key s =
      on_shard (shard_index_for namespace key s) (Read.get_value now_ms namespace key) s

  unfoldable pub get_ref {ℓ} :
      {R : Type ℓ}
      → ℕ
      → Text
      → Bytes
      → (GetOutcome → R)
      → ShardedEngine
      → Option (ShardedEngine × R)
  get_ref now_ms namespace key map s =
      on_shard (shard_index_for namespace key s) (Read.get_ref now_ms namespace key map) s

  unfoldable pub get_ref_without_access_update {ℓ} :
      {R : Type ℓ}
      → ℕ
      → Text
      → Bytes
      → (GetOutcome → R)
      → ShardedEngine
      → Option (ShardedEngine × R)
  get_ref_without_access_update now_ms namespace key map s =
      on_shard (shard_index_for namespace key s)
        (Read.get_ref_without_access_update now_ms namespace key map) s

  -- Where nothing was removed, the update is given nothing to do.
  unfoldable pub delete : Text → Bytes → ShardedEngine → Option (ShardedEngine × Bool)
  delete namespace key s =
      let shard_index = shard_index_for namespace key s in
      elim (get_elem? s.shards shard_index) [
        | none ↦ none
        | some shard ↦
            let old_tags = tag_ids_for_entry namespace key shard in
            let (shard', removed) = Read.delete namespace key shard in
            let old_tags_without_entries = without_entries shard' old_tags in
            some (
              settle shard_index shard' [] (if removed then old_tags_without_entries else []) s,
              removed,
            )
      ]

  -- The reading for the key at position `i` is `clock i`.
  unfoldable pub batch_get :
      Clock → Text → List Bytes → ShardedEngine → Option (ShardedEngine × List GetOutcome)
  batch_get clock namespace [] s = some (s, [])
  batch_get clock namespace (key ∷ keys) s = elim (get_value (clock 0) namespace key s) [
    | none ↦ none
    | some (s', outcome) ↦ elim (batch_get (λ i. clock (i + 1)) namespace keys s') [
      | none ↦ none
      | some (s'', outcomes) ↦ some (s'', outcome ∷ outcomes)
    ]
  ]

  unfoldable pub start_lease :
      Clock → Text → Bytes → ℕ → ShardedEngine → Option (ShardedEngine × StartLeaseOutcome)
  start_lease clock namespace key lease_ttl_ms s =
      on_shard (shard_index_for namespace key s)
        (Lease.start_lease clock namespace key lease_ttl_ms) s

  unfoldable pub complete_lease :
      Clock
      → CompleteLeaseCommand
      → ShardedEngine
      → Option (ShardedEngine × Result CompleteLeaseError PutOutcome)
  complete_lease clock command s =
      let shard_index = shard_index_for command.namespace command.key s in
      elim (get_elem? s.shards shard_index) [
        | none ↦ none
        | some shard ↦
            let old_tags = tag_ids_for_entry command.namespace command.key shard in
            let (shard', result) = Lease.complete_lease h clock command shard in
            let old_tags_without_entries = without_entries shard' old_tags in
            let add_tags = tags_if_ok result (tag_ids command.namespace command.tags) in
            some (settle shard_index shard' add_tags old_tags_without_entries s, result)
      ]

  -- The shards of the indices, in the order of the iteration, each invalidated; the counts are added up.
  unfoldable pub invalidate_shards : Text → Text → List ℕ → List Engine → Option (List Engine × ℕ)
  invalidate_shards namespace tag [] shards = some (shards, 0)
  invalidate_shards namespace tag (index ∷ indices) shards = elim (get_elem? shards index) [
    | none ↦ none
    | some shard ↦
        let (shard', removed) = Read.invalidate_tag h namespace tag shard in
        elim (invalidate_shards namespace tag indices (set_elem shards index shard')) [
          | none ↦ none
          | some (shards', total) ↦ some (shards', removed + total)
        ]
  ]

  unfoldable pub invalidate_tag : Text → Text → ShardedEngine → Option (ShardedEngine × ℕ)
  invalidate_tag namespace tag s =
      let tag_id : TagId = record { namespace = namespace; tag = tag } in
      elim (invalidate_shards namespace tag (h.index_order (routes tag_id s.tag_directory))
        s.shards) [
          | none ↦ none
          | some (shards, removed) ↦ some (
            record s { shards = shards; tag_directory = Map.remove tag_id s.tag_directory },
            removed,
          )
        ]

-- The shards from one on, with what is left of the budget and what has been removed. `clock i` is the reading
-- for the shard at position `i`.
unfoldable pub reclaim_shards : Clock → ℕ → ℕ → List Engine → List Engine × ℕ
reclaim_shards clock remaining removed [] = ([], removed)
reclaim_shards clock remaining removed (shard ∷ shards) = elim (remaining == 0) [
  | true ↦ (shard ∷ shards, removed)
  | false ↦
      let (shard', shard_removed) = Store.reclaim_expired_budget (clock 0) remaining shard in
      let (shards', total) =
        reclaim_shards (λ i. clock (i + 1)) (saturating_sub remaining shard_removed)
          (removed + shard_removed) shards in
      (shard' ∷ shards', total)
]

unfoldable pub reclaim_expired_budget : Clock → ℕ → ShardedEngine → ShardedEngine × ℕ
reclaim_expired_budget clock max_entries s = elim (max_entries == 0) [
  | true ↦ (s, 0)
  | false ↦
      let (shards, removed) = reclaim_shards clock max_entries 0 s.shards in
      (record s { shards = shards }, removed)
]

unfoldable pub len : ShardedEngine → ℕ
len s = sum (map (λ shard. length shard.entries) s.shards)

unfoldable pub memory_used_bytes : ShardedEngine → ℕ
memory_used_bytes s = sum (map (λ shard. shard.memory_used_bytes) s.shards)

-- A sum of `u64`, which wraps.
unfoldable pub cost_score_total : ShardedEngine → ℕ
cost_score_total s = sum (map (λ shard. shard.cost_score_total) s.shards) % 2 ^ 64

add_stats : EngineStats → EngineStats → EngineStats
add_stats total stats = record {
  expirations = saturating_add total.expirations stats.expirations;
  evictions = saturating_add total.evictions stats.evictions;
}

unfoldable pub stats : ShardedEngine → EngineStats
unfolding add_stats
stats s =
    foldl add_stats (record { expirations = 0; evictions = 0 })
      (map (λ shard. shard.stats) s.shards)

unfoldable pub with_limits : EngineLimits → Option ShardedEngine
with_limits limits = with_clock_and_limits limits default_shard_count
