-- ===== src/Sharded/Start.antt =====
-- A new sharded engine of src/engine.rs.
use cachebox.Prelude.{ℕ, zero, suc, ◌<◌, ◌≡◌, refl, ap, true, some, [], arith, length, u64_max}
use cachebox.Prelude.{get_elem?}
use mathlib.Core.Path.{subst}
use mathlib.Core.Option.{some-injective}
use cachebox.Prelude.Map.{get}
use cachebox.Prelude.Set.{contains}
use cachebox.Engine.Types.{EntryId, TagId, EngineLimits, Engine, index_key}
use cachebox.Engine.Store.{new_engine}
use cachebox.Engine.Invariant.{tagged, IsValid}
use cachebox.Engine.Invariant.Initial.{new_engine-IsValid}
use cachebox.Sharded.Directory.{routes}
use cachebox.Sharded.Store.{ShardedEngine, div_ceil, repeat, with_clock_and_limits}
use cachebox.Sharded.Sound.{IsSound}

repeat_all :
    (P : Engine → Type 0) (count i : ℕ) (engine e : Engine)
    → P engine
    → get_elem? (repeat count engine) i ≡ some e
    → P e
unfolding repeat get_elem?
repeat_all P zero i engine e p h = absurd (ground (arith, h))
repeat_all P (suc count) zero engine e p h = subst P (some-injective engine e h) p
repeat_all P (suc count) (suc i) engine e p h = repeat_all P count i engine e p h

length-repeat : (count : ℕ) (engine : Engine) → length (repeat count engine) ≡ count
unfolding repeat
length-repeat zero engine = refl
length-repeat (suc count) engine = ap suc (length-repeat count engine)

untagged :
    (t : TagId) (id : EntryId) (limits : EngineLimits)
    → tagged t id (new_engine limits).entries ≡ true
    → ⊥
unfolding tagged new_engine get
untagged t id limits h = ground (arith, h)

unrouted : (i : ℕ) (t : TagId) → contains i (routes t []) ≡ true → ⊥
unfolding contains routes get
unrouted i t h = ground (arith, h)

-- With at least one shard, and a limit per shard below the largest word, a sharded engine starts with that many
-- shards, sound.
pub with_clock_and_limits-IsSound :
    (limits : EngineLimits) (count : ℕ)
    → div_ceil limits.max_memory_bytes (suc count) < u64_max
    → (s : ShardedEngine) × (with_clock_and_limits limits (suc count) ≡ some s)
      × (length s.shards ≡ suc count)
      × IsSound s
unfolding with_clock_and_limits
with_clock_and_limits-IsSound limits count small =
    let shard_limits = record limits {
      max_memory_bytes = div_ceil limits.max_memory_bytes (suc count);
    } in
    let shards = repeat (suc count) (new_engine shard_limits) in
    (
      record { shards = shards; tag_directory = []; limits = limits },
      refl,
      length-repeat (suc count) (new_engine shard_limits),
      record {
        valid = λ i e found.
            repeat_all IsValid (suc count) i (new_engine shard_limits) e
              (new_engine-IsValid shard_limits small) found;
        routed = λ i e t id found carried. absurd (
            repeat_all (λ e. tagged t id e.entries ≡ true → ⊥) (suc count) i
              (new_engine shard_limits) e (untagged t id shard_limits) found carried);
        in_range = λ i t there. absurd (unrouted i t there);
      },
    )
