-- ===== src/Sharded/Tests.antt =====
-- Runs of the sharded engine of src/engine.rs at concrete inputs.
use cachebox.Prelude.{
  ℕ, ◌+◌, ◌≡◌, refl, sym, ◌∙◌, true, Option, none, some, [], ◌∷◌, arith, Result, length,
}
use cachebox.Prelude.{get_elem?, set_elem}
use mathlib.Core.Path.{subst}
use mathlib.Core.Option.{some-injective}
use cachebox.Engine.Types.{
  CompleteLeaseCommand, Text, Engine, EngineLimits, PutCommand, PutOutcome, PutError,
}
use cachebox.Engine.Hashing.{Hashing}
use cachebox.Engine.Store.{Clock, new_engine}
use cachebox.Sharded.Store.{
  ShardedEngine, div_ceil, repeat, with_clock_and_limits, shard_index_for, settle, put,
  invalidate_tag,
}
use cachebox.Sharded.Sound.{IsSound, put-IsSound}
use cachebox.Sharded.Start.{with_clock_and_limits-IsSound}
use cachebox.Sharded.Invalidation.{Clears, invalidate_tag-Clears}

-- Tables that iterate in the order of the model, and a hash of the lengths.
abbrev by_length : Hashing
by_length = record {
  entry_order = λ entries. entries;
  get-entry_order = λ entries id distinct. refl;
  id_order = λ ids. ids;
  contains-id_order = λ ids id. refl;
  index_order = λ indices. indices;
  contains-index_order = λ indices i. refl;
  hash = λ namespace key. length namespace + length key;
}

abbrev ticking : Clock
ticking i = 1000 + i

abbrev ns : Text
ns = b'n' ∷ []

abbrev hot : Text
hot = b'h' ∷ []

abbrev page : PutCommand
page = record {
  namespace = ns;
  key = 1 ∷ [];
  value = 7 ∷ [];
  ttl = none;
  stale_ttl = none;
  tags = hot ∷ [];
  cost = none;
}

abbrev small_limits : EngineLimits
small_limits = record { max_memory_bytes = 499; max_value_bytes = 16 }

abbrev two_shards : ShardedEngine
two_shards =
    let shard = new_engine (record small_limits { max_memory_bytes = 250 }) in
    record { shards = shard ∷ shard ∷ []; tag_directory = []; limits = small_limits }

with_clock_and_limits-IsSound_example :
    (s : ShardedEngine) × (with_clock_and_limits small_limits 2 ≡ some s)
    × (length s.shards ≡ 2)
    × IsSound s
unfolding div_ceil
with_clock_and_limits-IsSound_example = with_clock_and_limits-IsSound small_limits 1 (omega arith)

started : with_clock_and_limits small_limits 2 ≡ some two_shards
unfolding with_clock_and_limits div_ceil repeat
started = refl

two_shards-IsSound : IsSound two_shards
two_shards-IsSound =
    let (s, equation, count, sound) = with_clock_and_limits-IsSound_example in
    subst IsSound (some-injective s two_shards (sym equation ∙ started)) sound

put-IsSound_example :
    (s' : ShardedEngine) × (result : Result PutError PutOutcome) × (put by_length ticking page
        two_shards
      ≡ some (s', result))
    × IsSound s'
put-IsSound_example = put-IsSound by_length two_shards ticking page (omega arith) two_shards-IsSound

abbrev state_of : Option (ShardedEngine × Result PutError PutOutcome) → ShardedEngine
state_of none = two_shards
state_of (some (s, result)) = s

-- The engine with the page.
abbrev one_page : ShardedEngine
one_page = state_of (put by_length ticking page two_shards)

one_page-IsSound : IsSound one_page
one_page-IsSound =
    let (s, result, equation, sound) = put-IsSound_example in
    subst (λ (o : Option (ShardedEngine × Result PutError PutOutcome)). IsSound (state_of o))
      (sym equation) sound

abbrev engine_of : ℕ → Engine
engine_of i = elim (get_elem? one_page.shards i) [ none ↦ new_engine small_limits | some e ↦ e ]

-- The page is in the first shard.
page_shard : get_elem? one_page.shards 0 ≡ some (engine_of 0)
unfolding put get_elem? shard_index_for settle set_elem
page_shard = refl

invalidate_tag-Clears_example :
    (s' : ShardedEngine) × (removed : ℕ) × (e' : Engine) × (invalidate_tag by_length ns hot one_page
      ≡ some (s', removed))
    × (get_elem? s'.shards 0 ≡ some e')
    × Clears (record { namespace = ns; tag = hot }) true (engine_of 0) e'
invalidate_tag-Clears_example =
    invalidate_tag-Clears by_length ns hot one_page one_page-IsSound 0 (engine_of 0) page_shard

abbrev fill : CompleteLeaseCommand
fill = record {
  namespace = ns;
  key = 1 ∷ [];
  lease_token = b'l' ∷ [];
  value = 7 ∷ [];
  ttl = none;
  stale_ttl = none;
  tags = [];
  cost = none;
}
