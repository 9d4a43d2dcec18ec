-- ===== src/Engine/Invariant/Initial.antt =====
-- A new engine of src/engine.rs satisfies the invariant.
use cachebox.Prelude.{◌<◌, refl, u64_max, arith}
use cachebox.Prelude.Map.{get, total}
use cachebox.Prelude.Set.{contains}
use cachebox.Engine.Types.{EngineLimits}
use cachebox.Engine.Tags.{ids_of}
use cachebox.Engine.Store.{new_engine}
use cachebox.Engine.Invariant.{tagged, removable, IsValid}

pub new_engine-IsValid :
    (limits : EngineLimits) → limits.max_memory_bytes < u64_max → IsValid (new_engine limits)
unfolding new_engine tagged removable ids_of get total contains
new_engine-IsValid limits small = record {
  distinct = tt;
  sized = λ id e found. ground (arith, found);
  accounted = refl;
  bounded = omega arith;
  word = small;
  costed = omega arith;
  indexed = λ t id. refl;
  scheduled = λ k. refl;
  sorted = tt;
  separate = tt;
}
