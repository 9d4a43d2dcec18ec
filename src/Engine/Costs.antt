-- ===== src/Engine/Costs.antt =====
-- The cost counter of src/engine.rs saturates. IsAccounted says how far it follows the costs of the entries, by
-- the cost of all that was ever stored.
pub mod Removals
pub mod Stores
use cachebox.Prelude.{ℕ, ◌+◌, ◌-◌, ◌≤◌, ◌≡◌, sym, arith, u64_max}
use mathlib.Core.Path.{subst}
use cachebox.Prelude.Map.{Assoc, Distinct, total}
use cachebox.Engine.Types.{EntryId, Entry, Engine, entry_key, tag_key, expiry_key, text_key}
use cachebox.Engine.Invariant.{cost_in, IsValid}

-- `stored` is the cost of all that was ever stored.
pub record IsCounted (stored : ℕ) (s : Engine) : Type 0 where
  pub distinct : Distinct s.entries
  pub upper : s.cost_score_total ≤ total cost_in s.entries
  pub within : total cost_in s.entries ≤ stored
  pub lower : total cost_in s.entries ≤ s.cost_score_total + (stored - u64_max)

-- It speaks of the entries and of the counter only.
pub IsCounted-rest :
    {stored : ℕ} {s : Engine} (t : Engine)
    → t.entries ≡ s.entries
    → t.cost_score_total ≡ s.cost_score_total
    → IsCounted stored s
    → IsCounted stored t
IsCounted-rest {s = s} t entries score c = record {
  distinct = subst (λ (m : Assoc EntryId Entry). Distinct m) (sym entries) c.distinct;
  upper = rw (entries, score) c.upper;
  within = rw entries c.within;
  lower = rw (entries, score) c.lower;
}

-- A valid engine, whose cost counter is the sum of the costs but for what passed the largest word.
pub record IsAccounted (stored : ℕ) (s : Engine) : Type 0 where
  pub valid : IsValid s
  pub within : total cost_in s.entries ≤ stored
  pub counted : total cost_in s.entries ≤ s.cost_score_total + (stored - u64_max)

pub IsAccounted-counts : {stored : ℕ} {s : Engine} → IsAccounted stored s → IsCounted stored s
IsAccounted-counts a = record {
  distinct = a.valid.distinct;
  upper = a.valid.costed;
  within = a.within;
  lower = a.counted;
}

pub IsAccounted-of :
    {stored : ℕ} {s : Engine} → IsValid s → IsCounted stored s → IsAccounted stored s
IsAccounted-of v c = record { valid = v; within = c.within; counted = c.lower }

-- As long as all costs fit a word, the counter is exact.
pub counter_exact :
    (stored : ℕ) (s : Engine)
    → IsAccounted stored s
    → stored ≤ u64_max
    → s.cost_score_total ≡ total cost_in s.entries
counter_exact stored s a small = omega (arith, a.valid.costed, a.counted, small)
