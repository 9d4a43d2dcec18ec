-- ===== src/Engine/Invariant.antt =====
-- What a state of the engine of src/engine.rs must satisfy: its indices, its sizes and its memory
-- counter say what its entries say, and its cost counter says no more.
pub mod Forget
pub mod Remove
pub mod Reclaim
pub mod Evict
pub mod Touch
pub mod Untag
pub mod Shrink
pub mod Stored
pub mod Initial
use cachebox.Prelude.{
  ℕ, zero, suc, ◌+◌, ◌-◌, ◌*◌, ◌/◌, ◌%◌, ◌^◌, ◌≤◌, ◌<◌, min, ◌≡◌, refl, sym, ap, ◌∙◌, ◌≢◌, ◌↔◌, ◌⊎◌,
  inl, inr, ite, if_pos, if_neg, Bool, true, false, ◌&&◌, ◌||◌, not, Option, none, some, List, [],
  ◌∷◌, ◌++◌, map, append-nil, append_assoc, arith, ℕ_discrete, ltb, leb, ◌==◌, if◌then◌else◌,
  ltb→lt, ltb→le, lt→ltb, le→ltb, leb→le, le→leb, ==_iff, tests, Bool-cases, Option-cases, Result,
  ok, err, Key, is_some, length, take, drop, length-append, take-append, drop-append, All, sum,
  u64_max, saturating_add, saturating_sub, wrapping_add, saturating_add_exact,
  saturating_add_bounds,
}
use cachebox.Prelude.Map.{Assoc, Distinct, get, total}
use cachebox.Prelude.Set.{contains}
use cachebox.Engine.Types.{
  EntryId, TagId, ExpiryKey, Entry, Engine, entry_key, tag_key, expiry_key, text_key,
}
use cachebox.Engine.Entry.{estimate_entry_memory, removable_at_ms}
use cachebox.Engine.Expiry.Laws.{IsSorted, IsSeparate}
use cachebox.Engine.Tags.{ids_of}
use cachebox.Engine.Tags.Laws.{belongs}
use cachebox.Engine.Store.{cost_of}

-- The entry of `id` is stored and carries the tag.
unfoldable pub tagged : TagId → EntryId → Assoc EntryId Entry → Bool
tagged t id entries = elim (get id entries) [ none ↦ false | some e ↦ belongs t id e.tags ]

is_time : ℕ → Option ℕ → Bool
is_time at_ms none = false
is_time at_ms (some removable_at) = removable_at == at_ms

-- The entry of the key is stored and becomes removable at the key's time.
unfoldable pub removable : ExpiryKey → Assoc EntryId Entry → Bool
unfolding is_time
removable k entries = elim (get k.id entries) [
  | none ↦ false
  | some e ↦ is_time k.expires_at_ms (removable_at_ms e.expires_at_ms e.stale_until_ms)
]

abbrev pub size_of : EntryId → Entry → ℕ
size_of id e = e.memory_bytes

abbrev pub cost_in : EntryId → Entry → ℕ
cost_in id e = cost_of e

-- The tag index says what the entries say, but for a tag that an invalidation has taken out.
abbrev pub visible : Option TagId → TagId → Bool → Bool
visible none t b = b
visible (some u) t b = ite (tag_key.same u t) false b

-- `pending` are entries whose keys have left the expiry index, and that are about to be removed.
pub record IsConsistent (pending : List EntryId) (hidden : Option TagId) (s : Engine) : Type 0 where
  -- an id is stored once, with the size that `put` computed for it
  pub distinct : Distinct s.entries
  pub sized :
      (id : EntryId) (e : Entry)
      → get id s.entries ≡ some e
      → e.memory_bytes ≡ estimate_entry_memory id e.value e.tags
  -- the memory counter is the sum of the sizes, within the limit
  pub accounted : s.memory_used_bytes ≡ total size_of s.entries
  pub bounded : s.memory_used_bytes ≤ s.limits.max_memory_bytes
  pub word : s.limits.max_memory_bytes < u64_max
  pub costed : s.cost_score_total ≤ total cost_in s.entries
  pub indexed :
      (t : TagId) (id : EntryId)
      → contains id (ids_of t s.tag_index) ≡ visible hidden t (tagged t id s.entries)
  pub scheduled :
      (k : ExpiryKey)
      → contains k s.expiry_index ≡ (removable k s.entries && not (contains k.id pending))
  pub sorted : IsSorted s.expiry_index
  pub separate : IsSeparate s.expiry_index

-- Between operations nothing is pending.
abbrev pub IsValid : Engine → Type 0
IsValid s = IsConsistent [] none s
