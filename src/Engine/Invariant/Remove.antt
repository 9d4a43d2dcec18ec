-- ===== src/Engine/Invariant/Remove.antt =====
-- `remove_entry` of src/engine.rs: what it changes, and that it keeps the invariant.
use cachebox.Prelude.{
  ℕ, ◌+◌, ◌≡◌, inl, inr, ite, false, Option, none, List, ◌∷◌, arith, if◌then◌else◌, Option-cases,
  is_some, length,
}
use cachebox.Prelude.Map.{Assoc, Distinct, get, total, get-remove}
use cachebox.Prelude.Map
use cachebox.Prelude.Set.{contains}
use cachebox.Engine.Types.{
  EntryId, TagId, ExpiryKey, Entry, EngineStats, Lease, Engine, entry_key, tag_key, expiry_key,
  text_key, EntryId-discrete,
}
use cachebox.Engine.Store.{forget_entry, remove_entry}
use cachebox.Engine.Invariant.{removable, IsConsistent}
use cachebox.Engine.Invariant.Forget.{forget_entry-IsConsistent}

-- The invariant does not speak of leases, of the access counter and of the statistics.
pub IsConsistent-rest :
    {pending : List EntryId} {hidden : Option TagId} {s : Engine} (leases : Assoc EntryId Lease)
    (next_access : ℕ) (stats : EngineStats)
    → IsConsistent pending hidden s
    → IsConsistent pending hidden
        (record s { leases = leases; next_access = next_access; stats = stats })
IsConsistent-rest leases next_access stats c = record {
  distinct = c.distinct;
  sized = c.sized;
  accounted = c.accounted;
  bounded = c.bounded;
  word = c.word;
  costed = c.costed;
  indexed = c.indexed;
  scheduled = c.scheduled;
  sorted = c.sorted;
  separate = c.separate;
}

pub remove_entry-IsConsistent :
    {pending : List EntryId} {hidden : Option TagId} {s : Engine} (id : EntryId)
    → IsConsistent pending hidden s
    → IsConsistent pending hidden (remove_entry id s).0
unfolding remove_entry
remove_entry-IsConsistent {pending} {hidden} {s} id c = elim (Option-cases (get id s.entries)) [
  | inl gone ↦ rw (gone, remove_entry) c
  | inr (e, found) ↦ rw (found, remove_entry) (forget_entry-IsConsistent id e c found)
]

pub get-remove_entry :
    (id j : EntryId) (s : Engine)
    → get j (remove_entry id s).0.entries ≡ ite (EntryId-discrete id j) none (get j s.entries)
unfolding remove_entry forget_entry
get-remove_entry id j s = ground (arith, get-remove id j s.entries)

pub remove_entry-found :
    (id : EntryId) (s : Engine) → (remove_entry id s).1 ≡ is_some (get id s.entries)
unfolding remove_entry
remove_entry-found id s = ground arith

pub length-remove_entry :
    (id : EntryId) (s : Engine)
    → Distinct s.entries
    → length (remove_entry id s).0.entries + (if (remove_entry id s).1 then 1 else 0)
      ≡ length s.entries
unfolding remove_entry forget_entry
length-remove_entry id s d = elim (Option-cases (get id s.entries)) [
  | inl gone ↦ rw (gone, remove_entry) (omega arith)
  | inr (e, found) ↦ rw (found, remove_entry) (Map.length-remove id e s.entries d found)
]

pub limits-remove_entry : (id : EntryId) (s : Engine) → (remove_entry id s).0.limits ≡ s.limits
unfolding remove_entry forget_entry
limits-remove_entry id s = ground arith

not_removable :
    (id : EntryId) (k : ExpiryKey) (entries : Assoc EntryId Entry)
    → get id entries ≡ none
    → id ≡ k.id
    → removable k entries ≡ false
unfolding removable
not_removable id k entries h e = ground (arith, h, e)

-- A pending entry that is gone is settled.
pub settle :
    {ids : List EntryId} {hidden : Option TagId} {s : Engine} (id : EntryId)
    → get id s.entries ≡ none
    → IsConsistent (id ∷ ids) hidden s
    → IsConsistent ids hidden s
unfolding contains
settle {ids} {s = s} id gone c = record {
  distinct = c.distinct;
  sized = c.sized;
  accounted = c.accounted;
  bounded = c.bounded;
  word = c.word;
  costed = c.costed;
  indexed = c.indexed;
  scheduled = λ k. ground (arith, gone, c.scheduled k, not_removable id k s.entries);
  sorted = c.sorted;
  separate = c.separate;
}

-- The lease of an entry goes with the entry; the lease of a missing entry stays.
pub leases-remove_entry :
    (id j : EntryId) (s : Engine)
    → get j (remove_entry id s).0.leases ≡ (
        if is_some (get id s.entries)
        then ite (EntryId-discrete id j) none (get j s.leases)
        else get j s.leases)
unfolding remove_entry forget_entry
leases-remove_entry id j s = ground (arith, get-remove id j s.leases)

pub next_access-remove_entry :
    (id : EntryId) (s : Engine) → (remove_entry id s).0.next_access ≡ s.next_access
unfolding remove_entry forget_entry
next_access-remove_entry id s = ground arith
