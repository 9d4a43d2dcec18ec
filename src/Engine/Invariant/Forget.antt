-- ===== src/Engine/Invariant/Forget.antt =====
-- Removing an entry keeps the invariant of the engine of src/engine.rs.
use cachebox.Prelude.{ℕ, ◌≡◌, ite, false, ◌&&◌, not, Option, none, some, List, arith, if◌then◌else◌}
use cachebox.Prelude.Map.{get, get-remove, remove-Distinct, total-remove}
use cachebox.Prelude.Set.{contains, contains-remove}
use cachebox.Engine.Types.{
  EntryId, TagId, ExpiryKey, Entry, Engine, entry_key, tag_key, expiry_key, text_key,
  EntryId-discrete,
}
use cachebox.Engine.Entry.{removable_at_ms}
use cachebox.Engine.Expiry.Laws.{IsSorted, IsSeparate, remove-IsSorted, remove-IsSeparate}
use cachebox.Engine.Tags.{ids_of}
use cachebox.Engine.Tags.Laws.{contains-drop_tags}
use cachebox.Engine.Store.{drop_expiry, forget_entry}
use cachebox.Engine.Invariant.{tagged, removable, is_time, size_of, cost_in, visible, IsConsistent}

drop_expiry-IsSorted :
    (id : EntryId) (o : Option ℕ) (index : List ExpiryKey)
    → IsSorted index
    → IsSorted (drop_expiry id o index)
unfolding drop_expiry
drop_expiry-IsSorted id none index h = h
drop_expiry-IsSorted id (some t) index h = remove-IsSorted _ index h

drop_expiry-IsSeparate :
    (id : EntryId) (o : Option ℕ) (index : List ExpiryKey)
    → IsSeparate index
    → IsSeparate (drop_expiry id o index)
unfolding drop_expiry
drop_expiry-IsSeparate id none index h = h
drop_expiry-IsSeparate id (some t) index h = remove-IsSeparate _ index h

-- Only the key of the entry leaves.
contains-drop_expiry :
    (id : EntryId) (o : Option ℕ) (k : ExpiryKey) (index : List ExpiryKey)
    → contains k (drop_expiry id o index)
      ≡ ite
          (EntryId-discrete id k.id)
          (if is_time k.expires_at_ms o then false else contains k index)
          (contains k index)
unfolding drop_expiry is_time
contains-drop_expiry id none k index = ground arith
contains-drop_expiry id (some t) k index =
    ground (arith, contains-remove (record { expires_at_ms = t; id = id }) k index)

module _ {pending : List EntryId} {hidden : Option TagId} {s : Engine} (id : EntryId) (e : Entry)
    (c : IsConsistent pending hidden s) (found : get id s.entries ≡ some e) where
  forget-indexed :
      (t : TagId) (j : EntryId)
      → contains j (ids_of t (forget_entry id e s).tag_index)
        ≡ visible hidden t (tagged t j (forget_entry id e s).entries)
  unfolding forget_entry tagged
  forget-indexed t j = ground (
    arith,
    found,
    c.indexed t j,
    get-remove id j s.entries,
    contains-drop_tags t id j e.tags s.tag_index,
  )

  forget-scheduled :
      (k : ExpiryKey)
      → contains k (forget_entry id e s).expiry_index
        ≡ (removable k (forget_entry id e s).entries && not (contains k.id pending))
  unfolding forget_entry removable
  forget-scheduled k = ground (
    arith,
    found,
    c.scheduled k,
    get-remove id k.id s.entries,
    contains-drop_expiry id (removable_at_ms e.expires_at_ms e.stale_until_ms) k s.expiry_index,
  )

  pub forget_entry-IsConsistent : IsConsistent pending hidden (forget_entry id e s)
  unfolding forget_entry
  forget_entry-IsConsistent = record {
    distinct = remove-Distinct id s.entries c.distinct;
    sized = λ j d h. ground (arith, get-remove id j s.entries, c.sized j d);
    accounted = omega (arith, c.accounted, total-remove size_of id e s.entries c.distinct found);
    bounded = omega (arith, c.bounded);
    word = c.word;
    costed = omega (arith, c.costed, total-remove cost_in id e s.entries c.distinct found);
    indexed = forget-indexed;
    scheduled = forget-scheduled;
    sorted =
        drop_expiry-IsSorted id (removable_at_ms e.expires_at_ms e.stale_until_ms) s.expiry_index
          c.sorted;
    separate =
        drop_expiry-IsSeparate id (removable_at_ms e.expires_at_ms e.stale_until_ms) s.expiry_index
          c.separate;
  }
