-- ===== src/Engine/Invariant/Stored.antt =====
-- Storing an entry, the end of `put` in src/engine.rs, keeps the invariant.
use cachebox.Prelude.{
  ℕ, ◌+◌, ◌≤◌, ◌≡◌, refl, ite, false, ◌&&◌, ◌||◌, not, Option, none, some, List, [], arith,
  saturating_add, saturating_add_exact, saturating_add_bounds,
}
use cachebox.Prelude.Map.{Assoc, Distinct, get, total, get-insert, insert-Distinct, remove_absent}
use cachebox.Prelude.Map
use cachebox.Prelude.Set.{contains}
use cachebox.Engine.Types.{
  EntryId, TagId, ExpiryKey, Entry, Engine, PutCommand, entry_key, tag_key, expiry_key, text_key,
  EntryId-discrete,
}
use cachebox.Engine.Entry.{estimate_entry_memory, removable_at_ms, expiry_time, stale_time}
use cachebox.Engine.Expiry.Laws.{
  IsSorted, IsSeparate, IsFree, contains-insert, insert-IsSorted, insert-IsSeparate,
  IsFree-of_contains,
}
use cachebox.Engine.Tags.{ids_of}
use cachebox.Engine.Tags.Laws.{contains-add_tags}
use cachebox.Engine.Store.{cost_of, add_expiry, over_limit, store_entry, id_of, bytes_of}
use cachebox.Engine.Invariant.{tagged, removable, is_time, size_of, cost_in, IsValid}

contains-add_expiry :
    (id : EntryId) (o : Option ℕ) (k : ExpiryKey) (index : List ExpiryKey)
    → contains k (add_expiry id o index)
      ≡ ite
          (EntryId-discrete id k.id)
          (is_time k.expires_at_ms o || contains k index)
          (contains k index)
unfolding add_expiry is_time
contains-add_expiry id none k index = ground arith
contains-add_expiry id (some t) k index =
    ground (arith, contains-insert (record { expires_at_ms = t; id = id }) k index)

add_expiry-IsSorted :
    (id : EntryId) (o : Option ℕ) (index : List ExpiryKey)
    → IsSorted index
    → IsSorted (add_expiry id o index)
unfolding add_expiry
add_expiry-IsSorted id none index h = h
add_expiry-IsSorted id (some t) index h = insert-IsSorted _ index h

add_expiry-IsSeparate :
    (id : EntryId) (o : Option ℕ) (index : List ExpiryKey)
    → IsFree id index
    → IsSeparate index
    → IsSeparate (add_expiry id o index)
unfolding add_expiry
add_expiry-IsSeparate id none index f h = h
add_expiry-IsSeparate id (some t) index f h = insert-IsSeparate _ index f h

-- The entry that `store_entry` builds.
unfoldable pub stored_entry : ℕ → ℕ → PutCommand → Engine → Entry
stored_entry now_ms bytes command s = record {
  value = command.value;
  expires_at_ms = expiry_time now_ms command.ttl;
  stale_until_ms = stale_time (expiry_time now_ms command.ttl) command.stale_ttl;
  tags = command.tags;
  cost = command.cost;
  memory_bytes = bytes;
  last_access = s.next_access;
}

pub entries-store_entry :
    (now_ms : ℕ) (id : EntryId) (bytes : ℕ) (command : PutCommand) (s : Engine)
    → (store_entry now_ms id bytes command s).entries
      ≡ Map.insert id (stored_entry now_ms bytes command s) s.entries
unfolding store_entry stored_entry
entries-store_entry now_ms id bytes command s = refl

module _ (now_ms : ℕ) (command : PutCommand) {s : Engine} (c : IsValid s)
    (absent : get (id_of command) s.entries ≡ none)
    (room : over_limit (bytes_of command) s ≡ false) where
  after : Engine
  after = store_entry now_ms (id_of command) (bytes_of command) command s

  total_after :
      (f : EntryId → Entry → ℕ)
      → total f after.entries
        ≡ f (id_of command) (stored_entry now_ms (bytes_of command) command s) + total f s.entries
  unfolding after Map.insert total store_entry stored_entry
  total_after f = rw (remove_absent (id_of command) s.entries absent)

  fits : s.memory_used_bytes + bytes_of command ≤ s.limits.max_memory_bytes
  unfolding over_limit saturating_add
  fits = ground (arith, room, c.word, c.bounded)

  stored-indexed :
      (t : TagId) (j : EntryId) → contains j (ids_of t after.tag_index) ≡ tagged t j after.entries
  unfolding after store_entry tagged stored_entry
  stored-indexed t j = ground (
    arith,
    absent,
    c.indexed t j,
    get-insert (id_of command) j (stored_entry now_ms (bytes_of command) command s) s.entries,
    contains-add_tags t (id_of command) j command.tags s.tag_index,
  )

  stored-scheduled :
      (k : ExpiryKey)
      → contains k after.expiry_index ≡ (removable k after.entries && not (contains k.id []))
  unfolding after store_entry removable stored_entry contains
  stored-scheduled k = ground (
    arith,
    absent,
    c.scheduled k,
    get-insert (id_of command) k.id (stored_entry now_ms (bytes_of command) command s) s.entries,
    contains-add_expiry (id_of command)
        (removable_at_ms (expiry_time now_ms command.ttl)
          (stale_time (expiry_time now_ms command.ttl) command.stale_ttl))
        k s.expiry_index,
  )

  free : IsFree (id_of command) s.expiry_index
  unfolding removable
  free = IsFree-of_contains (id_of command) s.expiry_index (λ at_ms.
      ground (arith, absent, c.scheduled (record { expires_at_ms = at_ms; id = id_of command })))

  Distinct-after : Distinct after.entries
  unfolding after store_entry
  Distinct-after = insert-Distinct (id_of command) _ s.entries c.distinct

  sized_after :
      (j : EntryId) (e : Entry)
      → get j after.entries ≡ some e
      → e.memory_bytes ≡ estimate_entry_memory j e.value e.tags
  unfolding after store_entry stored_entry
  sized_after j e h = ground (
    arith,
    h,
    c.sized j e,
    get-insert (id_of command) j (stored_entry now_ms (bytes_of command) command s) s.entries,
  )

  used_after : after.memory_used_bytes ≡ s.memory_used_bytes + bytes_of command
  unfolding after store_entry
  used_after = saturating_add_exact _ _ (omega (arith, fits, c.word))

  accounted_after : after.memory_used_bytes ≡ total size_of after.entries
  unfolding stored_entry
  accounted_after = omega (arith, used_after, c.accounted, total_after size_of)

  costed_after : after.cost_score_total ≤ total cost_in after.entries
  unfolding after store_entry stored_entry
  costed_after = omega (
    arith,
    c.costed,
    total_after cost_in,
    (saturating_add_bounds s.cost_score_total
        (cost_of (stored_entry now_ms (bytes_of command) command s))).0,
  )

  IsSorted-after : IsSorted after.expiry_index
  unfolding after store_entry
  IsSorted-after = add_expiry-IsSorted _ _ s.expiry_index c.sorted

  IsSeparate-after : IsSeparate after.expiry_index
  unfolding after store_entry
  IsSeparate-after = add_expiry-IsSeparate _ _ s.expiry_index free c.separate

  limits_after : after.limits ≡ s.limits
  unfolding after store_entry
  limits_after = refl

  pub store_entry-IsValid :
      IsValid (store_entry now_ms (id_of command) (bytes_of command) command s)
  unfolding after
  store_entry-IsValid = record {
    distinct = Distinct-after;
    sized = sized_after;
    accounted = accounted_after;
    bounded = rw used_after (rw limits_after fits);
    word = rw limits_after c.word;
    costed = costed_after;
    indexed = stored-indexed;
    scheduled = stored-scheduled;
    sorted = IsSorted-after;
    separate = IsSeparate-after;
  }
