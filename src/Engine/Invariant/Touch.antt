-- ===== src/Engine/Invariant/Touch.antt =====
-- A change of `last_access` in src/engine.rs keeps the invariant.
use cachebox.Prelude.{ℕ, ◌≡◌, refl, some, arith}
use cachebox.Prelude.Map.{Assoc, Distinct, get, total, get-insert, insert-Distinct, total-remove}
use cachebox.Prelude.Map
use cachebox.Engine.Types.{EntryId, Entry, Engine, entry_key, tag_key, expiry_key, text_key}
use cachebox.Engine.Invariant.{tagged, removable, size_of, cost_in, IsValid}

-- The engine with the entry of `id` accessed.
abbrev pub touched : EntryId → Entry → ℕ → ℕ → Engine → Engine
touched id e access next s = record s {
  next_access = next;
  entries = Map.insert id (record e { last_access = access }) s.entries;
}

module _ (id : EntryId) (e : Entry) (access next : ℕ) {s : Engine} (c : IsValid s)
    (found : get id s.entries ≡ some e) where
  total-touched :
      (f : EntryId → Entry → ℕ)
      → f id (record e { last_access = access }) ≡ f id e
      → total f (touched id e access next s).entries ≡ total f s.entries
  unfolding total Map.insert
  total-touched f same = omega (arith, same, total-remove f id e s.entries c.distinct found)

  pub touched-IsValid : IsValid (touched id e access next s)
  unfolding tagged removable
  touched-IsValid = record {
    distinct = insert-Distinct id _ s.entries c.distinct;
    sized = λ j d h. ground (
      arith,
      h,
      found,
      c.sized j d,
      c.sized id e found,
      get-insert id j (record e { last_access = access }) s.entries,
    );
    accounted = omega (arith, c.accounted, total-touched size_of refl);
    bounded = c.bounded;
    word = c.word;
    costed = omega (arith, c.costed, total-touched cost_in refl);
    indexed = λ t j. ground (
      arith,
      found,
      c.indexed t j,
      get-insert id j (record e { last_access = access }) s.entries,
    );
    scheduled = λ k. ground (
      arith,
      found,
      c.scheduled k,
      get-insert id k.id (record e { last_access = access }) s.entries,
    );
    sorted = c.sorted;
    separate = c.separate;
  }
