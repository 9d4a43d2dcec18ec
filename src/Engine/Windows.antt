-- ===== src/Engine/Windows.antt =====
-- What a read of src/engine.rs returns and changes, by the windows of the entry.
use cachebox.Prelude.{
  ℕ, ◌≤◌, ◌<◌, ◌≡◌, ◌⊎◌, Option, refl, inl, inr, none, some, [], arith, Option-cases,
  saturating_add,
}
use cachebox.Prelude.Map.{Assoc, get, get-insert, get-remove}
use cachebox.Prelude.Map
use cachebox.Engine.Types.{
  Bytes, Text, EntryId, Entry, EntryState, fresh, stale, expired, Engine, GetOutcome, miss,
  entry_key, tag_key, expiry_key, text_key,
}
use cachebox.Engine.Entry.{entry_state_at}
use cachebox.Engine.Store.{remove_entry}
use cachebox.Engine.Read.{entry_id, touch_entry, read_entry, get_ref_inner, get_ref, get_value}

-- The windows of an entry at a time: the fresh one, with its last millisecond, or for ever; the stale one after
-- it, if there is one; and the time after both.
abbrev pub IsFreshAt : ℕ → Option ℕ → Type 0
IsFreshAt now_ms none = Unit
IsFreshAt now_ms (some expires_at) = now_ms ≤ expires_at

abbrev pub IsStaleAt : ℕ → Option ℕ → Option ℕ → Type 0
IsStaleAt now_ms (some expires_at) (some stale_until) =
    (expires_at < now_ms) × (now_ms ≤ stale_until)
IsStaleAt now_ms _ _ = ⊥

abbrev pub IsPastAt : ℕ → Option ℕ → Option ℕ → Type 0
IsPastAt now_ms none _ = ⊥
IsPastAt now_ms (some expires_at) none = expires_at < now_ms
IsPastAt now_ms (some expires_at) (some stale_until) =
    (expires_at < now_ms) × (stale_until < now_ms)

abbrev state_of : ℕ → Option ℕ → Option ℕ → EntryState
state_of now_ms expires_at_ms stale_until_ms =
    entry_state_at
      (record {
        value = [];
        expires_at_ms = expires_at_ms;
        stale_until_ms = stale_until_ms;
        tags = [];
        cost = none;
        memory_bytes = 0;
        last_access = 0;
      })
      now_ms

times :
    (now_ms : ℕ) (x y : Option ℕ)
    → (IsFreshAt now_ms x × (state_of now_ms x y ≡ fresh))
      ⊎ (IsStaleAt now_ms x y × (state_of now_ms x y ≡ stale))
      ⊎ (IsPastAt now_ms x y × (state_of now_ms x y ≡ expired))
unfolding entry_state_at
times now_ms none y = inl (tt, refl)
times now_ms (some x) none = ground arith
times now_ms (some x) (some y) = ground arith

-- The entry with the next number of access
abbrev pub accessed_last : EntryId → Entry → Engine → Engine
accessed_last id e s = record s {
  next_access = saturating_add s.next_access 1;
  entries = Map.insert id (record e { last_access = s.next_access }) s.entries;
}

state_cases :
    (now_ms : ℕ) (e : Entry)
    → (IsFreshAt now_ms e.expires_at_ms × (entry_state_at e now_ms ≡ fresh))
      ⊎ (IsStaleAt now_ms e.expires_at_ms e.stale_until_ms × (entry_state_at e now_ms ≡ stale))
      ⊎ (IsPastAt now_ms e.expires_at_ms e.stale_until_ms × (entry_state_at e now_ms ≡ expired))
unfolding entry_state_at
state_cases now_ms e = times now_ms e.expires_at_ms e.stale_until_ms

-- A read of a key that is not stored changes nothing and returns nothing. A read of an entry returns its value in
-- the fresh window, its stale value in the stale window after it, both to their last millisecond, and in both
-- cases only makes the entry the one that was accessed last; after the windows it returns nothing and removes the
-- entry.
pub get_value_windows :
    (now_ms : ℕ) (namespace : Text) (key : Bytes) (s : Engine)
    → ((get (entry_id namespace key) s.entries ≡ none)
        × (get_value now_ms namespace key s ≡ (s, miss)))
      ⊎ ((e : Entry) × (get (entry_id namespace key) s.entries ≡ some e)
          × ((IsFreshAt now_ms e.expires_at_ms
                × (get_value now_ms namespace key s
                    ≡ (accessed_last (entry_id namespace key) e s, GetOutcome.hit e.value)))
              ⊎ (IsStaleAt now_ms e.expires_at_ms e.stale_until_ms
                  × (get_value now_ms namespace key s
                      ≡ (accessed_last (entry_id namespace key) e s, GetOutcome.stale e.value)))
              ⊎ (IsPastAt now_ms e.expires_at_ms e.stale_until_ms
                  × (get_value now_ms namespace key s
                      ≡ ((remove_entry (entry_id namespace key) s).0, miss)))))
unfolding get_value get_ref get_ref_inner read_entry touch_entry
get_value_windows now_ms namespace key s =
    elim (Option-cases (get (entry_id namespace key) s.entries)) [
      | inl gone ↦ inl (gone, rw (gone, get_ref_inner) refl)
      | inr (e, found) ↦ inr (
        e,
        found,
        elim (state_cases now_ms e) [
          | inl (at, state) ↦ inl (at, rw (found, get_ref_inner) (rw state refl))
          | inr (inl (at, state)) ↦ inr (inl (at, rw (found, get_ref_inner) (rw state refl)))
          | inr (inr (at, state)) ↦ inr (inr (at, rw (found, get_ref_inner) (rw state refl)))
        ],
      )
    ]
