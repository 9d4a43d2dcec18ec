-- ===== src/Engine/Writes.antt =====
-- What `put` of src/engine.rs promises.
use cachebox.Prelude.{
  ℕ, ◌+◌, ◌≤◌, ◌<◌, ◌≡◌, ap, ◌≢◌, ◌⊎◌, inl, inr, none, some, arith, ltb, ltb→lt, ltb→le, Bool-cases,
  ok, err, length, u64_max, saturating_add,
}
use cachebox.Prelude.Map.{get, get-insert}
use cachebox.Engine.Types.{
  Entry, EntryId, Engine, PutCommand, value_too_large, value_too_large_for_memory, entry_key,
  tag_key, expiry_key, text_key,
}
use cachebox.Engine.Hashing.{Hashing}
use cachebox.Engine.Entry.{entry_state_at, expiry_time, stale_time}
use cachebox.Engine.Store.{Clock, make_room, store_entry, put, id_of, bytes_of}
use cachebox.Engine.View.{entry_view, view, aged_view}
use cachebox.Engine.Invariant.{IsValid}
use cachebox.Engine.Invariant.Shrink.{
  make_room-IsValid, make_room-Shrinks, make_room-absent, make_room-fits,
}
use cachebox.Engine.Invariant.Stored.{stored_entry, entries-store_entry, store_entry-IsValid}

-- The command is within both limits.
abbrev pub Fits : PutCommand → Engine → Type 0
Fits command s =
    (length command.value ≤ s.limits.max_value_bytes)
    × (bytes_of command ≤ s.limits.max_memory_bytes)

view-stored :
    (age now_ms bytes : ℕ) (command : PutCommand) (s : Engine)
    → now_ms + age ≤ u64_max
    → entry_view (now_ms + age) (some (stored_entry now_ms bytes command s)) ≡ aged_view command age
unfolding view aged_view stored_entry entry_state_at expiry_time stale_time saturating_add
view-stored age now_ms bytes command s times = ground arith

module _ (h : Hashing) (clock : Clock) (command : PutCommand) (s : Engine) where
  roomy : Engine
  roomy = (make_room h (clock 1) (id_of command) (bytes_of command) s).0

  stored : Engine
  stored = store_entry (clock 0) (id_of command) (bytes_of command) command roomy

  put-Fits :
      IsValid s
      → Fits command s
      → put h clock command s ≡ (
        stored,
        ok (record { evicted = (make_room h (clock 1) (id_of command) (bytes_of command) s).1 }),
      )
  unfolding put roomy stored
  put-Fits c fits = ground (
    arith,
    fits.0,
    fits.1,
    make_room-fits h (clock 1) (id_of command) (bytes_of command) s c fits.1,
  )

  -- On a valid engine a put succeeds exactly when the command is within both limits. A value over its limit is
  -- refused, else an entry over the memory limit is refused, and a refusal leaves the engine as it was. So
  -- `InsufficientMemory` is never returned.
  pub put_outcome :
      IsValid s
      → (Fits command s
          × ((evicted : ℕ) × ((put h clock command s).1 ≡ ok (record { evicted = evicted }))))
        ⊎ ((s.limits.max_value_bytes < length command.value)
            × (put h clock command s
                ≡ (s, err (value_too_large (length command.value) s.limits.max_value_bytes))))
        ⊎ ((length command.value ≤ s.limits.max_value_bytes)
            × (s.limits.max_memory_bytes < bytes_of command)
            × (put h clock command s ≡ (
              s,
              err (value_too_large_for_memory (bytes_of command) s.limits.max_memory_bytes),
            )))
  unfolding put
  put_outcome c = elim (Bool-cases (ltb s.limits.max_value_bytes (length command.value))) [
    | inl large ↦ inr (inl (ltb→lt _ _ large, rw large))
    | inr small ↦ elim (Bool-cases (ltb s.limits.max_memory_bytes (bytes_of command))) [
      | inl large ↦ inr (inr (ltb→le _ _ small, ltb→lt _ _ large, rw small (rw large)))
      | inr fits ↦
          let both : Fits command s = (ltb→le _ _ small, ltb→le _ _ fits) in
          inl (
            both,
            (
              (make_room h (clock 1) (id_of command) (bytes_of command) s).1,
              ap (λ r. r.1) (put-Fits c both),
            ),
          )
    ]
  ]

  stored-IsValid : IsValid s → Fits command s → IsValid stored
  unfolding stored roomy
  stored-IsValid c fits =
      store_entry-IsValid (clock 0) command
        (make_room-IsValid h (clock 1) (id_of command) (bytes_of command) s c)
        (make_room-absent h (clock 1) (id_of command) (bytes_of command) s)
        (make_room-fits h (clock 1) (id_of command) (bytes_of command) s c fits.1)

  -- From a valid engine a put, refused or not, leads to a valid engine.
  pub put-IsValid : IsValid s → IsValid (put h clock command s).0
  put-IsValid c = elim (put_outcome c) [
    | inl (fits, _) ↦ rw (put-Fits c fits) (stored-IsValid c fits)
    | inr (inl (_, same)) ↦ rw same c
    | inr (inr (_, _, same)) ↦ rw same c
  ]

  get-put_self :
      IsValid s
      → Fits command s
      → get (id_of command) (put h clock command s).0.entries
        ≡ some (stored_entry (clock 0) (bytes_of command) command roomy)
  unfolding stored
  get-put_self c fits = rw (put-Fits c fits) (
      rw entries-store_entry (
        ground (
          arith,
          get-insert (id_of command) (id_of command)
              (stored_entry (clock 0) (bytes_of command) command roomy) roomy.entries,
        )))

  -- What is stored carries the tags of the command.
  pub tags-put :
      IsValid s
      → Fits command s
      → (e : Entry) × (get (id_of command) (put h clock command s).0.entries ≡ some e)
        × (e.tags ≡ command.tags)
  unfolding stored_entry
  tags-put c fits = (
    stored_entry (clock 0) (bytes_of command) command roomy,
    get-put_self c fits,
    λ i. command.tags,
  )

  get-put_ne :
      (j : EntryId)
      → id_of command ≢ j
      → IsValid s
      → Fits command s
      → get j (put h clock command s).0.entries ≡ get j roomy.entries
  unfolding stored
  get-put_ne j ne c fits = rw (put-Fits c fits) (
      rw entries-store_entry (
        ground (
          arith,
          ne,
          get-insert (id_of command) j (stored_entry (clock 0) (bytes_of command) command roomy)
              roomy.entries,
        )))

  -- On a valid engine, whatever the outcome of a put, an entry under another key is as it was, or was taken
  -- away.
  pub put-others :
      (j : EntryId)
      → id_of command ≢ j
      → IsValid s
      → (get j (put h clock command s).0.entries ≡ get j s.entries)
        ⊎ (get j (put h clock command s).0.entries ≡ none)
  unfolding roomy
  put-others j ne c = elim (put_outcome c) [
    | inl (fits, _) ↦ ground (
      arith,
      get-put_ne j ne c fits,
      (make_room-Shrinks h (clock 1) (id_of command) (bytes_of command) s).kept j,
    )
    | inr (inl (_, same)) ↦ inl (rw same)
    | inr (inr (_, _, same)) ↦ inl (rw same)
  ]

  -- On a valid engine, after a put of a command within both limits, the key reads as the fresh and stale windows
  -- of the command say, counted from the reading of the clock that the put took, at every time that fits a
  -- word, also where the end of a window does not.
  pub view-put :
      (age : ℕ)
      → IsValid s
      → Fits command s
      → clock 0 + age ≤ u64_max
      → view (clock 0 + age) (id_of command) (put h clock command s).0 ≡ aged_view command age
  unfolding view
  view-put age c fits times =
      rw (get-put_self c fits) (view-stored age (clock 0) (bytes_of command) command roomy times)

  -- A put gives no lease.
  pub put-unleased :
      (j : EntryId)
      → IsValid s
      → get j s.leases ≡ none
      → get j (put h clock command s).0.leases ≡ none
  unfolding stored roomy store_entry
  put-unleased j c free = elim (put_outcome c) [
    | inl (fits, _) ↦
        rw (put-Fits c fits)
          ((make_room-Shrinks h (clock 1) (id_of command) (bytes_of command) s).unleased j free)
    | inr (inl (_, same)) ↦ rw same free
    | inr (inr (_, _, same)) ↦ rw same free
  ]
