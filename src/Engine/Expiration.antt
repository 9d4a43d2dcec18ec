-- ===== src/Engine/Expiration.antt =====
-- What a cleanup of expired entries does (`reclaim_expired_budget` of src/engine.rs).
use cachebox.Prelude.{
  ℕ, ◌+◌, ◌≤◌, ◌<◌, ◌≡◌, ◌⊎◌, inl, inr, true, Option, none, some, List, arith, if◌then◌else◌,
  Bool-cases, Option-cases, is_some, length,
}
use cachebox.Prelude.Map.{get}
use cachebox.Prelude.Set.{contains}
use cachebox.Engine.Types.{
  EntryId, ExpiryKey, Entry, Engine, entry_key, tag_key, expiry_key, text_key,
}
use cachebox.Engine.Entry.{removable_at_ms}
use cachebox.Engine.Expiry.{pop_expired}
use cachebox.Engine.Expiry.Pop.{
  contains-pop_expired, length-pop_expired, pop_expired-due, pop_expired_complete,
  pop_expired-Apart, All-of_contains,
}
use cachebox.Engine.Store.{remove_expired, reclaim_expired_budget}
use cachebox.Engine.Invariant.{removable, IsValid}
use cachebox.Engine.Invariant.Reclaim.{
  get-expire_all, expire_all-count, length-expire_all, popped-IsConsistent,
}

-- When the entry becomes removable: the end of its stale window, or else of its fresh window.
abbrev pub removal_time : Entry → Option ℕ
removal_time e = removable_at_ms e.expires_at_ms e.stale_until_ms

module _ (now_ms max_entries : ℕ) (s : Engine) (valid : IsValid s) where
  due : List EntryId
  due = (pop_expired now_ms max_entries s.expiry_index).0

  get_after :
      (id : EntryId)
      → get id (reclaim_expired_budget now_ms max_entries s).0.entries
        ≡ (if contains id due then none else get id s.entries)
  unfolding reclaim_expired_budget remove_expired due
  get_after id =
      get-expire_all due
        (record s { expiry_index = (pop_expired now_ms max_entries s.expiry_index).1 }) 0 id

  due_stored :
      (id : EntryId)
      → contains id due ≡ true
      → (e : Entry) × (at_ms : ℕ) × (get id s.entries ≡ some e)
        × (removal_time e ≡ some at_ms)
        × (at_ms ≤ now_ms)
  unfolding due removable contains
  due_stored id h =
      let (at_ms, there, le) = pop_expired-due now_ms max_entries id s.expiry_index h in
      elim (Option-cases (get id s.entries)) [
        | inl gone ↦ absurd (
            ground
              (arith, gone, there, valid.scheduled (record { expires_at_ms = at_ms; id = id })))
        | inr (e, found) ↦ (
          e,
          at_ms,
          found,
          ground (arith, found, there, valid.scheduled (record { expires_at_ms = at_ms; id = id })),
          le,
        )
      ]

  count_due : (reclaim_expired_budget now_ms max_entries s).1 ≡ length due
  unfolding reclaim_expired_budget remove_expired due
  count_due = omega (
    arith,
    expire_all-count due
        (record s { expiry_index = (pop_expired now_ms max_entries s.expiry_index).1 }) 0
        (pop_expired-Apart now_ms max_entries s.expiry_index valid.separate)
        (All-of_contains (λ id. is_some (get id s.entries) ≡ true) due
          λ id h. let (e, at_ms, found, time, le) = due_stored id h in rw found),
  )

  -- On a valid engine a cleanup leaves an entry as it was, or the entry was removable at the time of the cleanup
  -- and is gone.
  pub reclaim_sound :
      (id : EntryId)
      → (get id (reclaim_expired_budget now_ms max_entries s).0.entries ≡ get id s.entries)
        ⊎ ((e : Entry) × (at_ms : ℕ) × (get id s.entries ≡ some e)
            × (removal_time e ≡ some at_ms)
            × (at_ms ≤ now_ms)
            × (get id (reclaim_expired_budget now_ms max_entries s).0.entries ≡ none))
  reclaim_sound id = elim (Bool-cases (contains id due)) [
    | inl left ↦
        let (e, at_ms, found, time, le) = due_stored id left in
        inr (e, at_ms, found, time, le, ground (arith, left, get_after id))
    | inr stays ↦ inl (ground (arith, stays, get_after id))
  ]

  -- On a valid engine a cleanup returns how many entries it removed, at most its budget.
  pub reclaim_count :
      ((reclaim_expired_budget now_ms max_entries s).1 ≤ max_entries)
      × (length (reclaim_expired_budget now_ms max_entries s).0.entries
            + (reclaim_expired_budget now_ms max_entries s).1
          ≡ length s.entries)
  unfolding reclaim_expired_budget remove_expired due
  reclaim_count = (
    omega (arith, count_due, length-pop_expired now_ms max_entries s.expiry_index),
    omega (
      arith,
      length-expire_all (pop_expired now_ms max_entries s.expiry_index).0
          (record s { expiry_index = (pop_expired now_ms max_entries s.expiry_index).1 }) 0
          (popped-IsConsistent now_ms max_entries valid),
    ),
  )

  -- On a valid engine, after a cleanup that did not use its budget up, every entry that is left and can expire
  -- becomes removable later than the time of the cleanup.
  pub reclaim_complete :
      (id : EntryId) (e : Entry) (at_ms : ℕ)
      → (reclaim_expired_budget now_ms max_entries s).1 < max_entries
      → get id (reclaim_expired_budget now_ms max_entries s).0.entries ≡ some e
      → removal_time e ≡ some at_ms
      → now_ms < at_ms
  unfolding due removable contains
  reclaim_complete id e at_ms room found time =
      let k : ExpiryKey = record { expires_at_ms = at_ms; id = id } in
      pop_expired_complete now_ms max_entries k s.expiry_index valid.sorted
        (omega (arith, count_due))
        (ground (
          arith,
          found,
          time,
          get_after id,
          valid.scheduled k,
          contains-pop_expired now_ms max_entries k s.expiry_index valid.separate,
        ))
