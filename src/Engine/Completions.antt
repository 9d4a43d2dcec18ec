-- ===== src/Engine/Completions.antt =====
-- How a lease of src/engine.rs is granted, completed and lost.
use cachebox.Prelude.{
  ℕ, ◌+◌, ◌≤◌, ◌≡◌, sym, ap, ◌∙◌, ◌≢◌, inl, inr, if_pos, if_neg, Bool, true, false, Option, none,
  some, arith, Bool-cases, Option-cases, err, is_some, u64_max, saturating_add,
}
use cachebox.Prelude.Map.{Assoc, get, get-insert, get-remove}
use cachebox.Prelude.Map
use cachebox.Engine.Types.{
  Bytes, Text, EntryId, Entry, EntryState, missing, fresh, stale, expired, Lease, Engine,
  CompleteLeaseCommand, invalid_lease_token, lease_granted, entry_key, tag_key, expiry_key,
  text_key, Text-discrete,
}
use cachebox.Engine.Hashing.{Hashing}
use cachebox.Engine.Entry.{entry_state_at}
use cachebox.Engine.Store.{Clock, remove_entry, put, bump_access}
use cachebox.Engine.Read.{entry_id, get_value, get_ref, get_ref_inner, read_entry}
use cachebox.Engine.Lease.{
  lease_token, active_lease, record_access, create_lease, grant, start_lease_for_missing,
  start_in_state, start_lease, value_of, complete_lease, put_of, map_err,
}
use cachebox.Engine.Lease.Tokens.{lease_token-injective}
use cachebox.Engine.Invariant.{IsValid}
use cachebox.Engine.Invariant.Remove.{
  IsConsistent-rest, remove_entry-IsConsistent, leases-remove_entry,
}
use cachebox.Engine.Invariant.Touch.{touched-IsValid}
use cachebox.Engine.Writes.{put-IsValid, put-unleased}

record_access-IsValid : (id : EntryId) (s : Engine) → IsValid s → IsValid (record_access id s)
unfolding record_access bump_access
record_access-IsValid id s c = elim (Option-cases (get id s.entries)) [
  | inl gone ↦ rw (gone, record_access) c
  | inr (e, found) ↦
      rw (found, record_access)
        (touched-IsValid id e s.next_access (saturating_add s.next_access 1) c found)
]

grant-IsValid :
    (now_ms : ℕ) (id : EntryId) (ttl : ℕ) (v : Option Bytes) (s : Engine)
    → IsValid s
    → IsValid (grant now_ms id ttl v s).0
unfolding grant create_lease
grant-IsValid now_ms id ttl v s c = IsConsistent-rest _ _ _ c

missing-IsValid :
    (clock : Clock) (id : EntryId) (ttl : ℕ) (s : Engine)
    → IsValid s
    → IsValid (start_lease_for_missing clock id ttl s).0
unfolding start_lease_for_missing
missing-IsValid clock id ttl s c = elim (Bool-cases (is_some (active_lease (clock 0) id s))) [
  | inl active ↦ rw active c
  | inr free ↦ rw free (grant-IsValid (clock 1) id ttl none s c)
]

start_in_state-IsValid :
    (clock : Clock) (id : EntryId) (ttl : ℕ) (active : Bool) (state : EntryState) (s : Engine)
    → IsValid s
    → IsValid (start_in_state clock id ttl active state s).0
unfolding start_in_state
start_in_state-IsValid clock id ttl active fresh s c =
    elim (Option-cases (value_of id (record_access id s))) [
      | inl gone ↦
          rw (gone, start_in_state)
            (grant-IsValid (clock 3) id ttl none (record_access id s)
              (record_access-IsValid id s c))
      | inr (v, there) ↦ rw (there, start_in_state) (record_access-IsValid id s c)
    ]
start_in_state-IsValid clock id ttl true stale s c = record_access-IsValid id s c
start_in_state-IsValid clock id ttl false stale s c =
    grant-IsValid (clock 3) id ttl _ (record_access id s) (record_access-IsValid id s c)
start_in_state-IsValid clock id ttl true expired s c = c
start_in_state-IsValid clock id ttl false expired s c =
    missing-IsValid _ id ttl _ (remove_entry-IsConsistent id c)
start_in_state-IsValid clock id ttl true missing s c = missing-IsValid _ id ttl s c
start_in_state-IsValid clock id ttl false missing s c = missing-IsValid _ id ttl s c

-- From a valid engine a request for a lease leads to a valid engine.
pub start_lease-IsValid :
    (clock : Clock) (namespace : Text) (key : Bytes) (ttl : ℕ) (s : Engine)
    → IsValid s
    → IsValid (start_lease clock namespace key ttl s).0
unfolding start_lease
start_lease-IsValid clock namespace key ttl s c =
    start_in_state-IsValid clock (entry_id namespace key) ttl _ _ s c

module _ (h : Hashing) (clock : Clock) (command : CompleteLeaseCommand) (s : Engine) where
  -- The engine without the lease that the command names.
  abbrev pub unleased : Engine
  unleased = record s { leases = Map.remove (entry_id command.namespace command.key) s.leases }

  pub completes :
      (lease : Lease)
      → active_lease (clock 0) (entry_id command.namespace command.key) s ≡ some lease
      → lease.token ≡ command.lease_token
      → complete_lease h clock command s ≡ (
        (put h (λ i. clock (i + 1)) (put_of command) unleased).0,
        map_err (put h (λ i. clock (i + 1)) (put_of command) unleased).1,
      )
  unfolding complete_lease
  completes lease active same =
      rw (active, complete_lease) (if_pos (Text-discrete lease.token command.lease_token) same _ _)

  pub rejects :
      (lease : Lease)
      → active_lease (clock 0) (entry_id command.namespace command.key) s ≡ some lease
      → lease.token ≢ command.lease_token
      → complete_lease h clock command s ≡ (s, err invalid_lease_token)
  unfolding complete_lease
  rejects lease active other =
      rw (active, complete_lease) (if_neg (Text-discrete lease.token command.lease_token) other _ _)

  pub inactive :
      active_lease (clock 0) (entry_id command.namespace command.key) s ≡ none
      → complete_lease h clock command s ≡ (unleased, err invalid_lease_token)
  unfolding complete_lease
  inactive none_active = rw (none_active, complete_lease)

  -- From a valid engine the completion of a lease, refused or not, leads to a valid engine.
  pub complete_lease-IsValid : IsValid s → IsValid (complete_lease h clock command s).0
  complete_lease-IsValid c =
      let id = entry_id command.namespace command.key in
      let c' : IsValid unleased =
        IsConsistent-rest (Map.remove id s.leases) s.next_access s.stats c in
      elim (Option-cases (active_lease (clock 0) id s)) [
        | inl free ↦ rw (inactive free) c'
        | inr (lease, active) ↦ elim (Text-discrete lease.token command.lease_token) [
          | yes same ↦
              rw (completes lease active same)
                (put-IsValid h (λ i. clock (i + 1)) (put_of command) unleased c')
          | no other ↦ rw (rejects lease active other) c
        ]
      ]

  -- On a valid engine, a completion that is not refused for its token uses the lease up: none is left on the
  -- key.
  pub complete_lease_once :
      IsValid s
      → (complete_lease h clock command s).1 ≢ err invalid_lease_token
      → get (entry_id command.namespace command.key) (complete_lease h clock command s).0.leases
        ≡ none
  complete_lease_once c accepted =
      let id = entry_id command.namespace command.key in
      let c' : IsValid unleased =
        IsConsistent-rest (Map.remove id s.leases) s.next_access s.stats c in
      elim (Option-cases (active_lease (clock 0) id s)) [
        | inl free ↦ absurd (accepted (ap (λ r. r.1) (inactive free)))
        | inr (lease, active) ↦ elim (Text-discrete lease.token command.lease_token) [
          | yes same ↦ rw (completes lease active same) (
              put-unleased h (λ i. clock (i + 1)) (put_of command) unleased id c'
                (ground (arith, get-remove id id s.leases)))
          | no other ↦ absurd (accepted (ap (λ r. r.1) (rejects lease active other)))
        ]
      ]

-- Where a lease is active under the token of one 64-bit counter, a completion with the token of another counter
-- is refused, and the engine is as it was.
pub complete_lease_outdated :
    (h : Hashing) (clock : Clock) (command : CompleteLeaseCommand) (s : Engine) (lease : Lease)
    (old new : ℕ)
    → old ≤ u64_max
    → new ≤ u64_max
    → old ≢ new
    → command.lease_token ≡ lease_token old
    → lease.token ≡ lease_token new
    → active_lease (clock 0) (entry_id command.namespace command.key) s ≡ some lease
    → complete_lease h clock command s ≡ (s, err invalid_lease_token)
complete_lease_outdated h clock command s lease old new ho hn ne told tnew active =
    rejects h clock command s lease active
      (λ e. ne (sym (lease_token-injective new old hn ho (sym tnew ∙ (e ∙ told)))))

grant_recorded :
    (now_ms : ℕ) (id : EntryId) (ttl : ℕ) (w : Option Bytes) (s : Engine) (token : Text)
    (v : Option Bytes)
    → (grant now_ms id ttl w s).1 ≡ lease_granted token v
    → get id (grant now_ms id ttl w s).0.leases
      ≡ some (record { token = token; expires_at_ms = saturating_add now_ms ttl })
unfolding grant create_lease
grant_recorded now_ms id ttl w s token v granted = ground (
  arith,
  granted,
  get-insert id id
      (record { token = lease_token s.next_access; expires_at_ms = saturating_add now_ms ttl })
      s.leases,
)

recorded_in_state :
    (now_ms : ℕ) (id : EntryId) (ttl : ℕ) (active : Bool) (state : EntryState) (s : Engine)
    (token : Text) (v : Option Bytes)
    → (start_in_state (λ _. now_ms) id ttl active state s).1 ≡ lease_granted token v
    → get id (start_in_state (λ _. now_ms) id ttl active state s).0.leases
      ≡ some (record { token = token; expires_at_ms = saturating_add now_ms ttl })
unfolding start_in_state start_lease_for_missing
recorded_in_state now_ms id ttl active fresh s token v granted =
    ground (arith, granted, grant_recorded now_ms id ttl none (record_access id s) token v)
recorded_in_state now_ms id ttl active stale s token v granted = ground (
  arith,
  granted,
  grant_recorded now_ms id ttl (value_of id (record_access id s)) (record_access id s) token v,
)
recorded_in_state now_ms id ttl active expired s token v granted =
    ground (arith, granted, grant_recorded now_ms id ttl none (remove_entry id s).0 token v)
recorded_in_state now_ms id ttl active missing s token v granted =
    ground (arith, granted, grant_recorded now_ms id ttl none s token v)

-- With one reading of the clock, a lease that is granted is recorded under the key, with the token that was
-- returned and an end that counts from the reading.
pub start_lease_recorded :
    (now_ms : ℕ) (namespace : Text) (key : Bytes) (ttl : ℕ) (s : Engine) {token : Text}
    {stale_value : Option Bytes}
    → (start_lease (λ _. now_ms) namespace key ttl s).1 ≡ lease_granted token stale_value
    → get (entry_id namespace key) (start_lease (λ _. now_ms) namespace key ttl s).0.leases
      ≡ some (record { token = token; expires_at_ms = saturating_add now_ms ttl })
unfolding start_lease
start_lease_recorded now_ms namespace key ttl s {token} {stale_value} granted =
    recorded_in_state now_ms (entry_id namespace key) ttl _ _ s token stale_value granted

-- A read of an entry that is stored and has expired leaves no active lease on its key, whatever lease was
-- active before.
pub expired_read_drops_lease :
    (now_ms : ℕ) (namespace : Text) (key : Bytes) (e : Entry) (s : Engine)
    → get (entry_id namespace key) s.entries ≡ some e
    → entry_state_at e now_ms ≡ expired
    → active_lease now_ms (entry_id namespace key) (get_value now_ms namespace key s).0 ≡ none
unfolding get_value get_ref get_ref_inner read_entry active_lease
expired_read_drops_lease now_ms namespace key e s found old =
    ground
      (arith, found, old, leases-remove_entry (entry_id namespace key) (entry_id namespace key) s)
