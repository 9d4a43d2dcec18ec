-- ===== src/Engine/Costs/Stores.antt =====
-- `put` and the leases of src/engine.rs keep the cost counter right.
use cachebox.Prelude.{
  ℕ, min, ap, ◌+◌, ◌≡◌, refl, inl, inr, Bool, true, false, Option, some, none, arith, Option-cases,
  Bool-cases, ltb, length, is_some, saturating_add, u64_max,
}
use cachebox.Prelude.Map.{Assoc, Distinct, get, total, insert-Distinct, remove_absent}
use cachebox.Prelude.Map
use cachebox.Bytes.{Bytes, Text}
use cachebox.Engine.Types.{
  EntryId, Entry, EntryState, missing, fresh, stale, expired, Engine, PutCommand,
  CompleteLeaseCommand, Text-discrete, entry_key, tag_key, expiry_key, text_key,
}
use cachebox.Engine.Hashing.{Hashing}
use cachebox.Engine.Store.{
  Clock, over_limit, bump_access, make_room, store_entry, put, id_of, bytes_of,
}
use cachebox.Engine.Read.{entry_id}
use cachebox.Engine.Lease.{
  active_lease, record_access, value_of, create_lease, grant, start_lease_for_missing,
  start_in_state, start_lease, put_of, complete_lease,
}
use cachebox.Engine.Invariant.{cost_in}
use cachebox.Engine.Invariant.Shrink.{make_room-absent}
use cachebox.Engine.Writes.{put-IsValid}
use cachebox.Engine.Completions.{unleased, completes, rejects, inactive}
use cachebox.Engine.Costs.{
  IsCounted, IsCounted-rest, IsAccounted, IsAccounted-counts, IsAccounted-of,
}
use cachebox.Engine.Costs.Removals.{remove_entry-IsCounted, touched-IsCounted, make_room-IsCounted}

-- What a command costs
abbrev pub cost_stored : Option ℕ → ℕ
cost_stored none = 0
cost_stored (some cost) = cost

more-IsCounted : (n more : ℕ) (s : Engine) → IsCounted n s → IsCounted (n + more) s
more-IsCounted n more s c = record {
  distinct = c.distinct;
  upper = c.upper;
  within = omega (arith, c.within);
  lower = omega (arith, c.lower);
}

module _ (now_ms bytes : ℕ) (command : PutCommand) (s : Engine)
    (absent : get (id_of command) s.entries ≡ none) where
  after : Engine
  after = store_entry now_ms (id_of command) bytes command s

  total_after : total cost_in after.entries ≡ cost_stored command.cost + total cost_in s.entries
  unfolding after store_entry total Map.insert bump_access
  total_after =
      ap (λ (m : Assoc EntryId Entry). cost_stored command.cost + total cost_in m)
        (remove_absent (id_of command) s.entries absent)

  score_after : after.cost_score_total ≡ min (s.cost_score_total + cost_stored command.cost) u64_max
  unfolding after store_entry saturating_add bump_access
  score_after = refl

  Distinct-after : (n : ℕ) → IsCounted n s → Distinct after.entries
  unfolding after store_entry bump_access
  Distinct-after n c = insert-Distinct (id_of command) _ s.entries c.distinct

  store_entry-IsCounted :
      (n : ℕ)
      → IsCounted n s
      → IsCounted
          (n + cost_stored command.cost)
          (store_entry now_ms (id_of command) bytes command s)
  unfolding after
  store_entry-IsCounted n c = record {
    distinct = Distinct-after n c;
    upper = omega (arith, total_after, score_after, c.upper);
    within = omega (arith, total_after, c.within);
    lower = omega (arith, total_after, score_after, c.lower, c.within);
  }

module _ (h : Hashing) (clock : Clock) (n : ℕ) where
  pub put-IsCounted :
      (command : PutCommand) (s : Engine)
      → IsCounted n s
      → IsCounted (n + cost_stored command.cost) (put h clock command s).0
  unfolding put
  put-IsCounted command s c =
      let keep = more-IsCounted n (cost_stored command.cost) in
      let room = make_room-IsCounted h (clock 1) (id_of command) (bytes_of command) s c in
      elim (Bool-cases (ltb s.limits.max_value_bytes (length command.value))) [
        | inl large ↦ rw large (keep s c)
        | inr small ↦ elim (Bool-cases (ltb s.limits.max_memory_bytes (bytes_of command))) [
          | inl large ↦ rw small (rw large (keep s c))
          | inr fits ↦
              let roomy = (make_room h (clock 1) (id_of command) (bytes_of command) s).0 in
              elim (Bool-cases (over_limit (bytes_of command) roomy)) [
                | inl over ↦ rw small (rw fits (rw over (keep roomy room)))
                | inr under ↦ rw small (
                    rw fits (
                      rw under (
                        store_entry-IsCounted (clock 0) (bytes_of command) command roomy
                          (make_room-absent h (clock 1) (id_of command) (bytes_of command) s) n
                          room)))
              ]
        ]
      ]

  -- From a valid engine a put, refused or not, leads to a valid engine: the indices, the sizes and the memory
  -- counter say what the entries say. And where the sum of the costs of the entries was at most the costs ever
  -- stored, and the cost counter at most that sum and short of it by no more than what the costs ever stored exceed
  -- the largest word by, it is so after the put, with the cost of the command among those stored.
  pub put-IsAccounted :
      (command : PutCommand) (s : Engine)
      → IsAccounted n s
      → IsAccounted (n + cost_stored command.cost) (put h clock command s).0
  put-IsAccounted command s a =
      IsAccounted-of (put-IsValid h clock command s a.valid)
        (put-IsCounted command s (IsAccounted-counts a))

record_access-IsCounted :
    {n : ℕ} (id : EntryId) (s : Engine) → IsCounted n s → IsCounted n (record_access id s)
unfolding record_access bump_access
record_access-IsCounted id s c = elim (Option-cases (get id s.entries)) [
  | inl gone ↦ rw (gone, record_access) c
  | inr (e, found) ↦
      rw (found, record_access)
        (touched-IsCounted id e s.next_access (saturating_add s.next_access 1) s found c)
]

missing-IsCounted :
    {n : ℕ} (clock : Clock) (id : EntryId) (ttl : ℕ) (s : Engine)
    → IsCounted n s
    → IsCounted n (start_lease_for_missing clock id ttl s).0
unfolding start_lease_for_missing grant create_lease
missing-IsCounted clock id ttl s c = elim (Bool-cases (is_some (active_lease (clock 0) id s))) [
  | inl active ↦ rw active c
  | inr free ↦ rw free (IsCounted-rest _ refl refl c)
]

start_in_state-IsCounted :
    {n : ℕ} (clock : Clock) (id : EntryId) (ttl : ℕ) (active : Bool) (state : EntryState)
    (s : Engine)
    → IsCounted n s
    → IsCounted n (start_in_state clock id ttl active state s).0
unfolding start_in_state grant create_lease
start_in_state-IsCounted clock id ttl active fresh s c =
    let c' = record_access-IsCounted id s c in
    elim (Option-cases (value_of id (record_access id s))) [
      | inl gone ↦ rw (gone, start_in_state) (IsCounted-rest _ refl refl c')
      | inr (v, there) ↦ rw (there, start_in_state) c'
    ]
start_in_state-IsCounted clock id ttl true stale s c = record_access-IsCounted id s c
start_in_state-IsCounted clock id ttl false stale s c =
    IsCounted-rest _ refl refl (record_access-IsCounted id s c)
start_in_state-IsCounted clock id ttl true expired s c = c
start_in_state-IsCounted clock id ttl false expired s c =
    missing-IsCounted _ id ttl _ (remove_entry-IsCounted id s c)
start_in_state-IsCounted clock id ttl true missing s c = missing-IsCounted _ id ttl s c
start_in_state-IsCounted clock id ttl false missing s c = missing-IsCounted _ id ttl s c

pub start_lease-IsCounted :
    {n : ℕ} (clock : Clock) (namespace : Text) (key : Bytes) (ttl : ℕ) (s : Engine)
    → IsCounted n s
    → IsCounted n (start_lease clock namespace key ttl s).0
unfolding start_lease
start_lease-IsCounted clock namespace key ttl s c =
    start_in_state-IsCounted clock (entry_id namespace key) ttl _ _ s c

module _ (h : Hashing) (clock : Clock) (command : CompleteLeaseCommand) (s : Engine) where
  pub complete_lease-IsCounted :
      (n : ℕ)
      → IsCounted n s
      → IsCounted (n + cost_stored command.cost) (complete_lease h clock command s).0
  complete_lease-IsCounted n c =
      let id = entry_id command.namespace command.key in
      let keep = more-IsCounted n (cost_stored command.cost) in
      let c' = IsCounted-rest (unleased h clock command s) refl refl c in
      elim (Option-cases (active_lease (clock 0) id s)) [
        | inl free ↦ rw (inactive h clock command s free) (keep (unleased h clock command s) c')
        | inr (lease, active) ↦ elim (Text-discrete lease.token command.lease_token) [
          | yes same ↦ rw (completes h clock command s lease active same) (
              put-IsCounted h (λ i. clock (i + 1)) n (put_of command) (unleased h clock command s)
                c')
          | no other ↦ rw (rejects h clock command s lease active other) (keep s c)
        ]
      ]
