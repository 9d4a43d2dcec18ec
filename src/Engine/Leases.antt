-- ===== src/Engine/Leases.antt =====
-- What the leases of src/engine.rs promise.
use cachebox.Prelude.{
  if_pos, if_neg, ite, ℕ, ◌≤◌, ◌≡◌, ◌∙◌, ◌≢◌, inl, inr, Bool, true, false, Option, none, some, List,
  [], ◌∷◌, arith, Option-cases, is_some, All, saturating_add,
}
use cachebox.Prelude.Map.{get, get-insert}
use cachebox.Engine.Types.{
  Bytes, Text, EntryId, EntryState, missing, fresh, stale, expired, Lease, Engine,
  StartLeaseOutcome, lease_granted, lease_denied, GetOutcome, miss, entry_key, tag_key, expiry_key,
  text_key, EntryId-discrete,
}
use cachebox.Engine.Entry.{entry_state_at}
use cachebox.Engine.Store.{Clock, remove_entry, bump_access}
use cachebox.Engine.Read.{entry_id}
use cachebox.Engine.Lease.{
  lease_token, active_lease, entry_state, record_access, create_lease, grant,
  start_lease_for_missing, start_in_state, start_lease, value_of,
}
use cachebox.Engine.View.{view}
use cachebox.Engine.Invariant.Remove.{leases-remove_entry, next_access-remove_entry}

-- Who may refresh: the outcome that the view of the key and the lease on it call for.
unfoldable pub lease_outcome : Bool → GetOutcome → Text → StartLeaseOutcome
lease_outcome active (GetOutcome.hit value) token = StartLeaseOutcome.hit value
lease_outcome true (GetOutcome.stale value) token = StartLeaseOutcome.stale value
lease_outcome false (GetOutcome.stale value) token = lease_granted token (some value)
lease_outcome true miss token = lease_denied
lease_outcome false miss token = lease_granted token none

-- The token is that of the counter, which an access to a stale value has moved on.
unfoldable pub next_token : GetOutcome → Engine → Text
next_token (GetOutcome.stale value) s = lease_token (saturating_add s.next_access 1)
next_token _ s = lease_token s.next_access

abbrev pub is_grant : StartLeaseOutcome → Bool
is_grant (lease_granted token stale_value) = true
is_grant _ = false

grant_elsewhere :
    (now_ms : ℕ) (id j : EntryId) (ttl : ℕ) (v : Option Bytes) (s : Engine)
    → id ≢ j
    → get j (grant now_ms id ttl v s).0.leases ≡ get j s.leases
unfolding grant create_lease
grant_elsewhere now_ms id j ttl v s ne = ground (
  arith,
  ne,
  get-insert id j
      (record { token = lease_token s.next_access; expires_at_ms = saturating_add now_ms ttl })
      s.leases,
)

module _ (now_ms : ℕ) (namespace : Text) (key : Bytes) (lease_ttl_ms : ℕ) (s : Engine) where
  -- With one reading of the clock, `start_lease` answers by the view of the key and by whether a lease on it is
  -- active: a fresh value is a hit, else an active lease denies (or serves stale) and otherwise a lease with the
  -- next token is granted.
  pub start_lease_lem :
      (start_lease (λ _. now_ms) namespace key lease_ttl_ms s).1
      ≡ lease_outcome
          (is_some (active_lease now_ms (entry_id namespace key) s))
          (view now_ms (entry_id namespace key) s)
          (next_token (view now_ms (entry_id namespace key) s) s)
  unfolding start_lease start_in_state start_lease_for_missing value_of entry_state record_access
      grant create_lease lease_outcome next_token view entry_state_at active_lease bump_access
  start_lease_lem = elim (Option-cases (get (entry_id namespace key) s.entries)) [
    | inl gone ↦ ground (arith, gone)
    | inr (e, found) ↦ ground (
      arith,
      found,
      get-insert (entry_id namespace key) (entry_id namespace key)
          (record e { last_access = s.next_access }) s.entries,
      leases-remove_entry (entry_id namespace key) (entry_id namespace key) s,
      next_access-remove_entry (entry_id namespace key) s,
    )
  ]

leases-record_access : (id : EntryId) (s : Engine) → (record_access id s).leases ≡ s.leases
unfolding record_access bump_access
leases-record_access id s = ground arith

-- On another key than its own a lease stays.
elsewhere_in_state :
    (clock : Clock) (id j : EntryId) (ttl : ℕ) (active : Bool) (state : EntryState) (s : Engine)
    → id ≢ j
    → get j (start_in_state clock id ttl active state s).0.leases ≡ get j s.leases
unfolding start_in_state start_lease_for_missing
elsewhere_in_state clock id j ttl active fresh s ne = ground (
  arith,
  ne,
  leases-record_access id s,
  grant_elsewhere (clock 3) id j ttl none (record_access id s),
)
elsewhere_in_state clock id j ttl active stale s ne =
    let t = record_access id s in
    ground (
      arith,
      ne,
      leases-record_access id s,
      grant_elsewhere (clock 3) id j ttl none t,
      grant_elsewhere (clock 3) id j ttl (value_of id t) t,
    )
elsewhere_in_state clock id j ttl active expired s ne = ground (
  arith,
  ne,
  leases-remove_entry id j s,
  grant_elsewhere (clock 3) id j ttl none (remove_entry id s).0,
)
elsewhere_in_state clock id j ttl active missing s ne =
    ground (arith, ne, grant_elsewhere (clock 3) id j ttl none s)

-- On its own key an active lease stays, and there is no other grant.
own_in_state :
    (clock : Clock) (id : EntryId) (ttl : ℕ) (lease : Lease) (s : Engine)
    → get id s.leases ≡ some lease
    → ((i : ℕ) → clock i ≤ lease.expires_at_ms)
    → (get id (start_in_state clock id ttl true (entry_state (clock 1) id s) s).0.leases
        ≡ some lease)
      × (is_grant (start_in_state clock id ttl true (entry_state (clock 1) id s) s).1 ≡ false)
unfolding start_in_state start_lease_for_missing entry_state active_lease entry_state_at
    record_access bump_access value_of
own_in_state clock id ttl lease s held early = elim (Option-cases (get id s.entries)) [
  | inl gone ↦ (ground (arith, gone, held, early 2), ground (arith, gone, held, early 2))
  | inr (e, found) ↦
      let again = get-insert id id (record e { last_access = s.next_access }) s.entries in
      (ground (arith, found, held, again), ground (arith, found, held, again))
]

active_lease_of :
    (now_ms : ℕ) (id : EntryId) (lease : Lease) (s : Engine)
    → get id s.leases ≡ some lease
    → now_ms ≤ lease.expires_at_ms
    → active_lease now_ms id s ≡ some lease
unfolding active_lease
active_lease_of now_ms id lease s held early = ground (arith, held)

-- One request for a lease: the readings of the clock, and the arguments.
pub record StartCall : Type 0 where
  pub clock : Clock
  pub namespace : Text
  pub key : Bytes
  pub lease_ttl_ms : ℕ

abbrev pub id_called : StartCall → EntryId
id_called call = entry_id call.namespace call.key

-- The requests of all clients, in the order in which the engine takes them.
unfoldable pub start_all : List StartCall → Engine → Engine × List StartLeaseOutcome
start_all [] s = (s, [])
start_all (call ∷ calls) s =
    let (s', outcome) = start_lease call.clock call.namespace call.key call.lease_ttl_ms s in
    let (s'', outcomes) = start_all calls s' in (s'', outcome ∷ outcomes)

-- None of the requests for `id` is granted.
abbrev pub NoGrant : EntryId → List StartCall → List StartLeaseOutcome → Type 0
NoGrant id [] outcomes = Unit
NoGrant id (call ∷ calls) [] = Unit
NoGrant id (call ∷ calls) (outcome ∷ outcomes) =
    (ite (EntryId-discrete (id_called call) id) (is_grant outcome) false ≡ false)
    × NoGrant id calls outcomes

own_step :
    (call : StartCall) (lease : Lease) (s : Engine)
    → get (id_called call) s.leases ≡ some lease
    → ((i : ℕ) → call.clock i ≤ lease.expires_at_ms)
    → (get
          (id_called call)
          (start_lease call.clock call.namespace call.key call.lease_ttl_ms s).0.leases
        ≡ some lease)
      × (is_grant (start_lease call.clock call.namespace call.key call.lease_ttl_ms s).1 ≡ false)
unfolding start_lease
own_step call lease s held early =
    rw (active_lease_of (call.clock 0) (id_called call) lease s held (early 0))
      (own_in_state call.clock (id_called call) call.lease_ttl_ms lease s held early)

start_lease_step :
    (call : StartCall) (id : EntryId) (lease : Lease) (s : Engine)
    → get id s.leases ≡ some lease
    → ((i : ℕ) → call.clock i ≤ lease.expires_at_ms)
    → (get id (start_lease call.clock call.namespace call.key call.lease_ttl_ms s).0.leases
        ≡ some lease)
      × (id_called call ≡ id
          → is_grant (start_lease call.clock call.namespace call.key call.lease_ttl_ms s).1 ≡ false)
unfolding start_lease
start_lease_step call id lease s held early = elim (EntryId-discrete (id_called call) id) [
  | yes p ↦ let own = own_step call lease s (rw (← p) at held) early in (rw (← p) own.0, λ e. own.1)
  | no n ↦ (
    elsewhere_in_state call.clock (id_called call) id call.lease_ttl_ms _ _ s n ∙ held,
    λ e. absurd (n e),
  )
]

denied_called :
    (call : StartCall) (id : EntryId) (outcome : StartLeaseOutcome)
    → (id_called call ≡ id → is_grant outcome ≡ false)
    → ite (EntryId-discrete (id_called call) id) (is_grant outcome) false ≡ false
denied_called call id outcome denied = elim (EntryId-discrete (id_called call) id) [
  | yes same ↦
      rw (if_pos (EntryId-discrete (id_called call) id) same (is_grant outcome) false) (denied same)
  | no other ↦ if_neg (EntryId-discrete (id_called call) id) other (is_grant outcome) false
]

-- Where a lease is recorded and no request of a sequence of requests for leases reads a clock after its end,
-- none of the requests for its key is granted, and the lease is still recorded after them.
pub lease_exclusive :
    (calls : List StartCall) (id : EntryId) (lease : Lease) (s : Engine)
    → get id s.leases ≡ some lease
    → All (λ call. (i : ℕ) → call.clock i ≤ lease.expires_at_ms) calls
    → (get id (start_all calls s).0.leases ≡ some lease) × NoGrant id calls (start_all calls s).1
unfolding start_all
lease_exclusive [] id lease s held early = (held, tt)
lease_exclusive (call ∷ calls) id lease s held early =
    let step = start_lease_step call id lease s held early.0 in
    let rest =
      lease_exclusive calls id lease
        (start_lease call.clock call.namespace call.key call.lease_ttl_ms s).0 step.0 early.1 in
    (rest.0, (denied_called call id _ step.1, rest.1))
