-- ===== src/Engine/Lease.antt =====
-- The leases of src/engine.rs.
pub mod Tokens
use cachebox.Prelude.{
  ℕ, zero, suc, ◌+◌, ◌/◌, ◌%◌, Bool, Option, none, some, [], ◌∷◌, ◌++◌, Result, ok, err, ltb, leb,
  if◌then◌else◌, is_some, saturating_add, ite,
}
use cachebox.Prelude.Map.{get}
use cachebox.Prelude.Map
use cachebox.Engine.Types.{
  Bytes, Text, EntryId, EntryState, missing, fresh, expired, Lease, Engine, PutCommand, PutOutcome,
  PutError, CompleteLeaseCommand, CompleteLeaseError, invalid_lease_token, put_failed,
  StartLeaseOutcome, lease_granted, lease_denied, Text-discrete, entry_key,
}
use cachebox.Engine.Entry.{entry_state_at}
use cachebox.Engine.Hashing.{Hashing}
use cachebox.Engine.Store.{Clock, remove_entry, put, bump_access}
use cachebox.Engine.Read.{entry_id}

-- The decimal digits of a number, as `format!` prints it: 20 digits hold every `u64`.
unfoldable pub digits : ℕ → ℕ → Text
digits zero n = []
digits (suc fuel) n =
    let more = digits fuel (n / 10) ++ ((b'0' + n % 10) ∷ []) in
    if ltb n 10 then (b'0' + n) ∷ [] else more

unfoldable pub decimal : ℕ → Text
unfolding digits
decimal n = digits 20 n

-- `format!("lease-{}", n)`
unfoldable pub lease_token : ℕ → Text
lease_token n = b'l' ∷ b'e' ∷ b'a' ∷ b's' ∷ b'e' ∷ b'-' ∷ decimal n

unfoldable pub active_lease : ℕ → EntryId → Engine → Option Lease
active_lease now_ms id s = elim (get id s.leases) [
  | none ↦ none
  | some lease ↦ if leb now_ms lease.expires_at_ms then some lease else none
]

unfoldable pub entry_state : ℕ → EntryId → Engine → EntryState
entry_state now_ms id s = elim (get id s.entries) [
  | none ↦ missing
  | some entry ↦ entry_state_at entry now_ms
]

unfoldable pub record_access : EntryId → Engine → Engine
record_access id s = elim (get id s.entries) [
  | none ↦ s
  | some entry ↦
      let (s', access) = bump_access s in
      record s' { entries = Map.insert id (record entry { last_access = access }) s'.entries }
]

unfoldable pub create_lease : ℕ → EntryId → ℕ → Engine → Engine × Text
create_lease now_ms id lease_ttl_ms s =
    let token = lease_token s.next_access in
    (
      record s {
        next_access = saturating_add s.next_access 1;
        leases =
            Map.insert id
              (record { token = token; expires_at_ms = saturating_add now_ms lease_ttl_ms })
              s.leases;
      },
      token,
    )

-- `LeaseGranted` with the token of a new lease
unfoldable pub grant : ℕ → EntryId → ℕ → Option Bytes → Engine → Engine × StartLeaseOutcome
unfolding create_lease
grant now_ms id lease_ttl_ms stale_value s =
    let (s', token) = create_lease now_ms id lease_ttl_ms s in (s', lease_granted token stale_value)

unfoldable pub start_lease_for_missing : Clock → EntryId → ℕ → Engine → Engine × StartLeaseOutcome
start_lease_for_missing clock id lease_ttl_ms s =
    if is_some (active_lease (clock 0) id s)
    then (s, lease_denied)
    else grant (clock 1) id lease_ttl_ms none s

-- `StartLeaseOutcome::Stale` with `stale_value.unwrap_or_default()`
abbrev pub or_default : Option Bytes → Bytes
or_default none = []
or_default (some value) = value

unfoldable pub value_of : EntryId → Engine → Option Bytes
value_of id s = elim (get id s.entries) [ none ↦ none | some entry ↦ some entry.value ]

-- The `match` of `start_lease`, on the state of the entry.
unfoldable pub start_in_state :
    Clock → EntryId → ℕ → Bool → EntryState → Engine → Engine × StartLeaseOutcome
start_in_state clock id lease_ttl_ms has_active_lease fresh s =
    let s' = record_access id s in
    elim (value_of id s') [
      | some value ↦ (s', StartLeaseOutcome.hit value)
      | none ↦ grant (clock 3) id lease_ttl_ms none s'
    ]
start_in_state clock id lease_ttl_ms has_active_lease EntryState.stale s =
    let s' = record_access id s in
    let stale_value = value_of id s' in
    if has_active_lease
    then (s', StartLeaseOutcome.stale (or_default stale_value))
    else grant (clock 3) id lease_ttl_ms stale_value s'
start_in_state clock id lease_ttl_ms has_active_lease expired s =
    if has_active_lease
    then (s, lease_denied)
    else start_lease_for_missing (λ i. clock (i + 2)) id lease_ttl_ms (remove_entry id s).0
start_in_state clock id lease_ttl_ms has_active_lease missing s =
    start_lease_for_missing (λ i. clock (i + 2)) id lease_ttl_ms s

unfoldable pub start_lease : Clock → Text → Bytes → ℕ → Engine → Engine × StartLeaseOutcome
start_lease clock namespace key lease_ttl_ms s =
    let id = entry_id namespace key in
    start_in_state clock id lease_ttl_ms (is_some (active_lease (clock 0) id s))
      (entry_state (clock 1) id s) s

abbrev pub put_of : CompleteLeaseCommand → PutCommand
put_of command = record {
  namespace = command.namespace;
  key = command.key;
  value = command.value;
  ttl = command.ttl;
  stale_ttl = command.stale_ttl;
  tags = command.tags;
  cost = command.cost;
}

-- `map_err(CompleteLeaseError::Put)`
abbrev pub map_err : Result PutError PutOutcome → Result CompleteLeaseError PutOutcome
map_err (ok outcome) = ok outcome
map_err (err error) = err (put_failed error)

module _ (h : Hashing) where
  unfoldable pub complete_lease :
      Clock → CompleteLeaseCommand → Engine → Engine × Result CompleteLeaseError PutOutcome
  complete_lease clock command s =
      let id = entry_id command.namespace command.key in
      let s' = record s { leases = Map.remove id s.leases } in
      elim (active_lease (clock 0) id s) [
        | none ↦ (s', err invalid_lease_token)
        | some lease ↦
            ite (Text-discrete lease.token command.lease_token)
              (let (s'', result) = put h (λ i. clock (i + 1)) (put_of command) s' in
                (s'', map_err result))
              (s, err invalid_lease_token)
      ]
