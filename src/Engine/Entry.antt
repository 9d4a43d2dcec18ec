-- ===== src/Engine/Entry.antt =====
-- What src/engine.rs computes from one entry: its size, its state at a time, its removal time.
use cachebox.Prelude.{
  ℕ, Option, none, some, List, map, length, sum, leb, if◌then◌else◌, saturating_add,
}
use cachebox.Engine.Types.{
  Bytes, Text, Ttl, EntryId, TagId, Entry, EntryState, fresh, stale, expired,
}

abbrev pub entry_overhead_bytes : ℕ
entry_overhead_bytes = 96

unfoldable pub estimate_entry_memory : EntryId → Bytes → List Text → ℕ
estimate_entry_memory id value tags =
    saturating_add
      (saturating_add
        (saturating_add (saturating_add entry_overhead_bytes (length id.namespace)) (length id.key))
        (length value))
      (sum (map length tags))

unfoldable pub tag_ids : Text → List Text → List TagId
tag_ids namespace tags = map (λ tag. record { namespace = namespace; tag = tag }) tags

-- `stale_until_ms.or(expires_at_ms)`
unfoldable pub removable_at_ms : Option ℕ → Option ℕ → Option ℕ
removable_at_ms expires_at_ms none = expires_at_ms
removable_at_ms expires_at_ms (some stale_until) = some stale_until

state_at : Option ℕ → Option ℕ → ℕ → EntryState
state_at none _ now_ms = fresh
state_at (some expires_at) none now_ms = if leb now_ms expires_at then fresh else expired
state_at (some expires_at) (some stale_until) now_ms =
    if leb now_ms expires_at then fresh else if leb now_ms stale_until then stale else expired

unfoldable pub entry_state_at : Entry → ℕ → EntryState
unfolding state_at
entry_state_at entry now_ms = state_at entry.expires_at_ms entry.stale_until_ms now_ms

-- The two times that `put` stores, from the reading of the clock.
unfoldable pub expiry_time : ℕ → Option Ttl → Option ℕ
expiry_time now_ms none = none
expiry_time now_ms (some ttl) = some (saturating_add now_ms ttl.milliseconds)

unfoldable pub stale_time : Option ℕ → Option Ttl → Option ℕ
stale_time (some expires_at) (some stale_ttl) =
    some (saturating_add expires_at stale_ttl.milliseconds)
stale_time _ _ = none
