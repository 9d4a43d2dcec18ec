-- ===== src/Engine/View.antt =====
-- The abstract view of the engine of src/engine.rs: what a client can read under a key at a time.
use cachebox.Prelude.{ℕ, ◌+◌, Option, none, some, leb, if◌then◌else◌}
use cachebox.Prelude.Map.{get}
use cachebox.Engine.Types.{
  Bytes, Ttl, EntryId, Entry, EntryState, fresh, stale, expired, Engine, PutCommand, GetOutcome,
  miss, entry_key, tag_key, expiry_key, text_key,
}
use cachebox.Engine.Entry.{entry_state_at}

outcome_of : Entry → EntryState → GetOutcome
outcome_of e fresh = GetOutcome.hit e.value
outcome_of e stale = GetOutcome.stale e.value
outcome_of e _ = miss

unfoldable pub entry_view : ℕ → Option Entry → GetOutcome
unfolding outcome_of
entry_view now_ms none = miss
entry_view now_ms (some e) = outcome_of e (entry_state_at e now_ms)

-- A fresh value, a stale value, or nothing.
unfoldable pub view : ℕ → EntryId → Engine → GetOutcome
unfolding entry_view
view now_ms id s = entry_view now_ms (get id s.entries)

-- The state of an entry once its fresh and stale windows are measured from the write.
unfoldable pub age_state : Option Ttl → Option Ttl → ℕ → EntryState
age_state none stale_ttl age = fresh
age_state (some ttl) none age = if leb age ttl.milliseconds then fresh else expired
age_state (some ttl) (some stale_ttl) age =
    if leb age ttl.milliseconds
    then fresh
    else if leb age (ttl.milliseconds + stale_ttl.milliseconds)
    then stale
    else expired

value_view : Bytes → EntryState → GetOutcome
value_view value fresh = GetOutcome.hit value
value_view value stale = GetOutcome.stale value
value_view value _ = miss

-- What a client reads `age` milliseconds after a `put`.
unfoldable pub aged_view : PutCommand → ℕ → GetOutcome
unfolding value_view age_state
aged_view command age = value_view command.value (age_state command.ttl command.stale_ttl age)
