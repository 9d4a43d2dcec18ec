-- ===== src/Engine/Tests.antt =====
-- Runs of the engine of src/engine.rs at concrete inputs.
use cachebox.Prelude.{
  ℕ, ◌+◌, ◌≤◌, ◌<◌, ◌≡◌, refl, ap, ◌≢◌, ◌⊎◌, ite, none, some, List, [], ◌∷◌, arith, if◌then◌else◌,
  ok, err, is_some, length, saturating_add,
}
use cachebox.Prelude.Map.{Assoc, get}
use cachebox.Prelude.Map
use cachebox.Engine.Types.{
  Bytes, Text, EntryId, Entry, expired, EngineLimits, Lease, Engine, PutCommand, value_too_large,
  value_too_large_for_memory, CompleteLeaseCommand, invalid_lease_token, lease_granted, GetOutcome,
  miss, Text-discrete, EntryId-discrete, entry_key, tag_key, expiry_key, text_key,
}
use cachebox.Engine.Entry.{
  estimate_entry_memory, entry_state_at, removable_at_ms, expiry_time, stale_time,
}
use cachebox.Engine.Expiry.{pop_expired}
use cachebox.Engine.Expiry
use cachebox.Engine.Hashing.{Hashing}
use cachebox.Engine.Store.{
  Clock, new_engine, put, id_of, bytes_of, reclaim_expired_budget, remove_expired, expire_all,
  make_room, evict_until_fits, evict_loop, over_limit, remove_entry, forget_entry, store_entry,
  add_expiry, bump_access,
}
use cachebox.Engine.Read.{get_value, delete, batch_get, invalidate_tag}
use cachebox.Engine.Lease.{
  lease_token, decimal, active_lease, entry_state, record_access, create_lease, grant,
  start_lease_for_missing, value_of, start_in_state, start_lease, complete_lease,
}
use cachebox.Engine.Invariant.{IsValid, tagged}
use cachebox.Engine.Invariant.Initial.{new_engine-IsValid}
use cachebox.Engine.Invariant.Untag.{get-invalidate_tag}
use cachebox.Engine.View.{view, aged_view}
use cachebox.Engine.Writes.{Fits, put_outcome, put-IsValid, put-others, view-put}
use cachebox.Engine.Windows.{IsFreshAt, IsStaleAt, IsPastAt, accessed_last, get_value_windows}
use cachebox.Engine.Reads.{views, batch_get-views, delete_lem}
use cachebox.Engine.Leases.{
  lease_outcome, next_token, start_lease_lem, StartCall, start_all, NoGrant, lease_exclusive,
}
use cachebox.Engine.Completions.{
  start_lease-IsValid, complete_lease_once, complete_lease_outdated, start_lease_recorded,
  expired_read_drops_lease,
}
use cachebox.Prelude.Map.{total}
use cachebox.Engine.Invariant.{cost_in}
use cachebox.Engine.Costs.{IsAccounted, counter_exact}
use cachebox.Engine.Costs.Stores.{put-IsAccounted}
use cachebox.Engine.Reachable.{Step, Reach, costs_asked, reachable-IsAccounted}
use cachebox.Engine.Expiration.{removal_time, reclaim_sound, reclaim_complete}

-- Tables that iterate in the order of the model, and a constant hash.
abbrev plain : Hashing
plain = record {
  entry_order = λ entries. entries;
  get-entry_order = λ entries id distinct. refl;
  id_order = λ ids. ids;
  contains-id_order = λ ids id. refl;
  index_order = λ indices. indices;
  contains-index_order = λ indices i. refl;
  hash = λ namespace key. 0;
}

abbrev ticking : Clock
ticking i = 1000 + i

abbrev ns : Text
ns = b'n' ∷ []

abbrev hot : Text
hot = b'h' ∷ []

abbrev page : PutCommand
page = record {
  namespace = ns;
  key = 1 ∷ [];
  value = 7 ∷ 8 ∷ 9 ∷ [];
  ttl = some (record { milliseconds = 50 });
  stale_ttl = some (record { milliseconds = 20 });
  tags = hot ∷ [];
  cost = some 2;
}

abbrev pinned : PutCommand
pinned = record page { key = 2 ∷ []; ttl = none; stale_ttl = none; tags = []; cost = none }

abbrev small_limits : EngineLimits
small_limits = record { max_memory_bytes = 250; max_value_bytes = 16 }

abbrev start : Engine
start = new_engine small_limits

start-IsValid : IsValid start
start-IsValid = new_engine-IsValid small_limits (omega arith)

abbrev one : Engine
one = (put plain ticking page start).0

one-IsValid : IsValid one
one-IsValid = put-IsValid plain ticking page start start-IsValid

abbrev two : Engine
two = (put plain ticking pinned one).0

start-IsAccounted : IsAccounted 0 start
unfolding new_engine total
start-IsAccounted = record { valid = start-IsValid; within = omega arith; counted = omega arith }

-- The page costs 2.
one-IsAccounted : IsAccounted 2 one
one-IsAccounted = put-IsAccounted plain ticking 0 page start start-IsAccounted

put-IsAccounted_example : IsAccounted (2 + 0) two
put-IsAccounted_example = put-IsAccounted plain ticking 2 pinned one one-IsAccounted

one_counts : one.cost_score_total ≡ total cost_in one.entries
one_counts = counter_exact 2 one one-IsAccounted (omega arith)

abbrev one_read_run : Reach plain start (get_value 1010 ns (1 ∷ []) one).0
one_read_run =
    Reach.next (Reach.next Reach.here (Step.puts ticking page)) (Step.gets 1010 ns (1 ∷ []))

reachable-IsAccounted_example :
    IsAccounted (costs_asked one_read_run) (get_value 1010 ns (1 ∷ []) one).0
reachable-IsAccounted_example =
    reachable-IsAccounted plain small_limits (get_value 1010 ns (1 ∷ []) one).0 (omega arith)
      one_read_run

page-Fits : Fits page start
unfolding new_engine estimate_entry_memory saturating_add
page-Fits = (omega arith, omega arith)

abbrev page_entry : Entry
page_entry = record {
  value = 7 ∷ 8 ∷ 9 ∷ [];
  expires_at_ms = some 1050;
  stale_until_ms = some 1070;
  tags = hot ∷ [];
  cost = some 2;
  memory_bytes = 102;
  last_access = 0;
}

one_read : get (id_of page) one.entries ≡ some page_entry
unfolding put new_engine estimate_entry_memory make_room saturating_add remove_entry
    evict_until_fits evict_loop over_limit store_entry Map.insert Map.get expiry_time stale_time
    Map.remove EntryId-discrete
one_read = refl

put_outcome_example :
    (Fits page start
      × ((evicted : ℕ) × ((put plain ticking page start).1 ≡ ok (record { evicted = evicted }))))
    ⊎ ((16 < length page.value)
        × (put plain ticking page start ≡ (start, err (value_too_large (length page.value) 16))))
    ⊎ ((length page.value ≤ 16)
        × (250 < bytes_of page)
        × (put plain ticking page start
            ≡ (start, err (value_too_large_for_memory (bytes_of page) 250))))
unfolding new_engine
put_outcome_example = put_outcome plain ticking page start start-IsValid

pinned_apart : id_of pinned ≢ id_of page
pinned_apart e = ground (arith, ap (λ (i : EntryId). i.key) e)

put-others_example :
    (get (id_of page) two.entries ≡ get (id_of page) one.entries)
    ⊎ (get (id_of page) two.entries ≡ none)
put-others_example = put-others plain ticking pinned one (id_of page) pinned_apart one-IsValid

-- 60 ms after the put the value is stale.
view-put_example : view 1060 (id_of page) one ≡ aged_view page 60
view-put_example = view-put plain ticking page start 60 start-IsValid page-Fits (omega arith)

view_60 : aged_view page 60 ≡ GetOutcome.stale (7 ∷ 8 ∷ 9 ∷ [])
unfolding aged_view
view_60 = refl

get_value_windows_example :
    ((get (id_of page) one.entries ≡ none) × (get_value 1060 ns (1 ∷ []) one ≡ (one, miss)))
    ⊎ ((e : Entry) × (get (id_of page) one.entries ≡ some e)
        × ((IsFreshAt 1060 e.expires_at_ms
              × (get_value 1060 ns (1 ∷ []) one
                  ≡ (accessed_last (id_of page) e one, GetOutcome.hit e.value)))
            ⊎ (IsStaleAt 1060 e.expires_at_ms e.stale_until_ms
                × (get_value 1060 ns (1 ∷ []) one
                    ≡ (accessed_last (id_of page) e one, GetOutcome.stale e.value)))
            ⊎ (IsPastAt 1060 e.expires_at_ms e.stale_until_ms
                × (get_value 1060 ns (1 ∷ []) one ≡ ((remove_entry (id_of page) one).0, miss)))))
get_value_windows_example = get_value_windows 1060 ns (1 ∷ []) one

abbrev both_keys : List Bytes
both_keys = (1 ∷ []) ∷ (2 ∷ []) ∷ []

batch_get-views_example : (batch_get ticking ns both_keys two).1 ≡ views ticking ns both_keys two
batch_get-views_example = batch_get-views ticking ns both_keys two (λ i j le. omega arith)

delete_lem_example :
    ((delete ns (1 ∷ []) two).1 ≡ is_some (get (id_of page) two.entries))
    × ((j : EntryId)
        → get j (delete ns (1 ∷ []) two).0.entries
          ≡ ite (EntryId-discrete (id_of page) j) none (get j two.entries))
    × ((j : EntryId)
        → get j (delete ns (1 ∷ []) two).0.leases
          ≡ ite (EntryId-discrete (id_of page) j) none (get j two.leases))
delete_lem_example = delete_lem ns (1 ∷ []) two

get-invalidate_tag_example : get (id_of page) (invalidate_tag plain ns hot one).0.entries ≡ (
    if tagged (record { namespace = ns; tag = hot }) (id_of page) one.entries
    then none
    else get (id_of page) one.entries)
get-invalidate_tag_example = get-invalidate_tag plain ns hot one one-IsValid (id_of page)

reclaim_sound_example :
    (get (id_of page) (reclaim_expired_budget 1070 1 one).0.entries ≡ get (id_of page) one.entries)
    ⊎ ((e : Entry) × (at_ms : ℕ) × (get (id_of page) one.entries ≡ some e)
        × (removal_time e ≡ some at_ms)
        × (at_ms ≤ 1070)
        × (get (id_of page) (reclaim_expired_budget 1070 1 one).0.entries ≡ none))
reclaim_sound_example = reclaim_sound 1070 1 one one-IsValid (id_of page)

-- At 1069 ms the page is not removable yet.
reclaim_complete_example : 1069 < 1070
unfolding put new_engine estimate_entry_memory make_room saturating_add remove_entry
    evict_until_fits evict_loop over_limit store_entry Map.insert Map.get expiry_time stale_time
    Map.remove EntryId-discrete reclaim_expired_budget remove_expired expire_all pop_expired
    add_expiry Expiry.insert removable_at_ms
reclaim_complete_example =
    reclaim_complete 1069 1 one one-IsValid (id_of page) page_entry 1070 (omega arith) refl refl

start_lease_lem_example :
    (start_lease (λ _. 1060) ns (1 ∷ []) 100 one).1
    ≡ lease_outcome
        (is_some (active_lease 1060 (id_of page) one))
        (view 1060 (id_of page) one)
        (next_token (view 1060 (id_of page) one) one)
start_lease_lem_example = start_lease_lem 1060 ns (1 ∷ []) 100 one

abbrev leased : Engine
leased = (start_lease (λ _. 1060) ns (1 ∷ []) 100 one).0

abbrev first_lease : Lease
first_lease = record { token = lease_token 2; expires_at_ms = 1160 }

granted_lem :
    (start_lease (λ _. 1060) ns (1 ∷ []) 100 one).1
    ≡ lease_granted (lease_token 2) (some (7 ∷ 8 ∷ 9 ∷ []))
unfolding put new_engine estimate_entry_memory make_room saturating_add remove_entry
    evict_until_fits evict_loop over_limit store_entry Map.insert Map.get expiry_time stale_time
    Map.remove EntryId-discrete start_lease start_in_state start_lease_for_missing active_lease
    entry_state record_access bump_access value_of grant create_lease lease_token decimal
    entry_state_at
granted_lem = refl

first_recorded : get (id_of page) leased.leases ≡ some first_lease
unfolding saturating_add
first_recorded = start_lease_recorded 1060 ns (1 ∷ []) 100 one granted_lem

abbrev asked : StartCall
asked = record { clock = λ _. 1100; namespace = ns; key = 1 ∷ []; lease_ttl_ms = 5 }

lease_exclusive_example :
    (get (id_of page) (start_all (asked ∷ []) leased).0.leases ≡ some first_lease)
    × NoGrant (id_of page) (asked ∷ []) (start_all (asked ∷ []) leased).1
lease_exclusive_example =
    lease_exclusive (asked ∷ []) (id_of page) first_lease leased first_recorded
      (λ i. omega arith, tt)

abbrev answer : CompleteLeaseCommand
answer = record {
  namespace = ns;
  key = 1 ∷ [];
  lease_token = lease_token 2;
  value = 5 ∷ [];
  ttl = some (record { milliseconds = 50 });
  stale_ttl = none;
  tags = [];
  cost = none;
}

accepted : (complete_lease plain ticking answer leased).1 ≡ ok (record { evicted = 0 })
unfolding put new_engine estimate_entry_memory make_room saturating_add remove_entry
    evict_until_fits evict_loop over_limit store_entry Map.insert Map.get expiry_time stale_time
    Map.remove EntryId-discrete start_lease start_in_state start_lease_for_missing active_lease
    entry_state record_access bump_access value_of grant create_lease lease_token decimal
    entry_state_at removable_at_ms Text-discrete complete_lease forget_entry
accepted = refl

leased-IsValid : IsValid leased
leased-IsValid = start_lease-IsValid (λ _. 1060) ns (1 ∷ []) 100 one one-IsValid

complete_lease_once_example :
    get (id_of page) (complete_lease plain ticking answer leased).0.leases ≡ none
complete_lease_once_example =
    complete_lease_once plain ticking answer leased leased-IsValid
      (λ e. ground (arith, e, accepted))

abbrev late : CompleteLeaseCommand
late = record answer { lease_token = lease_token 1 }

still_active : active_lease (ticking 0) (id_of page) leased ≡ some first_lease
unfolding active_lease
still_active = ground (arith, first_recorded)

complete_lease_outdated_example :
    complete_lease plain ticking late leased ≡ (leased, err invalid_lease_token)
complete_lease_outdated_example =
    complete_lease_outdated plain ticking late leased first_lease 1 2 (omega arith) (omega arith)
      (omega arith) refl refl still_active

abbrev accessed_entry : Entry
accessed_entry = record page_entry { last_access = 1 }

leased_read : get (id_of page) leased.entries ≡ some accessed_entry
unfolding put new_engine estimate_entry_memory make_room saturating_add remove_entry
    evict_until_fits evict_loop over_limit store_entry Map.insert Map.get expiry_time stale_time
    Map.remove EntryId-discrete start_lease start_in_state start_lease_for_missing active_lease
    entry_state record_access bump_access value_of grant create_lease lease_token decimal
    entry_state_at removable_at_ms
leased_read = refl

accessed-expired : entry_state_at accessed_entry 1100 ≡ expired
unfolding entry_state_at
accessed-expired = refl

-- The lease was for 100 ms, and after 40 ms it is gone.
expired_read_drops_lease_example :
    active_lease 1100 (id_of page) (get_value 1100 ns (1 ∷ []) leased).0 ≡ none
expired_read_drops_lease_example =
    expired_read_drops_lease 1100 ns (1 ∷ []) accessed_entry leased leased_read accessed-expired
