-- ===== src/Engine/Store.antt =====
-- The write path of src/engine.rs: removal, expiry, eviction and `put`. An operation returns the new
-- engine beside its result; `clock i` is the reading of the clock at its call site `i`.
use cachebox.Prelude.{
  ℕ, zero, suc, ◌+◌, Bool, false, true, Option, none, some, List, [], ◌∷◌, Result, ok, err, ltb,
  if◌then◌else◌, length, take, u64_max, saturating_add, saturating_sub, wrapping_add,
}
use cachebox.Prelude.Map.{Assoc, get}
use cachebox.Prelude.Map
use cachebox.Prelude.Set
use cachebox.Engine.Types.{
  EntryId, ExpiryKey, Entry, EngineLimits, Engine, PutCommand, PutOutcome, PutError,
  value_too_large, value_too_large_for_memory, insufficient_memory, entry_key, tag_key, expiry_key,
}
use cachebox.Engine.Entry.{estimate_entry_memory, removable_at_ms, expiry_time, stale_time}
use cachebox.Engine.Expiry
use cachebox.Engine.Expiry.{pop_expired}
use cachebox.Engine.Tags.{add_tags, drop_tags}
use cachebox.Engine.Hashing.{Hashing}

abbrev pub Clock : Type 0
Clock = ℕ → ℕ

abbrev pub cost_of : Entry → ℕ
cost_of entry = elim entry.cost [ none ↦ 0 | some cost ↦ cost ]

unfoldable pub new_engine : EngineLimits → Engine
new_engine limits = record {
  entries = [];
  leases = [];
  tag_index = [];
  expiry_index = [];
  limits = limits;
  memory_used_bytes = 0;
  cost_score_total = 0;
  next_access = 0;
  stats = record { expirations = 0; evictions = 0 };
}

-- `if let Some(removable_at_ms) = ...` around a removal from the expiry index
unfoldable pub drop_expiry : EntryId → Option ℕ → List ExpiryKey → List ExpiryKey
drop_expiry id none index = index
drop_expiry id (some at_ms) index = Set.remove (record { expires_at_ms = at_ms; id = id }) index

-- `remove_entry` from the point where the entry has left the map
unfoldable pub forget_entry : EntryId → Entry → Engine → Engine
forget_entry id entry s = record s {
  entries = Map.remove id s.entries;
  leases = Map.remove id s.leases;
  memory_used_bytes = saturating_sub s.memory_used_bytes entry.memory_bytes;
  cost_score_total = saturating_sub s.cost_score_total (cost_of entry);
  expiry_index =
      drop_expiry id (removable_at_ms entry.expires_at_ms entry.stale_until_ms) s.expiry_index;
  tag_index = drop_tags id entry.tags s.tag_index;
}

unfoldable pub remove_entry : EntryId → Engine → Engine × Bool
remove_entry id s = elim (get id s.entries) [
  | none ↦ (s, false)
  | some entry ↦ (forget_entry id entry s, true)
]

-- The second loop of `remove_expired`. `removed` counts entries of a table in memory, so it cannot
-- wrap.
unfoldable pub expire_all : List EntryId → Engine → ℕ → Engine × ℕ
expire_all [] s removed = (s, removed)
expire_all (id ∷ ids) s removed =
    let (s', gone) = remove_entry id s in
    let counted = record s' {
      stats = record s'.stats { expirations = wrapping_add s'.stats.expirations 1 };
    } in
    expire_all ids (if gone then counted else s') (if gone then removed + 1 else removed)

unfoldable pub remove_expired : ℕ → ℕ → Engine → Engine × ℕ
unfolding expire_all
remove_expired now_ms max_entries s =
    let (expired, index) = pop_expired now_ms max_entries s.expiry_index in
    expire_all expired (record s { expiry_index = index }) 0

unfoldable pub reclaim_expired_budget : ℕ → ℕ → Engine → Engine × ℕ
reclaim_expired_budget now_ms max_entries s = remove_expired now_ms max_entries s

unfoldable pub reclaim_expired : ℕ → Engine → Engine × ℕ
reclaim_expired now_ms s = reclaim_expired_budget now_ms u64_max s

abbrev pub lru_sample_size : ℕ
lru_sample_size = 16

-- `min_by_key`: the first of the least.
unfoldable pub min_access : EntryId × Entry → Assoc EntryId Entry → EntryId × Entry
min_access best [] = best
min_access best ((id, entry) ∷ entries) =
    min_access (if ltb entry.last_access best.1.last_access then (id, entry) else best) entries

unfoldable pub oldest_of : Assoc EntryId Entry → Option EntryId
oldest_of [] = none
oldest_of (e ∷ entries) = some (min_access e entries).0

-- The test of the loop in `evict_until_fits`, which `put` makes twice more.
unfoldable pub over_limit : ℕ → Engine → Bool
over_limit incoming_bytes s =
    ltb s.limits.max_memory_bytes (saturating_add s.memory_used_bytes incoming_bytes)

module _ (h : Hashing) where
  unfoldable pub least_recently_used_entry : Engine → Option EntryId
  least_recently_used_entry s = oldest_of (take lru_sample_size (h.entry_order s.entries))

  unfoldable pub evict_loop : ℕ → ℕ → Engine → ℕ → Engine × ℕ
  evict_loop zero incoming_bytes s evicted = (s, evicted)
  evict_loop (suc fuel) incoming_bytes s evicted = elim (over_limit incoming_bytes s) [
    | false ↦ (s, evicted)
    | true ↦ elim (least_recently_used_entry s) [
      | none ↦ (s, evicted)
      | some id ↦
          let (s', gone) = remove_entry id s in
          elim gone [
            | false ↦ (s', evicted)
            | true ↦
                evict_loop fuel incoming_bytes
                  (record s' {
                    stats = record s'.stats { evictions = wrapping_add s'.stats.evictions 1 };
                  })
                  (evicted + 1)
          ]
    ]
  ]

  -- A round removes an entry or is the last, so one round more than there are entries is enough.
  unfoldable pub evict_until_fits : ℕ → Engine → Engine × ℕ
  evict_until_fits incoming_bytes s = evict_loop (length s.entries + 1) incoming_bytes s 0

  -- `put`, from the removal of the entry that is replaced to the end of the eviction
  unfoldable pub make_room : ℕ → EntryId → ℕ → Engine → Engine × ℕ
  make_room now_ms id entry_bytes s =
      let s' = (remove_entry id s).0 in
      evict_until_fits entry_bytes
        (if over_limit entry_bytes s' then (reclaim_expired now_ms s').0 else s')

-- `self.expiry_index.insert`, where the entry can expire
unfoldable pub add_expiry : EntryId → Option ℕ → List ExpiryKey → List ExpiryKey
add_expiry id none index = index
add_expiry id (some at_ms) index = Expiry.insert (record { expires_at_ms = at_ms; id = id }) index

unfoldable pub bump_access : Engine → Engine × ℕ
bump_access s = (record s { next_access = saturating_add s.next_access 1 }, s.next_access)

-- The end of `put`: the entry is indexed, stored and accounted for.
unfoldable pub store_entry : ℕ → EntryId → ℕ → PutCommand → Engine → Engine
unfolding bump_access
store_entry now_ms id entry_bytes command s =
    let expires_at_ms = expiry_time now_ms command.ttl in
    let stale_until_ms = stale_time expires_at_ms command.stale_ttl in
    let (s', last_access) =
      bump_access (record s { tag_index = add_tags id command.tags s.tag_index }) in
    record s' {
      expiry_index = add_expiry id (removable_at_ms expires_at_ms stale_until_ms) s'.expiry_index;
      entries =
          Map.insert id
            (record {
              value = command.value;
              expires_at_ms = expires_at_ms;
              stale_until_ms = stale_until_ms;
              tags = command.tags;
              cost = command.cost;
              memory_bytes = entry_bytes;
              last_access = last_access;
            })
            s'.entries;
      memory_used_bytes = saturating_add s'.memory_used_bytes entry_bytes;
      cost_score_total =
          saturating_add s'.cost_score_total (elim command.cost [ none ↦ 0 | some cost ↦ cost ]);
    }

abbrev pub id_of : PutCommand → EntryId
id_of command = record { namespace = command.namespace; key = command.key }

abbrev pub bytes_of : PutCommand → ℕ
bytes_of command = estimate_entry_memory (id_of command) command.value command.tags

module _ (h : Hashing) where
  unfoldable pub put : Clock → PutCommand → Engine → Engine × Result PutError PutOutcome
  put clock command s =
      if ltb s.limits.max_value_bytes (length command.value)
      then (s, err (value_too_large (length command.value) s.limits.max_value_bytes))
      else let id = id_of command in
        let entry_bytes = bytes_of command in
        if ltb s.limits.max_memory_bytes entry_bytes
        then (s, err (value_too_large_for_memory entry_bytes s.limits.max_memory_bytes))
        else let (s', evicted) = make_room h (clock 1) id entry_bytes s in
          if over_limit entry_bytes s'
          then (
            s',
            err (insufficient_memory entry_bytes s'.memory_used_bytes s'.limits.max_memory_bytes),
          )
          else (store_entry (clock 0) id entry_bytes command s', ok (record { evicted = evicted }))
