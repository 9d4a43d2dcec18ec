-- ===== src/Engine/Reachable.antt =====
-- The engines of src/engine.rs that calls can lead to.
use cachebox.Prelude.{ℕ, ◌+◌, ◌<◌, true, false, List, arith, u64_max}
use cachebox.Prelude.Map.{total}
use mathlib.Core.Path.{subst}
use cachebox.Bytes.{Bytes, Text}
use cachebox.Engine.Types.{Engine, EngineLimits, PutCommand, CompleteLeaseCommand}
use cachebox.Engine.Hashing.{Hashing}
use cachebox.Engine.Store.{Clock, new_engine, put, reclaim_expired_budget}
use cachebox.Engine.Read.{
  get_ref_without_access_update, get_ref, get_value, delete, batch_get, invalidate_tag,
}
use cachebox.Engine.Lease.{start_lease, complete_lease}
use cachebox.Engine.Invariant.{IsValid}
use cachebox.Engine.Invariant.Initial.{new_engine-IsValid}
use cachebox.Engine.Invariant.Reclaim.{reclaim_expired_budget-IsValid}
use cachebox.Engine.Invariant.Untag.{invalidate_tag-IsValid}
use cachebox.Engine.Writes.{put-IsValid}
use cachebox.Engine.Reads.{
  get_ref_without_access_update-IsValid, get_value-IsValid, batch_get-IsValid, delete-IsValid,
}
use cachebox.Engine.Costs.{IsCounted, IsAccounted, IsAccounted-counts, IsAccounted-of}
use cachebox.Engine.Costs.Removals.{
  reclaim_expired_budget-IsCounted, invalidate_tag-IsCounted, delete-IsCounted,
  get_ref_inner-IsCounted, batch_get-IsCounted,
}
use cachebox.Engine.Costs.Stores.{
  cost_stored, put-IsCounted, start_lease-IsCounted, complete_lease-IsCounted,
}
use cachebox.Engine.Completions.{start_lease-IsValid, complete_lease-IsValid}

-- One call, with any arguments and any readings of the clock.
pub data Step (h : Hashing) (s : Engine) : Engine → Type 0 where
  puts : (clock : Clock) (command : PutCommand) → Step h s (put h clock command s).0
  gets :
      (now_ms : ℕ) (namespace : Text) (key : Bytes) → Step h s (get_value now_ms namespace key s).0
  peeks :
      (now_ms : ℕ) (namespace : Text) (key : Bytes)
      → Step h s (get_ref_without_access_update now_ms namespace key (λ outcome. outcome) s).0
  deletes : (namespace : Text) (key : Bytes) → Step h s (delete namespace key s).0
  gets_many :
      (clock : Clock) (namespace : Text) (keys : List Bytes)
      → Step h s (batch_get clock namespace keys s).0
  invalidates : (namespace : Text) (tag : Text) → Step h s (invalidate_tag h namespace tag s).0
  starts_lease :
      (clock : Clock) (namespace : Text) (key : Bytes) (lease_ttl_ms : ℕ)
      → Step h s (start_lease clock namespace key lease_ttl_ms s).0
  completes_lease :
      (clock : Clock) (command : CompleteLeaseCommand)
      → Step h s (complete_lease h clock command s).0
  reclaims : (now_ms max_entries : ℕ) → Step h s (reclaim_expired_budget now_ms max_entries s).0

pub data Reach (h : Hashing) (s : Engine) : Engine → Type 0 where
  here : Reach h s s
  next : {t u : Engine} → Reach h s t → Step h t u → Reach h s u

-- The cost that a call asks to store, and the costs of all calls.
abbrev cost_asked : {h : Hashing} {s t : Engine} → Step h s t → ℕ
cost_asked (puts clock command) = cost_stored command.cost
cost_asked (completes_lease clock command) = cost_stored command.cost
cost_asked step = 0

abbrev pub costs_asked : {h : Hashing} {s t : Engine} → Reach h s t → ℕ
costs_asked here = 0
costs_asked (next r step) = costs_asked r + cost_asked step

module _ (h : Hashing) {n : ℕ} where
  same_cost : {t : Engine} → IsCounted n t → IsCounted (n + 0) t
  same_cost {t} c = subst (λ (k : ℕ). IsCounted k t) (omega arith) c

  Step-IsCounted :
      {s t : Engine} (step : Step h s t) → IsCounted n s → IsCounted (n + cost_asked step) t
  unfolding get_value get_ref get_ref_without_access_update
  Step-IsCounted {s} (puts clock command) c = put-IsCounted h clock n command s c
  Step-IsCounted {s} (gets now_ms namespace key) c =
      same_cost (get_ref_inner-IsCounted now_ms namespace key true (λ outcome. outcome) s c)
  Step-IsCounted {s} (peeks now_ms namespace key) c =
      same_cost (get_ref_inner-IsCounted now_ms namespace key false (λ outcome. outcome) s c)
  Step-IsCounted {s} (deletes namespace key) c = same_cost (delete-IsCounted namespace key s c)
  Step-IsCounted {s} (gets_many clock namespace keys) c =
      same_cost (batch_get-IsCounted clock namespace keys s c)
  Step-IsCounted {s} (invalidates namespace tag) c =
      same_cost (invalidate_tag-IsCounted h namespace tag s c)
  Step-IsCounted {s} (starts_lease clock namespace key ttl) c =
      same_cost (start_lease-IsCounted clock namespace key ttl s c)
  Step-IsCounted {s} (completes_lease clock command) c =
      complete_lease-IsCounted h clock command s n c
  Step-IsCounted {s} (reclaims now_ms max_entries) c =
      same_cost (reclaim_expired_budget-IsCounted now_ms max_entries s c)

Step-IsValid : (h : Hashing) {s t : Engine} → Step h s t → IsValid s → IsValid t
Step-IsValid h {s} (puts clock command) c = put-IsValid h clock command s c
Step-IsValid h {s} (gets now_ms namespace key) c = get_value-IsValid now_ms namespace key s c
Step-IsValid h {s} (peeks now_ms namespace key) c =
    get_ref_without_access_update-IsValid now_ms namespace key s c
Step-IsValid h {s} (deletes namespace key) c = delete-IsValid namespace key s c
Step-IsValid h {s} (gets_many clock namespace keys) c = batch_get-IsValid clock namespace keys s c
Step-IsValid h {s} (invalidates namespace tag) c = invalidate_tag-IsValid h namespace tag s c
Step-IsValid h {s} (starts_lease clock namespace key ttl) c =
    start_lease-IsValid clock namespace key ttl s c
Step-IsValid h {s} (completes_lease clock command) c = complete_lease-IsValid h clock command s c
Step-IsValid h {s} (reclaims now_ms max_entries) c =
    reclaim_expired_budget-IsValid now_ms max_entries s c

Reach-IsAccounted :
    (h : Hashing) {s t : Engine}
    → IsAccounted 0 s
    → (r : Reach h s t) → IsAccounted (costs_asked r) t
Reach-IsAccounted h a here = a
Reach-IsAccounted h a (next r step) =
    let b = Reach-IsAccounted h a r in
    IsAccounted-of (Step-IsValid h step b.valid) (Step-IsCounted h step (IsAccounted-counts b))

new_engine-IsAccounted :
    (limits : EngineLimits) → limits.max_memory_bytes < u64_max → IsAccounted 0 (new_engine limits)
unfolding new_engine total
new_engine-IsAccounted limits small =
    let v = new_engine-IsValid limits small in
    record { valid = v; within = omega arith; counted = omega arith }

-- Whatever calls are made, with whatever readings of the clock, an engine that started empty with a limit below the
-- largest word is valid: its indices, its sizes and its memory counter say what its entries say, within the limit.
-- The cost counter is at most the sum of the costs of the entries, and short of it by no more than what the costs
-- of all calls together exceed the largest word by; so while they do not, it is the sum.
pub reachable-IsAccounted :
    (h : Hashing) (limits : EngineLimits) (s : Engine)
    → limits.max_memory_bytes < u64_max
    → (r : Reach h (new_engine limits) s) → IsAccounted (costs_asked r) s
reachable-IsAccounted h limits s small r =
    Reach-IsAccounted h (new_engine-IsAccounted limits small) r
