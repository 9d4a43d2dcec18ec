-- ===== src/Sharded/Budget.antt =====
-- The budget of a cleanup of the sharded engine of src/engine.rs is global.
use cachebox.Prelude.{
  ℕ, suc, ◌+◌, ◌≤◌, ◌≡◌, refl, inl, inr, some, List, [], ◌∷◌, map, arith, ◌==◌, Bool-cases, length,
  sum, saturating_sub,
}
use cachebox.Prelude.{get_elem?}
use cachebox.Engine.Types.{Engine}
use cachebox.Engine.Store.{Clock}
use cachebox.Engine.Store
use cachebox.Engine.Invariant.{IsValid}
use cachebox.Engine.Expiration.{reclaim_count}
use cachebox.Sharded.Store.{ShardedEngine, reclaim_shards, reclaim_expired_budget, len}
use cachebox.Sharded.Sound.{IsSound}

abbrev entry_count : Engine → ℕ
entry_count shard = length shard.entries

abbrev count_all : List Engine → ℕ
count_all shards = sum (map entry_count shards)

-- What is removed is within the budget and has left the shards.
reclaim_shards_lem :
    (clock : Clock) (remaining removed : ℕ) (shards : List Engine)
    → ((i : ℕ) (e : Engine) → get_elem? shards i ≡ some e → IsValid e)
    → ((reclaim_shards clock remaining removed shards).1 ≤ removed + remaining)
      × (count_all (reclaim_shards clock remaining removed shards).0
            + (reclaim_shards clock remaining removed shards).1
          ≡ count_all shards + removed)
unfolding reclaim_shards get_elem?
reclaim_shards_lem clock remaining removed [] valid = (omega arith, refl)
reclaim_shards_lem clock remaining removed (shard ∷ shards) valid =
    let n = (Store.reclaim_expired_budget (clock 0) remaining shard).1 in
    let one = reclaim_count (clock 0) remaining shard (valid 0 shard refl) in
    let rest =
      reclaim_shards_lem (λ i. clock (i + 1)) (saturating_sub remaining n) (removed + n) shards
        (λ i e found. valid (suc i) e found) in
    elim (Bool-cases (remaining == 0)) [
      | inl spent ↦ rw (spent, reclaim_shards) (omega arith, refl)
      | inr left ↦
          rw (left, reclaim_shards) (omega (arith, one.0, rest.0), omega (arith, one.1, rest.1))
    ]

-- On a sound engine a cleanup of all shards returns how many entries it removed, at most its budget.
pub sharded_reclaim_count :
    (clock : Clock) (max_entries : ℕ) (s : ShardedEngine)
    → IsSound s
    → ((reclaim_expired_budget clock max_entries s).1 ≤ max_entries)
      × (len (reclaim_expired_budget clock max_entries s).0
            + (reclaim_expired_budget clock max_entries s).1
          ≡ len s)
unfolding reclaim_expired_budget len
sharded_reclaim_count clock max_entries s sound =
    let all = reclaim_shards_lem clock max_entries 0 s.shards sound.valid in
    elim (Bool-cases (max_entries == 0)) [
      | inl zero_budget ↦ rw (zero_budget, reclaim_expired_budget) (omega arith, omega arith)
      | inr some_budget ↦
          rw (some_budget, reclaim_expired_budget) (omega (arith, all.0), omega (arith, all.1))
    ]
