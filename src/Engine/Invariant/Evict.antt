-- ===== src/Engine/Invariant/Evict.antt =====
-- The eviction loop of src/engine.rs ends with enough room, and keeps the invariant.
use cachebox.Prelude.{
  ℕ, zero, suc, ◌+◌, ◌≤◌, ◌<◌, ◌≡◌, refl, sym, ap, ◌∙◌, inl, inr, true, false, none, some, [], ◌∷◌,
  arith, Bool-cases, Option-cases, is_some, length, take, saturating_add,
}
use cachebox.Prelude.Map.{Assoc, Distinct, get, total}
use cachebox.Engine.Types.{
  EntryId, Entry, EngineStats, Engine, entry_key, tag_key, expiry_key, text_key,
}
use cachebox.Engine.Hashing.{Hashing}
use cachebox.Engine.Store.{
  remove_entry, min_access, oldest_of, over_limit, lru_sample_size, least_recently_used_entry,
  evict_loop,
}
use cachebox.Engine.Invariant.{size_of, IsValid}
use cachebox.Engine.Invariant.Remove.{
  IsConsistent-rest, remove_entry-IsConsistent, remove_entry-found, length-remove_entry,
  limits-remove_entry,
}

get-take :
    (n : ℕ) (id : EntryId) (m : Assoc EntryId Entry)
    → is_some (get id (take n m)) ≡ true
    → is_some (get id m) ≡ true
unfolding get
get-take zero id m h = cc
get-take (suc n) id [] h = cc
get-take (suc n) id ((j, e) ∷ m) h = ground (arith, get-take n id m)

get-min_access :
    (j : EntryId) (e : Entry) (m : Assoc EntryId Entry)
    → is_some (get (min_access (j, e) m).0 ((j, e) ∷ m)) ≡ true
unfolding get min_access
get-min_access j e [] = ground arith
get-min_access j e ((i, d) ∷ m) = ground (arith, get-min_access j e m, get-min_access i d m)

oldest_of-stored :
    (m : Assoc EntryId Entry) (id : EntryId) → oldest_of m ≡ some id → is_some (get id m) ≡ true
unfolding oldest_of
oldest_of-stored [] id h = cc
oldest_of-stored ((j, e) ∷ m) id h = ground (arith, get-min_access j e m)

oldest_of-none : (m : Assoc EntryId Entry) → oldest_of (take lru_sample_size m) ≡ none → m ≡ []
unfolding oldest_of
oldest_of-none [] h = refl
oldest_of-none (e ∷ m) h = cc

empty_of_get : (m : Assoc EntryId Entry) → ((id : EntryId) → get id m ≡ none) → m ≡ []
unfolding get
empty_of_get [] h = refl
empty_of_get ((id, e) ∷ m) h = absurd (ground (arith, h id))

room_of_empty :
    (bytes : ℕ) (s : Engine)
    → IsValid s
    → bytes ≤ s.limits.max_memory_bytes
    → s.entries ≡ []
    → over_limit bytes s ≡ true
    → ⊥
unfolding over_limit total saturating_add
room_of_empty bytes s c fits empty over =
    let used : s.memory_used_bytes ≡ 0 = c.accounted ∙ ap (total size_of) empty in
    ground (arith, used, over)

module _ (h : Hashing) where
  -- The sample is of stored entries, and is empty only if there are none.
  pub lru-stored :
      (s : Engine) (id : EntryId)
      → Distinct s.entries
      → least_recently_used_entry h s ≡ some id
      → is_some (get id s.entries) ≡ true
  unfolding least_recently_used_entry
  lru-stored s id d e = rw (← h.get-entry_order s.entries id d) (
      get-take lru_sample_size id (h.entry_order s.entries)
        (oldest_of-stored (take lru_sample_size (h.entry_order s.entries)) id e))

  lru-none :
      (s : Engine) → Distinct s.entries → least_recently_used_entry h s ≡ none → s.entries ≡ []
  unfolding least_recently_used_entry get
  lru-none s d e =
      let empty : h.entry_order s.entries ≡ [] = oldest_of-none (h.entry_order s.entries) e in
      empty_of_get s.entries (λ id. sym (h.get-entry_order s.entries id d) ∙ ap (get id) empty)

  -- What removals and the statistics keep, the loop keeps.
  pub evict_loop_inv :
      (P : Engine → Type 0)
      → ((id : EntryId) (s : Engine) → P s → P (remove_entry id s).0)
      → ((stats : EngineStats) (s : Engine) → P s → P (record s { stats = stats }))
      → (fuel bytes : ℕ) (s : Engine) (n : ℕ) → P s
      → P (evict_loop h fuel bytes s n).0
  unfolding evict_loop
  evict_loop_inv P on_remove on_stats zero bytes s n p = p
  evict_loop_inv P on_remove on_stats (suc fuel) bytes s n p =
      elim (Bool-cases (over_limit bytes s)) [
        | inr room ↦ rw (room, evict_loop) p
        | inl over ↦
            rw (over, evict_loop)
              (elim (Option-cases (least_recently_used_entry h s)) [
                | inl nobody ↦ rw nobody p
                | inr (id, oldest) ↦ rw oldest (elim (Bool-cases (remove_entry id s).1) [
                  | inr kept ↦ rw kept (on_remove id s p)
                  | inl gone ↦ rw gone (
                      evict_loop_inv P on_remove on_stats fuel bytes _ (n + 1)
                        (on_stats _ _ (on_remove id s p)))
                ])
              ])
      ]

  -- With more fuel than entries the loop ends because there is room.
  pub evict_loop-fits :
      (fuel bytes : ℕ) (s : Engine) (n : ℕ)
      → IsValid s
      → bytes ≤ s.limits.max_memory_bytes
      → length s.entries < fuel
      → over_limit bytes (evict_loop h fuel bytes s n).0 ≡ false
  unfolding evict_loop
  evict_loop-fits zero bytes s n c fits l = absurd (omega arith)
  evict_loop-fits (suc fuel) bytes s n c fits l = elim (Bool-cases (over_limit bytes s)) [
    | inr room ↦ rw (room, evict_loop) room
    | inl over ↦
        rw (over, evict_loop)
          (elim (Option-cases (least_recently_used_entry h s)) [
            | inl nobody ↦ absurd (room_of_empty bytes s c fits (lru-none s c.distinct nobody) over)
            | inr (id, oldest) ↦
                let gone : (remove_entry id s).1 ≡ true =
                  remove_entry-found id s ∙ lru-stored s id c.distinct oldest in
                rw oldest (
                  rw gone (
                    evict_loop-fits fuel bytes _ (n + 1)
                      (IsConsistent-rest _ _ _ (remove_entry-IsConsistent id c))
                      (rw (limits-remove_entry id s) fits)
                      (ground (arith, gone, length-remove_entry id s c.distinct))))
          ])
  ]
