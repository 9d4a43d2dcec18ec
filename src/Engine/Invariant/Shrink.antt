-- ===== src/Engine/Invariant/Shrink.antt =====
-- Removal, expiry and eviction of src/engine.rs only take entries away; `make_room` of `put`.
use cachebox.Prelude.{
  ℕ, ◌+◌, ◌≤◌, ◌≡◌, refl, ◌∙◌, ◌⊎◌, inl, Bool, true, false, none, arith, if◌then◌else◌, length,
  u64_max,
}
use cachebox.Prelude.Map.{get}
use cachebox.Engine.Types.{EntryId, Engine, entry_key, tag_key, expiry_key, text_key}
use cachebox.Engine.Hashing.{Hashing}
use cachebox.Engine.Expiry.{pop_expired}
use cachebox.Engine.Store.{
  remove_entry, over_limit, evict_until_fits, reclaim_expired, reclaim_expired_budget,
  remove_expired, make_room,
}
use cachebox.Engine.Invariant.{IsValid}
use cachebox.Engine.Invariant.Remove.{
  IsConsistent-rest, remove_entry-IsConsistent, get-remove_entry, limits-remove_entry,
  leases-remove_entry,
}
use cachebox.Engine.Invariant.Reclaim.{
  get-expire_all, expire_all-unleased, limits-reclaim_expired, reclaim_expired-IsValid,
}
use cachebox.Engine.Invariant.Evict.{evict_loop_inv, evict_loop-fits}

-- Every entry is as it was, or is gone; no lease is new; the limits are the same.
pub record Shrinks (s s' : Engine) : Type 0 where
  pub limits : s'.limits ≡ s.limits
  pub kept : (j : EntryId) → (get j s'.entries ≡ get j s.entries) ⊎ (get j s'.entries ≡ none)
  pub unleased : (j : EntryId) → get j s.leases ≡ none → get j s'.leases ≡ none

pub Shrinks-refl : (s : Engine) → Shrinks s s
Shrinks-refl s = record { limits = refl; kept = λ j. inl refl; unleased = λ j h. h }

pub Shrinks-trans : {s t u : Engine} → Shrinks s t → Shrinks t u → Shrinks s u
Shrinks-trans {s} {t} {u} p q = record {
  limits = q.limits ∙ p.limits;
  kept = λ j. ground (arith, p.kept j, q.kept j);
  unleased = λ j h. q.unleased j (p.unleased j h);
}

pub remove_entry-Shrinks : (id : EntryId) (s : Engine) → Shrinks s (remove_entry id s).0
remove_entry-Shrinks id s = record {
  limits = limits-remove_entry id s;
  kept = λ j. ground (arith, get-remove_entry id j s);
  unleased = λ j h. ground (arith, h, leases-remove_entry id j s);
}

reclaim_expired-Shrinks : (now_ms : ℕ) (s : Engine) → Shrinks s (reclaim_expired now_ms s).0
unfolding reclaim_expired reclaim_expired_budget remove_expired
reclaim_expired-Shrinks now_ms s = record {
  limits = limits-reclaim_expired now_ms s;
  kept = λ j. ground (
    arith,
    get-expire_all (pop_expired now_ms u64_max s.expiry_index).0
        (record s { expiry_index = (pop_expired now_ms u64_max s.expiry_index).1 }) 0 j,
  );
  unleased = λ j h.
      expire_all-unleased (pop_expired now_ms u64_max s.expiry_index).0
        (record s { expiry_index = (pop_expired now_ms u64_max s.expiry_index).1 }) 0 j h;
}

-- The first half of `make_room`: the old entry goes, and what has expired if there is no room.
swept : ℕ → EntryId → ℕ → Engine → Engine
swept now_ms id bytes s =
    let s' = (remove_entry id s).0 in
    if over_limit bytes s' then (reclaim_expired now_ms s').0 else s'

if-Shrinks :
    {s t u : Engine} (b : Bool) → Shrinks s t → Shrinks s u → Shrinks s (if b then t else u)
if-Shrinks true p q = p
if-Shrinks false p q = q

if-IsValid : {t u : Engine} (b : Bool) → IsValid t → IsValid u → IsValid (if b then t else u)
if-IsValid true p q = p
if-IsValid false p q = q

module _ (now_ms : ℕ) (id : EntryId) (bytes : ℕ) (s : Engine) where
  swept-IsValid : IsValid s → IsValid (swept now_ms id bytes s)
  unfolding swept
  swept-IsValid c =
      let c' = remove_entry-IsConsistent id c in
      if-IsValid (over_limit bytes (remove_entry id s).0)
        (reclaim_expired-IsValid now_ms (remove_entry id s).0 c') c'

  swept-Shrinks : Shrinks (remove_entry id s).0 (swept now_ms id bytes s)
  unfolding swept
  swept-Shrinks =
      if-Shrinks (over_limit bytes (remove_entry id s).0)
        (reclaim_expired-Shrinks now_ms (remove_entry id s).0) (Shrinks-refl (remove_entry id s).0)

module _ (h : Hashing) where
  evict_until_fits-Shrinks : (bytes : ℕ) (s : Engine) → Shrinks s (evict_until_fits h bytes s).0
  unfolding evict_until_fits
  evict_until_fits-Shrinks bytes s =
      evict_loop_inv h (Shrinks s) (λ id t p. Shrinks-trans p (remove_entry-Shrinks id t))
        (λ stats t p. record { limits = p.limits; kept = p.kept; unleased = p.unleased })
        (length s.entries + 1) bytes s 0 (Shrinks-refl s)

  evict_until_fits-IsValid :
      (bytes : ℕ) (s : Engine) → IsValid s → IsValid (evict_until_fits h bytes s).0
  unfolding evict_until_fits
  evict_until_fits-IsValid bytes s =
      evict_loop_inv h IsValid (λ id t p. remove_entry-IsConsistent id p)
        (λ stats t p. IsConsistent-rest _ _ _ p) (length s.entries + 1) bytes s 0

  module _ (now_ms : ℕ) (id : EntryId) (bytes : ℕ) (s : Engine) where
    pub make_room-IsValid : IsValid s → IsValid (make_room h now_ms id bytes s).0
    unfolding make_room swept
    make_room-IsValid c =
        evict_until_fits-IsValid bytes (swept now_ms id bytes s) (swept-IsValid now_ms id bytes s c)

    make_room-Shrinks_removed : Shrinks (remove_entry id s).0 (make_room h now_ms id bytes s).0
    unfolding make_room swept
    make_room-Shrinks_removed =
        Shrinks-trans (swept-Shrinks now_ms id bytes s)
          (evict_until_fits-Shrinks bytes (swept now_ms id bytes s))

    pub make_room-Shrinks : Shrinks s (make_room h now_ms id bytes s).0
    make_room-Shrinks = Shrinks-trans (remove_entry-Shrinks id s) make_room-Shrinks_removed

    pub make_room-absent : get id (make_room h now_ms id bytes s).0.entries ≡ none
    make_room-absent = ground (arith, make_room-Shrinks_removed.kept id, get-remove_entry id id s)

    -- If the entry fits an empty engine, there is room in the end.
    pub make_room-fits :
        IsValid s
        → bytes ≤ s.limits.max_memory_bytes
        → over_limit bytes (make_room h now_ms id bytes s).0 ≡ false
    unfolding make_room swept evict_until_fits
    make_room-fits c fits =
        let t = swept now_ms id bytes s in
        let same : t.limits ≡ s.limits =
          (swept-Shrinks now_ms id bytes s).limits ∙ limits-remove_entry id s in
        evict_loop-fits h (length t.entries + 1) bytes t 0 (swept-IsValid now_ms id bytes s c)
          (rw same fits) (omega arith)
