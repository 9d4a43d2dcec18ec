-- ===== src/Engine/Invariant/Reclaim.antt =====
-- The expiry of src/engine.rs keeps the invariant; the entries that it leaves.
use cachebox.Prelude.{
  ℕ, ◌+◌, ◌≡◌, refl, ap, ◌∙◌, Bool, true, false, Option, none, List, [], ◌∷◌, arith, if◌then◌else◌,
  is_some, length, All, u64_max, wrapping_add,
}
use cachebox.Prelude.Map.{get}
use cachebox.Prelude.Set.{contains}
use cachebox.Engine.Types.{EntryId, TagId, Engine, entry_key, tag_key, expiry_key, text_key}
use cachebox.Engine.Expiry.{pop_expired}
use cachebox.Engine.Expiry.Pop.{
  contains-pop_expired, pop_expired-IsSorted, pop_expired-IsSeparate, Apart,
}
use cachebox.Engine.Store.{
  remove_entry, expire_all, remove_expired, reclaim_expired_budget, reclaim_expired,
}
use cachebox.Engine.Invariant.{IsConsistent, IsValid}
use cachebox.Engine.Invariant.Remove.{
  leases-remove_entry, IsConsistent-rest, remove_entry-IsConsistent, get-remove_entry,
  remove_entry-found, length-remove_entry, limits-remove_entry, settle,
}

-- The step of the loop counts in the statistics, or not.
abbrev counted : Bool → Engine → Engine
counted gone s =
    if gone
    then record s { stats = record s.stats { expirations = wrapping_add s.stats.expirations 1 } }
    else s

counted-IsConsistent :
    {ids : List EntryId} {hidden : Option TagId} {s : Engine} (gone : Bool)
    → IsConsistent ids hidden s
    → IsConsistent ids hidden (counted gone s)
counted-IsConsistent true c = IsConsistent-rest _ _ _ c
counted-IsConsistent false c = c

remove_step-IsConsistent :
    {ids : List EntryId} {hidden : Option TagId} {s : Engine} (id : EntryId)
    → IsConsistent (id ∷ ids) hidden s
    → IsConsistent ids hidden (counted (remove_entry id s).1 (remove_entry id s).0)
remove_step-IsConsistent {s = s} id c =
    counted-IsConsistent (remove_entry id s).1
      (settle id (ground (arith, get-remove_entry id id s)) (remove_entry-IsConsistent id c))

pub expire_all-IsConsistent :
    {hidden : Option TagId} (ids : List EntryId) (s : Engine) (n : ℕ)
    → IsConsistent ids hidden s
    → IsConsistent [] hidden (expire_all ids s n).0
unfolding expire_all
expire_all-IsConsistent [] s n c = c
expire_all-IsConsistent (id ∷ ids) s n c =
    expire_all-IsConsistent ids _ _ (remove_step-IsConsistent id c)

get-counted : (gone : Bool) (s : Engine) → (counted gone s).entries ≡ s.entries
get-counted true s = refl
get-counted false s = refl

limits-counted : (gone : Bool) (s : Engine) → (counted gone s).limits ≡ s.limits
limits-counted true s = refl
limits-counted false s = refl

pub get-expire_all :
    (ids : List EntryId) (s : Engine) (n : ℕ) (j : EntryId)
    → get j (expire_all ids s n).0.entries ≡ (if contains j ids then none else get j s.entries)
unfolding expire_all contains
get-expire_all [] s n j = refl
get-expire_all (id ∷ ids) s n j =
    let gone = (remove_entry id s).1 in
    let s' = (remove_entry id s).0 in
    ground (
      arith,
      get-expire_all ids (counted gone s') (if gone then n + 1 else n) j,
      get-counted gone s',
      get-remove_entry id j s,
    )

pub limits-expire_all :
    (ids : List EntryId) (s : Engine) (n : ℕ) → (expire_all ids s n).0.limits ≡ s.limits
unfolding expire_all
limits-expire_all [] s n = refl
limits-expire_all (id ∷ ids) s n =
    let gone = (remove_entry id s).1 in
    let s' = (remove_entry id s).0 in
    limits-expire_all ids (counted gone s') (if gone then n + 1 else n)
    ∙ limits-counted gone s'
    ∙ limits-remove_entry id s

stored_after :
    (gone : Bool) (id : EntryId) (ids : List EntryId) (s : Engine)
    → contains id ids ≡ false
    → All (λ j. is_some (get j s.entries) ≡ true) ids
    → All (λ j. is_some (get j (counted gone (remove_entry id s).0).entries) ≡ true) ids
unfolding contains
stored_after gone id [] s h a = tt
stored_after gone id (j ∷ ids) s h a = (
  ground (arith, a.0, get-counted gone (remove_entry id s).0, get-remove_entry id j s),
  stored_after gone id ids s (ground arith) a.1,
)

-- Where all the ids are stored, and each is listed once, all count.
pub expire_all-count :
    (ids : List EntryId) (s : Engine) (n : ℕ)
    → Apart ids
    → All (λ id. is_some (get id s.entries) ≡ true) ids
    → (expire_all ids s n).1 ≡ n + length ids
unfolding expire_all
expire_all-count [] s n a h = omega arith
expire_all-count (id ∷ ids) s n a h =
    let gone = (remove_entry id s).1 in
    let s' = (remove_entry id s).0 in
    let found : gone ≡ true = remove_entry-found id s ∙ h.0 in
    ground (
      arith,
      found,
      expire_all-count ids (counted gone s') (if gone then n + 1 else n) a.1
          (stored_after gone id ids s a.0 h.1),
    )

-- The number that is returned is the number of entries that went.
pub length-expire_all :
    (ids : List EntryId) (s : Engine) (n : ℕ)
    → IsConsistent ids none s
    → length (expire_all ids s n).0.entries + (expire_all ids s n).1 ≡ length s.entries + n
unfolding expire_all
length-expire_all [] s n c = refl
length-expire_all (id ∷ ids) s n c =
    let gone = (remove_entry id s).1 in
    let s' = (remove_entry id s).0 in
    ground (
      arith,
      length-expire_all ids (counted gone s') (if gone then n + 1 else n)
          (remove_step-IsConsistent id c),
      ap length (get-counted gone s'),
      length-remove_entry id s c.distinct,
    )

pub popped-IsConsistent :
    (now_ms budget : ℕ) {s : Engine}
    → IsValid s
    → IsConsistent
        (pop_expired now_ms budget s.expiry_index).0
        none
        (record s { expiry_index = (pop_expired now_ms budget s.expiry_index).1 })
unfolding contains
popped-IsConsistent now_ms budget {s} c = record {
  distinct = c.distinct;
  sized = c.sized;
  accounted = c.accounted;
  bounded = c.bounded;
  word = c.word;
  costed = c.costed;
  indexed = c.indexed;
  scheduled = λ k.
      ground (arith, c.scheduled k, contains-pop_expired now_ms budget k s.expiry_index c.separate);
  sorted = pop_expired-IsSorted now_ms budget s.expiry_index c.sorted;
  separate = pop_expired-IsSeparate now_ms budget s.expiry_index c.separate;
}

-- From a valid engine a cleanup leads to a valid engine, whatever the time and the budget.
pub reclaim_expired_budget-IsValid :
    (now_ms max_entries : ℕ) (s : Engine)
    → IsValid s
    → IsValid (reclaim_expired_budget now_ms max_entries s).0
unfolding reclaim_expired_budget remove_expired
reclaim_expired_budget-IsValid now_ms max_entries s c =
    expire_all-IsConsistent _ _ 0 (popped-IsConsistent now_ms max_entries c)

pub limits-reclaim_expired :
    (now_ms : ℕ) (s : Engine) → (reclaim_expired now_ms s).0.limits ≡ s.limits
unfolding reclaim_expired reclaim_expired_budget remove_expired
limits-reclaim_expired now_ms s =
    limits-expire_all (pop_expired now_ms u64_max s.expiry_index).0
      (record s { expiry_index = (pop_expired now_ms u64_max s.expiry_index).1 }) 0

pub reclaim_expired-IsValid :
    (now_ms : ℕ) (s : Engine) → IsValid s → IsValid (reclaim_expired now_ms s).0
unfolding reclaim_expired
reclaim_expired-IsValid now_ms s c = reclaim_expired_budget-IsValid now_ms u64_max s c

leases-counted : (gone : Bool) (s : Engine) → (counted gone s).leases ≡ s.leases
leases-counted true s = refl
leases-counted false s = refl

-- Expiry adds no lease.
pub expire_all-unleased :
    (ids : List EntryId) (s : Engine) (n : ℕ) (j : EntryId)
    → get j s.leases ≡ none
    → get j (expire_all ids s n).0.leases ≡ none
unfolding expire_all
expire_all-unleased [] s n j h = h
expire_all-unleased (id ∷ ids) s n j h =
    let gone = (remove_entry id s).1 in
    let s' = (remove_entry id s).0 in
    expire_all-unleased ids (counted gone s') (if gone then n + 1 else n) j
      (ground (arith, h, leases-counted gone s', leases-remove_entry id j s))
