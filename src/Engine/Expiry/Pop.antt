-- ===== src/Engine/Expiry/Pop.antt =====
-- What leaves the expiry index of src/engine.rs, and what stays.
use cachebox.Prelude.{
  ℕ, ◌-◌, ◌≤◌, ◌<◌, ◌≡◌, refl, inl, inr, true, false, ◌&&◌, ◌||◌, not, List, [], ◌∷◌, arith, ltb,
  ◌==◌, Bool-cases, length, All,
}
use cachebox.Prelude.Set.{contains}
use cachebox.Engine.Types.{
  EntryId, ExpiryKey, entry_key, tag_key, expiry_key, text_key, EntryId-discrete,
}
use cachebox.Engine.Expiry.{pop_expired}
use cachebox.Engine.Expiry.Laws.{IsSorted, IsSeparate, IsFree}

contains_of_IsFree :
    (id : EntryId) (k : ExpiryKey) (index : List ExpiryKey)
    → IsFree id index
    → id ≡ k.id
    → contains k index ≡ false
unfolding contains
contains_of_IsFree id k [] f e = refl
contains_of_IsFree id k (j ∷ index) f e = ground (arith, contains_of_IsFree id k index f.1, f.0)

le_of_contains :
    (at_ms : ℕ) (k : ExpiryKey) (index : List ExpiryKey)
    → All (λ j. at_ms ≤ j.expires_at_ms) index
    → contains k index ≡ true
    → at_ms ≤ k.expires_at_ms
unfolding contains
le_of_contains at_ms k [] a h = absurd (cc)
le_of_contains at_ms k (j ∷ index) a h = ground (arith, le_of_contains at_ms k index a.1)

-- A key stays exactly when no key of its entry left.
pub contains-pop_expired :
    (now_ms budget : ℕ) (k : ExpiryKey) (index : List ExpiryKey)
    → IsSeparate index
    → contains k (pop_expired now_ms budget index).1
      ≡ (contains k index && not (contains k.id (pop_expired now_ms budget index).0))
unfolding pop_expired contains
contains-pop_expired now_ms budget k [] h = ground arith
contains-pop_expired now_ms budget k (j ∷ index) h = ground (
  arith,
  contains-pop_expired now_ms (budget - 1) k index h.1,
  contains_of_IsFree j.id k index h.0,
)

All-pop_expired :
    (P : ExpiryKey → Type 0) (now_ms budget : ℕ) (index : List ExpiryKey)
    → All P index
    → All P (pop_expired now_ms budget index).1
unfolding pop_expired
All-pop_expired P now_ms budget [] h = h
All-pop_expired P now_ms budget (j ∷ index) h =
    ground (arith, All-pop_expired P now_ms (budget - 1) index h.1)

pub pop_expired-IsSorted :
    (now_ms budget : ℕ) (index : List ExpiryKey)
    → IsSorted index
    → IsSorted (pop_expired now_ms budget index).1
unfolding pop_expired
pop_expired-IsSorted now_ms budget [] h = h
pop_expired-IsSorted now_ms budget (j ∷ index) h =
    ground (arith, pop_expired-IsSorted now_ms (budget - 1) index h.1)

pub pop_expired-IsSeparate :
    (now_ms budget : ℕ) (index : List ExpiryKey)
    → IsSeparate index
    → IsSeparate (pop_expired now_ms budget index).1
unfolding pop_expired
pop_expired-IsSeparate now_ms budget [] h = h
pop_expired-IsSeparate now_ms budget (j ∷ index) h =
    ground (arith, pop_expired-IsSeparate now_ms (budget - 1) index h.1)

pub length-pop_expired :
    (now_ms budget : ℕ) (index : List ExpiryKey)
    → length (pop_expired now_ms budget index).0 ≤ budget
unfolding pop_expired
length-pop_expired now_ms budget [] = omega arith
length-pop_expired now_ms budget (j ∷ index) =
    ground (arith, length-pop_expired now_ms (budget - 1) index)

-- What left was due.
pub pop_expired-due :
    (now_ms budget : ℕ) (id : EntryId) (index : List ExpiryKey)
    → contains id (pop_expired now_ms budget index).0 ≡ true
    → (at_ms : ℕ) × (contains (record { expires_at_ms = at_ms; id = id }) index ≡ true)
      × (at_ms ≤ now_ms)
unfolding pop_expired contains
pop_expired-due now_ms budget id [] h = absurd (cc)
pop_expired-due now_ms budget id (j ∷ index) h =
    elim (Bool-cases (budget == 0 || ltb now_ms j.expires_at_ms)) [
      | inl stop ↦ absurd (ground (arith, stop))
      | inr more ↦ elim (EntryId-discrete j.id id) [
        | yes e ↦ (j.expires_at_ms, ground (arith, e), ground (arith, more))
        | no n ↦
            let (at_ms, there, due) =
              pop_expired-due now_ms (budget - 1) id index (ground (arith, more, n)) in
            (at_ms, ground (arith, there), due)
      ]
    ]

-- While the budget is not used up, nothing that is due stays.
pub pop_expired_complete :
    (now_ms budget : ℕ) (k : ExpiryKey) (index : List ExpiryKey)
    → IsSorted index
    → length (pop_expired now_ms budget index).0 < budget
    → contains k (pop_expired now_ms budget index).1 ≡ true
    → now_ms < k.expires_at_ms
unfolding pop_expired contains
pop_expired_complete now_ms budget k [] o h p = absurd (cc)
pop_expired_complete now_ms budget k (j ∷ index) o h p = ground (
  arith,
  pop_expired_complete now_ms (budget - 1) k index o.1,
  le_of_contains j.expires_at_ms k index o.0,
)

-- No id is listed twice.
abbrev pub Apart : List EntryId → Type 0
Apart [] = Unit
Apart (id ∷ ids) = (contains id ids ≡ false) × Apart ids

pub All-of_contains :
    (P : EntryId → Type 0) (ids : List EntryId)
    → ((id : EntryId) → contains id ids ≡ true → P id)
    → All P ids
unfolding contains
All-of_contains P [] f = tt
All-of_contains P (id ∷ ids) f =
    (f id (ground arith), All-of_contains P ids (λ j h. f j (ground arith)))

left_once :
    (now_ms budget : ℕ) (id : EntryId) (index : List ExpiryKey)
    → IsFree id index
    → contains id (pop_expired now_ms budget index).0 ≡ false
left_once now_ms budget id index f =
    elim (Bool-cases (contains id (pop_expired now_ms budget index).0)) [
      | inl twice ↦
          let (at_ms, there, _) = pop_expired-due now_ms budget id index twice in
          cc (there, contains_of_IsFree id (record { expires_at_ms = at_ms; id = id }) index f refl)
      | inr once ↦ once
    ]

pub pop_expired-Apart :
    (now_ms budget : ℕ) (index : List ExpiryKey)
    → IsSeparate index
    → Apart (pop_expired now_ms budget index).0
unfolding pop_expired
pop_expired-Apart now_ms budget [] h = tt
pop_expired-Apart now_ms budget (j ∷ index) h = ground (
  arith,
  pop_expired-Apart now_ms (budget - 1) index h.1,
  left_once now_ms (budget - 1) j.id index h.0,
)
