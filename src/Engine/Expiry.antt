-- ===== src/Engine/Expiry.antt =====
-- The `BTreeSet<ExpiryKey>` of src/engine.rs: a list in the order of the derived `Ord`.
pub mod Laws
pub mod Pop
use Prim.Native.Nat.{compare, Ordering}
use cachebox.Prelude.{
  ℕ, ◌+◌, ◌-◌, Bool, ◌||◌, Option, none, some, List, [], ◌∷◌, ltb, ◌==◌, if◌then◌else◌,
}
use cachebox.Engine.Types.{Bytes, EntryId, ExpiryKey}

-- Texts and byte strings are compared byte by byte.
compare_bytes : Bytes → Bytes → Ordering
compare_bytes [] [] = Ordering.eq
compare_bytes [] (y ∷ ys) = Ordering.lt
compare_bytes (x ∷ xs) [] = Ordering.gt
compare_bytes (x ∷ xs) (y ∷ ys) = elim (compare x y) [
  | Ordering.lt ↦ Ordering.lt
  | Ordering.eq ↦ compare_bytes xs ys
  | Ordering.gt ↦ Ordering.gt
]

-- `Ord` derives the order field by field.
compare_id : EntryId → EntryId → Ordering
unfolding compare_bytes
compare_id a b = elim (compare_bytes a.namespace b.namespace) [
  | Ordering.lt ↦ Ordering.lt
  | Ordering.eq ↦ compare_bytes a.key b.key
  | Ordering.gt ↦ Ordering.gt
]

compare_expiry : ExpiryKey → ExpiryKey → Ordering
unfolding compare_id
compare_expiry a b = elim (compare a.expires_at_ms b.expires_at_ms) [
  | Ordering.lt ↦ Ordering.lt
  | Ordering.eq ↦ compare_id a.id b.id
  | Ordering.gt ↦ Ordering.gt
]

unfoldable pub insert : ExpiryKey → List ExpiryKey → List ExpiryKey
unfolding compare_expiry
insert k [] = k ∷ []
insert k (j ∷ index) = elim (compare_expiry k j) [
  | Ordering.lt ↦ k ∷ j ∷ index
  | Ordering.eq ↦ j ∷ index
  | Ordering.gt ↦ j ∷ insert k index
]

-- The first loop of `remove_expired`: at most `budget` keys leave from the front, while their time
-- has come. The ids of those that left, and the index that stays.
unfoldable pub pop_expired : ℕ → ℕ → List ExpiryKey → List EntryId × List ExpiryKey
pop_expired now_ms budget [] = ([], [])
pop_expired now_ms budget (k ∷ index) =
    let rest = pop_expired now_ms (budget - 1) index in
    if budget == 0 || ltb now_ms k.expires_at_ms then ([], k ∷ index) else (k.id ∷ rest.0, rest.1)
