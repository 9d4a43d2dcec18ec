-- ===== src/Engine/Expiry/Laws.antt =====
-- Membership and order in the expiry index of src/engine.rs.
use Prim.Native.Nat.{Ordering}
use cachebox.Prelude.{ℕ, ◌≤◌, ◌≡◌, refl, sym, ◌≢◌, ite, true, false, List, [], ◌∷◌, arith, All}
use cachebox.Prelude.Set.{contains}
use cachebox.Prelude.Set
use cachebox.Engine.Types.{Bytes, EntryId, ExpiryKey, ExpiryKey-discrete, expiry_key}
use cachebox.Engine.Expiry.{compare_bytes, compare_id, compare_expiry, insert}

compare_bytes_eq : (xs ys : Bytes) → compare_bytes xs ys ≡ Ordering.eq → xs ≡ ys
unfolding compare_bytes
compare_bytes_eq [] [] h = refl
compare_bytes_eq [] (y ∷ ys) h = cc
compare_bytes_eq (x ∷ xs) [] h = cc
compare_bytes_eq (x ∷ xs) (y ∷ ys) h = ground (arith, compare_bytes_eq xs ys)

compare_id_eq : (a b : EntryId) → compare_id a b ≡ Ordering.eq → a ≡ b
unfolding compare_id
compare_id_eq a b h =
    ground (arith, compare_bytes_eq a.namespace b.namespace, compare_bytes_eq a.key b.key)

compare_expiry_eq : (a b : ExpiryKey) → compare_expiry a b ≡ Ordering.eq → a ≡ b
unfolding compare_expiry
compare_expiry_eq a b h = ground (arith, compare_id_eq a.id b.id)

compare_expiry_lt :
    (a b : ExpiryKey) → compare_expiry a b ≡ Ordering.lt → a.expires_at_ms ≤ b.expires_at_ms
unfolding compare_expiry
compare_expiry_lt a b h = ground arith

compare_expiry_gt :
    (a b : ExpiryKey) → compare_expiry a b ≡ Ordering.gt → b.expires_at_ms ≤ a.expires_at_ms
unfolding compare_expiry
compare_expiry_gt a b h = ground arith

pub contains-insert :
    (k j : ExpiryKey) (index : List ExpiryKey)
    → contains j (insert k index) ≡ ite (ExpiryKey-discrete k j) true (contains j index)
unfolding insert contains
contains-insert k j [] = ground arith
contains-insert k j (i ∷ index) = ground (arith, contains-insert k j index, compare_expiry_eq k i)

-- Every key of an index satisfies a predicate after an insertion or a removal.
All-insert :
    (P : ExpiryKey → Type 0) (k : ExpiryKey) (index : List ExpiryKey)
    → P k
    → All P index
    → All P (insert k index)
unfolding insert
All-insert P k [] p h = (p, tt)
All-insert P k (j ∷ index) p h = ground (arith, All-insert P k index p h.1)

All-remove :
    (P : ExpiryKey → Type 0) (k : ExpiryKey) (index : List ExpiryKey)
    → All P index
    → All P (Set.remove k index)
unfolding Set.remove
All-remove P k [] h = h
All-remove P k (j ∷ index) h = ground (arith, All-remove P k index h.1)

-- The keys stand in the order of their times.
abbrev pub IsSorted : List ExpiryKey → Type 0
IsSorted [] = Unit
IsSorted (k ∷ index) = All (λ j. k.expires_at_ms ≤ j.expires_at_ms) index × IsSorted index

-- No two keys are of one entry.
abbrev pub IsSeparate : List ExpiryKey → Type 0
IsSeparate [] = Unit
IsSeparate (k ∷ index) = All (λ j. k.id ≢ j.id) index × IsSeparate index

-- No key is of the entry `id`.
abbrev pub IsFree : EntryId → List ExpiryKey → Type 0
IsFree id index = All (λ j. id ≢ j.id) index

All-le :
    (t u : ℕ) (index : List ExpiryKey)
    → t ≤ u
    → All (λ i. u ≤ i.expires_at_ms) index
    → All (λ i. t ≤ i.expires_at_ms) index
All-le t u [] h p = tt
All-le t u (k ∷ index) h p = (omega arith, All-le t u index h p.1)

pub insert-IsSorted :
    (k : ExpiryKey) (index : List ExpiryKey) → IsSorted index → IsSorted (insert k index)
unfolding insert
insert-IsSorted k [] h = (tt, tt)
insert-IsSorted k (j ∷ index) h = ground (
  arith,
  compare_expiry_lt k j,
  compare_expiry_gt k j,
  All-le k.expires_at_ms j.expires_at_ms index,
  All-insert (λ i. j.expires_at_ms ≤ i.expires_at_ms) k index,
  insert-IsSorted k index h.1,
)

pub insert-IsSeparate :
    (k : ExpiryKey) (index : List ExpiryKey)
    → IsFree k.id index
    → IsSeparate index
    → IsSeparate (insert k index)
unfolding insert
insert-IsSeparate k [] f h = (tt, tt)
insert-IsSeparate k (j ∷ index) f h =
    let swapped : j.id ≢ k.id = λ e. f.0 (sym e) in
    ground
      (arith, swapped, All-insert (λ i. j.id ≢ i.id) k index, insert-IsSeparate k index f.1 h.1)

pub remove-IsSorted :
    (k : ExpiryKey) (index : List ExpiryKey) → IsSorted index → IsSorted (Set.remove k index)
unfolding Set.remove
remove-IsSorted k [] h = h
remove-IsSorted k (j ∷ index) h = ground (
  arith,
  remove-IsSorted k index h.1,
  All-remove (λ i. j.expires_at_ms ≤ i.expires_at_ms) k index h.0,
)

pub remove-IsSeparate :
    (k : ExpiryKey) (index : List ExpiryKey) → IsSeparate index → IsSeparate (Set.remove k index)
unfolding Set.remove
remove-IsSeparate k [] h = h
remove-IsSeparate k (j ∷ index) h =
    ground (arith, remove-IsSeparate k index h.1, All-remove (λ i. j.id ≢ i.id) k index h.0)

-- An entry is free of keys when the index contains none of its keys.
pub IsFree-of_contains :
    (id : EntryId) (index : List ExpiryKey)
    → ((at_ms : ℕ) → contains (record { expires_at_ms = at_ms; id = id }) index ≡ false)
    → IsFree id index
unfolding contains
IsFree-of_contains id [] h = tt
IsFree-of_contains id (k ∷ index) h = (
  λ e. ground (arith, h k.expires_at_ms),
  IsFree-of_contains id index (λ at_ms. ground (arith, h at_ms)),
)
