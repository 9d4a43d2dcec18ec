-- ===== src/Prelude/Map.antt =====
-- A `HashMap` as an association list: the order of the list stands for no order of iteration.
use Prim.Native.Nat.{ℕ, ◌+◌}
use mathlib.Core.Path.{◌≡◌, refl}
use mathlib.Core.Logic.{ite}
use mathlib.Core.Option.{Option, none, some}
use mathlib.Core.List.{List, [], ◌∷◌}
use native.Mathlib.Omega.{arith}
use cachebox.Prelude.Tests.{Key}
use cachebox.Prelude.Lists.{length}

abbrev pub Assoc {ℓ} : Type ℓ → Type ℓ → Type ℓ
Assoc K V = List (K × V)

-- The sum of a measure of the entries.
unfoldable pub total {ℓ} : {K V : Type ℓ} → (K → V → ℕ) → Assoc K V → ℕ
total f [] = 0
total f ((k, v) ∷ m) = f k v + total f m

module _ {ℓ} {K V : Type ℓ} ⦃key : Key K⦄ where
  unfoldable pub get : K → Assoc K V → Option V
  get k [] = none
  get k ((j, v) ∷ m) = ite (key.same j k) (some v) (get k m)

  unfoldable pub remove : K → Assoc K V → Assoc K V
  remove k [] = []
  remove k ((j, v) ∷ m) = let rest = remove k m in ite (key.same j k) rest ((j, v) ∷ rest)

  -- `map.insert(k, v)`
  unfoldable pub insert : K → V → Assoc K V → Assoc K V
  insert k v m = (k, v) ∷ remove k m

  -- A key is listed once.
  abbrev pub Distinct : Assoc K V → Type ℓ
  Distinct [] = Unit
  Distinct ((k, v) ∷ m) = (get k m ≡ none) × Distinct m

  pub get-remove :
      (k j : K) (m : Assoc K V) → get j (remove k m) ≡ ite (key.same k j) none (get j m)
  unfolding get remove
  get-remove k j [] = ground arith
  get-remove k j ((i, v) ∷ m) = ground (arith, get-remove k j m)

  pub get-insert :
      (k j : K) (v : V) (m : Assoc K V)
      → get j (insert k v m) ≡ ite (key.same k j) (some v) (get j m)
  unfolding get insert
  get-insert k j v m = ground (arith, get-remove k j m)

  pub remove_absent : (k : K) (m : Assoc K V) → get k m ≡ none → remove k m ≡ m
  unfolding get remove
  remove_absent k [] h = refl
  remove_absent k ((i, v) ∷ m) h = ground (arith, remove_absent k m)

  pub remove-Distinct : (k : K) (m : Assoc K V) → Distinct m → Distinct (remove k m)
  unfolding get remove
  remove-Distinct k [] d = d
  remove-Distinct k ((i, v) ∷ m) d = ground (arith, remove-Distinct k m d.1, get-remove k i m)

  pub insert-Distinct : (k : K) (v : V) (m : Assoc K V) → Distinct m → Distinct (insert k v m)
  unfolding insert
  insert-Distinct k v m d = (ground (arith, get-remove k k m), remove-Distinct k m d)

  pub total-remove :
      (f : K → V → ℕ) (k : K) (v : V) (m : Assoc K V)
      → Distinct m
      → get k m ≡ some v
      → total f (remove k m) + f k v ≡ total f m
  unfolding get remove total
  total-remove f k v [] d h = ground arith
  total-remove f k v ((i, w) ∷ m) d h = ground (arith, total-remove f k v m d.1, remove_absent k m)

  pub length-remove :
      (k : K) (v : V) (m : Assoc K V)
      → Distinct m
      → get k m ≡ some v
      → length (remove k m) + 1 ≡ length m
  unfolding get remove
  length-remove k v [] d h = ground arith
  length-remove k v ((i, w) ∷ m) d h = ground (arith, length-remove k v m d.1, remove_absent k m)
