-- ===== src/Prelude/Set.antt =====
-- A set of keys as a list.
use mathlib.Core.Path.{◌≡◌}
use mathlib.Core.Logic.{ite}
use mathlib.Core.Bool.{Bool, true, false}
use mathlib.Core.List.{List, [], ◌∷◌}
use native.Mathlib.Omega.{arith}
use cachebox.Prelude.Tests.{Key, if◌then◌else◌}

module _ {K : Type 0} ⦃key : Key K⦄ where
  unfoldable pub contains : K → List K → Bool
  contains k [] = false
  contains k (j ∷ s) = ite (key.same j k) true (contains k s)

  unfoldable pub remove : K → List K → List K
  remove k [] = []
  remove k (j ∷ s) = let rest = remove k s in ite (key.same j k) rest (j ∷ rest)

  -- `set.insert(k)`
  unfoldable pub insert : K → List K → List K
  insert k s = if contains k s then s else k ∷ s

  pub contains-remove :
      (k j : K) (s : List K) → contains j (remove k s) ≡ ite (key.same k j) false (contains j s)
  unfolding contains remove
  contains-remove k j [] = ground arith
  contains-remove k j (i ∷ s) = ground (arith, contains-remove k j s)

  pub contains-insert :
      (k j : K) (s : List K) → contains j (insert k s) ≡ ite (key.same k j) true (contains j s)
  unfolding contains insert
  contains-insert k j s = ground arith
