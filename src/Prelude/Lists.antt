-- ===== src/Prelude/Lists.antt =====
-- Lists measured and cut by native numbers.
use Prim.Native.Nat.{ℕ, zero, suc, ◌+◌, ◌<◌}
use mathlib.Core.Path.{◌≡◌, refl, ap}
use mathlib.Core.Option.{Option, none, some}
use mathlib.Core.Logic.{◌≢◌}
use mathlib.Core.Bool.{Bool, true, false}
use mathlib.Core.List.{List, [], ◌∷◌, ◌++◌}
use native.Mathlib.Omega.{arith}

module _ {ℓ} {A : Type ℓ} where
  abbrev pub length : List A → ℕ
  length [] = 0
  length (x ∷ xs) = suc (length xs)

  abbrev pub take : ℕ → List A → List A
  take zero xs = []
  take (suc n) [] = []
  take (suc n) (x ∷ xs) = x ∷ take n xs

  abbrev pub drop : ℕ → List A → List A
  drop zero xs = xs
  drop (suc n) [] = []
  drop (suc n) (x ∷ xs) = drop n xs

  pub length-append : (xs ys : List A) → length (xs ++ ys) ≡ length xs + length ys
  length-append [] ys = omega arith
  length-append (x ∷ xs) ys = omega (arith, length-append xs ys)

  pub take-append : (xs ys : List A) → take (length xs) (xs ++ ys) ≡ xs
  take-append [] ys = refl
  take-append (x ∷ xs) ys = rw (take-append xs ys)

  pub drop-append : (xs ys : List A) → drop (length xs) (xs ++ ys) ≡ ys
  drop-append [] ys = refl
  drop-append (x ∷ xs) ys = drop-append xs ys

  abbrev pub All {κ} : (A → Type κ) → List A → Type κ
  All P [] = Unit {κ}
  All P (x ∷ xs) = P x × All P xs

  -- A property of all elements, weakened.
  pub All-map : (P Q : A → Type 0) (xs : List A) → ((x : A) → P x → Q x) → All P xs → All Q xs
  All-map P Q [] f h = tt
  All-map P Q (x ∷ xs) f h = (f x h.0, All-map P Q xs f h.1)

  abbrev pub is_empty : List A → Bool
  is_empty [] = true
  is_empty (x ∷ xs) = false

  pub empty_of_is_empty : (xs : List A) → is_empty xs ≡ true → xs ≡ []
  empty_of_is_empty [] h = refl
  empty_of_is_empty (x ∷ xs) h = cc

-- `iter().sum()`
abbrev pub sum : List ℕ → ℕ
sum [] = 0
sum (x ∷ xs) = x + sum xs

-- `xs[i]`, where `none` stands for an index out of range, and `xs[i] = x`.
module _ {ℓ} {A : Type ℓ} where
  unfoldable pub get_elem? : List A → ℕ → Option A
  get_elem? [] i = none
  get_elem? (x ∷ xs) zero = some x
  get_elem? (x ∷ xs) (suc i) = get_elem? xs i

  unfoldable pub set_elem : List A → ℕ → A → List A
  set_elem [] i y = []
  set_elem (x ∷ xs) zero y = y ∷ xs
  set_elem (x ∷ xs) (suc i) y = x ∷ set_elem xs i y

  pub length-set_elem : (xs : List A) (i : ℕ) (y : A) → length (set_elem xs i y) ≡ length xs
  unfolding set_elem
  length-set_elem [] i y = refl
  length-set_elem (x ∷ xs) zero y = refl
  length-set_elem (x ∷ xs) (suc i) y = ap suc (length-set_elem xs i y)

  pub get_elem?-lt : (xs : List A) (i : ℕ) (x : A) → get_elem? xs i ≡ some x → i < length xs
  unfolding get_elem?
  get_elem?-lt [] i x h = ground (arith, h)
  get_elem?-lt (y ∷ xs) zero x h = omega arith
  get_elem?-lt (y ∷ xs) (suc i) x h = omega (arith, get_elem?-lt xs i x h)

  pub lt-get_elem? : (xs : List A) (i : ℕ) → i < length xs → (x : A) × (get_elem? xs i ≡ some x)
  unfolding get_elem?
  lt-get_elem? [] i h = absurd (omega arith)
  lt-get_elem? (y ∷ xs) zero h = (y, refl)
  lt-get_elem? (y ∷ xs) (suc i) h = lt-get_elem? xs i (omega arith)

  pub get_elem?-set_elem :
      (xs : List A) (i : ℕ) (y : A) → i < length xs → get_elem? (set_elem xs i y) i ≡ some y
  unfolding get_elem? set_elem
  get_elem?-set_elem [] i y h = absurd (omega arith)
  get_elem?-set_elem (x ∷ xs) zero y h = refl
  get_elem?-set_elem (x ∷ xs) (suc i) y h = get_elem?-set_elem xs i y (omega arith)

  pub get_elem?-set_elem_ne :
      (xs : List A) (i j : ℕ) (y : A) → i ≢ j → get_elem? (set_elem xs i y) j ≡ get_elem? xs j
  unfolding get_elem? set_elem
  get_elem?-set_elem_ne [] i j y ne = refl
  get_elem?-set_elem_ne (x ∷ xs) zero zero y ne = absurd (ne refl)
  get_elem?-set_elem_ne (x ∷ xs) zero (suc j) y ne = refl
  get_elem?-set_elem_ne (x ∷ xs) (suc i) zero y ne = refl
  get_elem?-set_elem_ne (x ∷ xs) (suc i) (suc j) y ne =
      get_elem?-set_elem_ne xs i j y (λ e. ne (ap suc e))
