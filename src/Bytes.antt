-- ===== src/Bytes.antt =====
-- Byte strings, texts and durations, which the protocol and the engine share.
use Prim.Native.Char.{code}
use Prim.Native.String.{String}
use cachebox.Prelude.{ℕ, ◌≡◌, refl, Bool, true, false, ◌&&◌, List, [], ◌∷◌, arith, ◌==◌}

-- `Vec<u8>`
abbrev pub Bytes : Type 0
Bytes = List ℕ

-- `String`: a text is the list of its bytes, as `len`, the comparisons and the wire see it.
abbrev pub Text : Type 0
Text = List ℕ

-- `Ttl` of crates/cachebox-protocol/src/lib.rs
pub record Ttl : Type 0 where
  pub milliseconds : ℕ

-- A literal of the source.
abbrev pub text : String → Text
text String.[] = []
text (String.◌∷◌ c s) = code c ∷ text s

-- `==` of two texts
unfoldable pub same_text : Text → Text → Bool
same_text [] [] = true
same_text [] (y ∷ ys) = false
same_text (x ∷ xs) [] = false
same_text (x ∷ xs) (y ∷ ys) = let rest = same_text xs ys in x == y && rest

pub same_text_refl : (t : Text) → same_text t t ≡ true
unfolding same_text
same_text_refl [] = refl
same_text_refl (x ∷ xs) = ground (arith, same_text_refl xs)

pub same_text-eq : (t u : Text) → same_text t u ≡ true → t ≡ u
unfolding same_text
same_text-eq [] [] h = refl
same_text-eq [] (y ∷ ys) h = ground (arith, h)
same_text-eq (x ∷ xs) [] h = ground (arith, h)
same_text-eq (x ∷ xs) (y ∷ ys) h = ground (arith, h, same_text-eq xs ys)
