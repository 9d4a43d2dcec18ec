-- ===== src/Ai/Words.antt =====
-- The fields of the normal forms of clients/rust/cachebox-client/src/ai.rs can be told apart: each states
-- its lengths before its bytes.
use cachebox.Prelude.{
  ℕ, ◌%◌, ◌^◌, ◌<◌, ◌≡◌, refl, sym, ap, ◌∙◌, List, [], ◌∷◌, ◌++◌, append_assoc, arith, length,
}
use mathlib.Core.List.{head-eq_of_cons-eq, tail-eq_of_cons-eq}
use cachebox.Bytes.{Bytes}
use cachebox.Wire.Encode.{be_bytes}
use cachebox.Wire.Cursor.{from_be}
use cachebox.Wire.Cursor.Fields.{from_be-be_bytes, length-be_bytes}
use cachebox.Ai.Keys.{append_u64, append_bytes}

abbrev pub IsSmall {ℓ} : {A : Type ℓ} → List A → Type 0
IsSmall xs = length xs < 2 ^ 64

-- A step that writes a word behind what is there.
abbrev pub Appends : (Bytes → Bytes) → Bytes → Type 0
Appends f w = (out : Bytes) → f out ≡ out ++ w

-- A word in front of what is written afterwards.
pub write_then :
    (f : Bytes → Bytes) (v w : Bytes) → Appends f v → (out : Bytes) → f out ++ w ≡ out ++ (v ++ w)
write_then f v w a out = ap (λ (x : Bytes). x ++ w) (a out) ∙ append_assoc out v w

unfoldable pub number_word : ℕ → Bytes
number_word n = be_bytes 8 (n % 2 ^ 64)

unfoldable pub word : Bytes → Bytes → Bytes
unfolding number_word
word field value = number_word (length field) ++ (field ++ (number_word (length value) ++ value))

pub append_u64-Appends : (n : ℕ) → Appends (append_u64 n) (number_word n)
unfolding append_u64 number_word
append_u64-Appends n out = refl

pub append_bytes-Appends :
    (field value : Bytes) → Appends (append_bytes field value) (word field value)
unfolding append_u64 append_bytes word number_word
append_bytes-Appends field value out =
    let a = be_bytes 8 (length field % 2 ^ 64) in
    let b = be_bytes 8 (length value % 2 ^ 64) in
    append_assoc ((out ++ a) ++ field) b value
    ∙ (append_assoc (out ++ a) field (b ++ value) ∙ append_assoc out a (field ++ (b ++ value)))

pub append_cancel :
    {A : Type 0} (xs ys r s : List A)
    → length xs ≡ length ys
    → xs ++ r ≡ ys ++ s
    → (xs ≡ ys) × (r ≡ s)
append_cancel [] [] r s h e = (refl, e)
append_cancel [] (y ∷ ys) r s h e = absurd (omega (arith, h))
append_cancel (x ∷ xs) [] r s h e = absurd (omega (arith, h))
append_cancel (x ∷ xs) (y ∷ ys) r s h e =
    let rest = append_cancel xs ys r s (omega (arith, h)) (tail-eq_of_cons-eq e) in
    (λ i. head-eq_of_cons-eq e i ∷ rest.0 i, rest.1)

-- Two words of numbers are the same only if the numbers are.
pub number_word-cancel :
    (m n : ℕ) (r s : Bytes)
    → m < 2 ^ 64
    → n < 2 ^ 64
    → number_word m ++ r ≡ number_word n ++ s
    → (m ≡ n) × (r ≡ s)
unfolding number_word
number_word-cancel m n r s hm hn e =
    let a = be_bytes 8 (m % 2 ^ 64) in
    let b = be_bytes 8 (n % 2 ^ 64) in
    let parts =
      append_cancel a b r s (length-be_bytes 8 (m % 2 ^ 64) ∙ sym (length-be_bytes 8 (n % 2 ^ 64)))
        e in
    let back : m % 2 ^ 64 ≡ n % 2 ^ 64 =
      sym (from_be-be_bytes 8 (m % 2 ^ 64) (omega arith))
      ∙ (ap from_be parts.0 ∙ from_be-be_bytes 8 (n % 2 ^ 64) (omega arith)) in
    (omega (arith, back, hm, hn), parts.1)

word-append :
    (field u q : Bytes)
    → word field u ++ q
      ≡ number_word (length field) ++ (field ++ (number_word (length u) ++ (u ++ q)))
unfolding word
word-append field u q =
    let a = number_word (length field) in
    let b = number_word (length u) in
    append_assoc a (field ++ (b ++ u)) q
    ∙ ap (λ (x : Bytes). a ++ x)
        (append_assoc field (b ++ u) q ∙ ap (λ (x : Bytes). field ++ x) (append_assoc b u q))

pub word-cancel :
    (field v w r s : Bytes)
    → IsSmall v
    → IsSmall w
    → word field v ++ r ≡ word field w ++ s
    → (v ≡ w) × (r ≡ s)
word-cancel field v w r s hv hw e =
    let one =
      append_cancel (number_word (length field)) (number_word (length field)) _ _ refl
        (sym (word-append field v r) ∙ (e ∙ word-append field w s)) in
    let two = append_cancel field field _ _ refl one.1 in
    let three = number_word-cancel (length v) (length w) _ _ hv hw two.1 in
    append_cancel v w r s three.0 three.1
