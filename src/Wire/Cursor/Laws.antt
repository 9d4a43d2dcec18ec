-- ===== src/Wire/Cursor/Laws.antt =====
-- What the reads of the cursor of crates/cachebox-protocol/src/lib.rs return on bytes that are known.
use cachebox.Prelude.{
  get_elem?, ℕ, ◌+◌, ◌-◌, ◌≤◌, ◌≡◌, refl, ap, ◌∙◌, some, [], ◌∷◌, ◌++◌, append-nil, append_assoc,
  arith, ok, length, length-append, take-append, drop-append, u64_max,
}
use mathlib.Core.Path.{subst}
use cachebox.Bytes.{Bytes}
use cachebox.Wire.Cursor.{Cursor, Reader, ◌>>=◌, pure, slice, read_u8, read_exact}

-- The cursor between what has been read and what is left.
abbrev pub between : Bytes → Bytes → Cursor
between past rest = record { input = past ++ rest; offset = length past }

-- Wherever the bytes `word` come next, `m` reads them, all of them, and returns `a`.
pub record Reads {ℓ} {A : Type ℓ} (m : Reader A) (word : Bytes) (a : A) : Type ℓ where
  pub at :
      (past rest : Bytes)
      → length past + (length word + length rest) ≤ u64_max
      → m (between past (word ++ rest)) ≡ ok (a, between (past ++ word) rest)

between-append :
    (past word rest : Bytes)
    → record (between past (word ++ rest)) { offset = length past + length word }
      ≡ between (past ++ word) rest
between-append past word rest = rw (append_assoc past word rest, length-append past word)

module _ {ℓ} {A : Type ℓ} where
  pub Reads-pure : (a : A) → Reads (pure a) [] a
  unfolding pure
  Reads-pure a = record { at = λ past rest fits. rw (append-nil past) }

  pub Reads-pure_eq : {a b : A} → a ≡ b → Reads (pure a) [] b
  Reads-pure_eq {a} e = subst (λ b. Reads (pure a) [] b) e (Reads-pure a)

  -- The word of a reader may be given by an equation.
  pub Reads-cast : {m : Reader A} {v w : Bytes} {a : A} → v ≡ w → Reads m v a → Reads m w a
  Reads-cast {m} {a = a} e r = subst (λ w. Reads m w a) e r

module _ {ℓ κ} {A : Type ℓ} {B : Type κ} where
  pub Reads-bind :
      {m : Reader A} (f : A → Reader B) {v w : Bytes} {a : A} {b : B}
      → Reads m v a
      → Reads (f a) w b
      → Reads (m >>= f) (v ++ w) b
  unfolding ◌>>=◌
  Reads-bind {m} f {v} {w} {a} {b} p q = record {
    at = λ past rest fits. rw append_assoc (
        rw
          (
            p.at past (w ++ rest) (omega (arith, fits, length-append v w, length-append w rest)),
            ◌>>=◌,
          )
          (q.at (past ++ v) rest (omega (arith, fits, length-append v w, length-append past v))
            ∙ ap (λ (x : Bytes). ok (b, between x rest)) (append_assoc past v w)));
  }

  -- A last step that reads nothing.
  pub Reads-last :
      {m : Reader A} (f : A → Reader B) {w : Bytes} {a : A} {b : B}
      → Reads m w a
      → Reads (f a) [] b
      → Reads (m >>= f) w b
  Reads-last f {w = w} p q = Reads-cast (append-nil w) (Reads-bind f p q)

slice_word :
    (past word rest : Bytes)
    → slice (past ++ (word ++ rest)) (length past) (length past + length word) ≡ word
slice_word past word rest =
    let count : length past + length word - length past ≡ length word = omega arith in
    rw (drop-append past (word ++ rest)) (rw count (take-append word rest))

get_elem?-append :
    (past rest : Bytes) (byte : ℕ) → get_elem? (past ++ (byte ∷ rest)) (length past) ≡ some byte
unfolding get_elem?
get_elem?-append [] rest byte = refl
get_elem?-append (x ∷ past) rest byte = get_elem?-append past rest byte

pub Reads-exact : (word : Bytes) → Reads (read_exact (length word)) word word
unfolding read_exact
Reads-exact word = record {
  at = λ past rest fits. ground (
    arith,
    fits,
    slice_word past word rest,
    between-append past word rest,
    length-append past (word ++ rest),
    length-append word rest,
  );
}

pub Reads-u8 : (byte : ℕ) → Reads read_u8 (byte ∷ []) byte
unfolding read_u8
Reads-u8 byte = record {
  at = λ past rest fits.
      ground (arith, get_elem?-append past rest byte, between-append past (byte ∷ []) rest);
}
