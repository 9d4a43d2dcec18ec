-- ===== src/Wire/Cursor/Fields.antt =====
-- The words of the fields of crates/cachebox-protocol/src/lib.rs, and that the reads take them back.
use cachebox.Prelude.{
  ℕ, zero, suc, ◌/◌, ◌%◌, ◌^◌, ◌<◌, ◌≡◌, refl, Bool, true, false, List, [], ◌∷◌, ◌++◌, arith,
  if◌then◌else◌, length, length-append, All,
}
use mathlib.Core.List.{foldl-append}
use native.Mathlib.Nat.{pow-suc}
use cachebox.Bytes.{Bytes, Text}
use cachebox.Wire.Utf8.{is_utf8}
use cachebox.Wire.Encode.{be_bytes}
use cachebox.Wire.Cursor.{
  Reader, ◌>>=◌, pure, from_be, read_exact, read_u16, read_u32, read_u64, read_bool, read_bytes,
  read_string, read_many,
}
use cachebox.Wire.Cursor.Laws.{Reads, Reads-pure, Reads-bind, Reads-last, Reads-exact, Reads-u8}

pub length-be_bytes : (width n : ℕ) → length (be_bytes width n) ≡ width
unfolding be_bytes
length-be_bytes zero n = refl
length-be_bytes (suc width) n = omega (
  arith,
  length-append (be_bytes width (n / 256)) (n % 256 ∷ []),
  length-be_bytes width (n / 256),
)

-- A number that fits so many bytes comes back from its big-endian bytes.
pub from_be-be_bytes : (width n : ℕ) → n < 256 ^ width → from_be (be_bytes width n) ≡ n
unfolding from_be be_bytes
from_be-be_bytes zero n h = omega arith
from_be-be_bytes (suc width) n h =
    rw foldl-append (omega (arith, pow-suc 256 width, from_be-be_bytes width (n / 256)))

Reads-word :
    (width n : ℕ)
    → n < 256 ^ width
    → Reads (read_exact width >>= λ bytes. pure (from_be bytes)) (be_bytes width n) n
Reads-word width n h =
    let exact : Reads (read_exact width) (be_bytes width n) (be_bytes width n) =
      rw (length-be_bytes width n) at (Reads-exact (be_bytes width n)) in
    let result : Reads (pure (from_be (be_bytes width n))) [] n =
      rw (from_be-be_bytes width n h) (Reads-pure n) in
    Reads-last _ exact result

pub Reads-u16 : (n : ℕ) → n < 2 ^ 16 → Reads read_u16 (be_bytes 2 n) n
unfolding read_u16
Reads-u16 n h = Reads-word 2 n h

pub Reads-u32 : (n : ℕ) → n < 2 ^ 32 → Reads read_u32 (be_bytes 4 n) n
unfolding read_u32
Reads-u32 n h = Reads-word 4 n h

pub Reads-u64 : (n : ℕ) → n < 2 ^ 64 → Reads read_u64 (be_bytes 8 n) n
unfolding read_u64
Reads-u64 n h = Reads-word 8 n h

abbrev pub bool_word : Bool → Bytes
bool_word b = (if b then 1 else 0) ∷ []

pub Reads-bool : (b : Bool) → Reads read_bool (bool_word b) b
unfolding read_bool
Reads-bool true = Reads-last _ (Reads-u8 1) (Reads-pure true)
Reads-bool false = Reads-last _ (Reads-u8 0) (Reads-pure false)

-- A length of four bytes, and the bytes.
abbrev pub bytes_word : Bytes → Bytes
bytes_word value = be_bytes 4 (length value) ++ value

pub Reads-bytes :
    (value : Bytes) → length value < 2 ^ 32 → Reads read_bytes (bytes_word value) value
unfolding read_bytes
Reads-bytes value h = Reads-bind _ (Reads-u32 (length value) h) (Reads-exact value)

pub Reads-string :
    (value : Text)
    → is_utf8 value ≡ true
    → length value < 2 ^ 32
    → Reads read_string (bytes_word value) value
unfolding read_string
Reads-string value valid h = Reads-last _ (Reads-bytes value h) (rw valid (Reads-pure value))

-- The words of the elements, one after the other.
unfoldable pub words {ℓ} : {A : Type ℓ} → (A → Bytes) → List A → Bytes
words word [] = []
words word (x ∷ xs) = word x ++ words word xs

pub Reads-many {ℓ} :
    {A : Type ℓ} (one : Reader A) (word : A → Bytes) (xs : List A)
    → All (λ x. Reads one (word x) x) xs
    → Reads (read_many one (length xs)) (words word xs) xs
unfolding read_many words
Reads-many one word [] h = Reads-pure []
Reads-many one word (x ∷ xs) h =
    Reads-bind _ h.0 (Reads-last _ (Reads-many one word xs h.1) (Reads-pure (x ∷ xs)))
