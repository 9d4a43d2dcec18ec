-- ===== src/Wire/Cursor.antt =====
-- `Cursor` of crates/cachebox-protocol/src/lib.rs: a read returns what it read beside the moved
-- cursor, or an error.
pub mod Laws
pub mod Fields
use cachebox.Prelude.{
  get_elem?, ℕ, zero, suc, ◌+◌, ◌-◌, ◌*◌, ◌/◌, ◌%◌, ◌^◌, ◌≤◌, ◌<◌, min, ◌≡◌, refl, sym, ap, ◌∙◌,
  ◌≢◌, ◌↔◌, ◌⊎◌, inl, inr, ite, if_pos, if_neg, Bool, true, false, ◌&&◌, ◌||◌, not, Option, none,
  some, List, [], ◌∷◌, ◌++◌, map, append-nil, append_assoc, arith, ℕ_discrete, ltb, leb, ◌==◌,
  if◌then◌else◌, ltb→lt, ltb→le, lt→ltb, le→ltb, leb→le, le→leb, ==_iff, tests, Bool-cases,
  Option-cases, Result, ok, err, Key, is_some, length, take, drop, length-append, take-append,
  drop-append, All, sum, u64_max, saturating_add, saturating_sub, wrapping_add,
  saturating_add_exact, saturating_add_bounds,
}
use Prim.Native.String.{String}
use mathlib.Core.List.{foldl}
use cachebox.Bytes.{Bytes, Text}
use cachebox.Wire.Types.{DecodeError, invalid_payload, invalid_utf8, invalid_bool, trailing_bytes}
use cachebox.Wire.Utf8.{is_utf8}

pub record Cursor : Type 0 where
  pub input : Bytes
  pub offset : ℕ

abbrev pub Reader {ℓ} : Type ℓ → Type ℓ
Reader A = Cursor → Result DecodeError (A × Cursor)

infixl 5 ◌>>=◌ ◌>>◌
unfoldable pub ◌>>=◌ {ℓ κ} : {A : Type ℓ} {B : Type κ} → Reader A → (A → Reader B) → Reader B
◌>>=◌ m f c = elim (m c) [ err e ↦ err e | ok (a, c') ↦ f a c' ]

abbrev pub ◌>>◌ {ℓ κ} : {A : Type ℓ} {B : Type κ} → Reader A → Reader B → Reader B
m >> n = m >>= λ _. n

unfoldable pub pure {ℓ} : {A : Type ℓ} → A → Reader A
pure a c = ok (a, c)

unfoldable pub fail {ℓ} : {A : Type ℓ} → DecodeError → Reader A
fail e c = err e

-- `bytes[low..high]`
abbrev pub slice : Bytes → ℕ → ℕ → Bytes
slice bytes low high = take (high - low) (drop low bytes)

-- `from_be_bytes`
unfoldable pub from_be : Bytes → ℕ
from_be = foldl (λ n byte. n * 256 + byte) 0

unfoldable pub new_cursor : Bytes → Cursor
new_cursor input = record { input = input; offset = 0 }

unfoldable pub read_u8 : Reader ℕ
read_u8 c = elim (get_elem? c.input c.offset) [
  | none ↦ err (invalid_payload "truncated u8")
  | some byte ↦ ok (byte, record c { offset = c.offset + 1 })
]

unfoldable pub read_exact : ℕ → Reader Bytes
read_exact len c =
    let end = c.offset + len in
    if ltb u64_max end
    then err (invalid_payload "length overflow")
    else if ltb (length c.input) end
    then err (invalid_payload "truncated field")
    else ok (slice c.input c.offset end, record c { offset = end })

unfoldable pub read_u16 : Reader ℕ
read_u16 = do bytes ← read_exact 2; pure (from_be bytes)

unfoldable pub read_u32 : Reader ℕ
read_u32 = do bytes ← read_exact 4; pure (from_be bytes)

unfoldable pub read_u64 : Reader ℕ
read_u64 = do bytes ← read_exact 8; pure (from_be bytes)

bool_of : ℕ → Reader Bool
bool_of byte =
    if byte == 0 then pure false else if byte == 1 then pure true else fail (invalid_bool byte)

unfoldable pub read_bool : Reader Bool
unfolding bool_of
read_bool = do byte ← read_u8; bool_of byte

unfoldable pub read_bytes : Reader Bytes
read_bytes = do len ← read_u32; read_exact len

-- `from_utf8`, with the error mapped.
text_of : Bytes → Reader Text
text_of bytes = if is_utf8 bytes then pure bytes else fail invalid_utf8

unfoldable pub read_string : Reader Text
unfolding text_of
read_string = do bytes ← read_bytes; text_of bytes

unfoldable pub read_borrowed_bytes : Reader Bytes
read_borrowed_bytes = do len ← read_u32; read_exact len

unfoldable pub read_borrowed_string : Reader Text
unfolding text_of
read_borrowed_string = do bytes ← read_borrowed_bytes; text_of bytes

unfoldable pub expect_empty : Reader (Unit {0})
expect_empty c =
    if c.offset == length c.input
    then ok (tt, c)
    else err (trailing_bytes (length c.input - c.offset))

-- `for _ in 0..count` around one read
unfoldable pub read_many {ℓ} : {A : Type ℓ} → Reader A → ℕ → Reader (List A)
read_many one zero = pure []
read_many one (suc count) = do x ← one; xs ← read_many one count; pure (x ∷ xs)
