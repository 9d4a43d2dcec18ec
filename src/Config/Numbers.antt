-- ===== src/Config/Numbers.antt =====
-- `str::parse::<u64>` of the standard library (`usize` has 64 bits too), which src/config.rs uses,
-- and the printing of numbers that it takes back.
use cachebox.Prelude.{
  ℕ, zero, suc, ◌+◌, ◌-◌, ◌*◌, ◌/◌, ◌%◌, ◌^◌, ◌≤◌, ◌<◌, ◌≡◌, refl, inl, inr, false, ◌&&◌, Option,
  none, some, [], ◌∷◌, ◌++◌, arith, ltb, leb, ◌==◌, if◌then◌else◌, Bool-cases, u64_max,
}
use cachebox.Prelude.{is_empty}
use cachebox.Bytes.{Text}
use native.Mathlib.Nat.{pow-suc}
use cachebox.Engine.Lease.{decimal, digits}

-- `a.checked_mul(10)?.checked_add(digit)?` for each byte; another byte than a digit is an error.
unfoldable pub parse_digits : ℕ → Text → Option ℕ
parse_digits n [] = some n
parse_digits n (byte ∷ bytes) =
    let m = n * 10 + (byte - b'0') in
    let rest = parse_digits m bytes in
    if leb b'0' byte && leb byte b'9' && leb m u64_max then rest else none

-- One leading `+` is allowed, an empty text and a lone sign are not.
unfoldable pub parse_u64 : Text → Option ℕ
parse_u64 [] = none
parse_u64 (byte ∷ []) = parse_digits 0 (byte ∷ [])
parse_u64 (byte ∷ next ∷ bytes) =
    if byte == b'+' then parse_digits 0 (next ∷ bytes) else parse_digits 0 (byte ∷ next ∷ bytes)

parse_digits_bounds : (n m : ℕ) (t : Text) → n ≤ u64_max → parse_digits n t ≡ some m → m ≤ u64_max
unfolding parse_digits
parse_digits_bounds n m [] h e = ground (arith, h, e)
parse_digits_bounds n m (byte ∷ bytes) h e =
    ground (arith, e, parse_digits_bounds (n * 10 + (byte - b'0')) m bytes)

-- A number that is read fits its type.
pub parse_u64_bounds : (m : ℕ) (t : Text) → parse_u64 t ≡ some m → m ≤ u64_max
unfolding parse_u64
parse_u64_bounds m [] e = ground (arith, e)
parse_u64_bounds m (byte ∷ []) e = parse_digits_bounds 0 m (byte ∷ []) (omega arith) e
parse_u64_bounds m (byte ∷ next ∷ bytes) e = ground (
  arith,
  e,
  parse_digits_bounds 0 m (next ∷ bytes),
  parse_digits_bounds 0 m (byte ∷ next ∷ bytes),
)

then_digit : ℕ → Option ℕ → Option ℕ
then_digit byte none = none
then_digit byte (some n) = parse_digits n (byte ∷ [])

parse_digits-last :
    (n byte : ℕ) (t : Text) → parse_digits n (t ++ byte ∷ []) ≡ then_digit byte (parse_digits n t)
unfolding parse_digits then_digit
parse_digits-last n byte [] = refl
parse_digits-last n byte (x ∷ xs) = ground (arith, parse_digits-last (n * 10 + (x - b'0')) byte xs)

parse_digits-digits :
    (fuel n : ℕ) → n < 10 ^ fuel → n ≤ u64_max → parse_digits 0 (digits fuel n) ≡ some n
unfolding digits parse_digits then_digit
parse_digits-digits zero n h b = rw (h0) refl
  where
    h0 : 0 ≡ n
    h0 = omega arith
parse_digits-digits (suc fuel) n h b = elim (Bool-cases (ltb n 10)) [
  | inl small ↦ rw small (ground arith)
  | inr large ↦ rw large (
      rw (parse_digits-last 0 (b'0' + n % 10) (digits fuel (n / 10))) (
        rw (parse_digits-digits fuel (n / 10) (omega (arith, pow-suc 10 fuel)) (omega arith))
          (ground arith)))
]

-- A sign before digits is the only way that the two readings differ.
parse_u64-digits :
    (n : ℕ) (t : Text) → is_empty t ≡ false → parse_digits 0 t ≡ some n → parse_u64 t ≡ some n
unfolding parse_u64 parse_digits
parse_u64-digits n [] full e = ground (arith, full)
parse_u64-digits n (byte ∷ []) full e = e
parse_u64-digits n (byte ∷ next ∷ bytes) full e = ground (arith, e)

is_empty-last : (t : Text) (byte : ℕ) → is_empty (t ++ byte ∷ []) ≡ false
is_empty-last [] byte = refl
is_empty-last (x ∷ xs) byte = refl

pub is_empty-digits : (fuel n : ℕ) → is_empty (digits (suc fuel) n) ≡ false
unfolding digits
is_empty-digits fuel n = elim (Bool-cases (ltb n 10)) [
  | inl small ↦ rw small refl
  | inr large ↦ rw large (is_empty-last (digits fuel (n / 10)) (b'0' + n % 10))
]

-- A printed number is read back.
pub parse_u64-decimal : (n : ℕ) → n ≤ u64_max → parse_u64 (decimal n) ≡ some n
unfolding decimal
parse_u64-decimal n h =
    parse_u64-digits n (digits 20 n) (is_empty-digits 19 n)
      (parse_digits-digits 20 n (omega arith) h)
