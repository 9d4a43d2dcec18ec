-- ===== src/Server/Chunks.antt =====
-- The read buffer of a connection of src/server.rs, where the stream is a sequence of frames.
use cachebox.Prelude.{
  ℕ, zero, suc, ◌+◌, ◌-◌, ◌≤◌, ◌<◌, ◌≡◌, refl, sym, ap, ◌∙◌, ◌⊎◌, inl, inr, [], ◌∷◌, ◌++◌, arith,
  ltb, ltb→lt, ltb→le, Bool-cases, length, take, drop, length-append,
}
use cachebox.Bytes.{Bytes}
use cachebox.Wire.Cursor.{slice, from_be}
use cachebox.Wire.Encode.{header_len}
use cachebox.Server.Frames.{payload_len_at, IsPartial}

-- A header and the payload that it announces, within the limit.
abbrev pub IsWhole : ℕ → Bytes → Type 0
IsWhole max_payload_len frame =
    (length frame ≡ header_len + payload_len_at frame 0)
    × (payload_len_at frame 0 ≤ max_payload_len)

-- No complete frame, and no header of a frame over the limit.
abbrev pub IsRest : ℕ → Bytes → Type 0
IsRest max_payload_len tail =
    IsPartial tail 0 × ((length tail < header_len) ⊎ (payload_len_at tail 0 ≤ max_payload_len))

pub take_prefix : (k : ℕ) (xs ys : Bytes) → k ≤ length xs → take k (xs ++ ys) ≡ take k xs
take_prefix zero xs ys le = refl
take_prefix (suc k) [] ys le = ground arith
take_prefix (suc k) (x ∷ xs) ys le = ap (◌∷◌ x) (take_prefix k xs ys (omega (arith, le)))

slice_prefix :
    (n k : ℕ) (xs ys : Bytes) → n + k ≤ length xs → take k (drop n (xs ++ ys)) ≡ take k (drop n xs)
slice_prefix zero k xs ys le = take_prefix k xs ys (omega (arith, le))
slice_prefix (suc n) k [] ys le = ground arith
slice_prefix (suc n) k (x ∷ xs) ys le = slice_prefix n k xs ys (omega (arith, le))

-- The length in a header does not depend on what follows.
pub payload_len_at-append :
    (xs ys : Bytes) → 20 ≤ length xs → payload_len_at (xs ++ ys) 0 ≡ payload_len_at xs 0
unfolding payload_len_at
payload_len_at-append xs ys le = ap from_be (slice_prefix 16 4 xs ys le)

pub drop_past : (n : ℕ) (past rest : Bytes) → drop (length past + n) (past ++ rest) ≡ drop n rest
drop_past n [] rest = let e : 0 + n ≡ n = omega arith in rw e refl
drop_past n (x ∷ past) rest =
    let e : suc (length past) + n ≡ suc (length past + n) = omega arith in
    rw e (drop_past n past rest)

pub slice_past :
    (low high : ℕ) (past rest : Bytes)
    → slice (past ++ rest) (length past + low) (length past + high) ≡ slice rest low high
slice_past low high past rest =
    let e : (length past + high) - (length past + low) ≡ high - low = omega arith in
    rw e (rw (drop_past low past rest) refl)

pub payload_len_at_past :
    (past rest : Bytes) → payload_len_at (past ++ rest) (length past) ≡ payload_len_at rest 0
unfolding payload_len_at
payload_len_at_past past rest = ap from_be (slice_past 16 20 past rest)

-- A beginning of a stream that is shorter than its first frame is a rest.
pub beginning-IsRest :
    (max_payload_len : ℕ) (buffer more whole : Bytes)
    → buffer ++ more ≡ whole
    → length buffer < header_len + payload_len_at whole 0
    → (length whole < header_len) ⊎ (payload_len_at whole 0 ≤ max_payload_len)
    → IsRest max_payload_len buffer
beginning-IsRest max_payload_len buffer more whole e short small =
    elim (Bool-cases (ltb (length buffer) header_len)) [
      | inl cut ↦ let lt = ltb→lt _ _ cut in (omega (arith, lt), inl lt)
      | inr long ↦
          let le = ltb→le _ _ long in
          let same : payload_len_at whole 0 ≡ payload_len_at buffer 0 =
            ap (λ (w : Bytes). payload_len_at w 0) (sym e)
            ∙ payload_len_at-append buffer more (omega (arith, le)) in
          let lengths : length buffer + length more ≡ length whole =
            sym (length-append buffer more) ∙ ap length e in
          (
            omega (arith, same, short),
            elim small [
              | inl lt ↦ inl (omega (arith, lengths, lt))
              | inr le' ↦ inr (omega (arith, same, le'))
            ],
          )
    ]
