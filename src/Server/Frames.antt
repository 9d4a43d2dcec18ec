-- ===== src/Server/Frames.antt =====
-- Complete frames in the read buffer of a connection (src/server.rs).
use cachebox.Prelude.{
  ℕ, zero, suc, ◌+◌, ◌-◌, ◌≤◌, ◌<◌, ◌≡◌, refl, sym, ap, ◌∙◌, inl, inr, true, false, List, [], ◌∷◌,
  ◌++◌, append_assoc, arith, ltb, ltb→lt, ltb→le, Bool-cases, length, take, drop,
}
use mathlib.Core.Path.{subst}
use cachebox.Bytes.{Bytes}
use cachebox.Wire.Cursor.{slice, from_be}
use cachebox.Wire.Encode.{header_len}

-- `Range<usize>`
pub record Range : Type 0 where
  pub start : ℕ
  pub end : ℕ

pub data FrameDrain : Type 0 where
  frames : List Range → FrameDrain
  need_more close : FrameDrain

-- The length that the header at the offset gives.
unfoldable pub payload_len_at : Bytes → ℕ → ℕ
payload_len_at buffer offset = from_be (slice buffer (offset + 16) (offset + 20))

-- The end of `find_complete_native_frames`.
unfoldable pub drain_of : List Range → FrameDrain
drain_of [] = FrameDrain.need_more
drain_of (range ∷ ranges) = FrameDrain.frames (range ∷ ranges)

-- The loop, with the frames found so far.
unfoldable pub find_frames : ℕ → Bytes → ℕ → ℕ → List Range → FrameDrain
unfolding payload_len_at drain_of
find_frames zero buffer max_payload_len offset found = drain_of found
find_frames (suc fuel) buffer max_payload_len offset found =
    elim (ltb (length buffer - offset) header_len) [
      | true ↦ drain_of found
      | false ↦
          let payload_len = payload_len_at buffer offset in
          elim (ltb max_payload_len payload_len) [
            | true ↦ FrameDrain.close
            | false ↦
                let frame_len = header_len + payload_len in
                elim (ltb (length buffer - offset) frame_len) [
                  | true ↦ drain_of found
                  | false ↦
                      find_frames fuel buffer max_payload_len (offset + frame_len)
                        (found ++ (record { start = offset; end = offset + frame_len } ∷ []))
                ]
          ]
    ]

-- A round moves the offset on by a header at least, so one round more than there are bytes is enough.
unfoldable pub find_complete_native_frames : Bytes → ℕ → FrameDrain
find_complete_native_frames buffer max_payload_len =
    find_frames (length buffer + 1) buffer max_payload_len 0 []

-- `ranges.last()`
abbrev pub last_end : List Range → ℕ
last_end [] = 0
last_end (range ∷ []) = range.end
last_end (range ∷ next ∷ ranges) = last_end (next ∷ ranges)

-- `buffer.drain(..last.end)`
unfoldable pub drain_frame_ranges : Bytes → List Range → Bytes
drain_frame_ranges buffer ranges = drop (last_end ranges) buffer

-- Ranges that follow each other from one offset to another, each a header and the payload that it announces.
abbrev pub IsTiling : Bytes → ℕ → ℕ → List Range → ℕ → Type 0
IsTiling buffer max_payload_len offset [] end = offset ≡ end
IsTiling buffer max_payload_len offset (range ∷ ranges) end =
    (range.start ≡ offset)
    × (range.end ≡ offset + (header_len + payload_len_at buffer offset))
    × (payload_len_at buffer offset ≤ max_payload_len)
    × (range.end ≤ length buffer)
    × IsTiling buffer max_payload_len range.end ranges end

-- At an offset there is no complete frame, be it that the header is cut off or the payload.
abbrev pub IsPartial : Bytes → ℕ → Type 0
IsPartial buffer offset = length buffer < offset + (header_len + payload_len_at buffer offset)

-- What the loop promises of its outcome.
abbrev pub Promise : Bytes → ℕ → FrameDrain → Type 0
Promise buffer max_payload_len (FrameDrain.frames ranges) =
    (end : ℕ) × (0 < end) × IsTiling buffer max_payload_len 0 ranges end × IsPartial buffer end
Promise buffer max_payload_len FrameDrain.need_more = IsPartial buffer 0
Promise buffer max_payload_len FrameDrain.close =
    (offset : ℕ) × (ranges : List Range) × IsTiling buffer max_payload_len 0 ranges offset
    × (offset + header_len ≤ length buffer)
    × (max_payload_len < payload_len_at buffer offset)

IsTiling-append :
    (buffer : Bytes) (max_payload_len offset mid end : ℕ) (xs ys : List Range)
    → IsTiling buffer max_payload_len offset xs mid
    → IsTiling buffer max_payload_len mid ys end
    → IsTiling buffer max_payload_len offset (xs ++ ys) end
IsTiling-append buffer max_payload_len offset mid end [] ys p q = rw p q
IsTiling-append buffer max_payload_len offset mid end (x ∷ xs) ys p q =
    (p.0, p.1, p.2, p.3, IsTiling-append buffer max_payload_len x.end mid end xs ys p.4 q)

IsTiling-le :
    (buffer : Bytes) (max_payload_len offset end : ℕ) (xs : List Range)
    → IsTiling buffer max_payload_len offset xs end
    → offset ≤ end
IsTiling-le buffer max_payload_len offset end [] p = omega (arith, p)
IsTiling-le buffer max_payload_len offset end (x ∷ xs) p =
    omega (arith, p.1, IsTiling-le buffer max_payload_len x.end end xs p.4)

drain-Promise :
    (buffer : Bytes) (max_payload_len offset : ℕ) (found : List Range)
    → IsTiling buffer max_payload_len 0 found offset
    → IsPartial buffer offset
    → Promise buffer max_payload_len (drain_of found)
unfolding drain_of
drain-Promise buffer max_payload_len offset [] tiling stop =
    subst (IsPartial buffer) (sym tiling) stop
drain-Promise buffer max_payload_len offset (x ∷ found) tiling stop = (
  offset,
  omega (arith, tiling.1, IsTiling-le buffer max_payload_len x.end offset found tiling.4),
  tiling,
  stop,
)

find_frames-Promise :
    (fuel : ℕ) (buffer : Bytes) (max_payload_len offset : ℕ) (found : List Range)
    → length buffer < offset + fuel
    → IsTiling buffer max_payload_len 0 found offset
    → Promise buffer max_payload_len (find_frames fuel buffer max_payload_len offset found)
unfolding find_frames
find_frames-Promise zero buffer max_payload_len offset found enough tiling =
    drain-Promise buffer max_payload_len offset found tiling (omega arith)
find_frames-Promise (suc fuel) buffer max_payload_len offset found enough tiling =
    elim (Bool-cases (ltb (length buffer - offset) header_len)) [
      | inl short ↦
          rw (short, find_frames)
            (drain-Promise buffer max_payload_len offset found tiling (ground (arith, short)))
      | inr long ↦ elim (Bool-cases (ltb max_payload_len (payload_len_at buffer offset))) [
        | inl large ↦
            rw (long, find_frames)
              (rw large (offset, found, tiling, ground (arith, long), ltb→lt _ _ large))
        | inr small ↦
            elim (Bool-cases
              (ltb (length buffer - offset) (header_len + payload_len_at buffer offset))) [
                | inl partial ↦
                    rw (long, find_frames)
                      (rw small (
                        rw partial (
                          drain-Promise buffer max_payload_len offset found tiling
                            (ground (arith, partial)))))
                | inr complete ↦
                    let range : Range = record {
                      start = offset;
                      end = offset + (header_len + payload_len_at buffer offset);
                    } in
                    let inside : offset + (header_len + payload_len_at buffer offset)
                        ≤ length buffer =
                      ground (arith, long, complete) in
                    let tiling' =
                      IsTiling-append buffer max_payload_len 0 offset range.end found (range ∷ [])
                        tiling (refl, refl, ltb→le _ _ small, inside, refl) in
                    rw (long, find_frames)
                      (rw small (
                        rw complete (
                          find_frames-Promise fuel buffer max_payload_len range.end
                            (found ++ (range ∷ [])) (omega arith) tiling')))
              ]
      ]
    ]

-- The outcome for any buffer. Frames that are found stand one after the other from the start of the buffer, each
-- a header and the payload that it announces, within the limit, and after the last there is no complete frame. If
-- more is needed, the buffer holds no complete frame. If the connection is to be closed, complete frames lead up to
-- a header that announces more than the limit.
pub find_complete_native_frames_lem :
    (buffer : Bytes) (max_payload_len : ℕ)
    → Promise buffer max_payload_len (find_complete_native_frames buffer max_payload_len)
unfolding find_complete_native_frames
find_complete_native_frames_lem buffer max_payload_len =
    find_frames-Promise (length buffer + 1) buffer max_payload_len 0 [] (omega arith) refl

-- The bytes of the ranges, one after the other.
abbrev pub taken : Bytes → List Range → Bytes
taken buffer [] = []
taken buffer (range ∷ ranges) = slice buffer range.start range.end ++ taken buffer ranges

pub take-drop : (n : ℕ) (xs : Bytes) → take n xs ++ drop n xs ≡ xs
take-drop zero xs = refl
take-drop (suc n) [] = refl
take-drop (suc n) (x ∷ xs) = ap (◌∷◌ x) (take-drop n xs)

drop-drop : (m n : ℕ) (xs : Bytes) → drop n (drop m xs) ≡ drop (m + n) xs
drop-drop zero n xs = let e : 0 + n ≡ n = omega arith in rw e refl
drop-drop (suc m) zero [] = let e : suc m + 0 ≡ suc m = omega arith in rw e refl
drop-drop (suc m) (suc n) [] = let e : suc m + suc n ≡ suc (m + suc n) = omega arith in rw e refl
drop-drop (suc m) n (x ∷ xs) =
    let e : suc m + n ≡ suc (m + n) = omega arith in rw e (drop-drop m n xs)

last_end-IsTiling :
    (buffer : Bytes) (max_payload_len offset end : ℕ) (x : Range) (xs : List Range)
    → IsTiling buffer max_payload_len offset (x ∷ xs) end
    → last_end (x ∷ xs) ≡ end
last_end-IsTiling buffer max_payload_len offset end x [] p = p.4
last_end-IsTiling buffer max_payload_len offset end x (y ∷ xs) p =
    last_end-IsTiling buffer max_payload_len x.end end y xs p.4

tiling_whole :
    (buffer : Bytes) (max_payload_len offset end : ℕ) (ranges : List Range)
    → IsTiling buffer max_payload_len offset ranges end
    → taken buffer ranges ++ drop end buffer ≡ drop offset buffer
tiling_whole buffer max_payload_len offset end [] p = rw p refl
tiling_whole buffer max_payload_len offset end (x ∷ xs) p =
    let rest = tiling_whole buffer max_payload_len x.end end xs p.4 in
    let split : offset + (x.end - offset) ≡ x.end = omega (arith, p.1) in
    let jump : drop x.end buffer ≡ drop (x.end - offset) (drop offset buffer) =
      sym (rw split at (drop-drop offset (x.end - offset) buffer)) in
    append_assoc (slice buffer x.start x.end) (taken buffer xs) (drop end buffer)
    ∙ rw rest (rw p.0 (rw jump (take-drop (x.end - offset) (drop offset buffer))))

-- No byte is lost: the frames that were found and what is left after they are drained are the buffer.
pub drain_complete :
    (buffer : Bytes) (max_payload_len : ℕ) (ranges : List Range)
    → find_complete_native_frames buffer max_payload_len ≡ FrameDrain.frames ranges
    → taken buffer ranges ++ drain_frame_ranges buffer ranges ≡ buffer
unfolding drain_frame_ranges
drain_complete buffer max_payload_len [] found = refl
drain_complete buffer max_payload_len (x ∷ ranges) found =
    let (end, positive, tiling, stop) =
      subst (Promise buffer max_payload_len) found
        (find_complete_native_frames_lem buffer max_payload_len) in
    rw (last_end-IsTiling buffer max_payload_len 0 end x ranges tiling)
      (tiling_whole buffer max_payload_len 0 end (x ∷ ranges) tiling)
