-- ===== src/Server/Stream.antt =====
-- The reading half of a connection of src/server.rs takes the frames of a stream, however it is split into reads.
use cachebox.Prelude.{
  ℕ, ◌+◌, ◌-◌, ◌<◌, ◌≡◌, refl, sym, ap, ◌∙◌, ◌⊎◌, inl, inr, false, Option, some, List, [], ◌∷◌,
  ◌++◌, append-nil, append_assoc, arith, ◌==◌, Result, ok, length, drop, length-append, take-append,
  drop-append, All,
}
use mathlib.Core.Path.{subst}
use cachebox.Bytes.{Bytes, Text}
use cachebox.Wire.Cursor.{slice}
use cachebox.Server.Batches.{concat}
use cachebox.Server.Frames.{
  Range, FrameDrain, payload_len_at, drain_of, find_complete_native_frames, last_end,
  drain_frame_ranges,
}
use cachebox.Server.Reads.{Found, ended, read_native_frame_ranges, frames_at}
use cachebox.Server.Chunks.{IsWhole, IsRest, drop_past, payload_len_at-append}
use cachebox.Server.Cuts.{Split, split, ranges_from, find_cut}

pub frames_at_cut :
    (frames : List Bytes) (buffer past tail : Bytes) (offset : ℕ)
    → offset ≡ length past
    → buffer ≡ past ++ (concat frames ++ tail)
    → frames_at buffer (ranges_from offset frames) ≡ frames
frames_at_cut [] buffer past tail offset o b = refl
frames_at_cut (frame ∷ frames) buffer past tail offset o b =
    let follow : (frame ++ concat frames) ++ tail ≡ frame ++ (concat frames ++ tail) =
      append_assoc frame (concat frames) tail in
    let size : (offset + length frame) - offset ≡ length frame = omega arith in
    let from : drop offset buffer ≡ frame ++ (concat frames ++ tail) =
      ap (drop offset) b
      ∙ ap (λ (n : ℕ). drop n (past ++ ((frame ++ concat frames) ++ tail)))
          (o ∙ sym (let z : length past + 0 ≡ length past = omega arith in z))
      ∙ drop_past 0 past ((frame ++ concat frames) ++ tail)
      ∙ follow in
    let first : slice buffer offset (offset + length frame) ≡ frame =
      rw (size, from) (take-append frame (concat frames ++ tail)) in
    let rest =
      frames_at_cut frames buffer (past ++ frame) tail (offset + length frame)
        (omega (arith, o, length-append past frame))
        (b
          ∙ ap (λ (x : Bytes). past ++ x) follow
          ∙ sym (append_assoc past frame (concat frames ++ tail))) in
    ap (λ (x : Bytes). x ∷ frames_at buffer (ranges_from (offset + length frame) frames)) first
    ∙ ap (◌∷◌ frame) rest

last_end_cut :
    (offset : ℕ) (frame : Bytes) (frames : List Bytes)
    → last_end (ranges_from offset (frame ∷ frames)) ≡ offset + length (concat (frame ∷ frames))
last_end_cut offset frame [] = omega (arith, length-append frame [])
last_end_cut offset frame (next ∷ frames) =
    last_end_cut (offset + length frame) next frames
    ∙ omega (arith, length-append frame (concat (next ∷ frames)))

pub drained :
    (frame : Bytes) (frames : List Bytes) (part : Bytes)
    → drain_frame_ranges (concat (frame ∷ frames) ++ part) (ranges_from 0 (frame ∷ frames)) ≡ part
unfolding drain_frame_ranges
drained frame frames part =
    let whole = concat (frame ∷ frames) in
    let e : last_end (ranges_from 0 (frame ∷ frames)) ≡ length whole =
      last_end_cut 0 frame frames ∙ omega arith in
    ap (λ (n : ℕ). drop n (whole ++ part)) e ∙ drop-append whole part

pub list_cases :
    (xs : List Bytes) → (xs ≡ []) ⊎ ((first : Bytes) × (front : List Bytes) × (xs ≡ first ∷ front))
list_cases [] = inl refl
list_cases (x ∷ xs) = inr (x, xs, refl)

abbrev found_at : List Range → List Bytes → Bytes → Result Text (Option Found)
found_at ranges chunks buffer =
    ok (some (record { ranges = ranges; buffer = buffer; chunks = chunks }))

abbrev pub IsChunk : Bytes → Type 0
IsChunk chunk = 0 < length chunk

-- What a call of `read_native_frame_ranges` finds.
pub record Next (max_payload_len : ℕ) (frames : List Bytes) (tail : Bytes)
    (result : Result Text (Option Found)) : Type 0 where
  pub first : Bytes
  pub front : List Bytes
  pub back : List Bytes
  pub part : Bytes
  pub chunks : List Bytes
  pub frames_eq : frames ≡ (first ∷ front) ++ back
  pub result_eq :
      result
      ≡ ok (
          some (record {
            ranges = ranges_from 0 (first ∷ front);
            buffer = concat (first ∷ front) ++ part;
            chunks = chunks;
          }))
  pub rest : IsRest max_payload_len part
  pub backs : All (IsWhole max_payload_len) back
  pub more_eq : part ++ concat chunks ≡ concat back ++ tail
  pub left : All IsChunk chunks

module _ (max_payload_len : ℕ) (tail : Bytes) (rest : IsRest max_payload_len tail) where
  find-Split :
      (buffer more : Bytes) (frames : List Bytes)
      (s : Split max_payload_len buffer more frames tail)
      → find_complete_native_frames buffer max_payload_len ≡ drain_of (ranges_from 0 s.front)
  unfolding find_complete_native_frames
  find-Split buffer more frames s =
      find_cut max_payload_len buffer s.part s.rest s.front (length buffer + 1) 0 [] [] s.fronts
        (omega (arith, ap length s.buffer_eq, length-append (concat s.front) s.part)) refl
        s.buffer_eq

  -- A buffer without a whole frame does not begin with one.
  no_frame :
      (buffer : Bytes) (frames : List Bytes)
      → All (IsWhole max_payload_len) frames
      → IsRest max_payload_len buffer
      → buffer ++ [] ≡ concat frames ++ tail
      → frames ≡ []
  no_frame buffer [] wholes part e = refl
  no_frame buffer (frame ∷ frames) wholes part e =
      let follow : buffer ≡ frame ++ (concat frames ++ tail) =
        sym (append-nil buffer) ∙ e ∙ append_assoc frame (concat frames) tail in
      let n : length buffer ≡ length frame + length (concat frames ++ tail) =
        ap length follow ∙ length-append frame (concat frames ++ tail) in
      let p : payload_len_at buffer 0 ≡ payload_len_at frame 0 =
        ap (λ (x : Bytes). payload_len_at x 0) follow
        ∙ payload_len_at-append frame (concat frames ++ tail) (omega (arith, wholes.0.0)) in
      absurd (omega (arith, n, p, part.0, wholes.0.0))

  read_found :
      (ending : Result Text (Unit {0})) (chunks : List Bytes) (buffer : Bytes) (ranges : List Range)
      → find_complete_native_frames buffer max_payload_len ≡ FrameDrain.frames ranges
      → read_native_frame_ranges ending max_payload_len chunks buffer
        ≡ ok (some (record { ranges = ranges; buffer = buffer; chunks = chunks }))
  unfolding read_native_frame_ranges
  read_found ending [] buffer ranges h = rw (h, read_native_frame_ranges) refl
  read_found ending (chunk ∷ chunks) buffer ranges h = rw (h, read_native_frame_ranges) refl

  read_more :
      (ending : Result Text (Unit {0})) (chunk : Bytes) (chunks : List Bytes) (buffer : Bytes)
      → IsChunk chunk
      → find_complete_native_frames buffer max_payload_len ≡ FrameDrain.need_more
      → read_native_frame_ranges ending max_payload_len (chunk ∷ chunks) buffer
        ≡ read_native_frame_ranges ending max_payload_len chunks (buffer ++ chunk)
  unfolding read_native_frame_ranges
  read_more ending chunk chunks buffer full h =
      let some_bytes : (length chunk == 0) ≡ false = ground (arith, full) in
      rw (h, read_native_frame_ranges) (rw some_bytes refl)

  abbrev Outcome : Result Text (Unit {0}) → List Bytes → Result Text (Option Found) → Type 0
  Outcome ending frames result =
      ((frames ≡ []) × (result ≡ ended ending)) ⊎ Next max_payload_len frames tail result

  found_next :
      (ending : Result Text (Unit {0})) (chunks : List Bytes) (buffer : Bytes) (frames : List Bytes)
      (s : Split max_payload_len buffer (concat chunks) frames tail) (first : Bytes)
      (front : List Bytes)
      → All IsChunk chunks
      → s.front ≡ first ∷ front
      → Outcome ending frames (read_native_frame_ranges ending max_payload_len chunks buffer)
  unfolding drain_of
  found_next ending chunks buffer frames s first front full f = inr (record {
    first = first;
    front = front;
    back = s.back;
    part = s.part;
    chunks = chunks;
    frames_eq = s.frames_eq ∙ ap (λ (x : List Bytes). x ++ s.back) f;
    result_eq =
        read_found ending chunks buffer (ranges_from 0 (first ∷ front)) (
          find-Split buffer (concat chunks) frames s
          ∙ ap (λ (x : List Bytes). drain_of (ranges_from 0 x)) f)
        ∙ ap (found_at (ranges_from 0 (first ∷ front)) chunks)
            (s.buffer_eq ∙ ap (λ (x : List Bytes). concat x ++ s.part) f);
    rest = s.rest;
    backs = s.backs;
    more_eq = s.more_eq;
    left = full;
  })

  needs_more :
      (buffer more : Bytes) (frames : List Bytes)
      (s : Split max_payload_len buffer more frames tail)
      → s.front ≡ []
      → find_complete_native_frames buffer max_payload_len ≡ FrameDrain.need_more
  unfolding drain_of
  needs_more buffer more frames s f =
      find-Split buffer more frames s ∙ ap (λ (x : List Bytes). drain_of (ranges_from 0 x)) f

  pub find_next :
      (ending : Result Text (Unit {0})) (chunks : List Bytes) (buffer : Bytes) (frames : List Bytes)
      → All (IsWhole max_payload_len) frames
      → All IsChunk chunks
      → buffer ++ concat chunks ≡ concat frames ++ tail
      → Outcome ending frames (read_native_frame_ranges ending max_payload_len chunks buffer)
  unfolding read_native_frame_ranges
  find_next ending [] buffer frames wholes full e =
      let s = split max_payload_len [] tail rest frames buffer wholes e in
      elim (list_cases s.front) [
        | inl none_found ↦
            let h = needs_more buffer [] frames s none_found in
            let part : IsRest max_payload_len buffer =
              subst (IsRest max_payload_len)
                (sym (s.buffer_eq ∙ ap (λ (x : List Bytes). concat x ++ s.part) none_found))
                s.rest in
            inl (no_frame buffer frames wholes part e, rw (h, read_native_frame_ranges) refl)
        | inr (first, front, f) ↦ found_next ending [] buffer frames s first front full f
      ]
  find_next ending (chunk ∷ chunks) buffer frames wholes full e =
      let s = split max_payload_len (concat (chunk ∷ chunks)) tail rest frames buffer wholes e in
      elim (list_cases s.front) [
        | inl none_found ↦
            let h = needs_more buffer (concat (chunk ∷ chunks)) frames s none_found in
            subst (Outcome ending frames) (sym (read_more ending chunk chunks buffer full.0 h)) (
              find_next ending chunks (buffer ++ chunk) frames wholes full.1
                (append_assoc buffer chunk (concat chunks) ∙ e))
        | inr (first, front, f) ↦
            found_next ending (chunk ∷ chunks) buffer frames s first front full f
      ]
