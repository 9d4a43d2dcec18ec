-- ===== src/Server/Cuts.antt =====
-- What `find_complete_native_frames` of src/server.rs finds in a buffer of whole frames and a rest.
use cachebox.Prelude.{
  ℕ, zero, suc, ◌+◌, ◌-◌, ◌≤◌, ◌<◌, ◌≡◌, refl, sym, ap, ◌∙◌, inl, inr, true, false, List, [], ◌∷◌,
  ◌++◌, append-nil, append_assoc, arith, ltb, ltb→lt, ltb→le, Bool-cases, length, take, drop,
  length-append, take-append, drop-append, All,
}
use cachebox.Bytes.{Bytes}
use cachebox.Wire.Encode.{header_len}
use cachebox.Server.Batches.{concat}
use cachebox.Server.Frames.{Range, payload_len_at, drain_of, find_frames, take-drop}
use cachebox.Server.Chunks.{
  IsWhole, IsRest, take_prefix, payload_len_at-append, payload_len_at_past, beginning-IsRest,
}

-- A beginning of a stream of frames: the frames that are in it, and the rest.
pub record Split (max_payload_len : ℕ) (buffer more : Bytes) (frames : List Bytes) (tail : Bytes)
    : Type 0 where
  pub front : List Bytes
  pub back : List Bytes
  pub part : Bytes
  pub fronts : All (IsWhole max_payload_len) front
  pub backs : All (IsWhole max_payload_len) back
  pub frames_eq : frames ≡ front ++ back
  pub buffer_eq : buffer ≡ concat front ++ part
  pub rest : IsRest max_payload_len part
  pub more_eq : part ++ more ≡ concat back ++ tail

module _ (max_payload_len : ℕ) (more tail : Bytes) (rest : IsRest max_payload_len tail) where
  whole_first :
      (frame : Bytes) (frames : List Bytes)
      → IsWhole max_payload_len frame
      → payload_len_at ((frame ++ concat frames) ++ tail) 0 ≡ payload_len_at frame 0
  whole_first frame frames whole =
      rw (append_assoc frame (concat frames) tail)
        (payload_len_at-append frame (concat frames ++ tail) (omega (arith, whole.0)))

  -- The first frame is in the buffer.
  first_inside :
      (frame : Bytes) (buffer follow : Bytes)
      → length frame ≤ length buffer
      → buffer ++ more ≡ frame ++ follow
      → (buffer ≡ frame ++ drop (length frame) buffer)
        × (drop (length frame) buffer ++ more ≡ follow)
  first_inside frame buffer follow le e =
      let start : take (length frame) buffer ≡ frame =
        sym (take_prefix (length frame) buffer more le)
        ∙ ap (take (length frame)) e
        ∙ take-append frame follow in
      let whole : buffer ≡ frame ++ drop (length frame) buffer =
        sym (take-drop (length frame) buffer)
        ∙ ap (λ (x : Bytes). x ++ drop (length frame) buffer) start in
      let cut : frame ++ (drop (length frame) buffer ++ more) ≡ frame ++ follow =
        sym (append_assoc frame (drop (length frame) buffer) more)
        ∙ ap (λ (x : Bytes). x ++ more) (sym whole)
        ∙ e in
      (
        whole,
        sym (drop-append frame (drop (length frame) buffer ++ more))
            ∙ ap (drop (length frame)) cut
            ∙ drop-append frame follow,
      )

  pub split :
      (frames : List Bytes) (buffer : Bytes)
      → All (IsWhole max_payload_len) frames
      → buffer ++ more ≡ concat frames ++ tail
      → Split max_payload_len buffer more frames tail
  split [] buffer wholes e =
      let lengths : length buffer + length more ≡ length tail =
        sym (length-append buffer more) ∙ ap length e in
      record {
        front = [];
        back = [];
        part = buffer;
        fronts = tt;
        backs = tt;
        frames_eq = refl;
        buffer_eq = refl;
        rest =
            beginning-IsRest max_payload_len buffer more tail e (omega (arith, rest.0, lengths))
              rest.1;
        more_eq = e;
      }
  split (frame ∷ frames) buffer wholes e = elim (Bool-cases (ltb (length buffer) (length frame))) [
    | inl short ↦
        let first = whole_first frame frames wholes.0 in
        let lt = ltb→lt _ _ short in
        record {
          front = [];
          back = frame ∷ frames;
          part = buffer;
          fronts = tt;
          backs = wholes;
          frames_eq = refl;
          buffer_eq = refl;
          rest =
              beginning-IsRest max_payload_len buffer more ((frame ++ concat frames) ++ tail) e
                (omega (arith, lt, first, wholes.0.0)) (inr (omega (arith, first, wholes.0.1)));
          more_eq = e;
        }
    | inr long ↦
        let (whole, follow) =
          first_inside frame buffer (concat frames ++ tail) (ltb→le _ _ long)
            (e ∙ append_assoc frame (concat frames) tail) in
        let s = split frames (drop (length frame) buffer) wholes.1 follow in
        record {
          front = frame ∷ s.front;
          back = s.back;
          part = s.part;
          fronts = (wholes.0, s.fronts);
          backs = s.backs;
          frames_eq = ap (◌∷◌ frame) s.frames_eq;
          buffer_eq =
              whole
              ∙ ap (λ (x : Bytes). frame ++ x) s.buffer_eq
              ∙ sym (append_assoc frame (concat s.front) s.part);
          rest = s.rest;
          more_eq = s.more_eq;
        }
  ]

abbrev pub ranges_from : ℕ → List Bytes → List Range
ranges_from offset [] = []
ranges_from offset (frame ∷ frames) =
    record { start = offset; end = offset + length frame }
    ∷ ranges_from (offset + length frame) frames

module _ (max_payload_len : ℕ) (buffer tail : Bytes) (rest : IsRest max_payload_len tail) where
  find_rest :
      (fuel offset : ℕ) (past : Bytes) (found : List Range)
      → offset ≡ length past
      → buffer ≡ past ++ tail
      → find_frames (suc fuel) buffer max_payload_len offset found ≡ drain_of found
  unfolding find_frames
  find_rest fuel offset past found o b =
      let n : length buffer ≡ length past + length tail = ap length b ∙ length-append past tail in
      let p : payload_len_at buffer offset ≡ payload_len_at tail 0 =
        rw (o, b) (payload_len_at_past past tail) in
      elim (Bool-cases (ltb (length buffer - offset) header_len)) [
        | inl short ↦ rw (short, find_frames) refl
        | inr long ↦
            let small : payload_len_at tail 0 ≤ max_payload_len = elim rest.1 [
              | inl lt ↦ ground (arith, long, lt, n, o)
              | inr le ↦ le
            ] in
            let fits : ltb max_payload_len (payload_len_at buffer offset) ≡ false =
              ground (arith, small, p) in
            let cut : ltb (length buffer - offset) (header_len + payload_len_at buffer offset)
                ≡ true =
              ground (arith, rest.0, p, n, o) in
            rw (long, find_frames) (rw fits (rw cut refl))
      ]

  pub find_cut :
      (frames : List Bytes) (fuel offset : ℕ) (past : Bytes) (found : List Range)
      → All (IsWhole max_payload_len) frames
      → length (concat frames) < fuel
      → offset ≡ length past
      → buffer ≡ past ++ (concat frames ++ tail)
      → find_frames fuel buffer max_payload_len offset found
        ≡ drain_of (found ++ ranges_from offset frames)
  unfolding find_frames
  find_cut frames zero offset past found wholes enough o b = ground arith
  find_cut [] (suc fuel) offset past found wholes enough o b =
      find_rest fuel offset past found o b ∙ ap drain_of (sym (append-nil found))
  find_cut (frame ∷ frames) (suc fuel) offset past found wholes enough o b =
      let follow : (frame ++ concat frames) ++ tail ≡ frame ++ (concat frames ++ tail) =
        append_assoc frame (concat frames) tail in
      let n : length buffer ≡ length past + (length frame + length (concat frames ++ tail)) =
        rw (b, follow)
          (length-append past (frame ++ (concat frames ++ tail))
            ∙ ap (λ (x : ℕ). length past + x) (length-append frame (concat frames ++ tail))) in
      let p : payload_len_at buffer offset ≡ payload_len_at frame 0 =
        rw (o, b, follow)
          (payload_len_at_past past (frame ++ (concat frames ++ tail))
            ∙ payload_len_at-append frame (concat frames ++ tail) (omega (arith, wholes.0.0))) in
      let size : header_len + payload_len_at buffer offset ≡ length frame =
        omega (arith, p, wholes.0.0) in
      let long : ltb (length buffer - offset) header_len ≡ false =
        ground (arith, n, o, wholes.0.0) in
      let fits : ltb max_payload_len (payload_len_at buffer offset) ≡ false =
        ground (arith, wholes.0.1, p) in
      let inside : ltb (length buffer - offset) (header_len + payload_len_at buffer offset)
          ≡ false =
        ground (arith, n, o, size) in
      let range : Range = record { start = offset; end = offset + length frame } in
      let follows =
        find_cut frames fuel (offset + length frame) (past ++ frame) (found ++ (range ∷ []))
          wholes.1 (omega (arith, enough, length-append frame (concat frames), wholes.0.0))
          (omega (arith, o, length-append past frame))
          (b
            ∙ ap (λ (x : Bytes). past ++ x) follow
            ∙ sym (append_assoc past frame (concat frames ++ tail))) in
      rw (long, find_frames)
        (rw fits (
          rw inside (
            rw size (
              follows
              ∙ ap drain_of
                  (append_assoc found (range ∷ []) (ranges_from (offset + length frame) frames))))))
