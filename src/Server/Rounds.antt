-- ===== src/Server/Rounds.antt =====
-- The rounds of a connection of src/server.rs are the frames of its stream.
use cachebox.Prelude.{
  ℕ, zero, suc, ◌+◌, ◌≤◌, ◌<◌, ◌≡◌, refl, sym, ap, ◌∙◌, inl, inr, Bool, false, ◌||◌, some, List, [],
  ◌∷◌, ◌++◌, arith, ltb, Result, ok, err, length, length-append, All,
}
use mathlib.Core.Path.{subst}
use cachebox.Bytes.{Bytes, Text}
use cachebox.Server.Batches.{concat}
use cachebox.Server.Reads.{
  Reads, ended, read_native_frame_ranges, frames_at, Round, Rounds, read_rounds, total,
  native_rounds,
}
use cachebox.Server.Chunks.{IsWhole, IsRest}
use cachebox.Server.Cuts.{ranges_from}
use cachebox.Server.Stream.{IsChunk, find_next, drained, frames_at_cut}

-- The frames of all rounds
abbrev pub all_frames : List Round → List Bytes
all_frames [] = []
all_frames (round ∷ rounds) = round.frames ++ all_frames rounds

length-concat :
    (max_payload_len : ℕ) (frames : List Bytes)
    → All (IsWhole max_payload_len) frames
    → length frames ≤ length (concat frames)
length-concat max_payload_len [] wholes = omega arith
length-concat max_payload_len (frame ∷ frames) wholes = omega (
  arith,
  length-concat max_payload_len frames wholes.1,
  length-append frame (concat frames),
  wholes.0.0,
)

total-concat : (chunks : List Bytes) → length (concat chunks) ≡ total chunks
total-concat [] = refl
total-concat (chunk ∷ chunks) =
    omega (arith, total-concat chunks, length-append chunk (concat chunks))

abbrev pub Complete : Result Text (Unit {0}) → List Bytes → Rounds → Type 0
Complete ending frames rounds = (rounds.0 ≡ some ending) × (all_frames rounds.1 ≡ frames)

module _ (max_payload_len : ℕ) (tail : Bytes) (rest : IsRest max_payload_len tail) where
  last_round :
      (ending : Result Text (Unit {0})) (fuel : ℕ) (pipelined : Bool) (chunks : List Bytes)
      (buffer : Bytes)
      → read_native_frame_ranges ending max_payload_len chunks buffer ≡ ended ending
      → read_rounds (suc fuel) ending max_payload_len pipelined chunks buffer ≡ (some ending, [])
  unfolding read_rounds
  last_round (ok tt) fuel pipelined chunks buffer h = rw (h, read_rounds) refl
  last_round (err e) fuel pipelined chunks buffer h = rw (h, read_rounds) refl

  rounds-Complete :
      (fuel : ℕ) (ending : Result Text (Unit {0})) (pipelined : Bool) (chunks : List Bytes)
      (buffer : Bytes) (frames : List Bytes)
      → length frames < fuel
      → All (IsWhole max_payload_len) frames
      → All IsChunk chunks
      → buffer ++ concat chunks ≡ concat frames ++ tail
      → Complete ending frames (read_rounds fuel ending max_payload_len pipelined chunks buffer)
  unfolding read_rounds
  rounds-Complete zero ending pipelined chunks buffer frames enough wholes full e = ground arith
  rounds-Complete (suc fuel) ending pipelined chunks buffer frames enough wholes full e =
      elim (find_next max_payload_len tail rest ending chunks buffer frames wholes full e) [
        | inl (none_left, h) ↦
            subst (Complete ending frames) (sym (last_round ending fuel pipelined chunks buffer h))
              (refl, sym none_left)
        | inr n ↦
            let batch = n.first ∷ n.front in
            let found = concat batch ++ n.part in
            let pipelined' = pipelined || ltb 1 (length (ranges_from 0 batch)) in
            let more =
              rounds-Complete fuel ending pipelined' n.chunks n.part n.back
                (omega (arith, enough, ap length n.frames_eq, length-append batch n.back)) n.backs
                n.left n.more_eq in
            let drop_eq = drained n.first n.front n.part in
            let frames_eq : frames_at found (ranges_from 0 batch) ≡ batch =
              frames_at_cut batch found [] n.part 0 refl refl in
            let rounds = read_rounds fuel ending max_payload_len pipelined' n.chunks n.part in
            rw (n.result_eq, read_rounds)
              (rw drop_eq (
                more.0,
                ap (λ (x : List Bytes). x ++ all_frames rounds.1) frames_eq
                    ∙ ap (λ (x : List Bytes). batch ++ x) more.1
                    ∙ sym n.frames_eq,
              ))
      ]

-- However the bytes of whole frames within the limit, and of a rest with no complete frame and with no header that
-- announces more than the limit, are split into reads that are not empty, the connection takes exactly these
-- frames, in their order, and then ends as the stream does.
pub native_rounds_complete :
    (max_payload_len : ℕ) (reads : Reads) (frames : List Bytes) (tail : Bytes)
    → All (IsWhole max_payload_len) frames
    → IsRest max_payload_len tail
    → All IsChunk reads.chunks
    → concat reads.chunks ≡ concat frames ++ tail
    → ((native_rounds max_payload_len reads).0 ≡ some reads.ending)
      × (all_frames (native_rounds max_payload_len reads).1 ≡ frames)
unfolding native_rounds
native_rounds_complete max_payload_len reads frames tail wholes rest full e =
    let few = length-concat max_payload_len frames wholes in
    let bytes : total reads.chunks ≡ length (concat frames) + length tail =
      sym (total-concat reads.chunks) ∙ ap length e ∙ length-append (concat frames) tail in
    rounds-Complete max_payload_len tail rest (total reads.chunks + 1) reads.ending false
      reads.chunks [] frames (omega (arith, few, bytes)) wholes full e
