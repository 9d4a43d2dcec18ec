-- ===== src/Server/Reads.antt =====
-- The reading half of `handle_native_connection` of src/server.rs.
use cachebox.Prelude.{
  ℕ, zero, suc, ◌+◌, Bool, false, ◌||◌, Option, none, some, List, [], ◌∷◌, ◌++◌, ltb, ◌==◌,
  if◌then◌else◌, Result, ok, err, length,
}
use cachebox.Bytes.{Bytes, Text}
use cachebox.Server.Frames.{Range, FrameDrain, find_complete_native_frames, drain_frame_ranges}
use cachebox.Wire.Cursor.{slice}

-- What reads of the socket give: chunks, and then the end of the stream or an error. A chunk without bytes is an
-- end of the stream too.
pub record Reads : Type 0 where
  pub chunks : List Bytes
  pub ending : Result Text (Unit {0})

-- The ranges that were found, the read buffer and the chunks that are left to read
pub record Found : Type 0 where
  pub ranges : List Range
  pub buffer : Bytes
  pub chunks : List Bytes

abbrev pub ended : Result Text (Unit {0}) → Result Text (Option Found)
ended (ok tt) = ok none
ended (err e) = err e

-- The loop of `read_native_frame_ranges`
unfoldable pub read_native_frame_ranges :
    Result Text (Unit {0}) → ℕ → List Bytes → Bytes → Result Text (Option Found)
read_native_frame_ranges ending max_payload_len [] buffer =
    elim (find_complete_native_frames buffer max_payload_len) [
      | FrameDrain.frames ranges ↦
          ok (some (record { ranges = ranges; buffer = buffer; chunks = [] }))
      | FrameDrain.close ↦ ok none
      | FrameDrain.need_more ↦ ended ending
    ]
read_native_frame_ranges ending max_payload_len (chunk ∷ chunks) buffer =
    elim (find_complete_native_frames buffer max_payload_len) [
      | FrameDrain.frames ranges ↦
          ok (some (record { ranges = ranges; buffer = buffer; chunks = chunk ∷ chunks }))
      | FrameDrain.close ↦ ok none
      | FrameDrain.need_more ↦
          if length chunk == 0
          then ok none
          else read_native_frame_ranges ending max_payload_len chunks (buffer ++ chunk)
    ]

-- `read_buffer[range.clone()]` for each range
abbrev pub frames_at : Bytes → List Range → List Bytes
frames_at buffer [] = []
frames_at buffer (range ∷ ranges) = slice buffer range.start range.end ∷ frames_at buffer ranges

-- A round of the loop of the connection: its frames, and whether they are handed to tasks.
pub record Round : Type 0 where
  pub frames : List Bytes
  pub pipelined : Bool

-- How the loop ends, and its rounds. Where the fuel is used up, `none` stands for the end.
abbrev pub Rounds : Type 0
Rounds = Option (Result Text (Unit {0})) × List Round

abbrev pub and_round : Round → Rounds → Rounds
and_round round (end, rounds) = (end, round ∷ rounds)

-- The `while let` of `handle_native_connection`. Once a read gave several frames, the connection is pipelined.
unfoldable pub read_rounds : ℕ → Result Text (Unit {0}) → ℕ → Bool → List Bytes → Bytes → Rounds
read_rounds zero ending max_payload_len pipelined chunks buffer = (none, [])
read_rounds (suc fuel) ending max_payload_len pipelined chunks buffer =
    elim (read_native_frame_ranges ending max_payload_len chunks buffer) [
      | err e ↦ (some (err e), [])
      | ok none ↦ (some (ok tt), [])
      | ok (some found) ↦
          let pipelined' = pipelined || ltb 1 (length found.ranges) in
          and_round
            (record { frames = frames_at found.buffer found.ranges; pipelined = pipelined' })
            (read_rounds fuel ending max_payload_len pipelined' found.chunks
              (drain_frame_ranges found.buffer found.ranges))
    ]

abbrev pub total : List Bytes → ℕ
total [] = 0
total (chunk ∷ chunks) = length chunk + total chunks

-- A round takes a frame, which has a byte at least, so that one round more than there are bytes is enough.
unfoldable pub native_rounds : ℕ → Reads → Rounds
native_rounds max_payload_len reads =
    read_rounds (total reads.chunks + 1) reads.ending max_payload_len false reads.chunks []
