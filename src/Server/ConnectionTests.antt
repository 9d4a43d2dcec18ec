-- ===== src/Server/ConnectionTests.antt =====
-- Runs of the connection of src/server.rs at concrete inputs.
use cachebox.Prelude.{
  ℕ, ◌+◌, ◌≤◌, ◌<◌, ◌≡◌, refl, ◌⊎◌, inl, some, List, [], ◌∷◌, ◌++◌, arith, ok, length, take, drop,
  saturating_add,
}
use cachebox.Bytes.{Bytes, text, same_text}
use cachebox.Server.Answers.{MetricsShard, State}
use cachebox.Server.Metrics.{snapshot}
use cachebox.Server.Admin.{
  Method, Response, is_route, handle_request, errors_of, status_of, handle_request-counts,
}
use cachebox.Server.Frames.{payload_len_at}
use cachebox.Wire.Cursor.{from_be}
use cachebox.Server.Chunks.{IsWhole, IsRest}
use cachebox.Server.InTurn.{IsHandedOver, serve_rounds, with_rest, answer_in_turn, serve_in_turn}
use cachebox.Server.Reads.{Round, Reads, native_rounds}
use cachebox.Server.Batches.{concat, coalesce_native_responses, coalesce}
use cachebox.Server.Rounds.{all_frames, native_rounds_complete}
use cachebox.Server.Pipeline.{
  max_in_flight_per_connection, Pipeline, Event, execute, Work, Step, Run, idle, tally, tally_came,
  tally_done, tally_answered, load,
}
use cachebox.Server.Delivery.{pipeline-delivers}
use cachebox.Server.Liveness.{pipeline-progress}
use cachebox.Server.Dispatch.{
  execute_native_frame_bytes_into, answer_error, native_decode_error_response, command_or_get,
  native_decode_error_code,
}
use cachebox.Prelude.{get_elem?}
use cachebox.Engine.Types.{Text-discrete}
use cachebox.Wire.Decode.{open_frame, decode_header}
use cachebox.Wire.Types.{command_id, error_id, command_from_id}
use cachebox.Wire.Encode.{
  encode_response_frame, encode_frame, encode_response_payload, write_string, write_bytes,
  write_u32, write_u16, push, frame_start, write_u64, be_bytes, patch_len,
}
use cachebox.Wire.Borrowed.{decode_borrowed_request_frame}
use cachebox.Server.Tests.{get_bytes, plain, counters, server, question_mark}

get_bytes-IsWhole : IsWhole 1000 get_bytes
unfolding payload_len_at from_be
get_bytes-IsWhole = (refl, omega arith)

letter-IsRest : IsRest 1000 (b'C' ∷ [])
unfolding payload_len_at from_be
letter-IsRest = (omega arith, inl (omega arith))

-- Two frames and a letter, cut in the middle of the first header.
abbrev two_reads : Reads
two_reads = record {
  chunks = take 7 get_bytes ∷ (drop 7 get_bytes ++ get_bytes) ∷ (b'C' ∷ []) ∷ [];
  ending = ok tt;
}

native_rounds_complete_example :
    ((native_rounds 1000 two_reads).0 ≡ some (ok tt))
    × (all_frames (native_rounds 1000 two_reads).1 ≡ get_bytes ∷ get_bytes ∷ [])
native_rounds_complete_example =
    native_rounds_complete 1000 two_reads (get_bytes ∷ get_bytes ∷ []) (b'C' ∷ [])
      (get_bytes-IsWhole, (get_bytes-IsWhole, tt)) letter-IsRest
      (omega arith, (omega arith, (omega arith, tt))) refl

serve_in_turn_example :
    (front : List Bytes) × (rest : List Round) × (get_bytes ∷ get_bytes ∷ []
      ≡ front ++ all_frames rest)
    × IsHandedOver rest
    × ((s : State)
        → serve_rounds question_mark plain 1000 (λ n i. n + i) (native_rounds 1000 two_reads).1 0 s
          ≡ with_rest rest (answer_in_turn question_mark plain 1000 (λ n i. n + i) front 0 s))
serve_in_turn_example =
    serve_in_turn question_mark plain 1000 (λ n i. n + i) two_reads (get_bytes ∷ get_bytes ∷ [])
      (b'C' ∷ []) (get_bytes-IsWhole, (get_bytes-IsWhole, tt)) letter-IsRest
      (omega arith, (omega arith, (omega arith, tt))) refl

-- A request of another version of the protocol
abbrev newer : Bytes
newer = take 4 get_bytes ++ (2 ∷ drop 5 get_bytes)

-- The header of an answer, and the error 0x0002 with the text "?".
abbrev refusal : Bytes
refusal =
    b'C' ∷ b'B' ∷ b'X' ∷ b'1' ∷ 1 ∷ 1 ∷ 1 ∷ 0 ∷ 0 ∷ 0 ∷ 0 ∷ 0 ∷ 0 ∷ 0 ∷ 0 ∷ 42 ∷ 0 ∷ 0 ∷ 0 ∷ 8 ∷ 0
    ∷ 0 ∷ 0 ∷ 0 ∷ 0xff ∷ 0 ∷ 2 ∷ 0 ∷ 0 ∷ 0 ∷ 1 ∷ b'?' ∷ []

newer_refused : execute question_mark plain 1000 (λ i. i) newer server ≡ some (server, refusal)
unfolding execute_native_frame_bytes_into decode_borrowed_request_frame answer_error
    native_decode_error_response open_frame decode_header Text-discrete get_elem?
    encode_response_frame encode_frame encode_response_payload write_string write_bytes write_u32
    write_u16 push frame_start write_u64 be_bytes patch_len command_id from_be error_id
    command_or_get command_from_id native_decode_error_code
newer_refused = refl

abbrev both_spawned : Pipeline
both_spawned = record (idle server) { tasks = get_bytes ∷ newer ∷ [] }

-- The second frame runs first.
abbrev second_ran : Pipeline
second_ran = record (idle server) { tasks = get_bytes ∷ []; answers = refusal ∷ [] }

abbrev second_sent : Pipeline
second_sent = record (idle server) { tasks = get_bytes ∷ []; channel = refusal ∷ [] }

abbrev second_written : Pipeline
second_written = record (idle server) { tasks = get_bytes ∷ []; sent = refusal }

abbrev events : List Event
events =
    Event.quiet
    ∷ Event.quiet
    ∷ Event.ran newer refusal
    ∷ Event.quiet
    ∷ Event.quiet
    ∷ Event.came (get_bytes ∷ newer ∷ [])
    ∷ []

overtaken : Run question_mark plain 1000 (idle server) events second_written
unfolding coalesce_native_responses coalesce
overtaken =
    Run.next {d = second_sent}
      (Run.next {d = second_ran}
        (Run.next {d = both_spawned}
          (Run.next
            (Run.next (Run.next Run.here (Step.reads (get_bytes ∷ newer ∷ []) refl))
              (Step.works (Work.spawns get_bytes (newer ∷ []) refl (omega arith))))
            (Step.works (Work.spawns newer [] refl (omega arith))))
          (Step.works
            (Work.runs (λ i. i) (get_bytes ∷ []) newer [] server refusal refl newer_refused)))
        (Step.works (Work.sends [] refusal [] refl (omega arith))))
      (Step.works (Work.writes refusal [] refl))

pipeline-delivers_example :
    (written : List Bytes) × (second_written.sent ≡ concat written)
    × ((w : Bytes → ℕ)
        → tally_came w events
          ≡ (tally w second_written.frames + tally w second_written.tasks) + tally_done w events)
    × ((w : Bytes → ℕ)
        → tally_answered w events
          ≡ (tally w second_written.answers + tally w second_written.channel) + tally w written)
    × (length second_written.tasks + length second_written.answers ≤ max_in_flight_per_connection)
    × (length second_written.channel ≤ max_in_flight_per_connection)
pipeline-delivers_example =
    pipeline-delivers question_mark plain 1000 server events second_written overtaken

pipeline-progress_example :
    (((second_sent.frames ≡ [])
        × (second_sent.tasks ≡ [])
        × (second_sent.answers ≡ [])
        × (second_sent.channel ≡ []))
      ⊎ ((e : Event) × (d : Pipeline) × Work question_mark plain 1000 second_sent e d))
    × ((e : Event) (d : Pipeline)
        → Work question_mark plain 1000 second_sent e d
        → load d < load second_sent)
pipeline-progress_example = pipeline-progress question_mark plain 1000 second_sent

handle_request-counts_example :
    (shards' : List MetricsShard) × (response : Response) × (handle_request Method.get
        (text "/healthz")
        server.engine
        (counters ∷ counters ∷ [])
      ≡ some (shards', response))
    × ((snapshot shards').requests_total
        ≡ saturating_add (snapshot (counters ∷ counters ∷ [])).requests_total 1)
    × ((snapshot shards').errors_total
        ≡ saturating_add
            (snapshot (counters ∷ counters ∷ [])).errors_total
            (errors_of (is_route (text "/healthz") Method.get (text "/healthz"))))
    × (response.status ≡ status_of (is_route (text "/healthz") Method.get (text "/healthz")))
unfolding same_text
handle_request-counts_example =
    handle_request-counts Method.get (text "/healthz") server.engine counters (counters ∷ []) refl
      (omega arith) (omega arith)
