-- ===== src/Server/Tests.antt =====
-- Runs of the server of src/server.rs at concrete inputs.
use cachebox.Prelude.{◌≡◌, refl, [], ◌∷◌, ◌++◌}
use cachebox.Bytes.{Bytes, Text}
use cachebox.Engine.Types.{EngineLimits}
use cachebox.Engine.Hashing.{Hashing}
use cachebox.Engine.Store.{new_engine}
use cachebox.Wire.Types.{DecodeError}
use cachebox.Server.Frames.{
  FrameDrain, find_complete_native_frames, Promise, find_frames, drain_of, payload_len_at,
  find_complete_native_frames_lem,
}
use cachebox.Server.Batches.{coalesce_native_responses, concat, coalesce-order}
use cachebox.Server.Answers.{MetricsShard, State}
use cachebox.Server.Dispatch.{execute_native_frame_bytes_into}
use cachebox.Server.Views.{expected_answer, execute_native_frame_lem}
use cachebox.Wire.Cursor.{from_be}

-- A `get` of the key 1 in the namespace "n".
abbrev pub get_bytes : Bytes
get_bytes =
    b'C' ∷ b'B' ∷ b'X' ∷ b'1' ∷ 1 ∷ 0 ∷ 1 ∷ 0 ∷ 0 ∷ 0 ∷ 0 ∷ 0 ∷ 0 ∷ 0 ∷ 0 ∷ 42 ∷ 0 ∷ 0 ∷ 0 ∷ 10 ∷ 0
    ∷ 0 ∷ 0 ∷ 0 ∷ 0 ∷ 0 ∷ 0 ∷ 1 ∷ b'n' ∷ 0 ∷ 0 ∷ 0 ∷ 1 ∷ 1 ∷ []

abbrev pub plain : Hashing
plain = record {
  entry_order = λ entries. entries;
  get-entry_order = λ entries id distinct. refl;
  id_order = λ ids. ids;
  contains-id_order = λ ids id. refl;
  index_order = λ indices. indices;
  contains-index_order = λ indices i. refl;
  hash = λ namespace key. 0;
}

abbrev pub counters : MetricsShard
counters = record {
  requests_total = 0;
  health_requests = 0;
  get_requests = 0;
  put_requests = 0;
  delete_requests = 0;
  batch_get_requests = 0;
  tag_invalidate_requests = 0;
  hits_total = 0;
  misses_total = 0;
  stale_total = 0;
  lease_grants = 0;
  lease_denials = 0;
  errors_total = 0;
}

abbrev limits : EngineLimits
limits = record { max_memory_bytes = 250; max_value_bytes = 16 }

abbrev pub server : State
server = record {
  engine = record { shards = new_engine limits ∷ []; tag_directory = []; limits = limits };
  metrics = counters;
}

abbrev pub question_mark : DecodeError → Text
question_mark e = b'?' ∷ []

execute_native_frame_lem_example :
    execute_native_frame_bytes_into question_mark plain (λ i. i) get_bytes 1000 server
    ≡ expected_answer question_mark plain (λ i. i) get_bytes 1000 server
execute_native_frame_lem_example =
    execute_native_frame_lem question_mark plain (λ i. i) get_bytes 1000 server

abbrev one_and_a_bit : Bytes
one_and_a_bit = get_bytes ++ (b'C' ∷ [])

one_range :
    find_complete_native_frames one_and_a_bit 1000
    ≡ FrameDrain.frames (record { start = 0; end = 34 } ∷ [])
unfolding find_complete_native_frames find_frames payload_len_at from_be drain_of
one_range = refl

find_complete_native_frames_lem_example :
    Promise one_and_a_bit 1000 (find_complete_native_frames one_and_a_bit 1000)
find_complete_native_frames_lem_example = find_complete_native_frames_lem one_and_a_bit 1000

coalesce-order_example :
    (coalesce_native_responses (1 ∷ []) ((2 ∷ []) ∷ (3 ∷ []) ∷ [])).0
      ++ concat (coalesce_native_responses (1 ∷ []) ((2 ∷ []) ∷ (3 ∷ []) ∷ [])).1
    ≡ (1 ∷ []) ++ concat ((2 ∷ []) ∷ (3 ∷ []) ∷ [])
coalesce-order_example = coalesce-order (1 ∷ []) ((2 ∷ []) ∷ (3 ∷ []) ∷ [])
