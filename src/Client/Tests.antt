-- ===== src/Client/Tests.antt =====
-- Runs of the client of clients/rust/cachebox-client/src/lib.rs at concrete inputs.
use cachebox.Prelude.{
  ℕ, ◌^◌, ◌<◌, ◌≡◌, refl, true, some, List, [], ◌∷◌, ◌++◌, arith, ℕ_discrete, length, wrapping_add,
}
use mathlib.Core.List.{Permᴰ}
use cachebox.Prelude.{get_elem?, set_elem}
use cachebox.Prelude.Map.{insert, remove, get}
use cachebox.Bytes.{Bytes, Text, text}
use cachebox.Engine.Types.{EngineLimits, index_key, entry_key}
use cachebox.Engine.Hashing.{Hashing}
use cachebox.Engine.Store.{new_engine}
use cachebox.Engine.Read
use cachebox.Sharded.Store.{get_value, on_shard, shard_index_for}
use cachebox.Wire.Types.{
  Command, RequestPayload, ResponsePayload, ResponseFrame, DecodeError, command_of, command_id,
}
use cachebox.Wire.Utf8.{is_valid_namespace}
use cachebox.Wire.Encode.{
  be_bytes, push, write_u32, write_u64, write_bytes, write_string, write_bool, write_u16, patch_len,
  frame_start, encode_frame, encode_request_payload, encode_response_payload, encode_request_frame,
  encode_response_frame,
}
use cachebox.Wire.Format.{IsRequest, request_word, response_word}
use cachebox.Server.Answers.{MetricsShard, State, got_answer, answer}
use cachebox.Server.Dispatch.{execute_native_get, execute_native_payload_with_metrics}
use cachebox.Client.Stream.{NativeClient, next_id}
use cachebox.Client.Requests.{payload_result}
use cachebox.Client.Matcher.{Queue, enqueue, request_pipelined}
use cachebox.Client.Filled.{frames_of, one_by_one}
use cachebox.Client.Queue.{Exchange, requests_of, replies_of}
use cachebox.Client.Reading.{IsFrame, with_input}
use cachebox.Client.Pipelined.{encode_all, first_queue, after_sending, request_pipelined-any_order}
use cachebox.Client.Loopback.{loopback, loopback_lem}

abbrev ns : Text
ns = text "n"

abbrev get_one : Exchange
get_one = (Command.get, RequestPayload.get ns (1 ∷ []), ResponsePayload.miss)

abbrev delete_two : Exchange
delete_two = (Command.delete, RequestPayload.delete ns (2 ∷ []), ResponsePayload.deleted true)

abbrev first_frame : ResponseFrame
first_frame = record { request_id = 1; command = Command.get; payload = ResponsePayload.miss }

abbrev second_frame : ResponseFrame
second_frame = record {
  request_id = 2;
  command = Command.delete;
  payload = ResponsePayload.deleted true;
}

-- The second response comes first.
abbrev swapped : List ResponseFrame
swapped = second_frame ∷ first_frame ∷ []

-- Their bytes, as they come.
abbrev swapped_bytes : Bytes
swapped_bytes =
    67 ∷ 66 ∷ 88 ∷ 49 ∷ 1 ∷ 1 ∷ 3 ∷ 0 ∷ 0 ∷ 0 ∷ 0 ∷ 0 ∷ 0 ∷ 0 ∷ 0 ∷ 2 ∷ 0 ∷ 0 ∷ 0 ∷ 2 ∷ 0 ∷ 0 ∷ 0
    ∷ 0 ∷ 5 ∷ 1 ∷ 67 ∷ 66 ∷ 88 ∷ 49 ∷ 1 ∷ 1 ∷ 1 ∷ 0 ∷ 0 ∷ 0 ∷ 0 ∷ 0 ∷ 0 ∷ 0 ∷ 0 ∷ 1 ∷ 0 ∷ 0 ∷ 0 ∷ 1
    ∷ 0 ∷ 0 ∷ 0 ∷ 0 ∷ 3 ∷ []

swapped-encoded : encode_all swapped ≡ some swapped_bytes
unfolding encode_all encode_response_frame encode_frame encode_response_payload patch_len
    frame_start be_bytes write_u32 write_u64 push write_bool command_id
swapped-encoded = refl

abbrev client : NativeClient
client = record {
  stream = record { input = swapped_bytes ++ (9 ∷ []); sent = []; writable = true };
  next_request_id = 1;
  max_payload_len = 1000;
}

-- The queue after both requests.
abbrev sent : Queue
sent = record {
  next_request_id = 3;
  expected =
      (2, record { index = 1; command = Command.delete })
      ∷ (1, record { index = 0; command = Command.get })
      ∷ [];
  request_buffer =
      67 ∷ 66 ∷ 88 ∷ 49 ∷ 1 ∷ 0 ∷ 1 ∷ 0 ∷ 0 ∷ 0 ∷ 0 ∷ 0 ∷ 0 ∷ 0 ∷ 0 ∷ 1 ∷ 0 ∷ 0 ∷ 0 ∷ 10 ∷ 0 ∷ 0 ∷ 0
      ∷ 0 ∷ 0 ∷ 0 ∷ 0 ∷ 1 ∷ 110 ∷ 0 ∷ 0 ∷ 0 ∷ 1 ∷ 1 ∷ 67 ∷ 66 ∷ 88 ∷ 49 ∷ 1 ∷ 0 ∷ 3 ∷ 0 ∷ 0 ∷ 0 ∷ 0
      ∷ 0 ∷ 0 ∷ 0 ∷ 0 ∷ 2 ∷ 0 ∷ 0 ∷ 0 ∷ 10 ∷ 0 ∷ 0 ∷ 0 ∷ 0 ∷ 0 ∷ 0 ∷ 0 ∷ 1 ∷ 110 ∷ 0 ∷ 0 ∷ 0 ∷ 1 ∷ 2
      ∷ [];
}

both-sent : enqueue 0 (requests_of (get_one ∷ delete_two ∷ [])) (first_queue client) ≡ some sent
unfolding enqueue encode_request_frame encode_frame encode_request_payload patch_len frame_start
    be_bytes write_u32 write_u64 write_bytes write_string write_u16 command_id insert remove next_id
    wrapping_add requests_of ℕ_discrete
both-sent = refl

miss_size : length (response_word ResponsePayload.miss) ≡ 1
unfolding response_word
miss_size = refl

deleted_size : length (response_word (ResponsePayload.deleted true)) ≡ 2
unfolding response_word
deleted_size = refl

miss-IsFrame :
    (id : ℕ)
    → id < 2 ^ 64
    → IsFrame 1000
        (record { request_id = id; command = Command.get; payload = ResponsePayload.miss })
miss-IsFrame id small = record {
  answers = tt;
  payload = tt;
  id = small;
  fits = omega (arith, miss_size);
  short = omega (arith, miss_size);
}

second-IsFrame : IsFrame 1000 second_frame
second-IsFrame = record {
  answers = tt;
  payload = tt;
  id = omega arith;
  fits = omega (arith, deleted_size);
  short = omega (arith, deleted_size);
}

request_pipelined-any_order_example :
    request_pipelined (requests_of (get_one ∷ delete_two ∷ [])) client
    ≡ some (
      with_input (9 ∷ []) (after_sending sent client),
      one_by_one (replies_of (get_one ∷ delete_two ∷ [])),
    )
unfolding frames_of replies_of
request_pipelined-any_order_example =
    request_pipelined-any_order get_one (delete_two ∷ []) client sent swapped swapped_bytes (9 ∷ [])
      refl (omega arith) both-sent (Permᴰ.swap refl refl)
      (second-IsFrame, (miss-IsFrame 1 (omega arith), tt)) swapped-encoded refl

abbrev plain : Hashing
plain = record {
  entry_order = λ entries. entries;
  get-entry_order = λ entries id distinct. refl;
  id_order = λ ids. ids;
  contains-id_order = λ ids id. refl;
  index_order = λ indices. indices;
  contains-index_order = λ indices i. refl;
  hash = λ namespace key. 0;
}

abbrev limits : EngineLimits
limits = record { max_memory_bytes = 250; max_value_bytes = 16 }

abbrev counted : ℕ → ℕ → MetricsShard
counted gets misses = record {
  requests_total = 0;
  health_requests = 0;
  get_requests = gets;
  put_requests = 0;
  delete_requests = 0;
  batch_get_requests = 0;
  tag_invalidate_requests = 0;
  hits_total = 0;
  misses_total = misses;
  stale_total = 0;
  lease_grants = 0;
  lease_denials = 0;
  errors_total = 0;
}

abbrev before : State
before = record {
  engine = record { shards = new_engine limits ∷ []; tag_directory = []; limits = limits };
  metrics = counted 0 0;
}

abbrev question_mark : DecodeError → Text
question_mark e = text "?"

get-misses :
    execute_native_payload_with_metrics plain (λ i. i) (RequestPayload.get ns (1 ∷ [])) before
    ≡ some (record before { metrics = counted 1 1 }, ResponsePayload.miss)
unfolding execute_native_payload_with_metrics execute_native_get answer get_value on_shard
    shard_index_for Read.get_value Read.get_ref Read.get_ref_inner get new_engine got_answer
    get_elem? set_elem wrapping_add
get-misses = refl

one-IsRequest : IsRequest (RequestPayload.get ns (1 ∷ []))
unfolding is_valid_namespace
one-IsRequest = ((refl, omega arith), omega arith)

one_size : length (request_word (RequestPayload.get ns (1 ∷ []))) ≡ 10
unfolding request_word be_bytes
one_size = refl

loopback_lem_example :
    (c' : NativeClient) × (loopback question_mark plain
        (λ i. i)
        1000
        Command.get
        (RequestPayload.get ns (1 ∷ []))
        client
        before
      ≡ some (record before { metrics = counted 1 1 }, (c', payload_result ResponsePayload.miss)))
    × (c'.next_request_id ≡ next_id 1)
    × (c'.stream.input ≡ [])
unfolding command_of
loopback_lem_example =
    loopback_lem question_mark plain (λ i. i) 1000 (RequestPayload.get ns (1 ∷ [])) client before
      (record before { metrics = counted 1 1 }) ResponsePayload.miss refl (omega arith)
      one-IsRequest (omega (arith, one_size)) (omega (arith, one_size)) get-misses
      (miss-IsFrame 1 (omega arith))
