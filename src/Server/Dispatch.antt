-- ===== src/Server/Dispatch.antt =====
-- The dispatch of requests of src/server.rs to the sharded engine, with the counters of the metrics. `none`
-- stands for a panic: of an index out of range, or of an answer of 4 GiB or more.
use cachebox.Prelude.{ℕ, min, ite, Option, none, some, [], ltb, if◌then◌else◌, ok, err, length}
use cachebox.Bytes.{Bytes, Text}
use cachebox.Engine.Types.{GetOutcome, miss, Text-discrete}
use cachebox.Engine.Hashing.{Hashing}
use cachebox.Engine.Store.{Clock}
use cachebox.Sharded.Store.{
  ShardedEngine, put, get_value, get_ref, delete, batch_get, invalidate_tag, start_lease,
  complete_lease,
}
use cachebox.Wire.Types.{
  Command, RequestPayload, RequestPayloadView, RequestFrameView, ErrorCode, ResponsePayload,
  ResponsePayloadView, ResponseFrame, DecodeError, command_from_id,
}
use cachebox.Wire.Cursor.{slice, from_be}
use cachebox.Wire.Encode.{
  header_len, magic, encode_response_frame, encode_response_payload_view_frame,
}
use cachebox.Wire.Decode.{byte_at, decode_request_frame}
use cachebox.Wire.Borrowed.{decode_borrowed_request_frame}
use cachebox.Server.Answers.{
  MetricsShard, State, bump, u32_max, native_put_command, stored_answer, completed_answer,
  got_answer, batch_items, leased_answer, answer,
}

module _ (h : Hashing) (clock : Clock) where
  unfoldable pub execute_native_get : Text → Bytes → State → Option (State × ResponsePayload)
  execute_native_get namespace key s =
      let m = record s.metrics { get_requests = bump s.metrics.get_requests } in
      answer (get_value h (clock 0) namespace key s.engine) (λ outcome. got_answer outcome m)

  unfoldable pub execute_native_delete : Text → Bytes → State → Option (State × ResponsePayload)
  execute_native_delete namespace key s =
      let m = record s.metrics { delete_requests = bump s.metrics.delete_requests } in
      answer (delete h namespace key s.engine) (λ removed. (m, ResponsePayload.deleted removed))

  unfoldable pub execute_native_tag_invalidate :
      Text → Text → State → Option (State × ResponsePayload)
  execute_native_tag_invalidate namespace tag s =
      let m = record s.metrics {
        tag_invalidate_requests = bump s.metrics.tag_invalidate_requests;
      } in
      answer (invalidate_tag h namespace tag s.engine)
        (λ removed. (m, ResponsePayload.invalidated (min removed u32_max)))

  unfoldable pub execute_native_lease_start :
      Text → Bytes → ℕ → State → Option (State × ResponsePayload)
  execute_native_lease_start namespace key lease_ttl_ms s =
      answer (start_lease h clock namespace key lease_ttl_ms s.engine)
        (λ outcome. leased_answer outcome s.metrics)

  unfoldable pub execute_native_payload_with_metrics :
      RequestPayload → State → Option (State × ResponsePayload)
  execute_native_payload_with_metrics (RequestPayload.get namespace key) s =
      execute_native_get namespace key s
  execute_native_payload_with_metrics (RequestPayload.put namespace key metadata value) s =
      let m = record s.metrics { put_requests = bump s.metrics.put_requests } in
      answer (put h clock (native_put_command namespace key metadata value) s.engine)
        (λ result. stored_answer result m)
  execute_native_payload_with_metrics (RequestPayload.delete namespace key) s =
      execute_native_delete namespace key s
  execute_native_payload_with_metrics (RequestPayload.batch_get namespace keys) s =
      let m = record s.metrics { batch_get_requests = bump s.metrics.batch_get_requests } in
      answer (batch_get h clock namespace keys s.engine) (λ outcomes.
        let (m', items) = batch_items outcomes m in (m', ResponsePayload.batch_get items))
  execute_native_payload_with_metrics (RequestPayload.tag_invalidate namespace tag) s =
      execute_native_tag_invalidate namespace tag s
  execute_native_payload_with_metrics (RequestPayload.lease_start namespace key lease_ttl_ms _) s =
      execute_native_lease_start namespace key lease_ttl_ms s
  execute_native_payload_with_metrics
        (RequestPayload.lease_complete namespace key lease_token metadata value) s =
      answer
        (complete_lease h clock
          (record {
            namespace = namespace;
            key = key;
            lease_token = lease_token;
            value = value;
            ttl = metadata.ttl;
            stale_ttl = metadata.stale_ttl;
            tags = metadata.tags;
            cost = metadata.cost;
          })
          s.engine)
        (λ result. completed_answer result s.metrics)

  unfoldable pub execute_native_payload_view :
      RequestPayloadView → State → Option (State × ResponsePayload)
  execute_native_payload_view (RequestPayloadView.get namespace key) s =
      execute_native_get namespace key s
  execute_native_payload_view (RequestPayloadView.delete namespace key) s =
      execute_native_delete namespace key s
  execute_native_payload_view (RequestPayloadView.tag_invalidate namespace tag) s =
      execute_native_tag_invalidate namespace tag s
  execute_native_payload_view (RequestPayloadView.lease_start namespace key lease_ttl_ms _) s =
      execute_native_lease_start namespace key lease_ttl_ms s

-- `encode_response_frame_into`, into the empty response buffer.
unfoldable pub encode_answer :
    ℕ → Command → Option (State × ResponsePayload) → Option (State × Bytes)
encode_answer request_id command none = none
encode_answer request_id command (some (s, payload)) =
    elim (encode_response_frame
      (record { request_id = request_id; command = command; payload = payload })) [
        | none ↦ none
        | some bytes ↦ some (s, bytes)
      ]

unfoldable pub view_of : GetOutcome → ResponsePayloadView
view_of (GetOutcome.hit value) = ResponsePayloadView.hit value
view_of (GetOutcome.stale value) = ResponsePayloadView.stale value
view_of miss = ResponsePayloadView.miss

-- What the closure of `encode_native_get_response_frame` has written and counted.
unfoldable pub written :
    Option (ShardedEngine × (MetricsShard × Option Bytes)) → Option (State × Bytes)
written none = none
written (some (engine, (metrics, none))) = none
written (some (engine, (metrics, some bytes))) =
    some (record { engine = engine; metrics = metrics }, bytes)

unfoldable pub encode_native_get_response_frame :
    Hashing → ℕ → ℕ → Command → Text → Bytes → State → Option (State × Bytes)
unfolding view_of
encode_native_get_response_frame h now_ms request_id command namespace key s =
    let m = record s.metrics { get_requests = bump s.metrics.get_requests } in
    let closure : GetOutcome → MetricsShard × Option Bytes = λ outcome. (
      (got_answer outcome m).0,
      encode_response_payload_view_frame request_id command (view_of outcome),
    ) in
    written (get_ref h now_ms namespace key closure s.engine)

unfoldable pub native_decode_error_code : DecodeError → ErrorCode
native_decode_error_code (DecodeError.unsupported_version _) = ErrorCode.unsupported_version
native_decode_error_code (DecodeError.unknown_command _) = ErrorCode.unknown_command
native_decode_error_code (DecodeError.frame_too_large _ _) = ErrorCode.frame_too_large
native_decode_error_code DecodeError.invalid_namespace = ErrorCode.invalid_namespace
native_decode_error_code DecodeError.invalid_tag = ErrorCode.invalid_tag
native_decode_error_code _ = ErrorCode.bad_frame

-- `Command::from_id(...).unwrap_or(Command::Get)`
unfoldable pub command_or_get : ℕ → Command
command_or_get id = elim (command_from_id id) [ ok command ↦ command | err e ↦ Command.get ]

-- `debug` is the text of an error that `format!` with `{:?}` prints.
module _ (debug : DecodeError → Text) where
  unfoldable pub native_decode_error_response : Bytes → DecodeError → Option ResponseFrame
  native_decode_error_response frame error =
      if ltb (length frame) header_len
      then none
      else ite (Text-discrete (slice frame 0 4) magic)
          (some (record {
            request_id = from_be (slice frame 8 16);
            command = command_or_get (byte_at frame 6);
            payload = ResponsePayload.error (native_decode_error_code error) (debug error);
          }))
          none

  -- Where there is no answer, the buffer stays empty.
  unfoldable pub answer_error : Bytes → DecodeError → State → Option (State × Bytes)
  answer_error frame error s = elim (native_decode_error_response frame error) [
    | none ↦ some (s, [])
    | some response ↦ elim (encode_response_frame response) [
      | none ↦ none
      | some bytes ↦ some (s, bytes)
    ]
  ]

  module _ (h : Hashing) (clock : Clock) where
    unfoldable pub execute_view : RequestFrameView → State → Option (State × Bytes)
    execute_view request s = elim request.payload [
      | RequestPayloadView.get namespace key ↦
          encode_native_get_response_frame h (clock 0) request.request_id request.command namespace
            key s
      | _ ↦
          encode_answer request.request_id request.command
            (execute_native_payload_view h clock request.payload s)
    ]

    unfoldable pub execute_native_frame_bytes_into : Bytes → ℕ → State → Option (State × Bytes)
    execute_native_frame_bytes_into frame max_payload_len s =
        elim (decode_borrowed_request_frame frame max_payload_len) [
          | ok (some request) ↦ execute_view request s
          | ok none ↦ elim (decode_request_frame frame max_payload_len) [
            | ok request ↦
                encode_answer request.request_id request.command
                  (execute_native_payload_with_metrics h clock request.payload s)
            | err error ↦ answer_error frame error s
          ]
          | err error ↦ answer_error frame error s
        ]
