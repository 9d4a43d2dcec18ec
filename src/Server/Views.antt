-- ===== src/Server/Views.antt =====
-- The short way of src/server.rs with borrowed requests answers like the long one.
use cachebox.Prelude.{
  ℕ, ◌≡◌, refl, ap, inl, inr, Option, none, some, Option-cases, Result, ok, err, wrapping_add,
}
use cachebox.Prelude.{get_elem?}
use cachebox.Bytes.{Bytes, Text}
use cachebox.Engine.Types.{GetOutcome, miss, Engine, entry_key}
use cachebox.Engine.Hashing.{Hashing}
use cachebox.Engine.Store.{Clock}
use cachebox.Engine.Read
use cachebox.Engine.Read.{entry_id}
use cachebox.Prelude.Map.{get}
use cachebox.Sharded.Store.{ShardedEngine, shard_index_for, on_shard, get_value, get_ref}
use cachebox.Wire.Types.{Command, RequestPayloadView, RequestFrameView, DecodeError}
use cachebox.Wire.Encode.{
  encode_frame, encode_response_frame, encode_response_payload, encode_response_payload_view,
  encode_response_payload_view_frame,
}
use cachebox.Wire.Decode.{decode_request_frame}
use cachebox.Wire.Agreement.{owned_payload, AgreesWith, decode_borrowed_request_frame-AgreesWith}
use cachebox.Wire.Borrowed.{decode_borrowed_request_frame}
use cachebox.Server.Answers.{MetricsShard, State, got_answer, answer}
use cachebox.Server.Dispatch.{
  view_of, written, encode_answer, execute_native_get, execute_native_payload_with_metrics,
  execute_native_payload_view, encode_native_get_response_frame, answer_error, execute_view,
  execute_native_frame_bytes_into,
}

encode_view_lem :
    (request_id : ℕ) (command : Command) (outcome : GetOutcome) (m : MetricsShard)
    → encode_response_payload_view_frame request_id command (view_of outcome)
      ≡ encode_response_frame (record {
        request_id = request_id;
        command = command;
        payload = (got_answer outcome m).1;
      })
unfolding view_of got_answer encode_response_payload_view_frame encode_response_frame encode_frame
    encode_response_payload encode_response_payload_view
encode_view_lem request_id command (GetOutcome.hit value) m = refl
encode_view_lem request_id command (GetOutcome.stale value) m = refl
encode_view_lem request_id command miss m = refl

-- On one shard, a read through a closure is a read whose outcome the closure is applied to.
shard_get_ref {ℓ} :
    {R : Type ℓ} (now_ms : ℕ) (namespace : Text) (key : Bytes) (f : GetOutcome → R) (e : Engine)
    → Read.get_ref now_ms namespace key f e
      ≡ ((Read.get_value now_ms namespace key e).0, f (Read.get_value now_ms namespace key e).1)
unfolding Read.get_value Read.get_ref Read.get_ref_inner
shard_get_ref now_ms namespace key f e =
    elim (Option-cases (get (entry_id namespace key) e.entries)) [
      | inl gone ↦ rw (gone, Read.get_ref_inner) refl
      | inr (entry, found) ↦ rw (found, Read.get_ref_inner) refl
    ]

-- What a closure makes of the outcome of a read.
abbrev mapped {ℓ} :
    {R : Type ℓ}
    → (GetOutcome → R)
    → Option (ShardedEngine × GetOutcome)
    → Option (ShardedEngine × R)
mapped f none = none
mapped f (some (s, outcome)) = some (s, f outcome)

get_ref-get_value {ℓ} :
    {R : Type ℓ} (h : Hashing) (now_ms : ℕ) (namespace : Text) (key : Bytes) (f : GetOutcome → R)
    (s : ShardedEngine)
    → get_ref h now_ms namespace key f s ≡ mapped f (get_value h now_ms namespace key s)
unfolding get_ref get_value on_shard
get_ref-get_value h now_ms namespace key f s =
    elim (Option-cases (get_elem? s.shards (shard_index_for h namespace key s))) [
      | inl gone ↦ rw (gone, on_shard) refl
      | inr (e, found) ↦ rw (found, on_shard) (rw (shard_get_ref now_ms namespace key f e) refl)
    ]

abbrev the_state : ShardedEngine → MetricsShard × Option Bytes → State
the_state engine p = record { engine = engine; metrics = p.0 }

written-answer :
    (request_id : ℕ) (command : Command) (m : MetricsShard)
    (read : Option (ShardedEngine × GetOutcome))
    (closure : GetOutcome → MetricsShard × Option Bytes)
    → ((outcome : GetOutcome)
        → closure outcome ≡ (
          (got_answer outcome m).0,
          encode_response_frame (record {
            request_id = request_id;
            command = command;
            payload = (got_answer outcome m).1;
          }),
        ))
    → written (mapped closure read)
      ≡ encode_answer request_id command (answer read (λ outcome. got_answer outcome m))
unfolding answer encode_answer written
written-answer request_id command m none closure same = refl
written-answer request_id command m (some (engine, outcome)) closure same =
    rw (same outcome)
      (elim (Option-cases (
        encode_response_frame (record {
          request_id = request_id;
          command = command;
          payload = (got_answer outcome m).1;
        }))) [
          | inl fails ↦ rw (fails, encode_answer) refl
          | inr (bytes, encoded) ↦
              rw (encoded, encode_answer)
                (ap (λ (p : MetricsShard × Option Bytes). some (the_state engine p, bytes))
                  (same outcome))
        ])

-- The short way for a `get` gives the same engine, the same counters and the same bytes.
get_lem :
    (h : Hashing) (clock : Clock) (request_id : ℕ) (command : Command) (namespace : Text)
    (key : Bytes) (s : State)
    → encode_native_get_response_frame h (clock 0) request_id command namespace key s
      ≡ encode_answer request_id command (execute_native_get h clock namespace key s)
unfolding encode_native_get_response_frame execute_native_get
get_lem h clock request_id command namespace key s =
    let m : MetricsShard = record s.metrics {
      get_requests = wrapping_add s.metrics.get_requests 1;
    } in
    let closure : GetOutcome → MetricsShard × Option Bytes = λ outcome. (
      (got_answer outcome m).0,
      encode_response_payload_view_frame request_id command (view_of outcome),
    ) in
    rw (get_ref-get_value h (clock 0) namespace key closure s.engine) (
      written-answer request_id command m (get_value h (clock 0) namespace key s.engine) closure
        (λ outcome.
          ap (λ (b : Option Bytes). ((got_answer outcome m).0, b))
            (encode_view_lem request_id command outcome m)))

module _ (debug : DecodeError → Text) (h : Hashing) (clock : Clock) where
  -- What a frame calls for: its request decoded, executed and the answer encoded, or the answer to its error.
  unfoldable pub expected_answer : Bytes → ℕ → State → Option (State × Bytes)
  expected_answer frame max_payload_len s = elim (decode_request_frame frame max_payload_len) [
    | ok request ↦
        encode_answer request.request_id request.command
          (execute_native_payload_with_metrics h clock request.payload s)
    | err error ↦ answer_error debug frame error s
  ]

  execute_view_lem :
      (request_id : ℕ) (command : Command) (payload : RequestPayloadView) (s : State)
      → execute_view debug h clock
          (record { request_id = request_id; command = command; payload = payload })
          s
        ≡ encode_answer request_id command
            (execute_native_payload_with_metrics h clock (owned_payload payload) s)
  unfolding execute_view execute_native_payload_view execute_native_payload_with_metrics
  execute_view_lem request_id command (RequestPayloadView.get namespace key) s =
      get_lem h clock request_id command namespace key s
  execute_view_lem request_id command (RequestPayloadView.delete namespace key) s = refl
  execute_view_lem request_id command (RequestPayloadView.tag_invalidate namespace tag) s = refl
  execute_view_lem request_id command
        (RequestPayloadView.lease_start namespace key lease_ttl_ms allow_stale_ms) s =
      refl

  -- On every input the server does what the frame calls for, also on its short way for borrowed requests: the same
  -- engine, the same counters, the same bytes, and the same panics.
  pub execute_native_frame_lem :
      (frame : Bytes) (max_payload_len : ℕ) (s : State)
      → execute_native_frame_bytes_into debug h clock frame max_payload_len s
        ≡ expected_answer frame max_payload_len s
  unfolding execute_native_frame_bytes_into expected_answer
  execute_native_frame_lem frame max_payload_len s =
      let by_view : (r : Result DecodeError (Option RequestFrameView))
          → decode_borrowed_request_frame frame max_payload_len ≡ r
          → AgreesWith frame max_payload_len (decode_request_frame frame max_payload_len) r
          → execute_native_frame_bytes_into debug h clock frame max_payload_len s
            ≡ expected_answer frame max_payload_len s =
        elim [
          | err e ↦ λ q a. rw (q, execute_native_frame_bytes_into) (rw (a, expected_answer) refl)
          | ok none ↦ λ q a. rw (q, execute_native_frame_bytes_into) refl
          | ok (some view) ↦ λ q a.
              rw (q, execute_native_frame_bytes_into)
                (rw (a, expected_answer)
                  (execute_view_lem view.request_id view.command view.payload s))
        ] in
      by_view (decode_borrowed_request_frame frame max_payload_len) refl
        (decode_borrowed_request_frame-AgreesWith frame max_payload_len)
