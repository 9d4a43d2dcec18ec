-- ===== src/Client/Loopback.antt =====
-- A call of clients/rust/cachebox-client/src/lib.rs to the server of src/server.rs: the client's bytes are the
-- server's frame, and the server's answer is the client's input.
use cachebox.Prelude.{
  ℕ, ◌^◌, ◌≤◌, ◌<◌, ◌≡◌, refl, sym, ap, ◌∙◌, true, Option, none, some, [], ◌++◌, append-nil, arith,
  ◌==◌, Result, ok, length,
}
use cachebox.Bytes.{Bytes, Text}
use cachebox.Engine.Hashing.{Hashing}
use cachebox.Engine.Store.{Clock}
use cachebox.Wire.Types.{
  Command, RequestPayload, RequestFrame, ResponsePayload, ResponseFrame, DecodeError, command_of,
}
use cachebox.Wire.Encode.{encode_request_frame, encode_response_frame}
use cachebox.Wire.Decode.{decode_request_frame}
use cachebox.Wire.Format.{IsRequest, request_word}
use cachebox.Wire.RoundTrip.{decode-encode_request_frame, encode_response_frame_word}
use cachebox.Server.Answers.{State}
use cachebox.Server.Dispatch.{
  encode_answer, execute_native_payload_with_metrics, execute_native_frame_bytes_into,
}
use cachebox.Server.Views.{expected_answer, execute_native_frame_lem}
use cachebox.Client.Types.{ClientError}
use cachebox.Client.Stream.{NativeClient, Call, next_id, write_all, read_response_frame}
use cachebox.Client.Requests.{payload_result, accept, exchange, request}
use cachebox.Client.InOrder.{same_command_refl}
use cachebox.Client.Pipelined.{write_all_sends}
use cachebox.Client.Reading.{IsFrame, with_input, bind_ok, read_response_frame-encoded}

module _ (debug : DecodeError → Text) (h : Hashing) (clock : Clock) (server_max : ℕ) where
  -- The server answers the bytes that the client is about to send, and the client makes its call with the
  -- answer to read.
  unfoldable pub loopback :
      Command → RequestPayload → NativeClient → State → Option (State × Call ResponsePayload)
  loopback command payload c s =
      elim (encode_request_frame
        (record { request_id = c.next_request_id; command = command; payload = payload })) [
          | none ↦ none
          | some bytes ↦ elim (execute_native_frame_bytes_into debug h clock bytes server_max s) [
            | none ↦ none
            | some (s', answer) ↦ elim (request command payload (with_input answer c)) [
              | none ↦ none
              | some called ↦ some (s', called)
            ]
          ]
        ]

  server_answers :
      (frame : RequestFrame) (bytes answer : Bytes) (s s' : State) (response : ResponsePayload)
      → decode_request_frame bytes server_max ≡ ok frame
      → execute_native_payload_with_metrics h clock frame.payload s ≡ some (s', response)
      → encode_response_frame
          (record { request_id = frame.request_id; command = frame.command; payload = response })
        ≡ some answer
      → execute_native_frame_bytes_into debug h clock bytes server_max s ≡ some (s', answer)
  unfolding expected_answer encode_answer
  server_answers frame bytes answer s s' response decodes executes encodes =
      execute_native_frame_lem debug h clock bytes server_max s
      ∙ rw (decodes, expected_answer) (rw (executes, encode_answer) (rw encodes refl))

accepted :
    (id : ℕ) (command : Command) (response : ResponsePayload)
    → accept id command (record { request_id = id; command = command; payload = response })
      ≡ payload_result response
unfolding accept
accepted id command response =
    let same : (id == id) ≡ true = ground arith in rw same (rw (same_command_refl command) refl)

exchange_reads :
    (command : Command) (response : ResponsePayload) (bytes answer : Bytes) (c : NativeClient)
    (id : ℕ)
    → c.stream.writable ≡ true
    → IsFrame c.max_payload_len (record { request_id = id; command = command; payload = response })
    → encode_response_frame (record { request_id = id; command = command; payload = response })
      ≡ some answer
    → exchange id command bytes (with_input answer c) ≡ (
      record c { stream = record c.stream { input = []; sent = c.stream.sent ++ bytes } },
      payload_result response,
    )
unfolding exchange accept
exchange_reads command response bytes answer c id writable f e =
    let sent = record c { stream = record c.stream { sent = c.stream.sent ++ bytes } } in
    let frame : ResponseFrame = record { request_id = id; command = command; payload = response } in
    bind_ok (write_all bytes (with_input answer c)) (with_input answer sent) tt _
      (write_all_sends bytes (with_input answer c) writable)
    ∙ (bind_ok (read_response_frame (with_input answer sent)) (with_input [] sent) frame _ (
          ap (λ (x : Bytes). read_response_frame (with_input x sent)) (sym (append-nil answer))
          ∙ read_response_frame-encoded frame answer [] sent f e)
        ∙ ap (λ (r : Result ClientError ResponsePayload). (with_input [] sent, r))
            (accepted id command response))

request_sends :
    (command : Command) (payload : RequestPayload) (bytes : Bytes) (c : NativeClient)
    → encode_request_frame
        (record { request_id = c.next_request_id; command = command; payload = payload })
      ≡ some bytes
    → request command payload c
      ≡ some (
          exchange c.next_request_id command bytes
            (record c { next_request_id = next_id c.next_request_id }))
unfolding request
request_sends command payload bytes c h = rw (h, request) refl

module _ (debug : DecodeError → Text) (h : Hashing) (clock : Clock) (server_max : ℕ) where
  -- What the three parties agree on.
  loopback_of :
      (command : Command) (payload : RequestPayload) (bytes answer : Bytes) (c : NativeClient)
      (s s' : State) (called : Call ResponsePayload)
      → encode_request_frame
          (record { request_id = c.next_request_id; command = command; payload = payload })
        ≡ some bytes
      → execute_native_frame_bytes_into debug h clock bytes server_max s ≡ some (s', answer)
      → request command payload (with_input answer c) ≡ some called
      → loopback debug h clock server_max command payload c s ≡ some (s', called)
  unfolding loopback
  loopback_of command payload bytes answer c s s' called encodes serves calls =
      rw (encodes, loopback) (rw serves (rw calls refl))

  -- A call over the wire, of a request that the wire carries (a valid namespace and valid tags, no time of zero, a
  -- batch and a lease token that are not empty,
  -- counts and numbers within their words), with a payload within the server's limit and below 4 GiB, an id of 64
  -- bits and a stream that takes bytes: where the dispatch answers the request, and the answer is one that the
  -- wire carries, within the client's limit and below 4 GiB, the client gets that answer, or its error, and the
  -- server the state after it.
  pub loopback_lem :
      (payload : RequestPayload) (c : NativeClient) (s s' : State) (response : ResponsePayload)
      → c.stream.writable ≡ true
      → c.next_request_id < 2 ^ 64
      → IsRequest payload
      → length (request_word payload) ≤ server_max
      → length (request_word payload) < 2 ^ 32
      → execute_native_payload_with_metrics h clock payload s ≡ some (s', response)
      → IsFrame c.max_payload_len (record {
        request_id = c.next_request_id;
        command = command_of payload;
        payload = response;
      })
      → (c' : NativeClient) × (loopback debug h clock server_max (command_of payload) payload c s
          ≡ some (s', (c', payload_result response)))
        × (c'.next_request_id ≡ next_id c.next_request_id)
        × (c'.stream.input ≡ [])
  loopback_lem payload c s s' response writable id valid fits short executes frame =
      let command = command_of payload in
      let request_frame : RequestFrame = record {
        request_id = c.next_request_id;
        command = command;
        payload = payload;
      } in
      let (bytes, encodes, decodes) =
        decode-encode_request_frame request_frame server_max [] refl valid id fits short in
      let answer_frame : ResponseFrame = record {
        request_id = c.next_request_id;
        command = command;
        payload = response;
      } in
      let word = encode_response_frame_word answer_frame frame.payload frame.short in
      let serves =
        server_answers debug h clock server_max request_frame bytes _ s s' response
          (ap (λ (x : Bytes). decode_request_frame x server_max) (sym (append-nil bytes)) ∙ decodes)
          executes word in
      let c1 = record c { next_request_id = next_id c.next_request_id } in
      let calls =
        request_sends command payload bytes (with_input _ c) encodes
        ∙ ap some
            (exchange_reads command response bytes _ c1 c.next_request_id writable frame word) in
      (
        record c1 { stream = record c.stream { input = []; sent = c.stream.sent ++ bytes } },
        loopback_of command payload bytes _ c s s' _ encodes serves calls,
        refl,
        refl,
      )
