-- ===== src/Client/Matcher.antt =====
-- `PipelinedResponseMatcher` and `request_pipelined` of clients/rust/cachebox-client/src/lib.rs. `none` is a
-- panic: an index out of range, or a payload of 4 GiB or more.
use cachebox.Prelude.{
  ℕ, zero, suc, Option, none, some, List, [], ◌∷◌, ◌++◌, ltb, if◌then◌else◌, Result, ok, err,
  length,
}
use cachebox.Prelude.{set_elem}
use cachebox.Prelude.Map.{Assoc, get, remove, insert}
use cachebox.Bytes.{Bytes, Text}
use cachebox.Engine.Types.{index_key}
use cachebox.Wire.Types.{Command, RequestPayload, ResponsePayload, ResponseFrame, ErrorCode}
use cachebox.Wire.Encode.{encode_request_frame}
use cachebox.Client.Types.{ClientError, server, unexpected_response}
use cachebox.Client.Stream.{NativeClient, Call, next_id, write_all, read_response_frame}
use cachebox.Client.Requests.{same_command}

pub record ExpectedResponse : Type 0 where
  pub index : ℕ
  pub command : Command

pub record PipelinedResponseMatcher : Type 0 where
  pub expected : Assoc ℕ ExpectedResponse
  pub payloads : List (Option ResponsePayload)
  pub errors : List (Option (ErrorCode × Text))

-- `resize_with(count, || None)`
unfoldable pub nones : {A : Type 0} → ℕ → List (Option A)
nones zero = []
nones (suc n) = none ∷ nones n

unfoldable pub new : ℕ → Assoc ℕ ExpectedResponse → PipelinedResponseMatcher
new expected_count expected = record {
  expected = expected;
  payloads = nones expected_count;
  errors = nones expected_count;
}

-- `slots[index] = Some(value)`
unfoldable pub put_slot : {A : Type 0} → List (Option A) → ℕ → A → Option (List (Option A))
put_slot slots index value =
    if ltb index (length slots) then some (set_elem slots index (some value)) else none

unfoldable pub store_error :
    ℕ → ErrorCode × Text → PipelinedResponseMatcher → Option PipelinedResponseMatcher
store_error index e m = elim (put_slot m.errors index e) [
  | none ↦ none
  | some errors ↦ some (record m { errors = errors })
]

unfoldable pub store_payload :
    ℕ → ResponsePayload → PipelinedResponseMatcher → Option PipelinedResponseMatcher
store_payload index payload m = elim (put_slot m.payloads index payload) [
  | none ↦ none
  | some payloads ↦ some (record m { payloads = payloads })
]

-- The `match` of `push`
unfoldable pub store :
    ℕ → ResponsePayload → PipelinedResponseMatcher → Option PipelinedResponseMatcher
unfolding store_error store_payload
store index (ResponsePayload.error code message) m = store_error index (code, message) m
store index payload m = store_payload index payload m

abbrev pub Pushed : Type 0
Pushed = Option (Result ClientError PipelinedResponseMatcher)

abbrev pub pushed : Option PipelinedResponseMatcher → Pushed
pushed none = none
pushed (some m) = some (ok m)

unfoldable pub push : ResponseFrame → PipelinedResponseMatcher → Pushed
push response m = elim (get response.request_id m.expected) [
  | none ↦ some (err (unexpected_response "unknown response request id"))
  | some e ↦
      if same_command response.command e.command
      then pushed (
          store e.index response.payload
            (record m { expected = remove response.request_id m.expected }))
      else some (err (unexpected_response "response command mismatch"))
]

-- `errors.into_iter().flatten().next()`
unfoldable pub first_error : List (Option (ErrorCode × Text)) → Option (ErrorCode × Text)
first_error [] = none
first_error (none ∷ es) = first_error es
first_error (some e ∷ es) = some e

-- `payload.ok_or(...)` for each, collected
unfoldable pub collect : List (Option ResponsePayload) → Result ClientError (List ResponsePayload)
collect [] = ok []
collect (none ∷ ps) = err (unexpected_response "missing pipelined response payload")
collect (some p ∷ ps) = elim (collect ps) [ ok rest ↦ ok (p ∷ rest) | err e ↦ err e ]

unfoldable pub finish : PipelinedResponseMatcher → Result ClientError (List ResponsePayload)
unfolding first_error collect
finish m = elim (first_error m.errors) [
  | some (code, message) ↦ err (server code message)
  | none ↦ collect m.payloads
]

-- The first loop of `request_pipelined`: the ids, what is expected, and the bytes to send.
pub record Queue : Type 0 where
  pub next_request_id : ℕ
  pub expected : Assoc ℕ ExpectedResponse
  pub request_buffer : Bytes

unfoldable pub enqueue : ℕ → List (Command × RequestPayload) → Queue → Option Queue
enqueue index [] q = some q
enqueue index ((command, payload) ∷ requests) q =
    elim (encode_request_frame
      (record { request_id = q.next_request_id; command = command; payload = payload })) [
        | none ↦ none
        | some bytes ↦ enqueue (suc index) requests (record {
          next_request_id = next_id q.next_request_id;
          expected =
              insert q.next_request_id (record { index = index; command = command }) q.expected;
          request_buffer = q.request_buffer ++ bytes;
        })
      ]

-- The body of the second loop, with what the rest of the loop does.
unfoldable pub take_response :
    Call ResponseFrame
    → PipelinedResponseMatcher
    → (PipelinedResponseMatcher → NativeClient → Option (Call PipelinedResponseMatcher))
    → Option (Call PipelinedResponseMatcher)
take_response (c, err e) m next = some (c, err e)
take_response (c, ok response) m next = elim (push response m) [
  | none ↦ none
  | some (err e) ↦ some (c, err e)
  | some (ok m') ↦ next m' c
]

-- The second loop: as many responses as requests.
unfoldable pub receive :
    ℕ → PipelinedResponseMatcher → NativeClient → Option (Call PipelinedResponseMatcher)
receive zero m c = some (c, ok m)
receive (suc count) m c = take_response (read_response_frame c) m (receive count)

unfoldable pub finished :
    Option (Call PipelinedResponseMatcher) → Option (Call (List ResponsePayload))
finished none = none
finished (some (c, err e)) = some (c, err e)
finished (some (c, ok m)) = some (c, finish m)

unfoldable pub send_and_receive :
    ℕ → Assoc ℕ ExpectedResponse → Call (Unit {0}) → Option (Call (List ResponsePayload))
send_and_receive count expected (c, err e) = some (c, err e)
send_and_receive count expected (c, ok sent) = finished (receive count (new count expected) c)

unfoldable pub request_pipelined :
    List (Command × RequestPayload) → NativeClient → Option (Call (List ResponsePayload))
request_pipelined [] c = some (c, ok [])
request_pipelined (r ∷ rs) c =
    elim (enqueue 0 (r ∷ rs)
      (record { next_request_id = c.next_request_id; expected = []; request_buffer = [] })) [
        | none ↦ none
        | some q ↦
            send_and_receive (length (r ∷ rs)) q.expected
              (write_all q.request_buffer (record c { next_request_id = q.next_request_id }))
      ]
