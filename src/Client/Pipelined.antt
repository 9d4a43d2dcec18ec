-- ===== src/Client/Pipelined.antt =====
-- `request_pipelined` of clients/rust/cachebox-client/src/lib.rs, from its requests to its result.
use cachebox.Prelude.{
  ℕ, suc, ◌+◌, ◌≤◌, ◌≡◌, refl, sym, ap, ◌∙◌, inl, inr, true, Option, none, some, List, [], ◌∷◌,
  ◌++◌, append_assoc, arith, Option-cases, Result, ok, length, All, u64_max,
}
use mathlib.Core.Option.{some-injective}
use mathlib.Core.List.{Permᴰ}
use cachebox.Bytes.{Bytes}
use cachebox.Prelude.Map.{get}
use cachebox.Engine.Types.{index_key}
use cachebox.Wire.Types.{Command, RequestPayload, ResponsePayload, ResponseFrame}
use cachebox.Wire.Encode.{encode_response_frame}
use cachebox.Client.Types.{ClientError}
use cachebox.Client.Stream.{NativeClient, Call, write_all, read_response_frame}
use cachebox.Client.Matcher.{
  PipelinedResponseMatcher, new, push, finish, Queue, enqueue, receive, take_response, finished,
  send_and_receive, request_pipelined,
}
use cachebox.Client.Kinds.{IsApart}
use cachebox.Client.Slots.{push-Next}
use cachebox.Client.AnyOrder.{push_all, push_all-first}
use cachebox.Client.Filled.{Waits, frames_of, one_by_one}
use cachebox.Client.InOrder.{push_all_any_order}
use cachebox.Client.Queue.{Exchange, requests_of, replies_of, enqueue-Numbered, enqueue-Waits}
use cachebox.Client.Reading.{IsFrame, with_input, read_response_frame-encoded}

-- The bytes of frames, one after another; `none` if a frame cannot be encoded.
unfoldable pub encode_all : List ResponseFrame → Option Bytes
encode_all [] = some []
encode_all (frame ∷ frames) = elim (encode_response_frame frame) [
  | none ↦ none
  | some bytes ↦ elim (encode_all frames) [ none ↦ none | some rest ↦ some (bytes ++ rest) ]
]

encode_all-first :
    (frame : ResponseFrame) (frames : List ResponseFrame) (input : Bytes)
    → encode_all (frame ∷ frames) ≡ some input
    → (bytes : Bytes) × (rest : Bytes) × (encode_response_frame frame ≡ some bytes)
      × (encode_all frames ≡ some rest)
      × (input ≡ bytes ++ rest)
unfolding encode_all
encode_all-first frame frames input h = elim (Option-cases (encode_response_frame frame)) [
  | inl bad ↦ absurd (ground (arith, (rw (bad, encode_all) at h)))
  | inr (bytes, found) ↦ elim (Option-cases (encode_all frames)) [
    | inl bad ↦ absurd (ground (arith, (rw bad at (rw (found, encode_all) at h))))
    | inr (rest, also) ↦ (
      bytes,
      rest,
      found,
      also,
      sym (some-injective _ _ (rw also at (rw (found, encode_all) at h))),
    )
  ]
]

receive_step :
    (count : ℕ) (m m1 : PipelinedResponseMatcher) (c c' : NativeClient) (response : ResponseFrame)
    → read_response_frame c ≡ (c', ok response)
    → push response m ≡ some (ok m1)
    → receive (suc count) m c ≡ receive count m1 c'
unfolding receive take_response
receive_step count m m1 c c' response reads pushes =
    ap (λ (r : Call ResponseFrame). take_response r m (receive count)) reads
    ∙ rw (pushes, take_response) refl

receive_end : (m : PipelinedResponseMatcher) (c : NativeClient) → receive 0 m c ≡ some (c, ok m)
unfolding receive
receive_end m c = refl

-- Receiving encoded frames pushes them all.
receive-push_all :
    (frames : List ResponseFrame) (input rest : Bytes) (m m' : PipelinedResponseMatcher)
    (c : NativeClient)
    → All (IsFrame c.max_payload_len) frames
    → encode_all frames ≡ some input
    → push_all frames m ≡ some (ok m')
    → receive (length frames) m (with_input (input ++ rest) c) ≡ some (with_input rest c, ok m')
unfolding encode_all push_all
receive-push_all [] input rest m m' c a e h =
    ap (λ (x : Bytes). receive 0 m (with_input (x ++ rest) c)) (sym (some-injective _ _ e))
    ∙ (receive_end m (with_input rest c)
        ∙ ap (λ (x : Result ClientError PipelinedResponseMatcher). some (with_input rest c, x))
            (some-injective _ _ h))
receive-push_all (frame ∷ frames) input rest m m' c a e h =
    let (bytes, more, found, also, shape) = encode_all-first frame frames input e in
    let (m1, n, left) = push_all-first frame frames m m' h in
    ap (λ (x : Bytes). receive (suc (length frames)) m (with_input x c))
      (ap (λ (x : Bytes). x ++ rest) shape ∙ append_assoc bytes more rest)
    ∙ (receive_step (length frames) m m1 _ (with_input (more ++ rest) c) frame
          (read_response_frame-encoded frame bytes (more ++ rest) c a.0 found)
          (push-Next frame m m1 n)
        ∙ receive-push_all frames more rest m1 m' c a.1 also left)

Permᴰ-length : {A : Type 0} {xs ys : List A} → Permᴰ xs ys → length xs ≡ length ys
Permᴰ-length Permᴰ.nil = refl
Permᴰ-length (Permᴰ.cons e d) = ap suc (Permᴰ-length d)
Permᴰ-length (Permᴰ.swap e f) = refl
Permᴰ-length (Permᴰ.trans d e) = Permᴰ-length d ∙ Permᴰ-length e

length-frames_of :
    (xs : List Exchange) (id : ℕ)
    → (length (frames_of id (replies_of xs)) ≡ length xs)
      × (length (replies_of xs) ≡ length xs)
      × (length (requests_of xs) ≡ length xs)
unfolding frames_of replies_of requests_of
length-frames_of [] id = (refl, refl, refl)
length-frames_of ((command, payload, answer) ∷ xs) id =
    let h = length-frames_of xs (suc id) in (ap suc h.0, ap suc h.1, ap suc h.2)

-- The queue before the first request.
abbrev pub first_queue : NativeClient → Queue
first_queue c = record { next_request_id = c.next_request_id; expected = []; request_buffer = [] }

-- What the client waits for after all the requests keeps every slot apart.
enqueued-IsApart :
    (requests : List (Command × RequestPayload)) (c : NativeClient) (q : Queue) (count : ℕ)
    → c.next_request_id + length requests ≤ u64_max
    → enqueue 0 requests (first_queue c) ≡ some q
    → IsApart (new count q.expected)
unfolding new get
enqueued-IsApart requests c q count fits h =
    let numbered =
      enqueue-Numbered requests 0 c.next_request_id (first_queue c) q (omega arith)
        (omega (arith, fits)) (λ j a found. absurd (ground (arith, found))) h in
    record { apart = λ i j a b hi hj same. omega (arith, numbered i a hi, numbered j b hj, same) }

-- The client after it has sent the requests.
abbrev pub after_sending : Queue → NativeClient → NativeClient
after_sending q c = record c {
  next_request_id = q.next_request_id;
  stream = record c.stream { sent = c.stream.sent ++ q.request_buffer };
}

pub write_all_sends :
    (bytes : Bytes) (c : NativeClient)
    → c.stream.writable ≡ true
    → write_all bytes c
      ≡ (record c { stream = record c.stream { sent = c.stream.sent ++ bytes } }, ok tt)
unfolding write_all
write_all_sends bytes c h = rw h refl

pipelined_sends :
    (r : Command × RequestPayload) (rs : List (Command × RequestPayload)) (c : NativeClient)
    (q : Queue)
    → c.stream.writable ≡ true
    → enqueue 0 (r ∷ rs) (first_queue c) ≡ some q
    → request_pipelined (r ∷ rs) c
      ≡ finished (receive (length (r ∷ rs)) (new (length (r ∷ rs)) q.expected) (after_sending q c))
unfolding request_pipelined send_and_receive
pipelined_sends r rs c q writable queued =
    rw (queued, request_pipelined)
      (ap (λ (x : Call _). send_and_receive (length (r ∷ rs)) q.expected x)
        (write_all_sends q.request_buffer (record c { next_request_id = q.next_request_id })
          writable))

finished_ok :
    (c : NativeClient) (m : PipelinedResponseMatcher)
    (r : Result ClientError (List ResponsePayload))
    → finish m ≡ r
    → finished (some (c, ok m)) ≡ some (c, r)
unfolding finished
finished_ok c m r h = ap (λ (x : Result ClientError (List ResponsePayload)). some (c, x)) h

-- Requests in a pipeline give what the same requests give one by one, in whatever order the responses come.
pub request_pipelined-any_order :
    (x : Exchange) (xs : List Exchange) (c : NativeClient) (q : Queue)
    (arrived : List ResponseFrame) (input rest : Bytes)
    → c.stream.writable ≡ true
    → c.next_request_id + length (x ∷ xs) ≤ u64_max
    → enqueue 0 (requests_of (x ∷ xs)) (first_queue c) ≡ some q
    → Permᴰ (frames_of c.next_request_id (replies_of (x ∷ xs))) arrived
    → All (IsFrame c.max_payload_len) arrived
    → encode_all arrived ≡ some input
    → c.stream.input ≡ input ++ rest
    → request_pipelined (requests_of (x ∷ xs)) c
      ≡ some (with_input rest (after_sending q c), one_by_one (replies_of (x ∷ xs)))
unfolding requests_of
request_pipelined-any_order x xs c q arrived input rest writable fits queued perm frames coded at =
    let counts = length-frames_of (x ∷ xs) c.next_request_id in
    let sent = after_sending q c in
    let replies = replies_of (x ∷ xs) in
    let waits : Waits 0 c.next_request_id replies q.expected =
      enqueue-Waits (x ∷ xs) 0 (first_queue c) q (omega (arith, fits, counts.2)) queued in
    let apart =
      enqueued-IsApart (requests_of (x ∷ xs)) c q (length replies) (omega (arith, fits, counts.2))
        queued in
    let run = push_all_any_order replies c.next_request_id q.expected arrived waits apart perm in
    let many : length arrived ≡ length replies =
      sym (Permᴰ-length perm) ∙ (counts.0 ∙ sym counts.1) in
    let received : receive (length replies) (new (length replies) q.expected) sent
        ≡ some (with_input rest sent, ok run.0) =
      ap (λ (n : ℕ). receive n (new (length replies) q.expected) sent) (sym many)
      ∙ (ap
            (λ (i : Bytes).
              receive (length arrived) (new (length replies) q.expected) (with_input i sent))
            at
          ∙ receive-push_all arrived input rest (new (length replies) q.expected) run.0 sent frames
              coded run.1) in
    pipelined_sends (x.0, x.1) (requests_of xs) c q writable queued
    ∙ (ap (λ (n : ℕ). finished (receive n (new n q.expected) sent)) (counts.2 ∙ sym counts.1)
        ∙ (ap finished received ∙ finished_ok (with_input rest sent) run.0 _ run.2))
