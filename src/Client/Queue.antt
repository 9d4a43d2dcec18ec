-- ===== src/Client/Queue.antt =====
-- The ids that `request_pipelined` of clients/rust/cachebox-client/src/lib.rs hands out, and what it waits for.
use cachebox.Prelude.{
  ℕ, suc, ◌+◌, ◌≤◌, ◌<◌, ◌≡◌, sym, ap, ◌∙◌, inl, inr, some, List, [], ◌∷◌, ◌++◌, arith,
  Option-cases, length, u64_max, wrapping_add,
}
use mathlib.Core.Path.{subst}
use mathlib.Core.Option.{some-injective}
use cachebox.Prelude.Map.{Assoc, get, insert, get-insert}
use cachebox.Bytes.{Bytes}
use cachebox.Engine.Types.{index_key}
use cachebox.Wire.Types.{Command, RequestPayload, ResponsePayload}
use cachebox.Wire.Encode.{encode_request_frame}
use cachebox.Client.Stream.{next_id}
use cachebox.Client.Matcher.{ExpectedResponse, Queue, enqueue}
use cachebox.Client.Filled.{Reply, Waits}

-- An id is never 0, and the next one but for the largest.
pub next_id_bounds : (id : ℕ) → (0 < next_id id) × (next_id id ≤ u64_max)
unfolding next_id wrapping_add
next_id_bounds id = ground arith

pub next_id-suc : (id : ℕ) → suc id ≤ u64_max → next_id id ≡ suc id
unfolding next_id wrapping_add
next_id-suc id h = ground arith

-- Ids are handed out from a base on: the slot of an id is its distance.
abbrev pub Numbered : ℕ → Assoc ℕ ExpectedResponse → Type 0
Numbered base e = (j : ℕ) (a : ExpectedResponse) → get j e ≡ some a → j ≡ base + a.index

-- One request more in the queue.
unfoldable pub queued : ℕ → Command → Bytes → Queue → Queue
queued index command bytes q = record {
  next_request_id = next_id q.next_request_id;
  expected = insert q.next_request_id (record { index = index; command = command }) q.expected;
  request_buffer = q.request_buffer ++ bytes;
}

-- What a step of `enqueue` does, if it does not panic.
pub enqueue-first :
    (index : ℕ) (command : Command) (payload : RequestPayload)
    (requests : List (Command × RequestPayload)) (q q' : Queue)
    → enqueue index ((command, payload) ∷ requests) q ≡ some q'
    → (bytes : Bytes) × (encode_request_frame
          (record { request_id = q.next_request_id; command = command; payload = payload })
        ≡ some bytes)
      × (enqueue (suc index) requests (queued index command bytes q) ≡ some q')
unfolding enqueue queued
enqueue-first index command payload requests q q' h =
    elim (Option-cases (
      encode_request_frame
        (record { request_id = q.next_request_id; command = command; payload = payload }))) [
          | inl bad ↦ absurd (ground (arith, (rw (bad, enqueue) at h)))
          | inr (bytes, found) ↦ (bytes, found, (rw (found, enqueue) at h))
        ]

insert-Numbered :
    (index base : ℕ) (command : Command) (e : Assoc ℕ ExpectedResponse)
    → Numbered base e
    → Numbered base (insert (base + index) (record { index = index; command = command }) e)
insert-Numbered index base command e n = λ j a found. ground (
  arith,
  found,
  n j a,
  get-insert (base + index) j (record { index = index; command = command }) e,
)

pub enqueue-Numbered :
    (requests : List (Command × RequestPayload)) (index base : ℕ) (q q' : Queue)
    → q.next_request_id ≡ base + index
    → base + index + length requests ≤ u64_max
    → Numbered base q.expected
    → enqueue index requests q ≡ some q'
    → Numbered base q'.expected
unfolding enqueue queued
enqueue-Numbered [] index base q q' at fits n h =
    subst (λ (x : Queue). Numbered base x.expected) (some-injective _ _ h) n
enqueue-Numbered ((command, payload) ∷ requests) index base q q' at fits n h =
    let first = enqueue-first index command payload requests q q' h in
    let next : next_id q.next_request_id ≡ base + suc index =
      next_id-suc q.next_request_id (omega (arith, at, fits)) ∙ omega (arith, at) in
    let numbered =
      subst
        (λ (id : ℕ).
          Numbered base (insert id (record { index = index; command = command }) q.expected))
        (sym at) (insert-Numbered index base command q.expected n) in
    enqueue-Numbered requests (suc index) base (queued index command first.0 q) q' next
      (omega (arith, fits)) numbered first.2

-- What was waited for stays.
enqueue_old :
    (requests : List (Command × RequestPayload)) (index : ℕ) (q q' : Queue) (j : ℕ)
    → q.next_request_id + length requests ≤ u64_max
    → j < q.next_request_id
    → enqueue index requests q ≡ some q'
    → get j q'.expected ≡ get j q.expected
unfolding enqueue queued
enqueue_old [] index q q' j fits lt h =
    ap (λ (x : Queue). get j x.expected) (sym (some-injective _ _ h))
enqueue_old ((command, payload) ∷ requests) index q q' j fits lt h =
    let first = enqueue-first index command payload requests q q' h in
    let next = next_id-suc q.next_request_id (omega (arith, fits)) in
    enqueue_old requests (suc index) (queued index command first.0 q) q' j
      (omega (arith, fits, next)) (omega (arith, lt, next)) first.2
    ∙ ground (
      arith,
      lt,
      get-insert q.next_request_id j (record { index = index; command = command }) q.expected,
    )

-- A request and the answer to it.
abbrev pub Exchange : Type 0
Exchange = Command × RequestPayload × ResponsePayload

unfoldable pub requests_of : List Exchange → List (Command × RequestPayload)
requests_of [] = []
requests_of ((command, payload, answer) ∷ xs) = (command, payload) ∷ requests_of xs

unfoldable pub replies_of : List Exchange → List Reply
replies_of [] = []
replies_of ((command, payload, answer) ∷ xs) = (command, answer) ∷ replies_of xs

-- All the replies to the requests are waited for.
pub enqueue-Waits :
    (xs : List Exchange) (index : ℕ) (q q' : Queue)
    → q.next_request_id + length (requests_of xs) ≤ u64_max
    → enqueue index (requests_of xs) q ≡ some q'
    → Waits index q.next_request_id (replies_of xs) q'.expected
unfolding requests_of replies_of queued
enqueue-Waits [] index q q' fits h = tt
enqueue-Waits ((command, payload, answer) ∷ xs) index q q' fits h =
    let first = enqueue-first index command payload (requests_of xs) q q' h in
    let next = next_id-suc q.next_request_id (omega (arith, fits)) in
    (
      enqueue_old (requests_of xs) (suc index) (queued index command first.0 q) q' q.next_request_id
            (omega (arith, fits, next)) (omega (arith, next)) first.2
          ∙ ground (
            arith,
            get-insert q.next_request_id q.next_request_id
                (record { index = index; command = command }) q.expected,
          ),
      subst (λ (id : ℕ). Waits (suc index) id (replies_of xs) q'.expected) next
          (enqueue-Waits xs (suc index) (queued index command first.0 q) q'
            (omega (arith, fits, next)) first.2),
    )
