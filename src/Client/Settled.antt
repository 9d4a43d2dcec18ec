-- ===== src/Client/Settled.antt =====
-- `finish` of clients/rust/cachebox-client/src/lib.rs on slots that are all filled.
use cachebox.Prelude.{
  ◌≡◌, refl, sym, ap, ◌∙◌, ◌⊎◌, inl, inr, Option, none, some, List, [], ◌∷◌, arith, Result, ok, err,
}
use cachebox.Bytes.{Text}
use cachebox.Engine.Types.{index_key}
use cachebox.Wire.Types.{Command, ResponsePayload, ErrorCode}
use cachebox.Client.Types.{ClientError, server}
use cachebox.Client.Requests.{payload_result}
use cachebox.Client.Matcher.{PipelinedResponseMatcher, first_error, collect, finish}
use cachebox.Client.Kinds.{kind}
use cachebox.Client.Filled.{Reply, error_slot, error_slots, one_by_one, payload_slot, payload_slots}

-- Where a payload is stored, and what `request` would make of it.
reply_cases :
    (p : ResponsePayload)
    → ((payload_slot (kind p) ≡ some p) × (error_slot (kind p) ≡ none) × (payload_result p ≡ ok p))
      ⊎ ((x : ErrorCode × Text) × (error_slot (kind p) ≡ some x)
          × (payload_result p ≡ err (server x.0 x.1)))
unfolding kind payload_slot error_slot payload_result
reply_cases (ResponsePayload.error code message) = inr ((code, message), refl, refl)
reply_cases ResponsePayload.done = inl (refl, refl, refl)
reply_cases (ResponsePayload.hit v) = inl (refl, refl, refl)
reply_cases (ResponsePayload.stale v) = inl (refl, refl, refl)
reply_cases ResponsePayload.miss = inl (refl, refl, refl)
reply_cases (ResponsePayload.stored n) = inl (refl, refl, refl)
reply_cases (ResponsePayload.deleted b) = inl (refl, refl, refl)
reply_cases (ResponsePayload.invalidated n) = inl (refl, refl, refl)
reply_cases (ResponsePayload.lease_granted t v) = inl (refl, refl, refl)
reply_cases ResponsePayload.lease_denied = inl (refl, refl, refl)
reply_cases (ResponsePayload.batch_get items) = inl (refl, refl, refl)

-- `finish` on lists of slots.
settle :
    List (Option (ErrorCode × Text))
    → List (Option ResponsePayload)
    → Result ClientError (List ResponsePayload)
settle es ps = elim (first_error es) [
  | some (code, message) ↦ err (server code message)
  | none ↦ collect ps
]

prepend :
    ResponsePayload
    → Result ClientError (List ResponsePayload)
    → Result ClientError (List ResponsePayload)
prepend p (ok ps) = ok (p ∷ ps)
prepend p (err e) = err e

settle-some :
    (x : ErrorCode × Text) (es : List (Option (ErrorCode × Text)))
    (ps : List (Option ResponsePayload))
    → settle (some x ∷ es) ps ≡ err (server x.0 x.1)
unfolding settle first_error
settle-some x es ps = refl

settle-none :
    (p : ResponsePayload) (es : List (Option (ErrorCode × Text)))
    (ps : List (Option ResponsePayload))
    → settle (none ∷ es) (some p ∷ ps) ≡ prepend p (settle es ps)
unfolding settle prepend first_error collect
settle-none p es ps = ground arith

one_by_one-cons :
    (command : Command) (p : ResponsePayload) (replies : List Reply)
    → payload_result p ≡ ok p
    → one_by_one ((command, p) ∷ replies) ≡ prepend p (one_by_one replies)
unfolding one_by_one prepend
one_by_one-cons command p replies h = rw (h, one_by_one) refl

one_by_one_error :
    (command : Command) (p : ResponsePayload) (replies : List Reply) (e : ClientError)
    → payload_result p ≡ err e
    → one_by_one ((command, p) ∷ replies) ≡ err e
unfolding one_by_one
one_by_one_error command p replies e h = rw (h, one_by_one) refl

settle_nothing : settle [] [] ≡ one_by_one []
unfolding settle first_error collect one_by_one
settle_nothing = refl

settle_slots :
    (replies : List Reply)
    → settle (error_slots replies) (payload_slots replies) ≡ one_by_one replies
unfolding error_slots payload_slots
settle_slots [] = settle_nothing
settle_slots ((command, p) ∷ replies) = elim (reply_cases p) [
  | inl h ↦
      ap
        (λ (x : _).
          settle (x ∷ error_slots replies) (payload_slot (kind p) ∷ payload_slots replies))
        h.1
      ∙ (ap (λ (x : _). settle (none ∷ error_slots replies) (x ∷ payload_slots replies)) h.0
          ∙ (settle-none p (error_slots replies) (payload_slots replies)
              ∙ (ap (λ (x : _). prepend p x) (settle_slots replies)
                  ∙ sym (one_by_one-cons command p replies h.2))))
  | inr (x, stored, result) ↦
      ap
        (λ (y : _).
          settle (y ∷ error_slots replies) (payload_slot (kind p) ∷ payload_slots replies))
        stored
      ∙ (settle-some x (error_slots replies) _ ∙ sym (one_by_one_error command p replies _ result))
]

-- What `finish` makes of the slots is as if the requests were made one by one.
pub finish_slots :
    (replies : List Reply) (m : PipelinedResponseMatcher)
    → m.payloads ≡ payload_slots replies
    → m.errors ≡ error_slots replies
    → finish m ≡ one_by_one replies
unfolding finish settle
finish_slots replies m p e =
    ap (λ (x : _). settle x m.payloads) e
    ∙ (ap (λ (x : _). settle (error_slots replies) x) p ∙ settle_slots replies)
