-- ===== src/Ai/Capture.antt =====
-- `StreamCapture` of clients/rust/cachebox-client/src/ai.rs, and the actions on leases.
use cachebox.Prelude.{
  ◌≡◌, refl, sym, ap, ◌∙◌, Bool, true, false, not, Option, List, [], ◌∷◌, ◌++◌, append-nil,
  append_assoc, if◌then◌else◌, Result, ok, err,
}
use cachebox.Bytes.{Bytes, Text}

pub record StreamCapture : Type 0 where
  pub chunks : List Bytes
  pub failed : Bool

pub record CapturedStream : Type 0 where
  pub lease_token : Text
  pub value : Bytes

pub data StreamCaptureError : Type 0 where
  generation_failed : StreamCaptureError

-- `StreamCapture::new`
unfoldable pub new_capture : StreamCapture
new_capture = record { chunks = []; failed = false }

unfoldable pub push_chunk : Bytes → StreamCapture → StreamCapture
push_chunk chunk s = if not s.failed then record s { chunks = s.chunks ++ chunk ∷ [] } else s

unfoldable pub mark_failed : StreamCapture → StreamCapture
mark_failed s = record { chunks = []; failed = true }

-- `into_iter().flatten().collect()`
unfoldable pub flatten : List Bytes → Bytes
flatten [] = []
flatten (chunk ∷ chunks) = chunk ++ flatten chunks

unfoldable pub finish : Text → StreamCapture → Result StreamCaptureError CapturedStream
unfolding flatten
finish lease_token s =
    if s.failed
    then err generation_failed
    else ok (record { lease_token = lease_token; value = flatten s.chunks })

pub data GenerationLeaseStart : Type 0 where
  hit stale : Bytes → GenerationLeaseStart
  lease_granted : (lease_token : Text) (stale_value : Option Bytes) → GenerationLeaseStart
  lease_denied : GenerationLeaseStart

pub data GenerationLeaseAction : Type 0 where
  return_cached : Bytes → GenerationLeaseAction
  generate : (lease_token : Text) (stale_value : Option Bytes) → GenerationLeaseAction
  retry_later : GenerationLeaseAction

unfoldable pub generation_lease_action : GenerationLeaseStart → GenerationLeaseAction
generation_lease_action (hit value) = return_cached value
generation_lease_action (stale value) = return_cached value
generation_lease_action (lease_granted lease_token stale_value) = generate lease_token stale_value
generation_lease_action lease_denied = retry_later

pub data GenerationCompletionFailure : Type 0 where
  invalid_lease_token expired_lease rejected_value transport_error : GenerationCompletionFailure

pub data GenerationCompletion : Type 0 where
  completed : GenerationCompletion
  failed : (lease_token : Text) (reason : GenerationCompletionFailure) → GenerationCompletion

unfoldable pub generation_completion_success : GenerationCompletion
generation_completion_success = completed

unfoldable pub generation_completion_failure :
    Text → GenerationCompletionFailure → GenerationCompletion
generation_completion_failure lease_token reason = failed lease_token reason

-- What a generation does to its capture.
pub data Event : Type 0 where
  chunk : Bytes → Event
  failure : Event

unfoldable pub observe : List Event → StreamCapture → StreamCapture
observe [] s = s
observe (chunk bytes ∷ events) s = observe events (push_chunk bytes s)
observe (failure ∷ events) s = observe events (mark_failed s)

abbrev pub has_failed : List Event → Bool
has_failed [] = false
has_failed (chunk bytes ∷ events) = has_failed events
has_failed (failure ∷ events) = true

abbrev pub all_bytes : List Event → Bytes
all_bytes [] = []
all_bytes (chunk bytes ∷ events) = bytes ++ all_bytes events
all_bytes (failure ∷ events) = all_bytes events

flatten-snoc : (xs : List Bytes) (x : Bytes) → flatten (xs ++ x ∷ []) ≡ flatten xs ++ x
unfolding flatten
flatten-snoc [] x = append-nil x
flatten-snoc (y ∷ ys) x =
    ap (λ (z : Bytes). y ++ z) (flatten-snoc ys x) ∙ sym (append_assoc y (flatten ys) x)

push_failed : (bytes : Bytes) (s : StreamCapture) → s.failed ≡ true → push_chunk bytes s ≡ s
unfolding push_chunk
push_failed bytes s h =
    ap (λ (b : Bool). if not b then record s { chunks = s.chunks ++ bytes ∷ [] } else s) h

push_open :
    (bytes : Bytes) (s : StreamCapture)
    → s.failed ≡ false
    → push_chunk bytes s ≡ record s { chunks = s.chunks ++ bytes ∷ [] }
unfolding push_chunk
push_open bytes s h =
    ap (λ (b : Bool). if not b then record s { chunks = s.chunks ++ bytes ∷ [] } else s) h

-- Once failed, a capture stays failed.
failed_stays :
    (token : Text) (events : List Event) (s : StreamCapture)
    → s.failed ≡ true
    → finish token (observe events s) ≡ err generation_failed
unfolding finish observe mark_failed
failed_stays token [] s h =
    ap
      (λ (b : Bool).
        if b
        then err generation_failed
        else ok (record { lease_token = token; value = flatten s.chunks }))
      h
failed_stays token (chunk bytes ∷ events) s h =
    ap (λ (t : StreamCapture). finish token (observe events t)) (push_failed bytes s h)
    ∙ failed_stays token events s h
failed_stays token (failure ∷ events) s h = failed_stays token events (mark_failed s) refl

-- What the rest of a generation makes of a capture.
abbrev outcome : Text → List Event → Bytes → Result StreamCaptureError CapturedStream
outcome token events bytes =
    if has_failed events
    then err generation_failed
    else ok (record { lease_token = token; value = bytes ++ all_bytes events })

finish_from :
    (token : Text) (events : List Event) (s : StreamCapture)
    → s.failed ≡ false
    → finish token (observe events s) ≡ outcome token events (flatten s.chunks)
unfolding observe finish mark_failed
finish_from token [] s h =
    ap
      (λ (b : Bool).
        if b
        then err generation_failed
        else ok (record { lease_token = token; value = flatten s.chunks }))
      h
    ∙ ap (λ (v : Bytes). ok (record { lease_token = token; value = v }))
        (sym (append-nil (flatten s.chunks)))
finish_from token (chunk bytes ∷ events) s h =
    ap (λ (t : StreamCapture). finish token (observe events t)) (push_open bytes s h)
    ∙ (finish_from token events (record s { chunks = s.chunks ++ bytes ∷ [] }) h
        ∙ ap
            (λ (v : Bytes).
              if has_failed events
              then err generation_failed
              else ok (record { lease_token = token; value = v }))
            (ap (λ (v : Bytes). v ++ all_bytes events) (flatten-snoc s.chunks bytes)
              ∙ append_assoc (flatten s.chunks) bytes (all_bytes events)))
finish_from token (failure ∷ events) s h = failed_stays token events (mark_failed s) refl

-- A capture gives the chunks of a generation in their order, or an error if the generation failed at any
-- time.
pub finish_lem :
    (token : Text) (events : List Event)
    → finish token (observe events new_capture) ≡ (
        if has_failed events
        then err generation_failed
        else ok (record { lease_token = token; value = all_bytes events }))
unfolding new_capture flatten
finish_lem token events = finish_from token events new_capture refl
