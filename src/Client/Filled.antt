-- ===== src/Client/Filled.antt =====
-- The slots of the matcher of clients/rust/cachebox-client/src/lib.rs, filled from the front.
use cachebox.Prelude.{
  ℕ, zero, suc, ◌<◌, ◌≡◌, refl, sym, ap, ◌∙◌, Option, none, some, List, [], ◌∷◌, ◌++◌, append_assoc,
  arith, Result, ok, err, length, length-append,
}
use cachebox.Prelude.{set_elem}
use cachebox.Prelude.Map.{Assoc, get}
use cachebox.Bytes.{Text}
use cachebox.Engine.Types.{index_key}
use cachebox.Wire.Types.{Command, ResponsePayload, ResponseFrame, ErrorCode}
use cachebox.Client.Types.{ClientError}
use cachebox.Client.Requests.{payload_result}
use cachebox.Client.Matcher.{ExpectedResponse, PipelinedResponseMatcher, nones}
use cachebox.Client.Kinds.{Kind, of_error, of_payload, after, Fits, kind}

-- A request's command, and the payload that the peer answers.
abbrev pub Reply : Type 0
Reply = Command × ResponsePayload

-- The responses in the order of the requests.
unfoldable pub frames_of : ℕ → List Reply → List ResponseFrame
frames_of id [] = []
frames_of id ((command, payload) ∷ replies) =
    record { request_id = id; command = command; payload = payload } ∷ frames_of (suc id) replies

-- What requests one after another would give: the payloads, or the first error.
unfoldable pub one_by_one : List Reply → Result ClientError (List ResponsePayload)
one_by_one [] = ok []
one_by_one ((command, payload) ∷ replies) = elim (payload_result payload) [
  | err e ↦ err e
  | ok p ↦ elim (one_by_one replies) [ ok ps ↦ ok (p ∷ ps) | err e ↦ err e ]
]

-- All the replies are waited for, from an index and an id on.
abbrev pub Waits : ℕ → ℕ → List Reply → Assoc ℕ ExpectedResponse → Type 0
Waits index id [] e = Unit
Waits index id ((command, payload) ∷ replies) e =
    (get id e ≡ some (record { index = index; command = command }))
    × Waits (suc index) (suc id) replies e

unfoldable pub payload_slot : {p : ResponsePayload} → Kind p → Option ResponsePayload
payload_slot (of_error e same) = none
payload_slot {p} (of_payload same) = some p

unfoldable pub error_slot : {p : ResponsePayload} → Kind p → Option (ErrorCode × Text)
error_slot (of_error e same) = some e
error_slot (of_payload same) = none

unfoldable pub payload_slots : List Reply → List (Option ResponsePayload)
payload_slots [] = []
payload_slots ((command, payload) ∷ replies) = payload_slot (kind payload) ∷ payload_slots replies

unfoldable pub error_slots : List Reply → List (Option (ErrorCode × Text))
error_slots [] = []
error_slots ((command, payload) ∷ replies) = error_slot (kind payload) ∷ error_slots replies

-- The slots before the index are filled, the others are not.
pub record Filled (index : ℕ) (left : ℕ) (ps : List (Option ResponsePayload))
    (es : List (Option (ErrorCode × Text))) (m : PipelinedResponseMatcher) : Type 0 where
  pub payloads_at : length ps ≡ index
  pub errors_at : length es ≡ index
  pub payloads : m.payloads ≡ ps ++ nones left
  pub errors : m.errors ≡ es ++ nones left

set_elem-end :
    {A : Type 0} (xs : List (Option A)) (left index : ℕ) (x : Option A)
    → length xs ≡ index
    → set_elem (xs ++ nones (suc left)) index x ≡ (xs ++ x ∷ []) ++ nones left
unfolding set_elem nones
set_elem-end [] left zero x h = refl
set_elem-end [] left (suc index) x h = absurd (omega (arith, h))
set_elem-end (y ∷ ys) left zero x h = absurd (omega (arith, h))
set_elem-end (y ∷ ys) left (suc index) x h =
    ap (λ (l : List (Option _)). y ∷ l) (set_elem-end ys left index x (omega (arith, h)))

snoc_none :
    {A : Type 0} (xs : List (Option A)) (left : ℕ)
    → xs ++ nones (suc left) ≡ (xs ++ none ∷ []) ++ nones left
unfolding nones
snoc_none xs left = sym (append_assoc xs (none ∷ []) (nones left))

length-nones : (A : Type 0) (n : ℕ) → length (nones {A = A} n) ≡ n
unfolding nones
length-nones A zero = refl
length-nones A (suc n) = ap suc (length-nones A n)

length_snoc :
    {A : Type 0} (xs : List A) (x : A) (index : ℕ)
    → length xs ≡ index
    → length (xs ++ x ∷ []) ≡ suc index
length_snoc xs x index h = omega (arith, h, length-append xs (x ∷ []))

-- The slots of one kind, the first free one filled or left out.
module _ {A : Type 0} (xs ys : List (Option A)) (index left : ℕ) (at : length xs ≡ index)
    (shape : ys ≡ xs ++ nones (suc left)) where
  free_slot : index < length ys
  unfolding nones
  free_slot =
      omega
        (arith, at, ap length shape, length-append xs (nones (suc left)), length-nones A (suc left))

  fill_slot : (x : A) → set_elem ys index (some x) ≡ (xs ++ some x ∷ []) ++ nones left
  fill_slot x =
      ap (λ (zs : List (Option A)). set_elem zs index (some x)) shape
      ∙ set_elem-end xs left index (some x) at

  skip_slot : ys ≡ (xs ++ none ∷ []) ++ nones left
  skip_slot = shape ∙ snoc_none xs left

-- One response more.
pub Filled-after :
    (p : ResponsePayload) (k : Kind p) (index left : ℕ) (ps : List (Option ResponsePayload))
    (es : List (Option (ErrorCode × Text))) (m : PipelinedResponseMatcher)
    (e : Assoc ℕ ExpectedResponse)
    → Filled index (suc left) ps es m
    → Fits k index m
      × Filled
          (suc index)
          left
          (ps ++ payload_slot k ∷ [])
          (es ++ error_slot k ∷ [])
          (after k index (record m { expected = e }))
unfolding payload_slot error_slot
Filled-after p (of_error x same) index left ps es m e f = (
  free_slot es m.errors index left f.errors_at f.errors,
  record {
    payloads_at = length_snoc ps none index f.payloads_at;
    errors_at = length_snoc es (some x) index f.errors_at;
    payloads = skip_slot ps m.payloads index left f.payloads_at f.payloads;
    errors = fill_slot es m.errors index left f.errors_at f.errors x;
  },
)
Filled-after p (of_payload same) index left ps es m e f = (
  free_slot ps m.payloads index left f.payloads_at f.payloads,
  record {
    payloads_at = length_snoc ps (some p) index f.payloads_at;
    errors_at = length_snoc es none index f.errors_at;
    payloads = fill_slot ps m.payloads index left f.payloads_at f.payloads p;
    errors = skip_slot es m.errors index left f.errors_at f.errors;
  },
)
