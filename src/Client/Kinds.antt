-- ===== src/Client/Kinds.antt =====
-- How a payload is stored to the slots of the matcher of clients/rust/cachebox-client/src/lib.rs.
use cachebox.Prelude.{
  ℕ, zero, suc, ◌<◌, ◌≡◌, refl, sym, ap, ◌∙◌, ◌≢◌, ◌↔◌, inl, inr, Option, some, List, [], ◌∷◌,
  arith, Option-cases, length,
}
use cachebox.Prelude.{set_elem, length-set_elem}
use cachebox.Prelude.Map.{Assoc, get, remove}
use cachebox.Bytes.{Text}
use cachebox.Engine.Types.{index_key}
use cachebox.Wire.Types.{ResponsePayload, ErrorCode}
use cachebox.Client.Matcher.{
  ExpectedResponse, PipelinedResponseMatcher, put_slot, store_error, store_payload, store,
}
use mathlib.Core.Option.{some-injective}

-- Two requests that are waited for have two slots.
pub record IsApart (m : PipelinedResponseMatcher) : Type 0 where
  pub apart :
      (i j : ℕ) (a b : ExpectedResponse)
      → get i m.expected ≡ some a
      → get j m.expected ≡ some b
      → a.index ≡ b.index
      → i ≡ j

pub set_elem_comm :
    {A : Type 0} (xs : List A) (i j : ℕ) (x y : A)
    → i ≢ j
    → set_elem (set_elem xs i x) j y ≡ set_elem (set_elem xs j y) i x
unfolding set_elem
set_elem_comm [] i j x y ne = refl
set_elem_comm (z ∷ zs) zero zero x y ne = absurd (ne refl)
set_elem_comm (z ∷ zs) zero (suc j) x y ne = refl
set_elem_comm (z ∷ zs) (suc i) zero x y ne = refl
set_elem_comm (z ∷ zs) (suc i) (suc j) x y ne =
    ap (λ (l : List _). z ∷ l) (set_elem_comm zs i j x y (λ e. ne (ap suc e)))

pub remove_comm :
    {V : Type 0} (i j : ℕ) (m : Assoc ℕ V) → remove i (remove j m) ≡ remove j (remove i m)
unfolding remove
remove_comm i j [] = refl
remove_comm i j ((k, v) ∷ m) = ground (arith, remove_comm i j m)

-- The slots that a payload is stored to: of the errors, or of the payloads.
pub data Kind (p : ResponsePayload) : Type 0 where
  of_error :
      (e : ErrorCode × Text)
      → ((i : ℕ) (m : PipelinedResponseMatcher) → store i p m ≡ store_error i e m)
      → Kind p
  of_payload : ((i : ℕ) (m : PipelinedResponseMatcher) → store i p m ≡ store_payload i p m) → Kind p

unfoldable pub kind : (p : ResponsePayload) → Kind p
unfolding store
kind (ResponsePayload.error code message) = of_error (code, message) (λ i m. refl)
kind ResponsePayload.done = of_payload (λ i m. refl)
kind (ResponsePayload.hit v) = of_payload (λ i m. refl)
kind (ResponsePayload.stale v) = of_payload (λ i m. refl)
kind ResponsePayload.miss = of_payload (λ i m. refl)
kind (ResponsePayload.stored n) = of_payload (λ i m. refl)
kind (ResponsePayload.deleted b) = of_payload (λ i m. refl)
kind (ResponsePayload.invalidated n) = of_payload (λ i m. refl)
kind (ResponsePayload.lease_granted t v) = of_payload (λ i m. refl)
kind ResponsePayload.lease_denied = of_payload (λ i m. refl)
kind (ResponsePayload.batch_get items) = of_payload (λ i m. refl)

put_slot_inv :
    {A : Type 0} (xs ys : List (Option A)) (i : ℕ) (x : A)
    → put_slot xs i x ≡ some ys
    → (i < length xs) × (ys ≡ set_elem xs i (some x))
unfolding put_slot
put_slot_inv xs ys i x h = ground (arith, h)

put_slot_of :
    {A : Type 0} (xs : List (Option A)) (i : ℕ) (x : A)
    → i < length xs
    → put_slot xs i x ≡ some (set_elem xs i (some x))
unfolding put_slot
put_slot_of xs i x h = ground arith

error_inv :
    (i : ℕ) (x : ErrorCode × Text) (m m' : PipelinedResponseMatcher)
    → store_error i x m ≡ some m'
    → (i < length m.errors) × (m' ≡ record m { errors = set_elem m.errors i (some x) })
unfolding store_error
error_inv i x m m' h = elim (Option-cases (put_slot m.errors i x)) [
  | inl bad ↦ absurd (ground (arith, (rw (bad, store_error) at h)))
  | inr (xs, found) ↦
      let law = put_slot_inv m.errors xs i x found in
      let same : some (record m { errors = xs }) ≡ some m' = rw (found, store_error) at h in
      (law.0, sym (some-injective _ _ same) ∙ ap (λ (ys : List _). record m { errors = ys }) law.1)
]

error_of :
    (i : ℕ) (x : ErrorCode × Text) (m : PipelinedResponseMatcher)
    → i < length m.errors
    → store_error i x m ≡ some (record m { errors = set_elem m.errors i (some x) })
unfolding store_error
error_of i x m h = rw (put_slot_of m.errors i x h, store_error) refl

payload_inv :
    (i : ℕ) (x : ResponsePayload) (m m' : PipelinedResponseMatcher)
    → store_payload i x m ≡ some m'
    → (i < length m.payloads) × (m' ≡ record m { payloads = set_elem m.payloads i (some x) })
unfolding store_payload
payload_inv i x m m' h = elim (Option-cases (put_slot m.payloads i x)) [
  | inl bad ↦ absurd (ground (arith, (rw (bad, store_payload) at h)))
  | inr (xs, found) ↦
      let law = put_slot_inv m.payloads xs i x found in
      let same : some (record m { payloads = xs }) ≡ some m' = rw (found, store_payload) at h in
      (
        law.0,
        sym (some-injective _ _ same) ∙ ap (λ (ys : List _). record m { payloads = ys }) law.1,
      )
]

payload_of :
    (i : ℕ) (x : ResponsePayload) (m : PipelinedResponseMatcher)
    → i < length m.payloads
    → store_payload i x m ≡ some (record m { payloads = set_elem m.payloads i (some x) })
unfolding store_payload
payload_of i x m h = rw (put_slot_of m.payloads i x h, store_payload) refl

-- The matcher after a payload is stored, and the bound that the slot must keep.
abbrev pub after :
    {p : ResponsePayload} → Kind p → ℕ → PipelinedResponseMatcher → PipelinedResponseMatcher
after (of_error e same) i m = record m { errors = set_elem m.errors i (some e) }
after {p} (of_payload same) i m = record m { payloads = set_elem m.payloads i (some p) }

abbrev pub Fits : {p : ResponsePayload} → Kind p → ℕ → PipelinedResponseMatcher → Type 0
Fits (of_error e same) i m = i < length m.errors
Fits (of_payload same) i m = i < length m.payloads

pub store_inv :
    {p : ResponsePayload} (k : Kind p) (i : ℕ) (m m' : PipelinedResponseMatcher)
    → store i p m ≡ some m'
    → Fits k i m × (m' ≡ after k i m)
store_inv (of_error e same) i m m' h = error_inv i e m m' (sym (same i m) ∙ h)
store_inv {p} (of_payload same) i m m' h = payload_inv i p m m' (sym (same i m) ∙ h)

pub store_of :
    {p : ResponsePayload} (k : Kind p) (i : ℕ) (m : PipelinedResponseMatcher)
    → Fits k i m
    → store i p m ≡ some (after k i m)
store_of (of_error e same) i m h = same i m ∙ error_of i e m h
store_of {p} (of_payload same) i m h = same i m ∙ payload_of i p m h

-- Storing neither reads nor changes what is waited for.
pub after-expected :
    {p : ResponsePayload} (k : Kind p) (i : ℕ) (m : PipelinedResponseMatcher)
    (left : Assoc ℕ ExpectedResponse)
    → ((after k i m).expected ≡ m.expected)
      × (after k i (record m { expected = left }) ≡ record (after k i m) { expected = left })
after-expected (of_error e same) i m left = (refl, refl)
after-expected (of_payload same) i m left = (refl, refl)

pub Fits-expected :
    {p : ResponsePayload} (k : Kind p) (i : ℕ) (m : PipelinedResponseMatcher)
    (left : Assoc ℕ ExpectedResponse)
    → Fits k i m
    → Fits k i (record m { expected = left })
Fits-expected (of_error e same) i m left h = h
Fits-expected (of_payload same) i m left h = h

pub after_comm :
    {p q : ResponsePayload} (k : Kind p) (l : Kind q) (i j : ℕ) (m : PipelinedResponseMatcher)
    → i ≢ j
    → after l j (after k i m) ≡ after k i (after l j m)
after_comm (of_error e _) (of_error f _) i j m ne =
    ap (λ (xs : List (Option (ErrorCode × Text))). record m { errors = xs })
      (set_elem_comm m.errors i j (some e) (some f) ne)
after_comm (of_error e _) (of_payload _) i j m ne = refl
after_comm (of_payload _) (of_error f _) i j m ne = refl
after_comm {p} {q} (of_payload _) (of_payload _) i j m ne =
    ap (λ (xs : List (Option ResponsePayload)). record m { payloads = xs })
      (set_elem_comm m.payloads i j (some p) (some q) ne)

pub Fits-after :
    {p q : ResponsePayload} (k : Kind p) (l : Kind q) (i j : ℕ) (m : PipelinedResponseMatcher)
    → Fits l j (after k i m) ↔ Fits l j m
Fits-after (of_error e _) (of_error f _) i j m =
    let law = length-set_elem m.errors i (some e) in
    (λ h. omega (arith, law), λ h. omega (arith, law))
Fits-after (of_error e _) (of_payload _) i j m = (λ h. h, λ h. h)
Fits-after (of_payload _) (of_error f _) i j m = (λ h. h, λ h. h)
Fits-after {p} (of_payload _) (of_payload _) i j m =
    let law = length-set_elem m.payloads i (some p) in
    (λ h. omega (arith, law), λ h. omega (arith, law))
