-- ===== src/Client/Slots.antt =====
-- The matcher of clients/rust/cachebox-client/src/lib.rs before and after one response.
use cachebox.Prelude.{
  ℕ, ◌≡◌, refl, sym, ap, ◌∙◌, inl, inr, true, Option, none, some, [], arith, Bool-cases,
  Option-cases, ok,
}
use cachebox.Prelude.Map.{get, remove, get-remove}
use cachebox.Engine.Types.{index_key}
use cachebox.Wire.Types.{ResponseFrame}
use cachebox.Client.Requests.{same_command}
use cachebox.Client.Matcher.{ExpectedResponse, PipelinedResponseMatcher, store, pushed, push}
use cachebox.Client.Kinds.{
  Fits, Fits-expected, IsApart, after, after-expected, kind, store_inv, store_of,
}

-- A response that the matcher accepts: what it waits for, and the slot that is filled.
record Accepts (r : ResponseFrame) (m m' : PipelinedResponseMatcher) : Type 0 where
  entry : ExpectedResponse
  found : get r.request_id m.expected ≡ some entry
  matches : same_command r.command entry.command ≡ true
  stored :
      store entry.index r.payload (record m { expected = remove r.request_id m.expected }) ≡ some m'

pushed-ok :
    (o : Option PipelinedResponseMatcher) (m : PipelinedResponseMatcher)
    → pushed o ≡ some (ok m)
    → o ≡ some m
pushed-ok none m h = ground (arith, h)
pushed-ok (some n) m h = ground (arith, h)

accepts :
    (r : ResponseFrame) (m m' : PipelinedResponseMatcher) → push r m ≡ some (ok m') → Accepts r m m'
unfolding push
accepts r m m' h = elim (Option-cases (get r.request_id m.expected)) [
  | inl unknown ↦ absurd (ground (arith, (rw (unknown, push) at h)))
  | inr (e, found) ↦ elim (Bool-cases (same_command r.command e.command)) [
    | inl same ↦ record {
      entry = e;
      found = found;
      matches = same;
      stored = pushed-ok _ m' (rw same at (rw (found, push) at h));
    }
    | inr other ↦ absurd (ground (arith, (rw other at (rw (found, push) at h))))
  ]
]

push_of :
    (r : ResponseFrame) (m m' : PipelinedResponseMatcher) → Accepts r m m' → push r m ≡ some (ok m')
unfolding push
push_of r m m' a = rw (a.found, push) (rw a.matches (rw a.stored refl))

-- The matcher after a response, as it is computed from the one before.
pub record Next (r : ResponseFrame) (m m' : PipelinedResponseMatcher) : Type 0 where
  pub entry : ExpectedResponse
  pub found : get r.request_id m.expected ≡ some entry
  pub matches : same_command r.command entry.command ≡ true
  pub fits : Fits (kind r.payload) entry.index m
  pub result :
      m'
      ≡ after (kind r.payload) entry.index (record m { expected = remove r.request_id m.expected })

pub Next-of :
    (r : ResponseFrame) (m m' : PipelinedResponseMatcher) → push r m ≡ some (ok m') → Next r m m'
Next-of r m m' h =
    let a = accepts r m m' h in
    let law = store_inv (kind r.payload) a.entry.index _ m' a.stored in
    record {
      entry = a.entry;
      found = a.found;
      matches = a.matches;
      fits = Fits-expected (kind r.payload) a.entry.index _ m.expected law.0;
      result = law.1;
    }

pub push-Next :
    (r : ResponseFrame) (m m' : PipelinedResponseMatcher) → Next r m m' → push r m ≡ some (ok m')
push-Next r m m' n = push_of r m m' (record {
  entry = n.entry;
  found = n.found;
  matches = n.matches;
  stored =
      store_of (kind r.payload) n.entry.index _
        (Fits-expected (kind r.payload) n.entry.index m _ n.fits)
      ∙ ap some (sym n.result);
})

-- What is waited for after a response.
pub Next-expected :
    (r : ResponseFrame) (m m' : PipelinedResponseMatcher)
    → Next r m m'
    → m'.expected ≡ remove r.request_id m.expected
Next-expected r m m' n =
    ap (λ (x : PipelinedResponseMatcher). x.expected) n.result
    ∙ (after-expected (kind r.payload) n.entry.index _ []).0

pub Next-IsApart :
    (r : ResponseFrame) (m m' : PipelinedResponseMatcher) → Next r m m' → IsApart m → IsApart m'
Next-IsApart r m m' n h = record {
  apart = λ i j a b hi hj same. h.apart i j a b (kept i a hi) (kept j b hj) same;
}
  where
    kept : (i : ℕ) (a : ExpectedResponse) → get i m'.expected ≡ some a → get i m.expected ≡ some a
    kept i a hi = ground (arith, hi, Next-expected r m m' n, get-remove r.request_id i m.expected)
