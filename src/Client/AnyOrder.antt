-- ===== src/Client/AnyOrder.antt =====
-- The matcher of clients/rust/cachebox-client/src/lib.rs does not depend on the order of the responses.
use cachebox.Prelude.{
  ℕ, ◌≡◌, refl, sym, ap, ◌∙◌, ◌≢◌, inl, inr, none, some, List, [], ◌∷◌, arith, Option-cases,
  Result-cases, ok, err,
}
use cachebox.Prelude.Map.{Assoc, get, remove, get-remove}
use cachebox.Engine.Types.{index_key}
use cachebox.Wire.Types.{ResponseFrame}
use cachebox.Client.Matcher.{ExpectedResponse, PipelinedResponseMatcher, Pushed, push}
use mathlib.Core.List.{Permᴰ}
use mathlib.Core.Path.{subst}
use cachebox.Client.Kinds.{
  IsApart, after, Fits, kind, after-expected, Fits-expected, after_comm, Fits-after, remove_comm,
}
use cachebox.Client.Slots.{Next, Next-of, push-Next, Next-expected, Next-IsApart}

-- All the responses, one after another.
unfoldable pub push_all : List ResponseFrame → PipelinedResponseMatcher → Pushed
push_all [] m = some (ok m)
push_all (response ∷ responses) m = elim (push response m) [
  | none ↦ none
  | some (err e) ↦ some (err e)
  | some (ok m') ↦ push_all responses m'
]

-- Two responses in a row, computed from the matcher before both.
two_after :
    (a b : ResponseFrame) (m m1 m2 : PipelinedResponseMatcher) (n : Next a m m1) (o : Next b m1 m2)
    → m2
      ≡ after (kind b.payload) o.entry.index (
          after
            (kind a.payload)
            n.entry.index
            (record m { expected = remove b.request_id (remove a.request_id m.expected) }))
two_after a b m m1 m2 n o =
    o.result
    ∙ ap (λ (x : PipelinedResponseMatcher). after (kind b.payload) o.entry.index x)
        (ap (λ (x : Assoc ℕ ExpectedResponse). record m1 { expected = remove b.request_id x })
            (Next-expected a m m1 n)
          ∙ (ap
                (λ (x : PipelinedResponseMatcher). record x {
                  expected = remove b.request_id (remove a.request_id m.expected);
                })
                n.result
              ∙ sym
                  (after-expected (kind a.payload) n.entry.index
                    (record m { expected = remove a.request_id m.expected }) _).1))

-- Two accepted responses are accepted in the other order, with the same result.
Next-swap :
    (a b : ResponseFrame) (m m1 m2 : PipelinedResponseMatcher)
    → IsApart m
    → Next a m m1
    → Next b m1 m2
    → (m1' : PipelinedResponseMatcher) × Next b m m1' × Next a m1' m2
Next-swap a b m m1 m2 h n o =
    let here : get b.request_id (remove a.request_id m.expected) ≡ some o.entry =
      ap (λ (x : Assoc ℕ ExpectedResponse). get b.request_id x) (sym (Next-expected a m m1 n))
      ∙ o.found in
    let law = get-remove a.request_id b.request_id m.expected in
    let other : a.request_id ≢ b.request_id = λ same. ground (arith, here, law, same) in
    let before : get b.request_id m.expected ≡ some o.entry = ground (arith, here, law, other) in
    let slots : n.entry.index ≢ o.entry.index =
      λ same. other (h.apart a.request_id b.request_id n.entry o.entry n.found before same) in
    let left = remove b.request_id m.expected in
    let m1' = after (kind b.payload) o.entry.index (record m { expected = left }) in
    let fits_b : Fits (kind b.payload) o.entry.index m =
      Fits-expected (kind b.payload) o.entry.index _ m.expected (
        (Fits-after (kind a.payload) (kind b.payload) n.entry.index o.entry.index
            (record m { expected = remove a.request_id m.expected })).0
          (subst (λ (x : PipelinedResponseMatcher). Fits (kind b.payload) o.entry.index x) n.result
            o.fits)) in
    let first : Next b m m1' = record {
      entry = o.entry;
      found = before;
      matches = o.matches;
      fits = fits_b;
      result = refl;
    } in
    let gone = Next-expected b m m1' first in
    let still : get a.request_id m1'.expected ≡ some n.entry =
      ground (arith, gone, get-remove b.request_id a.request_id m.expected, other, n.found) in
    let fits_a : Fits (kind a.payload) n.entry.index m1' =
      (Fits-after (kind b.payload) (kind a.payload) o.entry.index n.entry.index
          (record m { expected = left })).1
        (Fits-expected (kind a.payload) n.entry.index m left n.fits) in
    let last =
      after (kind a.payload) n.entry.index
        (record m1' { expected = remove a.request_id m1'.expected }) in
    let second : Next a m1' last = record {
      entry = n.entry;
      found = still;
      matches = n.matches;
      fits = fits_a;
      result = refl;
    } in
    let same : m2 ≡ last =
      two_after a b m m1 m2 n o
      ∙ (after_comm (kind a.payload) (kind b.payload) n.entry.index o.entry.index _ slots
          ∙ (ap
                (λ (x : Assoc ℕ ExpectedResponse).
                  after (kind a.payload) n.entry.index
                    (after (kind b.payload) o.entry.index (record m { expected = x })))
                (remove_comm b.request_id a.request_id m.expected)
              ∙ sym (two_after b a m m1' last first second))) in
    (m1', first, subst (λ (x : PipelinedResponseMatcher). Next a m1' x) (sym same) second)

pub push_all_end : (m : PipelinedResponseMatcher) → push_all [] m ≡ some (ok m)
unfolding push_all
push_all_end m = refl

-- What follows an accepted response.
pub push_all-next :
    (r : ResponseFrame) (rs : List ResponseFrame) (m m' : PipelinedResponseMatcher)
    → push r m ≡ some (ok m')
    → push_all (r ∷ rs) m ≡ push_all rs m'
unfolding push_all
push_all-next r rs m m' h = rw (h, push_all) refl

pub push_all-first :
    (r : ResponseFrame) (rs : List ResponseFrame) (m m' : PipelinedResponseMatcher)
    → push_all (r ∷ rs) m ≡ some (ok m')
    → (m1 : PipelinedResponseMatcher) × Next r m m1 × (push_all rs m1 ≡ some (ok m'))
unfolding push_all
push_all-first r rs m m' h = elim (Option-cases (push r m)) [
  | inl panics ↦ absurd (ground (arith, (rw (panics, push_all) at h)))
  | inr (result, pushes) ↦ elim (Result-cases result) [
    | inl (e, refused) ↦ absurd (ground (arith, (rw (pushes ∙ ap some refused, push_all) at h)))
    | inr (m1, accepted) ↦
        let ok_first = pushes ∙ ap some accepted in
        (m1, Next-of r m m1 ok_first, sym (push_all-next r rs m m1 ok_first) ∙ h)
  ]
]

pub push_all-Permᴰ :
    (xs ys : List ResponseFrame) (m m' : PipelinedResponseMatcher)
    → Permᴰ xs ys
    → IsApart m
    → push_all xs m ≡ some (ok m')
    → push_all ys m ≡ some (ok m')
push_all-Permᴰ xs ys m m' Permᴰ.nil a h = h
push_all-Permᴰ (x ∷ xs) (y ∷ ys) m m' (Permᴰ.cons e d) a h =
    let first = push_all-first x xs m m' h in
    let n = subst (λ (r : ResponseFrame). Next r m first.0) e first.1 in
    push_all-next y ys m first.0 (push-Next y m first.0 n)
    ∙ push_all-Permᴰ xs ys first.0 m' d (Next-IsApart x m first.0 first.1 a) first.2
push_all-Permᴰ (x ∷ y ∷ xs) (y' ∷ x' ∷ _) m m' (Permᴰ.swap e f) a h =
    let one = push_all-first x (y ∷ xs) m m' h in
    let two = push_all-first y xs one.0 m' one.2 in
    let other = Next-swap x y m one.0 two.0 a one.1 two.1 in
    let n = subst (λ (r : ResponseFrame). Next r m other.0) f other.1 in
    let o = subst (λ (r : ResponseFrame). Next r other.0 two.0) e other.2 in
    push_all-next y' (x' ∷ xs) m other.0 (push-Next y' m other.0 n)
    ∙ (push_all-next x' xs other.0 two.0 (push-Next x' other.0 two.0 o) ∙ two.2)
push_all-Permᴰ xs zs m m' (Permᴰ.trans d e) a h =
    push_all-Permᴰ _ zs m m' e a (push_all-Permᴰ xs _ m m' d a h)
