-- ===== src/Client/InOrder.antt =====
-- The matcher of clients/rust/cachebox-client/src/lib.rs on the responses in the order of the requests, and
-- what `enqueue` waits for.
use cachebox.Prelude.{
  ℕ, suc, ◌<◌, ◌≡◌, refl, sym, ◌∙◌, true, Option, some, List, [], ◌∷◌, ◌++◌, append_assoc, arith,
  ok, length,
}
use cachebox.Prelude.Map.{Assoc, remove, get-remove}
use mathlib.Core.Path.{subst}
use mathlib.Core.List.{Permᴰ}
use cachebox.Bytes.{Text}
use cachebox.Engine.Types.{index_key}
use cachebox.Wire.Types.{Command, ResponsePayload, ResponseFrame, ErrorCode}
use cachebox.Client.Requests.{same_command}
use cachebox.Client.Matcher.{ExpectedResponse, PipelinedResponseMatcher, nones, new, finish}
use cachebox.Client.Kinds.{IsApart, after, kind}
use cachebox.Client.Slots.{Next, push-Next, Next-expected}
use cachebox.Client.AnyOrder.{push_all, push_all_end, push_all-next, push_all-Permᴰ}
use cachebox.Client.Filled.{
  Filled, Filled-after, Reply, Waits, error_slot, error_slots, frames_of, one_by_one, payload_slot,
  payload_slots,
}
use cachebox.Client.Settled.{finish_slots}

pub same_command_refl : (c : Command) → same_command c c ≡ true
unfolding same_command
same_command_refl c = ground arith

-- What is removed is not waited for again.
Waits-remove :
    (index id : ℕ) (replies : List Reply) (e : Assoc ℕ ExpectedResponse) (j : ℕ)
    → j < id
    → Waits index id replies e
    → Waits index id replies (remove j e)
Waits-remove index id [] e j lt w = tt
Waits-remove index id ((command, p) ∷ replies) e j lt w = (
  ground (arith, get-remove j id e, lt, w.0),
  Waits-remove (suc index) (suc id) replies e j (omega (arith, lt)) w.1,
)

push_in_order :
    (replies : List Reply) (index id : ℕ) (ps : List (Option ResponsePayload))
    (es : List (Option (ErrorCode × Text))) (m : PipelinedResponseMatcher)
    → Filled index (length replies) ps es m
    → Waits index id replies m.expected
    → (m' : PipelinedResponseMatcher) × (push_all (frames_of id replies) m ≡ some (ok m'))
      × (m'.payloads ≡ ps ++ payload_slots replies)
      × (m'.errors ≡ es ++ error_slots replies)
unfolding frames_of payload_slots error_slots nones
push_in_order [] index id ps es m f w = (m, push_all_end m, f.payloads, f.errors)
push_in_order ((command, p) ∷ replies) index id ps es m f w =
    let r : ResponseFrame = record { request_id = id; command = command; payload = p } in
    let left = remove id m.expected in
    let step = Filled-after p (kind p) index (length replies) ps es m left f in
    let m1 = after (kind p) index (record m { expected = left }) in
    let n : Next r m m1 = record {
      entry = record { index = index; command = command };
      found = w.0;
      matches = same_command_refl command;
      fits = step.0;
      result = refl;
    } in
    let waits : Waits (suc index) (suc id) replies m1.expected =
      subst (λ (e : Assoc ℕ ExpectedResponse). Waits (suc index) (suc id) replies e)
        (sym (Next-expected r m m1 n))
        (Waits-remove (suc index) (suc id) replies m.expected id (omega arith) w.1) in
    let rest = push_in_order replies (suc index) (suc id) _ _ m1 step.1 waits in
    (
      rest.0,
      push_all-next r (frames_of (suc id) replies) m m1 (push-Next r m m1 n) ∙ rest.1,
      rest.2 ∙ append_assoc ps (payload_slot (kind p) ∷ []) (payload_slots replies),
      rest.3 ∙ append_assoc es (error_slot (kind p) ∷ []) (error_slots replies),
    )

-- Responses in any order give what the requests one by one would give.
pub push_all_any_order :
    (replies : List Reply) (id : ℕ) (expected : Assoc ℕ ExpectedResponse)
    (arrived : List ResponseFrame)
    → Waits 0 id replies expected
    → IsApart (new (length replies) expected)
    → Permᴰ (frames_of id replies) arrived
    → (m : PipelinedResponseMatcher) × (push_all arrived (new (length replies) expected)
        ≡ some (ok m))
      × (finish m ≡ one_by_one replies)
unfolding new
push_all_any_order replies id expected arrived w a d =
    let start = new (length replies) expected in
    let f : Filled 0 (length replies) [] [] start = record {
      payloads_at = refl;
      errors_at = refl;
      payloads = refl;
      errors = refl;
    } in
    let run = push_in_order replies 0 id [] [] start f w in
    (
      run.0,
      push_all-Permᴰ (frames_of id replies) arrived start run.0 d a run.1,
      finish_slots replies run.0 run.2 run.3,
    )
