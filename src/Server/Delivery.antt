-- ===== src/Server/Delivery.antt =====
-- The tasks of a connection of src/server.rs lose no frame and no answer.
use cachebox.Prelude.{
  ℕ, ◌+◌, ◌≤◌, ◌≡◌, refl, sym, ap, ◌∙◌, List, [], ◌∷◌, ◌++◌, append_assoc, arith, length,
  length-append,
}
use cachebox.Bytes.{Bytes, Text}
use cachebox.Engine.Hashing.{Hashing}
use cachebox.Wire.Types.{DecodeError}
use cachebox.Server.Answers.{State}
use cachebox.Server.Batches.{concat, coalesce_native_responses}
use cachebox.Server.Pipeline.{
  max_in_flight_per_connection, Pipeline, Event, Work, Step, Run, idle, tally, tally_came,
  tally_done, tally_answered,
}
use cachebox.Server.Liveness.{length_middle, coalesce_prefix}

tally-append : (w : Bytes → ℕ) (xs ys : List Bytes) → tally w (xs ++ ys) ≡ tally w xs + tally w ys
tally-append w [] ys = omega arith
tally-append w (x ∷ xs) ys = omega (arith, tally-append w xs ys)

tally_middle :
    (w : Bytes → ℕ) (before : List Bytes) (x : Bytes) (after : List Bytes)
    → tally w (before ++ (x ∷ after)) ≡ w x + tally w (before ++ after)
tally_middle w before x after =
    omega (arith, tally-append w before (x ∷ after), tally-append w before after)

concat-append : (xs ys : List Bytes) → concat (xs ++ ys) ≡ concat xs ++ concat ys
concat-append [] ys = refl
concat-append (x ∷ xs) ys =
    ap (λ (r : Bytes). x ++ r) (concat-append xs ys) ∙ sym (append_assoc x (concat xs) (concat ys))

-- Where the frames and the answers of a run are.
pub record Accounts (events : List Event) (c : Pipeline) : Type 0 where
  pub written : List Bytes
  pub sent_eq : c.sent ≡ concat written
  pub frames_eq :
      (w : Bytes → ℕ)
      → tally_came w events ≡ (tally w c.frames + tally w c.tasks) + tally_done w events
  pub answers_eq :
      (w : Bytes → ℕ)
      → tally_answered w events ≡ (tally w c.answers + tally w c.channel) + tally w written
  pub permits : length c.tasks + length c.answers ≤ max_in_flight_per_connection
  pub queued : length c.channel ≤ max_in_flight_per_connection

module _ (debug : DecodeError → Text) (h : Hashing) (max_payload_len : ℕ) where
  Work-Accounts :
      {events : List Event} {e : Event} (c d : Pipeline)
      → Accounts events c
      → Work debug h max_payload_len c e d
      → Accounts (e ∷ events) d
  unfolding coalesce_native_responses
  Work-Accounts c d a (Work.spawns frame frames eq room) = record {
    written = a.written;
    sent_eq = a.sent_eq;
    frames_eq =
        λ w. omega (arith, a.frames_eq w, ap (tally w) eq, tally-append w c.tasks (frame ∷ []));
    answers_eq = a.answers_eq;
    permits = omega (arith, room, length-append c.tasks (frame ∷ []));
    queued = a.queued;
  }
  Work-Accounts c d a (Work.runs clock before frame after s answer eq run) = record {
    written = a.written;
    sent_eq = a.sent_eq;
    frames_eq =
        λ w. omega (arith, a.frames_eq w, ap (tally w) eq, tally_middle w before frame after);
    answers_eq = λ w. omega (arith, a.answers_eq w, tally-append w c.answers (answer ∷ []));
    permits = omega (
      arith,
      a.permits,
      ap length eq,
      length_middle before frame after,
      length-append c.answers (answer ∷ []),
    );
    queued = a.queued;
  }
  Work-Accounts c d a (Work.dies clock before frame after eq run) = record {
    written = a.written;
    sent_eq = a.sent_eq;
    frames_eq =
        λ w. omega (arith, a.frames_eq w, ap (tally w) eq, tally_middle w before frame after);
    answers_eq = a.answers_eq;
    permits = omega (arith, a.permits, ap length eq, length_middle before frame after);
    queued = a.queued;
  }
  Work-Accounts c d a (Work.sends before answer after eq room) = record {
    written = a.written;
    sent_eq = a.sent_eq;
    frames_eq = a.frames_eq;
    answers_eq = λ w. omega (
      arith,
      a.answers_eq w,
      ap (tally w) eq,
      tally_middle w before answer after,
      tally-append w c.channel (answer ∷ []),
    );
    permits = omega (arith, a.permits, ap length eq, length_middle before answer after);
    queued = omega (arith, room, length-append c.channel (answer ∷ []));
  }
  Work-Accounts c d a (Work.writes first queue eq) =
      let (front, left, joined) = coalesce_prefix 31 first queue in
      let rest = (coalesce_native_responses first queue).1 in
      record {
        written = a.written ++ (first ∷ front);
        sent_eq =
            ap (λ (x : Bytes). x ++ (coalesce_native_responses first queue).0) a.sent_eq
            ∙ ap (λ (x : Bytes). concat a.written ++ x) joined
            ∙ sym (concat-append a.written (first ∷ front));
        frames_eq = a.frames_eq;
        answers_eq = λ w. omega (
          arith,
          a.answers_eq w,
          ap (tally w) eq,
          ap (tally w) left,
          tally-append w front rest,
          tally-append w a.written (first ∷ front),
        );
        permits = a.permits;
        queued = omega (arith, a.queued, ap length eq, ap length left, length-append front rest);
      }

  Step-Accounts :
      {events : List Event} {e : Event} (c d : Pipeline)
      → Accounts events c
      → Step debug h max_payload_len c e d
      → Accounts (e ∷ events) d
  Step-Accounts c d a (Step.works work) = Work-Accounts c d a work
  Step-Accounts c d a (Step.reads frames empty) = record {
    written = a.written;
    sent_eq = a.sent_eq;
    frames_eq = λ w. omega (arith, a.frames_eq w, ap (tally w) empty);
    answers_eq = a.answers_eq;
    permits = a.permits;
    queued = a.queued;
  }
  Step-Accounts c d a (Step.elsewhere s) = record {
    written = a.written;
    sent_eq = a.sent_eq;
    frames_eq = a.frames_eq;
    answers_eq = a.answers_eq;
    permits = a.permits;
    queued = a.queued;
  }

  Run-Accounts :
      (c d : Pipeline) (events : List Event)
      → Accounts [] c
      → Run debug h max_payload_len c events d
      → Accounts events d
  Run-Accounts c d events a Run.here = a
  Run-Accounts c d events a (Run.next {events = before} {d = mid} r step) =
      Step-Accounts mid d (Run-Accounts c mid before a r) step

-- Wherever the tasks of a connection have got to, in whatever order: every frame that came waits, has a task, or
-- its task has run or died, as often as it came; every answer of a task waits to be sent, is in the channel or
-- has been written, once; what was written is whole answers; and permits and channel are within their limit.
pub pipeline-delivers :
    (debug : DecodeError → Text) (h : Hashing) (max_payload_len : ℕ) (s : State)
    (events : List Event) (c : Pipeline)
    → Run debug h max_payload_len (idle s) events c
    → (written : List Bytes) × (c.sent ≡ concat written)
      × ((w : Bytes → ℕ)
          → tally_came w events ≡ (tally w c.frames + tally w c.tasks) + tally_done w events)
      × ((w : Bytes → ℕ)
          → tally_answered w events ≡ (tally w c.answers + tally w c.channel) + tally w written)
      × (length c.tasks + length c.answers ≤ max_in_flight_per_connection)
      × (length c.channel ≤ max_in_flight_per_connection)
pipeline-delivers debug h max_payload_len s events c r =
    let start : Accounts [] (idle s) = record {
      written = [];
      sent_eq = refl;
      frames_eq = λ w. refl;
      answers_eq = λ w. refl;
      permits = omega arith;
      queued = omega arith;
    } in
    let a = Run-Accounts debug h max_payload_len (idle s) c events start r in
    (a.written, a.sent_eq, a.frames_eq, a.answers_eq, a.permits, a.queued)
