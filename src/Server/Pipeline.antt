-- ===== src/Server/Pipeline.antt =====
-- The pipelined half of `handle_native_connection` of src/server.rs and its writer task, as steps: frames are
-- handed to tasks, tasks execute in any order, their answers go through a channel, and the writer joins them.
-- A write is taken to succeed.
use cachebox.Prelude.{ℕ, ◌+◌, ◌*◌, ◌<◌, ◌≡◌, Option, none, some, List, [], ◌∷◌, ◌++◌, length}
use cachebox.Bytes.{Bytes, Text}
use cachebox.Engine.Hashing.{Hashing}
use cachebox.Engine.Store.{Clock}
use cachebox.Wire.Types.{DecodeError}
use cachebox.Server.Answers.{State}
use cachebox.Server.Batches.{coalesce_native_responses}
use cachebox.Server.Dispatch.{execute_native_frame_bytes_into}

abbrev pub max_in_flight_per_connection : ℕ
max_in_flight_per_connection = 128

-- The state of the server, the frames that wait for a permit, the tasks that hold one, those of them that have
-- an answer to send, the channel, and the bytes that the writer has written.
pub record Pipeline : Type 0 where
  pub state : State
  pub frames : List Bytes
  pub tasks : List Bytes
  pub answers : List Bytes
  pub channel : List Bytes
  pub sent : Bytes

-- What a step does with frames and answers. A task whose frame makes the server panic has died.
pub data Event : Type 0 where
  quiet : Event
  came : List Bytes → Event
  ran : Bytes → Bytes → Event
  died : Bytes → Event

module _ (debug : DecodeError → Text) (h : Hashing) (max_payload_len : ℕ) where
  abbrev pub execute : Clock → Bytes → State → Option (State × Bytes)
  execute clock frame s = execute_native_frame_bytes_into debug h clock frame max_payload_len s

  -- The steps of the connection's own tasks
  pub data Work (c : Pipeline) : Event → Pipeline → Type 0 where
    spawns :
        (frame : Bytes) (frames : List Bytes)
        → c.frames ≡ frame ∷ frames
        → length c.tasks + length c.answers < max_in_flight_per_connection
        → Work c Event.quiet (record c { frames = frames; tasks = c.tasks ++ (frame ∷ []) })
    runs :
        (clock : Clock) (before : List Bytes) (frame : Bytes) (after : List Bytes) (s : State)
        (answer : Bytes)
        → c.tasks ≡ before ++ (frame ∷ after)
        → execute clock frame c.state ≡ some (s, answer)
        → Work c
            (Event.ran frame answer)
            (record c { state = s; tasks = before ++ after; answers = c.answers ++ (answer ∷ []) })
    dies :
        (clock : Clock) (before : List Bytes) (frame : Bytes) (after : List Bytes)
        → c.tasks ≡ before ++ (frame ∷ after)
        → execute clock frame c.state ≡ none
        → Work c (Event.died frame) (record c { tasks = before ++ after })
    sends :
        (before : List Bytes) (answer : Bytes) (after : List Bytes)
        → c.answers ≡ before ++ (answer ∷ after)
        → length c.channel < max_in_flight_per_connection
        → Work c Event.quiet
            (record c { answers = before ++ after; channel = c.channel ++ (answer ∷ []) })
    writes :
        (first : Bytes) (queue : List Bytes)
        → c.channel ≡ first ∷ queue
        → Work c Event.quiet (record c {
          channel = (coalesce_native_responses first queue).1;
          sent = c.sent ++ (coalesce_native_responses first queue).0;
        })

  -- Or the loop reads frames, once all before have a task, or another connection changes the server.
  pub data Step (c : Pipeline) : Event → Pipeline → Type 0 where
    works : {e : Event} {d : Pipeline} → Work c e d → Step c e d
    reads :
        (frames : List Bytes)
        → c.frames ≡ []
        → Step c (Event.came frames) (record c { frames = frames })
    elsewhere : (s : State) → Step c Event.quiet (record c { state = s })

  -- The events, the latest first
  pub data Run (c : Pipeline) : List Event → Pipeline → Type 0 where
    here : Run c [] c
    next :
        {events : List Event} {d : Pipeline} {e : Event} {f : Pipeline}
        → Run c events d
        → Step d e f
        → Run c (e ∷ events) f

abbrev pub idle : State → Pipeline
idle s = record { state = s; frames = []; tasks = []; answers = []; channel = []; sent = [] }

-- How much the byte strings of a list weigh: with a weight of 1 for one of them and 0 for the others, how often it
-- occurs.
abbrev pub tally : (Bytes → ℕ) → List Bytes → ℕ
tally weight [] = 0
tally weight (x ∷ xs) = weight x + tally weight xs

-- The weight of the frames that came, of those whose task has run or died, and of the answers
abbrev pub tally_came : (Bytes → ℕ) → List Event → ℕ
tally_came weight [] = 0
tally_came weight (Event.came frames ∷ events) = tally weight frames + tally_came weight events
tally_came weight (e ∷ events) = tally_came weight events

abbrev pub tally_done : (Bytes → ℕ) → List Event → ℕ
tally_done weight [] = 0
tally_done weight (Event.ran frame answer ∷ events) = weight frame + tally_done weight events
tally_done weight (Event.died frame ∷ events) = weight frame + tally_done weight events
tally_done weight (e ∷ events) = tally_done weight events

abbrev pub tally_answered : (Bytes → ℕ) → List Event → ℕ
tally_answered weight [] = 0
tally_answered weight (Event.ran frame answer ∷ events) =
    weight answer + tally_answered weight events
tally_answered weight (e ∷ events) = tally_answered weight events

-- The work that is left
unfoldable pub load : Pipeline → ℕ
load c = 4 * length c.frames + 3 * length c.tasks + 2 * length c.answers + length c.channel
