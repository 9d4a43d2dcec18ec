-- ===== src/Server/Liveness.antt =====
-- The tasks of a connection of src/server.rs do not wait for each other for ever.
use cachebox.Prelude.{
  ℕ, zero, suc, ◌+◌, ◌<◌, ◌≡◌, refl, sym, ap, ◌∙◌, ◌⊎◌, inl, inr, List, [], ◌∷◌, ◌++◌, append-nil,
  append_assoc, arith, ltb, Bool-cases, Option-cases, length, length-append, saturating_add,
}
use cachebox.Bytes.{Bytes, Text}
use cachebox.Engine.Hashing.{Hashing}
use cachebox.Wire.Types.{DecodeError}
use cachebox.Server.Batches.{concat, coalesce, coalesce_native_responses}
use cachebox.Server.Batches
use cachebox.Server.Pipeline.{Pipeline, Event, execute, Work, load}
use cachebox.Server.Stream.{list_cases}

pub length_middle :
    (before : List Bytes) (x : Bytes) (after : List Bytes)
    → length (before ++ (x ∷ after)) ≡ length (before ++ after) + 1
length_middle before x after =
    omega (arith, length-append before (x ∷ after), length-append before after)

-- A batch is the first answer and the next ones of the queue.
pub coalesce_prefix :
    (fuel : ℕ) (batch : Bytes) (queue : List Bytes)
    → (front : List Bytes) × (queue ≡ front ++ (coalesce fuel batch queue).1)
      × ((coalesce fuel batch queue).0 ≡ batch ++ concat front)
unfolding coalesce
coalesce_prefix zero batch queue = ([], refl, sym (append-nil batch))
coalesce_prefix (suc fuel) batch [] = ([], refl, sym (append-nil batch))
coalesce_prefix (suc fuel) batch (response ∷ queue) =
    elim (Bool-cases (ltb (length batch) Batches.max_response_write_batch_bytes)) [
      | inr full ↦ rw (full, coalesce) ([], refl, sym (append-nil batch))
      | inl room ↦
          elim (Bool-cases (
            ltb Batches.max_response_write_batch_bytes
              (saturating_add (length batch) (length response)))) [
                | inl last ↦
                    rw (room, coalesce)
                      (rw last (
                        response ∷ [],
                        refl,
                        ap (λ (x : Bytes). batch ++ x) (sym (append-nil response)),
                      ))
                | inr more ↦
                    let (front, left, joined) = coalesce_prefix fuel (batch ++ response) queue in
                    rw (room, coalesce)
                      (rw more (
                        response ∷ front,
                        ap (◌∷◌ response) left,
                        joined ∙ append_assoc batch response (concat front),
                      ))
              ]
    ]

module _ (debug : DecodeError → Text) (h : Hashing) (max_payload_len : ℕ) where
  Work-load : {e : Event} (c d : Pipeline) → Work debug h max_payload_len c e d → load d < load c
  unfolding load coalesce_native_responses
  Work-load c d (Work.spawns frame frames eq room) =
      omega (arith, ap length eq, length-append c.tasks (frame ∷ []))
  Work-load c d (Work.runs clock before frame after s answer eq run) =
      omega (
        arith,
        ap length eq,
        length_middle before frame after,
        length-append c.answers (answer ∷ []),
      )
  Work-load c d (Work.dies clock before frame after eq run) =
      omega (arith, ap length eq, length_middle before frame after)
  Work-load c d (Work.sends before answer after eq room) = omega (
    arith,
    ap length eq,
    length_middle before answer after,
    length-append c.channel (answer ∷ []),
  )
  Work-load c d (Work.writes first queue eq) =
      let (front, left, joined) = coalesce_prefix 31 first queue in
      omega (
        arith,
        ap length eq,
        ap length left,
        length-append front (coalesce_native_responses first queue).1,
      )

  abbrev Busy : Pipeline → Type 0
  Busy c = (e : Event) × (d : Pipeline) × Work debug h max_payload_len c e d

  run_task : (c : Pipeline) (frame : Bytes) (tasks : List Bytes) → c.tasks ≡ frame ∷ tasks → Busy c
  run_task c frame tasks eq =
      elim (Option-cases (execute debug h max_payload_len (λ i. 0) frame c.state)) [
        | inl dead ↦ (_, _, Work.dies (λ i. 0) [] frame tasks eq dead)
        | inr (result, run) ↦ (_, _, Work.runs (λ i. 0) [] frame tasks result.0 result.1 eq run)
      ]

  work_in_queue : (c : Pipeline) → (c.channel ≡ []) ⊎ Busy c
  work_in_queue c = elim (list_cases c.channel) [
    | inl none_left ↦ inl none_left
    | inr (first, queue, eq) ↦ inr (_, _, Work.writes first queue eq)
  ]

  work_in_answers : (c : Pipeline) → c.channel ≡ [] → (c.answers ≡ []) ⊎ Busy c
  work_in_answers c empty = elim (list_cases c.answers) [
    | inl none_left ↦ inl none_left
    | inr (answer, answers, eq) ↦
        inr (_, _, Work.sends [] answer answers eq (omega (arith, ap length empty)))
  ]

  work_in_frames : (c : Pipeline) → c.tasks ≡ [] → c.answers ≡ [] → (c.frames ≡ []) ⊎ Busy c
  work_in_frames c no_tasks no_answers = elim (list_cases c.frames) [
    | inl none_left ↦ inl none_left
    | inr (frame, frames, eq) ↦ inr (
      _,
      _,
      Work.spawns frame frames eq (omega (arith, ap length no_tasks, ap length no_answers)),
    )
  ]

  -- Whatever the state of a pipelined connection, everything is written or one of its tasks can take a step; and
  -- each such step leaves less work, so that without new frames all are done after finitely many steps.
  pub pipeline-progress :
      (c : Pipeline)
      → (((c.frames ≡ []) × (c.tasks ≡ []) × (c.answers ≡ []) × (c.channel ≡ []))
          ⊎ ((e : Event) × (d : Pipeline) × Work debug h max_payload_len c e d))
        × ((e : Event) (d : Pipeline) → Work debug h max_payload_len c e d → load d < load c)
  pipeline-progress c = (
    elim (work_in_queue c) [
      | inr busy ↦ inr busy
      | inl no_queue ↦ elim (work_in_answers c no_queue) [
        | inr busy ↦ inr busy
        | inl no_answers ↦ elim (list_cases c.tasks) [
          | inr (frame, tasks, eq) ↦ inr (run_task c frame tasks eq)
          | inl no_tasks ↦ elim (work_in_frames c no_tasks no_answers) [
            | inr busy ↦ inr busy
            | inl no_frames ↦ inl (no_frames, no_tasks, no_answers, no_queue)
          ]
        ]
      ]
    ],
    λ e d work. Work-load c d work,
  )
