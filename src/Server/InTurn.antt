-- ===== src/Server/InTurn.antt =====
-- The half of `handle_native_connection` of src/server.rs that is not pipelined: frames are answered one after
-- the other, until a read gives several of them.
use cachebox.Prelude.{
  ℕ, suc, ◌+◌, ◌≡◌, refl, sym, ap, ◌∙◌, inl, inr, Bool, true, false, Option, none, some, List, [],
  ◌∷◌, ◌++◌, append_assoc, arith, Bool-cases, length, All,
}
use cachebox.Bytes.{Bytes, Text}
use cachebox.Engine.Hashing.{Hashing}
use cachebox.Engine.Store.{Clock}
use cachebox.Wire.Types.{DecodeError}
use cachebox.Server.Answers.{State}
use cachebox.Server.Batches.{concat}
use cachebox.Server.Chunks.{IsWhole, IsRest}
use cachebox.Server.Reads.{Reads, Round, native_rounds}
use cachebox.Server.Stream.{IsChunk}
use cachebox.Server.Rounds.{all_frames, native_rounds_complete}
use cachebox.Server.Pipeline.{execute}

-- What is written, and the state after it
abbrev pub Answered : Type 0
Answered = Option (State × Bytes)

abbrev behind : Bytes → Answered → Answered
behind written none = none
behind written (some (s, more)) = some (s, written ++ more)

abbrev after : Answered → (State → Answered) → Answered
after none next = none
after (some (s, written)) next = behind written (next s)

-- The state, what was written, and the rounds from the first pipelined one on
abbrev pub Served : Type 0
Served = Option (State × (Bytes × List Round))

abbrev behind_all : Bytes → Served → Served
behind_all written none = none
behind_all written (some (s, (more, rest))) = some (s, (written ++ more, rest))

abbrev serve_after : Answered → (State → Served) → Served
serve_after none next = none
serve_after (some (s, written)) next = behind_all written (next s)

abbrev pub with_rest : List Round → Answered → Served
with_rest rest none = none
with_rest rest (some (s, written)) = some (s, (written, rest))

-- No rounds, or first one that is handed to tasks
abbrev pub IsHandedOver : List Round → Type 0
IsHandedOver [] = Unit
IsHandedOver (round ∷ rounds) = round.pipelined ≡ true

behind-behind : (a b : Bytes) (r : Answered) → behind a (behind b r) ≡ behind (a ++ b) r
behind-behind a b none = refl
behind-behind a b (some (s, c)) = ap (λ (x : Bytes). some (s, x)) (sym (append_assoc a b c))

after-behind :
    (a : Bytes) (r : Answered) (next : State → Answered)
    → behind a (after r next) ≡ after (behind a r) next
after-behind a none next = refl
after-behind a (some (s, b)) next = behind-behind a b (next s)

after-after :
    (r : Answered) (f g : State → Answered) → after (after r f) g ≡ after r (λ s. after (f s) g)
after-after none f g = refl
after-after (some (s, a)) f g = sym (after-behind a (f s) g)

after-ext :
    (r : Answered) (f g : State → Answered) → ((s : State) → f s ≡ g s) → after r f ≡ after r g
after-ext none f g h = refl
after-ext (some (s, a)) f g h = ap (behind a) (h s)

behind-nil : (r : Answered) → r ≡ behind [] r
behind-nil none = refl
behind-nil (some (s, a)) = refl

behind_all-with_rest :
    (rest : List Round) (a : Bytes) (r : Answered)
    → behind_all a (with_rest rest r) ≡ with_rest rest (behind a r)
behind_all-with_rest rest a none = refl
behind_all-with_rest rest a (some (s, b)) = refl

serve_after-with_rest :
    (rest : List Round) (r : Answered) (f : State → Served) (g : State → Answered)
    → ((s : State) → f s ≡ with_rest rest (g s))
    → serve_after r f ≡ with_rest rest (after r g)
serve_after-with_rest rest none f g h = refl
serve_after-with_rest rest (some (s, a)) f g h =
    ap (behind_all a) (h s) ∙ behind_all-with_rest rest a (g s)

module _ (debug : DecodeError → Text) (h : Hashing) (max_payload_len : ℕ) (clocks : ℕ → Clock) where
  -- The loop over the frames of a round: each is executed and its answer written. The n-th frame of the
  -- connection has its own readings of the clock.
  unfoldable pub answer_in_turn : List Bytes → ℕ → State → Answered
  answer_in_turn [] n s = some (s, [])
  answer_in_turn (frame ∷ frames) n s =
      after (execute debug h max_payload_len (clocks n) frame s) (answer_in_turn frames (suc n))

  -- The rounds up to the first pipelined one
  unfoldable pub serve_rounds : List Round → ℕ → State → Served
  serve_rounds [] n s = some (s, ([], []))
  serve_rounds (round ∷ rounds) n s = elim round.pipelined [
    | true ↦ some (s, ([], round ∷ rounds))
    | false ↦
        serve_after (answer_in_turn round.frames n s)
          (serve_rounds rounds (n + length round.frames))
  ]

  answer_in_turn-append :
      (xs ys : List Bytes) (n : ℕ) (s : State)
      → answer_in_turn (xs ++ ys) n s
        ≡ after (answer_in_turn xs n s) (answer_in_turn ys (n + length xs))
  unfolding answer_in_turn
  answer_in_turn-append [] ys n s =
      let e : n + 0 ≡ n = omega arith in rw e (behind-nil (answer_in_turn ys n s))
  answer_in_turn-append (x ∷ xs) ys n s =
      let e : n + suc (length xs) ≡ suc n + length xs = omega arith in
      rw e (
        after-ext (execute debug h max_payload_len (clocks n) x s) _ _
          (answer_in_turn-append xs ys (suc n))
        ∙ sym (
            after-after (execute debug h max_payload_len (clocks n) x s) (answer_in_turn xs (suc n))
              (answer_in_turn ys (suc n + length xs))))

  -- The frames that are answered in turn are those of the rounds before the first pipelined one.
  serve_rounds-in_turn :
      (rounds : List Round) (n : ℕ)
      → (front : List Bytes) × (rest : List Round) × (all_frames rounds ≡ front ++ all_frames rest)
        × IsHandedOver rest
        × ((s : State) → serve_rounds rounds n s ≡ with_rest rest (answer_in_turn front n s))
  unfolding serve_rounds answer_in_turn
  serve_rounds-in_turn [] n = ([], [], refl, tt, λ s. refl)
  serve_rounds-in_turn (round ∷ rounds) n = elim (Bool-cases round.pipelined) [
    | inl handed ↦
        let handed_over : State → Bool → Served = λ s pipelined.
          some (s, ([], record { frames = round.frames; pipelined = pipelined } ∷ rounds)) in
        (
          [],
          round ∷ rounds,
          refl,
          handed,
          λ s. rw (handed, serve_rounds) (ap (handed_over s) handed),
        )
    | inr alone ↦
        let (front, rest, frames_eq, handed, serves) =
          serve_rounds-in_turn rounds (n + length round.frames) in
        (
          round.frames ++ front,
          rest,
          ap (λ (x : List Bytes). round.frames ++ x) frames_eq
              ∙ sym (append_assoc round.frames front (all_frames rest)),
          handed,
          λ s.
              rw (alone, serve_rounds)
                (serve_after-with_rest rest (answer_in_turn round.frames n s) _ _ serves
                  ∙ ap (with_rest rest) (sym (answer_in_turn-append round.frames front n s))),
        )
  ]

-- A stream of whole frames within the limit, and of a rest with no complete frame and with no header that
-- announces more than the limit, in reads that are not empty: what is written before the connection is pipelined is
-- the answers of its first frames, each executed after the one before it, and the frames that are left are those
-- of the rounds from the first pipelined one on.
pub serve_in_turn :
    (debug : DecodeError → Text) (h : Hashing) (max_payload_len : ℕ) (clocks : ℕ → Clock)
    (reads : Reads) (frames : List Bytes) (tail : Bytes)
    → All (IsWhole max_payload_len) frames
    → IsRest max_payload_len tail
    → All IsChunk reads.chunks
    → concat reads.chunks ≡ concat frames ++ tail
    → (front : List Bytes) × (rest : List Round) × (frames ≡ front ++ all_frames rest)
      × IsHandedOver rest
      × ((s : State)
          → serve_rounds debug h max_payload_len clocks (native_rounds max_payload_len reads).1 0 s
            ≡ with_rest rest (answer_in_turn debug h max_payload_len clocks front 0 s))
serve_in_turn debug h max_payload_len clocks reads frames tail wholes rest full e =
    let rounds = (native_rounds max_payload_len reads).1 in
    let taken = native_rounds_complete max_payload_len reads frames tail wholes rest full e in
    let (front, left, frames_eq, handed, serves) =
      serve_rounds-in_turn debug h max_payload_len clocks rounds 0 in
    (front, left, sym taken.1 ∙ frames_eq, handed, serves)
