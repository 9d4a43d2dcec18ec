-- ===== src/Server/Batches.antt =====
-- The writer task of src/server.rs joins the answers that are queued.
use cachebox.Prelude.{
  ℕ, zero, suc, ◌-◌, ◌*◌, ◌≡◌, refl, ◌∙◌, inl, inr, true, false, List, [], ◌∷◌, ◌++◌, append_assoc,
  ltb, Bool-cases, length, saturating_add,
}
use cachebox.Bytes.{Bytes}

abbrev pub max_response_write_batch_frames : ℕ
max_response_write_batch_frames = 32

abbrev pub max_response_write_batch_bytes : ℕ
max_response_write_batch_bytes = 64 * 1024

-- The loop, on the answers that are queued, which `try_recv` takes one by one. `fuel` is how many more frames the
-- batch may hold. It returns the batch and what stays queued.
unfoldable pub coalesce : ℕ → Bytes → List Bytes → Bytes × List Bytes
coalesce zero batch queue = (batch, queue)
coalesce (suc fuel) batch [] = (batch, [])
coalesce (suc fuel) batch (response ∷ queue) =
    elim (ltb (length batch) max_response_write_batch_bytes) [
      | false ↦ (batch, response ∷ queue)
      | true ↦
          elim (ltb max_response_write_batch_bytes
            (saturating_add (length batch) (length response))) [
              | true ↦ (batch ++ response, queue)
              | false ↦ coalesce fuel (batch ++ response) queue
            ]
    ]

unfoldable pub coalesce_native_responses : Bytes → List Bytes → Bytes × List Bytes
coalesce_native_responses first queue = coalesce (max_response_write_batch_frames - 1) first queue

abbrev pub concat : List Bytes → Bytes
concat [] = []
concat (x ∷ xs) = x ++ concat xs

coalesce_order :
    (fuel : ℕ) (batch : Bytes) (queue : List Bytes)
    → (coalesce fuel batch queue).0 ++ concat (coalesce fuel batch queue).1 ≡ batch ++ concat queue
unfolding coalesce
coalesce_order zero batch queue = refl
coalesce_order (suc fuel) batch [] = refl
coalesce_order (suc fuel) batch (response ∷ queue) =
    elim (Bool-cases (ltb (length batch) max_response_write_batch_bytes)) [
      | inr full ↦ rw (full, coalesce) refl
      | inl room ↦
          elim (Bool-cases (
            ltb max_response_write_batch_bytes (saturating_add (length batch) (length response)))) [
              | inl last ↦
                  rw (room, coalesce) (rw last (append_assoc batch response (concat queue)))
              | inr more ↦
                  rw (room, coalesce)
                    (rw more (
                      coalesce_order fuel (batch ++ response) queue
                      ∙ append_assoc batch response (concat queue)))
            ]
    ]

-- Joining loses nothing and keeps the order: the batch and what stays queued are the first answer and the queue.
pub coalesce-order :
    (first : Bytes) (queue : List Bytes)
    → (coalesce_native_responses first queue).0 ++ concat (coalesce_native_responses first queue).1
      ≡ first ++ concat queue
unfolding coalesce_native_responses
coalesce-order first queue = coalesce_order (max_response_write_batch_frames - 1) first queue
