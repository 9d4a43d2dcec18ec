-- ===== src/Wire/Agreement.antt =====
-- The borrowed decoder of crates/cachebox-protocol/src/lib.rs agrees with the owning one.
use cachebox.Prelude.{ℕ, ◌≡◌, refl, Option, none, some, arith, Result, ok, err}
use cachebox.Bytes.{Bytes}
use cachebox.Wire.Types.{
  Command, RequestPayload, RequestPayloadView, RequestFrame, RequestFrameView, DecodeError,
}
use cachebox.Wire.Cursor.{
  Cursor, Reader, ◌>>=◌, pure, new_cursor, read_bytes, read_string, read_borrowed_bytes,
  read_borrowed_string,
}
use cachebox.Wire.Encode.{kind_request}
use cachebox.Wire.Decode.{
  Header, nonzero, read_namespace, read_tag, decode_request_payload, open_frame, whole,
  decode_request_frame,
}
use cachebox.Wire.Borrowed.{
  decode_borrowed_request_frame, decode_view, read_borrowed_namespace, read_borrowed_tag,
}

-- The payload and the frame that a view stands for.
abbrev pub owned_payload : RequestPayloadView → RequestPayload
owned_payload (RequestPayloadView.get namespace key) = RequestPayload.get namespace key
owned_payload (RequestPayloadView.delete namespace key) = RequestPayload.delete namespace key
owned_payload (RequestPayloadView.tag_invalidate namespace tag) =
    RequestPayload.tag_invalidate namespace tag
owned_payload (RequestPayloadView.lease_start namespace key lease_ttl_ms allow_stale_ms) =
    RequestPayload.lease_start namespace key lease_ttl_ms allow_stale_ms

abbrev pub owned_frame : RequestFrameView → RequestFrame
owned_frame frame = record {
  request_id = frame.request_id;
  command = frame.command;
  payload = owned_payload frame.payload;
}

abbrev pub owned {ℓ κ} :
    {A : Type ℓ} {B : Type κ} → (A → B) → Result DecodeError A → Result DecodeError B
owned f (ok a) = ok (f a)
owned f (err e) = err e

-- The commands whose payloads have no borrowed form
abbrev pub IsOwned : Command → Type 0
IsOwned Command.put = Unit
IsOwned Command.batch_get = Unit
IsOwned Command.lease_complete = Unit
IsOwned _ = ⊥

abbrev pub HasCommand : Command → Result DecodeError RequestFrame → Type 0
HasCommand command (ok frame) = frame.command ≡ command
HasCommand command (err e) = Unit

-- The outcome of the decoder of frames, by the outcome of the borrowed one. Where that has no view, the header is
-- that of a frame with a command without a borrowed form, which the decoder of frames may decode or refuse.
abbrev pub AgreesWith :
    Bytes
    → ℕ
    → Result DecodeError RequestFrame
    → Result DecodeError (Option RequestFrameView)
    → Type 0
AgreesWith input max_payload_len r (err e) = r ≡ err e
AgreesWith input max_payload_len r (ok (some view)) = r ≡ ok (owned_frame view)
AgreesWith input max_payload_len r (ok none) =
    (header : Header) × (command : Command) × (bytes : Bytes) × (open_frame input max_payload_len
        kind_request
      ≡ ok (header, command, bytes))
    × IsOwned command
    × HasCommand command r

borrowed_namespace_lem : read_borrowed_namespace ≡ read_namespace
unfolding read_borrowed_namespace read_namespace read_borrowed_string read_string
    read_borrowed_bytes read_bytes
borrowed_namespace_lem = refl

borrowed_tag_lem : read_borrowed_tag ≡ read_tag
unfolding read_borrowed_tag read_tag read_borrowed_string read_string read_borrowed_bytes read_bytes
borrowed_tag_lem = refl

borrowed_bytes_lem : read_borrowed_bytes ≡ read_bytes
unfolding read_borrowed_bytes read_bytes
borrowed_bytes_lem = refl

module _ {ℓ κ} {A : Type ℓ} {B : Type κ} (f : A → B) where
  -- What a read returns, changed by `f`.
  abbrev read_map : Result DecodeError (A × Cursor) → Result DecodeError (B × Cursor)
  read_map (err e) = err e
  read_map (ok (a, c)) = ok (f a, c)

  abbrev Follows : Reader B → Reader A → Type κ
  Follows n m = (c : Cursor) → n c ≡ read_map (m c)

  Follows-bind {ι} :
      {X : Type ι} (r : Reader X) (n : X → Reader B) (m : X → Reader A)
      → ((x : X) → Follows (n x) (m x))
      → Follows (r >>= n) (r >>= m)
  unfolding ◌>>=◌
  Follows-bind r n m h c =
      elim (r c)
        as (λ y.
          elim y [ err e ↦ err e | ok (x, c') ↦ n x c' ]
          ≡ read_map (elim y [ err e ↦ err e | ok (x, c') ↦ m x c' ])) [
            | err e ↦ refl
            | ok (x, c') ↦ h x c'
          ]

  Follows-pure : (a : A) → Follows (pure (f a)) (pure a)
  unfolding pure
  Follows-pure a c = refl

  whole-Follows :
      (n : Reader B) (m : Reader A) (bytes : Bytes)
      → Follows n m
      → whole n bytes ≡ owned f (whole m bytes)
  unfolding whole ◌>>=◌ pure
  whole-Follows n m bytes h = ground (arith, h (new_cursor bytes))

-- A borrowed reader reads what the reader of the command reads.
abbrev Viewed : Reader RequestPayload → Option (Reader RequestPayloadView) → Type 0
Viewed n none = Unit
Viewed n (some m) = Follows owned_payload n m

decode_view-Viewed :
    (command : Command) → Viewed (decode_request_payload command) (decode_view command)
unfolding decode_view decode_request_payload read_borrowed_namespace read_namespace
    read_borrowed_tag read_tag read_borrowed_string read_string read_borrowed_bytes read_bytes
decode_view-Viewed Command.get = Follows-bind _ _ _ _ (λ namespace.
    Follows-bind _ _ _ _ (λ key. Follows-pure _ (RequestPayloadView.get namespace key)))
decode_view-Viewed Command.delete = Follows-bind _ _ _ _ (λ namespace.
    Follows-bind _ _ _ _ (λ key. Follows-pure _ (RequestPayloadView.delete namespace key)))
decode_view-Viewed Command.tag_invalidate = Follows-bind _ _ _ _ (λ namespace.
    Follows-bind _ _ _ _ (λ tag. Follows-pure _ (RequestPayloadView.tag_invalidate namespace tag)))
decode_view-Viewed Command.lease_start = Follows-bind _ _ _ _ (λ namespace.
    Follows-bind _ _ _ _ (λ key. Follows-bind _ _ _ _ (λ lease_ttl_ms. Follows-bind _ _ _ _ (λ u.
      Follows-bind _ _ _ _ (λ allow_stale_ms.
        Follows-pure _
          (RequestPayloadView.lease_start namespace key lease_ttl_ms (nonzero allow_stale_ms)))))))
decode_view-Viewed Command.put = tt
decode_view-Viewed Command.batch_get = tt
decode_view-Viewed Command.lease_complete = tt

-- A command without a reader for a view has no borrowed form.
decode_view-IsOwned : (command : Command) → decode_view command ≡ none → IsOwned command
unfolding decode_view
decode_view-IsOwned Command.put e = tt
decode_view-IsOwned Command.batch_get e = tt
decode_view-IsOwned Command.lease_complete e = tt
decode_view-IsOwned Command.get e = cc
decode_view-IsOwned Command.delete e = cc
decode_view-IsOwned Command.tag_invalidate e = cc
decode_view-IsOwned Command.lease_start e = cc

module _ (input : Bytes) (max_payload_len : ℕ) (header : Header) (command : Command) (bytes : Bytes)
    (opened : open_frame input max_payload_len kind_request ≡ ok (header, command, bytes)) where
  decoded : Result DecodeError RequestPayload → Result DecodeError RequestFrame
  decoded (err e) = err e
  decoded (ok payload) =
      ok (record { request_id = header.request_id; command = command; payload = payload })

  decoded-HasCommand : (r : Result DecodeError RequestPayload) → HasCommand command (decoded r)
  unfolding decoded
  decoded-HasCommand (err e) = tt
  decoded-HasCommand (ok payload) = refl

  -- The rest of both decoders, once the frame is open.
  opened-AgreesWith :
      (view : Option (Reader RequestPayloadView))
      → decode_view command ≡ view
      → Viewed (decode_request_payload command) view
      → AgreesWith input max_payload_len
          (elim (whole (decode_request_payload command) bytes) [
            | err e ↦ err e
            | ok payload ↦
                ok (record { request_id = header.request_id; command = command; payload = payload })
          ])
          (elim view [
            | none ↦ ok none
            | some reader ↦ elim (whole reader bytes) [
              | err e ↦ err e
              | ok payload ↦ ok (
                  some (record {
                    request_id = header.request_id;
                    command = command;
                    payload = payload;
                  }))
            ]
          ])
  unfolding decoded
  opened-AgreesWith none e h = (
    header,
    command,
    bytes,
    opened,
    decode_view-IsOwned command e,
    decoded-HasCommand (whole (decode_request_payload command) bytes),
  )
  opened-AgreesWith (some reader) e h =
      rw (whole-Follows owned_payload _ reader bytes h) (ground arith)

-- On every input the borrowed decoder agrees with the decoder of frames: it fails with the same error, its view
-- stands for the same frame, and where it has no view, the header opens a frame with the command put, batch_get or
-- lease_complete, and what the decoder of frames decodes has that command.
pub decode_borrowed_request_frame-AgreesWith :
    (input : Bytes) (max_payload_len : ℕ)
    → AgreesWith input max_payload_len
        (decode_request_frame input max_payload_len)
        (decode_borrowed_request_frame input max_payload_len)
unfolding decode_request_frame decode_borrowed_request_frame
decode_borrowed_request_frame-AgreesWith input max_payload_len =
    let agrees : (opened : Result DecodeError (Header × Command × Bytes))
        → open_frame input max_payload_len kind_request ≡ opened
        → AgreesWith input max_payload_len (decode_request_frame input max_payload_len)
            (decode_borrowed_request_frame input max_payload_len) =
      elim [
        | err e ↦ λ q. rw (q, decode_request_frame, decode_borrowed_request_frame) refl
        | ok (header, command, bytes) ↦ λ q.
            rw (q, decode_request_frame, decode_borrowed_request_frame)
              (opened-AgreesWith input max_payload_len header command bytes q (decode_view command)
                refl (decode_view-Viewed command))
      ] in
    agrees (open_frame input max_payload_len kind_request) refl
