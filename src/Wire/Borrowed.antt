-- ===== src/Wire/Borrowed.antt =====
-- The borrowed decoder of crates/cachebox-protocol/src/lib.rs.
use cachebox.Prelude.{ℕ, Option, none, some, ◌==◌, if◌then◌else◌, Result, ok, err}
use cachebox.Bytes.{Bytes, Text}
use cachebox.Wire.Types.{
  Command, RequestPayloadView, RequestFrameView, DecodeError, invalid_namespace, invalid_tag,
}
use cachebox.Wire.Utf8.{is_valid_namespace, is_valid_tag}
use cachebox.Wire.Cursor.{
  Reader, ◌>>=◌, ◌>>◌, pure, fail, read_borrowed_bytes, read_borrowed_string, read_u64,
}
use cachebox.Wire.Encode.{kind_request}
use cachebox.Wire.Decode.{nonzero, refuse_if, open_frame, whole}

unfoldable pub read_borrowed_namespace : Reader Text
read_borrowed_namespace = do
  namespace ← read_borrowed_string
  if is_valid_namespace namespace then pure namespace else fail invalid_namespace

unfoldable pub read_borrowed_tag : Reader Text
read_borrowed_tag = do
  tag ← read_borrowed_string
  if is_valid_tag tag then pure tag else fail invalid_tag

-- The payloads that have a borrowed form.
unfoldable pub decode_view : Command → Option (Reader RequestPayloadView)
decode_view Command.get = some (do
  namespace ← read_borrowed_namespace
  key ← read_borrowed_bytes
  pure (RequestPayloadView.get namespace key))
decode_view Command.delete = some (do
  namespace ← read_borrowed_namespace
  key ← read_borrowed_bytes
  pure (RequestPayloadView.delete namespace key))
decode_view Command.tag_invalidate = some (do
  namespace ← read_borrowed_namespace
  tag ← read_borrowed_tag
  pure (RequestPayloadView.tag_invalidate namespace tag))
decode_view Command.lease_start = some (do
  namespace ← read_borrowed_namespace
  key ← read_borrowed_bytes
  lease_ttl_ms ← read_u64
  refuse_if (lease_ttl_ms == 0) "lease ttl must be greater than zero"
  allow_stale_ms ← read_u64
  pure (RequestPayloadView.lease_start namespace key lease_ttl_ms (nonzero allow_stale_ms)))
decode_view Command.put = none
decode_view Command.batch_get = none
decode_view Command.lease_complete = none

unfoldable pub decode_borrowed_request_frame :
    Bytes → ℕ → Result DecodeError (Option RequestFrameView)
decode_borrowed_request_frame input max_payload_len =
    elim (open_frame input max_payload_len kind_request) [
      | err e ↦ err e
      | ok (header, command, bytes) ↦ elim (decode_view command) [
        | none ↦ ok none
        | some reader ↦ elim (whole reader bytes) [
          | err e ↦ err e
          | ok payload ↦ ok (
              some
                (record { request_id = header.request_id; command = command; payload = payload }))
        ]
      ]
    ]
