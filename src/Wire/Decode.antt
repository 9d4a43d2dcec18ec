-- ===== src/Wire/Decode.antt =====
-- The decoder of crates/cachebox-protocol/src/lib.rs.
use cachebox.Prelude.{
  is_empty, get_elem?, ℕ, ◌+◌, ite, Bool, true, false, ◌&&◌, not, Option, none, some, ltb, ◌==◌,
  if◌then◌else◌, Result, ok, err, length,
}
use Prim.Native.String.{String}
use cachebox.Bytes.{Bytes, Text, Ttl}
use cachebox.Wire.Types.{
  Command, ContentType, octet_stream, other, Metadata, RequestPayload, RequestFrame, BatchItem,
  ErrorCode, ResponsePayload, ResponseFrame, command_from_id, error_from_id, DecodeError,
  incomplete_header, bad_magic, unsupported_version, invalid_kind, nonzero_flags, nonzero_reserved,
  frame_too_large, truncated_payload, invalid_payload, invalid_namespace, invalid_tag,
}
use cachebox.Wire.Utf8.{is_valid_namespace, is_valid_tag}
use cachebox.Wire.Cursor.{
  Reader, ◌>>=◌, ◌>>◌, pure, fail, slice, from_be, new_cursor, read_u8, read_u16, read_u32,
  read_u64, read_bool, read_bytes, read_string, expect_empty, read_many,
}
use cachebox.Wire.Encode.{magic, version, header_len, kind_request, kind_response}
use cachebox.Engine.Types.{Text-discrete}

pub record Header : Type 0 where
  pub command : ℕ
  pub request_id : ℕ
  pub payload_len : ℕ

-- `input[i]`, where the length has been checked
unfoldable pub byte_at : Bytes → ℕ → ℕ
byte_at input i = elim (get_elem? input i) [ none ↦ 0 | some byte ↦ byte ]

unfoldable pub decode_header : Bytes → ℕ → ℕ → Result DecodeError Header
unfolding byte_at
decode_header input max_payload_len expected_kind =
    if ltb (length input) header_len
    then err incomplete_header
    else ite (Text-discrete (slice input 0 4) magic)
        (let payload_len = from_be (slice input 16 20) in
          if not (byte_at input 4 == version)
          then err (unsupported_version (byte_at input 4))
          else if not (byte_at input 5 == expected_kind)
          then err (invalid_kind (byte_at input 5))
          else if not (byte_at input 7 == 0)
          then err (nonzero_flags (byte_at input 7))
          else if ltb max_payload_len payload_len
          then err (frame_too_large payload_len max_payload_len)
          else if not (from_be (slice input 20 24) == 0)
          then err (nonzero_reserved (from_be (slice input 20 24)))
          else ok (record {
            command = byte_at input 6;
            request_id = from_be (slice input 8 16);
            payload_len = payload_len;
          }))
        (err bad_magic)

unfoldable pub read_namespace : Reader Text
read_namespace = do
  namespace ← read_string
  if is_valid_namespace namespace then pure namespace else fail invalid_namespace

unfoldable pub read_tag : Reader Text
read_tag = do tag ← read_string; if is_valid_tag tag then pure tag else fail invalid_tag

-- 0 stands for none.
abbrev pub nonzero : ℕ → Option ℕ
nonzero n = if n == 0 then none else some n

abbrev pub ttl_of : ℕ → Option Ttl
ttl_of n = if n == 0 then none else some (record { milliseconds = n })

unfoldable pub content_type_of : ℕ → Reader ContentType
content_type_of byte =
    if byte == 0
    then pure octet_stream
    else if byte == 1
    then pure other
    else fail (invalid_payload "invalid content type")

unfoldable pub read_metadata : Reader Metadata
read_metadata = do
  ttl ← read_u64
  stale_ttl ← read_u64
  has_cost ← read_bool
  cost ← read_u64
  tag_count ← read_u16
  tags ← read_many read_tag tag_count
  content_type ← read_u8
  content_type ← content_type_of content_type
  pure (record {
    ttl = ttl_of ttl;
    stale_ttl = ttl_of stale_ttl;
    cost = if has_cost then some cost else none;
    tags = tags;
    content_type = content_type;
  })

-- `return Err(...)` where the test holds
unfoldable pub refuse_if : Bool → String → Reader (Unit {0})
refuse_if b message = if b then fail (invalid_payload message) else pure tt

unfoldable pub decode_request_payload : Command → Reader RequestPayload
decode_request_payload Command.get = do
  namespace ← read_namespace
  key ← read_bytes
  pure (RequestPayload.get namespace key)
decode_request_payload Command.put = do
  namespace ← read_namespace
  key ← read_bytes
  metadata ← read_metadata
  value ← read_bytes
  pure (RequestPayload.put namespace key metadata value)
decode_request_payload Command.delete = do
  namespace ← read_namespace
  key ← read_bytes
  pure (RequestPayload.delete namespace key)
decode_request_payload Command.batch_get = do
  namespace ← read_namespace
  key_count ← read_u32
  refuse_if (key_count == 0) "batch get requires at least one key"
  keys ← read_many read_bytes key_count
  pure (RequestPayload.batch_get namespace keys)
decode_request_payload Command.tag_invalidate = do
  namespace ← read_namespace
  tag ← read_tag
  pure (RequestPayload.tag_invalidate namespace tag)
decode_request_payload Command.lease_start = do
  namespace ← read_namespace
  key ← read_bytes
  lease_ttl_ms ← read_u64
  refuse_if (lease_ttl_ms == 0) "lease ttl must be greater than zero"
  allow_stale_ms ← read_u64
  pure (RequestPayload.lease_start namespace key lease_ttl_ms (nonzero allow_stale_ms))
decode_request_payload Command.lease_complete = do
  namespace ← read_namespace
  key ← read_bytes
  lease_token ← read_string
  refuse_if (is_empty lease_token) "lease token must be non-empty"
  metadata ← read_metadata
  value ← read_bytes
  pure (RequestPayload.lease_complete namespace key lease_token metadata value)

unfoldable pub item_of : ℕ → Reader BatchItem
item_of status =
    if status == 0x01
    then (do value ← read_bytes; pure (BatchItem.hit value))
    else if status == 0x02
    then (do value ← read_bytes; pure (BatchItem.stale value))
    else if status == 0x03
    then pure BatchItem.miss
    else fail (invalid_payload "invalid batch item status")

unfoldable pub read_item : Reader BatchItem
unfolding item_of
read_item = do status ← read_u8; item_of status

unfoldable pub is_batch_get : Command → Bool
is_batch_get Command.batch_get = true
is_batch_get _ = false

unfoldable pub read_stale_value : Bool → Reader (Option Bytes)
read_stale_value true = do value ← read_bytes; pure (some value)
read_stale_value false = pure none

unfoldable pub error_code_of : ℕ → Reader ErrorCode
error_code_of id = elim (error_from_id id) [ ok code ↦ pure code | err e ↦ fail e ]

unfoldable pub response_of : Command → ℕ → Reader ResponsePayload
unfolding is_batch_get read_stale_value error_code_of
response_of command status =
    if (status == 0x00) && is_batch_get command
    then (do
      item_count ← read_u32
      items ← read_many read_item item_count
      pure (ResponsePayload.batch_get items))
    else if status == 0x00
    then pure ResponsePayload.done
    else if status == 0x01
    then (do value ← read_bytes; pure (ResponsePayload.hit value))
    else if status == 0x02
    then (do value ← read_bytes; pure (ResponsePayload.stale value))
    else if status == 0x03
    then pure ResponsePayload.miss
    else if status == 0x04
    then (do evicted ← read_u32; pure (ResponsePayload.stored evicted))
    else if status == 0x05
    then (do removed ← read_bool; pure (ResponsePayload.deleted removed))
    else if status == 0x06
    then (do removed ← read_u32; pure (ResponsePayload.invalidated removed))
    else if status == 0x07
    then (do
      lease_token ← read_string
      has_stale ← read_bool
      stale_value ← read_stale_value has_stale
      pure (ResponsePayload.lease_granted lease_token stale_value))
    else if status == 0x08
    then pure ResponsePayload.lease_denied
    else if status == 0xff
    then (do
      id ← read_u16
      code ← error_code_of id
      message ← read_string
      pure (ResponsePayload.error code message))
    else fail (invalid_payload "unknown response status")

unfoldable pub decode_response_payload : Command → Reader ResponsePayload
decode_response_payload command = do status ← read_u8; response_of command status

-- What the three decoders share: the header, the payload's bytes, and the command.
unfoldable pub open_frame : Bytes → ℕ → ℕ → Result DecodeError (Header × Command × Bytes)
open_frame input max_payload_len kind = elim (decode_header input max_payload_len kind) [
  | err e ↦ err e
  | ok header ↦
      let payload_end = header_len + header.payload_len in
      if ltb (length input) payload_end
      then err (truncated_payload payload_end (length input))
      else elim (command_from_id header.command) [
        | err e ↦ err e
        | ok command ↦ ok (header, command, slice input header_len payload_end)
      ]
]

-- A payload is read to its end.
unfoldable pub whole {ℓ} : {A : Type ℓ} → Reader A → Bytes → Result DecodeError A
whole reader bytes = elim ((do a ← reader; expect_empty; pure a) (new_cursor bytes)) [
  | err e ↦ err e
  | ok (a, c) ↦ ok a
]

unfoldable pub decode_request_frame : Bytes → ℕ → Result DecodeError RequestFrame
decode_request_frame input max_payload_len = elim (open_frame input max_payload_len kind_request) [
  | err e ↦ err e
  | ok (header, command, bytes) ↦ elim (whole (decode_request_payload command) bytes) [
    | err e ↦ err e
    | ok payload ↦
        ok (record { request_id = header.request_id; command = command; payload = payload })
  ]
]

unfoldable pub decode_response_frame : Bytes → ℕ → Result DecodeError ResponseFrame
decode_response_frame input max_payload_len =
    elim (open_frame input max_payload_len kind_response) [
      | err e ↦ err e
      | ok (header, command, bytes) ↦ elim (whole (decode_response_payload command) bytes) [
        | err e ↦ err e
        | ok payload ↦
            ok (record { request_id = header.request_id; command = command; payload = payload })
      ]
    ]
