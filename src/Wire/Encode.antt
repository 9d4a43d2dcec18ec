-- ===== src/Wire/Encode.antt =====
-- The encoder of crates/cachebox-protocol/src/lib.rs. A writer appends to `out`.
use cachebox.Prelude.{
  ℕ, zero, suc, ◌-◌, ◌/◌, ◌%◌, ◌^◌, Bool, true, false, Option, none, some, [], ◌∷◌, ◌++◌, ltb,
  if◌then◌else◌, is_some, length, take, drop,
}
use mathlib.Core.List.{foldl}
use cachebox.Bytes.{Bytes, Text, Ttl}
use cachebox.Wire.Types.{
  Command, ContentType, octet_stream, other, Metadata, RequestPayload, RequestFrame, BatchItem,
  ResponsePayload, ResponsePayloadView, ResponseFrame, command_id, error_id,
}

abbrev pub magic : Bytes
magic = b'C' ∷ b'B' ∷ b'X' ∷ b'1' ∷ []

abbrev pub version : ℕ
version = 1

abbrev pub header_len : ℕ
header_len = 24

abbrev pub kind_request : ℕ
kind_request = 0x00

abbrev pub kind_response : ℕ
kind_response = 0x01

-- `to_be_bytes` of a word of so many bytes
unfoldable pub be_bytes : ℕ → ℕ → Bytes
be_bytes zero n = []
be_bytes (suc width) n = be_bytes width (n / 256) ++ (n % 256 ∷ [])

unfoldable pub push : Bytes → ℕ → Bytes
push out byte = out ++ (byte ∷ [])

unfoldable pub write_u16 : Bytes → ℕ → Bytes
write_u16 out n = out ++ be_bytes 2 n

unfoldable pub write_u32 : Bytes → ℕ → Bytes
write_u32 out n = out ++ be_bytes 4 n

unfoldable pub write_u64 : Bytes → ℕ → Bytes
write_u64 out n = out ++ be_bytes 8 n

unfoldable pub write_bool : Bytes → Bool → Bytes
write_bool out b = push out (if b then 1 else 0)

-- `value.len() as u32` keeps the low 32 bits.
unfoldable pub write_bytes : Bytes → Bytes → Bytes
write_bytes out value = write_u32 out (length value % 2 ^ 32) ++ value

unfoldable pub write_string : Bytes → Text → Bytes
write_string out value = write_bytes out value

-- `map_or(0, |ttl| ttl.milliseconds)`
abbrev pub millis : Option Ttl → ℕ
millis none = 0
millis (some ttl) = ttl.milliseconds

-- `unwrap_or(0)`
abbrev pub or_zero : Option ℕ → ℕ
or_zero none = 0
or_zero (some n) = n

unfoldable pub content_type_id : ContentType → ℕ
content_type_id octet_stream = 0
content_type_id other = 1

unfoldable pub write_metadata : Bytes → Metadata → Bytes
write_metadata out metadata =
    let out = write_u64 out (millis metadata.ttl) in
    let out = write_u64 out (millis metadata.stale_ttl) in
    let out = write_bool out (is_some metadata.cost) in
    let out = write_u64 out (or_zero metadata.cost) in
    let out = write_u16 out (length metadata.tags % 2 ^ 16) in
    let out = foldl write_string out metadata.tags in
    push out (content_type_id metadata.content_type)

unfoldable pub encode_request_payload : RequestPayload → Bytes → Bytes
encode_request_payload (RequestPayload.get namespace key) out =
    write_bytes (write_string out namespace) key
encode_request_payload (RequestPayload.delete namespace key) out =
    write_bytes (write_string out namespace) key
encode_request_payload (RequestPayload.put namespace key metadata value) out =
    write_bytes (write_metadata (write_bytes (write_string out namespace) key) metadata) value
encode_request_payload (RequestPayload.batch_get namespace keys) out =
    foldl write_bytes (write_u32 (write_string out namespace) (length keys % 2 ^ 32)) keys
encode_request_payload (RequestPayload.tag_invalidate namespace tag) out =
    write_string (write_string out namespace) tag
encode_request_payload (RequestPayload.lease_start namespace key lease_ttl_ms allow_stale_ms) out =
    write_u64 (write_u64 (write_bytes (write_string out namespace) key) lease_ttl_ms)
      (or_zero allow_stale_ms)
encode_request_payload (RequestPayload.lease_complete namespace key lease_token metadata value)
      out =
    write_bytes
      (write_metadata (write_string (write_bytes (write_string out namespace) key) lease_token)
        metadata)
      value

unfoldable pub write_item : Bytes → BatchItem → Bytes
write_item out (BatchItem.hit value) = write_bytes (push out 0x01) value
write_item out (BatchItem.stale value) = write_bytes (push out 0x02) value
write_item out BatchItem.miss = push out 0x03

unfoldable pub encode_response_payload : ResponsePayload → Bytes → Bytes
encode_response_payload ResponsePayload.done out = push out 0x00
encode_response_payload (ResponsePayload.hit value) out = write_bytes (push out 0x01) value
encode_response_payload (ResponsePayload.stale value) out = write_bytes (push out 0x02) value
encode_response_payload ResponsePayload.miss out = push out 0x03
encode_response_payload (ResponsePayload.stored evicted) out = write_u32 (push out 0x04) evicted
encode_response_payload (ResponsePayload.deleted removed) out = write_bool (push out 0x05) removed
encode_response_payload (ResponsePayload.invalidated removed) out =
    write_u32 (push out 0x06) removed
encode_response_payload (ResponsePayload.lease_granted lease_token none) out =
    write_bool (write_string (push out 0x07) lease_token) false
encode_response_payload (ResponsePayload.lease_granted lease_token (some value)) out =
    write_bytes (write_bool (write_string (push out 0x07) lease_token) true) value
encode_response_payload ResponsePayload.lease_denied out = push out 0x08
encode_response_payload (ResponsePayload.error code message) out =
    write_string (write_u16 (push out 0xff) (error_id code)) message
encode_response_payload (ResponsePayload.batch_get items) out =
    foldl write_item (write_u32 (push out 0x00) (length items % 2 ^ 32)) items

unfoldable pub encode_response_payload_view : ResponsePayloadView → Bytes → Bytes
encode_response_payload_view (ResponsePayloadView.hit value) out = write_bytes (push out 0x01) value
encode_response_payload_view (ResponsePayloadView.stale value) out =
    write_bytes (push out 0x02) value
encode_response_payload_view ResponsePayloadView.miss out = push out 0x03

-- `out[16..20].copy_from_slice(bytes)`
unfoldable pub patch_len : Bytes → Bytes → Bytes
patch_len out bytes = take 16 out ++ (bytes ++ drop 20 out)

-- What stands before the payload, with the length still 0. `out` is cleared first.
unfoldable pub frame_start : ℕ → Command → ℕ → Bytes
frame_start kind command request_id =
    let out = magic ++ (version ∷ kind ∷ command_id command ∷ 0 ∷ []) in
    write_u32 (write_u32 (write_u64 out request_id) 0) 0

-- `none` stands for the panic of the assertion on the length of the payload.
unfoldable pub encode_frame {ℓ} :
    {T : Type ℓ} → ℕ → Command → ℕ → T → (T → Bytes → Bytes) → Option Bytes
encode_frame kind command request_id payload encode_payload =
    let start = frame_start kind command request_id in
    let out = encode_payload payload start in
    let payload_len = length out - length start in
    if ltb payload_len (2 ^ 32) then some (patch_len out (be_bytes 4 payload_len)) else none

unfoldable pub encode_request_frame : RequestFrame → Option Bytes
encode_request_frame frame =
    encode_frame kind_request frame.command frame.request_id frame.payload encode_request_payload

unfoldable pub encode_response_frame : ResponseFrame → Option Bytes
encode_response_frame frame =
    encode_frame kind_response frame.command frame.request_id frame.payload encode_response_payload

unfoldable pub encode_response_payload_view_frame : ℕ → Command → ResponsePayloadView → Option Bytes
encode_response_payload_view_frame request_id command payload =
    encode_frame kind_response command request_id payload encode_response_payload_view
