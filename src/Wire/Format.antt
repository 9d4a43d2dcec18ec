-- ===== src/Wire/Format.antt =====
-- The wire format of crates/cachebox-protocol/src/lib.rs, written down by itself: the bytes of a payload
-- and which payloads have them.
use cachebox.Prelude.{
  ℕ, ◌^◌, ◌<◌, ◌≡◌, true, false, Option, none, some, [], ◌∷◌, ◌++◌, is_some, length, All,
}
use cachebox.Bytes.{Bytes, Text, Ttl}
use cachebox.Wire.Types.{
  Command, Metadata, RequestPayload, BatchItem, ResponsePayload, command_id, error_id,
}
use cachebox.Wire.Utf8.{is_utf8, is_valid_namespace, is_valid_tag}
use cachebox.Wire.Cursor.Fields.{bool_word, bytes_word, words}
use cachebox.Wire.Encode.{magic, version, be_bytes, millis, or_zero, content_type_id}

abbrev pub IsShort : Bytes → Type 0
IsShort value = length value < 2 ^ 32

abbrev pub IsTtl : Option Ttl → Type 0
IsTtl none = Unit
IsTtl (some ttl) = (0 < ttl.milliseconds) × (ttl.milliseconds < 2 ^ 64)

abbrev pub IsPositive : Option ℕ → Type 0
IsPositive none = Unit
IsPositive (some n) = (0 < n) × (n < 2 ^ 64)

abbrev pub IsCost : Option ℕ → Type 0
IsCost none = Unit
IsCost (some n) = n < 2 ^ 64

abbrev pub IsNamespace : Text → Type 0
IsNamespace namespace = (is_valid_namespace namespace ≡ true) × IsShort namespace

abbrev pub IsTag : Text → Type 0
IsTag tag = (is_valid_tag tag ≡ true) × IsShort tag

abbrev pub IsText : Text → Type 0
IsText text = (is_utf8 text ≡ true) × IsShort text

pub record IsMetadata (metadata : Metadata) : Type 0 where
  pub ttl : IsTtl metadata.ttl
  pub stale_ttl : IsTtl metadata.stale_ttl
  pub cost : IsCost metadata.cost
  pub tags : All IsTag metadata.tags
  pub tag_count : length metadata.tags < 2 ^ 16

-- The payloads that the wire can carry.
abbrev pub IsRequest : RequestPayload → Type 0
IsRequest (RequestPayload.get namespace key) = IsNamespace namespace × IsShort key
IsRequest (RequestPayload.put namespace key metadata value) =
    IsNamespace namespace × IsShort key × IsMetadata metadata × IsShort value
IsRequest (RequestPayload.delete namespace key) = IsNamespace namespace × IsShort key
IsRequest (RequestPayload.batch_get namespace keys) =
    IsNamespace namespace × All IsShort keys × (0 < length keys) × (length keys < 2 ^ 32)
IsRequest (RequestPayload.tag_invalidate namespace tag) = IsNamespace namespace × IsTag tag
IsRequest (RequestPayload.lease_start namespace key lease_ttl_ms allow_stale_ms) =
    IsNamespace namespace
    × IsShort key
    × (0 < lease_ttl_ms)
    × (lease_ttl_ms < 2 ^ 64)
    × IsPositive allow_stale_ms
IsRequest (RequestPayload.lease_complete namespace key lease_token metadata value) =
    IsNamespace namespace
    × IsShort key
    × IsText lease_token
    × (0 < length lease_token)
    × IsMetadata metadata
    × IsShort value

unfoldable pub metadata_word : Metadata → Bytes
metadata_word metadata =
    be_bytes 8 (millis metadata.ttl)
    ++ (be_bytes 8 (millis metadata.stale_ttl)
        ++ (bool_word (is_some metadata.cost)
            ++ (be_bytes 8 (or_zero metadata.cost)
                ++ (be_bytes 2 (length metadata.tags)
                    ++ (words bytes_word metadata.tags
                        ++ (content_type_id metadata.content_type ∷ []))))))

unfoldable pub request_word : RequestPayload → Bytes
request_word (RequestPayload.get namespace key) = bytes_word namespace ++ bytes_word key
request_word (RequestPayload.put namespace key metadata value) =
    bytes_word namespace ++ (bytes_word key ++ (metadata_word metadata ++ bytes_word value))
request_word (RequestPayload.delete namespace key) = bytes_word namespace ++ bytes_word key
request_word (RequestPayload.batch_get namespace keys) =
    bytes_word namespace ++ (be_bytes 4 (length keys) ++ words bytes_word keys)
request_word (RequestPayload.tag_invalidate namespace tag) = bytes_word namespace ++ bytes_word tag
request_word (RequestPayload.lease_start namespace key lease_ttl_ms allow_stale_ms) =
    bytes_word namespace
    ++ (bytes_word key ++ (be_bytes 8 lease_ttl_ms ++ be_bytes 8 (or_zero allow_stale_ms)))
request_word (RequestPayload.lease_complete namespace key lease_token metadata value) =
    bytes_word namespace
    ++ (bytes_word key ++ (bytes_word lease_token ++ (metadata_word metadata ++ bytes_word value)))

unfoldable pub item_word : BatchItem → Bytes
item_word (BatchItem.hit value) = 0x01 ∷ bytes_word value
item_word (BatchItem.stale value) = 0x02 ∷ bytes_word value
item_word BatchItem.miss = 0x03 ∷ []

unfoldable pub response_word : ResponsePayload → Bytes
response_word ResponsePayload.done = 0x00 ∷ []
response_word (ResponsePayload.hit value) = 0x01 ∷ bytes_word value
response_word (ResponsePayload.stale value) = 0x02 ∷ bytes_word value
response_word ResponsePayload.miss = 0x03 ∷ []
response_word (ResponsePayload.stored evicted) = 0x04 ∷ be_bytes 4 evicted
response_word (ResponsePayload.deleted removed) = 0x05 ∷ bool_word removed
response_word (ResponsePayload.invalidated removed) = 0x06 ∷ be_bytes 4 removed
response_word (ResponsePayload.lease_granted lease_token none) =
    0x07 ∷ (bytes_word lease_token ++ bool_word false)
response_word (ResponsePayload.lease_granted lease_token (some value)) =
    0x07 ∷ (bytes_word lease_token ++ (bool_word true ++ bytes_word value))
response_word ResponsePayload.lease_denied = 0x08 ∷ []
response_word (ResponsePayload.error code message) =
    0xff ∷ (be_bytes 2 (error_id code) ++ bytes_word message)
response_word (ResponsePayload.batch_get items) =
    0x00 ∷ (be_bytes 4 (length items) ++ words item_word items)

abbrev pub IsItem : BatchItem → Type 0
IsItem (BatchItem.hit value) = IsShort value
IsItem (BatchItem.stale value) = IsShort value
IsItem BatchItem.miss = Unit

abbrev pub IsResponse : ResponsePayload → Type 0
IsResponse (ResponsePayload.hit value) = IsShort value
IsResponse (ResponsePayload.stale value) = IsShort value
IsResponse (ResponsePayload.stored evicted) = evicted < 2 ^ 32
IsResponse (ResponsePayload.invalidated removed) = removed < 2 ^ 32
IsResponse (ResponsePayload.lease_granted lease_token none) = IsText lease_token
IsResponse (ResponsePayload.lease_granted lease_token (some value)) =
    IsText lease_token × IsShort value
IsResponse (ResponsePayload.error code message) = IsText message
IsResponse (ResponsePayload.batch_get items) = All IsItem items × (length items < 2 ^ 32)
IsResponse _ = Unit

-- Only a batch is answered by a batch, and a batch is not answered by a bare success.
abbrev pub Answers : Command → ResponsePayload → Type 0
Answers Command.batch_get ResponsePayload.done = ⊥
Answers Command.batch_get _ = Unit
Answers command (ResponsePayload.batch_get items) = ⊥
Answers command _ = Unit

-- The 24 bytes before a payload of so many bytes.
unfoldable pub header_word : ℕ → Command → ℕ → ℕ → Bytes
header_word kind command request_id payload_len =
    magic
    ++ (version
        ∷ kind
        ∷ command_id command
        ∷ 0
        ∷ (be_bytes 8 request_id ++ (be_bytes 4 payload_len ++ be_bytes 4 0)))
