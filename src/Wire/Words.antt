-- ===== src/Wire/Words.antt =====
-- The decoders of crates/cachebox-protocol/src/lib.rs take back the words of the wire format.
use cachebox.Prelude.{
  All-map, is_empty, ℕ, ◌^◌, ◌<◌, ◌≡◌, refl, ap, Bool, true, false, Option, none, some, [], ◌∷◌,
  arith, ◌==◌, if◌then◌else◌, is_some, length,
}
use cachebox.Bytes.{Bytes, Text, Ttl}
use cachebox.Wire.Types.{
  Command, ContentType, octet_stream, other, Metadata, RequestPayload, BatchItem, ErrorCode,
  ResponsePayload, error_id, error_from_id, command_of,
}
use cachebox.Wire.Utf8.{is_utf8-namespace, is_utf8-tag}
use cachebox.Wire.Cursor.{Reader, ◌>>◌, read_bytes}
use cachebox.Wire.Cursor.Laws.{Reads, Reads-pure, Reads-pure_eq, Reads-bind, Reads-last, Reads-u8}
use cachebox.Wire.Cursor.Fields.{
  Reads-u16, Reads-u32, Reads-u64, Reads-bool, bytes_word, Reads-bytes, Reads-string, Reads-many,
}
use cachebox.Wire.Encode.{millis, or_zero, content_type_id}
use cachebox.Wire.Decode.{
  read_namespace, read_tag, nonzero, ttl_of, content_type_of, read_metadata, refuse_if,
  decode_request_payload, read_item, is_batch_get, read_stale_value, error_code_of, response_of,
  decode_response_payload,
}
use cachebox.Wire.Format.{
  IsShort, IsTag, IsNamespace, IsPositive, IsTtl, IsCost, IsMetadata, IsRequest, IsItem, IsResponse,
  Answers, metadata_word, request_word, item_word, response_word,
}

Reads-namespace :
    (namespace : Text)
    → IsNamespace namespace
    → Reads read_namespace (bytes_word namespace) namespace
unfolding read_namespace
Reads-namespace namespace h =
    Reads-last _ (Reads-string namespace (is_utf8-namespace namespace h.0) h.1)
      (rw h.0 (Reads-pure namespace))

Reads-tag : (tag : Text) → IsTag tag → Reads read_tag (bytes_word tag) tag
unfolding read_tag
Reads-tag tag h =
    Reads-last _ (Reads-string tag (is_utf8-tag tag h.0) h.1) (rw h.0 (Reads-pure tag))

ttl_of-millis : (ttl : Option Ttl) → IsTtl ttl → ttl_of (millis ttl) ≡ ttl
ttl_of-millis none h = refl
ttl_of-millis (some ttl) h = ground (arith, h)

nonzero-or_zero : (n : Option ℕ) → IsPositive n → nonzero (or_zero n) ≡ n
nonzero-or_zero none h = refl
nonzero-or_zero (some n) h = ground (arith, h)

millis-lt : (ttl : Option Ttl) → IsTtl ttl → millis ttl < 2 ^ 64
millis-lt none h = omega arith
millis-lt (some ttl) h = h.1

cost_back : (cost : Option ℕ) → (if is_some cost then some (or_zero cost) else none) ≡ cost
cost_back none = refl
cost_back (some n) = refl

or_zero-lt : (cost : Option ℕ) → IsCost cost → or_zero cost < 2 ^ 64
or_zero-lt none h = omega arith
or_zero-lt (some n) h = h

positive-lt : (n : Option ℕ) → IsPositive n → or_zero n < 2 ^ 64
positive-lt none h = omega arith
positive-lt (some n) h = h.1

Reads-content_type : (t : ContentType) → Reads (content_type_of (content_type_id t)) [] t
unfolding content_type_of content_type_id
Reads-content_type octet_stream = Reads-pure octet_stream
Reads-content_type other = Reads-pure other

Reads-metadata : (m : Metadata) → IsMetadata m → Reads read_metadata (metadata_word m) m
unfolding read_metadata metadata_word
Reads-metadata m h =
    let tags =
      Reads-many read_tag bytes_word m.tags
        (All-map IsTag (λ x. Reads read_tag (bytes_word x) x) m.tags Reads-tag h.tags) in
    let back : record {
      ttl = ttl_of (millis m.ttl);
      stale_ttl = ttl_of (millis m.stale_ttl);
      cost = if is_some m.cost then some (or_zero m.cost) else none;
      tags = m.tags;
      content_type = m.content_type;
    }
        ≡ m =
      rw (ttl_of-millis m.ttl h.ttl)
        (rw (ttl_of-millis m.stale_ttl h.stale_ttl) (rw (cost_back m.cost) refl)) in
    Reads-bind _ (Reads-u64 _ (millis-lt m.ttl h.ttl)) (
      Reads-bind _ (Reads-u64 _ (millis-lt m.stale_ttl h.stale_ttl)) (
        Reads-bind _ (Reads-bool _) (
          Reads-bind _ (Reads-u64 _ (or_zero-lt m.cost h.cost)) (
            Reads-bind _ (Reads-u16 _ h.tag_count) (
              Reads-bind _ tags (
                Reads-last _ (Reads-u8 _)
                  (Reads-last _ (Reads-content_type m.content_type) (Reads-pure_eq back))))))))

Reads-refuse_if {ℓ} :
    {A : Type ℓ} (b : Bool) (message : _) (m : Reader A) (w : Bytes) (a : A)
    → b ≡ false
    → Reads m w a
    → Reads (refuse_if b message >> m) w a
unfolding refuse_if
Reads-refuse_if b message m w a e r = rw e (Reads-bind (λ _. m) (Reads-pure tt) r)

is_empty-pos : (text : Text) → 0 < length text → is_empty text ≡ false
is_empty-pos [] h = ground (arith, h)
is_empty-pos (x ∷ xs) h = refl

not_zero : (n : ℕ) → 0 < n → (n == 0) ≡ false
not_zero n h = ground (arith, h)

-- Decoding the word of a payload that the wire can carry gives the payload, and reads the word to its end.
pub Reads-request :
    (payload : RequestPayload)
    → IsRequest payload
    → Reads (decode_request_payload (command_of payload)) (request_word payload) payload
unfolding decode_request_payload request_word command_of
Reads-request (RequestPayload.get namespace key) h =
    Reads-bind _ (Reads-namespace namespace h.0) (Reads-last _ (Reads-bytes key h.1) (Reads-pure _))
Reads-request (RequestPayload.delete namespace key) h =
    Reads-bind _ (Reads-namespace namespace h.0) (Reads-last _ (Reads-bytes key h.1) (Reads-pure _))
Reads-request (RequestPayload.put namespace key metadata value) h =
    Reads-bind _ (Reads-namespace namespace h.0) (
      Reads-bind _ (Reads-bytes key h.1) (
        Reads-bind _ (Reads-metadata metadata h.2)
          (Reads-last _ (Reads-bytes value h.3) (Reads-pure _))))
Reads-request (RequestPayload.batch_get namespace keys) h =
    let many =
      Reads-many read_bytes bytes_word keys
        (All-map IsShort (λ x. Reads read_bytes (bytes_word x) x) keys Reads-bytes h.1) in
    Reads-bind _ (Reads-namespace namespace h.0) (
      Reads-bind _ (Reads-u32 (length keys) h.3)
        (Reads-refuse_if _ _ _ _ _ (not_zero (length keys) h.2) (Reads-last _ many (Reads-pure _))))
Reads-request (RequestPayload.tag_invalidate namespace tag) h =
    Reads-bind _ (Reads-namespace namespace h.0) (Reads-last _ (Reads-tag tag h.1) (Reads-pure _))
Reads-request (RequestPayload.lease_start namespace key lease_ttl_ms allow_stale_ms) h =
    Reads-bind _ (Reads-namespace namespace h.0) (
      Reads-bind _ (Reads-bytes key h.1) (
        Reads-bind _ (Reads-u64 lease_ttl_ms h.3) (
          Reads-refuse_if _ _ _ _ _ (not_zero lease_ttl_ms h.2) (
            Reads-last _ (Reads-u64 (or_zero allow_stale_ms) (positive-lt allow_stale_ms h.4)) (
              Reads-pure_eq (
                ap (RequestPayload.lease_start namespace key lease_ttl_ms)
                  (nonzero-or_zero allow_stale_ms h.4)))))))
Reads-request (RequestPayload.lease_complete namespace key lease_token metadata value) h =
    Reads-bind _ (Reads-namespace namespace h.0) (
      Reads-bind _ (Reads-bytes key h.1) (
        Reads-bind _ (Reads-string lease_token h.2.0 h.2.1) (
          Reads-refuse_if _ _ _ _ _ (is_empty-pos lease_token h.3) (
            Reads-bind _ (Reads-metadata metadata h.4)
              (Reads-last _ (Reads-bytes value h.5) (Reads-pure _))))))

Reads-item : (item : BatchItem) → IsItem item → Reads read_item (item_word item) item
unfolding read_item item_word
Reads-item (BatchItem.hit value) h =
    Reads-bind _ (Reads-u8 0x01) (Reads-last _ (Reads-bytes value h) (Reads-pure _))
Reads-item (BatchItem.stale value) h =
    Reads-bind _ (Reads-u8 0x02) (Reads-last _ (Reads-bytes value h) (Reads-pure _))
Reads-item BatchItem.miss h = Reads-bind _ (Reads-u8 0x03) (Reads-pure _)

Reads-error_code : (code : ErrorCode) → Reads (error_code_of (error_id code)) [] code
unfolding error_code_of error_id error_from_id
Reads-error_code ErrorCode.bad_frame = Reads-pure _
Reads-error_code ErrorCode.unsupported_version = Reads-pure _
Reads-error_code ErrorCode.unknown_command = Reads-pure _
Reads-error_code ErrorCode.invalid_namespace = Reads-pure _
Reads-error_code ErrorCode.invalid_tag = Reads-pure _
Reads-error_code ErrorCode.invalid_ttl = Reads-pure _
Reads-error_code ErrorCode.value_too_large = Reads-pure _
Reads-error_code ErrorCode.entry_too_large = Reads-pure _
Reads-error_code ErrorCode.insufficient_memory = Reads-pure _
Reads-error_code ErrorCode.invalid_lease_token = Reads-pure _
Reads-error_code ErrorCode.frame_too_large = Reads-pure _

error_id-lt : (code : ErrorCode) → error_id code < 2 ^ 16
unfolding error_id
error_id-lt code = ground arith

-- So does decoding the word of an answer to the command.
pub Reads-response :
    (payload : ResponsePayload) (command : Command)
    → IsResponse payload
    → Answers command payload
    → Reads (decode_response_payload command) (response_word payload) payload
unfolding decode_response_payload response_word response_of is_batch_get read_stale_value
Reads-response (ResponsePayload.hit value) command h answers =
    Reads-bind _ (Reads-u8 0x01) (Reads-last _ (Reads-bytes value h) (Reads-pure _))
Reads-response (ResponsePayload.stale value) command h answers =
    Reads-bind _ (Reads-u8 0x02) (Reads-last _ (Reads-bytes value h) (Reads-pure _))
Reads-response ResponsePayload.miss command h answers = Reads-bind _ (Reads-u8 0x03) (Reads-pure _)
Reads-response (ResponsePayload.stored evicted) command h answers =
    Reads-bind _ (Reads-u8 0x04) (Reads-last _ (Reads-u32 evicted h) (Reads-pure _))
Reads-response (ResponsePayload.deleted removed) command h answers =
    Reads-bind _ (Reads-u8 0x05) (Reads-last _ (Reads-bool removed) (Reads-pure _))
Reads-response (ResponsePayload.invalidated removed) command h answers =
    Reads-bind _ (Reads-u8 0x06) (Reads-last _ (Reads-u32 removed h) (Reads-pure _))
Reads-response (ResponsePayload.lease_granted lease_token none) command h answers =
    Reads-bind _ (Reads-u8 0x07) (
      Reads-bind _ (Reads-string lease_token h.0 h.1)
        (Reads-last _ (Reads-bool false) (Reads-last _ (Reads-pure none) (Reads-pure _))))
Reads-response (ResponsePayload.lease_granted lease_token (some value)) command h answers =
    Reads-bind _ (Reads-u8 0x07) (
      Reads-bind _ (Reads-string lease_token h.0.0 h.0.1) (
        Reads-bind _ (Reads-bool true) (
          Reads-last _ (Reads-last _ (Reads-bytes value h.1) (Reads-pure (some value)))
            (Reads-pure _))))
Reads-response ResponsePayload.lease_denied command h answers =
    Reads-bind _ (Reads-u8 0x08) (Reads-pure _)
Reads-response (ResponsePayload.error code message) command h answers =
    Reads-bind _ (Reads-u8 0xff) (
      Reads-bind _ (Reads-u16 (error_id code) (error_id-lt code)) (
        Reads-bind _ (Reads-error_code code)
          (Reads-last _ (Reads-string message h.0 h.1) (Reads-pure _))))
Reads-response (ResponsePayload.batch_get items) Command.batch_get h answers =
    let many =
      Reads-many read_item item_word items
        (All-map IsItem (λ x. Reads read_item (item_word x) x) items Reads-item h.0) in
    Reads-bind _ (Reads-u8 0x00)
      (Reads-bind _ (Reads-u32 (length items) h.1) (Reads-last _ many (Reads-pure _)))
Reads-response ResponsePayload.done Command.batch_get h answers = ground arith
Reads-response (ResponsePayload.batch_get items) Command.get h answers = ground arith
Reads-response ResponsePayload.done Command.get h answers =
    Reads-bind _ (Reads-u8 0x00) (Reads-pure _)
Reads-response (ResponsePayload.batch_get items) Command.put h answers = ground arith
Reads-response ResponsePayload.done Command.put h answers =
    Reads-bind _ (Reads-u8 0x00) (Reads-pure _)
Reads-response (ResponsePayload.batch_get items) Command.delete h answers = ground arith
Reads-response ResponsePayload.done Command.delete h answers =
    Reads-bind _ (Reads-u8 0x00) (Reads-pure _)
Reads-response (ResponsePayload.batch_get items) Command.tag_invalidate h answers = ground arith
Reads-response ResponsePayload.done Command.tag_invalidate h answers =
    Reads-bind _ (Reads-u8 0x00) (Reads-pure _)
Reads-response (ResponsePayload.batch_get items) Command.lease_start h answers = ground arith
Reads-response ResponsePayload.done Command.lease_start h answers =
    Reads-bind _ (Reads-u8 0x00) (Reads-pure _)
Reads-response (ResponsePayload.batch_get items) Command.lease_complete h answers = ground arith
Reads-response ResponsePayload.done Command.lease_complete h answers =
    Reads-bind _ (Reads-u8 0x00) (Reads-pure _)
