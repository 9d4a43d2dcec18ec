-- ===== src/Wire/Appends.antt =====
-- The encoder of crates/cachebox-protocol/src/lib.rs appends the words of the wire format.
use cachebox.Prelude.{
  All-map, ℕ, ◌%◌, ◌^◌, ◌<◌, ◌≡◌, refl, sym, ◌∙◌, none, some, List, [], ◌∷◌, ◌++◌, append-nil,
  append_assoc, arith, length, All,
}
use mathlib.Core.List.{foldl}
use cachebox.Bytes.{Bytes, Text}
use cachebox.Wire.Types.{Metadata, RequestPayload, BatchItem, ResponsePayload}
use cachebox.Wire.Cursor.Fields.{bytes_word, words}
use cachebox.Wire.Encode.{
  be_bytes, push, write_u16, write_u32, write_u64, write_bool, write_bytes, write_string,
  write_metadata, encode_request_payload, write_item, encode_response_payload,
}
use cachebox.Wire.Format.{
  IsShort, IsTag, IsMetadata, IsRequest, IsItem, IsResponse, metadata_word, request_word, item_word,
  response_word,
}

write_bytes-append :
    (out value : Bytes) → IsShort value → write_bytes out value ≡ out ++ bytes_word value
unfolding write_bytes write_u32
write_bytes-append out value h =
    let low : length value % 2 ^ 32 ≡ length value = omega arith in
    rw low (append_assoc out (be_bytes 4 (length value)) value)

write_string-append :
    (out value : Bytes) → IsShort value → write_string out value ≡ out ++ bytes_word value
unfolding write_string
write_string-append out value h = write_bytes-append out value h

foldl-append_words {ℓ} :
    {A : Type ℓ} (write : Bytes → A → Bytes) (word : A → Bytes) (out : Bytes) (xs : List A)
    → All (λ x. (out : Bytes) → write out x ≡ out ++ word x) xs
    → foldl write out xs ≡ out ++ words word xs
unfolding words
foldl-append_words write word out [] h = sym (append-nil out)
foldl-append_words write word out (x ∷ xs) h = rw (h.0 out) (
    foldl-append_words write word (out ++ word x) xs h.1
    ∙ append_assoc out (word x) (words word xs))

write_tags-append :
    (out : Bytes) (tags : List Text)
    → All IsTag tags
    → foldl write_string out tags ≡ out ++ words bytes_word tags
write_tags-append out tags h = foldl-append_words write_string bytes_word out tags (
    All-map IsTag (λ x. (out : Bytes) → write_string out x ≡ out ++ bytes_word x) tags
      (λ x p out. write_string-append out x p.1) h)

write_keys-append :
    (out : Bytes) (keys : List Bytes)
    → All IsShort keys
    → foldl write_bytes out keys ≡ out ++ words bytes_word keys
write_keys-append out keys h = foldl-append_words write_bytes bytes_word out keys (
    All-map IsShort (λ x. (out : Bytes) → write_bytes out x ≡ out ++ bytes_word x) keys
      (λ x p out. write_bytes-append out x p) h)

pub write_metadata-append :
    (out : Bytes) (m : Metadata) → IsMetadata m → write_metadata out m ≡ out ++ metadata_word m
unfolding write_metadata metadata_word write_u64 write_u16 write_bool push
write_metadata-append out m h =
    let low : length m.tags % 2 ^ 16 ≡ length m.tags = omega (arith, h.tag_count) in
    rw low (rw (write_tags-append _ m.tags h.tags) (simp append_assoc))

write_u64-append : (out : Bytes) (n : ℕ) → write_u64 out n ≡ out ++ be_bytes 8 n
unfolding write_u64
write_u64-append out n = refl

write_count-append :
    (out : Bytes) (n : ℕ) → n < 2 ^ 32 → write_u32 out (n % 2 ^ 32) ≡ out ++ be_bytes 4 n
unfolding write_u32
write_count-append out n h = let low : n % 2 ^ 32 ≡ n = omega arith in rw low refl

-- The head that most requests share.
write_head-append :
    (out namespace key : Bytes)
    → IsShort namespace
    → IsShort key
    → write_bytes (write_string out namespace) key ≡ (out ++ bytes_word namespace) ++ bytes_word key
write_head-append out namespace key h k =
    rw (write_string-append out namespace h)
      (write_bytes-append (out ++ bytes_word namespace) key k)

-- Encoding a payload that the wire can carry appends its word.
pub encode_request_payload-append :
    (payload : RequestPayload) (out : Bytes)
    → IsRequest payload
    → encode_request_payload payload out ≡ out ++ request_word payload
unfolding encode_request_payload request_word
encode_request_payload-append (RequestPayload.get namespace key) out h =
    rw (write_head-append out namespace key h.0.1 h.1) (append_assoc out _ _)
encode_request_payload-append (RequestPayload.delete namespace key) out h =
    rw (write_head-append out namespace key h.0.1 h.1) (append_assoc out _ _)
encode_request_payload-append (RequestPayload.put namespace key metadata value) out h =
    rw (write_head-append out namespace key h.0.1 h.1) (
      rw (write_metadata-append _ metadata h.2)
        (rw (write_bytes-append _ value h.3) (simp append_assoc)))
encode_request_payload-append (RequestPayload.batch_get namespace keys) out h =
    rw (write_string-append out namespace h.0.1) (
      rw (write_count-append _ (length keys) h.3)
        (rw (write_keys-append _ keys h.1) (simp append_assoc)))
encode_request_payload-append (RequestPayload.tag_invalidate namespace tag) out h =
    rw (write_string-append out namespace h.0.1)
      (rw (write_string-append _ tag h.1.1) (append_assoc out _ _))
encode_request_payload-append (RequestPayload.lease_start namespace key lease_ttl_ms allow_stale_ms)
      out h =
    rw (write_head-append out namespace key h.0.1 h.1) (simp (write_u64-append, append_assoc))
encode_request_payload-append
      (RequestPayload.lease_complete namespace key lease_token metadata value) out h =
    rw (write_head-append out namespace key h.0.1 h.1) (
      rw (write_string-append _ lease_token h.2.1) (
        rw (write_metadata-append _ metadata h.4)
          (rw (write_bytes-append _ value h.5) (simp append_assoc))))

write_number-append :
    (out : Bytes) (status n : ℕ) → write_u32 (push out status) n ≡ out ++ (status ∷ be_bytes 4 n)
unfolding write_u32 push
write_number-append out status n = append_assoc out (status ∷ []) (be_bytes 4 n)

write_item-append :
    (item : BatchItem) → IsItem item → (out : Bytes) → write_item out item ≡ out ++ item_word item
unfolding write_item item_word push
write_item-append (BatchItem.hit value) h out =
    rw (write_bytes-append _ value h) (append_assoc out _ _)
write_item-append (BatchItem.stale value) h out =
    rw (write_bytes-append _ value h) (append_assoc out _ _)
write_item-append BatchItem.miss h out = refl

write_items-append :
    (out : Bytes) (items : List BatchItem)
    → All IsItem items
    → foldl write_item out items ≡ out ++ words item_word items
write_items-append out items h = foldl-append_words write_item item_word out items (
    All-map IsItem (λ x. (out : Bytes) → write_item out x ≡ out ++ item_word x) items
      write_item-append h)

-- Encoding an answer that the wire can carry appends its word.
pub encode_response_payload-append :
    (payload : ResponsePayload) (out : Bytes)
    → IsResponse payload
    → encode_response_payload payload out ≡ out ++ response_word payload
unfolding encode_response_payload response_word push write_bool write_u16
encode_response_payload-append ResponsePayload.done out h = refl
encode_response_payload-append (ResponsePayload.hit value) out h =
    rw (write_bytes-append _ value h) (append_assoc out _ _)
encode_response_payload-append (ResponsePayload.stale value) out h =
    rw (write_bytes-append _ value h) (append_assoc out _ _)
encode_response_payload-append ResponsePayload.miss out h = refl
encode_response_payload-append (ResponsePayload.stored evicted) out h =
    write_number-append out 0x04 evicted
encode_response_payload-append (ResponsePayload.deleted removed) out h = append_assoc out _ _
encode_response_payload-append (ResponsePayload.invalidated removed) out h =
    write_number-append out 0x06 removed
encode_response_payload-append (ResponsePayload.lease_granted lease_token none) out h =
    rw (write_string-append _ lease_token h.1) (simp append_assoc)
encode_response_payload-append (ResponsePayload.lease_granted lease_token (some value)) out h =
    rw (write_string-append _ lease_token h.0.1)
      (rw (write_bytes-append _ value h.1) (simp append_assoc))
encode_response_payload-append ResponsePayload.lease_denied out h = refl
encode_response_payload-append (ResponsePayload.error code message) out h =
    rw (write_string-append _ message h.1) (simp append_assoc)
encode_response_payload-append (ResponsePayload.batch_get items) out h =
    rw (write_count-append _ (length items) h.1)
      (rw (write_items-append _ items h.0) (simp append_assoc))
