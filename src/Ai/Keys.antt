-- ===== src/Ai/Keys.antt =====
-- The cache keys of clients/rust/cachebox-client/src/ai.rs: the inputs, their normal forms, and the digest.
use cachebox.Prelude.{
  ℕ, zero, suc, ◌+◌, ◌-◌, ◌*◌, ◌/◌, ◌%◌, ◌^◌, Option, none, some, List, [], ◌∷◌, ◌++◌, ltb,
  if◌then◌else◌, length,
}
use Prim.Native.Nat.{bit_xor}
use cachebox.Bytes.{Bytes, Text, text}
use cachebox.Wire.Encode.{be_bytes}
use cachebox.Ai.Json.{Value, canonical_json}

abbrev pub prompt_key_prefix : Bytes
prompt_key_prefix = text "ai:prompt:v1:"

abbrev pub embedding_key_prefix : Bytes
embedding_key_prefix = text "ai:embedding:v1:"

abbrev pub prompt_normalization_version : Bytes
prompt_normalization_version = text "cachebox.ai.prompt.v1"

abbrev pub embedding_normalization_version : Bytes
embedding_normalization_version = text "cachebox.ai.embedding.v1"

abbrev pub fnv_offset_basis : ℕ
fnv_offset_basis = 0x6c62272e07bb014262b821756295c58d

abbrev pub fnv_prime : ℕ
fnv_prime = 0x0000000001000000000000000000013b

pub record PromptMessage : Type 0 where
  pub role : Text
  pub content : Text
  pub name : Option Text

-- `PromptMessage::new` and `with_name`
unfoldable pub new_message : Text → Text → PromptMessage
new_message role content = record { role = role; content = content; name = none }

unfoldable pub with_name : Text → PromptMessage → PromptMessage
with_name name message = record message { name = some name }

-- A `BTreeMap` stands as the list of its pairs in the order of its keys.
pub record PromptCacheKeyInput (Number : Type 0) : Type 0 where
  pub provider : Text
  pub model : Text
  pub model_version : Option Text
  pub messages : List PromptMessage
  pub system_prompt : Option Text
  pub tool_schema : Option (Value Number)
  pub sampling_parameters : List (Text × Value Number)
  pub output_format : Option Text
  pub retrieval_context_hash : Option Text
  pub application_namespace : Text

pub record EmbeddingCacheKeyInput (Number : Type 0) : Type 0 where
  pub model : Text
  pub model_version : Option Text
  pub input_content_hash : Text
  pub normalization_settings : List (Text × Value Number)
  pub chunking_strategy : Text
  pub dimensions : ℕ
  pub application_namespace : Text

unfoldable pub new_prompt : {Number : Type 0} → Text → Text → Text → PromptCacheKeyInput Number
new_prompt provider model application_namespace = record {
  provider = provider;
  model = model;
  model_version = none;
  messages = [];
  system_prompt = none;
  tool_schema = none;
  sampling_parameters = [];
  output_format = none;
  retrieval_context_hash = none;
  application_namespace = application_namespace;
}

unfoldable pub new_embedding :
    {Number : Type 0} → Text → Text → Text → ℕ → Text → EmbeddingCacheKeyInput Number
new_embedding model input_content_hash chunking_strategy dimensions application_namespace = record {
  model = model;
  model_version = none;
  input_content_hash = input_content_hash;
  normalization_settings = [];
  chunking_strategy = chunking_strategy;
  dimensions = dimensions;
  application_namespace = application_namespace;
}

-- `value.to_be_bytes()`; a length is cast to 64 bits.
unfoldable pub append_u64 : ℕ → Bytes → Bytes
append_u64 value out = out ++ be_bytes 8 (value % 2 ^ 64)

unfoldable pub append_bytes : Bytes → Bytes → Bytes → Bytes
unfolding append_u64
append_bytes field value out =
    append_u64 (length value) (append_u64 (length field) out ++ field) ++ value

abbrev pub absent : Text
absent = text "<none>"

unfoldable pub append_optional_str : Bytes → Option Text → Bytes → Bytes
append_optional_str field (some value) out = append_bytes field value out
append_optional_str field none out = append_bytes field absent out

-- The loop over the messages
unfoldable pub append_messages : List PromptMessage → Bytes → Bytes
append_messages [] out = out
append_messages (message ∷ messages) out = append_messages messages (
    append_bytes (text "message.content") message.content (
      append_optional_str (text "message.name") message.name
        (append_bytes (text "message.role") message.role out)))

module _ {Number : Type 0} (to_string : Number → Text) (quote : Text → Text) where
  unfoldable pub append_json : Bytes → Option (Value Number) → Bytes → Bytes
  append_json field (some value) out = append_bytes field (canonical_json to_string quote value) out
  append_json field none out = append_bytes field absent out

  -- The loop over the pairs of a map
  unfoldable pub append_pairs : Bytes → Bytes → List (Text × Value Number) → Bytes → Bytes
  append_pairs key_field value_field [] out = out
  append_pairs key_field value_field ((name, value) ∷ values) out =
      append_pairs key_field value_field values (
        append_bytes value_field (canonical_json to_string quote value)
          (append_bytes key_field name out))

  unfoldable pub append_json_map :
      Bytes → Bytes → Bytes → List (Text × Value Number) → Bytes → Bytes
  append_json_map field key_field value_field values out =
      append_pairs key_field value_field values
        (append_u64 (length values) (append_bytes field (text "map") out))

  unfoldable pub normalize_prompt_input : PromptCacheKeyInput Number → Bytes
  normalize_prompt_input input = append_messages input.messages (
      append_u64 (length input.messages) (
        append_bytes (text "application_namespace") input.application_namespace (
          append_optional_str (text "retrieval_context_hash") input.retrieval_context_hash (
            append_optional_str (text "output_format") input.output_format (
              append_json_map (text "sampling_parameters") (text "sampling.name")
                (text "sampling.value") input.sampling_parameters
                (append_json (text "tool_schema") input.tool_schema (
                  append_optional_str (text "system_prompt") input.system_prompt (
                    append_optional_str (text "model_version") input.model_version (
                      append_bytes (text "model") input.model (
                        append_bytes (text "provider") input.provider
                          (append_bytes (text "version") prompt_normalization_version [])))))))))))

  unfoldable pub normalize_embedding_input : EmbeddingCacheKeyInput Number → Bytes
  normalize_embedding_input input =
      append_bytes (text "application_namespace") input.application_namespace (
        append_u64 input.dimensions (
          append_bytes (text "chunking_strategy") input.chunking_strategy (
            append_json_map (text "normalization_settings") (text "normalization.name")
              (text "normalization.value") input.normalization_settings
              (append_bytes (text "input_content_hash") input.input_content_hash (
                append_optional_str (text "model_version") input.model_version (
                  append_bytes (text "model") input.model
                    (append_bytes (text "version") embedding_normalization_version [])))))))

-- `fold` with `(hash ^ byte).wrapping_mul(FNV_PRIME)`
unfoldable pub fnv_from : ℕ → Bytes → ℕ
fnv_from hash [] = hash
fnv_from hash (byte ∷ bytes) = fnv_from (bit_xor hash byte * fnv_prime % 2 ^ 128) bytes

unfoldable pub fnv1a_128 : Bytes → ℕ
fnv1a_128 bytes = fnv_from fnv_offset_basis bytes

-- `HEX[nibble]`
unfoldable pub hex_digit : ℕ → ℕ
hex_digit n = if ltb n 10 then b'0' + n else b'a' + (n - 10)

-- So many nibbles of a number, the highest first: the loop over the shifts.
unfoldable pub hex : ℕ → ℕ → Bytes
hex zero value = []
hex (suc count) value = hex count (value / 16) ++ hex_digit (value % 16) ∷ []

unfoldable pub write_hex_u128 : ℕ → Bytes → Bytes
write_hex_u128 value out = out ++ hex 32 value

unfoldable pub digest_key : Bytes → ℕ → Bytes
digest_key prefix digest = write_hex_u128 digest prefix

module _ {Number : Type 0} (to_string : Number → Text) (quote : Text → Text) where
  unfoldable pub prompt_cache_key : PromptCacheKeyInput Number → Bytes
  prompt_cache_key input =
      digest_key prompt_key_prefix (fnv1a_128 (normalize_prompt_input to_string quote input))

  unfoldable pub embedding_cache_key : EmbeddingCacheKeyInput Number → Bytes
  embedding_cache_key input =
      digest_key embedding_key_prefix (fnv1a_128 (normalize_embedding_input to_string quote input))
