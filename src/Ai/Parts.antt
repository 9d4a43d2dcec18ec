-- ===== src/Ai/Parts.antt =====
-- What the normal forms of clients/rust/cachebox-client/src/ai.rs write down, and its words.
use cachebox.Prelude.{ℕ, ◌^◌, ◌<◌, List, [], ◌++◌, length, All}
use cachebox.Bytes.{Bytes, Text, text}
use cachebox.Ai.Json.{Item}
use cachebox.Ai.Keys.{prompt_normalization_version, embedding_normalization_version}
use cachebox.Ai.Words.{IsSmall, word, number_word}
use cachebox.Ai.Steps.{MessageParts, message_words, map_word}

-- What a prompt's normal form writes down.
pub record PromptParts : Type 0 where
  pub provider : Text
  pub model : Text
  pub model_version : Text
  pub system_prompt : Text
  pub tool_schema : Text
  pub sampling_parameters : List Item
  pub output_format : Text
  pub retrieval_context_hash : Text
  pub application_namespace : Text
  pub messages : List MessageParts

pub record EmbeddingParts : Type 0 where
  pub model : Text
  pub model_version : Text
  pub input_content_hash : Text
  pub normalization_settings : List Item
  pub chunking_strategy : Text
  pub dimensions : ℕ
  pub application_namespace : Text

abbrev pub IsItem : Item → Type 0
IsItem item = IsSmall item.0 × IsSmall item.1

abbrev pub IsMessage : MessageParts → Type 0
IsMessage m = IsSmall m.role × IsSmall m.name × IsSmall m.content

-- No length reaches 2 to the 64.
pub record IsPrompt (p : PromptParts) : Type 0 where
  pub provider : IsSmall p.provider
  pub model : IsSmall p.model
  pub model_version : IsSmall p.model_version
  pub system_prompt : IsSmall p.system_prompt
  pub tool_schema : IsSmall p.tool_schema
  pub parameter_count : IsSmall p.sampling_parameters
  pub sampling_parameters : All IsItem p.sampling_parameters
  pub output_format : IsSmall p.output_format
  pub retrieval_context_hash : IsSmall p.retrieval_context_hash
  pub application_namespace : IsSmall p.application_namespace
  pub message_count : IsSmall p.messages
  pub messages : All IsMessage p.messages

pub record IsEmbedding (p : EmbeddingParts) : Type 0 where
  pub model : IsSmall p.model
  pub model_version : IsSmall p.model_version
  pub input_content_hash : IsSmall p.input_content_hash
  pub setting_count : IsSmall p.normalization_settings
  pub normalization_settings : All IsItem p.normalization_settings
  pub chunking_strategy : IsSmall p.chunking_strategy
  pub dimensions : p.dimensions < 2 ^ 64
  pub application_namespace : IsSmall p.application_namespace

unfoldable pub prompt_words : PromptParts → Bytes
prompt_words p =
    word (text "version") prompt_normalization_version
    ++ (word (text "provider") p.provider
        ++ (word (text "model") p.model
            ++ (word (text "model_version") p.model_version
                ++ (word (text "system_prompt") p.system_prompt
                    ++ (word (text "tool_schema") p.tool_schema
                        ++ (map_word (text "sampling_parameters") (text "sampling.name")
                              (text "sampling.value") p.sampling_parameters
                            ++ (word (text "output_format") p.output_format
                                ++ (word (text "retrieval_context_hash") p.retrieval_context_hash
                                    ++ (word (text "application_namespace") p.application_namespace
                                        ++ (number_word (length p.messages)
                                            ++ (message_words p.messages ++ [])))))))))))

unfoldable pub embedding_words : EmbeddingParts → Bytes
embedding_words p =
    word (text "version") embedding_normalization_version
    ++ (word (text "model") p.model
        ++ (word (text "model_version") p.model_version
            ++ (word (text "input_content_hash") p.input_content_hash
                ++ (map_word (text "normalization_settings") (text "normalization.name")
                      (text "normalization.value") p.normalization_settings
                    ++ (word (text "chunking_strategy") p.chunking_strategy
                        ++ (number_word p.dimensions
                            ++ (word (text "application_namespace") p.application_namespace
                                ++ [])))))))
