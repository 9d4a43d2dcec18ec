-- ===== src/Ai/Normal.antt =====
-- The normal forms of clients/rust/cachebox-client/src/ai.rs determine the parts that they write down.
use cachebox.Prelude.{◌≡◌, sym, ap, ◌∙◌, ◌↔◌, List, [], ◌∷◌}
use cachebox.Bytes.{Text, text}
use cachebox.Ai.Keys.{
  PromptCacheKeyInput, EmbeddingCacheKeyInput, prompt_normalization_version,
  embedding_normalization_version, normalize_prompt_input, normalize_embedding_input,
}
use cachebox.Ai.Steps.{
  Step, run, words, run-words, of_number, of_bytes, of_optional, of_count, of_messages, of_json,
  of_map, shown, shown_json, items_of, message_parts, Step,
}
use cachebox.Ai.Parts.{
  EmbeddingParts, IsEmbedding, IsPrompt, PromptParts, embedding_words, prompt_words,
}
use cachebox.Ai.Cancel.{embedding_words-injective, prompt_words-injective}

module _ {Number : Type 0} (to_string : Number → Text) (quote : Text → Text) where
  unfoldable pub prompt_parts : PromptCacheKeyInput Number → PromptParts
  prompt_parts input = record {
    provider = input.provider;
    model = input.model;
    model_version = shown input.model_version;
    system_prompt = shown input.system_prompt;
    tool_schema = shown_json to_string quote input.tool_schema;
    sampling_parameters = items_of to_string quote input.sampling_parameters;
    output_format = shown input.output_format;
    retrieval_context_hash = shown input.retrieval_context_hash;
    application_namespace = input.application_namespace;
    messages = message_parts input.messages;
  }

  unfoldable pub embedding_parts : EmbeddingCacheKeyInput Number → EmbeddingParts
  embedding_parts input = record {
    model = input.model;
    model_version = shown input.model_version;
    input_content_hash = input.input_content_hash;
    normalization_settings = items_of to_string quote input.normalization_settings;
    chunking_strategy = input.chunking_strategy;
    dimensions = input.dimensions;
    application_namespace = input.application_namespace;
  }

  -- The steps of `normalize_prompt_input`, in its order.
  prompt_steps : PromptCacheKeyInput Number → List Step
  prompt_steps input =
      of_bytes (text "version") prompt_normalization_version
      ∷ of_bytes (text "provider") input.provider
      ∷ of_bytes (text "model") input.model
      ∷ of_optional (text "model_version") input.model_version
      ∷ of_optional (text "system_prompt") input.system_prompt
      ∷ of_json to_string quote (text "tool_schema") input.tool_schema
      ∷ of_map to_string quote (text "sampling_parameters") (text "sampling.name")
          (text "sampling.value") input.sampling_parameters
      ∷ of_optional (text "output_format") input.output_format
      ∷ of_optional (text "retrieval_context_hash") input.retrieval_context_hash
      ∷ of_bytes (text "application_namespace") input.application_namespace
      ∷ of_count input.messages
      ∷ of_messages input.messages
      ∷ []

  embedding_steps : EmbeddingCacheKeyInput Number → List Step
  embedding_steps input =
      of_bytes (text "version") embedding_normalization_version
      ∷ of_bytes (text "model") input.model
      ∷ of_optional (text "model_version") input.model_version
      ∷ of_bytes (text "input_content_hash") input.input_content_hash
      ∷ of_map to_string quote (text "normalization_settings") (text "normalization.name")
          (text "normalization.value") input.normalization_settings
      ∷ of_bytes (text "chunking_strategy") input.chunking_strategy
      ∷ of_number input.dimensions
      ∷ of_bytes (text "application_namespace") input.application_namespace
      ∷ []

  normalize_prompt_input-words :
      (input : PromptCacheKeyInput Number)
      → normalize_prompt_input to_string quote input ≡ prompt_words (prompt_parts input)
  unfolding normalize_prompt_input prompt_steps run words prompt_words prompt_parts of_bytes
      of_optional of_json of_map of_count of_messages
  normalize_prompt_input-words input = run-words (prompt_steps input) []

  normalize_embedding_input-words :
      (input : EmbeddingCacheKeyInput Number)
      → normalize_embedding_input to_string quote input ≡ embedding_words (embedding_parts input)
  unfolding normalize_embedding_input embedding_steps run words embedding_words embedding_parts
      of_bytes of_optional of_map of_number
  normalize_embedding_input-words input = run-words (embedding_steps input) []

  -- Two prompts have the same normal form exactly if the parts that are written down are the same.
  pub normalize_prompt_input-injective :
      (a b : PromptCacheKeyInput Number)
      → IsPrompt (prompt_parts a)
      → IsPrompt (prompt_parts b)
      → (normalize_prompt_input to_string quote a ≡ normalize_prompt_input to_string quote b)
        ↔ (prompt_parts a ≡ prompt_parts b)
  normalize_prompt_input-injective a b ha hb = (
    λ e.
        prompt_words-injective (prompt_parts a) (prompt_parts b) ha hb
          (sym (normalize_prompt_input-words a) ∙ (e ∙ normalize_prompt_input-words b)),
    λ e.
        normalize_prompt_input-words a ∙ (ap prompt_words e ∙ sym (normalize_prompt_input-words b)),
  )

  -- The same of embeddings.
  pub normalize_embedding_input-injective :
      (a b : EmbeddingCacheKeyInput Number)
      → IsEmbedding (embedding_parts a)
      → IsEmbedding (embedding_parts b)
      → (normalize_embedding_input to_string quote a ≡ normalize_embedding_input to_string quote b)
        ↔ (embedding_parts a ≡ embedding_parts b)
  normalize_embedding_input-injective a b ha hb = (
    λ e.
        embedding_words-injective (embedding_parts a) (embedding_parts b) ha hb
          (sym (normalize_embedding_input-words a) ∙ (e ∙ normalize_embedding_input-words b)),
    λ e.
        normalize_embedding_input-words a
        ∙ (ap embedding_words e ∙ sym (normalize_embedding_input-words b)),
  )
