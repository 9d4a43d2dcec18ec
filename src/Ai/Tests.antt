-- ===== src/Ai/Tests.antt =====
-- Runs of clients/rust/cachebox-client/src/ai.rs at concrete inputs.
use cachebox.Prelude.{
  ℕ, ◌+◌, ◌≡◌, refl, ◌≢◌, ◌↔◌, none, some, [], ◌∷◌, ◌++◌, arith, if◌then◌else◌, ok, err, length,
}
use mathlib.Core.List.{Permᴰ}
use cachebox.Bytes.{Text, text}
use cachebox.Ai.Json.{
  Value, Fields, end, field, canonical_json, sort_items, insert_item, less, join,
}
use cachebox.Ai.Keys.{
  PromptCacheKeyInput, EmbeddingCacheKeyInput, normalize_prompt_input, fnv1a_128, prompt_cache_key,
  embedding_cache_key,
}
use cachebox.Ai.Parts.{IsPrompt}
use cachebox.Ai.Normal.{prompt_parts, normalize_prompt_input-injective}
use cachebox.Ai.Digest.{prompt_cache_key_lem}
use cachebox.Ai.Order.{pairs_of, canonical_json-order}
use cachebox.Ai.Capture.{
  chunk, failure, new_capture, observe, finish, has_failed, all_bytes, finish_lem,
  generation_failed,
}
use cachebox.Ai.Steps.{items_of, message_parts, shown_json}

abbrev quoted : Text → Text
quoted t = b'"' ∷ (t ++ b'"' ∷ [])

abbrev prompt : PromptCacheKeyInput ℕ
prompt = record {
  provider = text "p";
  model = text "m";
  model_version = none;
  messages = [];
  system_prompt = none;
  tool_schema = none;
  sampling_parameters = (text "t", Value.number 1) ∷ [];
  output_format = none;
  retrieval_context_hash = none;
  application_namespace = text "n";
}

-- The same prompt with a version that is called like the mark of none.
abbrev lookalike : PromptCacheKeyInput ℕ
lookalike = record prompt { model_version = some (text "<none>") }

abbrev print : ℕ → Text
print n = (b'0' + n) ∷ []

prompt-IsPrompt : IsPrompt (prompt_parts print quoted prompt)
unfolding prompt_parts items_of message_parts shown_json canonical_json
prompt-IsPrompt = record {
  provider = omega arith;
  model = omega arith;
  model_version = omega arith;
  system_prompt = omega arith;
  tool_schema = omega arith;
  parameter_count = omega arith;
  sampling_parameters = ((omega arith, omega arith), tt);
  output_format = omega arith;
  retrieval_context_hash = omega arith;
  application_namespace = omega arith;
  message_count = omega arith;
  messages = tt;
}

lookalike-IsPrompt : IsPrompt (prompt_parts print quoted lookalike)
unfolding prompt_parts
lookalike-IsPrompt = prompt-IsPrompt

normalize_prompt_input-injective_example :
    (normalize_prompt_input print quoted prompt ≡ normalize_prompt_input print quoted lookalike)
    ↔ (prompt_parts print quoted prompt ≡ prompt_parts print quoted lookalike)
normalize_prompt_input-injective_example =
    normalize_prompt_input-injective print quoted prompt lookalike prompt-IsPrompt
      lookalike-IsPrompt

-- The two prompts differ, and their parts do not.
same_parts : prompt_parts print quoted prompt ≡ prompt_parts print quoted lookalike
unfolding prompt_parts
same_parts = refl

abbrev embedding : EmbeddingCacheKeyInput ℕ
embedding = record {
  model = text "m";
  model_version = none;
  input_content_hash = text "h";
  normalization_settings = [];
  chunking_strategy = text "c";
  dimensions = 3;
  application_namespace = text "n";
}

prompt_cache_key_lem_example :
    ((prompt_cache_key print quoted prompt ≡ prompt_cache_key print quoted lookalike) ↔ (
      fnv1a_128 (normalize_prompt_input print quoted prompt)
      ≡ fnv1a_128 (normalize_prompt_input print quoted lookalike)))
    × (prompt_cache_key print quoted prompt ≢ embedding_cache_key print quoted embedding)
    × (length (prompt_cache_key print quoted prompt) ≡ 45)
prompt_cache_key_lem_example = prompt_cache_key_lem print quoted prompt lookalike embedding

abbrev b_then_a : Fields ℕ
b_then_a = field (text "b") (Value.number 1) (field (text "a") Value.null end)

abbrev a_then_b : Fields ℕ
a_then_b = field (text "a") Value.null (field (text "b") (Value.number 1) end)

printed : canonical_json print quoted (Value.object b_then_a) ≡ text "{\"a\":null,\"b\":1}"
unfolding canonical_json sort_items insert_item less join
printed = refl

canonical_json-order_example :
    canonical_json print quoted (Value.object b_then_a)
    ≡ canonical_json print quoted (Value.object a_then_b)
unfolding pairs_of
canonical_json-order_example =
    canonical_json-order print quoted b_then_a a_then_b (Permᴰ.swap refl refl)
      ((((λ e. ground (arith, e)), tt), (tt, tt)))

finish_lem_example :
    finish (text "lease-1") (observe (chunk (1 ∷ []) ∷ failure ∷ []) new_capture) ≡ (
      if has_failed (chunk (1 ∷ []) ∷ failure ∷ [])
      then err generation_failed
      else ok (record {
        lease_token = text "lease-1";
        value = all_bytes (chunk (1 ∷ []) ∷ failure ∷ []);
      }))
finish_lem_example = finish_lem (text "lease-1") (chunk (1 ∷ []) ∷ failure ∷ [])
