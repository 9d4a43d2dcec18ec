-- ===== src/Ai/Cancel.antt =====
-- The words of the parts of an input of clients/rust/cachebox-client/src/ai.rs determine the parts.
use cachebox.Prelude.{
  ◌≡◌, refl, sym, ap, ◌∙◌, List, [], ◌∷◌, ◌++◌, append_assoc, arith, length, All,
}
use cachebox.Bytes.{Bytes, text}
use cachebox.Ai.Json.{Item}
use cachebox.Ai.Keys.{prompt_normalization_version, embedding_normalization_version}
use cachebox.Ai.Words.{IsSmall, word, number_word, word-cancel, number_word-cancel, append_cancel}
use cachebox.Ai.Steps.{MessageParts, message_words, item_words, map_word}
use cachebox.Ai.Parts.{
  EmbeddingParts, IsEmbedding, IsItem, IsMessage, IsPrompt, PromptParts, embedding_words,
  prompt_words,
}

items-cancel :
    (kf vf : Bytes) (a b : List Item) (r s : Bytes)
    → length a ≡ length b
    → All IsItem a
    → All IsItem b
    → item_words kf vf a ++ r ≡ item_words kf vf b ++ s
    → (a ≡ b) × (r ≡ s)
unfolding item_words
items-cancel kf vf [] [] r s n ha hb e = (refl, e)
items-cancel kf vf [] (y ∷ ys) r s n ha hb e = absurd (omega (arith, n))
items-cancel kf vf (x ∷ xs) [] r s n ha hb e = absurd (omega (arith, n))
items-cancel kf vf (x ∷ xs) (y ∷ ys) r s n ha hb e =
    let right : (i : Item) (is : List Item) (q : Bytes)
        → (word kf i.0 ++ (word vf i.1 ++ item_words kf vf is)) ++ q
          ≡ word kf i.0 ++ (word vf i.1 ++ (item_words kf vf is ++ q)) =
      λ i is q.
        append_assoc (word kf i.0) (word vf i.1 ++ item_words kf vf is) q
        ∙ ap (λ (z : Bytes). word kf i.0 ++ z)
            (append_assoc (word vf i.1) (item_words kf vf is) q) in
    let key = word-cancel kf x.0 y.0 _ _ ha.0.0 hb.0.0 (sym (right x xs r) ∙ (e ∙ right y ys s)) in
    let value = word-cancel vf x.1 y.1 _ _ ha.0.1 hb.0.1 key.1 in
    let rest = items-cancel kf vf xs ys r s (omega (arith, n)) ha.1 hb.1 value.1 in
    (λ i. (key.0 i, value.0 i) ∷ rest.0 i, rest.1)

map-cancel :
    (field kf vf : Bytes) (a b : List Item) (r s : Bytes)
    → IsSmall a
    → IsSmall b
    → All IsItem a
    → All IsItem b
    → map_word field kf vf a ++ r ≡ map_word field kf vf b ++ s
    → (a ≡ b) × (r ≡ s)
unfolding map_word
map-cancel field kf vf a b r s na nb ha hb e =
    let head = word field (text "map") in
    let right : (is : List Item) (q : Bytes)
        → (head ++ (number_word (length is) ++ item_words kf vf is)) ++ q
          ≡ head ++ (number_word (length is) ++ (item_words kf vf is ++ q)) =
      λ is q.
        append_assoc head (number_word (length is) ++ item_words kf vf is) q
        ∙ ap (λ (z : Bytes). head ++ z)
            (append_assoc (number_word (length is)) (item_words kf vf is) q) in
    let one = append_cancel head head _ _ refl (sym (right a r) ∙ (e ∙ right b s)) in
    let two = number_word-cancel (length a) (length b) _ _ na nb one.1 in
    items-cancel kf vf a b r s two.0 ha hb two.1

messages-cancel :
    (a b : List MessageParts) (r s : Bytes)
    → length a ≡ length b
    → All IsMessage a
    → All IsMessage b
    → message_words a ++ r ≡ message_words b ++ s
    → (a ≡ b) × (r ≡ s)
unfolding message_words
messages-cancel [] [] r s n ha hb e = (refl, e)
messages-cancel [] (y ∷ ys) r s n ha hb e = absurd (omega (arith, n))
messages-cancel (x ∷ xs) [] r s n ha hb e = absurd (omega (arith, n))
messages-cancel (x ∷ xs) (y ∷ ys) r s n ha hb e =
    let role = text "message.role" in
    let name = text "message.name" in
    let content = text "message.content" in
    let right : (m : MessageParts) (ms : List MessageParts) (q : Bytes)
        → (word role m.role ++ (word name m.name ++ (word content m.content ++ message_words ms)))
            ++ q
          ≡ word role m.role
            ++ (word name m.name ++ (word content m.content ++ (message_words ms ++ q))) =
      λ m ms q.
        append_assoc (word role m.role) _ q
        ∙ ap (λ (z : Bytes). word role m.role ++ z)
            (append_assoc (word name m.name) _ q
              ∙ ap (λ (z : Bytes). word name m.name ++ z)
                  (append_assoc (word content m.content) (message_words ms) q)) in
    let one =
      word-cancel role x.role y.role _ _ ha.0.0 hb.0.0 (sym (right x xs r) ∙ (e ∙ right y ys s)) in
    let two = word-cancel name x.name y.name _ _ ha.0.1 hb.0.1 one.1 in
    let three = word-cancel content x.content y.content _ _ ha.0.2 hb.0.2 two.1 in
    let rest = messages-cancel xs ys r s (omega (arith, n)) ha.1 hb.1 three.1 in
    (λ i. record { role = one.0 i; name = two.0 i; content = three.0 i } ∷ rest.0 i, rest.1)

pub prompt_words-injective :
    (a b : PromptParts) → IsPrompt a → IsPrompt b → prompt_words a ≡ prompt_words b → a ≡ b
unfolding prompt_words
prompt_words-injective a b ha hb e =
    let e0 = append_cancel (word (text "version") prompt_normalization_version) _ _ _ refl e in
    let e1 = word-cancel (text "provider") a.provider b.provider _ _ ha.provider hb.provider e0.1 in
    let e2 = word-cancel (text "model") a.model b.model _ _ ha.model hb.model e1.1 in
    let e3 =
      word-cancel (text "model_version") a.model_version b.model_version _ _ ha.model_version
        hb.model_version e2.1 in
    let e4 =
      word-cancel (text "system_prompt") a.system_prompt b.system_prompt _ _ ha.system_prompt
        hb.system_prompt e3.1 in
    let e5 =
      word-cancel (text "tool_schema") a.tool_schema b.tool_schema _ _ ha.tool_schema hb.tool_schema
        e4.1 in
    let e6 =
      map-cancel (text "sampling_parameters") (text "sampling.name") (text "sampling.value")
        a.sampling_parameters b.sampling_parameters _ _ ha.parameter_count hb.parameter_count
        ha.sampling_parameters hb.sampling_parameters e5.1 in
    let e7 =
      word-cancel (text "output_format") a.output_format b.output_format _ _ ha.output_format
        hb.output_format e6.1 in
    let e8 =
      word-cancel (text "retrieval_context_hash") a.retrieval_context_hash b.retrieval_context_hash
        _ _ ha.retrieval_context_hash hb.retrieval_context_hash e7.1 in
    let e9 =
      word-cancel (text "application_namespace") a.application_namespace b.application_namespace _ _
        ha.application_namespace hb.application_namespace e8.1 in
    let e10 =
      number_word-cancel (length a.messages) (length b.messages) _ _ ha.message_count
        hb.message_count e9.1 in
    let e11 = messages-cancel a.messages b.messages [] [] e10.0 ha.messages hb.messages e10.1 in
    λ i. record {
      provider = e1.0 i;
      model = e2.0 i;
      model_version = e3.0 i;
      system_prompt = e4.0 i;
      tool_schema = e5.0 i;
      sampling_parameters = e6.0 i;
      output_format = e7.0 i;
      retrieval_context_hash = e8.0 i;
      application_namespace = e9.0 i;
      messages = e11.0 i;
    }

pub embedding_words-injective :
    (a b : EmbeddingParts)
    → IsEmbedding a
    → IsEmbedding b
    → embedding_words a ≡ embedding_words b
    → a ≡ b
unfolding embedding_words
embedding_words-injective a b ha hb e =
    let e0 = append_cancel (word (text "version") embedding_normalization_version) _ _ _ refl e in
    let e2 = word-cancel (text "model") a.model b.model _ _ ha.model hb.model e0.1 in
    let e3 =
      word-cancel (text "model_version") a.model_version b.model_version _ _ ha.model_version
        hb.model_version e2.1 in
    let e4 =
      word-cancel (text "input_content_hash") a.input_content_hash b.input_content_hash _ _
        ha.input_content_hash hb.input_content_hash e3.1 in
    let e5 =
      map-cancel (text "normalization_settings") (text "normalization.name")
        (text "normalization.value") a.normalization_settings b.normalization_settings _ _
        ha.setting_count hb.setting_count ha.normalization_settings hb.normalization_settings
        e4.1 in
    let e6 =
      word-cancel (text "chunking_strategy") a.chunking_strategy b.chunking_strategy _ _
        ha.chunking_strategy hb.chunking_strategy e5.1 in
    let e7 = number_word-cancel a.dimensions b.dimensions _ _ ha.dimensions hb.dimensions e6.1 in
    let e8 =
      word-cancel (text "application_namespace") a.application_namespace b.application_namespace []
        [] ha.application_namespace hb.application_namespace e7.1 in
    λ i. record {
      model = e2.0 i;
      model_version = e3.0 i;
      input_content_hash = e4.0 i;
      normalization_settings = e5.0 i;
      chunking_strategy = e6.0 i;
      dimensions = e7.0 i;
      application_namespace = e8.0 i;
    }
