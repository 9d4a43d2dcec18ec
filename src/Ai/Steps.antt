-- ===== src/Ai/Steps.antt =====
-- The parts of the inputs of clients/rust/cachebox-client/src/ai.rs that their normal forms write down, part
-- by part.
use cachebox.Prelude.{
  ℕ, suc, ◌≡◌, refl, sym, ap, ◌∙◌, Option, none, some, List, [], ◌∷◌, ◌++◌, append-nil,
  append_assoc, length,
}
use mathlib.Core.Path.{subst}
use cachebox.Bytes.{Bytes, Text, text}
use cachebox.Ai.Json.{Value, Item, canonical_json}
use cachebox.Ai.Keys.{
  PromptMessage, append_u64, append_bytes, append_optional_str, append_json, append_pairs,
  append_json_map, append_messages, absent,
}
use cachebox.Ai.Words.{
  Appends, write_then, word, number_word, append_u64-Appends, append_bytes-Appends,
}

-- A step of the normalization, and the word that it writes.
pub record Step : Type 0 where
  pub write : Bytes → Bytes
  pub written : Bytes
  pub law : Appends write written

unfoldable pub run : List Step → Bytes → Bytes
run [] out = out
run (step ∷ steps) out = run steps (step.write out)

unfoldable pub words : List Step → Bytes
words [] = []
words (step ∷ steps) = step.written ++ words steps

pub run-words : (steps : List Step) (out : Bytes) → run steps out ≡ out ++ words steps
unfolding run words
run-words [] out = sym (append-nil out)
run-words (step ∷ steps) out =
    run-words steps (step.write out)
    ∙ (ap (λ (x : Bytes). x ++ words steps) (step.law out)
        ∙ append_assoc out step.written (words steps))

unfoldable pub of_number : ℕ → Step
of_number n = record { write = append_u64 n; written = number_word n; law = append_u64-Appends n }

unfoldable pub of_bytes : Bytes → Bytes → Step
of_bytes field value = record {
  write = append_bytes field value;
  written = word field value;
  law = append_bytes-Appends field value;
}

-- What is written of a text that may be absent.
abbrev pub shown : Option Text → Text
shown none = absent
shown (some t) = t

pub optional_law :
    (field : Bytes) (value : Option Text)
    → Appends (append_optional_str field value) (word field (shown value))
unfolding append_optional_str
optional_law field none = append_bytes-Appends field absent
optional_law field (some t) = append_bytes-Appends field t

unfoldable pub of_optional : Bytes → Option Text → Step
of_optional field value = record {
  write = append_optional_str field value;
  written = word field (shown value);
  law = optional_law field value;
}

-- The message as it is written: its role, its name or the mark of none, its content.
pub record MessageParts : Type 0 where
  pub role : Text
  pub name : Text
  pub content : Text

unfoldable pub message_parts : List PromptMessage → List MessageParts
message_parts [] = []
message_parts (m ∷ ms) =
    record { role = m.role; name = shown m.name; content = m.content } ∷ message_parts ms

unfoldable pub message_words : List MessageParts → Bytes
message_words [] = []
message_words (m ∷ ms) =
    word (text "message.role") m.role
    ++ (word (text "message.name") m.name
        ++ (word (text "message.content") m.content ++ message_words ms))

length-message_parts : (ms : List PromptMessage) → length (message_parts ms) ≡ length ms
unfolding message_parts
length-message_parts [] = refl
length-message_parts (m ∷ ms) = ap suc (length-message_parts ms)

pub count_law :
    (ms : List PromptMessage)
    → Appends (append_u64 (length ms)) (number_word (length (message_parts ms)))
count_law ms =
    subst (λ (n : ℕ). Appends (append_u64 (length ms)) (number_word n))
      (sym (length-message_parts ms)) (append_u64-Appends (length ms))

unfoldable pub of_count : List PromptMessage → Step
of_count ms = record {
  write = append_u64 (length ms);
  written = number_word (length (message_parts ms));
  law = count_law ms;
}

pub messages_law :
    (ms : List PromptMessage) → Appends (append_messages ms) (message_words (message_parts ms))
unfolding append_messages message_words message_parts
messages_law [] out = sym (append-nil out)
messages_law (m ∷ ms) out =
    let role = text "message.role" in
    let name = text "message.name" in
    let content = text "message.content" in
    messages_law ms _
    ∙ (write_then (append_bytes content m.content) _ _ (append_bytes-Appends content m.content) _
        ∙ (write_then (append_optional_str name m.name) _ _ (optional_law name m.name) _
            ∙ write_then (append_bytes role m.role) _ _ (append_bytes-Appends role m.role) out))

unfoldable pub of_messages : List PromptMessage → Step
of_messages ms = record {
  write = append_messages ms;
  written = message_words (message_parts ms);
  law = messages_law ms;
}

unfoldable pub item_words : Bytes → Bytes → List Item → Bytes
item_words key_field value_field [] = []
item_words key_field value_field ((name, value) ∷ items) =
    word key_field name ++ (word value_field value ++ item_words key_field value_field items)

unfoldable pub map_word : Bytes → Bytes → Bytes → List Item → Bytes
map_word field key_field value_field items =
    word field (text "map")
    ++ (number_word (length items) ++ item_words key_field value_field items)

module _ {Number : Type 0} (to_string : Number → Text) (quote : Text → Text) where
  unfoldable pub shown_json : Option (Value Number) → Text
  shown_json none = absent
  shown_json (some value) = canonical_json to_string quote value

  pub json_law :
      (field : Bytes) (value : Option (Value Number))
      → Appends (append_json to_string quote field value) (word field (shown_json value))
  unfolding append_json shown_json
  json_law field none = append_bytes-Appends field absent
  json_law field (some value) = append_bytes-Appends field (canonical_json to_string quote value)

  unfoldable pub of_json : Bytes → Option (Value Number) → Step
  of_json field value = record {
    write = append_json to_string quote field value;
    written = word field (shown_json value);
    law = json_law field value;
  }

  -- A map as it is written: its names, and the texts of its values.
  unfoldable pub items_of : List (Text × Value Number) → List Item
  items_of [] = []
  items_of ((name, value) ∷ values) = (name, canonical_json to_string quote value) ∷ items_of values

  length-items_of : (values : List (Text × Value Number)) → length (items_of values) ≡ length values
  unfolding items_of
  length-items_of [] = refl
  length-items_of ((name, value) ∷ values) = ap suc (length-items_of values)

  pub pairs_law :
      (key_field value_field : Bytes) (values : List (Text × Value Number))
      → Appends
          (append_pairs to_string quote key_field value_field values)
          (item_words key_field value_field (items_of values))
  unfolding append_pairs item_words items_of
  pairs_law key_field value_field [] out = sym (append-nil out)
  pairs_law key_field value_field ((name, value) ∷ values) out =
      let t = canonical_json to_string quote value in
      pairs_law key_field value_field values _
      ∙ (write_then (append_bytes value_field t) _ _ (append_bytes-Appends value_field t) _
          ∙ write_then (append_bytes key_field name) _ _ (append_bytes-Appends key_field name) out)

  count :
      (values : List (Text × Value Number))
      → Appends (append_u64 (length values)) (number_word (length (items_of values)))
  count values =
      subst (λ (n : ℕ). Appends (append_u64 (length values)) (number_word n))
        (sym (length-items_of values)) (append_u64-Appends (length values))

  pub map_law :
      (field key_field value_field : Bytes) (values : List (Text × Value Number))
      → Appends
          (append_json_map to_string quote field key_field value_field values)
          (map_word field key_field value_field (items_of values))
  unfolding append_json_map map_word
  map_law field key_field value_field values out =
      pairs_law key_field value_field values _
      ∙ (write_then (append_u64 (length values)) (number_word (length (items_of values))) _
            (count values) _
          ∙ write_then (append_bytes field (text "map")) _ _
              (append_bytes-Appends field (text "map")) out)

  unfoldable pub of_map : Bytes → Bytes → Bytes → List (Text × Value Number) → Step
  of_map field key_field value_field values = record {
    write = append_json_map to_string quote field key_field value_field values;
    written = map_word field key_field value_field (items_of values);
    law = map_law field key_field value_field values;
  }
