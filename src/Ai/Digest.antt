-- ===== src/Ai/Digest.antt =====
-- The digest and the keys of clients/rust/cachebox-client/src/ai.rs.
use cachebox.Prelude.{
  ℕ, zero, suc, ◌*◌, ◌/◌, ◌%◌, ◌^◌, ◌<◌, ◌≡◌, refl, sym, ap, ◌∙◌, ◌≢◌, ◌↔◌, [], ◌∷◌, arith, length,
  length-append,
}
use Prim.Native.Nat.{bit_xor}
use mathlib.Core.List.{head-eq_of_cons-eq, tail-eq_of_cons-eq}
use native.Mathlib.Nat.{pow-suc}
use cachebox.Bytes.{Bytes, Text}
use cachebox.Ai.Keys.{
  PromptCacheKeyInput, EmbeddingCacheKeyInput, prompt_key_prefix, embedding_key_prefix,
  fnv_offset_basis, fnv_prime, normalize_prompt_input, fnv_from, fnv1a_128, hex_digit, hex,
  write_hex_u128, digest_key, prompt_cache_key, embedding_cache_key,
}
use cachebox.Ai.Words.{append_cancel}

hex_digit-injective : (a b : ℕ) → a < 16 → b < 16 → hex_digit a ≡ hex_digit b → a ≡ b
unfolding hex_digit
hex_digit-injective a b ha hb e = ground (arith, e)

length-hex : (count value : ℕ) → length (hex count value) ≡ count
unfolding hex
length-hex zero value = refl
length-hex (suc count) value =
    length-append (hex count (value / 16)) (hex_digit (value % 16) ∷ [])
    ∙ omega (arith, length-hex count (value / 16))

hex-injective :
    (count a b : ℕ) → a < 16 ^ count → b < 16 ^ count → hex count a ≡ hex count b → a ≡ b
unfolding hex
hex-injective zero a b ha hb e = omega arith
hex-injective (suc count) a b ha hb e =
    let parts =
      append_cancel (hex count (a / 16)) (hex count (b / 16)) _ _
        (length-hex count (a / 16) ∙ sym (length-hex count (b / 16))) e in
    let high =
      hex-injective count (a / 16) (b / 16) (omega (arith, pow-suc 16 count))
        (omega (arith, pow-suc 16 count)) parts.0 in
    let low =
      hex_digit-injective (a % 16) (b % 16) (omega arith) (omega arith)
        (head-eq_of_cons-eq parts.1) in
    omega (arith, high, low)

fnv_from-lt : (bytes : Bytes) (hash : ℕ) → hash < 2 ^ 128 → fnv_from hash bytes < 2 ^ 128
unfolding fnv_from
fnv_from-lt [] hash h = h
fnv_from-lt (byte ∷ bytes) hash h =
    fnv_from-lt bytes (bit_xor hash byte * fnv_prime % 2 ^ 128) (omega arith)

fnv1a_128-lt : (bytes : Bytes) → fnv1a_128 bytes < 2 ^ 128
unfolding fnv1a_128
fnv1a_128-lt bytes = fnv_from-lt bytes fnv_offset_basis (omega arith)

-- A key determines its digest.
digest_key-injective :
    (prefix : Bytes) (a b : ℕ)
    → a < 2 ^ 128
    → b < 2 ^ 128
    → digest_key prefix a ≡ digest_key prefix b
    → a ≡ b
unfolding digest_key write_hex_u128
digest_key-injective prefix a b ha hb e =
    hex-injective 32 a b (omega (arith, ha)) (omega (arith, hb))
      (append_cancel prefix prefix _ _ refl e).1

length_key : (digest : ℕ) → length (digest_key prompt_key_prefix digest) ≡ 45
unfolding digest_key write_hex_u128
length_key digest =
    length-append prompt_key_prefix (hex 32 digest) ∙ omega (arith, length-hex 32 digest)

-- The keys of prompts and of embeddings differ.
prefixes : (a b : ℕ) → digest_key prompt_key_prefix a ≡ digest_key embedding_key_prefix b → ⊥
unfolding digest_key write_hex_u128
prefixes a b e =
    ground
      (arith, head-eq_of_cons-eq (tail-eq_of_cons-eq (tail-eq_of_cons-eq (tail-eq_of_cons-eq e))))

module _ {Number : Type 0} (to_string : Number → Text) (quote : Text → Text) where
  -- Two prompts share a key exactly if the digests of their normal forms are the same, and no prompt shares
  -- a key with an embedding.
  pub prompt_cache_key_lem :
      (a b : PromptCacheKeyInput Number) (c : EmbeddingCacheKeyInput Number)
      → ((prompt_cache_key to_string quote a ≡ prompt_cache_key to_string quote b) ↔ (
          fnv1a_128 (normalize_prompt_input to_string quote a)
          ≡ fnv1a_128 (normalize_prompt_input to_string quote b)))
        × (prompt_cache_key to_string quote a ≢ embedding_cache_key to_string quote c)
        × (length (prompt_cache_key to_string quote a) ≡ 45)
  unfolding prompt_cache_key embedding_cache_key
  prompt_cache_key_lem a b c = (
    (
      λ e. digest_key-injective prompt_key_prefix _ _ (fnv1a_128-lt _) (fnv1a_128-lt _) e,
      λ e. ap (digest_key prompt_key_prefix) e,
    ),
    λ e. prefixes _ _ e,
    length_key _,
  )
