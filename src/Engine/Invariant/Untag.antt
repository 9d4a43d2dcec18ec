-- ===== src/Engine/Invariant/Untag.antt =====
-- The invalidation of a tag in src/engine.rs keeps the invariant; the entries that it removes.
use cachebox.Prelude.{
  ℕ, ◌+◌, ◌≡◌, refl, inl, inr, false, Option, none, some, List, [], ◌∷◌, arith, if◌then◌else◌,
  Option-cases, length,
}
use cachebox.Prelude.Map.{Assoc, Distinct, get, total, get-remove}
use cachebox.Prelude.Map
use cachebox.Prelude.Set.{contains}
use cachebox.Engine.Types.{Text, EntryId, TagId, Engine, entry_key, tag_key, expiry_key, text_key}
use cachebox.Engine.Hashing.{Hashing}
use cachebox.Engine.Tags.{ids_of}
use cachebox.Engine.Store.{remove_entry}
use cachebox.Engine.Read.{remove_ids, invalidate_tag}
use cachebox.Engine.Invariant.{tagged, IsConsistent, IsValid}
use cachebox.Engine.Invariant.Remove.{
  remove_entry-IsConsistent, get-remove_entry, length-remove_entry,
}

remove_ids-IsConsistent :
    {hidden : Option TagId} (ids : List EntryId) (s : Engine) (n : ℕ)
    → IsConsistent [] hidden s
    → IsConsistent [] hidden (remove_ids ids s n).0
unfolding remove_ids
remove_ids-IsConsistent [] s n c = c
remove_ids-IsConsistent (id ∷ ids) s n c =
    remove_ids-IsConsistent ids _ _ (remove_entry-IsConsistent id c)

get-remove_ids :
    (ids : List EntryId) (s : Engine) (n : ℕ) (j : EntryId)
    → get j (remove_ids ids s n).0.entries ≡ (if contains j ids then none else get j s.entries)
unfolding remove_ids contains
get-remove_ids [] s n j = refl
get-remove_ids (id ∷ ids) s n j = ground (
  arith,
  get-remove_ids ids (remove_entry id s).0 (if (remove_entry id s).1 then n + 1 else n) j,
  get-remove_entry id j s,
)

length-remove_ids :
    {hidden : Option TagId} (ids : List EntryId) (s : Engine) (n : ℕ)
    → IsConsistent [] hidden s
    → length (remove_ids ids s n).0.entries + (remove_ids ids s n).1 ≡ length s.entries + n
unfolding remove_ids
length-remove_ids [] s n c = refl
length-remove_ids (id ∷ ids) s n c = ground (
  arith,
  length-remove_ids ids (remove_entry id s).0 (if (remove_entry id s).1 then n + 1 else n)
      (remove_entry-IsConsistent id c),
  length-remove_entry id s c.distinct,
)

-- Out of the index, the tag is hidden.
hide :
    (t : TagId) {s : Engine}
    → IsValid s
    → IsConsistent [] (some t) (record s { tag_index = Map.remove t s.tag_index })
unfolding ids_of contains
hide t {s} c = record {
  distinct = c.distinct;
  sized = c.sized;
  accounted = c.accounted;
  bounded = c.bounded;
  word = c.word;
  costed = c.costed;
  indexed = λ u id. ground (arith, c.indexed u id, get-remove t u s.tag_index);
  scheduled = c.scheduled;
  sorted = c.sorted;
  separate = c.separate;
}

-- Once no entry carries the tag, nothing is hidden.
unhide :
    (t : TagId) {s : Engine}
    → ((id : EntryId) → tagged t id s.entries ≡ false)
    → IsConsistent [] (some t) s
    → IsValid s
unhide t {s} clear c = record {
  distinct = c.distinct;
  sized = c.sized;
  accounted = c.accounted;
  bounded = c.bounded;
  word = c.word;
  costed = c.costed;
  indexed = λ u id. ground (arith, c.indexed u id, clear id);
  scheduled = c.scheduled;
  sorted = c.sorted;
  separate = c.separate;
}

module _ (h : Hashing) (namespace tag : Text) (s : Engine) (c : IsValid s) where
  t : TagId
  t = record { namespace = namespace; tag = tag }

  -- On a valid engine an invalidation removes the entries of the namespace that carry the tag, and no others.
  pub get-invalidate_tag :
      (id : EntryId)
      → get id (invalidate_tag h namespace tag s).0.entries ≡ (
          if tagged (record { namespace = namespace; tag = tag }) id s.entries
          then none
          else get id s.entries)
  unfolding invalidate_tag ids_of t contains
  get-invalidate_tag id = elim (Option-cases (get t s.tag_index)) [
    | inl unused ↦ ground (arith, unused, c.indexed t id)
    | inr (ids, used) ↦ ground (
      arith,
      used,
      c.indexed t id,
      h.contains-id_order ids id,
      get-remove_ids (h.id_order ids) (record s { tag_index = Map.remove t s.tag_index }) 0 id,
    )
  ]

  untagged : List EntryId → Engine × ℕ
  untagged ids = remove_ids (h.id_order ids) (record s { tag_index = Map.remove t s.tag_index }) 0

  cleared :
      (ids : List EntryId)
      → get t s.tag_index ≡ some ids
      → (id : EntryId) → tagged t id (untagged ids).0.entries ≡ false
  unfolding untagged t tagged ids_of
  cleared ids used id = ground (
    arith,
    used,
    c.indexed t id,
    h.contains-id_order ids id,
    get-remove_ids (h.id_order ids) (record s { tag_index = Map.remove t s.tag_index }) 0 id,
  )

  -- From a valid engine an invalidation leads to a valid engine.
  pub invalidate_tag-IsValid : IsValid (invalidate_tag h namespace tag s).0
  unfolding invalidate_tag t untagged
  invalidate_tag-IsValid = elim (Option-cases (get t s.tag_index)) [
    | inl unused ↦ rw (unused, invalidate_tag) c
    | inr (ids, used) ↦
        rw (used, invalidate_tag)
          (unhide t (cleared ids used) (remove_ids-IsConsistent (h.id_order ids) _ 0 (hide t c)))
  ]

  -- On a valid engine an invalidation returns how many entries it removed.
  pub length-invalidate_tag :
      length (invalidate_tag h namespace tag s).0.entries + (invalidate_tag h namespace tag s).1
      ≡ length s.entries
  unfolding invalidate_tag t
  length-invalidate_tag = elim (Option-cases (get t s.tag_index)) [
    | inl unused ↦ rw (unused, invalidate_tag) (omega arith)
    | inr (ids, used) ↦
        rw (used, invalidate_tag) (omega (arith, length-remove_ids (h.id_order ids) _ 0 (hide t c)))
  ]
