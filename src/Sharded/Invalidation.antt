-- ===== src/Sharded/Invalidation.antt =====
-- An invalidation of the sharded engine of src/engine.rs reaches every entry with the tag.
use cachebox.Prelude.{
  ℕ, ◌+◌, ◌<◌, ◌≡◌, refl, sym, ap, ◌∙◌, ◌≢◌, ite, Bool, true, false, ◌&&◌, none, some, List, [],
  ◌∷◌, arith, ℕ_discrete, if◌then◌else◌, length,
}
use cachebox.Prelude.{
  get_elem?, set_elem, length-set_elem, get_elem?-lt, lt-get_elem?, get_elem?-set_elem,
  get_elem?-set_elem_ne,
}
use mathlib.Core.Path.{subst}
use mathlib.Core.Option.{some-injective}
use cachebox.Prelude.Map.{get, get-remove}
use cachebox.Prelude.Map
use cachebox.Prelude.Set.{contains}
use cachebox.Engine.Types.{
  Text, EntryId, TagId, TagId-discrete, Engine, entry_key, tag_key, index_key,
}
use cachebox.Engine.Hashing.{Hashing}
use cachebox.Engine.Read
use cachebox.Engine.Invariant.{tagged, IsValid}
use cachebox.Engine.Invariant.Untag.{get-invalidate_tag, invalidate_tag-IsValid}
use cachebox.Sharded.Directory.{routes}
use cachebox.Sharded.Store.{ShardedEngine, invalidate_shards, invalidate_tag}
use cachebox.Sharded.Sound.{IsSound}

-- A shard `e'` is `e` without the entries that carry the tag, where `visited` holds.
pub record Clears (t : TagId) (visited : Bool) (e e' : Engine) : Type 0 where
  pub valid : IsValid e'
  pub left :
      (id : EntryId)
      → get id e'.entries ≡ (if visited && tagged t id e.entries then none else get id e.entries)

-- What a loop over the shards has done.
record Visits (t : TagId) (indices : List ℕ) (shards shards' : List Engine) : Type 0 where
  pub same_length : length shards' ≡ length shards
  pub cleared :
      (j : ℕ) (e : Engine)
      → get_elem? shards j ≡ some e
      → (e' : Engine) × (get_elem? shards' j ≡ some e') × Clears t (contains j indices) e e'

AllValid : List Engine → Type 0
AllValid shards = (i : ℕ) (e : Engine) → get_elem? shards i ≡ some e → IsValid e

module _ (h : Hashing) (namespace tag : Text) where
  abbrev t : TagId
  t = record { namespace = namespace; tag = tag }

  abbrev cleared_one : Engine → Engine
  cleared_one e = (Read.invalidate_tag h namespace tag e).0

  at_set :
      (shards : List Engine) (i j : ℕ) (e e' d : Engine)
      → get_elem? shards i ≡ some e
      → i ≡ j
      → get_elem? (set_elem shards i e') j ≡ some d
      → e' ≡ d
  at_set shards i j e e' d at_i same at_j = some-injective e' d (
      sym (get_elem?-set_elem shards i e' (get_elem?-lt shards i e at_i))
      ∙ (ap (get_elem? (set_elem shards i e')) same ∙ at_j))

  set-AllValid :
      (shards : List Engine) (i : ℕ) (e e' : Engine)
      → get_elem? shards i ≡ some e
      → IsValid e'
      → AllValid shards
      → AllValid (set_elem shards i e')
  unfolding AllValid
  set-AllValid shards i e e' at_i valid' valid j d at_j = elim (ℕ_discrete i j) [
    | yes same ↦ subst IsValid (at_set shards i j e e' d at_i same at_j) valid'
    | no ne ↦ valid j d (sym (get_elem?-set_elem_ne shards i j e' ne) ∙ at_j)
  ]

  again :
      (visited : Bool) (e d : Engine)
      → IsValid e
      → Clears t visited (cleared_one e) d
      → Clears t true e d
  unfolding tagged
  again visited e d c clears = record {
    valid = clears.valid;
    left = λ id. ground (arith, clears.left id, get-invalidate_tag h namespace tag e c id);
  }

  visit :
      (index : ℕ) (indices : List ℕ) (e : Engine) (shards shards' : List Engine)
      → get_elem? shards index ≡ some e
      → IsValid e
      → Visits t indices (set_elem shards index (cleared_one e)) shards'
      → Visits t (index ∷ indices) shards shards'
  unfolding contains
  visit index indices e shards shards' at_index valid rest = record {
    same_length = rest.same_length ∙ length-set_elem shards index (cleared_one e);
    cleared = λ j d at_j. elim (ℕ_discrete index j) [
      | yes same ↦
          let e_d : e ≡ d =
            some-injective e d (sym at_index ∙ (ap (get_elem? shards) same ∙ at_j)) in
          let (d', found, clears) = rest.cleared j (cleared_one e) (
            ap (get_elem? (set_elem shards index (cleared_one e))) (sym same)
            ∙ get_elem?-set_elem shards index (cleared_one e)
                (get_elem?-lt shards index e at_index)) in
          let visited : contains j (index ∷ indices) ≡ true = ground (arith, same) in
          (
            d',
            found,
            rw visited (subst (λ (x : Engine). Clears t true x d') e_d (again _ e d' valid clears)),
          )
      | no ne ↦
          let (d', found, clears) =
            rest.cleared j d (get_elem?-set_elem_ne shards index j (cleared_one e) ne ∙ at_j) in
          let skipped : contains j (index ∷ indices) ≡ contains j indices = ground (arith, ne) in
          (d', found, rw skipped clears)
    ];
  }

  invalidate_shards_lem :
      (indices : List ℕ) (shards : List Engine)
      → AllValid shards
      → ((i : ℕ) → contains i indices ≡ true → i < length shards)
      → (shards' : List Engine) × (removed : ℕ) × (invalidate_shards h namespace tag indices shards
          ≡ some (shards', removed))
        × Visits t indices shards shards'
  unfolding invalidate_shards contains AllValid
  invalidate_shards_lem [] shards valid range = (
    shards,
    0,
    refl,
    record {
      same_length = refl;
      cleared = λ j e at_j. (e, at_j, record { valid = valid j e at_j; left = λ id. refl });
    },
  )
  invalidate_shards_lem (index ∷ indices) shards valid range =
      let (e, found) = lt-get_elem? shards index (range index (ground arith)) in
      let e' = cleared_one e in
      let (shards', removed, equation, visits) =
        invalidate_shards_lem indices (set_elem shards index e')
          (set-AllValid shards index e e' found
            (invalidate_tag-IsValid h namespace tag e (valid index e found)) valid)
          (λ i there.
            omega (arith, length-set_elem shards index e', range i (ground (arith, there)))) in
      (
        shards',
        (Read.invalidate_tag h namespace tag e).1 + removed,
        rw (found, invalidate_shards) (rw equation refl),
        visit index indices e shards shards' found (valid index e found) visits,
      )

  module _ (s : ShardedEngine) (sound : IsSound s) where
    -- What the loop of an invalidation does to the shards.
    visited :
        (shards : List Engine) × (removed : ℕ) × (invalidate_tag h namespace tag s
          ≡ some
              (record s { shards = shards; tag_directory = Map.remove t s.tag_directory }, removed))
        × Visits t (h.index_order (routes t s.tag_directory)) s.shards shards
    unfolding invalidate_tag AllValid
    visited =
        let (shards, removed, equation, visits) =
          invalidate_shards_lem (h.index_order (routes t s.tag_directory)) s.shards sound.valid
            (λ i there.
              sound.in_range i t
                (sym (h.contains-index_order (routes t s.tag_directory) i) ∙ there)) in
        (shards, removed, rw (equation, invalidate_tag) refl, visits)

    -- Whatever is left out by the directory does not carry the tag.
    complete :
        (j : ℕ) (e e' : Engine)
        → get_elem? s.shards j ≡ some e
        → Clears t (contains j (h.index_order (routes t s.tag_directory))) e e'
        → Clears t true e e'
    complete j e e' at_j clears = record {
      valid = clears.valid;
      left = λ id. ground (
        arith,
        clears.left id,
        h.contains-index_order (routes t s.tag_directory) j,
        sound.routed j e t id at_j,
      );
    }

    -- On a sound engine an invalidation returns, and each of its shards is valid afterwards and has lost the entries
    -- of the namespace that carry the tag, and no others.
    pub invalidate_tag-Clears :
        (j : ℕ) (e : Engine)
        → get_elem? s.shards j ≡ some e
        → (s' : ShardedEngine) × (removed : ℕ) × (e' : Engine) × (invalidate_tag h namespace tag s
            ≡ some (s', removed))
          × (get_elem? s'.shards j ≡ some e')
          × Clears (record { namespace = namespace; tag = tag }) true e e'
    invalidate_tag-Clears j e at_j =
        let (shards, removed, equation, visits) = visited in
        let (e', found, clears) = visits.cleared j e at_j in
        (
          record s { shards = shards; tag_directory = Map.remove t s.tag_directory },
          removed,
          e',
          equation,
          found,
          complete j e e' at_j clears,
        )

    routes-remove :
        (u : TagId)
        → routes u (Map.remove t s.tag_directory)
          ≡ ite (TagId-discrete t u) [] (routes u s.tag_directory)
    unfolding routes
    routes-remove u = ground (arith, get-remove t u s.tag_directory)

    kept_tag :
        (u : TagId) (id : EntryId) (e e' : Engine)
        → Clears t true e e'
        → tagged u id e'.entries ≡ true
        → (t ≢ u) × (tagged u id e.entries ≡ true)
    unfolding tagged
    kept_tag u id e e' clears carried =
        let gone : tagged t id e'.entries ≡ false = ground (arith, clears.left id) in
        let kept : t ≡ u → ⊥ = λ same.
          ground (
            arith,
            gone,
            subst (λ (x : TagId). tagged x id e'.entries ≡ true) (sym same) carried,
          ) in
        (kept, ground (arith, carried, clears.left id))

    -- On a sound engine an invalidation returns, and leads to a sound engine.
    pub invalidate_tag-IsSound :
        (s' : ShardedEngine) × (removed : ℕ) × (invalidate_tag h namespace tag s
          ≡ some (s', removed))
        × IsSound s'
    unfolding contains
    invalidate_tag-IsSound =
        let (shards, removed, equation, visits) = visited in
        let before : (j : ℕ) (e' : Engine)
            → get_elem? shards j ≡ some e'
            → (e : Engine) × (get_elem? s.shards j ≡ some e) × Clears t true e e' =
          λ j e' at_j.
            let (e, found) =
              lt-get_elem? s.shards j
                (omega (arith, visits.same_length, get_elem?-lt shards j e' at_j)) in
            let (d, there, clears) = visits.cleared j e found in
            let same : d ≡ e' = some-injective d e' (sym there ∙ at_j) in
            (e, found, subst (Clears t true e) same (complete j e d found clears)) in
        (
          record s { shards = shards; tag_directory = Map.remove t s.tag_directory },
          removed,
          equation,
          record {
            valid = λ j e' at_j. let (e, found, clears) = before j e' at_j in clears.valid;
            routed = λ j e' u id at_j carried.
                let (e, found, clears) = before j e' at_j in
                let (ne, was) = kept_tag u id e e' clears carried in
                ground (arith, ne, routes-remove u, sound.routed j e u id found was);
            in_range = λ j u there. omega (
              arith,
              visits.same_length,
              sound.in_range j u (ground (arith, there, routes-remove u)),
            );
          },
        )
