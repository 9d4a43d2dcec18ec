-- ===== src/Sharded/Sound.antt =====
-- What a state of the sharded engine of src/engine.rs must satisfy, and that the operations keep it.
use cachebox.Prelude.{
  ℕ, ◌<◌, ◌≡◌, refl, sym, ap, ◌∙◌, ◌⊎◌, inl, Bool, true, false, some, List, [], arith, ℕ_discrete,
  if◌then◌else◌, Result, length,
}
use cachebox.Prelude.{
  get_elem?, set_elem, length-set_elem, get_elem?-lt, lt-get_elem?, get_elem?-set_elem,
  get_elem?-set_elem_ne,
}
use mathlib.Core.Path.{subst}
use mathlib.Core.Option.{some-injective}
use cachebox.Prelude.Set.{contains}
use cachebox.Engine.Types.{
  CompleteLeaseCommand, CompleteLeaseError, Bytes, Text, EntryId, TagId, Engine, PutCommand,
  PutOutcome, PutError, GetOutcome, tag_key, index_key,
}
use cachebox.Engine.Entry.{tag_ids}
use cachebox.Engine.Hashing.{Hashing}
use cachebox.Engine.Store.{Clock}
use cachebox.Engine.Store
use cachebox.Engine.Read
use cachebox.Engine.Completions.{complete_lease-IsValid}
use cachebox.Engine.Lease
use cachebox.Engine.Invariant.{tagged, IsValid}
use cachebox.Engine.Writes.{put-IsValid}
use cachebox.Engine.Reads.{delete-IsValid, get_value-IsValid}
use cachebox.Sharded.Directory.{routes, update_tag_routes, contains-update_tag_routes}
use cachebox.Sharded.Store.{
  complete_lease, ShardedEngine, without_entries, tag_ids_for_entry, tags_if_ok, settle,
  shard_index_for, on_shard, put, delete, get_value,
}
use cachebox.Sharded.Retags.{
  complete_lease-retags, has_tag_id-tagged, contains-without_entries, put-retags, delete-retags,
  get_value-retags,
}

pub record IsSound (s : ShardedEngine) : Type 0 where
  pub valid : (i : ℕ) (e : Engine) → get_elem? s.shards i ≡ some e → IsValid e
  -- a shard with an entry that carries a tag is in the directory under the tag
  pub routed :
      (i : ℕ) (e : Engine) (t : TagId) (id : EntryId)
      → get_elem? s.shards i ≡ some e
      → tagged t id e.entries ≡ true
      → contains i (routes t s.tag_directory) ≡ true
  pub in_range :
      (i : ℕ) (t : TagId) → contains i (routes t s.tag_directory) ≡ true → i < length s.shards

module _ (i : ℕ) (e' : Engine) (add_tags remove_tags : List TagId) {s : ShardedEngine}
    (e : Engine) where
  -- Settling keeps the invariant where the shard is valid, gains no tags but the added ones, and has none of
  -- the removed ones.
  pub settle-IsSound :
      IsSound s
      → get_elem? s.shards i ≡ some e
      → IsValid e'
      → ((t : TagId) (id : EntryId)
          → tagged t id e'.entries ≡ true
          → (tagged t id e.entries ≡ true) ⊎ (contains t add_tags ≡ true))
      → ((t : TagId) (id : EntryId)
          → contains t remove_tags ≡ true
          → tagged t id e'.entries ≡ false)
      → IsSound (settle i e' add_tags remove_tags s)
  unfolding settle
  settle-IsSound sound at_i valid gains loses =
      let lt = get_elem?-lt s.shards i e at_i in
      let here : (j : ℕ) (d : Engine)
          → i ≡ j
          → get_elem? (set_elem s.shards i e') j ≡ some d
          → e' ≡ d =
        λ j d same at_j. some-injective e' d (
          sym (get_elem?-set_elem s.shards i e' lt)
          ∙ (ap (get_elem? (set_elem s.shards i e')) same ∙ at_j)) in
      record {
        valid = λ j d at_j. elim (ℕ_discrete i j) [
          | yes same ↦ subst IsValid (here j d same at_j) valid
          | no ne ↦ sound.valid j d (sym (get_elem?-set_elem_ne s.shards i j e' ne) ∙ at_j)
        ];
        routed = λ j d t id at_j carried. elim (ℕ_discrete i j) [
          | yes same ↦
              let carried' : tagged t id e'.entries ≡ true =
                subst (λ (x : Engine). tagged t id x.entries ≡ true) (sym (here j d same at_j))
                  carried in
              ground (
                arith,
                same,
                gains t id carried',
                loses t id,
                carried',
                contains-update_tag_routes i j t add_tags remove_tags s.tag_directory,
                sound.routed i e t id at_i,
              )
          | no ne ↦ ground (
            arith,
            ne,
            contains-update_tag_routes i j t add_tags remove_tags s.tag_directory,
            sound.routed j d t id (sym (get_elem?-set_elem_ne s.shards i j e' ne) ∙ at_j) carried,
          )
        ];
        in_range = λ j t there. ground (
          arith,
          lt,
          there,
          length-set_elem s.shards i e',
          contains-update_tag_routes i j t add_tags remove_tags s.tag_directory,
          sound.in_range j t,
        );
      }

in_dead :
    (t : TagId) (removed : Bool) (dead : List TagId)
    → contains t (if removed then dead else []) ≡ true
    → contains t dead ≡ true
unfolding contains
in_dead t true dead there = there
in_dead t false dead there = ground (arith, there)

nowhere : (t : TagId) → contains t [] ≡ true → ⊥
unfolding contains
nowhere t there = ground (arith, there)

module _ (h : Hashing) (s : ShardedEngine) where
  -- The shard of a key is there.
  pub shard_found :
      0 < length s.shards
      → (namespace : Text) (key : Bytes)
      → (e : Engine) × (get_elem? s.shards (shard_index_for h namespace key s) ≡ some e)
  unfolding shard_index_for
  shard_found some_shard namespace key = lt-get_elem? s.shards _ (omega arith)

  -- With at least one shard, a put on a sound engine returns, and leads to a sound engine.
  pub put-IsSound :
      (clock : Clock) (command : PutCommand)
      → 0 < length s.shards
      → IsSound s
      → (s' : ShardedEngine) × (result : Result PutError PutOutcome) × (put h clock command s
          ≡ some (s', result))
        × IsSound s'
  unfolding put
  put-IsSound clock command some_shard sound =
      let (e, found) = shard_found some_shard command.namespace command.key in
      let i = shard_index_for h command.namespace command.key s in
      let e' = (Store.put h clock command e).0 in
      let result = (Store.put h clock command e).1 in
      let add_tags = tags_if_ok result (tag_ids command.namespace command.tags) in
      let dead = without_entries e' (tag_ids_for_entry command.namespace command.key e) in
      let valid' = put-IsValid h clock command e (sound.valid i e found) in
      (
        settle i e' add_tags dead s,
        result,
        rw (found, put) refl,
        settle-IsSound i e' add_tags dead e sound found valid'
            (λ t id. put-retags h clock command e t id (sound.valid i e found))
            (λ t id there.
              has_tag_id-tagged t id e' valid' (contains-without_entries t e' _ there)),
      )

  -- With at least one shard, a delete on a sound engine returns, and leads to a sound engine.
  pub delete-IsSound :
      (namespace : Text) (key : Bytes)
      → 0 < length s.shards
      → IsSound s
      → (s' : ShardedEngine) × (removed : Bool) × (delete h namespace key s ≡ some (s', removed))
        × IsSound s'
  unfolding delete
  delete-IsSound namespace key some_shard sound =
      let (e, found) = shard_found some_shard namespace key in
      let i = shard_index_for h namespace key s in
      let e' = (Read.delete namespace key e).0 in
      let removed = (Read.delete namespace key e).1 in
      let dead = without_entries e' (tag_ids_for_entry namespace key e) in
      let valid' = delete-IsValid namespace key e (sound.valid i e found) in
      (
        settle i e' [] (if removed then dead else []) s,
        removed,
        rw (found, delete) refl,
        settle-IsSound i e' [] (if removed then dead else []) e sound found valid'
            (λ t id carried. inl (delete-retags t id e namespace key carried))
            (λ t id there.
              has_tag_id-tagged t id e' valid'
                (contains-without_entries t e' _ (in_dead t removed dead there))),
      )

  -- With at least one shard, a read on a sound engine returns, and leads to a sound engine.
  pub get_value-IsSound :
      (now_ms : ℕ) (namespace : Text) (key : Bytes)
      → 0 < length s.shards
      → IsSound s
      → (s' : ShardedEngine) × (outcome : GetOutcome) × (get_value h now_ms namespace key s
          ≡ some (s', outcome))
        × IsSound s'
  unfolding get_value on_shard settle update_tag_routes
  get_value-IsSound now_ms namespace key some_shard sound =
      let (e, found) = shard_found some_shard namespace key in
      let i = shard_index_for h namespace key s in
      let e' = (Read.get_value now_ms namespace key e).0 in
      let valid' = get_value-IsValid now_ms namespace key e (sound.valid i e found) in
      let sound' : IsSound (settle i e' [] [] s) =
        settle-IsSound i e' [] [] e sound found valid'
          (λ t id carried. inl (get_value-retags t id e now_ms namespace key carried))
          (λ t id there. absurd (nowhere t there)) in
      (
        settle i e' [] [] s,
        (Read.get_value now_ms namespace key e).1,
        rw (found, on_shard) refl,
        sound',
      )

  -- With at least one shard, the completion of a lease on a sound engine returns, and leads to a sound engine.
  pub complete_lease-IsSound :
      (clock : Clock) (command : CompleteLeaseCommand)
      → 0 < length s.shards
      → IsSound s
      → (s' : ShardedEngine) × (result : Result CompleteLeaseError PutOutcome) × (complete_lease h
            clock command s
          ≡ some (s', result))
        × IsSound s'
  unfolding complete_lease
  complete_lease-IsSound clock command some_shard sound =
      let (e, found) = shard_found some_shard command.namespace command.key in
      let i = shard_index_for h command.namespace command.key s in
      let e' = (Lease.complete_lease h clock command e).0 in
      let result = (Lease.complete_lease h clock command e).1 in
      let add_tags = tags_if_ok result (tag_ids command.namespace command.tags) in
      let dead = without_entries e' (tag_ids_for_entry command.namespace command.key e) in
      let valid' = complete_lease-IsValid h clock command e (sound.valid i e found) in
      (
        settle i e' add_tags dead s,
        result,
        rw (found, complete_lease) refl,
        settle-IsSound i e' add_tags dead e sound found valid'
            (λ t id. complete_lease-retags h clock command e t id (sound.valid i e found))
            (λ t id there.
              has_tag_id-tagged t id e' valid' (contains-without_entries t e' _ there)),
      )
