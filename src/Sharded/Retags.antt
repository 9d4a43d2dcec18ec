-- ===== src/Sharded/Retags.antt =====
-- Which tags a shard of src/engine.rs can gain by an operation.
use cachebox.Prelude.{
  refl, ◌+◌, Result, ok, err, ℕ, ◌≡◌, ◌⊎◌, inl, inr, ite, true, false, List, [], ◌∷◌, arith,
  Option-cases,
}
use cachebox.Prelude.Map.{get, get-insert}
use cachebox.Prelude.Set.{contains}
use cachebox.Engine.Types.{
  Bytes, Text, EntryId, TagId, Engine, PutCommand, entry_key, tag_key, text_key, Text-discrete,
  EntryId-discrete,
}
use cachebox.Engine.Entry.{tag_ids, entry_state_at}
use cachebox.Engine.Tags.{has_ids, ids_of}
use cachebox.Engine.Hashing.{Hashing}
use cachebox.Engine.Store.{Clock, id_of, put}
use cachebox.Engine.Read.{
  entry_id, get_value, get_ref, get_ref_inner, read_entry, touch_entry, delete,
}
use cachebox.Engine.Invariant.{tagged, IsValid}
use cachebox.Engine.Invariant.Remove.{get-remove_entry}
use cachebox.Engine.Writes.{put_outcome, tags-put, put-others}
use cachebox.Engine.Reads.{delete_lem}
use cachebox.Engine.Lease.{active_lease, complete_lease, put_of, map_err}
use cachebox.Engine.Completions.{unleased, completes, rejects, inactive}
use cachebox.Engine.Invariant.Remove.{IsConsistent-rest}
use cachebox.Prelude.Map
use cachebox.Engine.Types.{CompleteLeaseCommand, PutOutcome, PutError, Text-discrete}
use cachebox.Sharded.Store.{has_tag_id, without_entries, tags_if_ok}

-- A tag without ids is carried by no entry.
pub has_tag_id-tagged :
    (t : TagId) (id : EntryId) (e : Engine)
    → IsValid e
    → has_tag_id t e ≡ false
    → tagged t id e.entries ≡ false
unfolding has_tag_id has_ids ids_of contains
has_tag_id-tagged t id e c h = elim (Option-cases (get t e.tag_index)) [
  | inl gone ↦ ground (arith, gone, h, c.indexed t id)
  | inr (ids, found) ↦ elim ids [
    | [] ↦ ground (arith, found, h, c.indexed t id)
    | x ∷ xs ↦ ground (arith, found, h, c.indexed t id)
  ]
]

pub contains-without_entries :
    (t : TagId) (e : Engine) (tags : List TagId)
    → contains t (without_entries e tags) ≡ true
    → has_tag_id t e ≡ false
unfolding without_entries contains
contains-without_entries t e [] h = ground (arith, h)
contains-without_entries t e (u ∷ tags) h = ground (arith, h, contains-without_entries t e tags)

contains-tag_ids :
    (t : TagId) (namespace : Text) (tags : List Text)
    → contains t (tag_ids namespace tags)
      ≡ ite (Text-discrete t.namespace namespace) (contains t.tag tags) false
unfolding tag_ids contains
contains-tag_ids t namespace [] = ground arith
contains-tag_ids t namespace (tag ∷ tags) = ground (arith, contains-tag_ids t namespace tags)

module _ (h : Hashing) (clock : Clock) (command : PutCommand) (e : Engine) (t : TagId)
    (id : EntryId) where
  -- A put brings in no tags but its own, and those only where it succeeds.
  pub put-retags :
      IsValid e
      → tagged t id (put h clock command e).0.entries ≡ true
      → (tagged t id e.entries ≡ true)
        ⊎ (contains t
              (tags_if_ok (put h clock command e).1 (tag_ids command.namespace command.tags))
            ≡ true)
  unfolding tagged tags_if_ok
  put-retags c carried = elim (put_outcome h clock command e c) [
    | inr (inl (_, same)) ↦ inl (rw same at carried)
    | inr (inr (_, _, same)) ↦ inl (rw same at carried)
    | inl (fits, (evicted, done)) ↦ elim (EntryId-discrete (id_of command) id) [
      | no ne ↦ inl (ground (arith, carried, put-others h clock command e id ne c))
      | yes own ↦
          let (stored, found, same) = tags-put h clock command e c fits in
          inr (
            ground (
              arith,
              carried,
              done,
              own,
              found,
              same,
              contains-tag_ids t command.namespace command.tags,
            ))
    ]
  ]

module _ (t : TagId) (id : EntryId) (e : Engine) where
  -- A delete brings in no tags.
  pub delete-retags :
      (namespace : Text) (key : Bytes)
      → tagged t id (delete namespace key e).0.entries ≡ true
      → tagged t id e.entries ≡ true
  unfolding tagged
  delete-retags namespace key carried = ground (arith, carried, (delete_lem namespace key e).1 id)

  -- A read brings in no tags.
  pub get_value-retags :
      (now_ms : ℕ) (namespace : Text) (key : Bytes)
      → tagged t id (get_value now_ms namespace key e).0.entries ≡ true
      → tagged t id e.entries ≡ true
  unfolding tagged get_value get_ref get_ref_inner read_entry touch_entry entry_state_at
  get_value-retags now_ms namespace key carried =
      elim (Option-cases (get (entry_id namespace key) e.entries)) [
        | inl gone ↦ rw (gone, get_ref_inner) at carried
        | inr (old, found) ↦ ground (
          arith,
          found,
          carried,
          get-insert (entry_id namespace key) id (record old { last_access = e.next_access })
              e.entries,
          get-remove_entry (entry_id namespace key) id e,
        )
      ]

tags_if_ok-map_err :
    (result : Result PutError PutOutcome) (tags : List TagId)
    → tags_if_ok (map_err result) tags ≡ tags_if_ok result tags
unfolding tags_if_ok
tags_if_ok-map_err (ok outcome) tags = refl
tags_if_ok-map_err (err error) tags = refl

-- A completion brings in no tags but its own, and those only where it succeeds.
pub complete_lease-retags :
    (h : Hashing) (clock : Clock) (command : CompleteLeaseCommand) (e : Engine) (t : TagId)
    (id : EntryId)
    → IsValid e
    → tagged t id (complete_lease h clock command e).0.entries ≡ true
    → (tagged t id e.entries ≡ true)
      ⊎ (contains t (
            tags_if_ok
              (complete_lease h clock command e).1
              (tag_ids command.namespace command.tags))
          ≡ true)
complete_lease-retags h clock command e t id c carried =
    let key_id = entry_id command.namespace command.key in
    elim (Option-cases (active_lease (clock 0) key_id e)) [
      | inl free ↦ inl (rw (inactive h clock command e free) at carried)
      | inr (lease, active) ↦ elim (Text-discrete lease.token command.lease_token) [
        | no other ↦ inl (rw (rejects h clock command e lease active other) at carried)
        | yes same ↦
            let c' : IsValid (unleased h clock command e) =
              IsConsistent-rest (Map.remove key_id e.leases) e.next_access e.stats c in
            let carried' = rw (completes h clock command e lease active same) at carried in
            elim (put-retags h (λ i. clock (i + 1)) (put_of command) (unleased h clock command e) t
              id c' carried') [
                | inl had ↦ inl had
                | inr own ↦ inr (
                    rw (completes h clock command e lease active same) (
                      rw
                        (tags_if_ok-map_err
                          (put h (λ i. clock (i + 1)) (put_of command)
                            (unleased h clock command e)).1
                          (tag_ids command.namespace command.tags))
                        own))
              ]
      ]
    ]
