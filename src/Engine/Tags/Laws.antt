-- ===== src/Engine/Tags/Laws.antt =====
-- What the tag index of src/engine.rs holds after tags are added or dropped.
use cachebox.Prelude.{
  empty_of_is_empty, ◌≡◌, Bool, true, false, ◌||◌, List, [], ◌∷◌, arith, ite, if◌then◌else◌,
  Option-cases, inl, inr,
}
use cachebox.Prelude.Map.{Assoc, get, get-insert, get-remove}
use cachebox.Prelude.Map
use cachebox.Prelude.Set.{contains, contains-insert, contains-remove}
use cachebox.Prelude.Set
use cachebox.Engine.Types.{
  Text, EntryId, TagId, entry_key, tag_key, text_key, Text-discrete, EntryId-discrete,
  TagId-discrete,
}
use cachebox.Engine.Tags.{TagIndex, ids_of, tag_id_of, add_tags, drop_tag, drop_tags}

-- An entry `id` that carries `tags` belongs under `t`.
abbrev pub belongs : TagId → EntryId → List Text → Bool
belongs t id tags = ite (Text-discrete t.namespace id.namespace) (contains t.tag tags) false

ids_of-add_one :
    (t : TagId) (id j : EntryId) (tag : Text) (index : TagIndex)
    → contains j (
        ids_of t
          (Map.insert (tag_id_of id tag) (Set.insert id (ids_of (tag_id_of id tag) index)) index))
      ≡ ite
          (TagId-discrete (tag_id_of id tag) t)
          (ite (EntryId-discrete id j) true (contains j (ids_of t index)))
          (contains j (ids_of t index))
unfolding ids_of contains
ids_of-add_one t id j tag index = ground (
  arith,
  get-insert (tag_id_of id tag) t (Set.insert id (ids_of (tag_id_of id tag) index)) index,
  contains-insert id j (ids_of (tag_id_of id tag) index),
)

pub contains-add_tags :
    (t : TagId) (id j : EntryId) (tags : List Text) (index : TagIndex)
    → contains j (ids_of t (add_tags id tags index))
      ≡ ite
          (EntryId-discrete id j)
          (belongs t id tags || contains j (ids_of t index))
          (contains j (ids_of t index))
unfolding add_tags contains
contains-add_tags t id j [] index = ground arith
contains-add_tags t id j (tag ∷ tags) index = ground (
  arith,
  contains-add_tags t id j tags
      (Map.insert (tag_id_of id tag) (Set.insert id (ids_of (tag_id_of id tag) index)) index),
  ids_of-add_one t id j tag index,
)

ids_of-drop_tag :
    (t : TagId) (id j : EntryId) (tag : Text) (index : TagIndex)
    → contains j (ids_of t (drop_tag id tag index))
      ≡ ite
          (TagId-discrete (tag_id_of id tag) t)
          (ite (EntryId-discrete id j) false (contains j (ids_of t index)))
          (contains j (ids_of t index))
unfolding ids_of drop_tag contains
ids_of-drop_tag t id j tag index = elim (Option-cases (get (tag_id_of id tag) index)) [
  | inl gone ↦ ground (arith, gone)
  | inr (ids, found) ↦ ground (
    arith,
    found,
    empty_of_is_empty (Set.remove id ids),
    get-remove (tag_id_of id tag) t index,
    get-insert (tag_id_of id tag) t (Set.remove id ids) index,
    contains-remove id j ids,
  )
]

pub contains-drop_tags :
    (t : TagId) (id j : EntryId) (tags : List Text) (index : TagIndex)
    → contains j (ids_of t (drop_tags id tags index))
      ≡ ite
          (EntryId-discrete id j)
          (ite
            (Text-discrete t.namespace id.namespace)
            (if contains t.tag tags then false else contains j (ids_of t index))
            (contains j (ids_of t index)))
          (contains j (ids_of t index))
unfolding drop_tags contains
contains-drop_tags t id j [] index = ground arith
contains-drop_tags t id j (tag ∷ tags) index = ground (
  arith,
  contains-drop_tags t id j tags (drop_tag id tag index),
  ids_of-drop_tag t id j tag index,
)
