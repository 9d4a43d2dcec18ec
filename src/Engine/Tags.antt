-- ===== src/Engine/Tags.antt =====
-- The tag index of src/engine.rs: for each tag of a namespace, the ids of the entries that carry it.
-- A `HashSet<EntryId>` is a list without order, see `Prelude.Set`.
pub mod Laws
use cachebox.Prelude.{
  is_empty, Bool, false, true, not, Option, none, some, List, [], ◌∷◌, if◌then◌else◌,
}
use cachebox.Prelude.Map.{Assoc, get}
use cachebox.Prelude.Map
use cachebox.Prelude.Set
use cachebox.Engine.Types.{Text, EntryId, TagId, entry_key, tag_key}

abbrev pub TagIndex : Type 0
TagIndex = Assoc TagId (List EntryId)

-- `entry(tag_id).or_default()`, and the ids of a tag in statements.
unfoldable pub ids_of : TagId → TagIndex → List EntryId
ids_of tag_id index = elim (get tag_id index) [ none ↦ [] | some ids ↦ ids ]

abbrev pub tag_id_of : EntryId → Text → TagId
tag_id_of id tag = record { namespace = id.namespace; tag = tag }

-- The loop over the tags in `put`.
unfoldable pub add_tags : EntryId → List Text → TagIndex → TagIndex
unfolding ids_of
add_tags id [] index = index
add_tags id (tag ∷ tags) index =
    let tag_id = tag_id_of id tag in
    add_tags id tags (Map.insert tag_id (Set.insert id (ids_of tag_id index)) index)

-- The body of the loop over the tags in `remove_entry`.
unfoldable pub drop_tag : EntryId → Text → TagIndex → TagIndex
drop_tag id tag index =
    let tag_id = tag_id_of id tag in
    elim (get tag_id index) [
      | none ↦ index
      | some ids ↦
          let left = Set.remove id ids in
          if is_empty left then Map.remove tag_id index else Map.insert tag_id left index
    ]

unfoldable pub drop_tags : EntryId → List Text → TagIndex → TagIndex
unfolding drop_tag
drop_tags id [] index = index
drop_tags id (tag ∷ tags) index = drop_tags id tags (drop_tag id tag index)

-- `has_tag_id`
unfoldable pub has_ids : TagId → TagIndex → Bool
has_ids tag_id index = elim (get tag_id index) [ none ↦ false | some ids ↦ not (is_empty ids) ]
