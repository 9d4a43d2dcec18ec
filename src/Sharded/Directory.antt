-- ===== src/Sharded/Directory.antt =====
-- The tag directory of the sharded engine of src/engine.rs: for each tag, the shards that may hold
-- entries with it.
use cachebox.Prelude.{
  is_empty, empty_of_is_empty, ℕ, ◌≡◌, inl, inr, ite, false, ◌&&◌, ◌||◌, none, some, List, [], ◌∷◌,
  arith, ℕ_discrete, if◌then◌else◌, Option-cases,
}
use cachebox.Prelude.Map.{Assoc, get, get-insert, get-remove}
use cachebox.Prelude.Map
use cachebox.Prelude.Set.{contains, contains-insert, contains-remove}
use cachebox.Prelude.Set
use cachebox.Engine.Types.{TagId, TagId-discrete, tag_key, index_key}

abbrev pub Directory : Type 0
Directory = Assoc TagId (List ℕ)

-- `entry(tag_id).or_default()`, and the shards of a tag in statements.
unfoldable pub routes : TagId → Directory → List ℕ
routes tag_id directory = elim (get tag_id directory) [ none ↦ [] | some indices ↦ indices ]

-- The body of the first loop of `update_tag_routes`, and the loop.
unfoldable pub drop_route : ℕ → TagId → Directory → Directory
drop_route shard_index tag_id directory = elim (get tag_id directory) [
  | none ↦ directory
  | some indices ↦
      let left = Set.remove shard_index indices in
      if is_empty left then Map.remove tag_id directory else Map.insert tag_id left directory
]

unfoldable pub drop_routes : ℕ → List TagId → Directory → Directory
unfolding drop_route
drop_routes shard_index [] directory = directory
drop_routes shard_index (tag_id ∷ tag_ids) directory =
    drop_routes shard_index tag_ids (drop_route shard_index tag_id directory)

-- The second loop.
unfoldable pub add_routes : ℕ → List TagId → Directory → Directory
unfolding routes
add_routes shard_index [] directory = directory
add_routes shard_index (tag_id ∷ tag_ids) directory =
    add_routes shard_index tag_ids
      (Map.insert tag_id (Set.insert shard_index (routes tag_id directory)) directory)

unfoldable pub update_tag_routes : ℕ → List TagId → List TagId → Directory → Directory
update_tag_routes shard_index add_tags remove_tags directory =
    if is_empty add_tags && is_empty remove_tags
    then directory
    else add_routes shard_index add_tags (drop_routes shard_index remove_tags directory)

contains-add_routes :
    (i j : ℕ) (t : TagId) (tags : List TagId) (d : Directory)
    → contains j (routes t (add_routes i tags d))
      ≡ ite (ℕ_discrete i j) (contains t tags || contains j (routes t d)) (contains j (routes t d))
unfolding add_routes contains routes
contains-add_routes i j t [] d = ground arith
contains-add_routes i j t (u ∷ tags) d = ground (
  arith,
  contains-add_routes i j t tags (Map.insert u (Set.insert i (routes u d)) d),
  get-insert u t (Set.insert i (routes u d)) d,
  contains-insert i j (routes u d),
)

contains-drop_route :
    (i j : ℕ) (t u : TagId) (d : Directory)
    → contains j (routes t (drop_route i u d))
      ≡ ite
          (TagId-discrete u t)
          (ite (ℕ_discrete i j) false (contains j (routes t d)))
          (contains j (routes t d))
unfolding drop_route contains routes
contains-drop_route i j t u d = elim (Option-cases (get u d)) [
  | inl gone ↦ ground (arith, gone)
  | inr (ids, found) ↦ ground (
    arith,
    found,
    empty_of_is_empty (Set.remove i ids),
    get-remove u t d,
    get-insert u t (Set.remove i ids) d,
    contains-remove i j ids,
  )
]

contains-drop_routes :
    (i j : ℕ) (t : TagId) (tags : List TagId) (d : Directory)
    → contains j (routes t (drop_routes i tags d))
      ≡ ite
          (ℕ_discrete i j)
          (if contains t tags then false else contains j (routes t d))
          (contains j (routes t d))
unfolding drop_routes contains
contains-drop_routes i j t [] d = ground arith
contains-drop_routes i j t (u ∷ tags) d =
    ground
      (arith, contains-drop_routes i j t tags (drop_route i u d), contains-drop_route i j t u d)

-- An update changes the routes to its own shard: those of the added tags are there, those of the removed
-- tags are not, and the others stay.
pub contains-update_tag_routes :
    (i j : ℕ) (t : TagId) (add_tags remove_tags : List TagId) (d : Directory)
    → contains j (routes t (update_tag_routes i add_tags remove_tags d))
      ≡ ite
          (ℕ_discrete i j)
          (contains t add_tags
            || (if contains t remove_tags then false else contains j (routes t d)))
          (contains j (routes t d))
unfolding update_tag_routes contains
contains-update_tag_routes i j t [] [] d = ground arith
contains-update_tag_routes i j t (u ∷ add_tags) remove_tags d = ground (
  arith,
  contains-add_routes i j t (u ∷ add_tags) (drop_routes i remove_tags d),
  contains-drop_routes i j t remove_tags d,
)
contains-update_tag_routes i j t [] (u ∷ remove_tags) d = ground (
  arith,
  contains-add_routes i j t [] (drop_routes i (u ∷ remove_tags) d),
  contains-drop_routes i j t (u ∷ remove_tags) d,
)
