-- ===== src/Engine/Read.antt =====
-- `get`, `delete`, `batch_get` and `invalidate_tag` of src/engine.rs.
use cachebox.Prelude.{
  ℕ, ◌+◌, Bool, false, true, none, some, List, [], ◌∷◌, if◌then◌else◌, saturating_add,
}
use cachebox.Prelude.Map.{get}
use cachebox.Prelude.Map
use cachebox.Engine.Types.{
  Bytes, Text, EntryId, TagId, Entry, EntryState, missing, fresh, expired, Engine, GetOutcome, miss,
  entry_key, tag_key,
}
use cachebox.Engine.Entry.{entry_state_at}
use cachebox.Engine.Hashing.{Hashing}
use cachebox.Engine.Store.{Clock, remove_entry}

abbrev pub entry_id : Text → Bytes → EntryId
entry_id namespace key = record { namespace = namespace; key = key }

-- The update of `last_access` through `get_mut`.
unfoldable pub touch_entry : EntryId → Entry → Engine → Engine
touch_entry id entry s = record s {
  next_access = saturating_add s.next_access 1;
  entries = Map.insert id (record entry { last_access = s.next_access }) s.entries;
}

-- The `match` on the state of an entry that is there. `EntryState::Missing` does not occur.
unfoldable pub read_entry : EntryId → Entry → Bool → EntryState → Engine → Engine × GetOutcome
read_entry id entry update_access missing s = (s, miss)
read_entry id entry update_access expired s = ((remove_entry id s).0, miss)
read_entry id entry update_access fresh s =
    (if update_access then touch_entry id entry s else s, GetOutcome.hit entry.value)
read_entry id entry update_access EntryState.stale s =
    (if update_access then touch_entry id entry s else s, GetOutcome.stale entry.value)

-- `map` is applied last, to the outcome that it borrows.
unfoldable pub get_ref_inner {ℓ} :
    {R : Type ℓ} → ℕ → Text → Bytes → Bool → (GetOutcome → R) → Engine → Engine × R
get_ref_inner now_ms namespace key update_access map s =
    let id = entry_id namespace key in
    elim (get id s.entries) [
      | none ↦ (s, map miss)
      | some entry ↦
          let (s', outcome) = read_entry id entry update_access (entry_state_at entry now_ms) s in
          (s', map outcome)
    ]

unfoldable pub get_ref {ℓ} :
    {R : Type ℓ} → ℕ → Text → Bytes → (GetOutcome → R) → Engine → Engine × R
get_ref now_ms namespace key map s = get_ref_inner now_ms namespace key true map s

unfoldable pub get_ref_without_access_update {ℓ} :
    {R : Type ℓ} → ℕ → Text → Bytes → (GetOutcome → R) → Engine → Engine × R
get_ref_without_access_update now_ms namespace key map s =
    get_ref_inner now_ms namespace key false map s

-- `get` copies what the outcome borrows.
unfoldable pub get_value : ℕ → Text → Bytes → Engine → Engine × GetOutcome
get_value now_ms namespace key s = get_ref now_ms namespace key (λ outcome. outcome) s

unfoldable pub delete : Text → Bytes → Engine → Engine × Bool
delete namespace key s =
    let id = entry_id namespace key in
    remove_entry id (record s { leases = Map.remove id s.leases })

-- The reading for the key at position `i` is `clock i`.
unfoldable pub batch_get : Clock → Text → List Bytes → Engine → Engine × List GetOutcome
batch_get clock namespace [] s = (s, [])
batch_get clock namespace (key ∷ keys) s =
    let (s', outcome) = get_value (clock 0) namespace key s in
    let (s'', outcomes) = batch_get (λ i. clock (i + 1)) namespace keys s' in
    (s'', outcome ∷ outcomes)

-- The loop of `invalidate_tag`.
unfoldable pub remove_ids : List EntryId → Engine → ℕ → Engine × ℕ
remove_ids [] s removed = (s, removed)
remove_ids (id ∷ ids) s removed =
    let (s', gone) = remove_entry id s in remove_ids ids s' (if gone then removed + 1 else removed)

module _ (h : Hashing) where
  unfoldable pub invalidate_tag : Text → Text → Engine → Engine × ℕ
  invalidate_tag namespace tag s =
      let tag_id : TagId = record { namespace = namespace; tag = tag } in
      elim (get tag_id s.tag_index) [
        | none ↦ (s, 0)
        | some ids ↦
            remove_ids (h.id_order ids) (record s { tag_index = Map.remove tag_id s.tag_index }) 0
      ]
