-- ===== src/Engine/Reads.antt =====
-- What the reads and `delete` of src/engine.rs promise.
use cachebox.Prelude.{
  ℕ, ◌+◌, ◌≤◌, ◌≡◌, refl, ap, ◌∙◌, inl, inr, ite, Bool, true, false, none, some, List, [], ◌∷◌,
  arith, if◌then◌else◌, Option-cases, is_some, saturating_add,
}
use cachebox.Prelude.Map.{Assoc, get, get-insert, get-remove}
use cachebox.Prelude.Map
use cachebox.Engine.Types.{
  Bytes, Text, EntryId, Entry, EntryState, missing, fresh, stale, expired, Engine, GetOutcome,
  entry_key, tag_key, expiry_key, text_key, EntryId-discrete,
}
use cachebox.Engine.Entry.{entry_state_at}
use cachebox.Engine.Store.{Clock}
use cachebox.Engine.Read.{
  entry_id, touch_entry, read_entry, get_ref_inner, get_ref, get_ref_without_access_update,
  get_value, delete, batch_get,
}
use cachebox.Engine.View.{view}
use cachebox.Engine.Invariant.{IsValid}
use cachebox.Engine.Invariant.Remove.{
  IsConsistent-rest, remove_entry-IsConsistent, get-remove_entry, remove_entry-found,
  leases-remove_entry,
}
use cachebox.Engine.Invariant.Touch.{touched-IsValid}

module _ (id : EntryId) (e : Entry) (s : Engine) (found : get id s.entries ≡ some e) where
  accessed : Bool → Engine
  accessed update = if update then touch_entry id e s else s

  accessed-IsValid : (update : Bool) → IsValid s → IsValid (accessed update)
  unfolding accessed touch_entry
  accessed-IsValid true c =
      touched-IsValid id e s.next_access (saturating_add s.next_access 1) c found
  accessed-IsValid false c = c

  read_entry-IsValid :
      (update : Bool) (state : EntryState) → IsValid s → IsValid (read_entry id e update state s).0
  unfolding read_entry accessed
  read_entry-IsValid update missing c = c
  read_entry-IsValid update fresh c = accessed-IsValid update c
  read_entry-IsValid update stale c = accessed-IsValid update c
  read_entry-IsValid update expired c = remove_entry-IsConsistent id c

  view-accessed :
      (update : Bool) (at_ms : ℕ) (j : EntryId) → view at_ms j (accessed update) ≡ view at_ms j s
  unfolding accessed touch_entry view entry_state_at
  view-accessed true at_ms j =
      ground (arith, found, get-insert id j (record e { last_access = s.next_access }) s.entries)
  view-accessed false at_ms j = refl

  view-read_entry :
      (update : Bool) (now_ms at_ms : ℕ) (j : EntryId)
      → now_ms ≤ at_ms
      → view at_ms j (read_entry id e update (entry_state_at e now_ms) s).0 ≡ view at_ms j s
  unfolding read_entry accessed view entry_state_at
  view-read_entry update now_ms at_ms j later =
      ground (arith, found, view-accessed update at_ms j, get-remove_entry id j s)

module _ (now_ms : ℕ) (namespace : Text) (key : Bytes) (s : Engine) where
  -- A read returns what the view of the key says at the reading of the clock.
  pub view-get_value : (get_value now_ms namespace key s).1 ≡ view now_ms (entry_id namespace key) s
  unfolding get_value get_ref get_ref_inner read_entry view
  view-get_value = ground arith

  -- From a valid engine a read leads to a valid engine.
  pub get_value-IsValid : IsValid s → IsValid (get_value now_ms namespace key s).0
  unfolding get_value get_ref get_ref_inner
  get_value-IsValid c = elim (Option-cases (get (entry_id namespace key) s.entries)) [
    | inl gone ↦ rw (gone, get_ref_inner) c
    | inr (e, found) ↦
        rw (found, get_ref_inner)
          (read_entry-IsValid (entry_id namespace key) e s found true (entry_state_at e now_ms) c)
  ]

  pub get_ref_without_access_update-IsValid :
      IsValid s
      → IsValid (get_ref_without_access_update now_ms namespace key (λ outcome. outcome) s).0
  unfolding get_ref_without_access_update get_ref_inner
  get_ref_without_access_update-IsValid c =
      elim (Option-cases (get (entry_id namespace key) s.entries)) [
        | inl gone ↦ rw (gone, get_ref_inner) c
        | inr (e, found) ↦
            rw (found, get_ref_inner)
              (read_entry-IsValid (entry_id namespace key) e s found false (entry_state_at e now_ms)
                c)
      ]

  -- A read changes nothing that a read at the same time or later can see, under any key.
  pub get_value-transparent :
      (at_ms : ℕ) (j : EntryId)
      → now_ms ≤ at_ms
      → view at_ms j (get_value now_ms namespace key s).0 ≡ view at_ms j s
  unfolding get_value get_ref get_ref_inner
  get_value-transparent at_ms j later =
      elim (Option-cases (get (entry_id namespace key) s.entries)) [
        | inl gone ↦ rw (gone, get_ref_inner) refl
        | inr (e, found) ↦
            rw (found, get_ref_inner)
              (view-read_entry (entry_id namespace key) e s found true now_ms at_ms j later)
      ]

-- What a batch should return: the view of each key at its reading of the clock.
unfoldable pub views : Clock → Text → List Bytes → Engine → List GetOutcome
views clock namespace [] s = []
views clock namespace (key ∷ keys) s =
    view (clock 0) (entry_id namespace key) s ∷ views (λ i. clock (i + 1)) namespace keys s

views-cong :
    (clock : Clock) (namespace : Text) (keys : List Bytes) (s t : Engine) (bound : ℕ)
    → ((i : ℕ) → bound ≤ clock i)
    → ((at_ms : ℕ) (j : EntryId) → bound ≤ at_ms → view at_ms j t ≡ view at_ms j s)
    → views clock namespace keys t ≡ views clock namespace keys s
unfolding views
views-cong clock namespace [] s t bound late same = refl
views-cong clock namespace (key ∷ keys) s t bound late same =
    rw (same (clock 0) (entry_id namespace key) (late 0)) (
      ap (◌∷◌ (view (clock 0) (entry_id namespace key) s))
        (views-cong (λ i. clock (i + 1)) namespace keys s t bound (λ i. late (i + 1)) same))

-- With a clock that does not run backwards, a batch returns for every key what the view of the engine before
-- the batch says, at the reading of the clock for that key.
pub batch_get-views :
    (clock : Clock) (namespace : Text) (keys : List Bytes) (s : Engine)
    → ((i j : ℕ) → i ≤ j → clock i ≤ clock j)
    → (batch_get clock namespace keys s).1 ≡ views clock namespace keys s
unfolding batch_get views
batch_get-views clock namespace [] s mono = refl
batch_get-views clock namespace (key ∷ keys) s mono =
    let t = (get_value (clock 0) namespace key s).0 in
    let later : Clock = λ i. clock (i + 1) in
    rw (view-get_value (clock 0) namespace key s) (
      ap (◌∷◌ (view (clock 0) (entry_id namespace key) s)) (
        batch_get-views later namespace keys t (λ i j le. mono (i + 1) (j + 1) (omega arith))
        ∙ views-cong later namespace keys s t (clock 0) (λ i. mono 0 (i + 1) (omega arith))
            (λ at_ms j le. get_value-transparent (clock 0) namespace key s at_ms j le)))

-- From a valid engine a batch of reads leads to a valid engine.
pub batch_get-IsValid :
    (clock : Clock) (namespace : Text) (keys : List Bytes) (s : Engine)
    → IsValid s
    → IsValid (batch_get clock namespace keys s).0
unfolding batch_get
batch_get-IsValid clock namespace [] s c = c
batch_get-IsValid clock namespace (key ∷ keys) s c =
    batch_get-IsValid (λ i. clock (i + 1)) namespace keys _
      (get_value-IsValid (clock 0) namespace key s c)

module _ (namespace : Text) (key : Bytes) (s : Engine) where
  -- From a valid engine a delete leads to a valid engine.
  pub delete-IsValid : IsValid s → IsValid (delete namespace key s).0
  unfolding delete
  delete-IsValid c =
      remove_entry-IsConsistent (entry_id namespace key)
        (IsConsistent-rest (Map.remove (entry_id namespace key) s.leases) s.next_access s.stats c)

  -- `delete` says whether there was an entry, and takes away that entry and its lease, and no other.
  pub delete_lem :
      ((delete namespace key s).1 ≡ is_some (get (entry_id namespace key) s.entries))
      × ((j : EntryId)
          → get j (delete namespace key s).0.entries
            ≡ ite (EntryId-discrete (entry_id namespace key) j) none (get j s.entries))
      × ((j : EntryId)
          → get j (delete namespace key s).0.leases
            ≡ ite (EntryId-discrete (entry_id namespace key) j) none (get j s.leases))
  unfolding delete
  delete_lem =
      let id = entry_id namespace key in
      let t = record s { leases = Map.remove id s.leases } in
      (
        remove_entry-found id t,
        λ j. get-remove_entry id j t,
        λ j. ground (arith, leases-remove_entry id j t, get-remove id j s.leases),
      )
