-- ===== src/Engine/Costs/Removals.antt =====
-- Removals, expiry, eviction and accesses of src/engine.rs keep the cost counter right.
use cachebox.Prelude.{
  ℕ, ◌+◌, ◌≡◌, refl, inl, inr, Bool, true, false, some, List, [], ◌∷◌, arith, if◌then◌else◌,
  Option-cases, length, saturating_add, u64_max,
}
use cachebox.Prelude.Map.{get, total, total-remove, remove-Distinct, insert-Distinct}
use cachebox.Prelude.Map
use cachebox.Bytes.{Bytes, Text}
use cachebox.Engine.Types.{
  EntryId, TagId, Entry, EntryState, missing, fresh, stale, expired, Engine, GetOutcome, entry_key,
  tag_key, expiry_key, text_key,
}
use cachebox.Engine.Hashing.{Hashing}
use cachebox.Engine.Entry.{entry_state_at}
use cachebox.Engine.Expiry.{pop_expired}
use cachebox.Engine.Store.{
  Clock, forget_entry, remove_entry, expire_all, remove_expired, reclaim_expired,
  reclaim_expired_budget, over_limit, evict_until_fits, make_room,
}
use cachebox.Engine.Read.{
  entry_id, touch_entry, read_entry, get_ref_inner, get_ref, get_value, delete, batch_get,
  remove_ids, invalidate_tag,
}
use cachebox.Engine.Invariant.{cost_in}
use cachebox.Engine.Invariant.Touch.{touched}
use cachebox.Engine.Invariant.Evict.{evict_loop_inv}
use cachebox.Engine.Costs.{IsCounted, IsCounted-rest}

pub if-IsCounted :
    {n : ℕ} {t u : Engine} (b : Bool)
    → IsCounted n t
    → IsCounted n u
    → IsCounted n (if b then t else u)
if-IsCounted true p q = p
if-IsCounted false p q = q

module _ {n : ℕ} where
  pub remove_entry-IsCounted :
      (id : EntryId) (s : Engine) → IsCounted n s → IsCounted n (remove_entry id s).0
  unfolding remove_entry forget_entry
  remove_entry-IsCounted id s c = elim (Option-cases (get id s.entries)) [
    | inl gone ↦ rw (gone, remove_entry) c
    | inr (e, found) ↦
        let less = total-remove cost_in id e s.entries c.distinct found in
        rw (found, remove_entry)
          (record {
            distinct = remove-Distinct id s.entries c.distinct;
            upper = omega (arith, c.upper, less);
            within = omega (arith, c.within, less);
            lower = omega (arith, c.lower, less);
          })
  ]

  pub touched-IsCounted :
      (id : EntryId) (e : Entry) (access next : ℕ) (s : Engine)
      → get id s.entries ≡ some e
      → IsCounted n s
      → IsCounted n (touched id e access next s)
  unfolding total Map.insert
  touched-IsCounted id e access next s found c =
      let same = total-remove cost_in id e s.entries c.distinct found in
      record {
        distinct = insert-Distinct id (record e { last_access = access }) s.entries c.distinct;
        upper = omega (arith, c.upper, same);
        within = omega (arith, c.within, same);
        lower = omega (arith, c.lower, same);
      }

  expire_all-IsCounted :
      (ids : List EntryId) (s : Engine) (k : ℕ) → IsCounted n s → IsCounted n (expire_all ids s k).0
  unfolding expire_all
  expire_all-IsCounted [] s k c = c
  expire_all-IsCounted (id ∷ ids) s k c =
      let c' = remove_entry-IsCounted id s c in
      expire_all-IsCounted ids _ _
        (if-IsCounted (remove_entry id s).1 (IsCounted-rest _ refl refl c') c')

  pub reclaim_expired_budget-IsCounted :
      (now_ms max_entries : ℕ) (s : Engine)
      → IsCounted n s
      → IsCounted n (reclaim_expired_budget now_ms max_entries s).0
  unfolding reclaim_expired_budget remove_expired
  reclaim_expired_budget-IsCounted now_ms max_entries s c =
      let popped = pop_expired now_ms max_entries s.expiry_index in
      let t : Engine = record s { expiry_index = popped.1 } in
      expire_all-IsCounted popped.0 t 0 (IsCounted-rest t refl refl c)

  pub make_room-IsCounted :
      (h : Hashing) (now_ms : ℕ) (id : EntryId) (bytes : ℕ) (s : Engine)
      → IsCounted n s
      → IsCounted n (make_room h now_ms id bytes s).0
  unfolding make_room evict_until_fits reclaim_expired
  make_room-IsCounted h now_ms id bytes s c =
      let c' = remove_entry-IsCounted id s c in
      let s' = (remove_entry id s).0 in
      let swept = if over_limit bytes s' then (reclaim_expired now_ms s').0 else s' in
      evict_loop_inv h (IsCounted n) (λ id t p. remove_entry-IsCounted id t p)
        (λ stats t p. IsCounted-rest _ refl refl p) (length swept.entries + 1) bytes swept 0
        (if-IsCounted (over_limit bytes (remove_entry id s).0)
          (reclaim_expired_budget-IsCounted now_ms u64_max _ c') c')

  remove_ids-IsCounted :
      (ids : List EntryId) (s : Engine) (k : ℕ) → IsCounted n s → IsCounted n (remove_ids ids s k).0
  unfolding remove_ids
  remove_ids-IsCounted [] s k c = c
  remove_ids-IsCounted (id ∷ ids) s k c =
      remove_ids-IsCounted ids _ _ (remove_entry-IsCounted id s c)

  pub invalidate_tag-IsCounted :
      (h : Hashing) (namespace tag : Text) (s : Engine)
      → IsCounted n s
      → IsCounted n (invalidate_tag h namespace tag s).0
  unfolding invalidate_tag
  invalidate_tag-IsCounted h namespace tag s c =
      elim (Option-cases (get (record { namespace = namespace; tag = tag }) s.tag_index)) [
        | inl unused ↦ rw (unused, invalidate_tag) c
        | inr (ids, used) ↦
            let tag_id : TagId = record { namespace = namespace; tag = tag } in
            let t : Engine = record s { tag_index = Map.remove tag_id s.tag_index } in
            rw (used, invalidate_tag)
              (remove_ids-IsCounted (h.id_order ids) t 0 (IsCounted-rest t refl refl c))
      ]

  pub delete-IsCounted :
      (namespace : Text) (key : Bytes) (s : Engine)
      → IsCounted n s
      → IsCounted n (delete namespace key s).0
  unfolding delete
  delete-IsCounted namespace key s c =
      let id = entry_id namespace key in
      let t : Engine = record s { leases = Map.remove id s.leases } in
      remove_entry-IsCounted id t (IsCounted-rest t refl refl c)

  read_entry-IsCounted :
      (id : EntryId) (e : Entry) (update : Bool) (state : EntryState) (s : Engine)
      → get id s.entries ≡ some e
      → IsCounted n s
      → IsCounted n (read_entry id e update state s).0
  unfolding read_entry touch_entry
  read_entry-IsCounted id e update missing s found c = c
  read_entry-IsCounted id e update fresh s found c =
      if-IsCounted update
        (touched-IsCounted id e s.next_access (saturating_add s.next_access 1) s found c) c
  read_entry-IsCounted id e update stale s found c =
      if-IsCounted update
        (touched-IsCounted id e s.next_access (saturating_add s.next_access 1) s found c) c
  read_entry-IsCounted id e update expired s found c = remove_entry-IsCounted id s c

  pub get_ref_inner-IsCounted {ℓ} :
      {R : Type ℓ} (now_ms : ℕ) (namespace : Text) (key : Bytes) (update : Bool)
      (map : GetOutcome → R) (s : Engine)
      → IsCounted n s
      → IsCounted n (get_ref_inner now_ms namespace key update map s).0
  unfolding get_ref_inner
  get_ref_inner-IsCounted now_ms namespace key update map s c =
      elim (Option-cases (get (entry_id namespace key) s.entries)) [
        | inl gone ↦ rw (gone, get_ref_inner) c
        | inr (e, found) ↦
            rw (found, get_ref_inner)
              (read_entry-IsCounted (entry_id namespace key) e update (entry_state_at e now_ms) s
                found c)
      ]

  pub batch_get-IsCounted :
      (clock : Clock) (namespace : Text) (keys : List Bytes) (s : Engine)
      → IsCounted n s
      → IsCounted n (batch_get clock namespace keys s).0
  unfolding batch_get get_value get_ref
  batch_get-IsCounted clock namespace [] s c = c
  batch_get-IsCounted clock namespace (key ∷ keys) s c =
      batch_get-IsCounted (λ i. clock (i + 1)) namespace keys _
        (get_ref_inner-IsCounted (clock 0) namespace key true (λ outcome. outcome) s c)
