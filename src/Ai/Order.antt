-- ===== src/Ai/Order.antt =====
-- `canonical_json` of clients/rust/cachebox-client/src/ai.rs does not depend on the order of the fields.
use cachebox.Prelude.{
  ◌≡◌, refl, sym, ap, ◌∙◌, ◌≢◌, true, false, not, List, [], ◌∷◌, ◌++◌, map, arith, All,
}
use mathlib.Core.Path.{subst}
use mathlib.Core.List.{Permᴰ}
use cachebox.Bytes.{Text}
use cachebox.Ai.Json.{
  Value, Fields, end, field, less, Item, insert_item, sort_items, join, field_text, object_text,
  canonical_json, canonical_fields,
}

less_total : (x y : Text) → x ≢ y → less x y ≡ not (less y x)
unfolding less
less_total [] [] ne = absurd (ne refl)
less_total [] (y ∷ ys) ne = refl
less_total (x ∷ xs) [] ne = refl
less_total (x ∷ xs) (y ∷ ys) ne = ground (arith, ne, less_total xs ys)

less_trans : (x y z : Text) → less z y ≡ false → less z x ≡ true → less y x ≡ true
unfolding less
less_trans [] [] [] a b = b
less_trans [] [] (z ∷ zs) a b = b
less_trans [] (y ∷ ys) [] a b = b
less_trans [] (y ∷ ys) (z ∷ zs) a b = b
less_trans (x ∷ xs) [] z a b = refl
less_trans (x ∷ xs) (y ∷ ys) [] a b = ground (arith, a)
less_trans (x ∷ xs) (y ∷ ys) (z ∷ zs) a b = ground (arith, a, b, less_trans xs ys zs)

insert_item_comm :
    (a b : Item) (l : List Item)
    → a.0 ≢ b.0
    → insert_item a (insert_item b l) ≡ insert_item b (insert_item a l)
unfolding insert_item
insert_item_comm a b [] ne = ground (arith, less_total a.0 b.0 ne)
insert_item_comm a b (z ∷ zs) ne = ground (
  arith,
  less_total a.0 b.0 ne,
  insert_item_comm a b zs ne,
  less_trans a.0 b.0 z.0,
  less_trans b.0 a.0 z.0,
)

-- No key stands twice.
abbrev pub IsDistinct : List Item → Type 0
IsDistinct [] = Unit
IsDistinct (x ∷ xs) = All (λ y. x.0 ≢ y.0) xs × IsDistinct xs

All-Permᴰ : {A : Type 0} (P : A → Type 0) (xs ys : List A) → Permᴰ xs ys → All P xs → All P ys
All-Permᴰ P xs ys Permᴰ.nil h = h
All-Permᴰ P (x ∷ xs) (y ∷ ys) (Permᴰ.cons e d) h = (subst P e h.0, All-Permᴰ P xs ys d h.1)
All-Permᴰ P (x ∷ y ∷ xs) (y' ∷ x' ∷ _) (Permᴰ.swap e f) h =
    (subst P f h.1.0, (subst P e h.0, h.1.1))
All-Permᴰ P xs zs (Permᴰ.trans d e) h = All-Permᴰ P _ zs e (All-Permᴰ P xs _ d h)

IsDistinct-Permᴰ : (xs ys : List Item) → Permᴰ xs ys → IsDistinct xs → IsDistinct ys
IsDistinct-Permᴰ xs ys Permᴰ.nil h = h
IsDistinct-Permᴰ (x ∷ xs) (y ∷ ys) (Permᴰ.cons e d) h = (
  subst (λ (z : Item). All (λ w. z.0 ≢ w.0) ys) e (All-Permᴰ (λ w. x.0 ≢ w.0) xs ys d h.0),
  IsDistinct-Permᴰ xs ys d h.1,
)
IsDistinct-Permᴰ (x ∷ y ∷ xs) (y' ∷ x' ∷ _) (Permᴰ.swap e f) h =
    subst (λ (z : Item). IsDistinct (z ∷ x' ∷ xs)) f
      (subst (λ (z : Item). IsDistinct (y ∷ z ∷ xs)) e
        (((λ same. h.0.0 (sym same)), h.1.0), (h.0.1, h.1.1)))
IsDistinct-Permᴰ xs zs (Permᴰ.trans d e) h = IsDistinct-Permᴰ _ zs e (IsDistinct-Permᴰ xs _ d h)

-- Sorting forgets the order of what it is given.
sort_items-Permᴰ : (xs ys : List Item) → Permᴰ xs ys → IsDistinct xs → sort_items xs ≡ sort_items ys
unfolding sort_items
sort_items-Permᴰ xs ys Permᴰ.nil h = refl
sort_items-Permᴰ (x ∷ xs) (y ∷ ys) (Permᴰ.cons e d) h =
    λ i. insert_item (e i) (sort_items-Permᴰ xs ys d h.1 i)
sort_items-Permᴰ (x ∷ y ∷ xs) (y' ∷ x' ∷ _) (Permᴰ.swap e f) h =
    insert_item_comm x y (sort_items xs) h.0.0
    ∙ (λ i. insert_item (f i) (insert_item (e i) (sort_items xs)))
sort_items-Permᴰ xs zs (Permᴰ.trans d e) h =
    sort_items-Permᴰ xs _ d h ∙ sort_items-Permᴰ _ zs e (IsDistinct-Permᴰ xs _ d h)

module _ {Number : Type 0} where
  -- The pairs of an object.
  unfoldable pub pairs_of : Fields Number → List (Text × Value Number)
  pairs_of end = []
  pairs_of (field key value fields) = (key, value) ∷ pairs_of fields

  abbrev pub KeysApart : List (Text × Value Number) → Type 0
  KeysApart [] = Unit
  KeysApart (x ∷ xs) = All (λ y. x.0 ≢ y.0) xs × KeysApart xs

module _ {Number : Type 0} (to_string : Number → Text) (quote : Text → Text) where
  abbrev printed : Text × Value Number → Item
  printed pair = (pair.0, canonical_json to_string quote pair.1)

  canonical_fields_lem :
      (fields : Fields Number)
      → canonical_fields to_string quote fields ≡ map printed (pairs_of fields)
  unfolding pairs_of canonical_json
  canonical_fields_lem end = refl
  canonical_fields_lem (field key value fields) =
      ap (λ (xs : List Item). printed (key, value) ∷ xs) (canonical_fields_lem fields)

  Permᴰ-printed :
      (xs ys : List (Text × Value Number)) → Permᴰ xs ys → Permᴰ (map printed xs) (map printed ys)
  Permᴰ-printed xs ys Permᴰ.nil = Permᴰ.nil
  Permᴰ-printed (x ∷ xs) (y ∷ ys) (Permᴰ.cons e d) =
      Permᴰ.cons (ap printed e) (Permᴰ-printed xs ys d)
  Permᴰ-printed (x ∷ y ∷ xs) (y' ∷ x' ∷ _) (Permᴰ.swap e f) =
      Permᴰ.swap (ap printed e) (ap printed f)
  Permᴰ-printed xs zs (Permᴰ.trans d e) = Permᴰ.trans (Permᴰ-printed xs _ d) (Permᴰ-printed _ zs e)

  All-printed :
      (key : Text) (xs : List (Text × Value Number))
      → All (λ y. key ≢ y.0) xs
      → All (λ y. key ≢ y.0) (map printed xs)
  All-printed key [] h = tt
  All-printed key (x ∷ xs) h = (h.0, All-printed key xs h.1)

  IsDistinct-printed :
      (xs : List (Text × Value Number)) → KeysApart xs → IsDistinct (map printed xs)
  IsDistinct-printed [] h = tt
  IsDistinct-printed (x ∷ xs) h = (All-printed x.0 xs h.0, IsDistinct-printed xs h.1)

  -- Objects with the same pairs in another order are printed to the same text.
  pub canonical_json-order :
      (fs gs : Fields Number)
      → Permᴰ (pairs_of fs) (pairs_of gs)
      → KeysApart (pairs_of fs)
      → canonical_json to_string quote (Value.object fs)
        ≡ canonical_json to_string quote (Value.object gs)
  unfolding canonical_json object_text
  canonical_json-order fs gs d h =
      ap (λ (items : List Item). object_text quote items) (canonical_fields_lem fs)
      ∙ (ap (λ (items : List Item). b'{' ∷ (join (map (field_text quote) items) ++ b'}' ∷ []))
            (sort_items-Permᴰ (map printed (pairs_of fs)) (map printed (pairs_of gs))
              (Permᴰ-printed (pairs_of fs) (pairs_of gs) d) (IsDistinct-printed (pairs_of fs) h))
          ∙ ap (λ (items : List Item). object_text quote items) (sym (canonical_fields_lem gs)))
