-- ===== src/Ai/Json.antt =====
-- `canonical_json` of clients/rust/cachebox-client/src/ai.rs. The values are those of serde_json, a package
-- that the source only uses: its numbers, and the printing of numbers and of strings, are parameters.
use cachebox.Prelude.{Bool, true, false, List, [], ◌∷◌, ◌++◌, map, if◌then◌else◌}
use Prim.Native.Nat.{compare, Ordering}
use cachebox.Bytes.{Text, text}

-- `serde_json::Value`; the fields of an object stand in the order in which its map is walked.
mutual
  pub data Value (Number : Type 0) : Type 0 where
    null : Value Number
    bool : Bool → Value Number
    number : Number → Value Number
    string : Text → Value Number
    array : Values Number → Value Number
    object : Fields Number → Value Number

  pub data Values (Number : Type 0) : Type 0 where
    nil : Values Number
    cons : Value Number → Values Number → Values Number

  pub data Fields (Number : Type 0) : Type 0 where
    end : Fields Number
    field : Text → Value Number → Fields Number → Fields Number

-- `<` of two strings: of the first bytes that differ.
unfoldable pub less : Text → Text → Bool
less [] [] = false
less [] (y ∷ ys) = true
less (x ∷ xs) [] = false
less (x ∷ xs) (y ∷ ys) =
    let rest = less xs ys in
    elim (compare x y) [ Ordering.lt ↦ true | Ordering.eq ↦ rest | Ordering.gt ↦ false ]

-- A field with its value printed.
abbrev pub Item : Type 0
Item = Text × Text

-- `sort_by_key`: stable, by the keys.
unfoldable pub insert_item : Item → List Item → List Item
insert_item x [] = x ∷ []
insert_item x (y ∷ ys) =
    let rest = insert_item x ys in if less y.0 x.0 then y ∷ rest else x ∷ y ∷ ys

unfoldable pub sort_items : List Item → List Item
unfolding insert_item
sort_items [] = []
sort_items (x ∷ xs) = insert_item x (sort_items xs)

-- `join(",")`
unfoldable pub join : List Text → Text
join [] = []
join (x ∷ []) = x
join (x ∷ y ∷ xs) = x ++ b',' ∷ join (y ∷ xs)

-- `format!("{key}:{}", ...)` of one field
abbrev pub field_text : (Text → Text) → Item → Text
field_text quote item = quote item.0 ++ b':' ∷ item.1

unfoldable pub object_text : (Text → Text) → List Item → Text
unfolding join
object_text quote items = b'{' ∷ (join (map (field_text quote) (sort_items items)) ++ b'}' ∷ [])

module _ {Number : Type 0} (to_string : Number → Text) (quote : Text → Text) where
  -- The value of a field is printed before the sort, which looks at the keys alone.
  unfoldable mutual
    unfolding object_text

    pub canonical_json : Value Number → Text
    canonical_json null = text "null"
    canonical_json (bool true) = text "true"
    canonical_json (bool false) = text "false"
    canonical_json (number n) = to_string n
    canonical_json (string s) = quote s
    canonical_json (array values) = b'[' ∷ (join (canonical_values values) ++ b']' ∷ [])
    canonical_json (object fields) = object_text quote (canonical_fields fields)

    pub canonical_values : Values Number → List Text
    canonical_values nil = []
    canonical_values (cons value values) = canonical_json value ∷ canonical_values values

    pub canonical_fields : Fields Number → List Item
    canonical_fields end = []
    canonical_fields (field key value fields) =
        (key, canonical_json value) ∷ canonical_fields fields
