-- ===== src/Engine/Hashing.antt =====
-- What src/engine.rs asks of the standard hash tables beyond lookups: the order in which they
-- iterate, which is not specified, and `DefaultHasher`, which is a function of what is hashed.
use cachebox.Prelude.{ℕ, ◌≡◌, List}
use cachebox.Prelude.Map.{Assoc, Distinct, get}
use cachebox.Prelude.Set.{contains}
use cachebox.Engine.Types.{Bytes, Text, EntryId, Entry, entry_key, index_key}

pub record Hashing : Type 0 where
  -- `entries.iter()` visits the entries of the map, in some order.
  pub entry_order : Assoc EntryId Entry → Assoc EntryId Entry
  pub get-entry_order :
      (entries : Assoc EntryId Entry) (id : EntryId)
      → Distinct entries
      → get id (entry_order entries) ≡ get id entries
  -- `for id in ids` visits the members of a `HashSet<EntryId>`, in some order.
  pub id_order : List EntryId → List EntryId
  pub contains-id_order :
      (ids : List EntryId) (id : EntryId) → contains id (id_order ids) ≡ contains id ids
  -- A `HashSet<usize>` of shards, turned into a list.
  pub index_order : List ℕ → List ℕ
  pub contains-index_order :
      (indices : List ℕ) (i : ℕ) → contains i (index_order indices) ≡ contains i indices
  -- `hasher.finish()`, after the namespace and the key
  pub hash : Text → Bytes → ℕ
