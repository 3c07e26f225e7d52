-- ===== src/Maintenance/Gc.antt =====
-- `runGc`: orphan file rows, then objects that no row claims. The clock stands still in a run, and
-- the walk over the store gives the objects that are there when it starts.
pub mod Collected
pub mod Rows
pub mod Objects
use devproofai.Base.{
  ℕ, ◌+◌, String, Bool, true, false, not, ◌&&◌, List, [], ◌∷◌, Option, none, some, if◌then◌else◌,
  ltb, is_empty,
}
use devproofai.Store.Rows.{Db}
use devproofai.Files.{
  StoredObject, del, del_key, delete_file_record_by_id, object_key_exists, list_orphan_file_rows,
}

-- The store with its objects, and the counts of `GcSummary`.
pub record Depot : Type 0 where
  pub db : Db
  pub objects : List StoredObject
  pub rows : ℕ
  pub removed : ℕ
  pub bytes : ℕ

has_key : Option String → Bool
has_key none = false
has_key (some k) = not (is_empty k)

module _ (fails : String → Bool) where
  -- A deletion that throws counts as one that gave no key.
  drop_row : Depot → Option (Db × Option String) → Depot
  unfolding del_key has_key
  drop_row d none = record d { rows = d.rows + 1 }
  drop_row d (some r) = record d {
    db = r.0;
    objects = del_key fails r.1 d.objects;
    rows = d.rows + 1;
    removed = if has_key r.1 then d.removed + 1 else d.removed;
  }

  unfoldable pub drop_rows : Depot → List String → Depot
  unfolding drop_row delete_file_record_by_id
  drop_rows d [] = d
  drop_rows d (id ∷ ids) = drop_rows (drop_row d (delete_file_record_by_id d.db id)) ids

  -- Young or claimed objects stay.
  is_loose : Db → ℕ → ℕ → StoredObject → Bool
  unfolding object_key_exists
  is_loose db now grace o = not (ltb now (o.modified + grace)) && not (object_key_exists db o.key)

  unfoldable pub drop_object : ℕ → ℕ → Depot → StoredObject → Depot
  unfolding is_loose del
  drop_object now grace d o =
      if is_loose d.db now grace o
      then record d {
        objects = del fails o.key d.objects;
        removed = d.removed + 1;
        bytes = d.bytes + o.size;
      }
      else d

  unfoldable pub drop_loose : ℕ → ℕ → Depot → List StoredObject → Depot
  unfolding drop_object
  drop_loose now grace d [] = d
  drop_loose now grace d (o ∷ os) = drop_loose now grace (drop_object now grace d o) os

  abbrev empty_depot : Db → List StoredObject → Depot
  empty_depot db objects = record { db = db; objects = objects; rows = 0; removed = 0; bytes = 0 }

  unfoldable pub run_gc : ℕ → ℕ → Db → List StoredObject → Depot
  unfolding drop_rows drop_loose list_orphan_file_rows
  run_gc now grace db objects =
      let d = drop_rows (empty_depot db objects) (list_orphan_file_rows db now grace) in
      drop_loose now grace d d.objects
