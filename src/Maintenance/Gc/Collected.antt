-- ===== src/Maintenance/Gc/Collected.antt =====
-- What a run of the garbage collector leaves.
use devproofai.Base.{
  ℕ, String, ◌≡◌, refl, ◌∙◌, ap, sym, Bool, true, false, List, [], ◌∷◌, Option, none, some, arith,
  ◌==◌, inl, inr, Bool-cases, eq_iff,
}
use devproofai.Store.Rows.{Db}
use devproofai.Files.{
  StoredObject, has_object, object_key_exists, delete_file_record_by_id, list_orphan_file_rows,
}
use devproofai.Files.Claims.{Keeps, has_object-del, delete_file_record-Keeps}
use devproofai.Maintenance.Gc.{
  Depot, drop_row, drop_rows, is_loose, drop_object, drop_loose, empty_depot, run_gc,
}

module _ (fails : String → Bool) (now grace : ℕ) where
  pub drop_object-db : (d : Depot) (o : StoredObject) → (drop_object fails now grace d o).db ≡ d.db
  unfolding drop_object
  drop_object-db d o = elim (Bool-cases (is_loose fails d.db now grace o)) [
    | inl loose ↦ rw loose refl
    | inr fixed ↦ rw fixed refl
  ]

  pub drop_loose-db :
      (d : Depot) (os : List StoredObject) → (drop_loose fails now grace d os).db ≡ d.db
  unfolding drop_loose
  drop_loose-db d [] = refl
  drop_loose-db d (o ∷ os) = drop_loose-db (drop_object fails now grace d o) os ∙ drop_object-db d o

module _ (fails : String → Bool) (key : String) where
  -- A key that is claimed after is claimed before, and its object is as it was.
  record Safe (d e : Depot) : Type 0 where
    claimed : object_key_exists d.db key ≡ true
    stored : has_object e.objects key ≡ has_object d.objects key

  drop_row-Safe :
      (d : Depot) (id : String) (r : Option (Db × Option String))
      → delete_file_record_by_id d.db id ≡ r
      → object_key_exists (drop_row fails d r).db key ≡ true
      → Safe d (drop_row fails d r)
  unfolding drop_row
  drop_row-Safe d id none e c = record { claimed = c; stored = refl }
  drop_row-Safe d id (some r) e c =
      let k = delete_file_record-Keeps fails key d.objects d.db id r.0 r.1 e c in
      record { claimed = k.claimed; stored = k.stored }

  drop_rows-Safe :
      (d : Depot) (ids : List String)
      → object_key_exists (drop_rows fails d ids).db key ≡ true
      → Safe d (drop_rows fails d ids)
  unfolding drop_rows
  drop_rows-Safe d [] c = record { claimed = c; stored = refl }
  drop_rows-Safe d (id ∷ ids) c =
      let d' = drop_row fails d (delete_file_record_by_id d.db id) in
      let rest = drop_rows-Safe d' ids c in
      let one = drop_row-Safe d id (delete_file_record_by_id d.db id) refl rest.claimed in
      record { claimed = one.claimed; stored = rest.stored ∙ one.stored }

  module _ (now grace : ℕ) where
    drop_object-stored :
        (d : Depot) (o : StoredObject)
        → object_key_exists d.db key ≡ true
        → has_object (drop_object fails now grace d o).objects key ≡ has_object d.objects key
    unfolding drop_object
    drop_object-stored d o c = elim (Bool-cases (is_loose fails d.db now grace o)) [
      | inl loose ↦ rw loose (has_object-del fails o.key key d.objects (unclaimed loose))
      | inr fixed ↦ rw fixed refl
    ]
      where
        not_claimed : is_loose fails d.db now grace o ≡ true → object_key_exists d.db o.key ≡ false
        not_claimed loose = unfold is_loose in ground arith

        unclaimed : is_loose fails d.db now grace o ≡ true → (o.key == key) ≡ false
        unclaimed loose = elim (Bool-cases (o.key == key)) [
          | inr other ↦ other
          | inl same ↦
              elim (differ (
                sym (not_claimed loose)
                ∙ ap (object_key_exists d.db) ((eq_iff o.key key).0 same)
                ∙ c)) [ ]
        ]
          where
            differ : false ≡ true → ⊥
            differ e = cc

    drop_loose-stored :
        (d : Depot) (os : List StoredObject)
        → object_key_exists d.db key ≡ true
        → has_object (drop_loose fails now grace d os).objects key ≡ has_object d.objects key
    unfolding drop_loose
    drop_loose-stored d [] c = refl
    drop_loose-stored d (o ∷ os) c =
        drop_loose-stored (drop_object fails now grace d o) os
          (rw (drop_object-db fails now grace d o) c)
        ∙ drop_object-stored d o c

  pub run_gc-Keeps :
      (now grace : ℕ) (db : Db) (objects : List StoredObject)
      → object_key_exists (run_gc fails now grace db objects).db key ≡ true
      → Keeps db
          (run_gc fails now grace db objects).db
          objects
          (run_gc fails now grace db objects).objects
          key
  unfolding run_gc
  run_gc-Keeps now grace db objects c =
      let ids = list_orphan_file_rows db now grace in
      let d = drop_rows fails (empty_depot fails db objects) ids in
      let c' : object_key_exists d.db key ≡ true =
        (rw (← drop_loose-db fails now grace d d.objects) c) in
      let k = drop_rows-Safe (empty_depot fails db objects) ids c' in
      record { claimed = k.claimed; stored = drop_loose-stored now grace d d.objects c' ∙ k.stored }
