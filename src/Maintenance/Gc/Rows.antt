-- ===== src/Maintenance/Gc/Rows.antt =====
-- Which file rows a run of the garbage collector leaves.
use devproofai.Base.{
  ℕ, String, ◌≡◌, refl, ◌∙◌, sym, ap, Bool, true, false, not, ◌&&◌, List, [], ◌∷◌, none, arith,
  ◌==◌, includes, filter, filter-filter, filter_ext, All-of, filter_every, eq_refl, find_row, inl,
  inr, Bool-cases, Option-cases, eq_iff,
}
use devproofai.Store.Rows.{FileRow, Db}
use devproofai.Files.{
  StoredObject, file_key, delete_file_record_by_id, drop_file_rows, list_orphan_file_rows, is_held,
}
use devproofai.Maintenance.Gc.{Depot, drop_row, drop_rows, empty_depot, run_gc}
use devproofai.Maintenance.Gc.Collected.{drop_loose-db}

-- A row goes when its id is listed and nothing holds it.
abbrev goes : Db → List String → FileRow → Bool
goes db ids f = includes ids f.id && not (is_held db f.id)

filter-absent :
    (id : String) (rows : List FileRow)
    → find_row file_key id rows ≡ none
    → filter (λ f. not (f.id == id)) rows ≡ rows
filter-absent id [] e = refl
filter-absent id (f ∷ rows) e = ground (arith, e, filter-absent id rows)

module _ (db : Db) (id : String) where
  abbrev gone : FileRow → Bool
  gone f = goes db (id ∷ []) f

  gone_free : is_held db id ≡ false → (f : FileRow) → not (f.id == id) ≡ not (gone f)
  gone_free h f = elim (Bool-cases (f.id == id)) [
    | inl same ↦ rw ((eq_iff f.id id).0 same, h, eq_refl id) refl
    | inr other ↦ ground (arith, other, eq_iff f.id id, eq_iff id f.id)
  ]

  gone_held : is_held db id ≡ true → (f : FileRow) → not (gone f) ≡ true
  gone_held h f = elim (Bool-cases (id == f.id)) [
    | inl same ↦ rw (← (eq_iff id f.id).0 same, h, eq_refl id) refl
    | inr other ↦ rw other refl
  ]

module _ (fails : String → Bool) where
  -- The rows after one deletion, and that it changes nothing that holds rows.
  record Drops (d e : Depot) (id : String) : Type 0 where
    files : e.db.files ≡ filter (λ f. not (goes d.db (id ∷ []) f)) d.db.files
    held : (x : String) → is_held e.db x ≡ is_held d.db x

  drop_row-Drops :
      (d : Depot) (id : String) → Drops d (drop_row fails d (delete_file_record_by_id d.db id)) id
  unfolding drop_row delete_file_record_by_id drop_file_rows is_held
  drop_row-Drops d id = elim (Bool-cases (is_held d.db id)) [
    | inl held ↦ elim (Option-cases (find_row file_key id d.db.files)) [
      | inl absent ↦ rw absent (record {
        files = filter-absent id d.db.files absent ∙ sym (every held);
        held = λ x. refl;
      })
      | inr (f, found) ↦ rw (held, found) (record { files = sym (every held); held = λ x. refl })
    ]
    | inr freed ↦ elim (Option-cases (find_row file_key id d.db.files)) [
      | inl absent ↦ rw absent (record { files = free freed; held = λ x. refl })
      | inr (f, found) ↦ rw (freed, found) (record { files = free freed; held = λ x. refl })
    ]
  ]
    where
      every :
          is_held d.db id ≡ true → filter (λ f. not (goes d.db (id ∷ []) f)) d.db.files ≡ d.db.files
      every h =
          filter_every (λ f. not (goes d.db (id ∷ []) f)) d.db.files
            (All-of _ d.db.files (gone_held d.db id h))

      free :
          is_held d.db id ≡ false
          → filter (λ f. not (f.id == id)) d.db.files
            ≡ filter (λ f. not (goes d.db (id ∷ []) f)) d.db.files
      free h =
          filter_ext (λ f. not (f.id == id)) (λ f. not (goes d.db (id ∷ []) f)) d.db.files
            (All-of _ d.db.files (gone_free d.db id h))

  drop_rows-files :
      (d : Depot) (ids : List String)
      → (drop_rows fails d ids).db.files ≡ filter (λ f. not (goes d.db ids f)) d.db.files
  unfolding drop_rows
  drop_rows-files d [] =
      sym (filter_every (λ f. not (goes d.db [] f)) d.db.files (All-of _ d.db.files (λ f. refl)))
  drop_rows-files d (id ∷ ids) =
      let e = drop_row fails d (delete_file_record_by_id d.db id) in
      let one = drop_row-Drops d id in
      drop_rows-files e ids
      ∙ ap (filter (λ f. not (goes e.db ids f))) one.files
      ∙ filter-filter (λ f. not (goes e.db ids f)) (λ f. not (goes d.db (id ∷ []) f)) d.db.files
      ∙ filter_ext (λ f. not (goes d.db (id ∷ []) f) && not (goes e.db ids f))
          (λ f. not (goes d.db (id ∷ ids) f)) d.db.files
          (All-of _ d.db.files (λ f. rw (one.held f.id) (ground arith)))

  pub run_gc-rows :
      (now grace : ℕ) (db : Db) (objects : List StoredObject)
      → (run_gc fails now grace db objects).db.files
        ≡ filter
            (λ f. not (includes (list_orphan_file_rows db now grace) f.id && not (is_held db f.id)))
            db.files
  unfolding run_gc
  run_gc-rows now grace db objects =
      let ids = list_orphan_file_rows db now grace in
      let d = drop_rows fails (empty_depot fails db objects) ids in
      ap (λ x. x.files) (drop_loose-db fails now grace d d.objects)
      ∙ drop_rows-files (empty_depot fails db objects) ids
