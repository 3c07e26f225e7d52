-- ===== src/Maintenance/Gc/Objects.antt =====
-- Which objects a run of the garbage collector leaves.
use devproofai.Base.{
  ℕ, ◌+◌, String, ◌≡◌, refl, ◌∙◌, sym, ap, subst, Bool, true, not, ◌&&◌, ◌||◌, List, [], ◌∷◌, arith,
  ◌==◌, ltb, filter, includes, All, All-mono, All-and, All-filter, All-filter_test, inl, inr, ◌⊎◌,
  Bool-cases, eq_iff,
}
use devproofai.Store.Rows.{Db}
use devproofai.Maintenance.Gc.Rows.{run_gc-rows}
use devproofai.Files.{is_held, StoredObject, del, object_key_exists, list_orphan_file_rows}
use devproofai.Maintenance.Gc.{
  Depot, drop_rows, drop_object, drop_loose, is_loose, empty_depot, run_gc,
}
use devproofai.Maintenance.Gc.Collected.{drop_loose-db, drop_object-db}

-- The object is one of those that the walk has yet to reach.
abbrev Ahead : List StoredObject → StoredObject → Type 0
Ahead [] o = ⊥
Ahead (x ∷ xs) o = (o ≡ x) ⊎ Ahead xs o

All-Ahead : (os : List StoredObject) → All (Ahead os) os
All-Ahead [] = tt
All-Ahead (x ∷ xs) =
    (inl refl, All-mono (Ahead xs) (Ahead (x ∷ xs)) xs (λ a h. inr h) (All-Ahead xs))

module _ (fails : String → Bool) (now grace : ℕ) where
  -- Claimed, young, or the store refuses to delete it.
  abbrev stays : Db → StoredObject → Bool
  stays db o = not (is_loose fails db now grace o) || fails o.key

  abbrev Handled : Db → List StoredObject → StoredObject → Type 0
  Handled db os o = (stays db o ≡ true) ⊎ Ahead os o

  drop_object-Handled :
      (d : Depot) (x : StoredObject) (xs : List StoredObject)
      → All (Handled d.db (x ∷ xs)) d.objects
      → All (Handled d.db xs) (drop_object fails now grace d x).objects
  unfolding drop_object del
  drop_object-Handled d x xs h = elim (Bool-cases (is_loose fails d.db now grace x)) [
    | inr fixed ↦ rw fixed (passed_by (rw fixed refl))
    | inl loose ↦ elim (Bool-cases (fails x.key)) [
      | inl refused ↦ rw (loose, refused) (passed_by (rw (loose, refused) refl))
      | inr deleted ↦
          rw (loose, deleted)
            (All-mono _ (Handled d.db xs) _ (λ o both. other o both.0 both.1)
              (All-and (Handled d.db (x ∷ xs)) (λ o. not (o.key == x.key) ≡ true) _
                (All-filter (Handled d.db (x ∷ xs)) (λ o. not (o.key == x.key)) d.objects h)
                (All-filter_test (λ o. not (o.key == x.key)) d.objects)))
    ]
  ]
    where
      passed_by : stays d.db x ≡ true → All (Handled d.db xs) d.objects
      passed_by s = All-mono (Handled d.db (x ∷ xs)) (Handled d.db xs) d.objects one h
        where
          one : (o : StoredObject) → Handled d.db (x ∷ xs) o → Handled d.db xs o
          one o (inl k) = inl k
          one o (inr (inl e)) = inl (ap (stays d.db) e ∙ s)
          one o (inr (inr a)) = inr a

      other :
          (o : StoredObject)
          → Handled d.db (x ∷ xs) o
          → not (o.key == x.key) ≡ true
          → Handled d.db xs o
      other o (inl k) n = inl k
      other o (inr (inl e)) n = elim (same_key (ap (λ y. y.key) e)) [ ]
        where
          same_key : o.key ≡ x.key → ⊥
          same_key k = ground (arith, n, eq_iff o.key x.key)
      other o (inr (inr a)) n = inr a

  drop_loose-Handled :
      (d : Depot) (os : List StoredObject)
      → All (Handled d.db os) d.objects
      → All (Handled d.db []) (drop_loose fails now grace d os).objects
  unfolding drop_loose
  drop_loose-Handled d [] h = h
  drop_loose-Handled d (o ∷ os) h =
      subst (λ db. All (Handled db []) (drop_loose fails now grace d (o ∷ os)).objects)
        (drop_object-db fails now grace d o)
        (drop_loose-Handled (drop_object fails now grace d o) os (
          subst (λ db. All (Handled db os) (drop_object fails now grace d o).objects)
            (sym (drop_object-db fails now grace d o)) (drop_object-Handled d o os h)))

  -- The rows that are neither listed as orphans nor unheld stay, and each object left is claimed,
  -- young or refused.
  pub record IsCollected (db : Db) (objects : List StoredObject) (d : Depot) : Type 0 where
    pub rows :
        d.db.files
        ≡ filter
            (λ f. not (includes (list_orphan_file_rows db now grace) f.id && not (is_held db f.id)))
            db.files
    pub swept :
        All
          (λ o.
            (object_key_exists d.db o.key || (ltb now (o.modified + grace) || fails o.key)) ≡ true)
          d.objects

  run_gc-objects :
      (db : Db) (objects : List StoredObject)
      → All
          (λ o.
            (object_key_exists (run_gc fails now grace db objects).db o.key
              || (ltb now (o.modified + grace) || fails o.key))
            ≡ true)
          (run_gc fails now grace db objects).objects
  unfolding run_gc is_loose
  run_gc-objects db objects =
      let d = drop_rows fails (empty_depot fails db objects) (list_orphan_file_rows db now grace) in
      subst
        (λ e.
          All
            (λ o.
              (object_key_exists e o.key || (ltb now (o.modified + grace) || fails o.key)) ≡ true)
            (drop_loose fails now grace d d.objects).objects)
        (sym (drop_loose-db fails now grace d d.objects))
        (All-mono (Handled d.db []) _ _ (found d.db) (
          drop_loose-Handled d d.objects (
            All-mono (Ahead d.objects) (Handled d.db d.objects) d.objects (λ o a. inr a)
              (All-Ahead d.objects))))
    where
      found :
          (db : Db) (o : StoredObject)
          → Handled db [] o
          → (object_key_exists db o.key || (ltb now (o.modified + grace) || fails o.key)) ≡ true
      found db o (inl s) = ground (arith, s)
      found db o (inr x) = elim x [ ]

  -- A run deletes exactly the rows whose id is listed as an orphan and that no skill, memory entry
  -- or wiki entry holds; each object that it leaves is claimed by a row that is left, younger than
  -- the grace period, or one that the store refuses to delete.
  pub run_gc-IsCollected :
      (db : Db) (objects : List StoredObject)
      → IsCollected db objects (run_gc fails now grace db objects)
  run_gc-IsCollected db objects = record {
    rows = run_gc-rows fails now grace db objects;
    swept = run_gc-objects db objects;
  }
