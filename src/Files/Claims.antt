-- ===== src/Files/Claims.antt =====
-- Which rows claim an object's key, and that a key given back for deletion is claimed by none.
use devproofai.Base.{
  String, ◌≡◌, refl, Bool, true, false, not, ◌&&◌, List, [], ◌∷◌, Option, none, some, arith, ◌==◌,
  any, filter, find_row, inl, inr, Bool-cases, eq_iff, is_empty, subst, is_some, find?_test,
}
use devproofai.Store.Rows.{FileRow, Db}
use devproofai.Files.{
  StoredObject, has_object, del, del_key, file_key, object_key_exists, drop_file_rows, released_key,
  delete_file_record_by_id, is_held,
}

-- Fewer rows claim fewer keys.
pub claims-filter :
    (rows : List FileRow) (keep : FileRow → Bool) (key : String)
    → any (λ f. f.object_key == key) (filter keep rows) ≡ true
    → any (λ f. f.object_key == key) rows ≡ true
claims-filter [] keep key h = h
claims-filter (f ∷ rows) keep key h = ground (arith, h, claims-filter rows keep key)

pub has_object-del :
    (fails : String → Bool) (gone key : String) (objects : List StoredObject)
    → (gone == key) ≡ false
    → has_object (del fails gone objects) key ≡ has_object objects key
unfolding del
has_object-del fails gone key objects other = elim (Bool-cases (fails gone)) [
  | inl f ↦ rw f refl
  | inr t ↦ rw t (kept objects)
]
  where
    kept :
        (objects : List StoredObject)
        → has_object (filter (λ o. not (o.key == gone)) objects) key ≡ has_object objects key
    kept [] = refl
    kept (o ∷ objects) =
        ground (arith, kept objects, other, eq_iff o.key gone, eq_iff o.key key, eq_iff gone key)

-- The row found is one of the rows.
others-claim :
    (rows : List FileRow) (d : FileRow) (key : String)
    → any (λ f. (f.object_key == d.object_key) && not (f.id == d.id)) rows ≡ false
    → any (λ f. f.object_key == key) (filter (λ f. not (f.id == d.id)) rows) ≡ true
    → (d.object_key == key) ≡ false
others-claim [] d key h c = cc
others-claim (f ∷ rows) d key h c = ground (
  arith,
  h,
  c,
  others-claim rows d key,
  eq_iff f.object_key d.object_key,
  eq_iff d.object_key key,
  eq_iff f.object_key key,
)

-- What a deletion of a row, and then of the object whose key it gave back, leaves to a key that
-- some row still claims.
pub record Keeps (db db' : Db) (objects objects' : List StoredObject) (key : String) : Type 0 where
  pub claimed : object_key_exists db key ≡ true
  pub stored : has_object objects' key ≡ has_object objects key

module _ (fails : String → Bool) (key : String) (objects : List StoredObject) where
  del_key-has_object :
      (gone : String)
      → (gone == key) ≡ false
      → has_object (del_key fails (some gone) objects) key ≡ has_object objects key
  unfolding del_key
  del_key-has_object gone other = elim (Bool-cases (is_empty gone)) [
    | inl none_given ↦ rw none_given refl
    | inr given ↦ rw given (has_object-del fails gone key objects other)
  ]

  released-Keeps :
      (rows : List FileRow) (id : String) (o : Option FileRow)
      → find_row file_key id rows ≡ o
      → any (λ f. f.object_key == key) (filter (λ f. not (f.id == id)) rows) ≡ true
      → has_object (del_key fails (released_key rows o) objects) key ≡ has_object objects key
  unfolding released_key
  released-Keeps rows id none e c = unfold del_key in refl
  released-Keeps rows id (some d) e c =
      elim (Bool-cases (any (λ f. (f.object_key == d.object_key) && not (f.id == d.id)) rows)) [
        | inl shared ↦ rw shared (unfold del_key in refl)
        | inr alone ↦
            rw alone
              (del_key-has_object d.object_key (others-claim rows d key alone (rw (found) c)))
      ]
    where
      found : d.id ≡ id
      found = (eq_iff d.id id).0 (find?_test (λ r. file_key r == id) rows d e)

  pub delete_file_record-Keeps :
      (db : Db) (id : String) (db' : Db) (o : Option String)
      → delete_file_record_by_id db id ≡ some (db', o)
      → object_key_exists db' key ≡ true
      → Keeps db db' objects (del_key fails o objects) key
  unfolding delete_file_record_by_id object_key_exists drop_file_rows
  delete_file_record-Keeps db id db' o e c =
      elim (Bool-cases (is_some (find_row file_key id db.files) && is_held db id)) [
        | inl held ↦ elim (none_ne_some (rw held at e)) [ ]
        | inr freed ↦
            subst
              (λ r.
                object_key_exists r.0 key ≡ true
                → Keeps db r.0 objects (del_key fails r.1 objects) key)
              (same_pair (rw freed at e)) deleted c
      ]
    where
      none_ne_some : {x : Db × Option String} → none ≡ some x → ⊥
      none_ne_some e = cc

      same_pair : {x y : Db × Option String} → some x ≡ some y → x ≡ y
      same_pair e = cc

      deleted :
          any (λ f. f.object_key == key) (filter (λ f. not (f.id == id)) db.files) ≡ true
          → Keeps db
              (drop_file_rows (λ f. f.id == id) db)
              objects
              (del_key fails (released_key db.files (find_row file_key id db.files)) objects)
              key
      deleted c = record {
        claimed = claims-filter db.files (λ f. not (f.id == id)) key c;
        stored = released-Keeps db.files id (find_row file_key id db.files) refl c;
      }
