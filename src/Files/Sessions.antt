-- ===== src/Files/Sessions.antt =====
-- The deletion of a session with its files: `deleteSession` of repo.ts, `deleteSessionFully` of
-- session-delete.ts. What stopping the pods or dropping their resources answers is the caller's.
use devproofai.Base.{
  String, ◌≡◌, refl, ◌∙◌, sym, subst, Bool, true, false, not, ◌&&◌, ◌||◌, List, [], ◌∷◌, Option,
  none, some, arith, ◌==◌, if◌then◌else◌, any, any-filter, filter, map, All, All-map, All-mono,
  All-filter_test, inl, inr, Bool-cases, eq_iff,
}
use devproofai.Store.Rows.{FileRow, Db}
use devproofai.Store.Pending.{distinct}
use devproofai.Store.Pending.Models.{All-distinct}
use devproofai.Files.{
  StoredObject, has_object, del, drop_file_rows, is_held, object_key_exists, same_text,
}
use devproofai.Files.Claims.{Keeps, has_object-del, claims-filter}

-- A memory or wiki file outlives the session that wrote it.
unfoldable pub is_session_file : String → String → FileRow → Bool
is_session_file workspace id f =
    same_text f.session_id id
    && ((f.workspace_id == workspace) && not ((f.kind == "memory") || (f.kind == "wiki")))

-- The keys of the deleted rows that no other row has, each once.
released_keys : List FileRow → (FileRow → Bool) → List String
released_keys rows gone = distinct (
    map (λ d. d.object_key)
      (filter (λ d. gone d && not (any (λ f. not (gone f) && (f.object_key == d.object_key)) rows))
        rows))

unfoldable pub detached : String → FileRow → FileRow
detached id f = if same_text f.session_id id then record f { session_id = none } else f

-- The events, parked launches and attachments go with the row, the files that are left lose it.
unfoldable pub drop_session : String → String → Db → Db
unfolding detached
drop_session workspace id db =
    if any (λ s. (s.id == id) && (s.workspace_id == workspace)) db.sessions
    then record db {
      sessions = filter (λ s. not ((s.id == id) && (s.workspace_id == workspace))) db.sessions;
      events = filter (λ e. not (e.session_id == id)) db.events;
      pending = filter (λ p. not (p.session_id == id)) db.pending;
      session_files = filter (λ r. not (r.session_id == id)) db.session_files;
      files = map (detached id) db.files;
    }
    else db

-- `none` is the error of a file that is held.
unfoldable pub delete_session : Db → String → String → Option (Db × List String)
unfolding is_session_file released_keys drop_session drop_file_rows
delete_session db workspace id =
    let gone = is_session_file workspace id in
    if any (λ f. gone f && is_held db f.id) db.files
    then none
    else some (drop_session workspace id (drop_file_rows gone db), released_keys db.files gone)

unfoldable pub del_keys : (String → Bool) → List String → List StoredObject → List StoredObject
del_keys fails [] objects = objects
del_keys fails (k ∷ ks) objects = del_keys fails ks (del fails k objects)

-- `none` is an error of the cluster or of the statement, before any object goes.
unfoldable pub delete_session_fully :
    (stops : String → Bool) (fails : String → Bool)
    → Db
    → List StoredObject
    → String
    → String
    → Option (Db × List StoredObject)
unfolding delete_session del_keys
delete_session_fully stops fails db objects workspace id =
    if not (stops id) then none else elim (delete_session db workspace id) [
      | none ↦ none
      | some r ↦ some (r.0, del_keys fails r.1 objects)
    ]

del_keys-has_object :
    (fails : String → Bool) (ks : List String) (key : String) (objects : List StoredObject)
    → All (λ k. (k == key) ≡ false) ks
    → has_object (del_keys fails ks objects) key ≡ has_object objects key
unfolding del_keys
del_keys-has_object fails [] key objects h = refl
del_keys-has_object fails (k ∷ ks) key objects (n, h) =
    del_keys-has_object fails ks key (del fails k objects) h ∙ has_object-del fails k key objects n

module _ (rows : List FileRow) (gone : FileRow → Bool) (key : String) where
  released_keys-other :
      any (λ f. f.object_key == key) (filter (λ f. not (gone f)) rows) ≡ true
      → All (λ k. (k == key) ≡ false) (released_keys rows gone)
  unfolding released_keys
  released_keys-other c =
      All-distinct (λ k. (k == key) ≡ false) _
        (All-map (λ k. (k == key) ≡ false) (λ d. d.object_key) _
          (All-mono _ (λ d. (d.object_key == key) ≡ false) _ differs (All-filter_test _ rows)))
    where
      differs :
          (d : FileRow)
          → (gone d && not (any (λ f. not (gone f) && (f.object_key == d.object_key)) rows)) ≡ true
          → (d.object_key == key) ≡ false
      differs d t = elim (Bool-cases (d.object_key == key)) [
        | inr other ↦ other
        | inl same ↦
            elim (clash (sym (any-filter (λ f. f.object_key == key) (λ f. not (gone f)) rows) ∙ c) (
              subst
                (λ k. (gone d && not (any (λ f. not (gone f) && (f.object_key == k)) rows)) ≡ true)
                ((eq_iff d.object_key key).0 same) t)) [ ]
      ]
        where
          clash :
              any (λ f. not (gone f) && (f.object_key == key)) rows ≡ true
              → (gone d && not (any (λ f. not (gone f) && (f.object_key == key)) rows)) ≡ true
              → ⊥
          clash a b = ground (arith, a, b)

claims-detached :
    (id key : String) (rows : List FileRow)
    → any (λ f. f.object_key == key) (map (detached id) rows) ≡ any (λ f. f.object_key == key) rows
unfolding detached
claims-detached id key [] = refl
claims-detached id key (f ∷ rows) =
    rw (claims-detached id key rows, same (same_text f.session_id id)) refl
  where
    same : (b : Bool) → (if b then record f { session_id = none } else f).object_key ≡ f.object_key
    same true = refl
    same false = refl

claims-drop_session :
    (workspace id key : String) (db : Db)
    → object_key_exists (drop_session workspace id db) key ≡ object_key_exists db key
unfolding drop_session object_key_exists
claims-drop_session workspace id key db =
    elim (Bool-cases (any (λ s. (s.id == id) && (s.workspace_id == workspace)) db.sessions)) [
      | inl found ↦ rw found (claims-detached id key db.files)
      | inr absent ↦ rw absent refl
    ]

module _ (stops : String → Bool) (fails : String → Bool) (key : String) where
  pub delete_session_fully-Keeps :
      (db : Db) (objects : List StoredObject) (workspace id : String) (db' : Db)
      (objects' : List StoredObject)
      → delete_session_fully stops fails db objects workspace id ≡ some (db', objects')
      → object_key_exists db' key ≡ true
      → Keeps db db' objects objects' key
  unfolding delete_session_fully delete_session
  delete_session_fully-Keeps db objects workspace id db' objects' e = elim (Bool-cases (stops id)) [
    | inr stuck ↦ elim (nothing (rw stuck at e)) [ ]
    | inl stopped ↦
        elim (Bool-cases (any (λ f. is_session_file workspace id f && is_held db f.id) db.files)) [
          | inl held ↦ elim (nothing (rw (stopped, held) at e)) [ ]
          | inr freed ↦
              subst (λ r. object_key_exists r.0 key ≡ true → Keeps db r.0 objects r.1 key)
                (same_pair (rw (stopped, freed) at e)) deleted
        ]
  ]
    where
      gone : FileRow → Bool
      gone f = is_session_file workspace id f

      nothing : {x : Db × List StoredObject} → none ≡ some x → ⊥
      nothing e = cc

      same_pair : {x y : Db × List StoredObject} → some x ≡ some y → x ≡ y
      same_pair e = cc

      deleted :
          object_key_exists (drop_session workspace id (drop_file_rows gone db)) key ≡ true
          → Keeps db
              (drop_session workspace id (drop_file_rows gone db))
              objects
              (del_keys fails (released_keys db.files gone) objects)
              key
      deleted c = record {
        claimed =
            unfold object_key_exists drop_file_rows in
            claims-filter db.files (λ f. not (gone f)) key
              (sym (claims-drop_session workspace id key (drop_file_rows gone db)) ∙ c);
        stored = del_keys-has_object fails (released_keys db.files gone) key objects (
            released_keys-other db.files gone key (
              unfold object_key_exists drop_file_rows in
              sym (claims-drop_session workspace id key (drop_file_rows gone db)) ∙ c));
      }
