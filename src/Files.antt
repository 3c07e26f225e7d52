-- ===== src/Files.antt =====
-- File rows and the objects behind them: the statements on the table files of repo.ts, and the
-- object store as filestore.ts offers it. Several rows may share one object key for a while.
pub mod Claims
pub mod Sessions
use devproofai.Base.{
  ℕ, ◌+◌, String, Bool, true, false, not, ◌&&◌, ◌||◌, List, [], ◌∷◌, Option, none, some, ◌==◌,
  if◌then◌else◌, ltb, any, filter, find_row, delete_row, is_empty, is_some, includes, map,
}
use devproofai.Store.Rows.{Session, FileRow, SessionFile, Skill, Shelf, Db, session_key}

abbrev pub file_key : FileRow → String
file_key f = f.id

abbrev pub same_text : Option String → String → Bool
same_text none id = false
same_text (some x) id = x == id

-- `del` may fail, and then leaves the object.
pub record StoredObject : Type 0 where
  pub key : String
  pub size : ℕ
  pub modified : ℕ

abbrev pub has_object : List StoredObject → String → Bool
has_object objects key = any (λ o. o.key == key) objects

unfoldable pub del : (String → Bool) → String → List StoredObject → List StoredObject
del fails key objects = if fails key then objects else filter (λ o. not (o.key == key)) objects

-- JavaScript's `if (key)`.
unfoldable pub del_key : (String → Bool) → Option String → List StoredObject → List StoredObject
unfolding del
del_key fails none objects = objects
del_key fails (some key) objects = if is_empty key then objects else del fails key objects

-- A foreign key without ON DELETE refers to the row: skills, memory_entries, wiki_entries.
unfoldable pub is_held : Db → String → Bool
is_held db id =
    any (λ k. k.file_id == id) db.skills
    || (any (λ m. any (λ e. e.file_id == id) m.entries) db.memory_stores
        || any (λ w. any (λ e. e.file_id == id) w.entries) db.wikis)

unfoldable pub object_key_exists : Db → String → Bool
object_key_exists db key = any (λ f. f.object_key == key) db.files

-- session_files goes with the row.
unfoldable pub drop_file_rows : (FileRow → Bool) → Db → Db
drop_file_rows gone db = record db {
  files = filter (λ f. not (gone f)) db.files;
  session_files =
      filter (λ r. not (any (λ f. gone f && (f.id == r.file_id)) db.files)) db.session_files;
}

-- The key of the deleted row, if no other row has it.
released_key : List FileRow → Option FileRow → Option String
released_key rows none = none
released_key rows (some d) =
    if any (λ f. (f.object_key == d.object_key) && not (f.id == d.id)) rows
    then none
    else some d.object_key

-- `none` is the error of a row that is held.
unfoldable pub delete_file_record_by_id : Db → String → Option (Db × Option String)
unfolding is_held drop_file_rows released_key
delete_file_record_by_id db id =
    let row = find_row file_key id db.files in
    if is_some row && is_held db id
    then none
    else some (drop_file_rows (λ f. f.id == id) db, released_key db.files row)

pub record Deleted : Type 0 where
  pub deleted : Bool
  pub object_key : Option String

unfoldable pub delete_file : Db → String → String → Option (Db × Deleted)
unfolding delete_file_record_by_id
delete_file db workspace id =
    if not (any (λ f. (f.id == id) && (f.workspace_id == workspace)) db.files)
    then some (db, record { deleted = false; object_key = none })
    else elim (delete_file_record_by_id db id) [
      | none ↦ none
      | some r ↦ some (r.0, record { deleted = true; object_key = r.1 })
    ]

-- A checkpoint is in use while its session's row names it.
stale_checkpoint : List Session → FileRow → Option String → Bool
stale_checkpoint sessions f none = true
stale_checkpoint sessions f (some id) =
    not (any (λ s. s.id == id) sessions)
    || any (λ s. (s.id == id) && not (same_text s.checkpoint_file_id f.id)) sessions

unreferenced : Db → FileRow → Bool
unfolding stale_checkpoint
unreferenced db f =
    ((f.kind == "checkpoint") && stale_checkpoint db.sessions f f.session_id)
    || (((f.kind == "skill")
          && not (any (λ k. (k.file_id == f.id) || any (λ e. e.file_id == f.id) k.files) db.skills))
        || (((f.kind == "memory")
              && not (any (λ m. any (λ e. e.file_id == f.id) m.entries) db.memory_stores))
            || ((f.kind == "wiki")
                && not (any (λ w. any (λ e. e.file_id == f.id) w.entries) db.wikis))))

unfoldable pub is_orphan : Db → ℕ → ℕ → FileRow → Bool
unfolding unreferenced
is_orphan db now grace f = ltb (f.created_at + grace) now && unreferenced db f

unfoldable pub list_orphan_file_rows : Db → ℕ → ℕ → List String
unfolding is_orphan
list_orphan_file_rows db now grace = map file_key (filter (is_orphan db now grace) db.files)
