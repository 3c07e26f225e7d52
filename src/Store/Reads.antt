-- ===== src/Store/Reads.antt =====
-- What a launch reads beside the session: files, environments, workspaces, memory stores and wikis
-- (repo.ts, and `resolveWikiMounts` of wiki-refs.ts).
use devproofai.Base.{
  String, Bool, ◌&&◌, List, [], ◌∷◌, ◌++◌, Option, none, some, ◌==◌, if◌then◌else◌, filter, find?,
  any, map, includes,
}
use devproofai.Store.Rows.{
  Db, Workspace, FileRow, FileRef, FileRole, SessionFile, Shelf, EntryRef, WikiRef, WikiMount,
  same_role, is_write,
}

unfoldable pub get_workspace : Db → String → Option Workspace
get_workspace db id = find? (λ w. w.id == id) db.workspaces

unfoldable pub get_environment : Db → String → Option String
get_environment db id = find? (λ e. e == id) db.environments

-- WHERE id = ANY($1): each row once, however often its id is asked for
unfoldable pub list_file_records : Db → List String → List FileRow
list_file_records db ids = filter (λ f. includes ids f.id) db.files

attached : List SessionFile → String → String → FileRole → Bool
attached rows id file role =
    any (λ r. (r.session_id == id) && (r.file_id == file) && same_role r.role role) rows

attach_rows : List SessionFile → String → List String → FileRole → List SessionFile
attach_rows rows id [] role = rows
attach_rows rows id (f ∷ fs) role =
    let row : SessionFile = record { session_id = id; file_id = f; role = role } in
    attach_rows (if attached rows id f role then rows else rows ++ row ∷ []) id fs role

-- INSERT … ON CONFLICT DO NOTHING
unfoldable pub attach_session_files : Db → String → List String → FileRole → Db
unfolding attached attach_rows
attach_session_files db id files role = record db {
  session_files = attach_rows db.session_files id files role;
}

-- The files of one role, joined with their names.
unfoldable pub list_session_files : Db → String → FileRole → List FileRef
list_session_files db id role =
    map (λ f. record { id = f.id; name = f.name })
      (filter
        (λ f.
          any (λ r. (r.session_id == id) && (r.file_id == f.id) && same_role r.role role)
            db.session_files)
        db.files)

unfoldable pub get_memory_store : Db → String → String → Option Shelf
get_memory_store db store workspace =
    find? (λ m. (m.id == store) && (m.workspace_id == workspace)) db.memory_stores

unfoldable pub get_memory_entries : Db → String → List EntryRef
get_memory_entries db store = elim (find? (λ m. m.id == store) db.memory_stores) [
  | none ↦ []
  | some m ↦ m.entries
]

mount_wikis : List Shelf → String → List WikiRef → List WikiMount
mount_wikis rows workspace [] = []
mount_wikis rows workspace (r ∷ refs) =
    let rest = mount_wikis rows workspace refs in
    elim (find? (λ w. (w.id == r.wiki_id) && (w.workspace_id == workspace)) rows) [
      | none ↦ rest
      | some w ↦ record { id = w.id; name = w.name; mode = r.mode; entries = w.entries } ∷ rest
    ]

-- Each attached wiki of the workspace with its files; a wiki that is gone is skipped.
unfoldable pub resolve_wiki_mounts : Db → String → List WikiRef → List WikiMount
unfolding mount_wikis
resolve_wiki_mounts db workspace refs = mount_wikis db.wikis workspace refs

unfoldable pub has_write_ref : List WikiRef → Bool
has_write_ref refs = any (λ r. is_write r.mode) refs

-- The wikis that the references claim to write, the keys of the lock that serialises two saves.
unfoldable pub write_wiki_ids : List WikiRef → List String
write_wiki_ids refs = map (λ r. r.wiki_id) (filter (λ r. is_write r.mode) refs)
