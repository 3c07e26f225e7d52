-- ===== src/Store/Entries.antt =====
-- The entries of a wiki, `upsertWikiEntries` of repo.ts: a path names a file, and the files that are
-- replaced or deleted are given back. `upsertMemoryEntries` issues the same statements on
-- memory_entries.
pub mod Refined
use devproofai.Base.{
  String, Bool, true, false, not, ◌&&◌, List, [], ◌∷◌, ◌++◌, Option, none, some, ◌==◌,
  if◌then◌else◌, filter, find_row, includes, is_empty, map,
}
use devproofai.Store.Rows.{EntryRef}

file_of : Option EntryRef → Option String
file_of none = none
file_of (some r) = some r.file_id

-- `getWikiEntry`: the file of a path.
unfoldable pub entry_at : String → List EntryRef → Option String
unfolding file_of
entry_at path rows = file_of (find_row (λ r. r.path) path rows)

-- INSERT … ON CONFLICT (wiki_id, path) DO UPDATE
unfoldable pub put_entry : List EntryRef → EntryRef → List EntryRef
put_entry [] e = e ∷ []
put_entry (r ∷ rows) e =
    let rest = put_entry rows e in
    if r.path == e.path then record r { file_id = e.file_id } ∷ rows else r ∷ rest

-- The file that an entry takes the place of.
replaced : Option String → String → List String
replaced none file = []
replaced (some prev) file = if is_empty prev then [] else if prev == file then [] else prev ∷ []

unfoldable pub put_entries : List EntryRef → List EntryRef → List EntryRef × List String
unfolding replaced entry_at put_entry
put_entries rows [] = (rows, [])
put_entries rows (e ∷ es) =
    let rest = put_entries (put_entry rows e) es in
    (rest.0, replaced (entry_at e.path rows) e.file_id ++ rest.1)

unfoldable pub upsert_wiki_entries :
    List EntryRef → List EntryRef → List String → List EntryRef × List String
unfolding put_entries
upsert_wiki_entries rows es deletes =
    let put = put_entries rows es in
    (
      filter (λ r. not (includes deletes r.path)) put.0,
      put.1 ++ map (λ r. r.file_id) (filter (λ r. includes deletes r.path) put.0),
    )
