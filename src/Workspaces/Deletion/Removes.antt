-- ===== src/Workspaces/Deletion/Removes.antt =====
-- Each deletion takes its row out of its table.
use devproofai.Base.{
  String, ◌≡◌, refl, not, List, Option, none, some, ◌==◌, filter, inl, inr, Bool-cases,
}
use devproofai.Store.Rows.{Db}
use devproofai.Files.{Deleted, delete_file, drop_file_rows}
use devproofai.Files.Sessions.{delete_session, is_session_file}
use devproofai.Workspaces.Deletion.Owned.{owned-without, owned-dropped, owned-absent}
use devproofai.Workspaces.Deletion.{
  Estate, Cluster, Table, sessions, skills, memory_stores, wikis, files, environments, vaults,
  agents, uploads, rows_of, with_session, with_file, delete_one, drop_agent,
}
use devproofai.Workspaces.Deletion.Results.{
  of_some, session-of_some, file-of_some, drop_session-case,
}

module _ (ws : String) (out : Cluster) where
  -- The rows of a table, of a store whose other columns are those of an estate.
  abbrev rows_in : Table → Estate → Db → List String
  rows_in t e db = rows_of ws t (record e { db = db })

  session-removes :
      (id : String) (e f : Estate)
      → delete_one ws out sessions id e ≡ some f
      → rows_of ws sessions f ≡ filter (λ x. not (x == id)) (rows_of ws sessions e)
  unfolding delete_one with_session rows_of
  session-removes id e f = on (delete_session e.db ws id) refl
    where
      on :
          (o : Option (Db × List String))
          → delete_session e.db ws id ≡ o
          → with_session ws out e o ≡ some f
          → rows_of ws sessions f ≡ filter (λ x. not (x == id)) (rows_of ws sessions e)
      on none g h = elim (clash h) [ ]
        where
          clash : none ≡ some f → ⊥
          clash h = cc
      on (some r) g h =
          of_some (λ x. rows_of ws sessions x ≡ filter (λ x. not (x == id)) (rows_of ws sessions e))
            _ f
            (session-of_some e.db ws id
              (λ db. rows_in sessions e db ≡ filter (λ x. not (x == id)) (rows_of ws sessions e)) r
              (drop_session-case (drop_file_rows (is_session_file ws id) e.db) ws id
                (λ db. rows_in sessions e db ≡ filter (λ x. not (x == id)) (rows_of ws sessions e))
                (λ absent.
                  unfold rows_of drop_file_rows in
                  owned-absent (λ r. r.id) (λ r. r.workspace_id) ws id e.db.sessions
                    (unfold drop_file_rows in absent))
                (unfold rows_of drop_file_rows in
                  owned-without (λ r. r.id) (λ r. r.workspace_id) ws id e.db.sessions))
              g)
            h

  file-removes :
      (id : String) (e f : Estate)
      → delete_one ws out files id e ≡ some f
      → rows_of ws files f ≡ filter (λ x. not (x == id)) (rows_of ws files e)
  unfolding delete_one with_file rows_of
  file-removes id e f = on (delete_file e.db ws id) refl
    where
      on :
          (o : Option (Db × Deleted))
          → delete_file e.db ws id ≡ o
          → with_file ws out e o ≡ some f
          → rows_of ws files f ≡ filter (λ x. not (x == id)) (rows_of ws files e)
      on none g h = elim (clash h) [ ]
        where
          clash : none ≡ some f → ⊥
          clash h = cc
      on (some r) g h =
          of_some (λ x. rows_of ws files x ≡ filter (λ x. not (x == id)) (rows_of ws files e)) _ f
            (file-of_some e.db ws id
              (λ db. rows_in files e db ≡ filter (λ x. not (x == id)) (rows_of ws files e)) r
              (λ absent.
                unfold rows_of in
                owned-absent (λ r. r.id) (λ r. r.workspace_id) ws id e.db.files absent)
              (unfold rows_of drop_file_rows in
                owned-dropped (λ r. r.id) (λ r. r.workspace_id) ws id e.db.files)
              g)
            h

  pub delete_one-removes :
      (t : Table) (id : String) (e f : Estate)
      → delete_one ws out t id e ≡ some f
      → rows_of ws t f ≡ filter (λ x. not (x == id)) (rows_of ws t e)
  unfolding delete_one rows_of drop_agent
  delete_one-removes sessions id e f h = session-removes id e f h
  delete_one-removes files id e f h = file-removes id e f h
  delete_one-removes skills id e f h =
      of_some (λ x. rows_of ws skills x ≡ filter (λ x. not (x == id)) (rows_of ws skills e)) _ f
        (owned-without (λ r. r.id) (λ r. r.workspace_id) ws id e.db.skills) h
  delete_one-removes memory_stores id e f h =
      of_some
        (λ x. rows_of ws memory_stores x ≡ filter (λ x. not (x == id)) (rows_of ws memory_stores e))
        _ f (owned-without (λ r. r.id) (λ r. r.workspace_id) ws id e.db.memory_stores) h
  delete_one-removes wikis id e f h =
      of_some (λ x. rows_of ws wikis x ≡ filter (λ x. not (x == id)) (rows_of ws wikis e)) _ f
        (owned-without (λ r. r.id) (λ r. r.workspace_id) ws id e.db.wikis) h
  delete_one-removes agents id e f h =
      of_some (λ x. rows_of ws agents x ≡ filter (λ x. not (x == id)) (rows_of ws agents e)) _ f
        (owned-without (λ r. r.id) (λ r. r.workspace_id) ws id e.db.agents) h
  delete_one-removes uploads id e f h =
      of_some (λ x. rows_of ws uploads x ≡ filter (λ x. not (x == id)) (rows_of ws uploads e)) _ f
        (owned-dropped (λ r. r.id) (λ r. r.workspace_id) ws id e.uploads) h
  delete_one-removes environments id e f h = elim (Bool-cases (out.environment_fails id)) [
    | inl fails ↦ elim (clash (rw fails at h)) [ ]
    | inr works ↦
        of_some
          (λ x. rows_of ws environments x ≡ filter (λ x. not (x == id)) (rows_of ws environments e))
          _ f (owned-without (λ r. r.id) (λ r. r.workspace_id) ws id e.environments) (rw works at h)
  ]
    where
      clash : none ≡ some f → ⊥
      clash h = cc
  delete_one-removes vaults id e f h = elim (Bool-cases (out.vault_fails id)) [
    | inl fails ↦ elim (clash (rw fails at h)) [ ]
    | inr works ↦
        of_some (λ x. rows_of ws vaults x ≡ filter (λ x. not (x == id)) (rows_of ws vaults e)) _ f
          (owned-without (λ r. r.id) (λ r. r.workspace_id) ws id e.vaults) (rw works at h)
  ]
    where
      clash : none ≡ some f → ⊥
      clash h = cc
