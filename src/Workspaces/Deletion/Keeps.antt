-- ===== src/Workspaces/Deletion/Keeps.antt =====
-- No deletion adds a row to an empty table.
use devproofai.Base.{String, ◌≡◌, refl, List, [], Option, none, some, inl, inr, Bool-cases}
use devproofai.Store.Rows.{Db}
use devproofai.Files.{Deleted, del_key, delete_file}
use devproofai.Files.Sessions.{delete_session, del_keys}
use devproofai.Workspaces.Deletion.{
  Estate, Cluster, Table, sessions, skills, memory_stores, wikis, files, environments, vaults,
  agents, uploads, rows_of, with_session, with_file, delete_one,
}
use devproofai.Workspaces.Deletion.Results.{of_some, session-of_some, file-of_some}
use devproofai.Workspaces.Deletion.Empty.{
  skill_keeps, memory_store_keeps, wiki_keeps, environment_keeps, vault_keeps, agent_keeps,
  upload_keeps, session_keeps, file_keeps, rows_in,
}

module _ (ws : String) (out : Cluster) where
  pub delete_one-keeps :
      (t u : Table) (id : String) (e f : Estate)
      → delete_one ws out t id e ≡ some f
      → rows_of ws u e ≡ []
      → rows_of ws u f ≡ []
  unfolding delete_one with_session with_file
  delete_one-keeps skills u id e f h r =
      of_some (λ x. rows_of ws u x ≡ []) _ f (skill_keeps ws out id e u r) h
  delete_one-keeps memory_stores u id e f h r =
      of_some (λ x. rows_of ws u x ≡ []) _ f (memory_store_keeps ws out id e u r) h
  delete_one-keeps wikis u id e f h r =
      of_some (λ x. rows_of ws u x ≡ []) _ f (wiki_keeps ws out id e u r) h
  delete_one-keeps agents u id e f h r =
      of_some (λ x. rows_of ws u x ≡ []) _ f (agent_keeps ws out id e u r) h
  delete_one-keeps uploads u id e f h r =
      of_some (λ x. rows_of ws u x ≡ []) _ f (upload_keeps ws out id e u r) h
  delete_one-keeps environments u id e f h r = elim (Bool-cases (out.environment_fails id)) [
    | inl fails ↦ elim (clash (rw fails at h)) [ ]
    | inr works ↦
        of_some (λ x. rows_of ws u x ≡ []) _ f (environment_keeps ws out id e u r) (rw works at h)
  ]
    where
      clash : none ≡ some f → ⊥
      clash h = cc
  delete_one-keeps vaults u id e f h r = elim (Bool-cases (out.vault_fails id)) [
    | inl fails ↦ elim (clash (rw fails at h)) [ ]
    | inr works ↦
        of_some (λ x. rows_of ws u x ≡ []) _ f (vault_keeps ws out id e u r) (rw works at h)
  ]
    where
      clash : none ≡ some f → ⊥
      clash h = cc
  delete_one-keeps sessions u id e f h r = on (delete_session e.db ws id) refl h
    where
      on :
          (o : Option (Db × List String))
          → delete_session e.db ws id ≡ o
          → with_session ws out e o ≡ some f
          → rows_of ws u f ≡ []
      on none g h = elim (clash h) [ ]
        where
          clash : none ≡ some f → ⊥
          clash h = cc
      on (some x) g h =
          of_some (λ y. rows_of ws u y ≡ []) _ f
            (same u (
              session-of_some e.db ws id (λ db. rows_in ws out u e db ≡ []) x
                (session_keeps ws out id e u r) g))
            h
        where
          same :
              (u : Table)
              → rows_in ws out u e x.0 ≡ []
              → rows_of ws u
                  (record e { db = x.0; objects = del_keys out.object_fails x.1 e.objects })
                ≡ []
          same sessions h = unfold rows_of in (unfold rows_of in h)
          same skills h = unfold rows_of in (unfold rows_of in h)
          same memory_stores h = unfold rows_of in (unfold rows_of in h)
          same wikis h = unfold rows_of in (unfold rows_of in h)
          same files h = unfold rows_of in (unfold rows_of in h)
          same environments h = unfold rows_of in (unfold rows_of in h)
          same vaults h = unfold rows_of in (unfold rows_of in h)
          same agents h = unfold rows_of in (unfold rows_of in h)
          same uploads h = unfold rows_of in (unfold rows_of in h)
  delete_one-keeps files u id e f h r = on (delete_file e.db ws id) refl h
    where
      on :
          (o : Option (Db × Deleted))
          → delete_file e.db ws id ≡ o
          → with_file ws out e o ≡ some f
          → rows_of ws u f ≡ []
      on none g h = elim (clash h) [ ]
        where
          clash : none ≡ some f → ⊥
          clash h = cc
      on (some x) g h =
          of_some (λ y. rows_of ws u y ≡ []) _ f
            (same u (
              file-of_some e.db ws id (λ db. rows_in ws out u e db ≡ []) x (λ absent. r)
                (file_keeps ws out id e u r) g))
            h
        where
          same :
              (u : Table)
              → rows_in ws out u e x.0 ≡ []
              → rows_of ws u (record e {
                db = x.0;
                objects = del_key out.object_fails x.1.object_key e.objects;
              })
                ≡ []
          same sessions h = unfold rows_of in (unfold rows_of in h)
          same skills h = unfold rows_of in (unfold rows_of in h)
          same memory_stores h = unfold rows_of in (unfold rows_of in h)
          same wikis h = unfold rows_of in (unfold rows_of in h)
          same files h = unfold rows_of in (unfold rows_of in h)
          same environments h = unfold rows_of in (unfold rows_of in h)
          same vaults h = unfold rows_of in (unfold rows_of in h)
          same agents h = unfold rows_of in (unfold rows_of in h)
          same uploads h = unfold rows_of in (unfold rows_of in h)
