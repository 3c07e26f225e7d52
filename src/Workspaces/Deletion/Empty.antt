-- ===== src/Workspaces/Deletion/Empty.antt =====
-- What a deletion makes of an empty table, by the table that it deletes from.
use devproofai.Base.{
  String, ◌≡◌, refl, ◌∙◌, Bool, true, false, not, ◌&&◌, List, [], none, ◌==◌, if◌then◌else◌, filter,
  map,
}
use devproofai.Store.Rows.{FileRow, Db}
use devproofai.Files.{drop_file_rows, same_text}
use devproofai.Files.Sessions.{drop_session, detached, is_session_file}
use devproofai.Workspaces.Deletion.Owned.{without, owned-map, owned-filter_none}
use devproofai.Workspaces.Deletion.{
  Estate, Cluster, Table, sessions, skills, memory_stores, wikis, files, environments, vaults,
  agents, uploads, rows_of, freed_version, drop_agent,
}
use devproofai.Workspaces.Deletion.Results.{drop_session-case}

module _ (ws : String) (out : Cluster) where
  -- The rows of a table, of a store whose other columns are those of an estate.
  abbrev pub rows_in : Table → Estate → Db → List String
  rows_in t e db = rows_of ws t (record e { db = db })

  pub skill_keeps :
      (id : String) (e : Estate) (u : Table)
      → rows_of ws u e ≡ []
      → rows_of ws u (record e {
        db = record e.db { skills = without (λ r. r.id) (λ r. r.workspace_id) ws id e.db.skills };
      })
        ≡ []
  unfolding rows_of
  skill_keeps id e sessions h = h
  skill_keeps id e skills h =
      owned-filter_none (λ r. r.id) (λ r. r.workspace_id) ws
        (λ r. not ((r.id == id) && (r.workspace_id == ws))) e.db.skills h
  skill_keeps id e memory_stores h = h
  skill_keeps id e wikis h = h
  skill_keeps id e files h = h
  skill_keeps id e environments h = h
  skill_keeps id e vaults h = h
  skill_keeps id e agents h = h
  skill_keeps id e uploads h = h

  pub memory_store_keeps :
      (id : String) (e : Estate) (u : Table)
      → rows_of ws u e ≡ []
      → rows_of ws u (record e {
        db = record e.db {
          memory_stores = without (λ r. r.id) (λ r. r.workspace_id) ws id e.db.memory_stores;
        };
      })
        ≡ []
  unfolding rows_of
  memory_store_keeps id e sessions h = h
  memory_store_keeps id e skills h = h
  memory_store_keeps id e memory_stores h =
      owned-filter_none (λ r. r.id) (λ r. r.workspace_id) ws
        (λ r. not ((r.id == id) && (r.workspace_id == ws))) e.db.memory_stores h
  memory_store_keeps id e wikis h = h
  memory_store_keeps id e files h = h
  memory_store_keeps id e environments h = h
  memory_store_keeps id e vaults h = h
  memory_store_keeps id e agents h = h
  memory_store_keeps id e uploads h = h

  pub wiki_keeps :
      (id : String) (e : Estate) (u : Table)
      → rows_of ws u e ≡ []
      → rows_of ws u (record e {
        db = record e.db { wikis = without (λ r. r.id) (λ r. r.workspace_id) ws id e.db.wikis };
      })
        ≡ []
  unfolding rows_of
  wiki_keeps id e sessions h = h
  wiki_keeps id e skills h = h
  wiki_keeps id e memory_stores h = h
  wiki_keeps id e wikis h =
      owned-filter_none (λ r. r.id) (λ r. r.workspace_id) ws
        (λ r. not ((r.id == id) && (r.workspace_id == ws))) e.db.wikis h
  wiki_keeps id e files h = h
  wiki_keeps id e environments h = h
  wiki_keeps id e vaults h = h
  wiki_keeps id e agents h = h
  wiki_keeps id e uploads h = h

  pub environment_keeps :
      (id : String) (e : Estate) (u : Table)
      → rows_of ws u e ≡ []
      → rows_of ws u (record e {
        db = record e.db {
          environments = filter (λ x. not (x == id)) e.db.environments;
          versions = map (freed_version ws out id) e.db.versions;
        };
        environments = without (λ r. r.id) (λ r. r.workspace_id) ws id e.environments;
      })
        ≡ []
  unfolding rows_of
  environment_keeps id e sessions h = h
  environment_keeps id e skills h = h
  environment_keeps id e memory_stores h = h
  environment_keeps id e wikis h = h
  environment_keeps id e files h = h
  environment_keeps id e environments h =
      owned-filter_none (λ r. r.id) (λ r. r.workspace_id) ws
        (λ r. not ((r.id == id) && (r.workspace_id == ws))) e.environments h
  environment_keeps id e vaults h = h
  environment_keeps id e agents h = h
  environment_keeps id e uploads h = h

  pub vault_keeps :
      (id : String) (e : Estate) (u : Table)
      → rows_of ws u e ≡ []
      → rows_of ws u
          (record e { vaults = without (λ r. r.id) (λ r. r.workspace_id) ws id e.vaults })
        ≡ []
  unfolding rows_of
  vault_keeps id e sessions h = h
  vault_keeps id e skills h = h
  vault_keeps id e memory_stores h = h
  vault_keeps id e wikis h = h
  vault_keeps id e files h = h
  vault_keeps id e environments h = h
  vault_keeps id e vaults h =
      owned-filter_none (λ r. r.id) (λ r. r.workspace_id) ws
        (λ r. not ((r.id == id) && (r.workspace_id == ws))) e.vaults h
  vault_keeps id e agents h = h
  vault_keeps id e uploads h = h

  pub agent_keeps :
      (id : String) (e : Estate) (u : Table)
      → rows_of ws u e ≡ []
      → rows_of ws u (record e { db = drop_agent ws out id e.db }) ≡ []
  unfolding rows_of drop_agent
  agent_keeps id e sessions h =
      owned-filter_none (λ r. r.id) (λ r. r.workspace_id) ws (λ s. not (s.agent_id == id))
        e.db.sessions h
  agent_keeps id e skills h = h
  agent_keeps id e memory_stores h = h
  agent_keeps id e wikis h = h
  agent_keeps id e files h = h
  agent_keeps id e environments h = h
  agent_keeps id e vaults h = h
  agent_keeps id e agents h =
      owned-filter_none (λ r. r.id) (λ r. r.workspace_id) ws
        (λ r. not ((r.id == id) && (r.workspace_id == ws))) e.db.agents h
  agent_keeps id e uploads h = h

  pub upload_keeps :
      (id : String) (e : Estate) (u : Table)
      → rows_of ws u e ≡ []
      → rows_of ws u (record e { uploads = filter (λ r. not (r.id == id)) e.uploads }) ≡ []
  unfolding rows_of
  upload_keeps id e sessions h = h
  upload_keeps id e skills h = h
  upload_keeps id e memory_stores h = h
  upload_keeps id e wikis h = h
  upload_keeps id e files h = h
  upload_keeps id e environments h = h
  upload_keeps id e vaults h = h
  upload_keeps id e agents h = h
  upload_keeps id e uploads h =
      owned-filter_none (λ r. r.id) (λ r. r.workspace_id) ws (λ r. not (r.id == id)) e.uploads h

  -- The store without a session's files, and without the session.
  pub session_keeps :
      (id : String) (e : Estate) (u : Table)
      → rows_of ws u e ≡ []
      → rows_in u e (drop_session ws id (drop_file_rows (is_session_file ws id) e.db)) ≡ []
  unfolding detached
  session_keeps id e u h =
      drop_session-case (drop_file_rows (is_session_file ws id) e.db) ws id
        (λ db. rows_in u e db ≡ []) (λ absent. bare u h) (whole u h)
    where
      bare :
          (u : Table)
          → rows_of ws u e ≡ []
          → rows_in u e (drop_file_rows (is_session_file ws id) e.db) ≡ []
      bare sessions h = unfold rows_of drop_file_rows in h
      bare skills h = unfold rows_of drop_file_rows in h
      bare memory_stores h = unfold rows_of drop_file_rows in h
      bare wikis h = unfold rows_of drop_file_rows in h
      bare files h =
          unfold rows_of drop_file_rows in
          owned-filter_none (λ r. r.id) (λ r. r.workspace_id) ws
            (λ f. not (is_session_file ws id f)) e.db.files (unfold rows_of in h)
      bare environments h = unfold rows_of drop_file_rows in h
      bare vaults h = unfold rows_of drop_file_rows in h
      bare agents h = unfold rows_of drop_file_rows in h
      bare uploads h = unfold rows_of drop_file_rows in h

      whole :
          (u : Table)
          → rows_of ws u e ≡ []
          → rows_in u e (record (drop_file_rows (is_session_file ws id) e.db) {
            sessions =
                without
                  (λ s. s.id)
                  (λ s. s.workspace_id)
                  ws
                  id
                  (drop_file_rows (is_session_file ws id) e.db).sessions;
            events =
                filter
                  (λ v. not (v.session_id == id))
                  (drop_file_rows (is_session_file ws id) e.db).events;
            pending =
                filter
                  (λ p. not (p.session_id == id))
                  (drop_file_rows (is_session_file ws id) e.db).pending;
            session_files =
                filter
                  (λ r. not (r.session_id == id))
                  (drop_file_rows (is_session_file ws id) e.db).session_files;
            files = map (detached id) (drop_file_rows (is_session_file ws id) e.db).files;
          })
            ≡ []
      whole sessions h =
          unfold rows_of drop_file_rows in
          owned-filter_none (λ r. r.id) (λ r. r.workspace_id) ws
            (λ s. not ((s.id == id) && (s.workspace_id == ws))) e.db.sessions h
      whole skills h = unfold rows_of drop_file_rows in h
      whole memory_stores h = unfold rows_of drop_file_rows in h
      whole wikis h = unfold rows_of drop_file_rows in h
      whole files h =
          unfold rows_of drop_file_rows in
          owned-map (λ r. r.id) (λ r. r.workspace_id) ws (detached id)
            (filter (λ f. not (is_session_file ws id f)) e.db.files)
            (λ r. same_id (same_text r.session_id id) r)
            (λ r. same_owner (same_text r.session_id id) r)
          ∙ owned-filter_none (λ r. r.id) (λ r. r.workspace_id) ws
              (λ f. not (is_session_file ws id f)) e.db.files (unfold rows_of in h)
        where
          same_id :
              (b : Bool) (r : FileRow) → (if b then record r { session_id = none } else r).id ≡ r.id
          same_id true r = refl
          same_id false r = refl

          same_owner :
              (b : Bool) (r : FileRow)
              → (if b then record r { session_id = none } else r).workspace_id ≡ r.workspace_id
          same_owner true r = refl
          same_owner false r = refl
      whole environments h = unfold rows_of drop_file_rows in h
      whole vaults h = unfold rows_of drop_file_rows in h
      whole agents h = unfold rows_of drop_file_rows in h
      whole uploads h = unfold rows_of drop_file_rows in h

  pub file_keeps :
      (id : String) (e : Estate) (u : Table)
      → rows_of ws u e ≡ []
      → rows_in u e (drop_file_rows (λ f. f.id == id) e.db) ≡ []
  unfolding rows_of drop_file_rows
  file_keeps id e sessions h = h
  file_keeps id e skills h = h
  file_keeps id e memory_stores h = h
  file_keeps id e wikis h = h
  file_keeps id e files h =
      owned-filter_none (λ r. r.id) (λ r. r.workspace_id) ws (λ f. not (f.id == id)) e.db.files h
  file_keeps id e environments h = h
  file_keeps id e vaults h = h
  file_keeps id e agents h = h
  file_keeps id e uploads h = h
