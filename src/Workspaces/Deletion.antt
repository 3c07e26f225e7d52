-- ===== src/Workspaces/Deletion.antt =====
-- `runWorkspaceDelete`: every table of a workspace is drained, in an order that the foreign keys
-- allow, and the row is left as a tombstone. What the cluster throws is given, and what other
-- requests do to the store between the drain and the count of a pass; during a drain none runs.
pub mod Owned
pub mod Results
pub mod Removes
pub mod Empty
pub mod Keeps
pub mod Cleared
use devproofai.Base.{
  ℕ, zero, suc, ◌+◌, String, Bool, true, false, not, ◌&&◌, ◌||◌, List, [], ◌∷◌, Option, none, some,
  ◌==◌, if◌then◌else◌, any, length, filter, map, is_empty, nat_eq, update_row,
}
use devproofai.Store.Rows.{Session, Workspace, AgentVersion, Db}
use devproofai.Files.{StoredObject, Deleted, del_key, delete_file, same_text}
use devproofai.Files.Sessions.{delete_session, del_keys}
use devproofai.Workspaces.Drain.{Drained, done, failed, out_of_fuel, drain}
use devproofai.Workspaces.Deletion.Owned.{owned, without}

-- What a deletion reads of a row of environments, vaults, webhooks or file_uploads.
pub record Held : Type 0 where
  pub id : String
  pub workspace_id : String

pub record ApiKey : Type 0 where
  pub id : String
  pub workspace_id : String
  pub status : String

pub record Estate : Type 0 where
  pub db : Db
  pub objects : List StoredObject
  pub environments : List Held
  pub vaults : List Held
  pub webhooks : List Held
  pub api_keys : List ApiKey
  pub uploads : List Held

-- Which calls throw: an environment's and a vault's resources, an object's deletion.
pub record Cluster : Type 0 where
  pub environment_fails : String → Bool
  pub vault_fails : String → Bool
  pub object_fails : String → Bool

-- The drained tables, in their order.
pub data Table : Type 0 where
  sessions skills memory_stores wikis files environments vaults agents uploads : Table

pub is_none : List String → Bool
is_none [] = true
is_none (id ∷ ids) = false

module _ (ws : String) where
  -- `workspaceRowIds`
  unfoldable pub rows_of : Table → Estate → List String
  rows_of sessions e = owned (λ r. r.id) (λ r. r.workspace_id) ws e.db.sessions
  rows_of skills e = owned (λ r. r.id) (λ r. r.workspace_id) ws e.db.skills
  rows_of memory_stores e = owned (λ r. r.id) (λ r. r.workspace_id) ws e.db.memory_stores
  rows_of wikis e = owned (λ r. r.id) (λ r. r.workspace_id) ws e.db.wikis
  rows_of files e = owned (λ r. r.id) (λ r. r.workspace_id) ws e.db.files
  rows_of environments e = owned (λ r. r.id) (λ r. r.workspace_id) ws e.environments
  rows_of vaults e = owned (λ r. r.id) (λ r. r.workspace_id) ws e.vaults
  rows_of agents e = owned (λ r. r.id) (λ r. r.workspace_id) ws e.db.agents
  rows_of uploads e = owned (λ r. r.id) (λ r. r.workspace_id) ws e.uploads

  module _ (out : Cluster) where
    with_session : Estate → Option (Db × List String) → Option Estate
    with_session e none = none
    with_session e (some r) =
        some (record e { db = r.0; objects = del_keys out.object_fails r.1 e.objects })

    with_file : Estate → Option (Db × Deleted) → Option Estate
    with_file e none = none
    with_file e (some r) =
        some (record e { db = r.0; objects = del_key out.object_fails r.1.object_key e.objects })

    -- ON DELETE SET NULL
    unfoldable pub freed_version : String → AgentVersion → AgentVersion
    freed_version id v =
        if same_text v.environment_id id then record v { environment_id = none } else v

    -- The versions and the sessions of an agent go with it.
    unfoldable pub drop_agent : String → Db → Db
    drop_agent id db = record db {
      agents = without (λ r. r.id) (λ r. r.workspace_id) ws id db.agents;
      versions = filter (λ v. not (v.agent_id == id)) db.versions;
      sessions = filter (λ s. not (s.agent_id == id)) db.sessions;
    }

    -- One row of a table; `none` is an error, which ends the run.
    unfoldable pub delete_one : Table → String → Estate → Option Estate
    unfolding with_session with_file drop_agent freed_version
    delete_one sessions id e = with_session e (delete_session e.db ws id)
    delete_one skills id e = some (record e {
      db = record e.db { skills = without (λ r. r.id) (λ r. r.workspace_id) ws id e.db.skills };
    })
    delete_one memory_stores id e = some (record e {
      db = record e.db {
        memory_stores = without (λ r. r.id) (λ r. r.workspace_id) ws id e.db.memory_stores;
      };
    })
    delete_one wikis id e = some (record e {
      db = record e.db { wikis = without (λ r. r.id) (λ r. r.workspace_id) ws id e.db.wikis };
    })
    delete_one files id e = with_file e (delete_file e.db ws id)
    delete_one environments id e =
        if out.environment_fails id
        then none
        else some (record e {
          db = record e.db {
            environments = filter (λ x. not (x == id)) e.db.environments;
            versions = map (freed_version id) e.db.versions;
          };
          environments = without (λ r. r.id) (λ r. r.workspace_id) ws id e.environments;
        })
    delete_one vaults id e =
        if out.vault_fails id
        then none
        else some (record e { vaults = without (λ r. r.id) (λ r. r.workspace_id) ws id e.vaults })
    delete_one agents id e = some (record e { db = drop_agent id e.db })
    delete_one uploads id e = some (record e { uploads = filter (λ r. not (r.id == id)) e.uploads })

    unfoldable pub drain_table : Table → Estate → Drained Estate
    unfolding drain delete_one
    drain_table t e = drain (rows_of t) (delete_one t) (suc (length (rows_of t e))) e

    and_drain : Drained Estate → (Estate → Drained Estate) → Drained Estate
    and_drain failed f = failed
    and_drain out_of_fuel f = out_of_fuel
    and_drain (done e) f = f e

    drain_tables : List Table → Estate → Drained Estate
    unfolding and_drain drain_table
    drain_tables [] e = done e
    drain_tables (t ∷ ts) e = and_drain (drain_table t e) (drain_tables ts)

    -- Webhooks go, keys are marked, so that their names survive.
    close_access : Estate → Estate
    close_access e = record e {
      webhooks = filter (λ r. not (r.workspace_id == ws)) e.webhooks;
      api_keys =
          map (λ k. if k.workspace_id == ws then record k { status = "deleted" } else k) e.api_keys;
    }

    abbrev pub drained_tables : List Table
    drained_tables =
        sessions ∷ skills ∷ memory_stores ∷ wikis ∷ files ∷ environments ∷ vaults ∷ agents ∷ []

    drain_all : Estate → Drained Estate
    unfolding drain_tables drain_table close_access and_drain
    drain_all e =
        and_drain (drain_tables drained_tables e) (λ f. drain_table uploads (close_access f))

    pub all_none : List Table → Estate → Bool
    unfolding is_none
    all_none [] e = true
    all_none (t ∷ ts) e = is_none (rows_of t e) && all_none ts e

    pub has_webhook : Estate → Bool
    has_webhook e = any (λ r. r.workspace_id == ws) e.webhooks

    pub has_api_key : Estate → Bool
    has_api_key e = any (λ k. (k.workspace_id == ws) && not (k.status == "deleted")) e.api_keys

    -- `workspaceResourceCounts` are all 0.
    unfoldable pub is_clean : Estate → Bool
    unfolding all_none has_webhook has_api_key
    is_clean e =
        all_none (uploads ∷ drained_tables) e && (not (has_webhook e) && not (has_api_key e))

    -- `setWorkspaceStatus(wsId, "deleted")`
    pub tombstone : Estate → Estate
    tombstone e = record e {
      db = record e.db {
        workspaces =
            update_row (λ w. w.id) ws (λ w. record w { status = "deleted" }) e.db.workspaces;
      };
    }

    -- `meanwhile k` is what other requests do between the drain and the count of pass `k`.
    module _ (meanwhile : ℕ → Estate → Estate) where
      -- At most so many passes, whatever is left; `k` counts them.
      passes : ℕ → ℕ → Estate → Drained Estate
      unfolding drain_all is_clean and_drain
      passes zero k e = done e
      passes (suc n) k e = and_drain (drain_all e) (λ f.
          if is_clean (meanwhile k f)
          then done (meanwhile k f)
          else passes n (k + 1) (meanwhile k f))

      unfoldable pub run_workspace_delete : Estate → Drained Estate
      unfolding passes tombstone and_drain
      run_workspace_delete e = and_drain (passes 3 0 e) (λ f. done (tombstone f))
