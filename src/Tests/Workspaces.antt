-- ===== src/Tests/Workspaces.antt =====
-- The deletion of a workspace with sessions, files and shelves.
use devproofai.Base.{ℕ, zero, suc, false, [], ◌∷◌}
use devproofai.Workspaces.Deletion.{Estate, Cluster}
use devproofai.Tests.Maintenance.{shelves, objects}

abbrev calm : Cluster
calm = record {
  environment_fails = λ id. false;
  vault_fails = λ id. false;
  object_fails = λ id. false;
}

abbrev estate : Estate
estate = record {
  db = shelves;
  objects = objects;
  environments =
      record { id = "env1"; workspace_id = "w1" }
      ∷ record { id = "env2"; workspace_id = "w2" }
      ∷ [];
  vaults = [];
  webhooks = record { id = "h1"; workspace_id = "w1" } ∷ [];
  api_keys = record { id = "k1"; workspace_id = "w1"; status = "active" } ∷ [];
  uploads = record { id = "u1"; workspace_id = "w1" } ∷ [];
}

-- An upload is begun while the first pass ends; nothing comes after.
abbrev late_upload : ℕ → Estate → Estate
late_upload zero e = record e { uploads = record { id = "u2"; workspace_id = "w1" } ∷ e.uploads }
late_upload (suc k) e = e
