-- ===== src/Workspaces/Deletion/Cleared.antt =====
-- The deletion of a workspace ends, and what it leaves.
use devproofai.Base.{ℕ, ◌+◌, Bool, false, String, ◌≡◌, true, not, ◌||◌, List, [], ◌==◌, All}
use devproofai.Workspaces.Deletion.{
  Estate, Cluster, Table, rows_of, has_webhook, has_api_key, tombstone,
}

module _ (ws : String) (out : Cluster) where
  -- A run of one drain, or of several: it failed, or ended with the tables `ts` empty, and filled
  -- none.
  record Ends (ts : List Table) (e f : Estate) : Type 0 where
    emptied : All (λ t. rows_of ws t f ≡ []) ts
    keeps : (u : Table) → rows_of ws u e ≡ [] → rows_of ws u f ≡ []

  -- No row of the workspace is left in any drained table.
  pub record IsEmptied (e : Estate) : Type 0 where
    pub left : (t : Table) → rows_of ws t e ≡ []

  -- Nothing that the count of a pass reads is left.
  pub record IsClean (e : Estate) : Type 0 where
    pub left : (t : Table) → rows_of ws t e ≡ []
    pub no_webhook : has_webhook ws out e ≡ false
    pub no_api_key : has_api_key ws out e ≡ false

  -- The row is a tombstone.
  pub record IsMarked (e : Estate) : Type 0 where
    pub marked : All (λ w. (not (w.id == ws) || (w.status == "deleted")) ≡ true) e.db.workspaces

  module _ (meanwhile : ℕ → Estate → Estate) where
    -- How the passes up to pass `top - 1` end: the count of one of them found nothing, or the count
    -- of the last found what other requests had written after its drain.
    pub data Ended (top : ℕ) (f : Estate) : Type 0 where
      clean : IsClean f → Ended top f
      written :
          (last : ℕ) (g : Estate)
          → last + 1 ≡ top
          → IsEmptied g
          → f ≡ meanwhile last g
          → Ended top f

    -- The end of a deletion: a tombstone with nothing left, or with what other requests wrote
    -- between the drain and the count of the third pass to tables that this drain had emptied.
    pub data Deletes : Estate → Type 0 where
      cleared : (f : Estate) → IsMarked f → IsClean f → Deletes f
      resources_remain :
          (g : Estate)
          → IsEmptied g
          → IsMarked (tombstone ws out (meanwhile 2 g))
          → Deletes (tombstone ws out (meanwhile 2 g))
