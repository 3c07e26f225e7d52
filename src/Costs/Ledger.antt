-- ===== src/Costs/Ledger.antt =====
-- The ledger, and the sampler that writes it: cost_entries with `insertCostEntries` and
-- `costWatermarks` of repo.ts, `accrue`, `costSamplerTick` and `settleSession` of cost-sampler.ts.
-- Entries stand newest first. What Kubernetes says of deployments and jobs is given by the caller.
pub mod Chain
pub mod Covers
pub mod Metering
use devproofai.Base.{
  ℕ, ◌+◌, String, Bool, true, false, not, ◌&&◌, ◌||◌, List, [], ◌∷◌, ◌++◌, Option, none, some, ◌==◌,
  if◌then◌else◌, ltb, max, is_empty, filter, find_row,
}
use devproofai.Store.Rows.{Status, Session, AgentVersion, Db, session_key}
use devproofai.Store.Sessions.{get_session, get_agent_version}
use devproofai.Platform.Settings.{CostSettings}
use devproofai.Costs.Span.{AccrualMode, tick, settle}
use devproofai.Costs.Accruals.{
  DeploymentObs, TurnObs, EntryKind, CostEntry, PriceRow, Watermarks, compute_accruals,
}

abbrev pub is_deployment_kind : EntryKind → Bool
is_deployment_kind EntryKind.pool_pod = true
is_deployment_kind EntryKind.deployment_time = true
is_deployment_kind _ = false

abbrev pub later : ℕ → Option ℕ → Option ℕ
later t none = some t
later t (some u) = some (max t u)

-- max(ts) of the entries of one subject in the last day
unfoldable pub watermark : Bool → ℕ → String → List CostEntry → Option ℕ
watermark dep now subject [] = none
watermark dep now subject (e ∷ es) =
    let rest = watermark dep now subject es in
    if (e.subject == subject)
      && (if dep then is_deployment_kind e.kind else not (is_deployment_kind e.kind))
      && ltb now (e.ts + 86_400_000)
    then later e.ts rest
    else rest

unfoldable pub cost_watermarks : ℕ → List CostEntry → Watermarks
cost_watermarks now es = record {
  deployments = λ name. watermark true now name es;
  sessions = λ id. watermark false now id es;
}

-- One INSERT for each entry, in order.
unfoldable pub insert_cost_entries : List CostEntry → List CostEntry → List CostEntry
insert_cost_entries es [] = es
insert_cost_entries es (n ∷ ns) = insert_cost_entries (n ∷ es) ns

unfoldable pub needs_time : CostSettings → Bool
needs_time s =
    (s.enabled && (s.track_pool_costs || s.track_env_costs))
    || (s.billing.enabled && (s.billing.bill_session_time || s.billing.bill_deployment_time))

-- Accruals are serialized, so that reading the watermarks and inserting is one step.
unfoldable pub accrue :
    CostSettings
    → List PriceRow
    → List DeploymentObs
    → List TurnObs
    → ℕ
    → AccrualMode
    → List CostEntry
    → List CostEntry
unfolding needs_time
accrue settings prices ds ts now mode es =
    if needs_time settings
    then insert_cost_entries es
        (compute_accruals now settings prices mode (cost_watermarks now es) ds ts)
    else es

-- The answer of the cluster on a turn's job: whether it is active, and when its pod started.
pub record JobInfo : Type 0 where
  pub active : Bool
  pub started_at : Option ℕ

version_of_session : Db → Session → Option AgentVersion
version_of_session db s = get_agent_version db s.agent_id s.agent_version

turn_of : Session → AgentVersion → Option ℕ → TurnObs
turn_of s v started = record {
  session_id = s.id;
  workspace_id = s.workspace_id;
  environment_id = v.environment_id;
  started_at = started;
}

is_running : Status → Bool
is_running Status.running = true
is_running _ = false

-- The JOIN with the session's version; a lookup that throws leaves the session to the next tick.
observe : Session → Option AgentVersion → Option JobInfo → List TurnObs
unfolding turn_of
observe s (some v) (some info) = if info.active then turn_of s v info.started_at ∷ [] else []
observe s none info = []
observe s (some v) none = []

abbrev pub started_of : Option JobInfo → Option ℕ
started_of none = none
started_of (some info) = info.started_at

module _ (job_info : String → ℕ → Option JobInfo) where
  unfoldable pub running_turns : Db → List Session → List TurnObs
  unfolding observe is_running version_of_session
  running_turns db [] = []
  running_turns db (s ∷ rows) =
      let rest = running_turns db rows in
      if is_running s.status
      then observe s (version_of_session db s) (job_info s.id s.turns) ++ rest
      else rest

  -- `ds` is what the cluster lists; a deployment without a name is left out.
  unfoldable pub cost_sampler_tick :
      CostSettings → List PriceRow → Db → List DeploymentObs → ℕ → List CostEntry → List CostEntry
  unfolding running_turns
  cost_sampler_tick settings prices db ds now es =
      accrue settings prices (filter (λ d. not (is_empty d.name)) ds) (running_turns db db.sessions)
        now tick es

  settle_version :
      CostSettings
      → List PriceRow
      → ℕ
      → Session
      → Option AgentVersion
      → List CostEntry
      → List CostEntry
  unfolding turn_of
  settle_version settings prices now s none es = es
  settle_version settings prices now s (some v) es =
      accrue settings prices [] (turn_of s v (started_of (job_info s.id s.turns)) ∷ []) now settle
        es

  settle_found :
      CostSettings → List PriceRow → Db → ℕ → Option Session → List CostEntry → List CostEntry
  unfolding settle_version version_of_session
  settle_found settings prices db now none es = es
  settle_found settings prices db now (some s) es =
      settle_version settings prices now s (version_of_session db s) es

  unfoldable pub settle_session :
      CostSettings → List PriceRow → Db → String → ℕ → List CostEntry → List CostEntry
  unfolding settle_found
  settle_session settings prices db id now es =
      settle_found settings prices db now (get_session db id) es
