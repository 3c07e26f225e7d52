-- ===== src/Costs/Accruals.antt =====
-- `computeAccruals` of costs.ts: the entries of one accrual, from what was observed.
pub mod Spans
pub mod Serving
pub mod Again
use devproofai.Base.{
  ℕ, ◌+◌, ◌*◌, String, Bool, true, false, not, ◌&&◌, List, [], ◌∷◌, ◌++◌, Option, none, some, ◌==◌,
  if◌then◌else◌, nat_eq, find?, is_some,
}
use devproofai.Platform.Settings.{CostSettings}
use devproofai.Costs.Prices.{TimePrice, Rate, rate_per_second}
use devproofai.Costs.Span.{AccrualMode, tick, span_start, raw_ms, quantize_sec}

pub record DeploymentObs : Type 0 where
  pub name : String
  pub pool : Option String
  pub ready_replicas : ℕ

pub record TurnObs : Type 0 where
  pub session_id : String
  pub workspace_id : String
  pub environment_id : Option String
  pub started_at : Option ℕ

pub data EntryKind : Type 0 where
  pool_pod deployment_time env_pod session_time : EntryKind

-- A rate, times replicas and seconds; `no_cost` is the 0 of a planted entry.
pub data Amount : Type 0 where
  no_cost : Amount
  cost : (rate : Rate) (times : ℕ) → Amount

-- `CostEntryDraft`; `subject` is the deployment of the first two kinds, the session of the others.
pub record CostEntry : Type 0 where
  pub kind : EntryKind
  pub subject : String
  pub pool : Option String
  pub environment_id : Option String
  pub workspace_id : Option String
  pub seconds : ℕ
  pub replicas : Option ℕ
  pub real_cost : Option Amount
  pub billed_cost : Option Amount
  pub ts : ℕ

-- A row of resource_prices, with the prices that an accrual reads.
pub record PriceRow : Type 0 where
  pub kind : String
  pub ref : String
  pub real_pod_time : Option TimePrice
  pub billing_pod_time : Option TimePrice
  pub billing_session_time : Option TimePrice

-- The latest end of an entry, by deployment and by session.
pub record Watermarks : Type 0 where
  pub deployments : String → Option ℕ
  pub sessions : String → Option ℕ

abbrev pub price_row : List PriceRow → String → Option String → Option PriceRow
price_row rows kind none = none
price_row rows kind (some ref) = find? (λ p. (p.kind == kind) && (p.ref == ref)) rows

unfoldable pub price_of : Option PriceRow → (PriceRow → Option TimePrice) → Option TimePrice
price_of none field = none
price_of (some p) field = field p

-- One entry where the price is there and the switch is on.
wanted : Bool → Option TimePrice → (TimePrice → CostEntry) → List CostEntry
wanted on none make = []
wanted on (some p) make = if on then make p ∷ [] else []

deployment_entry : EntryKind → DeploymentObs → ℕ → ℕ → Option Amount → Option Amount → CostEntry
deployment_entry kind d seconds ts real billed = record {
  kind = kind;
  subject = d.name;
  pool = d.pool;
  environment_id = none;
  workspace_id = none;
  seconds = seconds;
  replicas = some d.ready_replicas;
  real_cost = real;
  billed_cost = billed;
  ts = ts;
}

turn_entry : EntryKind → TurnObs → ℕ → ℕ → Option Amount → Option Amount → CostEntry
turn_entry kind t seconds ts real billed = record {
  kind = kind;
  subject = t.session_id;
  pool = none;
  environment_id = t.environment_id;
  workspace_id = some t.workspace_id;
  seconds = seconds;
  replicas = none;
  real_cost = real;
  billed_cost = billed;
  ts = ts;
}

env_entry : TurnObs → ℕ → ℕ → TimePrice → CostEntry
unfolding turn_entry
env_entry t from sec p =
    turn_entry EntryKind.env_pod t sec (from + sec * 1000) (some (cost (rate_per_second p) sec))
      none

session_entry : TurnObs → ℕ → ℕ → TimePrice → CostEntry
unfolding turn_entry
session_entry t from sec p =
    turn_entry EntryKind.session_time t sec (from + sec * 1000) none
      (some (cost (rate_per_second p) sec))

module _ (now : ℕ) (settings : CostSettings) (prices : List PriceRow) where
  pool_price : DeploymentObs → Option TimePrice
  unfolding price_of
  pool_price d = price_of (price_row prices "pool" d.pool) (λ p. p.real_pod_time)

  deployment_price : DeploymentObs → Option TimePrice
  unfolding price_of
  deployment_price d =
      price_of (price_row prices "deployment" (some d.name)) (λ p. p.billing_pod_time)

  -- The first sighting of a deployment plants an entry without cost.
  planted : DeploymentObs → List CostEntry
  unfolding wanted deployment_entry pool_price deployment_price
  planted d =
      wanted (settings.enabled && settings.track_pool_costs) (pool_price d)
        (λ p. deployment_entry EntryKind.pool_pod d 0 now (some no_cost) none)
      ++ wanted (settings.billing.enabled && settings.billing.bill_deployment_time)
          (deployment_price d)
          (λ p. deployment_entry EntryKind.deployment_time d 0 now none (some no_cost))

  metered : DeploymentObs → ℕ → ℕ → List CostEntry
  unfolding wanted deployment_entry pool_price deployment_price
  metered d from sec =
      let ts = from + sec * 1000 in
      wanted (settings.enabled && settings.track_pool_costs) (pool_price d) (λ p.
        deployment_entry EntryKind.pool_pod d sec ts
          (some (cost (rate_per_second p) (d.ready_replicas * sec))) none)
      ++ wanted (settings.billing.enabled && settings.billing.bill_deployment_time)
          (deployment_price d)
          (λ p.
            deployment_entry EntryKind.deployment_time d sec ts none
              (some (cost (rate_per_second p) (d.ready_replicas * sec))))

  watched : DeploymentObs → Option ℕ → List CostEntry
  unfolding planted metered
  watched d none = planted d
  watched d (some from) =
      let sec = quantize_sec (raw_ms now from) tick in
      if nat_eq sec 0 then [] else metered d from sec

  pub deployments_entries : Watermarks → List DeploymentObs → List CostEntry
  unfolding watched
  deployments_entries marks [] = []
  deployments_entries marks (d ∷ ds) =
      let rest = deployments_entries marks ds in
      if nat_eq d.ready_replicas 0 then rest else watched d (marks.deployments d.name) ++ rest

  env_entries : TurnObs → ℕ → ℕ → List CostEntry
  unfolding wanted env_entry price_of
  env_entries t from sec =
      wanted (settings.enabled && settings.track_env_costs)
        (price_of (price_row prices "environment" t.environment_id) (λ p. p.real_pod_time))
        (env_entry t from sec)

  session_entries : TurnObs → ℕ → ℕ → List CostEntry
  unfolding wanted session_entry price_of
  session_entries t from sec =
      wanted (settings.billing.enabled && settings.billing.bill_session_time)
        (price_of (price_row prices "environment" t.environment_id) (λ p. p.billing_session_time))
        (session_entry t from sec)

  billed_turn : TurnObs → ℕ → ℕ → List CostEntry
  unfolding env_entries session_entries
  billed_turn t from sec = env_entries t from sec ++ session_entries t from sec

  -- A span of no time bills nothing, in either mode.
  metered_turn : AccrualMode → TurnObs → Option ℕ → List CostEntry
  unfolding billed_turn
  metered_turn mode t none = []
  metered_turn mode t (some from) =
      let sec = quantize_sec (raw_ms now from) mode in
      if nat_eq (raw_ms now from) 0 then [] else if nat_eq sec 0 then [] else billed_turn t from sec

  pub turns_entries : AccrualMode → Watermarks → List TurnObs → List CostEntry
  unfolding metered_turn
  turns_entries mode marks [] = []
  turns_entries mode marks (t ∷ ts) =
      metered_turn mode t (span_start (marks.sessions t.session_id) t.started_at)
      ++ turns_entries mode marks ts

  -- The entries; what a session is billed is the sum of its entries of kind session_time.
  unfoldable pub compute_accruals :
      AccrualMode → Watermarks → List DeploymentObs → List TurnObs → List CostEntry
  unfolding deployments_entries turns_entries
  compute_accruals mode marks ds ts = deployments_entries marks ds ++ turns_entries mode marks ts
