-- ===== src/Costs/Ledger/Metering.antt =====
-- The spans metered for a session whose pods are less than a day old, over ticks and settlements.
use devproofai.Base.{
  ℕ, ◌+◌, ◌*◌, ◌≤◌, max, String, ◌≡◌, refl, true, false, List, [], ◌∷◌, Option, none, some, arith,
  map, not, is_empty, filter, All, All-mono, IsDistinct, inl, inr, Bool-cases,
}
use devproofai.Store.Rows.{Session, AgentVersion, Db}
use devproofai.Store.Sessions.{get_session}
use devproofai.Platform.Settings.{CostSettings}
use devproofai.Costs.Span.{AccrualMode, tick, settle}
use devproofai.Costs.Accruals.{
  DeploymentObs, TurnObs, EntryKind, CostEntry, PriceRow, compute_accruals, deployments_entries,
  turns_entries,
}
use devproofai.Costs.Accruals.Serving.{deployments_entries-Others}
use devproofai.Costs.Accruals.Spans.{turns_entries-One}
use devproofai.Costs.Ledger.{
  is_deployment_kind, cost_watermarks, accrue, needs_time, JobInfo, running_turns, turn_of,
  started_of, version_of_session, settle_version, settle_found, cost_sampler_tick, settle_session,
}
use devproofai.Costs.Ledger.Chain.{
  IsChained, One, One-append_left, One-mono, latest, begun, total_seconds, total-le, insert-One,
}
use devproofai.Costs.Ledger.Covers.{is_recent, span_start-Behind, watermark-Behind}

pub record Meter : Type 0 where
  pub clock : ℕ
  pub ledger : List CostEntry

-- The turns of distinct sessions, whose pods started within the day.
pub record IsFresh (now : ℕ) (ts : List TurnObs) : Type 0 where
  pub distinct : IsDistinct (map (λ t. t.session_id) ts)
  pub recent : All (λ t. is_recent now t.started_at ≡ true) ts

-- What writes the ledger: the sampler's tick and the settlement of one session, each with the time
-- that it read when it began. The clock is the latest of these times. A step reads the watermarks
-- and inserts its entries with no other step in between.
pub data Step (m : Meter) : Meter → Type 0 where
  ticks :
      (job_info : String → ℕ → Option JobInfo) (settings : CostSettings) (prices : List PriceRow)
      (db : Db) (ds : List DeploymentObs) (now : ℕ)
      → IsFresh now (running_turns job_info db db.sessions)
      → Step m (record {
        clock = max m.clock now;
        ledger = cost_sampler_tick job_info settings prices db ds now m.ledger;
      })
  settles :
      (job_info : String → ℕ → Option JobInfo) (settings : CostSettings) (prices : List PriceRow)
      (db : Db) (id : String) (now : ℕ)
      → ((s : Session)
          → get_session db id ≡ some s
          → is_recent now (started_of (job_info s.id s.turns)) ≡ true)
      → Step m (record {
        clock = max m.clock now;
        ledger = settle_session job_info settings prices db id now m.ledger;
      })

pub data Run (m : Meter) : Meter → Type 0 where
  here : Run m m
  then : {n o : Meter} → Run m n → Step n o → Run m o

module _ (k : EntryKind) (of_sessions : is_deployment_kind k ≡ false) (id : String) where
  -- The spans lie one after the other, and the last ends at most a minute after the clock.
  pub record IsSettled (now : ℕ) (es : List CostEntry) : Type 0 where
    pub chained : IsChained k id es
    pub bounded : latest k id es ≤ now + 59_999

  compute_accruals-One :
      (settings : CostSettings) (prices : List PriceRow) (ds : List DeploymentObs)
      (ts : List TurnObs) (now : ℕ) (mode : AccrualMode) (es : List CostEntry)
      → IsFresh now ts
      → One k id
          (latest k id es)
          (now + 59_999)
          (compute_accruals now settings prices mode (cost_watermarks now es) ds ts)
  unfolding compute_accruals cost_watermarks
  compute_accruals-One settings prices ds ts now mode es fresh =
      One-append_left k id (latest k id es) (now + 59_999)
        (deployments_entries now settings prices (cost_watermarks now es) ds)
        (turns_entries now settings prices mode (cost_watermarks now es) ts)
        (deployments_entries-Others k of_sessions id now settings prices (cost_watermarks now es)
          ds)
        (turns_entries-One k of_sessions id now settings prices mode (cost_watermarks now es) ts
          (latest k id es) fresh.distinct
          (All-mono _ _ ts
            (λ t r from e.
              span_start-Behind now (latest k id es) _ t.started_at from
                (watermark-Behind k of_sessions id now es) r e)
            fresh.recent))

  later-IsSettled :
      (before now : ℕ) (es : List CostEntry) → IsSettled before es → IsSettled (max before now) es
  later-IsSettled before now es h = record {
    chained = h.chained;
    bounded = ground (arith, h.bounded);
  }

  accrue-IsSettled :
      (settings : CostSettings) (prices : List PriceRow) (ds : List DeploymentObs)
      (ts : List TurnObs) (before now : ℕ) (mode : AccrualMode) (es : List CostEntry)
      → IsFresh now ts
      → IsSettled before es
      → IsSettled (max before now) (accrue settings prices ds ts now mode es)
  unfolding accrue
  accrue-IsSettled settings prices ds ts before now mode es fresh h =
      elim (Bool-cases (needs_time settings)) [
        | inl on ↦ rw on (
            let r =
              insert-One k id es
                (compute_accruals now settings prices mode (cost_watermarks now es) ds ts)
                (max before now + 59_999) h.chained (ground (arith, h.bounded))
                (One-mono k id (latest k id es) (now + 59_999) (max before now + 59_999)
                  (compute_accruals now settings prices mode (cost_watermarks now es) ds ts)
                  (ground arith) (compute_accruals-One settings prices ds ts now mode es fresh)) in
            record { chained = r.0; bounded = r.1 })
        | inr off ↦ rw off (later-IsSettled before now es h)
      ]

  module _ (job_info : String → ℕ → Option JobInfo) (settings : CostSettings)
      (prices : List PriceRow) (before now : ℕ) (es : List CostEntry)
      (h : IsSettled before es) where
    tick-IsSettled :
        (db : Db) (ds : List DeploymentObs)
        → IsFresh now (running_turns job_info db db.sessions)
        → IsSettled (max before now) (cost_sampler_tick job_info settings prices db ds now es)
    unfolding cost_sampler_tick
    tick-IsSettled db ds fresh =
        accrue-IsSettled settings prices (filter (λ d. not (is_empty d.name)) ds)
          (running_turns job_info db db.sessions) before now tick es fresh h

    version-IsSettled :
        (s : Session) (v : Option AgentVersion)
        → is_recent now (started_of (job_info s.id s.turns)) ≡ true
        → IsSettled (max before now) (settle_version job_info settings prices now s v es)
    unfolding settle_version turn_of
    version-IsSettled s none r = later-IsSettled before now es h
    version-IsSettled s (some v) r =
        accrue-IsSettled settings prices [] (turn_of s v (started_of (job_info s.id s.turns)) ∷ [])
          before now settle es (record { distinct = (refl, tt); recent = (r, tt) }) h

    found-IsSettled :
        (db : Db) (o : Option Session)
        → ((s : Session) → o ≡ some s → is_recent now (started_of (job_info s.id s.turns)) ≡ true)
        → IsSettled (max before now) (settle_found job_info settings prices db now o es)
    unfolding settle_found
    found-IsSettled db none r = later-IsSettled before now es h
    found-IsSettled db (some s) r = version-IsSettled s (version_of_session db s) (r s refl)

  Step-IsSettled :
      {m n : Meter} → Step m n → IsSettled m.clock m.ledger → IsSettled n.clock n.ledger
  unfolding settle_session
  Step-IsSettled {m} (ticks job_info settings prices db ds now fresh) h =
      tick-IsSettled job_info settings prices m.clock now m.ledger h db ds fresh
  Step-IsSettled {m} (settles job_info settings prices db sid now r) h =
      found-IsSettled job_info settings prices m.clock now m.ledger h db (get_session db sid) r

  Run-IsSettled : {m n : Meter} → Run m n → IsSettled m.clock m.ledger → IsSettled n.clock n.ledger
  Run-IsSettled here h = h
  Run-IsSettled (then r s) h = Step-IsSettled s (Run-IsSettled r h)

  -- Over every sequence of ticks and settlements from an empty ledger, in any order of the times that
  -- they read, if each pod that one observes started less than a day before its time, no two turns
  -- of a tick are of one session, and none of them reads or writes the ledger between another's read
  -- of the watermarks and its insert: the seconds of all entries of one kind that sessions have (environment pod or session
  -- time) and of one session, together with the start of the first span, come to at most the
  -- latest of the times and a minute less a millisecond.
  pub total_seconds-Run :
      {m n : Meter}
      → Run m n
      → m.ledger ≡ []
      → total_seconds k id n.ledger * 1000 + begun k id n.ledger ≤ n.clock + 59_999
  total_seconds-Run {m} {n} r empty =
      let s = Run-IsSettled r (subst_settled empty) in
      omega (arith, total-le k id n.ledger s.chained, s.bounded)
    where
      subst_settled : m.ledger ≡ [] → IsSettled m.clock m.ledger
      subst_settled e = rw e (record { chained = tt; bounded = unfold latest in omega arith })
