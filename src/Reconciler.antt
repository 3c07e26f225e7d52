-- ===== src/Reconciler.antt =====
-- The zombie reconciler, control-plane/src/reconciler.ts, with `listStuckSessions` of repo.ts: a
-- runner's pod can die without a report, and its session is then marked failed.
-- After a failure the callback of main.ts interrupts the children of the session that are in flight;
-- its settlement of costs, which is of another table, and the timer are left out. What Kubernetes
-- says of a session's job, and which pods it cannot stop, are parameters.
pub mod Interrupts
pub mod Verdicts
pub mod Losses
pub mod Zombies
use Prim.Native.String
use devproofai.Base.{
  ℕ, ◌+◌, String, Bool, true, false, not, ◌&&◌, List, [], ◌∷◌, Option, none, some, ◌==◌,
  if◌then◌else◌, ltb, filter, any, map, max,
}
use devproofai.Store.Rows.{Status, Session, EventRow, PendingRow, Db, in_flight, str}
use devproofai.Store.Sessions.{mark}
use devproofai.Store.Events.{note, row_of}
use devproofai.Gate.{◌<>◌}
use devproofai.Actions.Delegate.{interrupt_child_sessions}

pub data JobState : Type 0 where
  active finished missing : JobState

pub data Verdict : Type 0 where
  fail keep : Verdict

abbrev pub reconcile_grace_ms : ℕ
reconcile_grace_ms = 120_000

is_active : JobState → Bool
is_active active = true
is_active _ = false

-- `nowMs - lastActivityMs < graceMs`, where the difference may be negative
unfoldable pub reconcile_decision : Status → ℕ → JobState → ℕ → ℕ → Verdict
unfolding is_active
reconcile_decision status last_activity job now grace =
    if not (in_flight status)
    then keep
    else if is_active job
    then keep
    else if ltb now (last_activity + grace)
    then keep
    else fail

-- GREATEST(created_at, the newest event's created_at)
last_event : List EventRow → String → ℕ → ℕ
last_event [] id t = t
last_event (r ∷ rows) id t =
    let rest = last_event rows id t in if row_of id r then max r.created_at rest else rest

unfoldable pub last_activity : Db → Session → ℕ
unfolding last_event
last_activity db s = last_event db.events s.id s.created_at

abbrev pub is_parked : Db → String → Bool
is_parked db id = any (λ p. p.session_id == id) db.pending

unfoldable pub list_stuck_sessions : Db → List Session
list_stuck_sessions db = filter (λ s. in_flight s.status && not (is_parked db s.id)) db.sessions

job_name : JobState → String
job_name active = "active"
job_name finished = "finished"
job_name missing = "missing"

pub lost_error : JobState → String
unfolding job_name
lost_error job =
    "runner lost (job "
    <> job_name job
    <> ": turn deadline exceeded, pod evicted, or result never delivered)"

pub mark_lost : Db → String → JobState → ℕ → Db
unfolding lost_error
mark_lost db id job now =
    mark (note db id "session.failed" (("error", str (lost_error job)) ∷ []) now) id Status.failed
      now

-- `job_state id turn` is the state of the turn's job, `none` where the lookup throws: the session
-- is left to the next sweep.
module _ (job_state : String → ℕ → Option JobState) (stop_throws : String → Bool) (now : ℕ) where
  pub settle_verdict : Db → String → JobState → Verdict → Db
  unfolding mark_lost
  settle_verdict db id job fail =
      interrupt_child_sessions stop_throws now (mark_lost db id job now) id
  settle_verdict db id job keep = db

  -- `seen` is the last sign of life that the list was read with.
  pub sweep_session : Db → Session → ℕ → Option JobState → Db
  unfolding settle_verdict
  sweep_session db s seen none = db
  sweep_session db s seen (some job) =
      settle_verdict db s.id job (reconcile_decision s.status seen job now reconcile_grace_ms)

  pub sweep_rows : (Session → ℕ) → Db → List Session → Db
  unfolding sweep_session
  sweep_rows seen db [] = db
  sweep_rows seen db (s ∷ rows) =
      sweep_rows seen (sweep_session db s (seen s) (job_state s.id s.turns)) rows

  unfoldable pub sweep_zombie_sessions : Db → Db
  unfolding sweep_rows
  sweep_zombie_sessions db = sweep_rows (last_activity db) db (list_stuck_sessions db)
