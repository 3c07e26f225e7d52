-- ===== src/Reconciler/Verdicts.antt =====
-- Which sessions the reconciler's decision is `fail` for.
use devproofai.Base.{
  ℕ, ◌+◌, ◌≤◌, String, ◌≡◌, ◌≢◌, refl, ◌∙◌, Bool, true, false, not, ◌&&◌, List, [], ◌∷◌, Option,
  none, some, arith, ◌==◌, any, any-filter, any_of_find?,
}
use devproofai.Store.Rows.{Session, Db, in_flight}
use devproofai.Store.Sessions.{get_session}
use devproofai.Reconciler.{
  JobState, finished, missing, active, Verdict, fail, keep, reconcile_decision, reconcile_grace_ms,
  is_active, last_activity, is_parked, list_stuck_sessions, settle_verdict, sweep_session,
}

-- The runner of the session is gone: it is in flight with no parked launch, the job of its turn is
-- finished or missing, and nothing was heard of it for the grace period.
pub record IsZombie (job_state : String → ℕ → Option JobState) (now : ℕ) (db : Db) (s : Session)
    : Type 0 where
  pub moving : in_flight s.status ≡ true
  pub unparked : is_parked db s.id ≡ false
  pub job : JobState
  pub looked_up : job_state s.id s.turns ≡ some job
  pub dead : job ≢ active
  pub silent : last_activity db s + 120_000 ≤ now

module _ (job_state : String → ℕ → Option JobState) (stop_throws : String → Bool) (now : ℕ) where
  unfoldable pub is_fail : Verdict → Bool
  is_fail fail = true
  is_fail keep = false

  -- The verdict on a listed session.
  unfoldable pub fails_at : Session → ℕ → Option JobState → Bool
  unfolding is_fail
  fails_at s seen none = false
  fails_at s seen (some job) = is_fail (reconcile_decision s.status seen job now reconcile_grace_ms)

  unfoldable pub failing : (Session → ℕ) → String → Session → Bool
  unfolding fails_at
  failing seen j s = fails_at s (seen s) (job_state s.id s.turns) && (s.id == j)

  pub fails_at-IsZombie :
      (db : Db) (s : Session) (answer : Option JobState)
      → job_state s.id s.turns ≡ answer
      → in_flight s.status ≡ true
      → is_parked db s.id ≡ false
      → fails_at s (last_activity db s) answer ≡ true
      → IsZombie job_state now db s
  unfolding fails_at reconcile_decision is_active
  fails_at-IsZombie db s none e m p h = cc
  fails_at-IsZombie db s (some active) e m p h = ground arith
  fails_at-IsZombie db s (some finished) e m p h = record {
    moving = m;
    unparked = p;
    job = finished;
    looked_up = e;
    dead = ground arith;
    silent = ground arith;
  }
  fails_at-IsZombie db s (some missing) e m p h = record {
    moving = m;
    unparked = p;
    job = missing;
    looked_up = e;
    dead = ground arith;
    silent = ground arith;
  }

  IsZombie-fails_at :
      (db : Db) (s : Session)
      → IsZombie job_state now db s
      → fails_at s (last_activity db s) (job_state s.id s.turns) ≡ true
  unfolding fails_at reconcile_decision is_active
  IsZombie-fails_at db s z = rw (z.looked_up) (by_job z.job z.dead z.moving z.silent)
    where
      by_job :
          (job : JobState)
          → job ≢ active
          → in_flight s.status ≡ true
          → last_activity db s + 120_000 ≤ now
          → fails_at s (last_activity db s) (some job) ≡ true
      by_job active ne m q = absurd (ne refl)
      by_job finished ne m q = ground arith
      by_job missing ne m q = ground arith

  pub all_zombies_listed :
      (db : Db) (j : String) (s : Session)
      → get_session db j ≡ some s
      → IsZombie job_state now db s
      → any (failing (last_activity db) j) (list_stuck_sessions db) ≡ true
  unfolding failing list_stuck_sessions get_session
  all_zombies_listed db j s found z =
      any-filter _ _ db.sessions
      ∙ weaken db.sessions (
          any_of_find? (λ r. r.id == j)
            (λ r.
              (in_flight r.status && not (is_parked db r.id))
              && fails_at r (last_activity db r) (job_state r.id r.turns))
            db.sessions s found (rw (z.moving, z.unparked) (IsZombie-fails_at db s z)))
    where
      weaken :
          (rows : List Session)
          → any
              (λ r.
                (r.id == j)
                && ((in_flight r.status && not (is_parked db r.id))
                    && fails_at r (last_activity db r) (job_state r.id r.turns)))
              rows
            ≡ true
          → any
              (λ r.
                (in_flight r.status && not (is_parked db r.id))
                && (fails_at r (last_activity db r) (job_state r.id r.turns) && (r.id == j)))
              rows
            ≡ true
      weaken [] h = h
      weaken (r ∷ rows) h = ground (arith, weaken rows)

  pub no_job_lost :
      (db : Db) (s : Session) (seen : ℕ) (answer : Option JobState)
      → fails_at s seen answer ≡ false
      → sweep_session job_state stop_throws now db s seen answer ≡ db
  unfolding sweep_session fails_at
  no_job_lost db s seen none h = refl
  no_job_lost db s seen (some job) h =
      by_verdict (reconcile_decision s.status seen job now reconcile_grace_ms) h
    where
      by_verdict :
          (v : Verdict)
          → is_fail v ≡ false
          → settle_verdict job_state stop_throws now db s.id job v ≡ db
      by_verdict fail h = cc
      by_verdict keep h = refl
