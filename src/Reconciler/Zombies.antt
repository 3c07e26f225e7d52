-- ===== src/Reconciler/Zombies.antt =====
-- Which statuses a sweep of the reconciler changes.
use mathlib.Core.Option
use devproofai.Base.{
  ℕ, String, ◌≡◌, ◌∙◌, ap, subst, Bool, true, false, List, [], ◌∷◌, Option, some, arith, ◌==◌, any,
  eq_iff, Bool-cases, inl, inr,
}
use devproofai.Store.Rows.{Status, Session, Db}
use devproofai.Store.Sessions.{get_session}
use devproofai.Reconciler.Interrupts.{is_live, has_parent, as_idle, Interrupted, left, idled}
use devproofai.Store.Sessions.Updates.{status_of}
use devproofai.Gate.Release.{as_failed}
use devproofai.Reconciler.{
  JobState, last_activity, list_stuck_sessions, sweep_session, sweep_rows, sweep_zombie_sessions,
}
use devproofai.Reconciler.Verdicts.{IsZombie, fails_at, failing, all_zombies_listed, no_job_lost}
use devproofai.Reconciler.Losses.{Loses, true_ne_false, sweep_session-Loses}

module _ (job_state : String → ℕ → Option JobState) (stop_throws : String → Bool) (now : ℕ) where
  -- What a sweep of `db` has made of the status of `j`, where the store is `db'`: it is as it was, or
  -- failed with the runner of `j` gone, or idle, `j` being a child in flight of a session whose
  -- runner is gone.
  pub data Fate (db : Db) (j : String) (db' : Db) : Type 0 where
    kept : status_of db' j ≡ status_of db j → Fate db j db'
    fell :
        (s : Session)
        → s.id ≡ j
        → IsZombie job_state now db s
        → status_of db' j ≡ as_failed (status_of db j)
        → is_live db' j ≡ false
        → Fate db j db'
    orphaned :
        (p : Session)
        → IsZombie job_state now db p
        → has_parent db p.id j ≡ true
        → is_live db j ≡ true
        → status_of db' j ≡ as_idle (status_of db j)
        → Fate db j db'

  abbrev swept_to : (Session → ℕ) → Db → List Session → Db
  swept_to seen db rows = sweep_rows job_state stop_throws now seen db rows

  -- A session that is in no flight and failed stays so where another falls.
  still_failed :
      (a b : Db) (id j : String)
      → Loses job_state stop_throws now a id b
      → is_live a j ≡ false
      → status_of a j ≡ some Status.failed
      → status_of b j ≡ some Status.failed
  still_failed a b id j loses off e = elim (Bool-cases (id == j)) [
    | inl same ↦
        subst (λ k. status_of b k ≡ as_failed (status_of a k)) ((eq_iff id j).0 same) loses.failed
        ∙ ap as_failed e
    | inr far ↦ other (loses.others j far)
  ]
    where
      other : Interrupted a id j (status_of b j) → status_of b j ≡ some Status.failed
      other (left k) = k ∙ e
      other (idled k live kin) =
          absurd (true_ne_false job_state stop_throws now (is_live a j) live off)

  stays_failed :
      (rows : List Session) (seen : Session → ℕ) (a : Db) (j : String)
      → is_live a j ≡ false
      → status_of a j ≡ some Status.failed
      → status_of (swept_to seen a rows) j ≡ some Status.failed
  unfolding sweep_rows
  stays_failed [] seen a j off e = e
  stays_failed (s ∷ rows) seen a j off e =
      elim (Bool-cases (fails_at job_state stop_throws now s (seen s) (job_state s.id s.turns))) [
        | inr keeps ↦
            rw (no_job_lost job_state stop_throws now a s (seen s) (job_state s.id s.turns) keeps)
              (stays_failed rows seen a j off e)
        | inl fails ↦
            let loses =
              sweep_session-Loses job_state stop_throws now a s (seen s) (job_state s.id s.turns)
                fails in
            stays_failed rows seen _ j (loses.calms.live j off)
              (still_failed a _ s.id j loses off e)
      ]

  still_there :
      (a b : Db) (id j : String) (st : Status)
      → Loses job_state stop_throws now a id b
      → (id == j) ≡ false
      → status_of a j ≡ some st
      → (st' : Status) × (status_of b j ≡ some st')
  still_there a b id j st loses far e = other (loses.others j far)
    where
      other : Interrupted a id j (status_of b j) → (st' : Status) × (status_of b j ≡ some st')
      other (left k) = (st, k ∙ e)
      other (idled k live kin) = (Status.idle, k ∙ ap as_idle e)

  sweep_rows_fails :
      (rows : List Session) (seen : Session → ℕ) (a : Db) (j : String) (st : Status)
      → any (failing job_state stop_throws now seen j) rows ≡ true
      → status_of a j ≡ some st
      → status_of (swept_to seen a rows) j ≡ some Status.failed
  unfolding sweep_rows failing
  sweep_rows_fails [] seen a j st h e = cc
  sweep_rows_fails (s ∷ rows) seen a j st h e =
      elim (Bool-cases (fails_at job_state stop_throws now s (seen s) (job_state s.id s.turns))) [
        | inr keeps ↦
            rw (no_job_lost job_state stop_throws now a s (seen s) (job_state s.id s.turns) keeps)
              (sweep_rows_fails rows seen a j st (ground (arith, h, keeps)) e)
        | inl fails ↦
            let loses =
              sweep_session-Loses job_state stop_throws now a s (seen s) (job_state s.id s.turns)
                fails in
            elim (Bool-cases (s.id == j)) [
              | inl same ↦
                  stays_failed rows seen _ j
                    (subst
                      (λ k.
                        is_live
                          (sweep_session job_state stop_throws now a s (seen s)
                            (job_state s.id s.turns))
                          k
                        ≡ false)
                      ((eq_iff s.id j).0 same) loses.stopped)
                    (subst
                        (λ k.
                          status_of
                            (sweep_session job_state stop_throws now a s (seen s)
                              (job_state s.id s.turns))
                            k
                          ≡ as_failed (status_of a k))
                        ((eq_iff s.id j).0 same) loses.failed
                      ∙ ap as_failed e)
              | inr far ↦
                  let (st', there) = still_there a _ s.id j st loses far e in
                  sweep_rows_fails rows seen _ j st' (ground (arith, h, far)) there
            ]
      ]

  -- Every session whose runner is gone is failed by one sweep.
  pub sweep_fails_zombies :
      (db : Db) (j : String) (s : Session)
      → get_session db j ≡ some s
      → IsZombie job_state now db s
      → status_of (sweep_zombie_sessions job_state stop_throws now db) j ≡ some Status.failed
  unfolding sweep_zombie_sessions
  sweep_fails_zombies db j s found z =
      sweep_rows_fails (list_stuck_sessions db) (last_activity db) db j s.status
        (all_zombies_listed job_state stop_throws now db j s found z)
        (ap (Option.map (λ s. s.status)) found)
