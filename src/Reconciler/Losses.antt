-- ===== src/Reconciler/Losses.antt =====
-- A session that the reconciler fails, and the children that are interrupted with it.
use devproofai.Base.{
  ℕ, String, ◌≡◌, refl, ◌∙◌, sym, ap, eq_refl, Bool, true, false, [], ◌∷◌, Option, none, some,
  arith, ◌==◌, if◌then◌else◌, Bool-cases, inl, inr,
}
use devproofai.Store.Rows.{str, Status, Session, Db}
use devproofai.Store.Events.{note}
use devproofai.Actions.Delegate.{interrupt_child_sessions}
use devproofai.Reconciler.Interrupts.{
  is_live, Calms, Calms-trans, mark-Calms, append-Calms, mark-stops, as_idle, Interrupted, left,
  idled, interrupt_child_sessions-Calms, status_of-interrupt_child_sessions,
}
use devproofai.Store.Sessions.Updates.{status_of}
use devproofai.Gate.Release.{as_failed}
use devproofai.Store.Events.Effects.{status_of-mark-append_events}
use devproofai.Reconciler.{
  JobState, Verdict, fail, keep, reconcile_decision, reconcile_grace_ms, mark_lost, lost_error,
  settle_verdict, sweep_session,
}
use devproofai.Reconciler.Verdicts.{is_fail, fails_at}

module _ (job_state : String → ℕ → Option JobState) (stop_throws : String → Bool) (now : ℕ) where
  -- The session is failed, and its children in flight are interrupted.
  pub record Loses (db : Db) (id : String) (db' : Db) : Type 0 where
    pub calms : Calms db db'
    pub stopped : is_live db' id ≡ false
    pub failed : status_of db' id ≡ as_failed (status_of db id)
    pub others : (j : String) → (id == j) ≡ false → Interrupted db id j (status_of db' j)

  pub true_ne_false : (b : Bool) → b ≡ true → b ≡ false → ⊥
  true_ne_false b t f = ground arith

  pub is_live_before : (a b : Db) (j : String) → Calms a b → is_live b j ≡ true → is_live a j ≡ true
  is_live_before a b j calm live = elim (Bool-cases (is_live a j)) [
    | inl h ↦ h
    | inr off ↦ absurd (true_ne_false (is_live b j) live (calm.live j off))
  ]

  lost-Calms : (db : Db) (id : String) (job : JobState) → Calms db (mark_lost db id job now)
  unfolding mark_lost
  lost-Calms db id job =
      Calms-trans db (note db id "session.failed" (("error", str (lost_error job)) ∷ []) now) _
        (append-Calms db id _ now)
        (mark-Calms (note db id "session.failed" (("error", str (lost_error job)) ∷ []) now) id
          Status.failed now refl)

  lost-stops :
      (db : Db) (id : String) (job : JobState) → is_live (mark_lost db id job now) id ≡ false
  unfolding mark_lost
  lost-stops db id job =
      mark-stops (note db id "session.failed" (("error", str (lost_error job)) ∷ []) now) id
        Status.failed now refl

  status_of-mark_lost :
      (db : Db) (id : String) (job : JobState) (j : String)
      → status_of (mark_lost db id job now) j
        ≡ (if id == j then as_failed (status_of db j) else status_of db j)
  unfolding mark_lost
  status_of-mark_lost db id job j = status_of-mark-append_events db id _ Status.failed now j

  carried_over :
      (db m : Db) (id j : String) (o : Option Status)
      → Calms db m
      → status_of m j ≡ status_of db j
      → Interrupted m id j o
      → Interrupted db id j o
  carried_over db m id j o calm same (left e) = left (e ∙ same)
  carried_over db m id j o calm same (idled e live kin) =
      idled (e ∙ ap as_idle same) (is_live_before db m j calm live) (sym (calm.parents id j) ∙ kin)

  fails_itself :
      (m : Db) (id : String) (o : Option Status)
      → is_live m id ≡ false
      → Interrupted m id id o
      → o ≡ status_of m id
  fails_itself m id o off (left e) = e
  fails_itself m id o off (idled e live kin) = absurd (true_ne_false (is_live m id) live off)

  lost-Loses :
      (db : Db) (id : String) (job : JobState)
      → Loses db id (interrupt_child_sessions stop_throws now (mark_lost db id job now) id)
  lost-Loses db id job =
      let m = mark_lost db id job now in
      let calm = interrupt_child_sessions-Calms stop_throws now m id in
      record {
        calms = Calms-trans db m _ (lost-Calms db id job) calm;
        stopped = calm.live id (lost-stops db id job);
        failed =
            fails_itself m id _ (lost-stops db id job)
              (status_of-interrupt_child_sessions stop_throws now m id id)
            ∙ status_of-mark_lost db id job id
            ∙ rw (eq_refl id) refl;
        others = λ j far.
            carried_over db m id j _ (lost-Calms db id job)
              (status_of-mark_lost db id job j ∙ rw far refl)
              (status_of-interrupt_child_sessions stop_throws now m id j);
      }

  pub sweep_session-Loses :
      (db : Db) (s : Session) (seen : ℕ) (answer : Option JobState)
      → fails_at job_state stop_throws now s seen answer ≡ true
      → Loses db s.id (sweep_session job_state stop_throws now db s seen answer)
  unfolding sweep_session fails_at
  sweep_session-Loses db s seen none h = cc
  sweep_session-Loses db s seen (some job) h =
      by_verdict (reconcile_decision s.status seen job now reconcile_grace_ms) h
    where
      by_verdict :
          (v : Verdict)
          → is_fail job_state stop_throws now v ≡ true
          → Loses db s.id (settle_verdict job_state stop_throws now db s.id job v)
      by_verdict fail h = lost-Loses db s.id job
      by_verdict keep h = cc
