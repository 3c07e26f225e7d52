-- ===== src/Gate/Sweep.antt =====
-- The reconciler's pass over the parked launches.
use devproofai.Base.{
  ℕ, String, ◌≡◌, refl, ◌∙◌, sym, Bool, true, false, not, ◌&&◌, ◌||◌, List, [], ◌∷◌, Option, none,
  some, arith, ◌==◌, filter, eq_iff, Bool-cases, inl, inr, includes, filter-filter, filter_ext, All,
  All-mono, All-filter_test, All-filter, filter_every, All-of, All-map, All-and, eq_refl, ap, subst,
}
use devproofai.Store.Rows.{Launch, PendingRow, Db}
use devproofai.Store.Pending.{
  take_pending_launches, waits_for, is_writer_key, list_pending_launch_models,
}
use devproofai.Store.Pending.Models.{listed, All-distinct}
use devproofai.Gate.{
  World, GateDecision, launch, wait, fail, ModelPhase, fail_waiting, fail_rows, fail_model,
  sweep_decision, carry_out, sweep_model, sweep_next, sweep_models, sweep_pending,
}
use devproofai.Gate.Release.{pending-fail_waiting, release_pending_lem}

abbrev pub is_wait : GateDecision → Bool
is_wait (wait phase) = true
is_wait _ = false

-- The answer leaves the model's rows parked: it says to wait, or the lookup throws.
abbrev pub leaves_parked : String → Option (Option ModelPhase) → Bool
leaves_parked m none = true
leaves_parked m (some res) = is_wait (sweep_decision m res)

module _ (start_error : Launch → Option String) (now : ℕ) where
  pending-fail_rows :
      (db : Db) (rows : List PendingRow) (error : String)
      → (fail_rows start_error now db rows error).pending ≡ db.pending
  unfolding fail_rows
  pending-fail_rows db [] error = refl
  pending-fail_rows db (r ∷ rows) error =
      pending-fail_rows (fail_waiting db r.session_id error now) rows error
      ∙ pending-fail_waiting db r.session_id error now

  abbrev left_rows : Bool → String → List PendingRow → List PendingRow
  left_rows waits model rows = filter (λ r. waits || not (waits_for model r)) rows

  pending-carry_out :
      (w : World) (m : String) (idle : Bool) (d : GateDecision)
      → (carry_out start_error now w m idle d).db.pending ≡ left_rows (is_wait d) m w.db.pending
  unfolding carry_out fail_model take_pending_launches
  pending-carry_out w m idle launch = (release_pending_lem start_error now w m).1
  pending-carry_out w m true (wait p) = sym (filter_every _ w.db.pending (All-of _ _ (λ r. refl)))
  pending-carry_out w m false (wait p) = sym (filter_every _ w.db.pending (All-of _ _ (λ r. refl)))
  pending-carry_out w m idle (fail e) = pending-fail_rows _ (filter (waits_for m) w.db.pending) e

  pending-sweep_next :
      (w : World) (m : String) (answer : Option (Option ModelPhase))
      → (sweep_next start_error now w m answer).db.pending
        ≡ left_rows (leaves_parked m answer) m w.db.pending
  unfolding sweep_next sweep_model
  pending-sweep_next w m none = sym (filter_every _ w.db.pending (All-of _ _ (λ r. refl)))
  pending-sweep_next w m (some res) = pending-carry_out w m _ (sweep_decision m res)

  module _ (model_phase : String → Option (Option ModelPhase)) where
    abbrev pub stays : String → Bool
    stays m = leaves_parked m (model_phase m)

    abbrev kept_by : List String → PendingRow → Bool
    kept_by ms r = not (includes ms r.model) || stays r.model

    kept_here : (s i b : Bool) → b ≡ true → ((s || not b) && (not i || s)) ≡ (not (b || i) || s)
    kept_here s i b h = ground arith

    kept_step :
        (m : String) (ms : List String) (r : PendingRow)
        → ((stays m || not (waits_for m r)) && kept_by ms r) ≡ kept_by (m ∷ ms) r
    kept_step m ms r = elim (Bool-cases (r.model == m)) [
      | inl same ↦
          let e = (eq_iff _ _).0 same in
          rw (← e)
            (kept_here (stays r.model) (includes ms r.model) (r.model == r.model) (eq_refl r.model))
      | inr other ↦ rw other (ground (arith, eq_iff r.model m, eq_iff m r.model))
    ]

    pending-sweep_models :
        (w : World) (ms : List String)
        → (sweep_models start_error now model_phase w ms).db.pending
          ≡ filter (kept_by ms) w.db.pending
    unfolding sweep_models
    pending-sweep_models w [] = sym (filter_every _ w.db.pending (All-of _ _ (λ r. refl)))
    pending-sweep_models w (m ∷ ms) =
        pending-sweep_models (sweep_next start_error now w m (model_phase m)) ms
        ∙ ap (filter (kept_by ms)) (pending-sweep_next w m (model_phase m))
        ∙ filter-filter (kept_by ms) _ w.db.pending
        ∙ filter_ext _ _ w.db.pending (All-of _ _ (kept_step m ms))

    -- After a pass exactly these rows are still parked, in their order: those of the writer queues,
    -- which the pass does not touch, and those whose model still waits or could not be looked up.
    pub pending-sweep_pending :
        (w : World)
        → (sweep_pending start_error now model_phase w).db.pending
          ≡ filter (λ r. is_writer_key r.model || stays r.model) w.db.pending
    unfolding sweep_pending
    pending-sweep_pending w =
        pending-sweep_models w (list_pending_launch_models w.db)
        ∙ filter_ext _ _ w.db.pending
            (All-mono _ _ w.db.pending (λ r h. rw h (ground arith)) (listed w.db))

    stays-listed :
        (db : Db)
        → All (λ r. (is_writer_key r.model || stays r.model) ≡ true) db.pending
        → All (λ m. stays m ≡ true) (list_pending_launch_models db)
    unfolding list_pending_launch_models
    stays-listed db h = All-distinct _ _ (
        All-map _ _ _ (
          All-mono _ _ _ (λ r k. ground (arith, k))
            (All-and _ _ _ (All-filter _ (λ r. not (is_writer_key r.model)) db.pending h)
              (All-filter_test (λ r. not (is_writer_key r.model)) db.pending))))

    sweep_next_parked :
        (w : World) (m : String)
        → stays m ≡ true
        → ((sweep_next start_error now w m (model_phase m)).db ≡ w.db)
          × ((sweep_next start_error now w m (model_phase m)).started ≡ w.started)
    unfolding sweep_next sweep_model carry_out
    sweep_next_parked w m h = at_answer (model_phase m) h
      where
        at_decision :
            (idle : Bool) (d : GateDecision)
            → is_wait d ≡ true
            → ((carry_out start_error now w m idle d).db ≡ w.db)
              × ((carry_out start_error now w m idle d).started ≡ w.started)
        at_decision true (wait p) h = (refl, refl)
        at_decision false (wait p) h = (refl, refl)
        at_decision idle launch h = cc
        at_decision idle (fail e) h = cc

        at_answer :
            (answer : Option (Option ModelPhase))
            → leaves_parked m answer ≡ true
            → ((sweep_next start_error now w m answer).db ≡ w.db)
              × ((sweep_next start_error now w m answer).started ≡ w.started)
        at_answer none h = (refl, refl)
        at_answer (some res) h = at_decision _ (sweep_decision m res) h

    sweep_models_parked :
        (w : World) (ms : List String)
        → All (λ m. stays m ≡ true) ms
        → ((sweep_models start_error now model_phase w ms).db ≡ w.db)
          × ((sweep_models start_error now model_phase w ms).started ≡ w.started)
    unfolding sweep_models
    sweep_models_parked w [] h = (refl, refl)
    sweep_models_parked w (m ∷ ms) (k, h) =
        let v : World = sweep_next start_error now w m (model_phase m) in
        let (d, s) = sweep_next_parked w m k in
        let (d', s') = sweep_models_parked v ms h in (d' ∙ d, s' ∙ s)

    -- A second pass right after the first, with the cluster as it was, starts no launch a second
    -- time and leaves the store as the first pass left it.
    pub sweep_pending_twice :
        (w : World)
        → let v : World = sweep_pending start_error now model_phase w in
          let u : World = sweep_pending start_error now model_phase v in
          (u.db ≡ v.db) × (u.started ≡ v.started)
    unfolding sweep_pending
    sweep_pending_twice w = sweep_models_parked _ _ (
        stays-listed _ (
          subst (All (λ r. (is_writer_key r.model || stays r.model) ≡ true))
            (sym (pending-sweep_pending w)) (All-filter_test _ w.db.pending)))
