-- ===== src/Gate.antt =====
-- The launch gate, control-plane/src/launch-gate.ts. `gate_decision` resolves a model name to
-- launching, waiting or failing; `release_pending` replays what is parked on one model, and
-- `sweep_pending` is the reconciler's pass over all models.
-- The orchestrator is Kubernetes: a parameter says which calls of `startSession` throw, and the
-- world records the launches that got a pod. Statements of the store do not fail here.
pub mod Release
pub mod Sweep
use Prim.Native.String
use devproofai.Base.{
  ℕ, ◌+◌, String, Bool, true, false, ◌&&◌, List, [], ◌∷◌, ◌++◌, Option, none, some, ◌==◌,
  if◌then◌else◌, is_empty, length,
}
use devproofai.Store.Rows.{Status, Launch, PendingRow, Payload, str, Db}
use devproofai.Store.Sessions.{mark}
use devproofai.Store.Events.{note}
use devproofai.Store.Pending.{take_pending_launches, list_pending_launch_models}

infixr 66 ◌<>◌
abbrev pub ◌<>◌ : String → String → String
a <> b = String.◌++◌ a b

-- `null` is `none` of the option around it.
pub data ModelPhase : Type 0 where
  local : (phase : String) (context_tokens : Option ℕ) → ModelPhase
  external : ModelPhase
  routing : (context_tokens : Option ℕ) (dead_targets : List String) → ModelPhase

pub data GateDecision : Type 0 where
  launch : GateDecision
  wait : (phase : String) → GateDecision
  fail : (error : String) → GateDecision

quote_names : List String → String
quote_names [] = ""
quote_names (n ∷ []) = "\"" <> n <> "\""
quote_names (n ∷ m ∷ ns) = "\"" <> n <> "\"" <> ", " <> quote_names (m ∷ ns)

has_more : List String → Bool
has_more [] = false
has_more (n ∷ []) = false
has_more (n ∷ m ∷ ns) = true

dead_routing_error : String → List String → String
unfolding quote_names has_more
dead_routing_error model dead =
    "routing \""
    <> model
    <> "\" points to "
    <> (if has_more dead then "models" else "model")
    <> " "
    <> quote_names dead
    <> " that no longer exist"
    <> (if has_more dead then "" else "s")
    <> " — fix the routing or redeploy, then send a new message"

failed_error : String → String
failed_error model =
    "model deployment \"" <> model <> "\" is Failed — fix or redeploy it, then send a new message"

gone_error : String → String
gone_error model = "model deployment \"" <> model <> "\" no longer exists"

-- `phase || "Pending"`
abbrev phase_or_pending : String → String
phase_or_pending phase = if is_empty phase then "Pending" else phase

unfoldable pub decide_local : String → String → GateDecision
unfolding failed_error
decide_local model phase =
    if phase == "Ready"
    then launch
    else if phase == "Failed"
    then fail (failed_error model)
    else wait phase

unfoldable pub decide_routing : String → List String → GateDecision
unfolding dead_routing_error
decide_routing model [] = launch
decide_routing model (d ∷ ds) = fail (dead_routing_error model (d ∷ ds))

unfoldable pub gate_decision : String → Option ModelPhase → GateDecision
unfolding decide_local decide_routing
gate_decision model none = launch
gate_decision model (some external) = launch
gate_decision model (some (routing c dead)) = decide_routing model dead
gate_decision model (some (local phase c)) = decide_local model (phase_or_pending phase)

-- The store, the pods that were started and the wakes that were fired, oldest first.
pub record World : Type 0 where
  pub db : Db
  pub started : List Launch
  pub woken : List String

pub fail_waiting : Db → String → String → ℕ → Db
fail_waiting db id error now =
    mark (note db id "session.failed" (("error", str error) ∷ []) now) id Status.failed now

-- At gate time only local deployments park a session: a name that does not resolve is gone.
abbrev pub sweep_decision : String → Option ModelPhase → GateDecision
unfolding gone_error
sweep_decision model none = fail (gone_error model)
sweep_decision model (some p) = gate_decision model (some p)

is_idle : Option ModelPhase → Bool
is_idle (some (local phase c)) = phase == "Idle"
is_idle _ = false

-- `start_error p` is the message that `orchestrator.startSession(p)` throws, if it throws.
module _ (start_error : Launch → Option String) (now : ℕ) where
  -- One launch of the loop, with its catch.
  release_one : World → PendingRow → World
  unfolding fail_waiting
  release_one w r = elim (start_error r.payload) [
    | none ↦ record w { started = w.started ++ r.payload ∷ [] }
    | some err ↦ record w {
      db = fail_waiting w.db r.session_id ("deferred launch failed: " <> err) now;
    }
  ]

  release_rows : World → List PendingRow → World
  unfolding release_one
  release_rows w [] = w
  release_rows w (r ∷ rows) = release_rows (release_one w r) rows

  unfoldable pub release_pending : World → String → World × ℕ
  unfolding release_rows
  release_pending w model =
      let (rows, db) = take_pending_launches w.db model in
      (release_rows (record w { db = db }) rows, length rows)

  fail_rows : Db → List PendingRow → String → Db
  unfolding fail_waiting
  fail_rows db [] error = db
  fail_rows db (r ∷ rows) error = fail_rows (fail_waiting db r.session_id error now) rows error

  fail_model : World → String → String → World
  unfolding fail_rows
  fail_model w model error =
      let (rows, db) = take_pending_launches w.db model in record w { db = fail_rows db rows error }

  carry_out : World → String → Bool → GateDecision → World
  unfolding release_pending fail_model
  carry_out w model idle launch = (release_pending w model).0
  carry_out w model idle (wait phase) =
      if idle then record w { woken = w.woken ++ model ∷ [] } else w
  carry_out w model idle (fail error) = fail_model w model error

  sweep_model : World → String → Option ModelPhase → World
  unfolding carry_out is_idle
  sweep_model w model resolved =
      carry_out w model (is_idle resolved) (sweep_decision model resolved)

  -- `none`: the lookup throws, and the model is left to the next sweep.
  sweep_next : World → String → Option (Option ModelPhase) → World
  unfolding sweep_model
  sweep_next w model none = w
  sweep_next w model (some resolved) = sweep_model w model resolved

  -- `model_phase` is what the cluster answers for a name.
  module _ (model_phase : String → Option (Option ModelPhase)) where
    sweep_models : World → List String → World
    unfolding sweep_next
    sweep_models w [] = w
    sweep_models w (m ∷ ms) = sweep_models (sweep_next w m (model_phase m)) ms

    unfoldable pub sweep_pending : World → World
    unfolding sweep_models
    sweep_pending w = sweep_models w (list_pending_launch_models w.db)
