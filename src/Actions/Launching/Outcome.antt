-- ===== src/Actions/Launching/Outcome.antt =====
-- What becomes of an accepted turn at the gates.
use mathlib.Core.Option
use devproofai.Base.{
  ℕ, String, ◌≡◌, ◌≢◌, true, false, [], ◌∷◌, ◌++◌, Option, none, some, ◌==◌, if◌then◌else◌,
  find_row,
}
use devproofai.Store.Rows.{Status, Session, Launch, pending_key}
use devproofai.Store.Sessions.{get_session}
use devproofai.Store.Sessions.Updates.{status_of}
use devproofai.Store.Pending.{writer_key, writer_slot_held}
use devproofai.Store.Reads.{has_write_ref}
use devproofai.Gate.{ModelPhase, local, external, routing, World, GateDecision, launch, wait, fail}
use devproofai.Actions.Reply.{on_model, on_writer}
use devproofai.Actions.Launching.{
  Cluster, Gated, launched, waiting, refused, threw, with_window, served_window, is_idle,
}

-- No other session of the agent holds the writer's slot, or the launch writes to no wiki.
pub data Free (w : World) (id : String) (p : Launch) : Type 0 where
  reads : has_write_ref p.config.wiki_refs ≡ false → Free w id p
  unknown : get_session w.db id ≡ none → Free w id p
  alone :
      (s : Session)
      → get_session w.db id ≡ some s
      → writer_slot_held w.db s.agent_id id ≡ false
      → Free w id p

-- The launch writes to a wiki, and another session of its agent holds the slot.
pub record Blocked (w : World) (id : String) (p : Launch) (agent : String) : Type 0 where
  pub writes : has_write_ref p.config.wiki_refs ≡ true
  pub owner : Session
  pub found : get_session w.db id ≡ some owner
  pub mine : owner.agent_id ≡ agent
  pub held : writer_slot_held w.db agent id ≡ true

-- What the model of a launch allows: a start, a later start, or none.
abbrev pub Serves : Option ModelPhase → Type 0
Serves none = Unit
Serves (some external) = Unit
Serves (some (routing c dead)) = dead ≡ []
Serves (some (local phase c)) = phase ≡ "Ready"

abbrev pub Waits : Option ModelPhase → Type 0
Waits (some (local phase c)) = (phase ≢ "Ready") × (phase ≢ "Failed")
Waits _ = ⊥

abbrev pub Broken : Option ModelPhase → Type 0
Broken (some (routing c dead)) = dead ≢ []
Broken (some (local phase c)) = phase ≡ "Failed"
Broken _ = ⊥

-- The launch `p` is parked under its session and `key`; no session's status changes, and no pod is
-- started.
pub record Parks (now : ℕ) (w : World) (id key : String) (p : Launch) (w' : World) : Type 0 where
  pub row :
      find_row pending_key id w'.db.pending
      ≡ some (record { session_id = id; model = key; payload = p; created_at = now })
  pub statuses : (j : String) → status_of w'.db j ≡ status_of w.db j
  pub unstarted : w'.started ≡ w.started

-- The fate of a launch `p` of the session `id`, with what decides it. `ready` is the launch with the
-- context window that its model serves.
pub data Settled (cluster : Cluster) (now : ℕ) (w : World) (id : String) (p ready : Launch)
    : World × Gated → Type 0 where
  starts :
      Free w id p
      → Serves (cluster.model_phase p.config.routing)
      → cluster.start_error ready ≡ none
      → Settled cluster now w id p ready (record w { started = w.started ++ ready ∷ [] }, launched)
  throws :
      (err : String)
      → Free w id p
      → Serves (cluster.model_phase p.config.routing)
      → cluster.start_error ready ≡ some err
      → Settled cluster now w id p ready (w, threw err)
  queues :
      (w' : World) (agent : String)
      → Blocked w id p agent
      → Parks now w id (writer_key agent) p w'
      → w'.woken ≡ w.woken
      → Settled cluster now w id p ready (w', waiting (on_writer agent))
  parks :
      (w' : World) (phase : String)
      → Free w id p
      → Waits (cluster.model_phase p.config.routing)
      → Parks now w id p.config.routing ready w'
      → w'.woken ≡ (
          if is_idle (cluster.model_phase p.config.routing)
          then w.woken ++ p.config.routing ∷ []
          else w.woken)
      → Settled cluster now w id p ready (w', waiting (on_model p.config.routing phase))
  fails :
      (w' : World) (err : String)
      → Free w id p
      → Broken (cluster.model_phase p.config.routing)
      → ((j : String)
          → status_of w'.db j ≡ (
              if id == j
              then Option.map (λ _. Status.failed) (status_of w.db j)
              else status_of w.db j))
      → w'.started ≡ w.started
      → w'.db.pending ≡ w.db.pending
      → Settled cluster now w id p ready (w', refused err)

Decides : Option ModelPhase → GateDecision → Type 0
Decides o launch = Serves o
Decides o (wait phase) = Waits o
Decides o (fail err) = Broken o

module _ (cluster : Cluster) (now : ℕ) where
  -- The launch with the context window that its model serves.
  unfoldable pub served : Launch → Launch
  unfolding served_window
  served p = with_window p (served_window (cluster.model_phase p.config.routing))
