-- ===== src/Actions/Launching.antt =====
-- `gatedLaunch` and what a launch payload is made of.
pub mod Outcome
use devproofai.Base.{
  ℕ, String, Bool, false, not, List, [], ◌∷◌, ◌++◌, Option, none, some, ◌==◌, if◌then◌else◌, filter,
  map, length, nat_eq, is_some, truthy,
}
use devproofai.Store.Rows.{
  Status, Session, AgentVersion, Launch, FileRef, SubagentRef, SubagentEntry, Db, str, num,
}
use devproofai.Store.Sessions.{get_session, get_agent, mark}
use devproofai.Store.Events.{note}
use devproofai.Store.Pending.{writer_key, writer_slot_held, add_pending_launch}
use devproofai.Store.Reads.{has_write_ref, list_file_records}
use devproofai.Gate.{
  World, ModelPhase, local, external, routing, GateDecision, launch, wait, fail, gate_decision,
}
use devproofai.Actions.Reply.{Waiting, on_model, on_writer}

-- A session that has a parent gets no subagents; a target that is gone is skipped.
targets : Db → String → List SubagentRef → List SubagentEntry
targets db workspace [] = []
targets db workspace (s ∷ refs) =
    let rest = targets db workspace refs in
    elim (get_agent db workspace s.agent_id) [
      | none ↦ rest
      | some a ↦
          record { name = a.name; agent_id = s.agent_id; instructions = s.instructions } ∷ rest
    ]

unfoldable pub resolve_subagents : Db → String → AgentVersion → Option String → List SubagentEntry
unfolding targets
resolve_subagents db workspace config parent =
    if is_some (truthy parent) then [] else targets db workspace config.subagents

-- The requested files that belong to the workspace.
unfoldable pub own_files : Db → String → List String → List FileRef
own_files db workspace ids =
    map (λ f. record { id = f.id; name = f.name })
      (filter (λ f. f.workspace_id == workspace) (list_file_records db ids))

-- `(b.files?.length ?? 0) !== attachments.length`
abbrev pub some_foreign : List String → List FileRef → Bool
some_foreign ids found = not (nat_eq (length ids) (length found))

pub data Gated : Type 0 where
  launched : Gated
  waiting : Waiting → Gated
  refused : String → Gated
  threw : String → Gated

pub served_window : Option ModelPhase → Option ℕ
served_window none = none
served_window (some external) = none
served_window (some (local phase c)) = c
served_window (some (routing c dead)) = c

-- A window of 0 is falsy and is left unset.
abbrev with_window : Launch → Option ℕ → Launch
with_window p none = p
with_window p (some n) = if nat_eq n 0 then p else record p { context_window = some n }

pub is_idle : Option ModelPhase → Bool
is_idle (some (local phase c)) = phase == "Idle"
is_idle _ = false

-- The cluster: how a model name resolves, and the exception of `startSession`, if it throws.
pub record Cluster : Type 0 where
  pub model_phase : String → Option ModelPhase
  pub start_error : Launch → Option String

module _ (cluster : Cluster) (now : ℕ) where
  start_now : World → Launch → Option String → World × Gated
  start_now w p none = (record w { started = w.started ++ p ∷ [] }, launched)
  start_now w p (some err) = (w, threw err)

  obey : World → String → ℕ → Launch → Bool → GateDecision → World × Gated
  unfolding start_now
  obey w id turn p idle launch = start_now w p (cluster.start_error p)
  obey w id turn p idle (wait phase) =
      let model = p.config.routing in
      (
        record w {
          db =
              note (add_pending_launch w.db id model p now) id "session.waiting"
                (("model", str model) ∷ ("phase", str phase) ∷ ("turn", num turn) ∷ []) now;
          woken = if idle then w.woken ++ model ∷ [] else w.woken;
        },
        waiting (on_model model phase),
      )
  obey w id turn p idle (fail err) = (
    record w {
      db =
          mark (note w.db id "session.failed" (("error", str err) ∷ ("turn", num turn) ∷ []) now) id
            Status.failed now;
    },
    refused err,
  )

  model_gate : World → String → ℕ → Launch → World × Gated
  unfolding obey served_window is_idle
  model_gate w id turn p =
      let resolved = cluster.model_phase p.config.routing in
      obey w id turn (with_window p (served_window resolved)) (is_idle resolved)
        (gate_decision p.config.routing resolved)

  park_writer : World → String → ℕ → Launch → String → World × Gated
  park_writer w id turn p agent = (
    record w {
      db =
          note (add_pending_launch w.db id (writer_key agent) p now) id "session.waiting"
            (("writerAgent", str agent) ∷ ("turn", num turn) ∷ []) now;
    },
    waiting (on_writer agent),
  )

  writer_gate : World → String → ℕ → Launch → Option Session → World × Gated
  unfolding park_writer model_gate
  writer_gate w id turn p none = model_gate w id turn p
  writer_gate w id turn p (some owner) =
      if writer_slot_held w.db owner.agent_id id
      then park_writer w id turn p owner.agent_id
      else model_gate w id turn p

  -- The writer gate comes before the model gate.
  unfoldable pub gated_launch : World → String → ℕ → Launch → World × Gated
  unfolding writer_gate
  gated_launch w id turn p =
      if has_write_ref p.config.wiki_refs
      then writer_gate w id turn p (get_session w.db id)
      else model_gate w id turn p
