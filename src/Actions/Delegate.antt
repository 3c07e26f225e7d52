-- ===== src/Actions/Delegate.antt =====
-- Delegation: `delegateAction`, `delegateCompleteAction`, `delegateStatusAction`; and the interrupt
-- route of agents-api.ts with `interruptChildSessions` of subagents.ts.
pub mod Guards
pub mod Complete
use devproofai.Base.{
  ℕ, String, Bool, true, false, not, ◌&&◌, ◌||◌, List, [], ◌∷◌, Option, none, some, ◌==◌,
  if◌then◌else◌, is_empty, is_some, truthy, any, ltb, leb,
}
use devproofai.Store.Rows.{
  Status, Session, AgentVersion, Workspace, SubagentRef, Db, str, FileRole, in_flight, is_resumable,
  is_completed,
}
use devproofai.Store.Sessions.{
  get_session, get_agent_version, child_session_counts, ChildCounts, list_child_sessions,
  is_child_of, mark,
}
use devproofai.Store.Events.{note, last_agent_message, last_failure_detail, was_interrupted}
use devproofai.Store.Pending.{take_pending_launch}
use devproofai.Store.Reads.{get_workspace, list_session_files}
use devproofai.Gate.{World, ◌<>◌}
use devproofai.Actions.Reply.{
  Reply, reply, error, child, completed, child_status, Check, pass, answer, ◌>>=◌, ◌>>◌, refuse_if,
}
use devproofai.Actions.Launching.{Cluster}
use devproofai.Actions.Create.{CreateRequest, create_session_action}
use devproofai.Actions.Message.{status_name, sort_files, send_message_action}

pub record DelegateRequest : Type 0 where
  pub turn : Option ℕ
  pub agent_id : String
  pub prompt : String
  pub files : List String
  pub session : Option String

abbrev pub max_delegate_total : ℕ
max_delegate_total = 200

abbrev pub max_delegate_concurrent : ℕ
max_delegate_concurrent = 20

-- `DELEGATED_PROMPT_CONTRACT`
abbrev delegated_prompt_contract : String
delegated_prompt_contract =
    "\n\n(Delegated task contract: this conversation has exactly one turn — your FINAL message must contain the complete result of the task, not a plan or a status update. Write any file deliverables to the outputs directory BEFORE your final message. Never end by describing what you are about to do.)"

pub is_stale : Option ℕ → Session → Bool
is_stale none s = false
is_stale (some t) s = ltb t s.turns

find_parent : Option Session → Check Session
find_parent none = answer (reply 404 (error "session not found"))
find_parent (some s) = pass s

-- The guards on the parent's side that the delegation routes share.
pub check_parent : Db → String → Option ℕ → Check Session
unfolding is_stale find_parent
check_parent db id turn = do
  s ← find_parent (get_session db id)
  refuse_if (is_stale turn s) 409 "stale turn"
  refuse_if (not (in_flight s.status)) 409
      ("session is " <> status_name s.status <> ", not in-flight")
  refuse_if (is_some (truthy s.parent_session_id)) 409
      "delegation is one level deep — this session was itself started by delegation"
  pass s

pub is_readonly : Option Workspace → Bool
is_readonly none = false
is_readonly (some ws) = not (ws.status == "active")

refs_of : Option AgentVersion → List SubagentRef
refs_of none = []
refs_of (some v) = v.subagents

pub configured : Db → Session → String → Bool
unfolding refs_of
configured db s agent =
    any (λ r. r.agent_id == agent) (refs_of (get_agent_version db s.agent_id s.agent_version))

unfoldable pub check_delegate : Db → String → DelegateRequest → Check Session
unfolding check_parent is_readonly configured
check_delegate db id b = do
  refuse_if (is_empty b.agent_id || is_empty b.prompt) 400 "agent_id and prompt required"
  s ← check_parent db id b.turn
  refuse_if (is_readonly (get_workspace db s.workspace_id)) 409
      "workspace is read-only — cannot start new sessions"
  refuse_if (not (configured db s b.agent_id)) 403
      "agent is not a configured subagent of this session's agent"
  pass s

-- The child exists and is this parent's.
pub find_child : String → Option Session → Check Session
find_child id none = answer (reply 404 (error "no such child session"))
find_child id (some c) =
    if is_child_of id c then pass c else answer (reply 404 (error "no such child session"))

check_continue : Db → String → String → String → Check Session
unfolding find_child
check_continue db id agent child_id = do
  c ← find_child id (get_session db child_id)
  refuse_if (not (c.agent_id == agent)) 400 "session does not belong to that subagent"
  refuse_if (in_flight c.status) 409 "child still running"
  refuse_if (is_completed c.status) 409 "child completed (locked)"
  pass c

pub check_room : ChildCounts → Check (Unit {0})
check_room n = do
  refuse_if (leb max_delegate_total n.total) 429
      "delegate fan-out limit reached (200 children per session)"
  refuse_if (leb max_delegate_concurrent n.in_flight) 429
      "too many concurrent delegated children (20) — wait for some to finish"

abbrev is_code : ℕ → Reply → Bool
is_code n r = leb n r.code && leb r.code n

child_request : String → DelegateRequest → CreateRequest
child_request id b = record {
  agent = b.agent_id;
  prompt = b.prompt <> delegated_prompt_contract;
  name = some ("delegated by " <> id);
  files = b.files;
  memory_store = none;
  parent_session_id = some id;
}

module _ (cluster : Cluster) (now : ℕ) where
  continue_child : World → Session → String → DelegateRequest → Check Session → World × Reply
  continue_child w s child_id b (answer r) = (w, r)
  continue_child w s child_id b (pass c) =
      let (w', r) =
        send_message_action cluster now w s.workspace_id child_id
          (record { prompt = b.prompt <> delegated_prompt_contract; files = b.files }) in
      (w', if is_code 202 r then reply 201 (child child_id) else r)

  spawn_child :
      World → Session → String → String → DelegateRequest → Check (Unit {0}) → World × Reply
  unfolding child_request
  spawn_child w s id new_id b (answer r) = (w, r)
  spawn_child w s id new_id b (pass u) =
      let (w', r) =
        create_session_action cluster now w s.workspace_id new_id (child_request id b) in
      (w', if is_code 201 r then reply 201 (child new_id) else r)

  delegate_to : World → Session → String → String → DelegateRequest → Option String → World × Reply
  unfolding check_continue continue_child check_room spawn_child
  delegate_to w s id new_id b (some child_id) =
      continue_child w s child_id b (check_continue w.db id b.agent_id child_id)
  delegate_to w s id new_id b none =
      spawn_child w s id new_id b (check_room (child_session_counts w.db id))

  delegate_checked : World → String → String → DelegateRequest → Check Session → World × Reply
  unfolding delegate_to
  delegate_checked w id new_id b (answer r) = (w, r)
  delegate_checked w id new_id b (pass s) = delegate_to w s id new_id b (truthy b.session)

  -- `new_id` is the identifier that is drawn for a child, if one is created.
  unfoldable pub delegate_action : World → String → String → DelegateRequest → World × Reply
  unfolding delegate_checked
  delegate_action w id new_id b = delegate_checked w id new_id b (check_delegate w.db id b)

pub check_complete : Db → String → String → Option ℕ → Check Session
unfolding check_parent find_child
check_complete db id child_id turn = do
  s ← check_parent db id turn
  c ← find_child id (get_session db child_id)
  refuse_if (in_flight c.status) 409 "child still running"
  pass c

-- The reply, and `locked`, which only a real change sets: the caller then settles the costs and
-- sends the webhooks.
pub record Locking : Type 0 where
  pub reply : Reply
  pub locked : Bool

pub complete_checked : Db → String → ℕ → Check Session → Db × Locking
complete_checked db child_id now (answer r) = (db, record { reply = r; locked = false })
complete_checked db child_id now (pass c) =
    if is_completed c.status
    then (db, record { reply = reply 200 completed; locked = false })
    else (
      mark db child_id Status.completed now,
      record { reply = reply 200 completed; locked = true },
    )

unfoldable pub delegate_complete_action : Db → String → String → Option ℕ → ℕ → Db × Locking
unfolding check_complete complete_checked
delegate_complete_action db id child_id turn now =
    complete_checked db child_id now (check_complete db id child_id turn)

is_reported : Status → Bool
is_reported st = is_resumable st || is_completed st

is_failed : Status → Bool
is_failed Status.failed = true
is_failed _ = false

describe_child : Db → String → Check Session → Reply
unfolding is_reported is_failed
describe_child db child_id (answer r) = r
describe_child db child_id (pass c) = reply 200 (
    if is_reported c.status
    then child_status c.status (last_agent_message db child_id)
        (sort_files (list_session_files db child_id FileRole.output))
        (if is_failed c.status then last_failure_detail db child_id else none)
        (was_interrupted db child_id)
    else child_status c.status none [] none false)

unfoldable pub delegate_status_action : Db → String → String → Reply
unfolding describe_child find_child
delegate_status_action db id child_id =
    describe_child db child_id (find_child id (get_session db child_id))

-- `stop_throws id` says whether stopping the pod of a session throws.
module _ (stop_throws : String → Bool) (now : ℕ) where
  -- One child of `interruptChildSessions`: its parked launch is dropped; a child whose pod cannot
  -- be stopped is skipped.
  unfoldable pub interrupt_child : Db → Session → Db
  interrupt_child db c =
      if stop_throws c.id
      then db
      else note (mark (take_pending_launch db c.id).1 c.id Status.idle now) c.id
          "session.interrupted" (("by", str "parent") ∷ []) now

  unfoldable pub interrupt_rows : Db → List Session → Db
  unfolding interrupt_child
  interrupt_rows db [] = db
  interrupt_rows db (c ∷ cs) = interrupt_rows (interrupt_child db c) cs

  unfoldable pub interrupt_child_sessions : Db → String → Db
  unfolding interrupt_rows
  interrupt_child_sessions db parent = interrupt_rows db (list_child_sessions db parent)

  -- POST /v1/sessions/:id/interrupt
  interrupt_found : Db → String → String → Option Session → Db × ℕ
  unfolding interrupt_child_sessions
  interrupt_found db id workspace none = (db, 404)
  interrupt_found db id workspace (some s) =
      if not (s.workspace_id == workspace)
      then (db, 404)
      else if stop_throws id
      then (db, 500)
      else (
        interrupt_child_sessions
            (note (mark (take_pending_launch db id).1 id Status.idle now) id "session.interrupted"
              (("by", str "user") ∷ []) now)
            id,
        200,
      )

  unfoldable pub interrupt_session : Db → String → String → Db × ℕ
  unfolding interrupt_found
  interrupt_session db id workspace = interrupt_found db id workspace (get_session db id)
