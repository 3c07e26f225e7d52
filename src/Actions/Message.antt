-- ===== src/Actions/Message.antt =====
-- `sendMessageAction`: a follow-up turn of an idle or failed session.
use Prim.Native.String.{compare}
use text.Mathlib.Text.{is_lt}
use devproofai.Base.{
  ℕ, String, Bool, false, not, ◌&&◌, ◌||◌, List, [], ◌∷◌, Option, none, some, ◌==◌, if◌then◌else◌,
  map, is_empty, is_some,
}
use devproofai.Store.Rows.{
  Status, Session, AgentVersion, Launch, FileRef, EntryRef, Db, str, num, FileRole, is_disabled,
}
use devproofai.Store.Sessions.{
  get_session, get_agent, get_agent_version, start_turn, Turn, TurnResult, started, TurnError,
  session_not_found, not_resumable,
}
use devproofai.Store.Sessions
use devproofai.Store.Events.{note}
use devproofai.Store.Reads.{
  get_environment, attach_session_files, list_session_files, get_memory_entries,
  resolve_wiki_mounts,
}
use devproofai.Gate.{World, ◌<>◌}
use devproofai.Actions.Reply.{
  Reply, reply, error, error_of, turn_queued, threw, Check, pass, answer, ◌>>◌, refuse_if,
}
use devproofai.Actions.Launching.{
  Cluster, Gated, resolve_subagents, own_files, some_foreign, gated_launch,
}
use devproofai.Actions.Launching

pub record MessageRequest : Type 0 where
  pub prompt : String
  pub files : List String

-- `byNameThenId`: `a` comes strictly after `b`. Texts compare by code points.
after : FileRef → FileRef → Bool
after a b = is_lt (compare b.name a.name) || ((a.name == b.name) && is_lt (compare b.id a.id))

insert_file : FileRef → List FileRef → List FileRef
insert_file f [] = f ∷ []
insert_file f (g ∷ gs) = let rest = insert_file f gs in if after f g then g ∷ rest else f ∷ g ∷ gs

pub sort_files : List FileRef → List FileRef
unfolding after insert_file
sort_files [] = []
sort_files (f ∷ fs) = insert_file f (sort_files fs)

owner_disabled : Db → Session → Bool
owner_disabled db s = elim (get_agent db s.workspace_id s.agent_id) [
  | none ↦ false
  | some a ↦ is_disabled a.status
]

environment_of : Db → Option AgentVersion → Option String
environment_of db none = none
environment_of db (some v) = elim v.environment_id [ none ↦ none | some e ↦ get_environment db e ]

session_environment : Db → Session → Option String
unfolding environment_of
session_environment db s = environment_of db (get_agent_version db s.agent_id s.agent_version)

message_files : Db → Option Session → List String → List FileRef
message_files db none ids = []
message_files db (some s) ids = own_files db s.workspace_id ids

check_owner : Db → Option Session → Check (Unit {0})
unfolding owner_disabled session_environment
check_owner db none = pass tt
check_owner db (some s) = do
  refuse_if (owner_disabled db s) 409 "agent disabled"
  refuse_if (not (is_some (session_environment db s))) 400
      "agent has no environment; edit the agent and assign one"

-- The guards, in their order; they pass on the ids of the attachments.
unfoldable pub check_message : Db → String → MessageRequest → Check (List FileRef)
unfolding check_owner message_files
check_message db id b = do
  refuse_if (is_empty b.prompt) 400 "prompt required"
  check_owner db (get_session db id)
  refuse_if (some_foreign b.files (message_files db (get_session db id) b.files)) 400
      "unknown file id in files[]"
  pass (message_files db (get_session db id) b.files)

pub status_name : Status → String
status_name Status.queued = "queued"
status_name Status.running = "running"
status_name Status.idle = "idle"
status_name Status.completed = "completed"
status_name Status.failed = "failed"

turn_error : String → TurnError → String
unfolding status_name
turn_error id session_not_found = "session not found: " <> id
turn_error id (not_resumable st) =
    "session is " <> status_name st <> ", only idle or failed sessions accept new messages"

-- The memory store's current entries, read anew each turn.
current_memory : Db → Option String → List EntryRef
current_memory db none = []
current_memory db (some m) = get_memory_entries db m

turn_environment : Option String → String
turn_environment none = ""
turn_environment (some e) = e

-- The whole list of the session's input files is staged, and the earlier outputs beside it.
unfoldable pub message_payload :
    Db → String → Session → MessageRequest → Turn → AgentVersion → Launch
unfolding current_memory session_environment turn_environment
message_payload db workspace s b t v = record {
  id = s.id;
  prompt = b.prompt;
  config = v;
  attachments = sort_files (list_session_files db s.id FileRole.input);
  prior_outputs = sort_files (list_session_files db s.id FileRole.output);
  memory = current_memory db s.memory_store_id;
  memory_store = s.memory_store_id;
  resume = some (record {
    turn = t.turn;
    sdk_session_id = t.sdk_session_id;
    checkpoint_file_id = t.checkpoint_file_id;
  });
  workspace = workspace;
  environment = turn_environment (session_environment db s);
  subagents = resolve_subagents db workspace v s.parent_session_id;
  wikis = resolve_wiki_mounts db workspace v.wiki_refs;
  context_window = none;
}

message_reply : String → ℕ → Gated → Reply
message_reply id turn Launching.launched = reply 202 (turn_queued id turn none)
message_reply id turn (Launching.waiting wt) = reply 202 (turn_queued id turn (some wt))
message_reply id turn (Launching.refused err) = reply 409 (error_of err id)
message_reply id turn (Launching.threw err) = reply 500 (threw err)

module _ (cluster : Cluster) (now : ℕ) where
  -- A turn of a session whose version row is gone would fail on reading its config.
  launch_turn :
      World
      → String
      → Session
      → MessageRequest
      → List FileRef
      → Turn
      → Db
      → Option AgentVersion
      → World × Reply
  unfolding message_reply
  launch_turn w workspace s b files t db none = (record w { db = db }, reply 500 (threw "config"))
  launch_turn w workspace s b files t db (some v) =
      let db' =
        attach_session_files
          (note db s.id "user" (("text", str b.prompt) ∷ ("turn", num t.turn) ∷ []) now) s.id
          (map (λ f. f.id) files) FileRole.input in
      let (w', g) =
        gated_launch cluster now (record w { db = db' }) s.id t.turn
          (message_payload db' workspace s b t v) in
      (w', message_reply s.id t.turn g)

  open_turn :
      World
      → String
      → String
      → MessageRequest
      → List FileRef
      → Option Session
      → TurnResult
      → World × Reply
  unfolding launch_turn turn_error
  open_turn w workspace id b files o (Sessions.refused e) = (w, reply 409 (error (turn_error id e)))
  open_turn w workspace id b files none (started t db) = (w, reply 500 (threw "session"))
  open_turn w workspace id b files (some s) (started t db) =
      launch_turn w workspace s b files t db t.config

  message_checked : World → String → String → MessageRequest → Check (List FileRef) → World × Reply
  unfolding open_turn
  message_checked w workspace id b (answer r) = (w, r)
  message_checked w workspace id b (pass files) =
      open_turn w workspace id b files (get_session w.db id) (start_turn w.db id)

  unfoldable pub send_message_action : World → String → String → MessageRequest → World × Reply
  unfolding message_checked
  send_message_action w workspace id b = message_checked w workspace id b (check_message w.db id b)
