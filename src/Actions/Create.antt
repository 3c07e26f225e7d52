-- ===== src/Actions/Create.antt =====
-- `createSessionAction`.
use devproofai.Base.{
  ℕ, String, Bool, true, false, not, ◌&&◌, ◌||◌, List, [], ◌∷◌, Option, none, some, ◌==◌, map,
  is_empty, is_some, truthy,
}
use devproofai.Store.Rows.{
  AgentVersion, Agent, Launch, FileRef, EntryRef, Db, str, num, FileRole, is_disabled, session_key,
}
use devproofai.Base.{update_row}
use devproofai.Store.Sessions.{get_session, get_agent, latest_version, create_session}
use devproofai.Store.Events.{note}
use devproofai.Store.Reads.{
  get_environment, attach_session_files, get_memory_store, get_memory_entries, resolve_wiki_mounts,
}
use devproofai.Gate.{World, ◌<>◌}
use devproofai.Actions.Reply.{
  Reply, reply, error, error_of, session_queued, threw, Check, pass, answer, ◌>>◌, refuse_if,
}
use devproofai.Actions.Launching.{
  Cluster, Gated, resolve_subagents, own_files, some_foreign, gated_launch,
}
use devproofai.Actions.Launching

-- The request's body; an absent agent or prompt is the empty text, as both are falsy.
pub record CreateRequest : Type 0 where
  pub agent : String
  pub prompt : String
  pub name : Option String
  pub files : List String
  pub memory_store : Option String
  pub parent_session_id : Option String

agent_disabled : Option Agent → Bool
agent_disabled none = false
agent_disabled (some a) = is_disabled a.status

environment_of : Db → Option AgentVersion → Option String
environment_of db none = none
environment_of db (some v) = elim v.environment_id [ none ↦ none | some e ↦ get_environment db e ]

parent_ok : Db → String → Option String → Bool
parent_ok db workspace none = true
parent_ok db workspace (some p) = elim (get_session db p) [
  | none ↦ is_empty p
  | some s ↦ is_empty p || (s.workspace_id == workspace)
]

store_ok : Db → String → Option String → Bool
store_ok db workspace none = true
store_ok db workspace (some m) = is_empty m || is_some (get_memory_store db m workspace)

-- The guards, in their order; they pass on the attachments.
unfoldable pub check_create : Db → String → CreateRequest → Check (List FileRef)
unfolding agent_disabled environment_of parent_ok store_ok
check_create db workspace b = do
  refuse_if (is_empty b.agent || is_empty b.prompt) 400 "agent and prompt required"
  refuse_if (agent_disabled (get_agent db workspace b.agent)) 409 "agent disabled"
  let v = latest_version db b.agent
  refuse_if (is_some v && not (is_some (environment_of db v))) 400
      "agent has no environment; edit the agent and assign one"
  refuse_if (some_foreign b.files (own_files db workspace b.files)) 400 "unknown file id in files[]"
  refuse_if (not (parent_ok db workspace b.parent_session_id)) 400 "unknown parent session"
  refuse_if (not (store_ok db workspace b.memory_store)) 400 "unknown memory store"
  pass (own_files db workspace b.files)

set_memory_store : Db → String → Option String → Db
set_memory_store db id none = db
set_memory_store db id (some m) = record db {
  sessions = update_row session_key id (λ s. record s { memory_store_id = some m }) db.sessions;
}

memory_of : Db → Option String → List EntryRef
memory_of db none = []
memory_of db (some m) = get_memory_entries db m

environment_id : Option String → String
environment_id none = ""
environment_id (some e) = e

-- The rows that follow the insertion: the prompt, the memory store, the attachments.
unfoldable pub record_session : Db → String → CreateRequest → List FileRef → ℕ → Db
unfolding set_memory_store
record_session db id b files now =
    attach_session_files
      (set_memory_store (note db id "user" (("text", str b.prompt) ∷ ("turn", num 0) ∷ []) now) id
        (truthy b.memory_store))
      id (map (λ f. f.id) files) FileRole.input

unfoldable pub create_payload :
    Db → String → String → CreateRequest → List FileRef → AgentVersion → Launch
unfolding memory_of environment_of environment_id
create_payload db workspace id b files v = record {
  id = id;
  prompt = b.prompt;
  config = v;
  attachments = files;
  prior_outputs = [];
  memory = memory_of db (truthy b.memory_store);
  memory_store = b.memory_store;
  resume = none;
  workspace = workspace;
  environment = environment_id (environment_of db (some v));
  subagents = resolve_subagents db workspace v b.parent_session_id;
  wikis = resolve_wiki_mounts db workspace v.wiki_refs;
  context_window = none;
}

-- The reply that follows the gate.
create_reply : String → String → ℕ → Gated → Reply
create_reply id agent version Launching.launched = reply 201 (session_queued id agent version none)
create_reply id agent version (Launching.waiting wt) =
    reply 201 (session_queued id agent version (some wt))
create_reply id agent version (Launching.refused err) = reply 409 (error_of err id)
create_reply id agent version (Launching.threw err) = reply 500 (threw err)

module _ (cluster : Cluster) (now : ℕ) where
  launch_created :
      World → String → String → CreateRequest → List FileRef → AgentVersion × Db → World × Reply
  unfolding create_reply
  launch_created w workspace id b files (v, db) =
      let db' = record_session db id b files now in
      let (w', g) =
        gated_launch cluster now (record w { db = db' }) id 0
          (create_payload db' workspace id b files v) in
      (w', create_reply id b.agent v.version g)

  create_checked : World → String → String → CreateRequest → Check (List FileRef) → World × Reply
  unfolding launch_created
  create_checked w workspace id b (answer r) = (w, r)
  create_checked w workspace id b (pass files) =
      elim (create_session w.db id workspace b.agent b.prompt b.name b.parent_session_id now) [
        | none ↦ (w, reply 404 (error ("agent not found: " <> b.agent)))
        | some made ↦ launch_created w workspace id b files made
      ]

  -- `id` is the identifier that `rid` draws for the session.
  unfoldable pub create_session_action : World → String → String → CreateRequest → World × Reply
  unfolding create_checked
  create_session_action w workspace id b =
      create_checked w workspace id b (check_create w.db workspace b)
