-- ===== src/Tests/Stores.antt =====
-- Small stores: sessions of a writer agent, parked launches, a transcript.
use devproofai.Base.{◌+◌, ◌==◌, if◌then◌else◌, ℕ, String, [], ◌∷◌, Option, none, some}
use devproofai.Store.Rows.{
  Status, Session, AgentVersion, AgentStatus, Launch, PendingRow, EventRow, SessionEvent, Db,
  WikiMode, str,
}
use devproofai.Gate.{World}

abbrev pub session : String → Status → ℕ → Option String → Session
session id status turns parent = record {
  id = id;
  workspace_id = "w1";
  agent_id = "writer";
  agent_version = 1;
  name = none;
  prompt = "tidy the wiki";
  status = status;
  turns = turns;
  parent_session_id = parent;
  memory_store_id = none;
  sdk_session_id = none;
  checkpoint_file_id = some "f0";
  created_at = 10;
  completed_at = none;
}

abbrev pub version : AgentVersion
version = record {
  agent_id = "writer";
  version = 1;
  routing = "qwen";
  environment_id = some "env1";
  subagents = record { agent_id = "writer"; instructions = "" } ∷ [];
  wiki_refs = record { wiki_id = "wiki1"; mode = WikiMode.write } ∷ [];
}

abbrev pub launch_of : String → Launch
launch_of id = record {
  id = id;
  prompt = "tidy the wiki";
  config = version;
  attachments = [];
  prior_outputs = [];
  memory = [];
  memory_store = none;
  resume = none;
  workspace = "w1";
  environment = "env1";
  subagents = [];
  wikis = [];
  context_window = none;
}

abbrev pub parked : String → String → ℕ → PendingRow
parked id model at = record {
  session_id = id;
  model = model;
  payload = launch_of id;
  created_at = at;
}

abbrev pub event : String → ℕ → String → EventRow
event id seq uid = record {
  session_id = id;
  seq = seq;
  kind = "agent.message";
  payload = ("text", str "hello") ∷ [];
  uid = some uid;
  created_at = 20 + seq;
}

abbrev pub posted : String → String → SessionEvent
posted kind uid = record { kind = kind; payload = ("text", str "hi") ∷ []; uid = some uid }

-- `s1` runs; `s2` waits for the writer's slot and `s3` for the model; `s4` is idle.
abbrev pub store : Db
store = record {
  sessions =
      session "s1" Status.running 2 none
      ∷ session "s2" Status.queued 0 none
      ∷ session "s3" Status.queued 0 (some "s1")
      ∷ session "s4" Status.idle 1 none
      ∷ [];
  events = event "s1" 1 "u1" ∷ event "s1" 2 "u2" ∷ [];
  pending = parked "s2" "wq:writer" 30 ∷ parked "s3" "qwen" 40 ∷ [];
  agents =
      record { id = "writer"; workspace_id = "w1"; name = "Writer"; status = AgentStatus.active }
      ∷ [];
  versions = version ∷ [];
  environments = "env1" ∷ [];
  workspaces = record { id = "w1"; status = "active" } ∷ [];
  files = [];
  session_files = [];
  memory_stores = [];
  wikis = [];
  skills = [];
}

-- The same, with `s1` finished: the slot of the writer is free.
abbrev pub free_store : Db
free_store = record store {
  sessions =
      session "s1" Status.idle 2 none
      ∷ session "s2" Status.queued 0 none
      ∷ session "s4" Status.idle 1 none
      ∷ [];
  pending = parked "s5" "wq:writer" 31 ∷ parked "s2" "wq:writer" 30 ∷ [];
}

abbrev pub world : World
world = record { db = store; started = []; woken = [] }

-- A cluster that refuses the pod of `s3`.
abbrev pub start_error : Launch → Option String
start_error p = if p.id == "s3" then some "no node" else none
