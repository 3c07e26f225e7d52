-- ===== src/Store/Rows.antt =====
-- Rows of the tables that control-plane/src/repo.ts reads and writes (schema in
-- control-plane/sql/001.do.baseline.sql). Identifiers are text that the code only compares;
-- times are milliseconds, given by the caller where the statement says now().
use devproofai.Base.{ℕ, String, Bool, true, false, List, Option}

pub data Status : Type 0 where
  queued running idle completed failed : Status

-- status IN ('queued', 'running')
abbrev pub in_flight : Status → Bool
in_flight Status.queued = true
in_flight Status.running = true
in_flight _ = false

-- `["idle", "failed"].includes(status)`
abbrev pub is_resumable : Status → Bool
is_resumable Status.idle = true
is_resumable Status.failed = true
is_resumable _ = false

-- CASE WHEN $2 IN ('completed','failed','idle')
abbrev pub is_final : Status → Bool
is_final Status.queued = false
is_final Status.running = false
is_final _ = true

abbrev pub is_completed : Status → Bool
is_completed Status.completed = true
is_completed _ = false

pub record Session : Type 0 where
  pub id : String
  pub workspace_id : String
  pub agent_id : String
  pub agent_version : ℕ
  pub name : Option String
  pub prompt : String
  pub status : Status
  pub turns : ℕ
  pub parent_session_id : Option String
  pub memory_store_id : Option String
  pub sdk_session_id : Option String
  pub checkpoint_file_id : Option String
  pub created_at : ℕ
  pub completed_at : Option ℕ

-- A field of an event's payload object.
pub data Field : Type 0 where
  str : String → Field
  num : ℕ → Field
  flag : Bool → Field

abbrev pub Payload : Type 0
Payload = List (String × Field)

-- `SessionEvent`, what a caller hands to `appendEvents`.
pub record SessionEvent : Type 0 where
  pub kind : String
  pub payload : Payload
  pub uid : Option String

-- A row of session_events.
pub record EventRow : Type 0 where
  pub session_id : String
  pub seq : ℕ
  pub kind : String
  pub payload : Payload
  pub uid : Option String
  pub created_at : ℕ

pub record SubagentRef : Type 0 where
  pub agent_id : String
  pub instructions : String

pub data WikiMode : Type 0 where
  read write : WikiMode

abbrev pub is_write : WikiMode → Bool
is_write WikiMode.write = true
is_write WikiMode.read = false

pub record WikiRef : Type 0 where
  pub wiki_id : String
  pub mode : WikiMode

pub record AgentVersion : Type 0 where
  pub agent_id : String
  pub version : ℕ
  pub routing : String
  pub environment_id : Option String
  pub subagents : List SubagentRef
  pub wiki_refs : List WikiRef

pub record FileRef : Type 0 where
  pub id : String
  pub name : String

pub record EntryRef : Type 0 where
  pub path : String
  pub file_id : String

pub record WikiMount : Type 0 where
  pub id : String
  pub name : String
  pub mode : WikiMode
  pub entries : List EntryRef

pub record SubagentEntry : Type 0 where
  pub name : String
  pub agent_id : String
  pub instructions : String

pub record Resume : Type 0 where
  pub turn : ℕ
  pub sdk_session_id : Option String
  pub checkpoint_file_id : Option String

-- The argument of `orchestrator.startSession`, parked as `payload` in pending_launches. Its skills
-- and MCP servers are left out: no branch reads them.
pub record Launch : Type 0 where
  pub id : String
  pub prompt : String
  pub config : AgentVersion
  pub attachments : List FileRef
  pub prior_outputs : List FileRef
  pub memory : List EntryRef
  pub memory_store : Option String
  pub resume : Option Resume
  pub workspace : String
  pub environment : String
  pub subagents : List SubagentEntry
  pub wikis : List WikiMount
  pub context_window : Option ℕ

-- The column pending_launches.model: a model's name, or `wq:<agentId>` for a writer's queue.
pub record PendingRow : Type 0 where
  pub session_id : String
  pub model : String
  pub payload : Launch
  pub created_at : ℕ

pub data AgentStatus : Type 0 where
  active disabled : AgentStatus

abbrev pub is_disabled : AgentStatus → Bool
is_disabled AgentStatus.disabled = true
is_disabled AgentStatus.active = false

pub record Agent : Type 0 where
  pub id : String
  pub workspace_id : String
  pub name : String
  pub status : AgentStatus

pub record Workspace : Type 0 where
  pub id : String
  pub status : String

pub record FileRow : Type 0 where
  pub id : String
  pub session_id : Option String
  pub name : String
  pub size : ℕ
  pub kind : String
  pub created_at : ℕ
  pub workspace_id : String
  pub object_key : String

-- `file_id` is the SKILL.md; `files` are the others of a package.
pub record Skill : Type 0 where
  pub id : String
  pub workspace_id : String
  pub name : String
  pub file_id : String
  pub files : List EntryRef

pub data FileRole : Type 0 where
  input output : FileRole

abbrev pub is_input : FileRole → Bool
is_input FileRole.input = true
is_input FileRole.output = false

abbrev pub same_role : FileRole → FileRole → Bool
same_role FileRole.input r = is_input r
same_role FileRole.output FileRole.output = true
same_role FileRole.output FileRole.input = false

pub record SessionFile : Type 0 where
  pub session_id : String
  pub file_id : String
  pub role : FileRole

-- A memory store or a wiki, with its entries.
pub record Shelf : Type 0 where
  pub id : String
  pub workspace_id : String
  pub name : String
  pub entries : List EntryRef

pub record Db : Type 0 where
  pub sessions : List Session
  pub events : List EventRow
  pub pending : List PendingRow
  pub agents : List Agent
  pub versions : List AgentVersion
  pub environments : List String
  pub workspaces : List Workspace
  pub files : List FileRow
  pub session_files : List SessionFile
  pub memory_stores : List Shelf
  pub wikis : List Shelf
  pub skills : List Skill

abbrev pub session_key : Session → String
session_key s = s.id

abbrev pub pending_key : PendingRow → String
pending_key p = p.session_id
