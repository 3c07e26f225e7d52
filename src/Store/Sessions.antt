-- ===== src/Store/Sessions.antt =====
-- The session rows: `createSession`, `setSessionStatus`, `startTurn`, `getSession` and the counts
-- over children.
pub mod Updates
pub mod Turns
pub mod Created
pub mod Versions
use devproofai.Base.{
  ℕ, ◌+◌, String, Bool, true, false, not, ◌&&◌, List, [], ◌∷◌, Option, none, some, ◌==◌,
  if◌then◌else◌, leb, length, filter, find?, find_row, update_row, is_empty,
}
use devproofai.Store.Rows.{
  Status, Session, AgentVersion, Agent, Db, in_flight, is_resumable, is_final, session_key,
}

-- `x ?? y` and COALESCE(x, y)
abbrev pub or_else {ℓ} : {A : Type ℓ} → Option A → Option A → Option A
or_else none y = y
or_else (some x) y = some x

unfoldable pub get_session : Db → String → Option Session
get_session db id = find_row session_key id db.sessions

abbrev pub version_of : String → ℕ → AgentVersion → Bool
version_of agent n v = (v.agent_id == agent) && leb n v.version && leb v.version n

-- ORDER BY version DESC: the newest row of an agent among those read so far
newest : Option AgentVersion → String → List AgentVersion → Option AgentVersion
newest best agent [] = best
newest none agent (v ∷ vs) = newest (if v.agent_id == agent then some v else none) agent vs
newest (some b) agent (v ∷ vs) =
    newest (some (if (v.agent_id == agent) && not (leb v.version b.version) then v else b)) agent vs

unfoldable pub latest_version : Db → String → Option AgentVersion
unfolding newest
latest_version db agent = newest none agent db.versions

unfoldable pub get_agent_version : Db → String → ℕ → Option AgentVersion
get_agent_version db agent n = find? (version_of agent n) db.versions

unfoldable pub get_agent : Db → String → String → Option Agent
get_agent db workspace id = find? (λ a. (a.id == id) && (a.workspace_id == workspace)) db.agents

new_session : String → String → String → String → Option String → Option String → ℕ → ℕ → Session
new_session id workspace agent prompt name parent version now = record {
  id = id;
  workspace_id = workspace;
  agent_id = agent;
  agent_version = version;
  name = name;
  prompt = prompt;
  status = Status.queued;
  turns = 0;
  parent_session_id = parent;
  memory_store_id = none;
  sdk_session_id = none;
  checkpoint_file_id = none;
  created_at = now;
  completed_at = none;
}

-- `id` is the identifier that `rid("sesn")` draws; `none` is the error "agent not found".
unfoldable pub create_session :
    Db
    → String
    → String
    → String
    → String
    → Option String
    → Option String
    → ℕ
    → Option (AgentVersion × Db)
unfolding new_session
create_session db id workspace agent prompt name parent now = elim (get_agent db workspace agent) [
  | none ↦ none
  | some a ↦ elim (latest_version db agent) [
    | none ↦ none
    | some v ↦ some (
      v,
      record db {
        sessions = new_session id workspace agent prompt name parent v.version now ∷ db.sessions;
      },
    )
  ]
]

pub record Extras : Type 0 where
  pub sdk_session_id : Option String
  pub checkpoint_file_id : Option String

abbrev pub no_extras : Extras
no_extras = record { sdk_session_id = none; checkpoint_file_id = none }

-- The WHERE clause: a report of an older turn applies to no row.
unfoldable pub turn_applies : Option ℕ → Session → Bool
turn_applies none s = true
turn_applies (some t) s = leb s.turns t

unfoldable pub apply_status : Status → Extras → ℕ → Session → Session
apply_status status extras now s = record s {
  status = status;
  sdk_session_id = or_else extras.sdk_session_id s.sdk_session_id;
  checkpoint_file_id = or_else extras.checkpoint_file_id s.checkpoint_file_id;
  completed_at = if is_final status then some now else s.completed_at;
}

-- The checkpoint that this update replaces, if it differs from the new one.
replaced_checkpoint : Extras → Option Session → Option String
replaced_checkpoint extras none = none
replaced_checkpoint extras (some s) = elim extras.checkpoint_file_id [
  | none ↦ none
  | some new ↦ elim s.checkpoint_file_id [
    | none ↦ none
    | some prev ↦ if is_empty new then none else if prev == new then none else some prev
  ]
]

pub record StatusReply : Type 0 where
  pub replaced : Option String
  pub applied : Bool

applies_to : Option ℕ → Option Session → Bool
applies_to turn none = false
applies_to turn (some s) = turn_applies turn s

unfoldable pub set_session_status : Db → String → Status → Extras → Option ℕ → ℕ → Db × StatusReply
unfolding turn_applies apply_status replaced_checkpoint applies_to
set_session_status db id status extras turn now =
    let row = get_session db id in
    let applied = applies_to turn row in
    (
      record db {
        sessions =
            update_row session_key id
              (λ s. if turn_applies turn s then apply_status status extras now s else s)
              db.sessions;
      },
      record {
        replaced = if applied then replaced_checkpoint extras row else none;
        applied = applied;
      },
    )

-- Most callers give neither extras nor a turn.
abbrev pub mark : Db → String → Status → ℕ → Db
mark db id status now = (set_session_status db id status no_extras none now).0

pub data TurnError : Type 0 where
  session_not_found : TurnError
  not_resumable : Status → TurnError

pub record Turn : Type 0 where
  pub turn : ℕ
  pub config : Option AgentVersion
  pub sdk_session_id : Option String
  pub checkpoint_file_id : Option String

pub data TurnResult : Type 0 where
  started : Turn → Db → TurnResult
  refused : TurnError → TurnResult

next_turn : Session → Session
next_turn s = record s { turns = s.turns + 1; status = Status.queued }

-- `startTurn` reads the row and updates it in two statements. `begin_turn` is the update, given the
-- row that was read; `start_turn` runs both with nothing in between.
begin_turn : Db → String → Option Session → TurnResult
begin_turn db id none = refused session_not_found
begin_turn db id (some s) =
    if is_resumable s.status
    then started
        (record {
          turn = s.turns + 1;
          config = get_agent_version db s.agent_id s.agent_version;
          sdk_session_id = s.sdk_session_id;
          checkpoint_file_id = s.checkpoint_file_id;
        })
        (record db { sessions = update_row session_key id next_turn db.sessions })
    else refused (not_resumable s.status)

unfoldable pub start_turn : Db → String → TurnResult
unfolding begin_turn next_turn
start_turn db id = begin_turn db id (get_session db id)

abbrev pub is_child_of : String → Session → Bool
is_child_of parent s = elim s.parent_session_id [ none ↦ false | some p ↦ p == parent ]

unfoldable pub list_child_sessions : Db → String → List Session
list_child_sessions db parent = filter (λ s. is_child_of parent s && in_flight s.status) db.sessions

pub record ChildCounts : Type 0 where
  pub total : ℕ
  pub in_flight : ℕ

unfoldable pub child_session_counts : Db → String → ChildCounts
child_session_counts db parent = record {
  total = length (filter (is_child_of parent) db.sessions);
  in_flight = length (filter (λ s. is_child_of parent s && in_flight s.status) db.sessions);
}
