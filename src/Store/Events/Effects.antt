-- ===== src/Store/Events/Effects.antt =====
-- What a post of events does to the session rows: it starts a queued session, at most.
use mathlib.Core.Option
use devproofai.Base.{
  ℕ, String, ◌≡◌, refl, ap, ◌∙◌, Bool, true, false, ◌&&◌, List, Option, none, some, arith, ◌==◌,
  if◌then◌else◌, any, find_row-update_row, Bool-cases, inl, inr,
}
use devproofai.Store.Rows.{Payload, Status, Session, SessionEvent, Db, session_key, in_flight}
use devproofai.Store.Sessions.{get_session, mark}
use devproofai.Store.Sessions.Updates.{status_of, status_of-mark, pending-mark}
use devproofai.Store.Events.{note, append_events, from_runner, wake_up}

-- A queued session runs; any other status stays.
abbrev pub woken_status : Status → Status
woken_status Status.queued = Status.running
woken_status st = st

wake_up-id : (s : Session) → (wake_up s).id ≡ s.id
unfolding wake_up
wake_up-id s = ground arith

pub agent-wake_up : (s : Session) → (wake_up s).agent_id ≡ s.agent_id
unfolding wake_up
agent-wake_up s = ground arith

pub in_flight-wake_up : (s : Session) → in_flight (wake_up s).status ≡ in_flight s.status
unfolding wake_up
in_flight-wake_up s = ground arith

status-wake_up : (s : Session) → (wake_up s).status ≡ woken_status s.status
unfolding wake_up
status-wake_up s = ground arith

module _ (db : Db) (id : String) (batch : List SessionEvent) (now : ℕ) where
  pub get_session-append_events :
      (j : String)
      → get_session (append_events db id batch now).0 j ≡ (
          if any from_runner batch && (id == j)
          then Option.map wake_up (get_session db j)
          else get_session db j)
  unfolding get_session append_events
  get_session-append_events j = elim (Bool-cases (any from_runner batch)) [
    | inl runner ↦ rw runner (find_row-update_row session_key wake_up wake_up-id id j db.sessions)
    | inr own ↦ rw own refl
  ]

  map-status :
      (b : Bool) (o : Option Session)
      → Option.map (λ s. s.status) (if b then Option.map wake_up o else o) ≡ (
          if b
          then Option.map woken_status (Option.map (λ s. s.status) o)
          else Option.map (λ s. s.status) o)
  map-status true none = refl
  map-status true (some s) = ap some (status-wake_up s)
  map-status false o = refl

  -- A post changes the status of its own session alone, only from queued to running, and only if
  -- an event of the batch is the runner's: not the user's prompt, not a gate's waiting notice.
  pub status_of-append_events :
      (j : String)
      → status_of (append_events db id batch now).0 j ≡ (
          if any from_runner batch && (id == j)
          then Option.map woken_status (status_of db j)
          else status_of db j)
  status_of-append_events j =
      ap (Option.map (λ s. s.status)) (get_session-append_events j)
      ∙ map-status (any from_runner batch && (id == j)) (get_session db j)

  pub pending-append_events : (append_events db id batch now).0.pending ≡ db.pending
  unfolding append_events
  pending-append_events = refl

set_last :
    (b c : Bool) (st : Status) (o : Option Status)
    → (if b
        then Option.map (λ _. st) (if c && b then Option.map woken_status o else o)
        else if c && b
        then Option.map woken_status o
        else o)
      ≡ (if b then Option.map (λ _. st) o else o)
set_last b c st none = ground arith
set_last b c st (some s) = ground arith

module _ (db : Db) (id : String) (batch : List SessionEvent) (st : Status) (now : ℕ) where
  -- An event and then a status: the session ends at that status, and no other changes.
  pub status_of-mark-append_events :
      (j : String)
      → status_of (mark (append_events db id batch now).0 id st now) j
        ≡ (if id == j then Option.map (λ _. st) (status_of db j) else status_of db j)
  status_of-mark-append_events j =
      status_of-mark (append_events db id batch now).0 id j st now
      ∙ rw (status_of-append_events db id batch now j)
          (set_last (id == j) (any from_runner batch) st (status_of db j))

  pub pending-mark-append_events :
      (mark (append_events db id batch now).0 id st now).pending ≡ db.pending
  pending-mark-append_events =
      pending-mark (append_events db id batch now).0 id st now
      ∙ pending-append_events db id batch now

-- A gate's notice that a session waits starts no session.
pub status_of-note_waiting :
    (db : Db) (id : String) (fields : Payload) (now : ℕ) (j : String)
    → status_of (note db id "session.waiting" fields now) j ≡ status_of db j
unfolding from_runner
status_of-note_waiting db id fields now j = status_of-append_events db id _ now j
