-- ===== src/Store/Events.antt =====
-- The transcript of a session: `stripNul`, `appendEvents`, `listEvents` of repo.ts, and the
-- runner's route that posts events (agents-api.ts). Rows stand in order of insertion.
pub mod Replay
pub mod Cursor
pub mod Effects
use Prim.Native.Char.{code}
use Prim.Native.String
use devproofai.Base.{
  ℕ, zero, suc, ◌+◌, String, Bool, true, false, not, ◌&&◌, ◌||◌, List, [], ◌∷◌, ◌++◌, Option, none,
  some, ◌==◌, if◌then◌else◌, leb, ltb, nat_eq, length, filter, any, map, find?, update_row,
  is_empty, max,
}
use devproofai.Store.Rows.{
  Status, Session, SessionEvent, EventRow, Field, str, Payload, Db, session_key,
}

-- U+0000 is dropped from every text.
strip_text : String → String
strip_text String.[] = String.[]
strip_text (String.◌∷◌ c s) =
    let rest = strip_text s in if nat_eq (code c) 0 then rest else String.◌∷◌ c rest

strip_field : Field → Field
strip_field (str s) = str (strip_text s)
strip_field f = f

strip_nul : Payload → Payload
unfolding strip_text strip_field
strip_nul p = map (λ (k, v). (strip_text k, strip_field v)) p

abbrev pub row_of : String → EventRow → Bool
row_of id r = r.session_id == id

abbrev pub has_uid : String → EventRow → Bool
has_uid u r = elim r.uid [ none ↦ false | some v ↦ v == u ]

seen : List EventRow → String → String → Bool
seen rows id u = any (λ r. row_of id r && has_uid u r) rows

-- `!(e.uid && seen.has(e.uid))`
fresh_uid : List EventRow → String → Option String → Bool
unfolding seen
fresh_uid rows id none = true
fresh_uid rows id (some u) = is_empty u || not (seen rows id u)

pub is_fresh : List EventRow → String → SessionEvent → Bool
unfolding fresh_uid
is_fresh rows id e = fresh_uid rows id e.uid

-- COALESCE(MAX(seq), 0)
unfoldable pub last_seq : List EventRow → String → ℕ
last_seq [] id = 0
last_seq (r ∷ rows) id = let rest = last_seq rows id in if row_of id r then max r.seq rest else rest

pub insert_rows : List SessionEvent → String → ℕ → ℕ → List EventRow
insert_rows [] id seq now = []
insert_rows (e ∷ es) id seq now =
    record {
      session_id = id;
      seq = seq + 1;
      kind = e.kind;
      payload = strip_nul e.payload;
      uid = e.uid;
      created_at = now;
    }
    ∷ insert_rows es id (seq + 1) now

-- Only the runner's own events start a queued session.
pub from_runner : SessionEvent → Bool
from_runner e = not (e.kind == "user") && not (e.kind == "session.waiting")

unfoldable pub wake_up : Session → Session
wake_up s = elim s.status [ Status.queued ↦ record s { status = Status.running } | _ ↦ s ]

unfoldable pub append_events : Db → String → List SessionEvent → ℕ → Db × ℕ
unfolding strip_nul is_fresh last_seq insert_rows from_runner wake_up
append_events db id events now =
    let fresh = filter (is_fresh db.events id) events in
    let seq = last_seq db.events id in
    (
      record db {
        events = db.events ++ insert_rows fresh id seq now;
        sessions =
            if any from_runner events
            then update_row session_key id wake_up db.sessions
            else db.sessions;
      },
      seq + length fresh,
    )

-- One event of the control plane's own, with no uid.
abbrev pub note : Db → String → String → Payload → ℕ → Db
note db id kind payload now =
    (append_events db id (record { kind = kind; payload = payload; uid = none } ∷ []) now).0

-- ORDER BY seq is the order of insertion: `append_events` numbers the rows upwards.
unfoldable pub list_events : Db → String → ℕ → List EventRow
list_events db id after = filter (λ r. row_of id r && ltb after r.seq) db.events

-- The last row of a kind, as ORDER BY seq DESC LIMIT 1 finds it.
last_of : String → String → List EventRow → Option EventRow
last_of id kind [] = none
last_of id kind (r ∷ rows) = elim (last_of id kind rows) [
  | some later ↦ some later
  | none ↦ if row_of id r && (r.kind == kind) then some r else none
]

-- payload->>'name' of a text field
text_field : String → Payload → Option String
text_field name [] = none
text_field name ((k, v) ∷ more) =
    let rest = text_field name more in
    if k == name then elim v [ str s ↦ some s | _ ↦ none ] else rest

text_of_last : Db → String → String → String → Option String
unfolding last_of text_field
text_of_last db id kind name = elim (last_of id kind db.events) [
  | none ↦ none
  | some r ↦ text_field name r.payload
]

unfoldable pub last_agent_message : Db → String → Option String
unfolding text_of_last
last_agent_message db id = text_of_last db id "agent.message" "text"

unfoldable pub last_failure_detail : Db → String → Option String
unfolding text_of_last
last_failure_detail db id = text_of_last db id "session.failed" "error"

later_than : EventRow → Option EventRow → Bool
later_than r none = true
later_than r (some q) = ltb q.seq r.seq

unfoldable pub was_interrupted : Db → String → Bool
unfolding last_of later_than
was_interrupted db id = elim (last_of id "session.interrupted" db.events) [
  | none ↦ false
  | some r ↦ later_than r (last_of id "session.result" db.events)
]
