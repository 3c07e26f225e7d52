-- ===== src/Store/Pending.antt =====
-- pending_launches: launches parked for a model, and the queue of each writer agent under the key
-- `wq:<agentId>` (repo.ts).
pub mod Models
pub mod Parked
pub mod Parking
pub mod Queue
use Prim.Native.String
use text.Mathlib.Text.{starts_with}
use devproofai.Base.{
  ℕ, String, Bool, true, false, not, ◌&&◌, List, [], ◌∷◌, ◌++◌, Option, none, some, ◌==◌,
  if◌then◌else◌, ltb, filter, any, map, includes, find_row, update_row, delete_row, is_some,
}
use devproofai.Store.Rows.{Session, PendingRow, Launch, Db, in_flight, pending_key}

abbrev pub writer_key : String → String
writer_key agent = String.◌++◌ "wq:" agent

-- model LIKE 'wq:%'
abbrev pub is_writer_key : String → Bool
is_writer_key model = starts_with model "wq:"

parked_row : String → String → Launch → ℕ → PendingRow
parked_row id model payload now = record {
  session_id = id;
  model = model;
  payload = payload;
  created_at = now;
}

-- ON CONFLICT (session_id) DO UPDATE
unfoldable pub add_pending_launch : Db → String → String → Launch → ℕ → Db
unfolding parked_row
add_pending_launch db id model payload now = record db {
  pending =
      if is_some (find_row pending_key id db.pending)
      then update_row pending_key id (λ p. parked_row id model payload now) db.pending
      else db.pending ++ parked_row id model payload now ∷ [];
}

abbrev pub waits_for : String → PendingRow → Bool
waits_for model p = p.model == model

unfoldable pub take_pending_launches : Db → String → List PendingRow × Db
take_pending_launches db model = (
  filter (waits_for model) db.pending,
  record db { pending = filter (λ p. not (waits_for model p)) db.pending },
)

unfoldable pub take_pending_launch : Db → String → Option PendingRow × Db
take_pending_launch db id = (
  find_row pending_key id db.pending,
  record db { pending = delete_row pending_key id db.pending },
)

-- SELECT DISTINCT
pub distinct : List String → List String
distinct [] = []
distinct (x ∷ xs) = let rest = distinct xs in if includes xs x then rest else x ∷ rest

unfoldable pub list_pending_launch_models : Db → List String
unfolding distinct
list_pending_launch_models db =
    distinct (map (λ p. p.model) (filter (λ p. not (is_writer_key p.model)) db.pending))

-- A `wq:%` row waits for this session.
abbrev pub is_parked_writer : List PendingRow → String → Bool
is_parked_writer rows id = any (λ p. (p.session_id == id) && is_writer_key p.model) rows

-- A session that holds the writer slot of `agent`.
abbrev pub holds_slot : List PendingRow → String → Session → Bool
holds_slot rows agent s =
    (s.agent_id == agent) && in_flight s.status && not (is_parked_writer rows s.id)

unfoldable pub writer_slot_held : Db → String → String → Bool
writer_slot_held db agent except =
    any (λ s. holds_slot db.pending agent s && not (s.id == except)) db.sessions

-- Of two rows of one key, the one that ORDER BY created_at ASC puts first.
older_of : PendingRow → Option PendingRow → PendingRow
older_of p none = p
older_of p (some q) = if ltb q.created_at p.created_at then q else p

-- ORDER BY created_at ASC LIMIT 1, among the rows of one key
pub oldest : String → List PendingRow → Option PendingRow
unfolding older_of
oldest model [] = none
oldest model (p ∷ rows) =
    let rest = oldest model rows in if waits_for model p then some (older_of p rest) else rest

claim : Db → Option PendingRow → Option PendingRow × Db
claim db none = (none, db)
claim db (some p) = (some p, record db { pending = delete_row pending_key p.session_id db.pending })

-- The advisory lock makes the statements one step: the oldest row, if the slot is free.
unfoldable pub take_next_writer_launch : Db → String → Option PendingRow × Db
unfolding oldest claim
take_next_writer_launch db agent =
    if any (holds_slot db.pending agent) db.sessions
    then (none, db)
    else claim db (oldest (writer_key agent) db.pending)

-- substring(model from 4)
drop_prefix : String → String
drop_prefix (String.◌∷◌ a (String.◌∷◌ b (String.◌∷◌ c rest))) = rest
drop_prefix s = String.[]

unfoldable pub list_writer_queue_agents : Db → List String
unfolding distinct drop_prefix
list_writer_queue_agents db =
    distinct (map (λ p. drop_prefix p.model) (filter (λ p. is_writer_key p.model) db.pending))
