-- ===== src/Store/Sessions/Updates.antt =====
-- What a status update and a new turn do to each session row.
use mathlib.Core.Option
use mathlib.Core.Path.{◌∙◌}
use devproofai.Base.{
  ℕ, ◌<◌, String, ◌≡◌, refl, ap, Bool, true, false, Option, none, some, arith, ◌==◌, if◌then◌else◌,
  find_row, find_row-update_row, find_row-update_row_found, eq_iff, leb,
}
use devproofai.Store.Rows.{Status, Session, Db, session_key, is_final, in_flight}
use devproofai.Store.Sessions.{
  get_session, set_session_status, Extras, no_extras, mark, turn_applies, apply_status, applies_to,
}

-- The row's new value, where the update's WHERE clause lets it through.
pub updated : Status → Extras → Option ℕ → ℕ → Session → Session
updated status extras turn now s =
    if turn_applies turn s then apply_status status extras now s else s

updated-id :
    (status : Status) (extras : Extras) (turn : Option ℕ) (now : ℕ) (s : Session)
    → (updated status extras turn now s).id ≡ s.id
unfolding updated turn_applies apply_status
updated-id status extras none now s = refl
updated-id status extras (some t) now s = ground arith

pub get_session-set_session_status :
    (db : Db) (id j : String) (status : Status) (extras : Extras) (turn : Option ℕ) (now : ℕ)
    → get_session (set_session_status db id status extras turn now).0 j ≡ (
        if id == j
        then Option.map (updated status extras turn now) (get_session db j)
        else get_session db j)
unfolding get_session set_session_status updated
get_session-set_session_status db id j status extras turn now =
    find_row-update_row session_key _ (updated-id status extras turn now) id j db.sessions

abbrev pub status_of : Db → String → Option Status
status_of db id = Option.map (λ s. s.status) (get_session db id)

status-updated :
    (b : Bool) (status : Status) (now : ℕ) (o : Option Session)
    → Option.map (λ s. s.status) (if b then Option.map (updated status no_extras none now) o else o)
      ≡ (if b
          then Option.map (λ _. status) (Option.map (λ s. s.status) o)
          else Option.map (λ s. s.status) o)
unfolding updated turn_applies apply_status
status-updated true status now none = refl
status-updated true status now (some s) = refl
status-updated false status now o = refl

module _ (status : Status) (extras : Extras) (turn : Option ℕ) (now : ℕ) (s : Session) where
  pub agent-updated : (updated status extras turn now s).agent_id ≡ s.agent_id
  unfolding updated apply_status
  agent-updated = ground arith

  pub final-updated :
      is_final status ≡ true
      → in_flight (updated status extras turn now s).status ≡ true
      → in_flight s.status ≡ true
  unfolding updated apply_status
  final-updated f m = ground arith

-- An update without a turn sets the status of one session and of no other.
pub status_of-mark :
    (db : Db) (id j : String) (status : Status) (now : ℕ)
    → status_of (mark db id status now) j
      ≡ (if id == j then Option.map (λ _. status) (status_of db j) else status_of db j)
status_of-mark db id j status now =
    ap (Option.map (λ s. s.status))
      (get_session-set_session_status db id j status no_extras none now)
    ∙ status-updated (id == j) status now (get_session db j)

pub pending-mark :
    (db : Db) (id : String) (status : Status) (now : ℕ)
    → (mark db id status now).pending ≡ db.pending
unfolding set_session_status
pending-mark db id status now = refl

module _ (db : Db) (id : String) (status : Status) (extras : Extras) (now reported : ℕ)
    {s : Session} (found : get_session db id ≡ some s) where
  updated_found :
      (j : String)
      → get_session (set_session_status db id status extras (some reported) now).0 j
        ≡ (if id == j then some (updated status extras (some reported) now s) else get_session db j)
  unfolding get_session set_session_status updated
  updated_found j =
      find_row-update_row_found session_key _ (updated-id status extras (some reported) now) id j
        db.sessions s found

  is_later : reported < s.turns → leb s.turns reported ≡ false
  is_later h = ground arith

  back : (j : String) → (if id == j then some s else get_session db j) ≡ get_session db j
  back j = ground (arith, eq_iff id j, found)

  -- A report of an earlier turn than the session's applies to no row: no session changes, and
  -- no checkpoint is given back for deletion.
  pub stale_report_ignored :
      reported < s.turns
      → ((set_session_status db id status extras (some reported) now).1.applied ≡ false)
        × ((set_session_status db id status extras (some reported) now).1.replaced ≡ none)
        × ((j : String)
            → get_session (set_session_status db id status extras (some reported) now).0 j
              ≡ get_session db j)
  unfolding set_session_status applies_to turn_applies updated
  stale_report_ignored h = (
    rw found (ground arith),
    rw found (ground arith),
    λ j. updated_found j ∙ rw (is_later h) (back j),
  )

pub pending-set_session_status :
    (db : Db) (id : String) (status : Status) (extras : Extras) (turn : Option ℕ) (now : ℕ)
    → (set_session_status db id status extras turn now).0.pending ≡ db.pending
unfolding set_session_status
pending-set_session_status db id status extras turn now = refl

pub get_session_congr :
    (d e : Db) (j : String) → d.sessions ≡ e.sessions → get_session d j ≡ get_session e j
unfolding get_session
get_session_congr d e j h = ap (find_row session_key j) h
