-- ===== src/Store/Sessions/Turns.antt =====
-- Turns: what `startTurn` accepts, and that a new turn shuts out reports of the earlier ones.
use devproofai.Base.{
  ℕ, ◌+◌, ◌<◌, String, ◌≡◌, ◌≢◌, refl, ◌∙◌, true, false, Option, none, some, arith, ◌==◌,
  if◌then◌else◌, update_row, find_row-update_row_found, Bool-cases, inl, inr, eq_refl, subst,
  ne→eq_false,
}
use devproofai.Store.Rows.{Status, Session, Db, session_key, is_resumable}
use devproofai.Store.Sessions.{
  get_session, set_session_status, Extras, start_turn, begin_turn, Turn, started, refused,
  TurnError, TurnResult, session_not_found, not_resumable, next_turn,
}
use devproofai.Store.Sessions.Updates.{stale_report_ignored}

turn_rows :
    (db : Db) (id : String) (s : Session)
    → get_session db id ≡ some s
    → (j : String)
    → get_session (record db { sessions = update_row session_key id next_turn db.sessions }) j ≡ (
        if id == j
        then some (record s { turns = s.turns + 1; status = Status.queued })
        else get_session db j)
unfolding get_session next_turn
turn_rows db id s found j =
    find_row-update_row_found session_key next_turn (λ r. refl) id j db.sessions s found

-- What `startTurn` does at a session that is there: it opens turn `turns + 1`, hands out the last
-- checkpoint, and queues the session, exactly if that was idle or failed; no other session changes.
pub data Starts (db : Db) (id : String) (s : Session) : TurnResult → Type 0 where
  accepted :
      (t : Turn) (db' : Db)
      → is_resumable s.status ≡ true
      → t.turn ≡ s.turns + 1
      → t.checkpoint_file_id ≡ s.checkpoint_file_id
      → ((j : String)
          → get_session db' j ≡ (
              if id == j
              then some (record s { turns = s.turns + 1; status = Status.queued })
              else get_session db j))
      → Starts db id s (started t db')
  turned_away : is_resumable s.status ≡ false → Starts db id s (refused (not_resumable s.status))

-- A turn starts exactly when the session is idle or failed: the turn has the next number and
-- the session's checkpoint, and only that session's row changes, to queued with that number. A
-- session in any other status is refused, with its status.
pub start_turn-Starts :
    (db : Db) (id : String) (s : Session)
    → get_session db id ≡ some s
    → Starts db id s (start_turn db id)
unfolding start_turn begin_turn
start_turn-Starts db id s found = elim (Bool-cases (is_resumable s.status)) [
  | inl may ↦ rw (found, begin_turn) (rw may (accepted _ _ may refl refl (turn_rows db id s found)))
  | inr not ↦ rw (found, begin_turn) (rw not (turned_away not))
]

-- After a new turn, a report of any earlier turn is not applied and changes no session.
pub start_turn_shuts_out :
    (db : Db) (id : String) (s : Session) (t : Turn) (db' : Db) (status : Status) (extras : Extras)
    (reported now : ℕ)
    → get_session db id ≡ some s
    → start_turn db id ≡ started t db'
    → reported < t.turn
    → ((set_session_status db' id status extras (some reported) now).1.applied ≡ false)
      × ((j : String)
          → get_session (set_session_status db' id status extras (some reported) now).0 j
            ≡ get_session db' j)
start_turn_shuts_out db id s t db' status extras reported now found opened before =
    ignored (subst (Starts db id s) opened (start_turn-Starts db id s found))
  where
    ignored :
        Starts db id s (started t db')
        → ((set_session_status db' id status extras (some reported) now).1.applied ≡ false)
          × ((j : String)
              → get_session (set_session_status db' id status extras (some reported) now).0 j
                ≡ get_session db' j)
    ignored (accepted _ _ may turn kept rows) =
        let now_at : get_session db' id
            ≡ some (record s { turns = s.turns + 1; status = Status.queued }) =
          rows id ∙ rw (eq_refl id) in
        let (a, b, c) =
          stale_report_ignored db' id status extras now reported now_at (omega arith) in
        (a, c)

-- A turn that was opened changed no other session, and parked or released nothing.
pub start_turn_others :
    (db : Db) (id : String) (t : Turn) (db' : Db)
    → start_turn db id ≡ started t db'
    → ((j : String) → id ≢ j → get_session db' j ≡ get_session db j) × (db'.pending ≡ db.pending)
unfolding start_turn
start_turn_others db id t db' e = at_row (get_session db id) refl e
  where
    same_db : {u : Turn} {d : Db} → started u d ≡ started t db' → d ≡ db'
    same_db h = cc

    at_row :
        (o : Option Session)
        → get_session db id ≡ o
        → begin_turn db id o ≡ started t db'
        → ((j : String) → id ≢ j → get_session db' j ≡ get_session db j)
          × (db'.pending ≡ db.pending)
    at_row none found h = absurd (ne h)
      where
        ne : refused session_not_found ≡ started t db' → ⊥
        ne k = cc
    at_row (some s) found h = elim (Bool-cases (is_resumable s.status)) [
      | inl may ↦
          let d = same_db (rw (may, begin_turn) at h) in
          (
            λ j ne. rw (← d) (turn_rows db id s found j ∙ rw (ne→eq_false id j ne) refl),
            rw (← d) refl,
          )
      | inr not ↦ absurd (refused_ne (rw (not, begin_turn) at h))
    ]
      where
        refused_ne : {r : TurnError} → refused r ≡ started t db' → ⊥
        refused_ne k = cc
