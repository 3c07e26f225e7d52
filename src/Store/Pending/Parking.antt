-- ===== src/Store/Pending/Parking.antt =====
-- Parking and un-parking: which sessions wait in a writer's queue.
use devproofai.Base.{
  ℕ, String, ◌≡◌, ◌≢◌, refl, ap, ◌∙◌, sym, subst, Bool, true, false, List, [], ◌∷◌, Option, none,
  some, arith, ◌==◌, if◌then◌else◌, any, any-append, find_row, update_row, delete_row, eq_iff,
  Bool-cases, inl, inr, is_some,
}
use devproofai.Store.Rows.{PendingRow, Launch, Db, pending_key}
use devproofai.Store.Pending.{
  is_parked_writer, add_pending_launch, parked_row, holds_slot, oldest, writer_key,
  take_next_writer_launch, take_pending_launch, claim,
}

-- Dropping the row of one session un-parks that session and no other.
pub is_parked_writer-delete_row :
    (rows : List PendingRow) (k id : String)
    → is_parked_writer (delete_row pending_key k rows) id
      ≡ (if k == id then false else is_parked_writer rows id)
is_parked_writer-delete_row [] k id = ground arith
is_parked_writer-delete_row (p ∷ rows) k id = ground (
  arith,
  is_parked_writer-delete_row rows k id,
  eq_iff p.session_id k,
  eq_iff p.session_id id,
  eq_iff k id,
)

-- Parking one session leaves the others as they were.
pub is_parked_writer-add_pending :
    (db : Db) (id model : String) (p : Launch) (now : ℕ) (j : String)
    → id ≢ j
    → is_parked_writer (add_pending_launch db id model p now).pending j
      ≡ is_parked_writer db.pending j
unfolding add_pending_launch parked_row
is_parked_writer-add_pending db id model p now j ne =
    elim (Bool-cases (is_some (find_row pending_key id db.pending))) [
      | inl there ↦ rw there (rows_updated db.pending)
      | inr new ↦ rw new (any-append _ db.pending _ ∙ ground (arith, eq_iff id j))
    ]
  where
    rows_updated :
        (rows : List PendingRow)
        → is_parked_writer (update_row pending_key id (λ q. parked_row id model p now) rows) j
          ≡ is_parked_writer rows j
    rows_updated [] = refl
    rows_updated (r ∷ rows) =
        ground
          (arith, rows_updated rows, eq_iff r.session_id id, eq_iff id j, eq_iff r.session_id j)

-- What `takeNextWriterLaunch` did, if it took a row: no session held the slot, the row was the
-- oldest of the queue, and only its session was un-parked.
pub record Takes (db : Db) (agent : String) (p : PendingRow) (db' : Db) : Type 0 where
  pub free : any (holds_slot db.pending agent) db.sessions ≡ false
  pub first : oldest (writer_key agent) db.pending ≡ some p
  pub dropped : db'.pending ≡ delete_row pending_key p.session_id db.pending
  pub kept : db'.sessions ≡ db.sessions

claimed :
    (db : Db) (p : PendingRow) (db' : Db) (held : Bool) (o : Option PendingRow)
    → (if held then (none, db) else claim db o) ≡ (some p, db')
    → (held ≡ false)
      × (o ≡ some p)
      × (record db { pending = delete_row pending_key p.session_id db.pending } ≡ db')
unfolding claim
claimed db p db' true o e = absurd (none_ne_some (ap (λ (t : Option PendingRow × Db). t.0) e))
  where
    none_ne_some : none ≡ some p → ⊥
    none_ne_some h = cc
claimed db p db' false none e = absurd (none_ne_some (ap (λ (t : Option PendingRow × Db). t.0) e))
  where
    none_ne_some : none ≡ some p → ⊥
    none_ne_some h = cc
claimed db p db' false (some q) e =
    let same : some q ≡ some p = ap (λ (t : Option PendingRow × Db). t.0) e in
    let row : q ≡ p = cc in
    (
      refl,
      same,
      subst
          (λ (r : PendingRow).
            record db { pending = delete_row pending_key r.session_id db.pending } ≡ db')
          row (ap (λ (t : Option PendingRow × Db). t.1) e),
    )

pub take_next_writer_launch-Takes :
    (db : Db) (agent : String) (p : PendingRow) (db' : Db)
    → take_next_writer_launch db agent ≡ (some p, db')
    → Takes db agent p db'
unfolding take_next_writer_launch
take_next_writer_launch-Takes db agent p db' e =
    let (free, first, after) =
      claimed db p db' (any (holds_slot db.pending agent) db.sessions)
        (oldest (writer_key agent) db.pending) e in
    record {
      free = free;
      first = first;
      dropped = ap (λ (d : Db). d.pending) (sym after);
      kept = ap (λ (d : Db). d.sessions) (sym after);
    }

pub sessions-add_pending :
    (db : Db) (id model : String) (p : Launch) (now : ℕ)
    → (add_pending_launch db id model p now).sessions ≡ db.sessions
unfolding add_pending_launch
sessions-add_pending db id model p now = refl

-- Taking one session's launch un-parks it, keeps the others parked, and changes no session.
pub take_pending_launch_lem :
    (db : Db) (id : String)
    → ((take_pending_launch db id).1.sessions ≡ db.sessions)
      × ((j : String)
          → is_parked_writer (take_pending_launch db id).1.pending j
            ≡ (if id == j then false else is_parked_writer db.pending j))
unfolding take_pending_launch
take_pending_launch_lem db id = (refl, is_parked_writer-delete_row db.pending id)
