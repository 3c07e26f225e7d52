-- ===== src/Reconciler/Interrupts.antt =====
-- What `interruptChildSessions` does to the statuses of sessions.
use mathlib.Core.Option
use devproofai.Base.{
  ℕ, String, ◌≡◌, refl, sym, any-filter, ◌∙◌, Bool, true, false, not, ◌&&◌, ◌||◌, List, [], ◌∷◌,
  Option, none, some, arith, ◌==◌, if◌then◌else◌, any, update_row, Bool-cases, inl, inr,
}
use devproofai.Store.Rows.{Status, Session, SessionEvent, Db, session_key, in_flight}
use devproofai.Store.Sessions.{
  get_session, mark, set_session_status, apply_status, turn_applies, no_extras, list_child_sessions,
  is_child_of,
}
use devproofai.Store.Sessions.Updates.{status_of, status_of-mark}
use devproofai.Store.Events.{append_events, from_runner, wake_up}
use devproofai.Store.Events.Effects.{status_of-append_events, woken_status}
use devproofai.Store.Pending.{take_pending_launch}
use devproofai.Actions.Delegate.{interrupt_child, interrupt_rows, interrupt_child_sessions}

-- A row of the session is in flight.
pub is_live : Db → String → Bool
is_live db j = any (λ r. (r.id == j) && in_flight r.status) db.sessions

-- The session has `p` as its parent.
pub has_parent : Db → String → String → Bool
has_parent db p j = any (λ r. (r.id == j) && is_child_of p r) db.sessions

module _ (f : Session → Session) (k : String) where
  live-update :
      ((r : Session) → (f r).id ≡ r.id)
      → ((r : Session) → in_flight r.status ≡ false → in_flight (f r).status ≡ false)
      → (rows : List Session) (j : String)
      → any (λ r. (r.id == j) && in_flight r.status) rows ≡ false
      → any (λ r. (r.id == j) && in_flight r.status) (update_row session_key k f rows) ≡ false
  live-update same calm [] j h = h
  live-update same calm (r ∷ rows) j h =
      ground (arith, live-update same calm rows j, h, same r, calm r)

  parent-update :
      ((r : Session) → (f r).id ≡ r.id)
      → ((r : Session) → (f r).parent_session_id ≡ r.parent_session_id)
      → (rows : List Session) (p j : String)
      → any (λ r. (r.id == j) && is_child_of p r) (update_row session_key k f rows)
        ≡ any (λ r. (r.id == j) && is_child_of p r) rows
  parent-update same kept [] p j = refl
  parent-update same kept (r ∷ rows) p j = elim (Bool-cases (r.id == k)) [
    | inl hit ↦ rw (hit, same r, kept r, parent-update same kept rows p j) refl
    | inr miss ↦ rw (miss, parent-update same kept rows p j) refl
  ]

-- A store in which no session began to be in flight, and none got another parent.
pub record Calms (db db' : Db) : Type 0 where
  pub live : (j : String) → is_live db j ≡ false → is_live db' j ≡ false
  pub parents : (p j : String) → has_parent db' p j ≡ has_parent db p j

pub Calms-refl : (db : Db) → Calms db db
Calms-refl db = record { live = λ j h. h; parents = λ p j. refl }

pub Calms-trans : (a b c : Db) → Calms a b → Calms b c → Calms a c
Calms-trans a b c h g = record {
  live = λ j e. g.live j (h.live j e);
  parents = λ p j. g.parents p j ∙ h.parents p j;
}

pub mark-Calms :
    (db : Db) (id : String) (st : Status) (now : ℕ)
    → in_flight st ≡ false
    → Calms db (mark db id st now)
unfolding is_live has_parent set_session_status turn_applies apply_status
mark-Calms db id st now off = record {
  live = λ j h. live-update _ id (λ r. refl) (λ r g. off) db.sessions j h;
  parents = λ p j. parent-update _ id (λ r. refl) (λ r. refl) db.sessions p j;
}

pub append-Calms :
    (db : Db) (id : String) (batch : List SessionEvent) (now : ℕ)
    → Calms db (append_events db id batch now).0
unfolding is_live has_parent append_events
append-Calms db id batch now = elim (Bool-cases (any from_runner batch)) [
  | inl runner ↦ rw runner (record {
    live = λ j h. live-update wake_up id same calm db.sessions j h;
    parents = λ p j. parent-update wake_up id same kept db.sessions p j;
  })
  | inr own ↦ rw own (record { live = λ j h. h; parents = λ p j. refl })
]
  where
    same : (r : Session) → (wake_up r).id ≡ r.id
    same r = unfold wake_up in ground arith

    kept : (r : Session) → (wake_up r).parent_session_id ≡ r.parent_session_id
    kept r = unfold wake_up in ground arith

    calm : (r : Session) → in_flight r.status ≡ false → in_flight (wake_up r).status ≡ false
    calm r h = unfold wake_up in ground (arith, h)

pub mark-stops :
    (db : Db) (id : String) (st : Status) (now : ℕ)
    → in_flight st ≡ false
    → is_live (mark db id st now) id ≡ false
unfolding is_live set_session_status turn_applies apply_status
mark-stops db id st now off = stops db.sessions
  where
    stops :
        (rows : List Session)
        → any
            (λ r. (r.id == id) && in_flight r.status)
            (update_row session_key id (λ s. apply_status st no_extras now s) rows)
          ≡ false
    stops [] = refl
    stops (r ∷ rows) = ground (arith, stops rows, off)

abbrev pub as_idle : Option Status → Option Status
as_idle o = Option.map (λ _. Status.idle) o

woken_idle :
    (b c : Bool) (o : Option Status)
    → (if c && b
        then Option.map woken_status (if b then as_idle o else o)
        else if b
        then as_idle o
        else o)
      ≡ (if b then as_idle o else o)
woken_idle b c none = ground arith
woken_idle true true (some st) = refl
woken_idle true false (some st) = refl
woken_idle false true (some st) = refl
woken_idle false false (some st) = refl

any_implied {ℓ} :
    {A : Type ℓ} (p q : A → Bool) (xs : List A)
    → ((a : A) → p a ≡ true → q a ≡ true)
    → any p xs ≡ true
    → any q xs ≡ true
any_implied p q [] f h = h
any_implied p q (x ∷ xs) f h = ground (arith, f x, any_implied p q xs f, h)

-- Interrupting the children of `p` leaves a status, or makes it idle: that of a child of `p` that
-- was in flight.
pub data Interrupted (db : Db) (p j : String) (o : Option Status) : Type 0 where
  left : o ≡ status_of db j → Interrupted db p j o
  idled :
      o ≡ as_idle (status_of db j)
      → is_live db j ≡ true
      → has_parent db p j ≡ true
      → Interrupted db p j o

module _ (stop_throws : String → Bool) (now : ℕ) where
  interrupt_child-Calms : (db : Db) (c : Session) → Calms db (interrupt_child stop_throws now db c)
  unfolding interrupt_child take_pending_launch is_live has_parent
  interrupt_child-Calms db c = elim (Bool-cases (stop_throws c.id)) [
    | inl throws ↦ rw throws (Calms-refl db)
    | inr stops ↦ rw stops (
        Calms-trans db (mark (take_pending_launch db c.id).1 c.id Status.idle now) _
          (Calms-trans db (take_pending_launch db c.id).1
            (mark (take_pending_launch db c.id).1 c.id Status.idle now)
            (record { live = λ j h. h; parents = λ p j. refl })
            (mark-Calms (take_pending_launch db c.id).1 c.id Status.idle now refl))
          (append-Calms (mark (take_pending_launch db c.id).1 c.id Status.idle now) c.id _ now))
  ]

  interrupt_rows-Calms :
      (cs : List Session) (db : Db) → Calms db (interrupt_rows stop_throws now db cs)
  unfolding interrupt_rows
  interrupt_rows-Calms [] db = Calms-refl db
  interrupt_rows-Calms (c ∷ cs) db =
      Calms-trans db (interrupt_child stop_throws now db c) _ (interrupt_child-Calms db c)
        (interrupt_rows-Calms cs (interrupt_child stop_throws now db c))

  pub interrupt_child_sessions-Calms :
      (db : Db) (p : String) → Calms db (interrupt_child_sessions stop_throws now db p)
  unfolding interrupt_child_sessions
  interrupt_child_sessions-Calms db p = interrupt_rows-Calms (list_child_sessions db p) db

  status_of-interrupt_child :
      (db : Db) (c : Session) (j : String)
      → status_of (interrupt_child stop_throws now db c) j ≡ (
          if not (stop_throws c.id) && (c.id == j)
          then as_idle (status_of db j)
          else status_of db j)
  unfolding interrupt_child take_pending_launch get_session
  status_of-interrupt_child db c j = elim (Bool-cases (stop_throws c.id)) [
    | inl throws ↦ rw throws refl
    | inr stops ↦ rw stops (
        status_of-append_events (mark (take_pending_launch db c.id).1 c.id Status.idle now) c.id _
          now j
        ∙ rw (status_of-mark (take_pending_launch db c.id).1 c.id j Status.idle now)
            (woken_idle (c.id == j) _ (status_of db j)))
  ]

  -- The children that a list names and that can be stopped.
  stopped : String → Session → Bool
  stopped j c = not (stop_throws c.id) && (c.id == j)

  idle_once :
      (b c : Bool) (o : Option Status)
      → (if b then as_idle (if c then as_idle o else o) else if c then as_idle o else o)
        ≡ (if c || b then as_idle o else o)
  idle_once b c none = ground arith
  idle_once b c (some st) = ground arith

  status_of-interrupt_rows :
      (cs : List Session) (db : Db) (j : String)
      → status_of (interrupt_rows stop_throws now db cs) j
        ≡ (if any (stopped j) cs then as_idle (status_of db j) else status_of db j)
  unfolding interrupt_rows stopped
  status_of-interrupt_rows [] db j = refl
  status_of-interrupt_rows (c ∷ cs) db j =
      status_of-interrupt_rows cs (interrupt_child stop_throws now db c) j
      ∙ rw (status_of-interrupt_child db c j)
          (idle_once (any (stopped j) cs) (stopped j c) (status_of db j))

  listed :
      (db : Db) (p j : String)
      → any (stopped j) (list_child_sessions db p) ≡ true
      → (is_live db j ≡ true) × (has_parent db p j ≡ true)
  unfolding stopped list_child_sessions is_live has_parent
  listed db p j h = (
    any_implied _ _ db.sessions (λ r e. ground (arith, e)) (sym (any-filter _ _ db.sessions) ∙ h),
    any_implied _ _ db.sessions (λ r e. ground (arith, e)) (sym (any-filter _ _ db.sessions) ∙ h),
  )

  pub status_of-interrupt_child_sessions :
      (db : Db) (p j : String)
      → Interrupted db p j (status_of (interrupt_child_sessions stop_throws now db p) j)
  unfolding interrupt_child_sessions
  status_of-interrupt_child_sessions db p j =
      elim (Bool-cases (any (stopped j) (list_child_sessions db p))) [
        | inl some_stop ↦
            let (live, kin) = listed db p j some_stop in
            idled (status_of-interrupt_rows (list_child_sessions db p) db j ∙ rw some_stop refl)
              live kin
        | inr none_stop ↦
            left (status_of-interrupt_rows (list_child_sessions db p) db j ∙ rw none_stop refl)
      ]
