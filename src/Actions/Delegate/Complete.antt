-- ===== src/Actions/Delegate/Complete.antt =====
-- Locking a child: `delegateCompleteAction`.
use mathlib.Core.Option
use devproofai.Base.{
  ℕ, String, ◌≡◌, ◌≢◌, refl, ap, ◌∙◌, true, false, Option, none, some, ◌==◌, if◌then◌else◌, inl,
  inr, Bool-cases, eq_iff, subst,
}
use devproofai.Store.Rows.{Status, Session, Db, in_flight, is_completed}
use devproofai.Store.Sessions.{get_session, mark, is_child_of}
use devproofai.Store.Sessions.Updates.{status_of, status_of-mark}
use devproofai.Actions.Reply.{reply, completed, error, Check}
use devproofai.Actions.Checks.{Judged, passes, refuses, Judged-bind, Judged-refuse_if}
use devproofai.Actions.Delegate.{
  Locking, check_complete, complete_checked, delegate_complete_action, find_child,
}
use devproofai.Actions.Delegate.Guards.{IsParent, check_parent-Judged}

-- The session `child` is a child of `id` and no longer in flight, and `id` may delegate.
pub record IsLockable (db : Db) (id child : String) (turn : Option ℕ) (c : Session) : Type 0 where
  pub parent : Session
  pub allowed : IsParent db id turn parent
  pub found : get_session db child ≡ some c
  pub mine : is_child_of id c ≡ true
  pub finished : in_flight c.status ≡ false

find_child-Judged :
    (id : String) (o : Option Session)
    → Judged (λ c. (o ≡ some c) × (is_child_of id c ≡ true)) (find_child id o)
unfolding find_child
find_child-Judged id none = refuses 404 _
find_child-Judged id (some c) = elim (Bool-cases (is_child_of id c)) [
  | inl mine ↦ rw mine (passes c (refl, mine))
  | inr foreign ↦ rw foreign (refuses 404 _)
]

check_complete-Judged :
    (db : Db) (id child : String) (turn : Option ℕ)
    → Judged (IsLockable db id child turn) (check_complete db id child turn)
unfolding check_complete
check_complete-Judged db id child turn =
    Judged-bind _ _ _ _ (check_parent-Judged db id turn) (λ s allowed.
      Judged-bind _ _ _ _ (find_child-Judged id (get_session db child)) (λ c (found, mine).
        Judged-bind _ _ _ _ (Judged-refuse_if (in_flight c.status) _ _) (λ _ finished.
          passes c (record {
            parent = s;
            allowed = allowed;
            found = found;
            mine = mine;
            finished = finished;
          }))))

-- What the route does: it refuses and changes nothing; or `child` is a child of `id` that is
-- completed already, and nothing changes; or it is another child of `id` that is not in flight: it
-- then is completed and said to be locked, and no other session's status changes.
pub data Completes (db : Db) (id child : String) (turn : Option ℕ) : Db × Locking → Type 0 where
  turned_away :
      (code : ℕ) (message : String)
      → Completes db id child turn
          (db, record { reply = reply code (error message); locked = false })
  stays :
      (c : Session)
      → IsLockable db id child turn c
      → c.status ≡ Status.completed
      → Completes db id child turn (db, record { reply = reply 200 completed; locked = false })
  locks :
      (db' : Db) (c : Session)
      → IsLockable db id child turn c
      → c.status ≢ Status.completed
      → ((j : String)
          → status_of db' j ≡ (if child == j then some Status.completed else status_of db j))
      → Completes db id child turn (db', record { reply = reply 200 completed; locked = true })

module _ (db : Db) (id child : String) (turn : Option ℕ) (now : ℕ) where
  now_completed : (st : Status) → is_completed st ≡ true → st ≡ Status.completed
  now_completed Status.completed h = refl
  now_completed Status.queued h = cc
  now_completed Status.running h = cc
  now_completed Status.idle h = cc
  now_completed Status.failed h = cc

  not_completed : (st : Status) → is_completed st ≡ false → st ≢ Status.completed
  not_completed st h e = completed_not (subst (λ x. is_completed x ≡ false) e h)
    where
      completed_not : is_completed Status.completed ≡ false → ⊥
      completed_not h = cc

  child_status : (s : Session) → get_session db child ≡ some s → status_of db child ≡ some s.status
  child_status s found = ap (Option.map (λ s. s.status)) found

  same_at :
      (j : String) (st : Status)
      → status_of db child ≡ some st
      → (child == j) ≡ true
      → status_of db j ≡ some st
  same_at j st is same = subst (λ x. status_of db x ≡ some st) ((eq_iff child j).0 same) is

  marked :
      (s : Session)
      → get_session db child ≡ some s
      → (j : String)
      → status_of (mark db child Status.completed now) j
        ≡ (if child == j then some Status.completed else status_of db j)
  marked s found j =
      status_of-mark db child j Status.completed now ∙ elim (Bool-cases (child == j)) [
        | inl same ↦ rw same (
            ap (Option.map (λ _. Status.completed))
              (same_at j s.status (child_status s found) same))
        | inr other ↦ rw other refl
      ]

  complete_checked-Completes :
      (c : Check Session)
      → Judged (IsLockable db id child turn) c
      → Completes db id child turn (complete_checked db child now c)
  unfolding complete_checked
  complete_checked-Completes c (refuses code message) = turned_away code message
  complete_checked-Completes c (passes s may) = elim (Bool-cases (is_completed s.status)) [
    | inl done ↦ rw done (stays s may (now_completed s.status done))
    | inr live ↦ rw live (locks _ s may (not_completed s.status live) (λ j. marked s may.found j))
  ]

  -- A request to lock a child is refused with an error and changes nothing; or the child is one of
  -- the session's and completed already, and then nothing changes, the answer is that of a
  -- completed child and does not say that it was locked; or the child is one of the session's,
  -- neither in flight nor completed: it then is completed, no other session's status changes, and
  -- the answer says that it was locked.
  pub delegate_complete_action-Completes :
      Completes db id child turn (delegate_complete_action db id child turn now)
  unfolding delegate_complete_action
  delegate_complete_action-Completes =
      complete_checked-Completes (check_complete db id child turn)
        (check_complete-Judged db id child turn)
