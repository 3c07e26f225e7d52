-- ===== src/Actions/Delegate/Guards.antt =====
-- What the guards of the delegation routes guarantee.
use devproofai.Base.{
  ℕ, ◌<◌, String, ◌≡◌, ◌≢◌, refl, subst, is_empty, ◌||◌, Bool, true, false, not, Option, none, some,
  arith, truthy, is_some, leb,
}
use devproofai.Store.Rows.{Session, Db, in_flight}
use devproofai.Store.Sessions.{get_session, child_session_counts, ChildCounts}
use devproofai.Store.Reads.{get_workspace}
use devproofai.Gate.{World}
use devproofai.Actions.Reply.{Check}
use devproofai.Actions.Checks.{Judged, passes, refuses, Judged-bind, Judged-mono, Judged-refuse_if}
use devproofai.Actions.Launching.{Cluster}
use devproofai.Actions.Delegate.{
  DelegateRequest, find_parent, check_parent, check_delegate, is_readonly, check_room, configured,
  delegate_to, delegate_checked, delegate_action, spawn_child, is_stale,
}

-- The parent of a delegation: its turn is under way, and it was not started by delegation itself.
pub record IsParent (db : Db) (id : String) (turn : Option ℕ) (s : Session) : Type 0 where
  pub found : get_session db id ≡ some s
  pub current : is_stale turn s ≡ false
  pub moving : in_flight s.status ≡ true
  pub top_level : truthy s.parent_session_id ≡ none

find_parent-Judged : (o : Option Session) → Judged (λ s. o ≡ some s) (find_parent o)
unfolding find_parent
find_parent-Judged none = refuses 404 _
find_parent-Judged (some s) = passes s refl

is_none : (o : Option String) → is_some o ≡ false → o ≡ none
is_none none h = refl
is_none (some x) h = cc

true_of_not : (b : Bool) → not b ≡ false → b ≡ true
true_of_not b h = ground arith

pub check_parent-Judged :
    (db : Db) (id : String) (turn : Option ℕ)
    → Judged (IsParent db id turn) (check_parent db id turn)
unfolding check_parent
check_parent-Judged db id turn =
    Judged-bind _ _ _ _ (find_parent-Judged (get_session db id)) (λ s found.
      Judged-bind _ _ _ _ (Judged-refuse_if (is_stale turn s) _ _) (λ _ current.
        Judged-bind _ _ _ _ (Judged-refuse_if (not (in_flight s.status)) _ _) (λ _ moving.
          Judged-bind _ _ _ _ (Judged-refuse_if (is_some (truthy s.parent_session_id)) _ _)
            (λ _ top. passes s (record {
              found = found;
              current = current;
              moving = true_of_not _ moving;
              top_level = is_none _ top;
            })))))

-- The guards of a delegation to `agent`.
pub record IsAllowed (db : Db) (id : String) (b : DelegateRequest) (s : Session) : Type 0 where
  pub asked : (is_empty b.agent_id || is_empty b.prompt) ≡ false
  pub parent : IsParent db id b.turn s
  pub writable : is_readonly (get_workspace db s.workspace_id) ≡ false
  pub named : configured db s b.agent_id ≡ true

check_delegate-Judged :
    (db : Db) (id : String) (b : DelegateRequest)
    → Judged (IsAllowed db id b) (check_delegate db id b)
unfolding check_delegate
check_delegate-Judged db id b =
    Judged-bind _ _ _ _ (Judged-refuse_if (is_empty b.agent_id || is_empty b.prompt) _ _)
      (λ _ asked. Judged-bind _ _ _ _ (check_parent-Judged db id b.turn) (λ s parent.
        Judged-bind _ _ _ _ (Judged-refuse_if (is_readonly (get_workspace db s.workspace_id)) _ _)
          (λ _ writable.
            Judged-bind _ _ _ _ (Judged-refuse_if (not (configured db s b.agent_id)) _ _)
              (λ _ named. passes s (record {
                asked = asked;
                parent = parent;
                writable = writable;
                named = true_of_not _ named;
              })))))

below : (n m : ℕ) → leb m n ≡ false → n < m
below n m h = ground arith

check_room-Judged :
    (n : ChildCounts) → Judged (λ _. (n.total < 200) × (n.in_flight < 20)) (check_room n)
unfolding check_room
check_room-Judged n = Judged-bind _ _ _ _ (Judged-refuse_if (leb 200 n.total) _ _) (λ _ total.
    Judged-mono _ _ _ (λ _ moving. (below _ _ total, below _ _ moving))
      (Judged-refuse_if (leb 20 n.in_flight) _ _))

module _ (cluster : Cluster) (now : ℕ) where
  spawned :
      (w : World) (s : Session) (id new_id : String) (b : DelegateRequest) (n : ChildCounts)
      (c : Check (Unit {0}))
      → Judged (λ _. (n.total < 200) × (n.in_flight < 20)) c
      → (spawn_child cluster now w s id new_id b c).0 ≢ w
      → (n.total < 200) × (n.in_flight < 20)
  unfolding spawn_child
  spawned w s id new_id b n c (passes u room) changed = room
  spawned w s id new_id b n c (refuses code m) changed = absurd (changed refl)

  delegated :
      (w : World) (id new_id : String) (b : DelegateRequest) (c : Check Session)
      → truthy b.session ≡ none
      → Judged (IsAllowed w.db id b) c
      → (delegate_checked cluster now w id new_id b c).0 ≢ w
      → (s : Session) × IsAllowed w.db id b s
        × ((child_session_counts w.db id).total < 200)
        × ((child_session_counts w.db id).in_flight < 20)
  unfolding delegate_checked delegate_to
  delegated w id new_id b c fresh (passes s may) changed =
      let room =
        spawned w s id new_id b (child_session_counts w.db id)
          (check_room (child_session_counts w.db id))
          (check_room-Judged (child_session_counts w.db id))
          (subst (λ x. (delegate_to cluster now w s id new_id b x).0 ≢ w) fresh changed) in
      (s, may, room.0, room.1)
  delegated w id new_id b c fresh (refuses code m) changed = absurd (changed refl)

  -- A delegation that names no child changes the store or starts a pod only if it names an agent and
  -- a prompt, and only for a session that is there, has not moved past the reported turn, is queued or running and was not itself started by
  -- delegation, in a workspace that is not read-only, for an agent that the session's version
  -- lists, and only while the session has fewer than 200 children, fewer than 20 of them in flight.
  pub delegate_action-IsAllowed :
      (w : World) (id new_id : String) (b : DelegateRequest)
      → truthy b.session ≡ none
      → (delegate_action cluster now w id new_id b).0 ≢ w
      → (s : Session) × IsAllowed w.db id b s
        × ((child_session_counts w.db id).total < 200)
        × ((child_session_counts w.db id).in_flight < 20)
  unfolding delegate_action
  delegate_action-IsAllowed w id new_id b fresh changed =
      delegated w id new_id b (check_delegate w.db id b) fresh (check_delegate-Judged w.db id b)
        changed
