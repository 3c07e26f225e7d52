-- ===== src/Tests/Routes.antt =====
-- The gates and the delegation routes.
use devproofai.Base.{◌<◌, ◌≡◌, ◌≢◌, refl, ap, false, [], ◌∷◌, none, some, is_some}
use devproofai.Store.Rows.{Status, Session, Db}
use devproofai.Store.Sessions.{
  get_session, get_agent, get_agent_version, latest_version, create_session, child_session_counts,
  set_session_status,
}
use devproofai.Store.Events.{append_events}
use devproofai.Store.Pending.{writer_slot_held, add_pending_launch}
use devproofai.Store.Reads.{
  get_workspace, get_environment, list_file_records, attach_session_files, has_write_ref,
}
use devproofai.Gate.{World, ModelPhase}
use devproofai.Gate
use devproofai.Actions.Launching.{Cluster, own_files, gated_launch}
use devproofai.Actions.Create.{create_session_action, check_create, record_session, create_payload}
use devproofai.Actions.Delegate.{
  DelegateRequest, check_delegate, delegate_action, delegate_complete_action,
}
use devproofai.Actions.Delegate.Guards.{IsAllowed, delegate_action-IsAllowed}
use devproofai.Actions.Delegate.Complete.{Completes, delegate_complete_action-Completes}
use devproofai.Tests.Stores.{store, world, session, start_error}

abbrev cluster : Cluster
cluster = record {
  model_phase = λ m. some (Gate.local "Ready" (some 32000));
  start_error = start_error;
}

abbrev request : DelegateRequest
request = record {
  turn = some 2;
  agent_id = "writer";
  prompt = "summarise";
  files = [];
  session = none;
}

spawns_child : (delegate_action cluster 99 world "s1" "s9" request).0 ≢ world
unfolding delegate_action get_session check_delegate get_agent_version get_workspace
    child_session_counts create_session_action check_create get_agent latest_version get_environment
    list_file_records own_files create_session record_session attach_session_files append_events
    gated_launch has_write_ref writer_slot_held add_pending_launch create_payload
spawns_child e =
    let h : is_some (get_session (delegate_action cluster 99 world "s1" "s9" request).0.db "s9")
        ≡ false =
      ap (λ (w : World). is_some (get_session w.db "s9")) e in
    cc

delegate_action-IsAllowed_example :
    (s : Session) × IsAllowed store "s1" request s
    × ((child_session_counts store "s1").total < 200)
    × ((child_session_counts store "s1").in_flight < 20)
delegate_action-IsAllowed_example =
    delegate_action-IsAllowed cluster 99 world "s1" "s9" request refl spawns_child

-- A parent with a finished child.
abbrev done_store : Db
done_store = record store {
  sessions = session "s1" Status.running 2 none ∷ session "s6" Status.idle 0 (some "s1") ∷ [];
}

delegate_complete_action-Completes_example :
    Completes done_store "s1" "s6"
      (some 2)
      (delegate_complete_action done_store "s1" "s6" (some 2) 99)
delegate_complete_action-Completes_example =
    delegate_complete_action-Completes done_store "s1" "s6" (some 2) 99

-- The child is locked.
locks_child :
    get_session (delegate_complete_action done_store "s1" "s6" (some 2) 99).0 "s6"
    ≡ some (record (session "s6" Status.completed 0 (some "s1")) { completed_at = some 99 })
unfolding delegate_complete_action get_session set_session_status
locks_child = refl
