-- ===== src/Tests/Sessions.antt =====
-- Turns, reports of status, the transcript.
use devproofai.Base.{
  ◌≤◌, String, ◌≡◌, ◌≢◌, refl, true, false, List, [], ◌∷◌, ◌++◌, none, some, arith, ◌==◌, map,
  filter, eq_iff,
}
use devproofai.Store.Rows.{Status, Session, SessionEvent, Db}
use devproofai.Store.Sessions.{
  get_session, set_session_status, start_turn, Turn, get_agent_version, started, Extras,
}
use devproofai.Store.Sessions.Turns.{start_turn_shuts_out}
use devproofai.Store.Events.{append_events, list_events, last_seq, is_fresh}
use devproofai.Store.Events.Replay.{append_events_twice}
use devproofai.Store.Events.Cursor.{list_events-append_events, added}
use devproofai.Tests.Stores.{version, store, session, posted, event}

abbrev running : Session
running = session "s1" Status.running 2 none

abbrev idle : Session
idle = session "s4" Status.idle 1 none

abbrev batch : List SessionEvent
batch = posted "agent.message" "u2" ∷ posted "session.result" "u3" ∷ []

found_running : get_session store "s1" ≡ some running
unfolding get_session
found_running = refl

found_idle : get_session store "s4" ≡ some idle
unfolding get_session
found_idle = refl

abbrev checkpoint : Extras
checkpoint = record { sdk_session_id = some "sdk1"; checkpoint_file_id = some "f1" }

abbrev turn : Turn
turn = record {
  turn = 2;
  config = some version;
  sdk_session_id = none;
  checkpoint_file_id = some "f0";
}

abbrev reopened : Db
reopened = record store {
  sessions =
      session "s1" Status.running 2 none
      ∷ session "s2" Status.queued 0 none
      ∷ session "s3" Status.queued 0 (some "s1")
      ∷ session "s4" Status.queued 2 none
      ∷ [];
}

opened : start_turn store "s4" ≡ started turn reopened
unfolding start_turn get_session get_agent_version
opened = refl

start_turn_shuts_out_example :
    ((set_session_status reopened "s4" Status.idle checkpoint (some 1) 99).1.applied ≡ false)
    × ((j : String)
        → get_session (set_session_status reopened "s4" Status.idle checkpoint (some 1) 99).0 j
          ≡ get_session reopened j)
start_turn_shuts_out_example =
    start_turn_shuts_out store "s4" idle turn reopened Status.idle checkpoint 1 99 found_idle opened
      (omega arith)

abbrev post : Db
post = (append_events store "s1" batch 50).0

abbrev later : Db
later = record post { events = post.events ++ event "s2" 1 "u9" ∷ [] }

named_u2 : ◌≢◌ {A = String} "u2" ""
named_u2 e = let h : ("u2" == "") ≡ true = (eq_iff "u2" "").1 e in cc

named_u3 : ◌≢◌ {A = String} "u3" ""
named_u3 e = let h : ("u3" == "") ≡ true = (eq_iff "u3" "").1 e in cc

append_events_twice_example : (append_events later "s1" batch 60).0.events ≡ later.events
append_events_twice_example =
    append_events_twice store "s1" batch 50 60 (event "s2" 1 "u9" ∷ [])
      (("u2", refl, named_u2), (("u3", refl, named_u3), tt))

cursor_in_range : 1 ≤ last_seq store.events "s1"
unfolding last_seq
cursor_in_range = omega arith

list_events-append_events_example :
    (list_events (append_events store "s1" batch 50).0 "s1" 1
      ≡ list_events store "s1" 1 ++ added store "s1" batch 50)
    × (map (λ r. r.kind) (added store "s1" batch 50)
        ≡ map (λ e. e.kind) (filter (is_fresh store.events "s1") batch))
list_events-append_events_example = list_events-append_events store "s1" batch 50 1 cursor_in_range
