-- ===== src/Actions/Report.antt =====
-- POST /v1/sessions/:id/status of agents-api.ts: the runner reports how its turn ended. The files
-- that the route deletes are listed; the webhooks, the settlement of costs and the release of the
-- writer's slot happen where `applied` holds.
pub mod Stale
use devproofai.Base.{
  ℕ, String, Bool, true, false, not, ◌&&◌, List, [], ◌∷◌, ◌++◌, Option, none, some, if◌then◌else◌,
  is_some, truthy,
}
use devproofai.Store.Rows.{Status, Db, is_final}
use devproofai.Store.Sessions.{set_session_status, Extras, StatusReply}

pub data Reported : Type 0 where
  bad_status : Reported
  reported : (applied : Bool) (reclaimed : List String) → Reported

abbrev pub listed : Option String → List String
listed none = []
listed (some f) = f ∷ []

-- The checkpoint that was replaced, and that of a stale post.
unfoldable pub reclaimed_files : Extras → Option ℕ → StatusReply → List String
reclaimed_files extras turn r =
    listed (truthy r.replaced)
    ++ (if not r.applied && is_some turn then listed (truthy extras.checkpoint_file_id) else [])

report_reply : Extras → Option ℕ → Db × StatusReply → Db × Reported
report_reply extras turn (db, r) = (db, reported r.applied (reclaimed_files extras turn r))

unfoldable pub report_status : Db → String → Status → Extras → Option ℕ → ℕ → Db × Reported
unfolding report_reply
report_status db id status extras turn now =
    if is_final status
    then report_reply extras turn (set_session_status db id status extras turn now)
    else (db, bad_status)
