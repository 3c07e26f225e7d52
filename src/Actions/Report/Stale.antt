-- ===== src/Actions/Report/Stale.antt =====
-- A report that comes too late.
use devproofai.Base.{ℕ, ◌<◌, String, ◌≡◌, refl, true, false, some, truthy}
use devproofai.Store.Rows.{Status, Session, Db, is_final}
use devproofai.Store.Sessions.{get_session, Extras}
use devproofai.Store.Sessions.Updates.{stale_report_ignored}
use devproofai.Actions.Report.{reported, report_status, report_reply, reclaimed_files, listed}

module _ (db : Db) (id : String) (status : Status) (extras : Extras) (n now : ℕ) {s : Session} where
  -- A report of an earlier turn is answered as not applied, its own checkpoint is the one file that
  -- is deleted, if it carries one, and no session changes.
  pub report_status_stale :
      get_session db id ≡ some s
      → is_final status ≡ true
      → n < s.turns
      → ((report_status db id status extras (some n) now).1
          ≡ reported false (listed (truthy extras.checkpoint_file_id)))
        × ((j : String)
            → get_session (report_status db id status extras (some n) now).0 j ≡ get_session db j)
  unfolding report_status reclaimed_files report_reply
  report_status_stale found final late =
      let (off, nothing, same) = stale_report_ignored db id status extras now n found late in
      (rw final (rw (off, nothing) refl), λ j. rw final (same j))
