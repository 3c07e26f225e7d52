-- ===== src/WriterQueue.antt =====
-- The queue of each writer agent, control-plane/src/writer-queue.ts: an agent that writes a wiki
-- runs one session at a time, and further launches wait under `wq:<agentId>`. Its statements are
-- `writerSlotHeld` and `takeNextWriterLaunch` of repo.ts (module Store.Pending).
pub mod Order
use devproofai.Base.{ℕ, String, List, [], ◌∷◌, ◌++◌, Option, none, some, if◌then◌else◌, is_empty}
use devproofai.Store.Rows.{Status, Launch, PendingRow, Db, str}
use devproofai.Store.Sessions.{mark}
use devproofai.Store.Events.{note}
use devproofai.Store.Pending.{take_next_writer_launch, list_writer_queue_agents}
use devproofai.Store.Reads.{resolve_wiki_mounts}
use devproofai.Gate.{World, ◌<>◌}

-- The wikis of a parked payload are read anew: an earlier writer may have replaced their files.
refresh_wikis : Db → Launch → Launch
refresh_wikis db p =
    if is_empty p.workspace
    then p
    else record p { wikis = resolve_wiki_mounts db p.workspace p.config.wiki_refs }

fail_deferred : Db → String → String → ℕ → Db
fail_deferred db id err now =
    mark (note db id "session.failed" (("error", str ("deferred launch failed: " <> err)) ∷ []) now)
      id Status.failed now

-- `start_error p` is the message that `orchestrator.startSession(p)` throws, if it throws.
module _ (start_error : Launch → Option String) (now : ℕ) where
  start_or_fail : World → String → Launch → Option String → World
  unfolding fail_deferred
  start_or_fail w id p none = record w { started = w.started ++ p ∷ [] }
  start_or_fail w id p (some err) = record w { db = fail_deferred w.db id err now }

  release_next : World → Option PendingRow → Db → World
  unfolding start_or_fail refresh_wikis
  release_next w none db = record w { db = db }
  release_next w (some next) db =
      let p = refresh_wikis db next.payload in
      start_or_fail (record w { db = db }) next.session_id p (start_error p)

  unfoldable pub release_writer_queue : World → String → World
  unfolding release_next
  release_writer_queue w agent =
      let (next, db) = take_next_writer_launch w.db agent in release_next w next db

  release_agents : World → List String → World
  unfolding release_writer_queue
  release_agents w [] = w
  release_agents w (a ∷ agents) = release_agents (release_writer_queue w a) agents

  unfoldable pub sweep_writer_queues : World → World
  unfolding release_agents
  sweep_writer_queues w = release_agents w (list_writer_queue_agents w.db)
