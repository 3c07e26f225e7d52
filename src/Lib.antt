-- ===== src/Lib.antt =====
-- The control plane of the repository (control-plane/src), which keeps sessions of agents, starts a
-- pod for each turn and stores what the runner in the pod reports.
--
-- The store is a value of the record Db, one list of rows per table; a statement or transaction of
-- repo.ts is one function on it, since PostgreSQL runs it as one step. startTurn is no such step: it
-- reads the session's row and then updates it, and start_turn runs both with nothing in between
-- (begin_turn is the update, given the row that was read). Identifiers and names are
-- texts, times are milliseconds that the caller gives, and absent columns are options.
--
-- Store: repo.ts. Store.Rows has the tables; Store.Sessions has createSession, setSessionStatus,
--   startTurn and the counts over children; Store.Events has appendEvents, listEvents and the reads of
--   the last event; Store.Pending has pending_launches with the writers' queues; Store.Reads has what
--   a launch reads beside; Store.Entries the entries of a wiki.
-- Gate: launch-gate.ts, the decision on a model's phase, the release of parked launches and the sweep.
-- Reconciler: reconciler.ts, the sweep that fails sessions whose pod is gone, with the callback of
--   main.ts that interrupts their children.
-- WriterQueue: writer-queue.ts, the queues of the agents that write to wikis.
-- Actions: session-actions.ts, the routes that create a session, send a message and delegate; the
--   interrupt and status routes of agents-api.ts and interruptChildSessions of subagents.ts.
-- Routing: routing-rules.ts, the check of a posted rule table and the targets it reaches.
-- Agents: validateSubagents of subagents.ts, validateWikiRefs of wiki-refs.ts, and the save of an
--   agent's versions in agents-api.ts and repo.ts (Store.Sessions.Versions, Agents.Saving).
-- Guard: workspace-guard.ts, the read-only guard of disabled workspaces with its cache.
-- Platform: limits.ts, the settings of costs.ts, the hosts of egress.ts, object-key.ts and
--   routing-state.ts with the wakes of wake.ts.
-- Files: the table files of repo.ts with the objects behind it (filestore.ts), and the deletion of a
--   session with its files (session-delete.ts).
-- Maintenance: maintenance.ts. Maintenance.Settings, Maintenance.Cron, Maintenance.Gc (runGc),
--   Maintenance.Expiry (the retention statements of repo.ts) and Maintenance.Run (runMaintenance).
-- Workspaces: workspace-delete.ts, the drain of all tables of a workspace in up to three passes, with
--   what other requests do between the drain and the count of a pass as a parameter.
-- Costs: costs.ts and cost-sampler.ts with the ledger of repo.ts: prices, the span of an accrual, the
--   entries of a tick and of a settlement, the watermarks.
-- Base: lists, tables, tests. Tests: the theorems at concrete stores.
--
-- The session actions call the gate, which parks a launch in the store or starts it; a model that
-- becomes ready, the end of a writer's session and the periodic sweeps release what is parked. The
-- code outside the repository is a parameter: what Kubernetes answers for a model or a job, which
-- launches and stops of a pod throw, which objects cannot be deleted, and which names are time
-- zones. The messages of a refused table or field are the constructors of a fault type.
--
-- All functions are total by recursion on lists, but for the drain of a workspace's table, whose
-- loop runs on fuel, one more than there are rows; each batch deletes at least one of them.
--
-- Sequences of steps are modelled for saves of agents and for accruals. Each of these is one step,
-- since the source serialises it. How the other routes interleave between their statements is not
-- modelled; in particular the gates of a launch read the writer's slot and park in one go.
--
-- Not modelled: failures of the store's statements (an unknown session, a key that a batch carries
-- twice), log lines, notifications and webhooks, the billed total on a session's row, the skills,
-- MCP servers and pod settings of a launch payload, token counts of events. Event payloads are
-- flat objects. Texts compare by code points. A timer is left out where a sweep is modelled.
pub mod Base
pub mod Store
pub mod Gate
pub mod Reconciler
pub mod WriterQueue
pub mod Actions
pub mod Routing
pub mod Agents
pub mod Guard
pub mod Platform
pub mod Files
pub mod Maintenance
pub mod Workspaces
pub mod Costs
pub mod Tests
