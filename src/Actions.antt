-- ===== src/Actions.antt =====
-- The session routes, control-plane/src/session-actions.ts, shared by the console and the public
-- interface: `gatedLaunch`, `createSessionAction`, `sendMessageAction` and the delegation routes.
-- Each is a function of the world that gives its reply; `threw` is an exception of
-- `orchestrator.startSession`, which the routes let through.
pub mod Reply
pub mod Checks
pub mod Launching
pub mod Create
pub mod Message
pub mod Delegate
pub mod Report
