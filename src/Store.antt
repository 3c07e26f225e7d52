-- ===== src/Store.antt =====
-- The session store, control-plane/src/repo.ts: the tables behind sessions, their events and the
-- launches parked for them, and the statements that read and change these tables.
-- `Rows` has the tables, `Sessions`, `Events`, `Pending` and `Reads` the methods of the class
-- `Repo`; the theorems stand in the children of those.
pub mod Rows
pub mod Sessions
pub mod Events
pub mod Pending
pub mod Reads
pub mod Entries
