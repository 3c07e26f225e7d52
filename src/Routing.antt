-- ===== src/Routing.antt =====
-- Routings, control-plane/src/routing-rules.ts: the check of a rule table that a client posts, and
-- the targets that a request through it can land on.
-- A posted table is untyped; the types here keep what the checks can tell apart. A fault is one of
-- the messages, and the number of the rule where the text names it.
pub mod Values
pub mod Conditions
pub mod Rules
pub mod Targets
