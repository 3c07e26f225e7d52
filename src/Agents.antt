-- ===== src/Agents.antt =====
-- The checks of an agent's version before it is stored: `validateSubagents` of
-- control-plane/src/subagents.ts and `validateWikiRefs` of wiki-refs.ts, with `wikiWriterAgent` and
-- `missingWikiIds` of repo.ts. A fault is one of the messages, with the place where the text names it.
pub mod Subagents
pub mod WikiRefs
pub mod Saving
