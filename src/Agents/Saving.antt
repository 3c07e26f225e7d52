-- ===== src/Agents/Saving.antt =====
-- The save of an agent's version, POST agents and POST agents/:id/versions of agents-api.ts, with
-- the check of its wiki references: `createAgent`, `newAgentVersion` under the lock of the wikis
-- that the version writes to. The other checks of the routes come before, and change nothing.
pub mod Writers
pub mod Sole
use devproofai.Base.{
  String, Bool, true, false, List, [], ◌∷◌, Option, none, some, if◌then◌else◌, any, ◌==◌, ◌&&◌,
}
use devproofai.Store.Rows.{SubagentRef, WikiRef, Db}
use devproofai.Store.Sessions.Versions.{AgentConfig, create_agent, new_agent_version}
use devproofai.Routing.Values.{Items, missing, no_array, items}
use devproofai.Agents.WikiRefs.{
  PostedRef, WikiRefFault, Refs, refs, faulty, read_refs, validate_wiki_refs,
}

-- The configuration that a client posts.
pub record PostedConfig : Type 0 where
  pub routing : String
  pub environment_id : Option String
  pub subagents : List SubagentRef
  pub wiki_refs : Items PostedRef

refs_in : Refs → List WikiRef
refs_in (faulty f) = []
refs_in (refs rs) = rs

-- `c.wikiRefs ?? []` of references that were accepted.
unfoldable pub stored_refs : Items PostedRef → List WikiRef
unfolding refs_in read_refs
stored_refs missing = []
stored_refs no_array = []
stored_refs (items ps) = refs_in (read_refs [] ps)

unfoldable pub stored_config : PostedConfig → AgentConfig
unfolding stored_refs
stored_config c = record {
  routing = c.routing;
  environment_id = c.environment_id;
  subagents = c.subagents;
  wiki_refs = stored_refs c.wiki_refs;
}

pub data Saved : Type 0 where
  refused : WikiRefFault → Saved
  no_agent : Saved
  saved : Db → Saved

save_checked : Option WikiRefFault → Db → Saved
save_checked (some f) db = refused f
save_checked none db = saved db

-- `id` is the identifier that is drawn.
unfoldable pub save_new_agent : Db → String → String → String → PostedConfig → Saved
unfolding save_checked create_agent stored_config
save_new_agent db ws id name c =
    save_checked (validate_wiki_refs db ws "" c.wiki_refs)
      (create_agent db ws id name (stored_config c))

-- The agent is one of the workspace.
unfoldable pub save_agent_version : Db → String → String → PostedConfig → Saved
unfolding save_checked new_agent_version stored_config
save_agent_version db ws id c =
    if any (λ a. (a.id == id) && (a.workspace_id == ws)) db.agents
    then save_checked (validate_wiki_refs db ws id c.wiki_refs)
        (new_agent_version db id (stored_config c))
    else no_agent
