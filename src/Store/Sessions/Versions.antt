-- ===== src/Store/Sessions/Versions.antt =====
-- The versions of agents: `createAgent`, `addVersion`, `newAgentVersion`, and which version of an
-- agent is its newest.
use devproofai.Base.{
  ℕ, ◌+◌, ◌≤◌, String, ◌≡◌, refl, ◌∙◌, Bool, true, false, List, [], ◌∷◌, Option, none, some, arith,
  ◌==◌, if◌then◌else◌, leb, max, inl, inr, Bool-cases, eq_refl,
}
use devproofai.Store.Rows.{AgentStatus, AgentVersion, SubagentRef, WikiRef, Db}
use devproofai.Store.Sessions.{latest_version, newest}

-- `AgentConfig`, as far as a version keeps it.
pub record AgentConfig : Type 0 where
  pub routing : String
  pub environment_id : Option String
  pub subagents : List SubagentRef
  pub wiki_refs : List WikiRef

-- COALESCE(MAX(version), 0)
unfoldable pub max_version : String → List AgentVersion → ℕ
max_version agent [] = 0
max_version agent (v ∷ vs) =
    let rest = max_version agent vs in if v.agent_id == agent then max v.version rest else rest

unfoldable pub add_version : Db → String → ℕ → AgentConfig → Db
add_version db agent n c = record db {
  versions =
      record {
        agent_id = agent;
        version = n;
        routing = c.routing;
        environment_id = c.environment_id;
        subagents = c.subagents;
        wiki_refs = c.wiki_refs;
      }
      ∷ db.versions;
}

-- `id` is the identifier that is drawn.
unfoldable pub create_agent : Db → String → String → String → AgentConfig → Db
unfolding add_version
create_agent db workspace id name c =
    add_version
      (record db {
        agents =
            record { id = id; workspace_id = workspace; name = name; status = AgentStatus.active }
            ∷ db.agents;
      })
      id 1 c

unfoldable pub new_agent_version : Db → String → AgentConfig → Db
unfolding add_version max_version
new_agent_version db agent c = add_version db agent (max_version agent db.versions + 1) c

-- The first row read, of an agent or of another.
newest-first :
    (agent : String) (v : AgentVersion) (vs : List AgentVersion) (own b : Bool)
    → own ≡ b
    → newest (if own then some v else none) agent vs ≡ newest (if b then some v else none) agent vs
newest-first agent v vs own b h = rw h refl

pub latest_version-other :
    (db : Db) (agent other : String) (n : ℕ) (c : AgentConfig)
    → (agent == other) ≡ false
    → latest_version (add_version db agent n c) other ≡ latest_version db other
unfolding latest_version newest add_version
latest_version-other db agent other n c h =
    newest-first other _ db.versions (agent == other) false h

newest-stays :
    (agent : String) (b : AgentVersion) (vs : List AgentVersion)
    → max_version agent vs ≤ b.version
    → newest (some b) agent vs ≡ some b
unfolding newest max_version
newest-stays agent b [] h = refl
newest-stays agent b (v ∷ vs) h = elim (Bool-cases (v.agent_id == agent)) [
  | inr other ↦ rw other (newest-stays agent b vs (lower other))
  | inl own ↦ rw (own, older own) (newest-stays agent b vs (below own))
]
  where
    lower : (v.agent_id == agent) ≡ false → max_version agent vs ≤ b.version
    lower o = ground (arith, h, o)

    below : (v.agent_id == agent) ≡ true → max_version agent vs ≤ b.version
    below o = ground (arith, h, o)

    older : (v.agent_id == agent) ≡ true → leb v.version b.version ≡ true
    older o = ground (arith, h, o)

pub latest_version-added :
    (db : Db) (agent : String) (n : ℕ) (c : AgentConfig)
    → max_version agent db.versions ≤ n
    → (v : AgentVersion) × (latest_version (add_version db agent n c) agent ≡ some v)
      × (v.wiki_refs ≡ c.wiki_refs)
unfolding latest_version newest add_version
latest_version-added db agent n c h = (
  _,
  newest-first agent _ db.versions (agent == agent) true (eq_refl agent)
      ∙ newest-stays agent _ db.versions h,
  refl,
)
