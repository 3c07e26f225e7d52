-- ===== src/Tests/Checks.antt =====
-- Posted rule tables and wiki references, and requests to a disabled workspace.
use devproofai.Base.{
  arith, ℕ, ◌≤◌, String, ◌≡◌, refl, Bool, true, List, [], ◌∷◌, Option, none, some, All, IsDistinct,
  length, if◌then◌else◌, ltb,
}
use devproofai.Store.Rows.{Db, WikiRef}
use devproofai.Store.Sessions.{latest_version}
use devproofai.Routing.Values.{is_clock, text, number, whole, Items, items}
use devproofai.Routing.Conditions.{Condition, TargetCtx, knows, condition_error}
use devproofai.Routing.Rules.{RoutingSpec, route, validate_routing}
use devproofai.Routing.Targets.{reachable_targets, rules_of}
use devproofai.Routing.Targets.Known.{validate_routing_lem}
use devproofai.Agents.WikiRefs.{
  PostedRef, refs, read_refs, read_ref, wiki_writer_agent, ids_of, has_wiki, validate_wiki_refs,
}
use devproofai.Agents.WikiRefs.Accepted.{validate_wiki_refs_lem, IsSoleWriter}
use devproofai.Guard.{Request, CacheEntry, console_rules, checked_workspace, workspace_guard}
use devproofai.Guard.Staleness.{IsHonest, IsRecent, workspace_guard-IsRecent}
use devproofai.Tests.Stores.{store}

abbrev ctx : TargetCtx
ctx = record { local_names = "qwen" ∷ []; external_names = "claude" ∷ [] }

abbrev any_zone : String → Bool
any_zone z = true

abbrev table : RoutingSpec
table = record {
  rules = items (
      record {
        target = text "claude";
        conditions = items (
            Condition.context (text ">") (number (whole 32000))
            ∷ Condition.time Items.missing (text "08:00") (text "17:30") (text "UTC")
            ∷ []);
      }
      ∷ []);
  terminal = route (text "qwen");
}

table_accepted : validate_routing any_zone ctx table ≡ none
unfolding validate_routing condition_error is_clock
table_accepted = refl

validate_routing_lem_example :
    (length (rules_of table.rules) ≤ 50) × All (λ t. knows ctx t ≡ true) (reachable_targets table)
validate_routing_lem_example = validate_routing_lem any_zone ctx table table_accepted

-- A wiki that only the saved agent writes to.
abbrev wiki_store : Db
wiki_store = record store {
  wikis = record { id = "wiki1"; workspace_id = "w1"; name = "Notes"; entries = [] } ∷ [];
}

abbrev posted_refs : List PostedRef
posted_refs = record { wiki_id = text "wiki1"; mode = text "write" } ∷ []

refs_accepted : validate_wiki_refs wiki_store "w1" "writer" (items posted_refs) ≡ none
unfolding validate_wiki_refs read_refs read_ref ids_of has_wiki wiki_writer_agent latest_version
refs_accepted = refl

validate_wiki_refs_lem_example :
    (rs : List WikiRef) × (read_refs [] posted_refs ≡ refs rs)
    × IsDistinct (ids_of rs)
    × All (λ id. has_wiki wiki_store "w1" id ≡ true) (ids_of rs)
    × All (IsSoleWriter wiki_store "w1" "writer") rs
validate_wiki_refs_lem_example =
    validate_wiki_refs_lem wiki_store "w1" "writer" posted_refs refs_accepted

-- The workspace is disabled at time 100; the cache read it at 95.
abbrev status_at : ℕ → String → Option String
status_at t w = if ltb t 100 then some "active" else some "disabled"

abbrev cache : List CacheEntry
cache = record { workspace = "w1"; status = some "active"; expires = 10_095 } ∷ []

abbrev create_request : Request
create_request = record { method = "POST"; url = "/v1/sessions"; workspace = some "w1" }

early : 95 ≤ 200
early = omega arith

cache-IsHonest : IsHonest 10_000 status_at 200 cache
cache-IsHonest = (record { at = 95; was = refl; until = refl; past = early }, tt)

is_checked : checked_workspace console_rules create_request ≡ some "w1"
unfolding checked_workspace
is_checked = refl

workspace_guard-IsRecent_example :
    IsHonest 10_000 status_at 200
      (workspace_guard 10_000 console_rules cache (status_at 200) 200 create_request).0
    × IsRecent 10_000 status_at 200 "w1"
        (workspace_guard 10_000 console_rules cache (status_at 200) 200 create_request).1
workspace_guard-IsRecent_example =
    workspace_guard-IsRecent 10_000 status_at console_rules cache 200 create_request "w1"
      cache-IsHonest is_checked
