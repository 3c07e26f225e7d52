-- ===== src/Agents/WikiRefs.antt =====
-- `validateWikiRefs`, `wikiWriterAgent`
pub mod Accepted
use devproofai.Base.{
  ℕ, String, Bool, true, false, not, ◌&&◌, List, [], ◌∷◌, Option, none, some, ◌==◌, if◌then◌else◌,
  any, filter, find?, includes, is_empty, is_some,
}
use devproofai.Store.Rows.{Agent, AgentVersion, WikiRef, WikiMode, is_write, Db}
use devproofai.Store.Sessions.{latest_version}
use devproofai.Routing.Values.{Scalar, text, Items, missing, no_array, items}

pub record PostedRef : Type 0 where
  pub wiki_id : Scalar
  pub mode : Scalar

-- 400 for all but `other_writer`, which is 409.
pub data WikiRefFault : Type 0 where
  refs_array wiki_id_needed bad_mode : WikiRefFault
  referenced_twice : String → WikiRefFault
  unknown_wikis : List String → WikiRefFault
  other_writer : (wiki writer : String) → WikiRefFault

mode_of : Scalar → Option WikiMode
mode_of (text t) =
    if t == "read" then some WikiMode.read else if t == "write" then some WikiMode.write else none
mode_of _ = none

id_of : Scalar → Option String
id_of (text t) = if is_empty t then none else some t
id_of _ = none

-- v.wiki_refs @> [{wikiId, mode: "write"}]
abbrev pub writes_to : String → List WikiRef → Bool
writes_to wiki refs = any (λ r. (r.wiki_id == wiki) && is_write r.mode) refs

unfoldable pub refs_of : Option AgentVersion → List WikiRef
refs_of none = []
refs_of (some v) = v.wiki_refs

-- An agent of the workspace, other than `except`, whose newest version writes to the wiki.
unfoldable pub wiki_writer_agent : Db → String → String → String → Option Agent
unfolding refs_of
wiki_writer_agent db workspace wiki except =
    find?
      (λ a.
        (a.workspace_id == workspace)
        && writes_to wiki (refs_of (latest_version db a.id))
        && not (a.id == except))
      db.agents

unfoldable pub has_wiki : Db → String → String → Bool
has_wiki db workspace id = any (λ w. (w.id == id) && (w.workspace_id == workspace)) db.wikis

-- The refs that were read, or the first fault of the loop.
pub data Refs : Type 0 where
  faulty : WikiRefFault → Refs
  refs : List WikiRef → Refs

cons_ref : WikiRef → Refs → Refs
cons_ref r (faulty f) = faulty f
cons_ref r (refs rs) = refs (r ∷ rs)

unfoldable pub read_ref :
    List String → Option String → Option WikiMode → (String → WikiMode → Refs) → Refs
read_ref seen none mode rest = faulty wiki_id_needed
read_ref seen (some id) none rest = faulty bad_mode
read_ref seen (some id) (some mode) rest =
    if includes seen id then faulty (referenced_twice id) else rest id mode

unfoldable pub read_refs : List String → List PostedRef → Refs
unfolding mode_of id_of cons_ref read_ref
read_refs seen [] = refs []
read_refs seen (p ∷ ps) =
    read_ref seen (id_of p.wiki_id) (mode_of p.mode)
      (λ id mode. cons_ref (record { wiki_id = id; mode = mode }) (read_refs (id ∷ seen) ps))

unfoldable pub ids_of : List WikiRef → List String
ids_of [] = []
ids_of (r ∷ rs) = r.wiki_id ∷ ids_of rs

wiki_name : Db → String → String → String
wiki_name db workspace id =
    elim (find? (λ w. (w.id == id) && (w.workspace_id == workspace)) db.wikis) [
      | none ↦ id
      | some w ↦ w.name
    ]

module _ (db : Db) (workspace except : String) where
  writers_fault : List WikiRef → Option WikiRefFault
  unfolding wiki_name
  writers_fault [] = none
  writers_fault (r ∷ rs) =
      let rest = writers_fault rs in
      if is_write r.mode
      then elim (wiki_writer_agent db workspace r.wiki_id except) [
        | none ↦ rest
        | some a ↦ some (other_writer (wiki_name db workspace r.wiki_id) a.name)
      ]
      else rest

  known_fault : List WikiRef → List String → Option WikiRefFault
  unfolding writers_fault
  known_fault rs [] = writers_fault rs
  known_fault rs (m ∷ ms) = some (unknown_wikis (m ∷ ms))

  refs_fault : Refs → Option WikiRefFault
  unfolding known_fault has_wiki ids_of
  refs_fault (faulty f) = some f
  refs_fault (refs rs) = known_fault rs (filter (λ id. not (has_wiki db workspace id)) (ids_of rs))

  -- `except` is the agent that is saved, or the empty text. `none` is `null`: accepted.
  unfoldable pub validate_wiki_refs : Items PostedRef → Option WikiRefFault
  unfolding refs_fault read_refs
  validate_wiki_refs missing = none
  validate_wiki_refs no_array = some refs_array
  validate_wiki_refs (items ps) = refs_fault (read_refs [] ps)
