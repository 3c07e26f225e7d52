-- ===== src/Tests/Agents.antt =====
-- The save of an agent that writes to a wiki, and an update of the wiki's entries.
use devproofai.Base.{String, ◌≡◌, refl, true, false, [], ◌∷◌, some, arith}
use devproofai.Store.Rows.{EntryRef, Db}
use devproofai.Store.Entries.{upsert_wiki_entries}
use devproofai.Store.Entries.Refined.{IsUpdated, upsert_wiki_entries-IsUpdated}
use devproofai.Store.Sessions.Versions.{max_version, create_agent}
use devproofai.Routing.Values.{items, text}
use devproofai.Agents.WikiRefs.{validate_wiki_refs, wiki_writer_agent}
use devproofai.Agents.Saving.{PostedConfig, save_new_agent, stored_config}
use devproofai.Agents.Saving.Writers.{is_writer, IsSole}
use devproofai.Agents.Saving.Sole.{Saves, start, more, creates, Saves-IsSole}
use devproofai.Tests.Stores.{store}

-- No agent yet.
abbrev library : Db
library = record store {
  agents = [];
  versions = [];
  wikis = record { id = "wiki1"; workspace_id = "w1"; name = "Notes"; entries = [] } ∷ [];
}

abbrev config : PostedConfig
config = record {
  routing = "qwen";
  environment_id = some "env1";
  subagents = [];
  wiki_refs = items (record { wiki_id = text "wiki1"; mode = text "write" } ∷ []);
}

abbrev staffed : Db
staffed = create_agent library "w1" "agent1" "Scribe" (stored_config config)

library-IsSole : IsSole "w1" library
unfolding is_writer
library-IsSole = record { single = λ wiki x y a b. elim (clash a) [ ]; named = refl }
  where
    clash : false ≡ true → ⊥
    clash e = cc

staffed-Saves : Saves "w1" library staffed
unfolding save_new_agent validate_wiki_refs max_version wiki_writer_agent
staffed-Saves = more start (creates "agent1" "Scribe" config staffed refl (omega arith) refl)

Saves-IsSole_example : IsSole "w1" staffed
Saves-IsSole_example = Saves-IsSole "w1" staffed-Saves library-IsSole

abbrev entry : String → String → EntryRef
entry path file = record { path = path; file_id = file }

upsert_wiki_entries-IsUpdated_example :
    IsUpdated (entry "a.md" "f1" ∷ entry "b.md" "f2" ∷ []) (entry "a.md" "f3" ∷ []) ("b.md" ∷ []) (
      upsert_wiki_entries
        (entry "a.md" "f1" ∷ entry "b.md" "f2" ∷ [])
        (entry "a.md" "f3" ∷ [])
        ("b.md" ∷ []))
upsert_wiki_entries-IsUpdated_example =
    upsert_wiki_entries-IsUpdated (entry "a.md" "f1" ∷ entry "b.md" "f2" ∷ [])
      (entry "a.md" "f3" ∷ []) ("b.md" ∷ [])
