-- ===== src/Agents/Saving/Sole.antt =====
-- At most one agent of a workspace writes to a wiki, over every save.
use devproofai.Base.{
  ◌+◌, ◌≤◌, String, ◌≡◌, refl, ◌∙◌, sym, subst, true, false, ◌&&◌, ◌∷◌, Option, none, some, arith,
  ◌==◌, any, inl, inr, Bool-cases, eq_iff, eq_refl, is_empty,
}
use devproofai.Store.Rows.{AgentStatus, Db}
use devproofai.Store.Sessions.{latest_version}
use devproofai.Store.Sessions.Versions.{
  max_version, add_version, create_agent, new_agent_version, latest_version-other,
}
use devproofai.Agents.WikiRefs.{WikiRefFault, validate_wiki_refs}
use devproofai.Agents.Saving.{
  PostedConfig, refused, no_agent, saved, save_checked, stored_refs, stored_config, save_new_agent,
  save_agent_version,
}
use devproofai.Agents.Saving.Writers.{
  is_writer, IsSole, all_sole, saved-IsSole, accepted_refs, added-writes, flip, writer-writes,
  no_empty-is_writer,
}

module _ (ws : String) where
  version-IsSole :
      (db : Db) (id : String) (c : PostedConfig)
      → validate_wiki_refs db ws id c.wiki_refs ≡ none
      → IsSole ws db
      → IsSole ws (new_agent_version db id (stored_config c))
  unfolding new_agent_version stored_config
  version-IsSole db id c ok h =
      saved-IsSole ws db (add_version db id (max_version id db.versions + 1) (stored_config c)) id
        others own (unfold add_version in h.named) h
    where
      others :
          (wiki y : String)
          → (y == id) ≡ false
          → is_writer ws
              (add_version db id (max_version id db.versions + 1) (stored_config c))
              wiki
              y
            ≡ is_writer ws db wiki y
      others wiki y n =
          unfold is_writer in
          rw
            (latest_version-other db id y (max_version id db.versions + 1) (stored_config c)
              (flip ws y id n))
            (unfold add_version in refl)

      own :
          (wiki y : String)
          → is_writer ws
              (add_version db id (max_version id db.versions + 1) (stored_config c))
              wiki
              id
            ≡ true
          → (y == id) ≡ false
          → is_writer ws db wiki y ≡ false
      own wiki y w n =
          all_sole ws db id wiki y (stored_refs c.wiki_refs) (accepted_refs ws db id c.wiki_refs ok)
            (sym (
                added-writes ws db id wiki (max_version id db.versions + 1) (stored_config c)
                  (omega arith))
              ∙ writer-writes ws
                  (add_version db id (max_version id db.versions + 1) (stored_config c)) wiki id w)
            n

  create-IsSole :
      (db : Db) (id name : String) (c : PostedConfig)
      → is_empty id ≡ false
      → max_version id db.versions ≤ 1
      → validate_wiki_refs db ws "" c.wiki_refs ≡ none
      → IsSole ws db
      → IsSole ws (create_agent db ws id name (stored_config c))
  unfolding create_agent stored_config
  create-IsSole db id name c given fresh ok h =
      saved-IsSole ws db (create_agent db ws id name (stored_config c)) id others own
        (unfold add_version in rw (given) h.named) h
    where
      with_agent : Db
      with_agent = record db {
        agents =
            record { id = id; workspace_id = ws; name = name; status = AgentStatus.active }
            ∷ db.agents;
      }

      latest_same : (y : String) → latest_version with_agent y ≡ latest_version db y
      latest_same y = unfold latest_version in refl

      others :
          (wiki y : String)
          → (y == id) ≡ false
          → is_writer ws (create_agent db ws id name (stored_config c)) wiki y
            ≡ is_writer ws db wiki y
      others wiki y n =
          unfold is_writer in
          rw
            (
              latest_version-other with_agent id y 1 (stored_config c) (flip ws y id n),
              latest_same y,
            )
            (unfold add_version in rw (flip ws y id n) (ground (arith, eq_refl ws)))

      own :
          (wiki y : String)
          → is_writer ws (create_agent db ws id name (stored_config c)) wiki id ≡ true
          → (y == id) ≡ false
          → is_writer ws db wiki y ≡ false
      own wiki y w n = elim (Bool-cases (y == "")) [
        | inl none_named ↦
            subst (λ z. is_writer ws db wiki z ≡ false) (sym ((eq_iff y "").0 none_named))
              (no_empty-is_writer ws db wiki h.named)
        | inr named ↦
            all_sole ws db "" wiki y (stored_refs c.wiki_refs)
              (accepted_refs ws db "" c.wiki_refs ok)
              (sym (added-writes ws with_agent id wiki 1 (stored_config c) fresh)
                ∙ writer-writes ws (create_agent db ws id name (stored_config c)) wiki id w)
              named
      ]

  -- An answer that saved was given by a check without a fault.
  saved_when :
      (fault : Option WikiRefFault) (made db : Db)
      → save_checked fault made ≡ saved db
      → (fault ≡ none) × (made ≡ db)
  unfolding save_checked
  saved_when (some f) made db e = elim (clash e) [ ]
    where
      clash : refused f ≡ saved db → ⊥
      clash e = cc
  saved_when none made db e = (refl, same e)
    where
      same : saved made ≡ saved db → made ≡ db
      same e = cc

  -- The saves of the routes; the identifier of a new agent is not empty and has no versions yet.
  pub data Save (db : Db) : Db → Type 0 where
    creates :
        (id name : String) (c : PostedConfig) (db' : Db)
        → is_empty id ≡ false
        → max_version id db.versions ≤ 1
        → save_new_agent db ws id name c ≡ saved db'
        → Save db db'
    renews :
        (id : String) (c : PostedConfig) (db' : Db)
        → save_agent_version db ws id c ≡ saved db'
        → Save db db'

  pub data Saves (db : Db) : Db → Type 0 where
    start : Saves db db
    more : {db' db'' : Db} → Saves db db' → Save db' db'' → Saves db db''

  Save-IsSole : {db db' : Db} → Save db db' → IsSole ws db → IsSole ws db'
  unfolding save_new_agent save_agent_version
  Save-IsSole {db} (creates id name c db' given fresh e) h =
      let (ok, made) =
        saved_when (validate_wiki_refs db ws "" c.wiki_refs)
          (create_agent db ws id name (stored_config c)) db' e in
      subst (IsSole ws) made (create-IsSole db id name c given fresh ok h)
  Save-IsSole {db} (renews id c db' e) h =
      elim (Bool-cases (any (λ a. (a.id == id) && (a.workspace_id == ws)) db.agents)) [
        | inr absent ↦ elim (clash (rw absent at e)) [ ]
        | inl there ↦
            let (ok, made) =
              saved_when (validate_wiki_refs db ws id c.wiki_refs)
                (new_agent_version db id (stored_config c)) db' (rw there at e) in
            subst (IsSole ws) made (version-IsSole db id c ok h)
      ]
    where
      clash : no_agent ≡ saved db' → ⊥
      clash e = cc

  -- Over every sequence of saves in a workspace, each of a new agent or of a new version, two
  -- agents whose newest versions write to one wiki are the same, if this held at first and no
  -- agent had the empty identifier.
  pub Saves-IsSole : {db db' : Db} → Saves db db' → IsSole ws db → IsSole ws db'
  Saves-IsSole start h = h
  Saves-IsSole (more s t) h = Save-IsSole t (Saves-IsSole s h)
