-- ===== src/Agents/Saving/Writers.antt =====
-- Which agents of a workspace write to a wiki, and what a save of one agent changes of it.
use devproofai.Base.{
  ℕ, ◌≤◌, String, ◌≡◌, refl, ◌∙◌, sym, ap, subst, Bool, true, false, not, ◌&&◌, List, [], ◌∷◌, none,
  arith, ◌==◌, any, find?, is_some, All, inl, inr, Bool-cases, eq_iff,
}
use devproofai.Store.Rows.{Agent, WikiRef, is_write, Db}
use devproofai.Store.Sessions.{latest_version}
use devproofai.Store.Sessions.Versions.{AgentConfig, max_version, add_version, latest_version-added}
use devproofai.Routing.Values.{Items, missing, no_array, items}
use devproofai.Agents.WikiRefs.{
  PostedRef, writes_to, refs_of, wiki_writer_agent, validate_wiki_refs,
}
use devproofai.Agents.WikiRefs.Accepted.{IsSoleWriter, validate_wiki_refs_lem}
use devproofai.Agents.Saving.{stored_refs, refs_in}

module _ (ws : String) where
  -- The agent is in the workspace, and its newest version writes to the wiki.
  unfoldable pub is_writer : Db → String → String → Bool
  unfolding refs_of
  is_writer db wiki id =
      any (λ a. (a.workspace_id == ws) && (a.id == id)) db.agents
      && writes_to wiki (refs_of (latest_version db id))

  -- No two agents write to one wiki, and no agent has the empty id.
  pub record IsSole (db : Db) : Type 0 where
    pub single :
        (wiki x y : String) → is_writer db wiki x ≡ true → is_writer db wiki y ≡ true → x ≡ y
    pub named : any (λ a. a.id == "") db.agents ≡ false

  -- What the search for another writer rules out.
  found-none :
      (except : String) (w : String → Bool) (agents : List Agent) (x : String)
      → is_some (find? (λ a. (a.workspace_id == ws) && w a.id && not (a.id == except)) agents)
        ≡ false
      → (x == except) ≡ false
      → (any (λ a. (a.workspace_id == ws) && (a.id == x)) agents && w x) ≡ false
  found-none except w [] x h n = refl
  found-none except w (a ∷ agents) x h n = elim (Bool-cases (a.id == x)) [
    | inr other ↦ ground (arith, h, n, other, found-none except w agents x)
    | inl same ↦ ground (
      arith,
      h,
      n,
      found-none except w agents x,
      ap w ((eq_iff a.id x).0 same),
      ap (λ y. y == except) ((eq_iff a.id x).0 same),
    )
  ]

  -- What a search without a result says of the other agents.
  sole_writer :
      (db : Db) (except wiki x : String)
      → is_some (wiki_writer_agent db ws wiki except) ≡ false
      → (x == except) ≡ false
      → is_writer db wiki x ≡ false
  unfolding wiki_writer_agent is_writer
  sole_writer db except wiki x h n =
      found-none except (λ id. writes_to wiki (refs_of (latest_version db id))) db.agents x h n

  -- References that write to a wiki that no other agent writes to.
  pub all_sole :
      (db : Db) (except wiki x : String) (rs : List WikiRef)
      → All (IsSoleWriter db ws except) rs
      → writes_to wiki rs ≡ true
      → (x == except) ≡ false
      → is_writer db wiki x ≡ false
  all_sole db except wiki x [] h w n = elim (clash w) [ ]
    where
      clash : false ≡ true → ⊥
      clash e = cc
  all_sole db except wiki x (r ∷ rs) (k, h) w n =
      elim (Bool-cases ((r.wiki_id == wiki) && is_write r.mode)) [
        | inr other ↦ all_sole db except wiki x rs h (ground (arith, w, other)) n
        | inl here ↦ sole_writer db except wiki x (none_found here) n
      ]
    where
      none_found :
          ((r.wiki_id == wiki) && is_write r.mode) ≡ true
          → is_some (wiki_writer_agent db ws wiki except) ≡ false
      none_found t =
          subst (λ i. is_some (wiki_writer_agent db ws i except) ≡ false) {x = r.wiki_id} {y = wiki}
            (ground (arith, t, eq_iff r.wiki_id wiki)) (ground (arith, t, k))

  -- A change of one agent alone, after which it writes only where no other does.
  pub saved-IsSole :
      (db db' : Db) (id : String)
      → ((wiki y : String) → (y == id) ≡ false → is_writer db' wiki y ≡ is_writer db wiki y)
      → ((wiki y : String)
          → is_writer db' wiki id ≡ true
          → (y == id) ≡ false
          → is_writer db wiki y ≡ false)
      → any (λ a. a.id == "") db'.agents ≡ false
      → IsSole db
      → IsSole db'
  saved-IsSole db db' id others own named h = record { single = one; named = named }
    where
      clash : (b : Bool) → b ≡ true → b ≡ false → ⊥
      clash b t f = cc

      apart :
          (wiki y : String)
          → is_writer db' wiki id ≡ true
          → is_writer db' wiki y ≡ true
          → (y == id) ≡ false
          → ⊥
      apart wiki y a b n = clash (is_writer db wiki y) (sym (others wiki y n) ∙ b) (own wiki y a n)

      one : (wiki x y : String) → is_writer db' wiki x ≡ true → is_writer db' wiki y ≡ true → x ≡ y
      one wiki x y a b = elim (Bool-cases (x == id)) [
        | inl at ↦ elim (Bool-cases (y == id)) [
          | inl also ↦ (eq_iff x id).0 at ∙ sym ((eq_iff y id).0 also)
          | inr not_y ↦
              elim (apart wiki y (subst (λ z. is_writer db' wiki z ≡ true) ((eq_iff x id).0 at) a) b
                not_y) [ ]
        ]
        | inr not_x ↦ elim (Bool-cases (y == id)) [
          | inl also ↦
              elim (apart wiki x (subst (λ z. is_writer db' wiki z ≡ true) ((eq_iff y id).0 also) b)
                a not_x) [ ]
          | inr not_y ↦
              h.single wiki x y (sym (others wiki x not_x) ∙ a) (sym (others wiki y not_y) ∙ b)
        ]
      ]

  pub accepted_refs :
      (db : Db) (except : String) (posted : Items PostedRef)
      → validate_wiki_refs db ws except posted ≡ none
      → All (IsSoleWriter db ws except) (stored_refs posted)
  unfolding stored_refs refs_in
  accepted_refs db except missing e = tt
  accepted_refs db except no_array e = tt
  accepted_refs db except (items ps) e =
      let (rs, read, distinct, known, sole) = validate_wiki_refs_lem db ws except ps e in
      rw read sole

  -- The new version decides what its agent writes to.
  pub added-writes :
      (db : Db) (agent wiki : String) (n : ℕ) (c : AgentConfig)
      → max_version agent db.versions ≤ n
      → writes_to wiki (refs_of (latest_version (add_version db agent n c) agent))
        ≡ writes_to wiki c.wiki_refs
  unfolding refs_of
  added-writes db agent wiki n c h =
      let (v, latest, same) = latest_version-added db agent n c h in rw (latest, same) refl

  pub flip : (x y : String) → (x == y) ≡ false → (y == x) ≡ false
  flip x y h = ground (arith, h, eq_iff x y, eq_iff y x)

  pub writer-writes :
      (db : Db) (wiki id : String)
      → is_writer db wiki id ≡ true
      → writes_to wiki (refs_of (latest_version db id)) ≡ true
  unfolding is_writer
  writer-writes db wiki id w =
      second (any (λ a. (a.workspace_id == ws) && (a.id == id)) db.agents)
        (writes_to wiki (refs_of (latest_version db id))) w
    where
      second : (a b : Bool) → (a && b) ≡ true → b ≡ true
      second a b h = ground arith

  pub no_empty-is_writer :
      (db : Db) (wiki : String)
      → any (λ a. a.id == "") db.agents ≡ false
      → is_writer db wiki "" ≡ false
  unfolding is_writer
  no_empty-is_writer db wiki h = rw (none_of db.agents h) refl
    where
      none_of :
          (agents : List Agent)
          → any (λ a. a.id == "") agents ≡ false
          → any (λ a. (a.workspace_id == ws) && (a.id == "")) agents ≡ false
      none_of [] h = refl
      none_of (a ∷ agents) h = ground (arith, h, none_of agents)
