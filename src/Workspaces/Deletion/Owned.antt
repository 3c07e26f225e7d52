-- ===== src/Workspaces/Deletion/Owned.antt =====
-- The rows of a workspace in a table with a key and an owner, and the deletion of one of them.
use devproofai.Base.{
  String, ◌≡◌, refl, Bool, false, not, ◌&&◌, List, [], ◌∷◌, arith, ◌==◌, any, filter, map,
}

module _ {ℓ} {A : Type ℓ} (key owner : A → String) (ws : String) where
  -- SELECT id … WHERE workspace_id = ws
  abbrev pub owned : List A → List String
  owned rows = map key (filter (λ r. owner r == ws) rows)

  -- DELETE … WHERE id = id AND workspace_id = ws
  abbrev pub without : String → List A → List A
  without id rows = filter (λ r. not ((key r == id) && (owner r == ws))) rows

  pub owned-without :
      (id : String) (rows : List A)
      → owned (without id rows) ≡ filter (λ x. not (x == id)) (owned rows)
  owned-without id [] = refl
  owned-without id (r ∷ rows) = ground (arith, owned-without id rows)

  -- The same where the deletion does not ask for the owner.
  pub owned-dropped :
      (id : String) (rows : List A)
      → owned (filter (λ r. not (key r == id)) rows) ≡ filter (λ x. not (x == id)) (owned rows)
  owned-dropped id [] = refl
  owned-dropped id (r ∷ rows) = ground (arith, owned-dropped id rows)

  pub owned-absent :
      (id : String) (rows : List A)
      → any (λ r. (key r == id) && (owner r == ws)) rows ≡ false
      → owned rows ≡ filter (λ x. not (x == id)) (owned rows)
  owned-absent id [] h = refl
  owned-absent id (r ∷ rows) h = ground (arith, h, owned-absent id rows)

  -- A change that leaves key and owner.
  pub owned-map :
      (f : A → A) (rows : List A)
      → ((r : A) → key (f r) ≡ key r)
      → ((r : A) → owner (f r) ≡ owner r)
      → owned (map f rows) ≡ owned rows
  owned-map f [] h g = refl
  owned-map f (r ∷ rows) h g = ground (arith, owned-map f rows h g, h r, g r)

  pub owned-filter_none :
      (p : A → Bool) (rows : List A) → owned rows ≡ [] → owned (filter p rows) ≡ []
  owned-filter_none p [] h = refl
  owned-filter_none p (r ∷ rows) h = ground (arith, h, owned-filter_none p rows)
