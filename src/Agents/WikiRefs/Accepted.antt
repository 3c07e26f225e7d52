-- ===== src/Agents/WikiRefs/Accepted.antt =====
-- What accepted wiki references guarantee.
use devproofai.Base.{
  String, ◌≡◌, refl, ap, sym, subst, Bool, true, false, not, ◌&&◌, List, [], ◌∷◌, Option, none,
  some, arith, ◌==◌, if◌then◌else◌, filter, includes, is_some, All, All-mono, IsDistinct,
  Bool-cases, inl, inr, eq_iff,
}
use devproofai.Store.Rows.{Agent, WikiRef, WikiMode, is_write, Db}
use devproofai.Routing.Values.{items}
use devproofai.Agents.WikiRefs.{
  PostedRef, WikiRefFault, Refs, faulty, refs, cons_ref, read_ref, read_refs, mode_of, id_of,
  ids_of, has_wiki, writers_fault, known_fault, refs_fault, wiki_writer_agent, validate_wiki_refs,
}

refs_injective : {rs qs : List WikiRef} → refs rs ≡ refs qs → rs ≡ qs
refs_injective e = ap (λ r. elim r [ refs x ↦ x | faulty f ↦ [] ]) e

-- A reading that consed a reference read the rest.
cons_ref-refs :
    (r : WikiRef) (o : Refs) (rs : List WikiRef)
    → cons_ref r o ≡ refs rs
    → (qs : List WikiRef) × (o ≡ refs qs) × (rs ≡ r ∷ qs)
unfolding cons_ref
cons_ref-refs r (faulty f) rs e = cc
cons_ref-refs r (refs qs) rs e = (qs, refl, sym (refs_injective e))

absent_from :
    (xs : List String) (id : String) → All (λ x. (x == id) ≡ false) xs → includes xs id ≡ false
absent_from [] id h = refl
absent_from (x ∷ xs) id (e, h) = ground (arith, e, absent_from xs id h, eq_iff x id, eq_iff id x)

abbrev Fresh : List String → List WikiRef → Type 0
Fresh seen rs = All (λ x. includes seen x ≡ false) (ids_of rs) × IsDistinct (ids_of rs)

Fresh-add :
    (seen : List String) (id : String) (mode : WikiMode) (qs : List WikiRef)
    → includes seen id ≡ false
    → Fresh (id ∷ seen) qs
    → Fresh seen (record { wiki_id = id; mode = mode } ∷ qs)
unfolding ids_of
Fresh-add seen id mode qs new (others, distinct) = (
  (new, All-mono _ _ (ids_of qs) (λ x h. ground (arith, h)) others),
  (
    absent_from (ids_of qs) id
        (All-mono _ _ (ids_of qs) (λ x h. ground (arith, h, eq_iff x id, eq_iff id x)) others),
    distinct,
  ),
)

module _ (seen : List String) (ps : List PostedRef)
    (rest : (s : List String) (qs : List WikiRef) → read_refs s ps ≡ refs qs → Fresh s qs) where
  read_ref-Fresh :
      (o : Option String) (m : Option WikiMode) (rs : List WikiRef)
      → read_ref seen o m
          (λ id mode. cons_ref (record { wiki_id = id; mode = mode }) (read_refs (id ∷ seen) ps))
        ≡ refs rs
      → Fresh seen rs
  unfolding read_ref
  read_ref-Fresh none m rs e = cc
  read_ref-Fresh (some id) none rs e = cc
  read_ref-Fresh (some id) (some mode) rs e = elim (Bool-cases (includes seen id)) [
    | inl old ↦ absurd (
        twice (
          subst (λ b. (if b then faulty (WikiRefFault.referenced_twice id) else read) ≡ refs rs) old
            e))
    | inr new ↦
        let (qs, read_rest, same) = cons_ref-refs _ _ rs (
          subst (λ b. (if b then faulty (WikiRefFault.referenced_twice id) else read) ≡ refs rs) new
            e) in
        subst (Fresh seen) (sym same)
          (Fresh-add seen id mode qs new (rest (id ∷ seen) qs read_rest))
  ]
    where
      read : Refs
      read = cons_ref (record { wiki_id = id; mode = mode }) (read_refs (id ∷ seen) ps)

      twice : faulty (WikiRefFault.referenced_twice id) ≡ refs rs → ⊥
      twice h = cc

read_refs-Fresh :
    (seen : List String) (ps : List PostedRef) (rs : List WikiRef)
    → read_refs seen ps ≡ refs rs
    → Fresh seen rs
unfolding read_refs ids_of
read_refs-Fresh seen [] rs e = subst (Fresh seen) (refs_injective e) (tt, tt)
read_refs-Fresh seen (p ∷ ps) rs e =
    read_ref-Fresh seen ps (λ s qs h. read_refs-Fresh s ps qs h) (id_of p.wiki_id) (mode_of p.mode)
      rs e

module _ (db : Db) (workspace except : String) where
  -- No other agent's newest version writes to a wiki that these references write to.
  abbrev pub IsSoleWriter : WikiRef → Type 0
  IsSoleWriter r =
      (is_write r.mode && is_some (wiki_writer_agent db workspace r.wiki_id except)) ≡ false

  split_writer :
      (w : Bool) (o : Option Agent) (f : Agent → WikiRefFault) (rest : Option WikiRefFault)
      → (if w then elim o [ none ↦ rest | some a ↦ some (f a) ] else rest) ≡ none
      → ((w && is_some o) ≡ false) × (rest ≡ none)
  split_writer true none f rest h = (refl, h)
  split_writer true (some a) f rest h = cc
  split_writer false o f rest h = (refl, h)

  writers_fault-All :
      (rs : List WikiRef) → writers_fault db workspace except rs ≡ none → All IsSoleWriter rs
  unfolding writers_fault
  writers_fault-All [] e = tt
  writers_fault-All (r ∷ rs) e =
      let (sole, rest) = split_writer (is_write r.mode) _ _ _ e in (sole, writers_fault-All rs rest)

  known_fault-none :
      (rs : List WikiRef) (ms : List String)
      → known_fault db workspace except rs ms ≡ none
      → (ms ≡ []) × (writers_fault db workspace except rs ≡ none)
  unfolding known_fault
  known_fault-none rs [] e = (refl, e)
  known_fault-none rs (m ∷ ms) e = cc

  filter-nil :
      (p : String → Bool) (xs : List String)
      → filter (λ x. not (p x)) xs ≡ []
      → All (λ x. p x ≡ true) xs
  filter-nil p [] e = tt
  filter-nil p (x ∷ xs) e = elim (Bool-cases (p x)) [
    | inl ok ↦ (ok, filter-nil p xs (ground (arith, e, ok)))
    | inr bad ↦ absurd (kept bad)
  ]
    where
      kept : p x ≡ false → ⊥
      kept bad = ground (arith, e, bad)

  refs_fault-none :
      (o : Refs)
      → refs_fault db workspace except o ≡ none
      → (rs : List WikiRef) × (o ≡ refs rs)
        × All (λ id. has_wiki db workspace id ≡ true) (ids_of rs)
        × All IsSoleWriter rs
  unfolding refs_fault
  refs_fault-none (faulty f) e = cc
  refs_fault-none (refs rs) e =
      let (known, sole) = known_fault-none rs _ e in
      (rs, refl, filter-nil (has_wiki db workspace) (ids_of rs) known, writers_fault-All rs sole)

  -- Accepted references read as a list that names each wiki once, only wikis of the workspace, and
  -- claims to write only to wikis that no other agent's newest version writes to.
  pub validate_wiki_refs_lem :
      (ps : List PostedRef)
      → validate_wiki_refs db workspace except (items ps) ≡ none
      → (rs : List WikiRef) × (read_refs [] ps ≡ refs rs)
        × IsDistinct (ids_of rs)
        × All (λ id. has_wiki db workspace id ≡ true) (ids_of rs)
        × All IsSoleWriter rs
  unfolding validate_wiki_refs
  validate_wiki_refs_lem ps e =
      let (rs, read, known, sole) = refs_fault-none (read_refs [] ps) e in
      let (fresh, distinct) = read_refs-Fresh [] ps rs read in (rs, read, distinct, known, sole)
