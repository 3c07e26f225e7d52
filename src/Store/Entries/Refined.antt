-- ===== src/Store/Entries/Refined.antt =====
-- The entries of a wiki as a map from paths to files.
use devproofai.Base.{
  String, ◌≡◌, refl, ◌∙◌, ap, true, false, not, ◌||◌, List, [], ◌∷◌, ◌++◌, Option, none, some,
  arith, ◌==◌, if◌then◌else◌, filter, includes, includes-append, is_empty, map, ◌⊎◌, inl, inr,
  Bool-cases, eq_iff, eq_refl,
}
use devproofai.Store.Rows.{EntryRef}
use devproofai.Store.Entries.{
  entry_at, file_of, put_entry, put_entries, replaced, upsert_wiki_entries,
}

-- The map after writes, the last of a path counts, and after deletions.
abbrev pub written : List EntryRef → (String → Option String) → String → Option String
written [] f p = f p
written (e ∷ es) f p = written es (λ q. if e.path == q then some e.file_id else f q) p

abbrev pub without_paths : List String → (String → Option String) → String → Option String
without_paths ps f p = if includes ps p then none else f p

entry_at-put_entry :
    (rows : List EntryRef) (e : EntryRef) (p : String)
    → entry_at p (put_entry rows e) ≡ (if e.path == p then some e.file_id else entry_at p rows)
unfolding entry_at file_of put_entry
entry_at-put_entry [] e p = ground arith
entry_at-put_entry (r ∷ rows) e p =
    ground
      (arith, entry_at-put_entry rows e p, eq_iff r.path e.path, eq_iff r.path p, eq_iff e.path p)

written_ext :
    (es : List EntryRef) (f g : String → Option String)
    → ((q : String) → f q ≡ g q)
    → (p : String) → written es f p ≡ written es g p
written_ext [] f g h p = h p
written_ext (e ∷ es) f g h p = written_ext es _ _ (λ q. rw (h q) refl) p

entry_at-put_entries :
    (rows es : List EntryRef) (p : String)
    → entry_at p (put_entries rows es).0 ≡ written es (λ q. entry_at q rows) p
unfolding put_entries
entry_at-put_entries rows [] p = refl
entry_at-put_entries rows (e ∷ es) p =
    entry_at-put_entries (put_entry rows e) es p
    ∙ written_ext es _ _ (λ q. entry_at-put_entry rows e q) p

entry_at-filter :
    (deletes : List String) (rows : List EntryRef) (p : String)
    → entry_at p (filter (λ r. not (includes deletes r.path)) rows)
      ≡ without_paths deletes (λ q. entry_at q rows) p
unfolding entry_at file_of
entry_at-filter deletes [] p = ground arith
entry_at-filter deletes (r ∷ rows) p = elim (Bool-cases (r.path == p)) [
  | inl same ↦ ground (
    arith,
    same,
    entry_at-filter deletes rows p,
    ap (includes deletes) ((eq_iff r.path p).0 same),
  )
  | inr other ↦ ground (arith, other, entry_at-filter deletes rows p)
]

entry_at-upsert :
    (rows es : List EntryRef) (deletes : List String) (p : String)
    → entry_at p (upsert_wiki_entries rows es deletes).0
      ≡ without_paths deletes (written es (λ q. entry_at q rows)) p
unfolding upsert_wiki_entries
entry_at-upsert rows es deletes p =
    entry_at-filter deletes (put_entries rows es).0 p ∙ rw (entry_at-put_entries rows es p) refl

-- A file that is given back by the deletions.
deleted-includes :
    (deletes : List String) (rows : List EntryRef) (p f : String)
    → entry_at p rows ≡ some f
    → includes deletes p ≡ true
    → includes (map (λ r. r.file_id) (filter (λ r. includes deletes r.path) rows)) f ≡ true
unfolding entry_at file_of
deleted-includes deletes [] p f e h = cc
deleted-includes deletes (r ∷ rows) p f e h = elim (Bool-cases (r.path == p)) [
  | inl same ↦ here same
  | inr other ↦ ground (arith, e, other, deleted-includes deletes rows p f, h)
]
  where
    some_injective : {x y : String} → some x ≡ some y → x ≡ y
    some_injective e = cc

    here :
        (r.path == p) ≡ true
        → includes (map (λ r. r.file_id) (filter (λ r. includes deletes r.path) (r ∷ rows))) f
          ≡ true
    here same =
        rw (ap (includes deletes) ((eq_iff r.path p).0 same) ∙ h)
          (ground (arith, eq_iff r.file_id f, some_injective (rw same at e)))

put-includes :
    (rows es : List EntryRef) (p f : String)
    → is_empty f ≡ false
    → entry_at p rows ≡ some f
    → (entry_at p (put_entries rows es).0 ≡ some f) ⊎ (includes (put_entries rows es).1 f ≡ true)
unfolding put_entries
put-includes rows [] p f n h = inl h
put-includes rows (e ∷ es) p f n h = elim (Bool-cases (e.path == p)) [
  | inr other ↦
      more (put-includes (put_entry rows e) es p f n (entry_at-put_entry rows e p ∙ rw other h))
  | inl same ↦ elim (Bool-cases (e.file_id == f)) [
    | inl kept ↦ more (
        put-includes (put_entry rows e) es p f n
          (entry_at-put_entry rows e p ∙ rw same (ap some ((eq_iff e.file_id f).0 kept))))
    | inr gone ↦ inr (
        includes-append (replaced (entry_at e.path rows) e.file_id)
          (put_entries (put_entry rows e) es).1 f
        ∙ first gone (ap (λ q. entry_at q rows) ((eq_iff e.path p).0 same) ∙ h))
  ]
]
  where
    more :
        (entry_at p (put_entries (put_entry rows e) es).0 ≡ some f)
          ⊎ (includes (put_entries (put_entry rows e) es).1 f ≡ true)
        → (entry_at p (put_entries (put_entry rows e) es).0 ≡ some f)
          ⊎ (includes
                (replaced (entry_at e.path rows) e.file_id ++ (put_entries (put_entry rows e) es).1)
                f
              ≡ true)
    more (inl x) = inl x
    more (inr x) = inr (
        includes-append (replaced (entry_at e.path rows) e.file_id)
          (put_entries (put_entry rows e) es).1 f
        ∙ ground (arith, x))

    first :
        (e.file_id == f) ≡ false
        → entry_at e.path rows ≡ some f
        → (includes (replaced (entry_at e.path rows) e.file_id) f
            || includes (put_entries (put_entry rows e) es).1 f)
          ≡ true
    first gone at = rw at (
        unfold replaced in
        ground (arith, n, gone, eq_iff e.file_id f, eq_iff f e.file_id, eq_refl f))

upsert-includes :
    (rows es : List EntryRef) (deletes : List String) (p f : String)
    → is_empty f ≡ false
    → entry_at p rows ≡ some f
    → (entry_at p (upsert_wiki_entries rows es deletes).0 ≡ some f)
      ⊎ (includes (upsert_wiki_entries rows es deletes).1 f ≡ true)
unfolding upsert_wiki_entries
upsert-includes rows es deletes p f n h = elim (put-includes rows es p f n h) [
  | inr given ↦ inr (split ∙ ground (arith, given))
  | inl kept ↦ elim (Bool-cases (includes deletes p)) [
    | inl off ↦
        inr (split ∙ ground (arith, deleted-includes deletes (put_entries rows es).0 p f kept off))
    | inr on ↦ inl (entry_at-filter deletes (put_entries rows es).0 p ∙ rw on kept)
  ]
]
  where
    split :
        includes
          ((put_entries rows es).1
            ++ map (λ r. r.file_id) (filter (λ r. includes deletes r.path) (put_entries rows es).0))
          f
        ≡ (includes (put_entries rows es).1 f
            || includes
                (map
                  (λ r. r.file_id)
                  (filter (λ r. includes deletes r.path) (put_entries rows es).0))
                f)
    split = includes-append _ _ f

-- The rows are the map that the update describes, and no file is lost.
pub record IsUpdated (rows es : List EntryRef) (deletes : List String)
    (after : List EntryRef × List String) : Type 0 where
  pub entries :
      (p : String)
      → entry_at p after.0 ≡ without_paths deletes (written es (λ q. entry_at q rows)) p
  pub given_back :
      (p f : String)
      → is_empty f ≡ false
      → entry_at p rows ≡ some f
      → (entry_at p after.0 ≡ some f) ⊎ (includes after.1 f ≡ true)

-- An update implements its description on maps from paths to files: of the writes to a path the
-- last one counts, and the deleted paths have no file; and each file that a path named before the
-- update and does not name after it is among those given back.
pub upsert_wiki_entries-IsUpdated :
    (rows es : List EntryRef) (deletes : List String)
    → IsUpdated rows es deletes (upsert_wiki_entries rows es deletes)
upsert_wiki_entries-IsUpdated rows es deletes = record {
  entries = entry_at-upsert rows es deletes;
  given_back = upsert-includes rows es deletes;
}
