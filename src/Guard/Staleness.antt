-- ===== src/Guard/Staleness.antt =====
-- How old the status may be that a request is judged by.
use devproofai.Base.{
  ℕ, ◌+◌, ◌≤◌, String, ◌≡◌, refl, ap, ◌∙◌, sym, subst, false, List, [], ◌∷◌, Option, none, some,
  arith, ◌==◌, ltb, All, Bool-cases, inl, inr, eq_iff,
}
use devproofai.Guard.{
  GuardRules, Request, CacheEntry, Answer, verdict, checked_workspace, hit, fresh_entry, judge,
  check_status, workspace_guard,
}

-- `status_at t w` is the status of the workspace at time `t`.
module _ (ttl : ℕ) (status_at : ℕ → String → Option String) where
  -- The entry holds the status that its workspace had one lifetime before it expires.
  pub record IsLookedUp (now : ℕ) (e : CacheEntry) : Type 0 where
    pub at : ℕ
    pub was : e.status ≡ status_at at e.workspace
    pub until : e.expires ≡ at + ttl
    pub past : at ≤ now

  abbrev pub IsHonest : ℕ → List CacheEntry → Type 0
  IsHonest now cache = All (IsLookedUp now) cache

  -- A request is judged by a status that the workspace had at most one lifetime ago.
  pub record IsRecent (now : ℕ) (w : String) (a : Answer) : Type 0 where
    pub at : ℕ
    pub answers : a ≡ verdict (status_at at w)
    pub past : at ≤ now
    pub young : now ≤ at + ttl

  find-All :
      (now : ℕ) (w : String) (cache : List CacheEntry) (e : CacheEntry)
      → IsHonest now cache
      → hit cache w ≡ some e
      → IsLookedUp now e × (e.workspace ≡ w)
  find-All now w [] e h found = cc
  find-All now w (c ∷ cache) e (h, hs) found = elim (Bool-cases (c.workspace == w)) [
    | inl same ↦
        let here : some c ≡ some e = sym (rw same refl) ∙ found in
        at_entry c h here ((eq_iff c.workspace w).0 same)
    | inr far ↦ find-All now w cache e hs (sym (rw far refl) ∙ found)
  ]
    where
      at_entry :
          (c : CacheEntry)
          → IsLookedUp now c
          → some c ≡ some e
          → c.workspace ≡ w
          → IsLookedUp now e × (e.workspace ≡ w)
      at_entry c h same here =
          let eq : c ≡ e = ap (λ o. elim o [ none ↦ c | some x ↦ x ]) same in
          subst (λ x. IsLookedUp now x × (x.workspace ≡ w)) eq (h, here)

  fresh : (now : ℕ) (w : String) → IsLookedUp now (fresh_entry ttl w (status_at now w) now)
  unfolding fresh_entry
  fresh now w = record { at = now; was = refl; until = refl; past = omega arith }

  IsRecent-now : (now : ℕ) (w : String) → IsRecent now w (verdict (status_at now w))
  IsRecent-now now w = record { at = now; answers = refl; past = omega arith; young = omega arith }

  judged :
      (now : ℕ) (w : String) (cache : List CacheEntry) (o : Option CacheEntry)
      → IsHonest now cache
      → hit cache w ≡ o
      → IsHonest now (judge ttl cache w (status_at now w) now o).0
        × IsRecent now w (judge ttl cache w (status_at now w) now o).1
  unfolding judge
  judged now w cache none h found = ((fresh now w, h), IsRecent-now now w)
  judged now w cache (some e) h found = elim (Bool-cases (ltb e.expires now)) [
    | inl expired ↦ rw expired ((fresh now w, h), IsRecent-now now w)
    | inr live ↦
        let (l, here) = find-All now w cache e h found in
        rw live (
          h,
          record {
            at = l.at;
            answers = ap verdict (l.was ∙ ap (status_at l.at) here);
            past = l.past;
            young = until_expiry l.at l.until live;
          },
        )
  ]
    where
      until_expiry : (t : ℕ) → e.expires ≡ t + ttl → ltb e.expires now ≡ false → now ≤ t + ttl
      until_expiry t u live = ground arith

  -- With an honest cache, a request that the rules check is judged by a status that its workspace
  -- had at most one lifetime ago, and the cache stays honest.
  pub workspace_guard-IsRecent :
      (rules : GuardRules) (cache : List CacheEntry) (now : ℕ) (r : Request) (w : String)
      → IsHonest now cache
      → checked_workspace rules r ≡ some w
      → IsHonest now (workspace_guard ttl rules cache (status_at now) now r).0
        × IsRecent now w (workspace_guard ttl rules cache (status_at now) now r).1
  unfolding workspace_guard check_status
  workspace_guard-IsRecent rules cache now r w h checked =
      rw checked (judged now w cache (hit cache w) h refl)
