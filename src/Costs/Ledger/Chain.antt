-- ===== src/Costs/Ledger/Chain.antt =====
-- Entries of one kind and subject whose spans do not overlap.
use devproofai.Base.{
  ℕ, ◌+◌, ◌-◌, ◌*◌, ◌≤◌, String, ◌≡◌, refl, Bool, false, ◌&&◌, List, [], ◌∷◌, ◌++◌, arith, ◌==◌,
  if◌then◌else◌, ltb, nat_eq, max, ◌⊎◌, inl, inr, All,
}
use devproofai.Costs.Accruals.{EntryKind, CostEntry}
use devproofai.Costs.Ledger.{insert_cost_entries}

abbrev pub kind_no : EntryKind → ℕ
kind_no EntryKind.pool_pod = 0
kind_no EntryKind.deployment_time = 1
kind_no EntryKind.env_pod = 2
kind_no EntryKind.session_time = 3

module _ (k : EntryKind) (id : String) where
  unfoldable pub matches : CostEntry → Bool
  matches e = nat_eq (kind_no e.kind) (kind_no k) && (e.subject == id)

  -- The end of the newest span.
  unfoldable pub latest : List CostEntry → ℕ
  latest [] = 0
  latest (e ∷ es) = let rest = latest es in if matches e then max e.ts rest else rest

  -- The start of the oldest span, if there is one, and 0 otherwise.
  pub begun : List CostEntry → ℕ
  begun [] = 0
  begun (e ∷ es) =
      let rest = begun es in
      if matches e && nat_eq (latest es) 0 then e.ts - e.seconds * 1000 else rest

  unfoldable pub total_seconds : List CostEntry → ℕ
  total_seconds [] = 0
  total_seconds (e ∷ es) =
      let rest = total_seconds es in if matches e then e.seconds + rest else rest

  -- Each span starts where the ones before it have ended.
  abbrev pub IsChained : List CostEntry → Type 0
  IsChained [] = Unit
  IsChained (e ∷ es) =
      ((matches e && ltb e.ts (latest es + e.seconds * 1000)) ≡ false) × IsChained es

  -- What the spans meter lies between the start of the first and the end of the last.
  pub total-le :
      (es : List CostEntry) → IsChained es → total_seconds es * 1000 + begun es ≤ latest es
  unfolding total_seconds begun latest
  total-le [] h = omega arith
  total-le (e ∷ es) (h, hs) = ground (arith, h, total-le es hs)

  abbrev pub Others : List CostEntry → Type 0
  Others ns = All (λ e. matches e ≡ false) ns

  -- At most one of the new entries matches; its span starts at `low` or later and ends by `high`.
  abbrev pub One : ℕ → ℕ → List CostEntry → Type 0
  One low high [] = Unit
  One low high (e ∷ ns) =
      ((matches e ≡ false) × One low high ns)
      ⊎ ((low + e.seconds * 1000 ≤ e.ts) × (e.ts ≤ high) × Others ns)

  pub One-append_left :
      (low high : ℕ) (xs ys : List CostEntry)
      → Others xs
      → One low high ys
      → One low high (xs ++ ys)
  One-append_left low high [] ys h o = o
  One-append_left low high (x ∷ xs) ys (f, h) o = inl (f, One-append_left low high xs ys h o)

  pub One-mono :
      (low high top : ℕ) (ns : List CostEntry) → high ≤ top → One low high ns → One low top ns
  One-mono low high top [] h o = tt
  One-mono low high top (e ∷ ns) h (inl (f, o)) = inl (f, One-mono low high top ns h o)
  One-mono low high top (e ∷ ns) h (inr (a, b, g)) = inr (a, omega (arith, b, h), g)

  pub Others-append : (xs ys : List CostEntry) → Others xs → Others ys → Others (xs ++ ys)
  Others-append [] ys h g = g
  Others-append (x ∷ xs) ys (f, h) g = (f, Others-append xs ys h g)

  pub One-append_right :
      (low high : ℕ) (xs ys : List CostEntry)
      → One low high xs
      → Others ys
      → One low high (xs ++ ys)
  One-append_right low high [] ys o h = One-none ys h
    where
      One-none : (ys : List CostEntry) → Others ys → One low high ys
      One-none [] h = tt
      One-none (y ∷ ys) (f, h) = inl (f, One-none ys h)
  One-append_right low high (x ∷ xs) ys (inl (f, o)) h =
      inl (f, One-append_right low high xs ys o h)
  One-append_right low high (x ∷ xs) ys (inr (a, b, g)) h = inr (a, b, Others-append xs ys g h)

  skipped : (e : CostEntry) (es : List CostEntry) → matches e ≡ false → latest (e ∷ es) ≡ latest es
  unfolding latest
  skipped e es f = rw f refl

  insert-Others :
      (es ns : List CostEntry) (high : ℕ)
      → IsChained es
      → latest es ≤ high
      → Others ns
      → IsChained (insert_cost_entries es ns) × (latest (insert_cost_entries es ns) ≤ high)
  unfolding insert_cost_entries
  insert-Others es [] high h u o = (h, u)
  insert-Others es (e ∷ ns) high h u (f, o) =
      insert-Others (e ∷ es) ns high (rw f refl, h) (rw (skipped e es f) u) o

  pub insert-One :
      (es ns : List CostEntry) (high : ℕ)
      → IsChained es
      → latest es ≤ high
      → One (latest es) high ns
      → IsChained (insert_cost_entries es ns) × (latest (insert_cost_entries es ns) ≤ high)
  unfolding insert_cost_entries
  insert-One es [] high h u o = (h, u)
  insert-One es (e ∷ ns) high h u (inl (f, o)) =
      insert-One (e ∷ es) ns high (rw f refl, h) (rw (skipped e es f) u) (rw (skipped e es f) o)
  insert-One es (e ∷ ns) high h u (inr (a, b, o)) =
      insert-Others (e ∷ es) ns high (after a, h) (until b) o
    where
      after :
          latest es + e.seconds * 1000 ≤ e.ts
          → (matches e && ltb e.ts (latest es + e.seconds * 1000)) ≡ false
      after a = ground arith

      until : e.ts ≤ high → latest (e ∷ es) ≤ high
      until b = unfold latest in ground arith
