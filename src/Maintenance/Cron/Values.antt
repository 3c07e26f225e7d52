-- ===== src/Maintenance/Cron/Values.antt =====
-- The values that a field of a cron expression stands for, listed.
use native.Mathlib.Nat.{add-mul-mod_self_left, mod-eq_of_lt, zero-mod, mod-one}
use devproofai.Base.{
  ℕ, zero, suc, ◌+◌, ◌-◌, ◌*◌, ◌%◌, ◌≤◌, ◌<◌, String, ◌≡◌, refl, sym, ◌∙◌, ap, subst, Bool, true,
  false, ◌&&◌, ◌||◌, List, [], ◌∷◌, ◌++◌, Option, none, some, arith, if◌then◌else◌, leb, ltb,
  nat_eq, any, any-append, inl, inr, Bool-cases,
}
use devproofai.Maintenance.Cron.{
  Range, every, single, Part, part_matches, read_matches, every_step, read_part, split_at,
  field_matches,
}

-- low, low + n, low + 2 n, … up to high
ticks : ℕ → ℕ → ℕ → ℕ → List ℕ
ticks zero low high n = []
ticks (suc k) low high n =
    let rest = ticks k (low + n) high n in if ltb high low then [] else low ∷ rest

abbrev has : List ℕ → ℕ → Bool
has us v = any (λ u. nat_eq u v) us

on_grid : ℕ → ℕ → ℕ → Bool
on_grid low n v = nat_eq ((v - low) % n) 0

on_grid-first : (low n : ℕ) → on_grid low n low ≡ true
unfolding on_grid
on_grid-first low n = rw (diff, zero-mod n) refl
  where
    diff : low - low ≡ 0
    diff = omega arith

on_grid-next : (low n v : ℕ) → low + n ≤ v → on_grid (low + n) n v ≡ on_grid low n v
unfolding on_grid
on_grid-next low n v h =
    ap (λ d. nat_eq d 0) (sym (add-mul-mod_self_left (v - (low + n)) n 1) ∙ ap (λ d. d % n) diff)
  where
    diff : (v - (low + n)) + n * 1 ≡ v - low
    diff = omega (arith, h)

on_grid-below : (low n v : ℕ) → low < v → v < low + n → on_grid low n v ≡ false
unfolding on_grid
on_grid-below low n v h g =
    let small : v - low < n = (omega (arith, h, g)) in rw (mod-eq_of_lt small) (ground (arith, h))

on_grid-same : (low n v : ℕ) → nat_eq low v ≡ true → on_grid low n v ≡ true
on_grid-same low n v h =
    subst (λ u. on_grid low n u ≡ true) {x = low} {y = v} (ground (arith, h)) (on_grid-first low n)

step_cases :
    (low high n v : ℕ)
    → 1 ≤ n
    → low ≤ high
    → (nat_eq low v || (leb (low + n) v && (leb v high && on_grid (low + n) n v)))
      ≡ (leb low v && (leb v high && on_grid low n v))
step_cases low high n v h g = elim (Bool-cases (nat_eq low v)) [
  | inl same ↦ ground (arith, same, on_grid-same low n v same, g)
  | inr differ ↦ elim (Bool-cases (leb (low + n) v)) [
    | inl beyond ↦
        rw (on_grid-next low n v (ground (arith, beyond))) (ground (arith, beyond, differ, h))
    | inr before ↦ under before differ
  ]
]
  where
    under :
        leb (low + n) v ≡ false
        → nat_eq low v ≡ false
        → (nat_eq low v || (leb (low + n) v && (leb v high && on_grid (low + n) n v)))
          ≡ (leb low v && (leb v high && on_grid low n v))
    under b d = elim (Bool-cases (ltb low v)) [
      | inl above ↦
          rw (b, d, on_grid-below low n v (ground (arith, above)) (ground (arith, b)))
            (ground arith)
      | inr below ↦ ground (arith, b, d, below)
    ]

ticks-has :
    (k low high n v : ℕ)
    → 1 ≤ n
    → high < low + k
    → has (ticks k low high n) v ≡ (leb low v && (leb v high && on_grid low n v))
unfolding ticks
ticks-has zero low high n v h g = ground arith
ticks-has (suc k) low high n v h g = elim (Bool-cases (ltb high low)) [
  | inl done ↦ rw done (ground (arith, done))
  | inr more ↦
      rw (more, ticks-has k (low + n) high n v h (omega arith))
        (step_cases low high n v h (ground arith))
]

grid : ℕ → ℕ → Option ℕ → List ℕ
unfolding ticks
grid low high none = ticks (suc high) low high 1
grid low high (some zero) = []
grid low high (some (suc n)) = ticks (suc high) low high (suc n)

grid-has :
    (low high : ℕ) (s : Option ℕ) (v : ℕ)
    → has (grid low high s) v ≡ (leb low v && (leb v high && every_step s (v - low)))
unfolding grid every_step
grid-has low high none v =
    ticks-has (suc high) low high 1 v (omega arith) (omega arith) ∙ rw (unit) refl
  where
    unit : on_grid low 1 v ≡ true
    unit = unfold on_grid in rw (mod-one (v - low)) refl
grid-has low high (some zero) v = ground arith
grid-has low high (some (suc n)) v =
    ticks-has (suc high) low high (suc n) v (omega arith) (omega arith)
    ∙ unfold on_grid in ground arith

module _ (low high : ℕ) where
  part_values : Range → Option ℕ → List ℕ
  unfolding grid
  part_values every s = grid low high s
  part_values (single a) none = a ∷ []
  part_values (single a) (some n) = grid a high (some n)
  part_values (Range.between a b) s = grid a b s

  part_matches-has :
      (r : Range) (s : Option ℕ) (v : ℕ)
      → part_matches low high (record { range = r; step = s }) v ≡ has (part_values r s) v
  unfolding part_matches part_values
  part_matches-has every s v = sym (grid-has low high s v)
  part_matches-has (single a) none v = ground arith
  part_matches-has (single a) (some n) v = sym (grid-has a high (some n) v)
  part_matches-has (Range.between a b) s v = sym (grid-has a b s v)

  read_values : Option Part → List ℕ
  unfolding part_values
  read_values none = []
  read_values (some p) = part_values p.range p.step

  parts_values : List String → List ℕ
  unfolding read_values
  parts_values [] = []
  parts_values (s ∷ ss) = read_values (read_part s) ++ parts_values ss

  -- The listed values of all parts between commas.
  pub field_values : String → List ℕ
  unfolding parts_values
  field_values field = parts_values (split_at 44 field)

  read_matches-has : (p : Option Part) (v : ℕ) → read_matches low high p v ≡ has (read_values p) v
  unfolding read_matches read_values
  read_matches-has none v = refl
  read_matches-has (some p) v = part_matches-has p.range p.step v

  parts_values-has :
      (ss : List String) (v : ℕ)
      → any (λ s. read_matches low high (read_part s) v) ss ≡ has (parts_values ss) v
  unfolding parts_values
  parts_values-has [] v = refl
  parts_values-has (s ∷ ss) v =
      rw (read_matches-has (read_part s) v, parts_values-has ss v)
        (sym (any-append (λ u. nat_eq u v) (read_values (read_part s)) (parts_values ss)))

  -- A field of a cron expression matches a value exactly if the value is one of those that its
  -- parts list: from the start of each range, step by step, up to its end.
  pub field_matches-field_values :
      (field : String) (v : ℕ)
      → field_matches low high field v ≡ any (λ u. nat_eq u v) (field_values field)
  unfolding field_matches field_values
  field_matches-field_values field v = parts_values-has (split_at 44 field) v
