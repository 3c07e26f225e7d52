-- ===== src/Base/Tables.antt =====
-- A table of rows keyed by a text column: the SQL statements that the repository issues.
use mathlib.Core.Path.{◌≡◌, refl, ◌∙◌}
use mathlib.Core.Logic.{inl, inr}
use mathlib.Core.Bool.{not}
use mathlib.Core.Option
use mathlib.Core.Option.{Option, none, some}
use mathlib.Core.List.{List, [], ◌∷◌, ◌++◌, map}
use native.Mathlib.Omega.{arith}
use Prim.Native.String.{String}
use text.Mathlib.TextEquality.{eq_iff}
use devproofai.Base.Tests.{◌==◌, if◌then◌else◌, Bool-cases}
use devproofai.Base.Lists.{find?, filter}

module _ {ℓ} {A : Type ℓ} (key : A → String) where
  -- SELECT … WHERE key = k, first row
  abbrev pub find_row : String → List A → Option A
  find_row k rows = find? (λ r. key r == k) rows

  -- UPDATE … SET … WHERE key = k
  abbrev pub update_row : String → (A → A) → List A → List A
  update_row k f rows = map (λ r. if key r == k then f r else r) rows

  -- DELETE … WHERE key = k
  abbrev pub delete_row : String → List A → List A
  delete_row k rows = filter (λ r. not (key r == k)) rows

  pub find_row-update_row :
      (f : A → A)
      → ((r : A) → key (f r) ≡ key r)
      → (k j : String) (rows : List A)
      → find_row j (update_row k f rows)
        ≡ (if k == j then Option.map f (find_row j rows) else find_row j rows)
  find_row-update_row f keeps k j [] = ground arith
  find_row-update_row f keeps k j (r ∷ rows) = ground (
    arith,
    find_row-update_row f keeps k j rows,
    keeps r,
    eq_iff (key r) k,
    eq_iff (key r) j,
    eq_iff k j,
  )

  pub find_row-delete_row :
      (k j : String) (rows : List A)
      → find_row j (delete_row k rows) ≡ (if k == j then none else find_row j rows)
  find_row-delete_row k j [] = ground arith
  find_row-delete_row k j (r ∷ rows) =
      ground (arith, find_row-delete_row k j rows, eq_iff (key r) k, eq_iff (key r) j, eq_iff k j)

  pub find_row-append :
      (j : String) (rows more : List A)
      → find_row j (rows ++ more)
        ≡ elim (find_row j rows) [ none ↦ find_row j more | some r ↦ some r ]
  find_row-append j [] more = refl
  find_row-append j (r ∷ rows) more = ground (arith, find_row-append j rows more)

  -- The same, where the updated row is known.
  pub find_row-update_row_found :
      (f : A → A)
      → ((r : A) → key (f r) ≡ key r)
      → (k j : String) (rows : List A) (r : A) → find_row k rows ≡ some r
      → find_row j (update_row k f rows) ≡ (if k == j then some (f r) else find_row j rows)
  find_row-update_row_found f keeps k j rows r found = elim (Bool-cases (k == j)) [
    | inl same ↦
        find_row-update_row f keeps k j rows ∙ rw same (rw (← (eq_iff k j).0 same, found) refl)
    | inr other ↦ find_row-update_row f keeps k j rows ∙ rw other refl
  ]
