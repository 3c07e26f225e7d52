-- ===== src/Base/Lists.antt =====
-- Lists under Boolean tests, and predicates on lists that compute.
use Prim.Native.Nat.{ℕ, suc, ◌+◌, ◌≤◌}
use mathlib.Core.Path.{◌≡◌, refl}
use mathlib.Core.Logic.{inl, inr}
use mathlib.Core.Bool.{Bool, true, false, ◌&&◌, ◌||◌}
use mathlib.Core.Option.{Option, none, some}
use mathlib.Core.List.{List, [], ◌∷◌, ◌++◌, map}
use native.Mathlib.Omega.{arith}
use devproofai.Base.Tests.{◌==◌, if◌then◌else◌, Bool-cases}
use Prim.Native.String.{String}

module _ {ℓ} {A : Type ℓ} where
  abbrev pub length : List A → ℕ
  length [] = 0
  length (x ∷ xs) = suc (length xs)

  abbrev pub any : (A → Bool) → List A → Bool
  any p [] = false
  any p (x ∷ xs) = p x || any p xs

  abbrev pub all : (A → Bool) → List A → Bool
  all p [] = true
  all p (x ∷ xs) = p x && all p xs

  abbrev pub filter : (A → Bool) → List A → List A
  filter p [] = []
  filter p (x ∷ xs) = let rest = filter p xs in if p x then x ∷ rest else rest

  abbrev pub find? : (A → Bool) → List A → Option A
  find? p [] = none
  find? p (x ∷ xs) = if p x then some x else find? p xs

  pub length-append : (xs ys : List A) → length (xs ++ ys) ≡ length xs + length ys
  length-append [] ys = omega arith
  length-append (x ∷ xs) ys = omega (arith, length-append xs ys)

  pub any-append : (p : A → Bool) (xs ys : List A) → any p (xs ++ ys) ≡ (any p xs || any p ys)
  any-append p [] ys = refl
  any-append p (x ∷ xs) ys = ground (arith, any-append p xs ys)

  pub length-filter-le : (p : A → Bool) (xs : List A) → length (filter p xs) ≤ length xs
  length-filter-le p [] = omega arith
  length-filter-le p (x ∷ xs) = ground (arith, length-filter-le p xs)

  pub filter-append :
      (p : A → Bool) (xs ys : List A) → filter p (xs ++ ys) ≡ filter p xs ++ filter p ys
  filter-append p [] ys = refl
  filter-append p (x ∷ xs) ys = ground (arith, filter-append p xs ys)

-- `P` holds of each entry.
module _ {ℓ κ} {A : Type ℓ} (P : A → Type κ) where
  abbrev pub All : List A → Type κ
  All [] = Unit
  All (x ∷ xs) = P x × All xs

  pub All-append : (xs ys : List A) → All xs → All ys → All (xs ++ ys)
  All-append [] ys h k = k
  All-append (x ∷ xs) ys (p, h) k = (p, All-append xs ys h k)

  pub All-append_left : (xs ys : List A) → All (xs ++ ys) → All xs
  All-append_left [] ys h = tt
  All-append_left (x ∷ xs) ys (p, h) = (p, All-append_left xs ys h)

  pub All-filter : (p : A → Bool) (xs : List A) → All xs → All (filter p xs)
  All-filter p [] h = tt
  All-filter p (x ∷ xs) (q, h) = ground (arith, All-filter p xs h)

  pub All-find? : (p : A → Bool) (xs : List A) (a : A) → All xs → find? p xs ≡ some a → P a
  All-find? p [] a h e = elim (none_ne_some e) [ ]
    where
      none_ne_some : {x : A} → none ≡ some x → ⊥
      none_ne_some e = cc
  All-find? p (x ∷ xs) a (q, h) e = elim (Bool-cases (p x)) [
    | inl t ↦ rw (← some_injective (rw t at e)) q
    | inr f ↦ All-find? p xs a h (rw f at e)
  ]
    where
      some_injective : {x y : A} → some x ≡ some y → x ≡ y
      some_injective e = cc

-- What holds of each kept entry: the test that kept it.
pub All-filter_test {ℓ} :
    {A : Type ℓ} (p : A → Bool) (xs : List A) → All (λ x. p x ≡ true) (filter p xs)
All-filter_test p [] = tt
All-filter_test p (x ∷ xs) = elim (Bool-cases (p x)) [
  | inl t ↦ rw t (t, All-filter_test p xs)
  | inr f ↦ rw f (All-filter_test p xs)
]

pub All-mono {ℓ κ κ'} :
    {A : Type ℓ} (P : A → Type κ) (Q : A → Type κ') (xs : List A)
    → ((a : A) → P a → Q a)
    → All P xs
    → All Q xs
All-mono P Q [] f h = tt
All-mono P Q (x ∷ xs) f (p, h) = (f x p, All-mono P Q xs f h)

-- Membership of a text, as `includes` and `Set.has` decide it.
abbrev pub includes : List String → String → Bool
includes xs a = any (λ x. x == a) xs

pub includes-append :
    (xs ys : List String) (a : String) → includes (xs ++ ys) a ≡ (includes xs a || includes ys a)
includes-append [] ys a = refl
includes-append (x ∷ xs) ys a = ground (arith, includes-append xs ys a)

-- No text stands twice.
abbrev pub IsDistinct : List String → Type 0
IsDistinct [] = Unit
IsDistinct (x ∷ xs) = (includes xs x ≡ false) × IsDistinct xs

pub filter_none {ℓ} :
    {A : Type ℓ} (p : A → Bool) (xs : List A) → All (λ x. p x ≡ false) xs → filter p xs ≡ []
filter_none p [] h = refl
filter_none p (x ∷ xs) (e, h) = rw e (filter_none p xs h)

pub filter_every {ℓ} :
    {A : Type ℓ} (p : A → Bool) (xs : List A) → All (λ x. p x ≡ true) xs → filter p xs ≡ xs
filter_every p [] h = refl
filter_every p (x ∷ xs) (e, h) = rw (e, filter_every p xs h)

module _ {ℓ} {A : Type ℓ} (p : A → Bool) (x : A) (xs : List A) where
  pub filter-cons_true : p x ≡ true → filter p (x ∷ xs) ≡ x ∷ filter p xs
  filter-cons_true h = rw h

  pub filter-cons_false : p x ≡ false → filter p (x ∷ xs) ≡ filter p xs
  filter-cons_false h = rw h

module _ {ℓ} {A : Type ℓ} (p q : A → Bool) where
  pub filter-filter : (xs : List A) → filter p (filter q xs) ≡ filter (λ x. q x && p x) xs
  filter-filter [] = refl
  filter-filter (x ∷ xs) = ground (arith, filter-filter xs)

  -- Two tests that agree on the entries keep the same ones.
  pub filter_ext : (xs : List A) → All (λ x. p x ≡ q x) xs → filter p xs ≡ filter q xs
  filter_ext [] h = refl
  filter_ext (x ∷ xs) (e, h) = rw (e, filter_ext xs h)

pub All-of {ℓ κ} : {A : Type ℓ} (P : A → Type κ) (xs : List A) → ((a : A) → P a) → All P xs
All-of P [] h = tt
All-of P (x ∷ xs) h = (h x, All-of P xs h)

pub All-map {ℓ ℓ' κ} :
    {A : Type ℓ} {B : Type ℓ'} (P : B → Type κ) (f : A → B) (xs : List A)
    → All (λ a. P (f a)) xs
    → All P (map f xs)
All-map P f [] h = tt
All-map P f (x ∷ xs) (p, h) = (p, All-map P f xs h)

pub All-and {ℓ κ κ'} :
    {A : Type ℓ} (P : A → Type κ) (Q : A → Type κ') (xs : List A)
    → All P xs
    → All Q xs
    → All (λ a. P a × Q a) xs
All-and P Q [] h k = tt
All-and P Q (x ∷ xs) (p, h) (q, k) = ((p, q), All-and P Q xs h k)

module _ {ℓ} {A : Type ℓ} where
  pub any-filter : (p q : A → Bool) (xs : List A) → any p (filter q xs) ≡ any (λ x. q x && p x) xs
  any-filter p q [] = refl
  any-filter p q (x ∷ xs) = ground (arith, any-filter p q xs)

  -- An entry that passes the test, with what holds of all entries.
  pub any_witness {κ} :
      (P : A → Type κ) (p : A → Bool) (xs : List A)
      → All P xs
      → any p xs ≡ true
      → (x : A) × P x × (p x ≡ true)
  any_witness P p [] h e = elim (false_ne_true e) [ ]
    where
      false_ne_true : false ≡ true → ⊥
      false_ne_true e = cc
  any_witness P p (x ∷ xs) (q, h) e = elim (Bool-cases (p x)) [
    | inl t ↦ (x, q, t)
    | inr f ↦ any_witness P p xs h (rw f at e)
  ]

  pub any_of_find? :
      (p q : A → Bool) (xs : List A) (a : A)
      → find? p xs ≡ some a
      → q a ≡ true
      → any (λ x. p x && q x) xs ≡ true
  any_of_find? p q [] a h k = cc
  any_of_find? p q (x ∷ xs) a h k = ground (arith, any_of_find? p q xs a)

  -- What no entry passes, the found one does not pass.
  pub none_find :
      (p q : A → Bool) (xs : List A) (a : A) → any q xs ≡ false → find? p xs ≡ some a → q a ≡ false
  none_find p q [] a h k = cc
  none_find p q (x ∷ xs) a h k = ground (arith, none_find p q xs a)

  pub find?_test : (p : A → Bool) (xs : List A) (a : A) → find? p xs ≡ some a → p a ≡ true
  find?_test p [] a h = cc
  find?_test p (x ∷ xs) a h = ground (arith, find?_test p xs a)

  pub any_ext : (p q : A → Bool) (xs : List A) → ((a : A) → p a ≡ q a) → any p xs ≡ any q xs
  any_ext p q [] h = refl
  any_ext p q (x ∷ xs) h = rw (h x, any_ext p q xs h)
