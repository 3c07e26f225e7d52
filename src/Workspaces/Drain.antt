-- ===== src/Workspaces/Drain.antt =====
-- `drain`: batches of at most a hundred ids until none is left. The loop runs on fuel, one more
-- than there are rows.
use devproofai.Base.{
  ℕ, zero, suc, ◌≤◌, ◌<◌, String, ◌≡◌, refl, ◌∙◌, sym, ap, subst, not, List, [], ◌∷◌, Option, none,
  some, arith, ◌==◌, length, filter, length-filter-le, eq_refl, ◌⊎◌, inl, inr,
}

-- The loop stopped on an empty batch, on an error, or for want of fuel.
pub data Drained {ℓ} (S : Type ℓ) : Type ℓ where
  done : S → Drained S
  failed : Drained S
  out_of_fuel : Drained S

abbrev pub batch : ℕ
batch = 100

pub take {ℓ} : {A : Type ℓ} → ℕ → List A → List A
take zero xs = []
take (suc n) [] = []
take (suc n) (x ∷ xs) = x ∷ take n xs

-- The first error ends the batch.
abbrev pub and_then {ℓ} : {S : Type ℓ} → Option S → (S → Option S) → Option S
and_then none f = none
and_then (some s) f = f s

after {ℓ} : {S : Type ℓ} → Option S → (S → Drained S) → Drained S
after none f = failed
after (some s) f = f s

module _ {ℓ} {S : Type ℓ} (rows : S → List String) (each : String → S → Option S) where
  each_of : List String → S → Option S
  each_of [] s = some s
  each_of (id ∷ ids) s = and_then (each id s) (each_of ids)

  round : List String → S → (S → Drained S) → Drained S
  unfolding each_of after
  round [] s more = done s
  round (id ∷ ids) s more = after (each_of (id ∷ ids) s) more

  unfoldable pub drain : ℕ → S → Drained S
  unfolding round take
  drain zero s = out_of_fuel
  drain (suc n) s = round (take batch (rows s)) s (drain n)

  some_injective : {x y : S} → some x ≡ some y → x ≡ y
  some_injective e = cc

  none_ne_some : {x : S} → none ≡ some x → ⊥
  none_ne_some e = cc

  done_injective : {x y : S} → done x ≡ done y → x ≡ y
  done_injective e = cc

  -- What each call keeps, a drain keeps.
  module _ {κ} (P : S → Type κ)
      (keeps : (id : String) (s t : S) → each id s ≡ some t → P s → P t) where
    each_of-keeps : (ids : List String) (s t : S) → each_of ids s ≡ some t → P s → P t
    unfolding each_of
    each_of-keeps [] s t e p = subst P (some_injective e) p
    each_of-keeps (id ∷ ids) s t e p = on (each id s) refl e (λ u. each_of-keeps ids u t)
      where
        on :
            (o : Option S)
            → each id s ≡ o
            → and_then o (each_of ids) ≡ some t
            → ((u : S) → each_of ids u ≡ some t → P u → P t)
            → P t
        on none f e rest = elim (none_ne_some e) [ ]
        on (some u) f e rest = rest u e (keeps id s u f p)

    round-keeps :
        (ids : List String) (s t : S) (more : S → Drained S)
        → ((u v : S) → more u ≡ done v → P u → P v)
        → round ids s more ≡ done t
        → P s
        → P t
    unfolding round after
    round-keeps [] s t more ih e p = subst P (done_injective e) p
    round-keeps (id ∷ ids) s t more ih e p = on (each_of (id ∷ ids) s) refl e
      where
        clash : failed ≡ done t → ⊥
        clash e = cc

        on : (o : Option S) → each_of (id ∷ ids) s ≡ o → after o more ≡ done t → P t
        on none f e = elim (clash e) [ ]
        on (some u) f e = ih u t e (each_of-keeps (id ∷ ids) s u f p)

    pub drain-keeps : (n : ℕ) (s t : S) → drain n s ≡ done t → P s → P t
    unfolding drain
    drain-keeps zero s t e p = elim (clash e) [ ]
      where
        clash : out_of_fuel ≡ done t → ⊥
        clash e = cc
    drain-keeps (suc n) s t e p =
        round-keeps (take batch (rows s)) s t (drain n) (λ u v. drain-keeps n u v) e p

  module _
      (removes : (id : String) (s t : S)
        → each id s ≡ some t
        → rows t ≡ filter (λ x. not (x == id)) (rows s)) where
    each_of-length :
        (ids : List String) (s t : S) → each_of ids s ≡ some t → length (rows t) ≤ length (rows s)
    each_of-length ids s t e =
        each_of-keeps (λ u. length (rows u) ≤ length (rows s))
          (λ id u v f h.
            let e' = removes id u v f in
            subst (λ r. length r ≤ length (rows s)) (sym e')
              (omega (arith, length-filter-le (λ x. not (x == id)) (rows u), h)))
          ids s t e (omega arith)

    -- A batch that succeeds deletes its first row, so that fewer are left.
    each_of-less :
        (id : String) (ids more : List String) (s t : S)
        → rows s ≡ id ∷ more
        → each_of (id ∷ ids) s ≡ some t
        → length (rows t) < length (rows s)
    unfolding each_of
    each_of-less id ids more s t r e = on (each id s) refl e
      where
        on :
            (o : Option S)
            → each id s ≡ o
            → and_then o (each_of ids) ≡ some t
            → length (rows t) < length (rows s)
        on none f e = elim (none_ne_some e) [ ]
        on (some u) f e =
            let left : rows u ≡ filter (λ x. not (x == id)) (id ∷ more) =
              (removes id s u f ∙ ap (filter (λ x. not (x == id))) r) in
            let one : length (filter (λ x. not (x == id)) (id ∷ more)) ≤ length more =
              (rw (eq_refl id) (length-filter-le (λ x. not (x == id)) more)) in
            omega (arith, each_of-length ids u t e, ap length left, one, ap length r)

    round_ends :
        (n : ℕ) (s : S) (xs : List String)
        → rows s ≡ xs
        → length (rows s) < suc n
        → ((u : S)
            → length (rows u) < n
            → (drain n u ≡ failed) ⊎ ((t : S) × (drain n u ≡ done t) × (rows t ≡ [])))
        → (round (take batch xs) s (drain n) ≡ failed)
          ⊎ ((t : S) × (round (take batch xs) s (drain n) ≡ done t) × (rows t ≡ []))
    unfolding round after take
    round_ends n s [] r h ih = inr (s, refl, r)
    round_ends n s (x ∷ more) r h ih = on (each_of (x ∷ take 99 more) s) refl
      where
        on :
            (o : Option S)
            → each_of (x ∷ take 99 more) s ≡ o
            → (after o (drain n) ≡ failed)
              ⊎ ((t : S) × (after o (drain n) ≡ done t) × (rows t ≡ []))
        on none e = inl refl
        on (some u) e = ih u (omega (arith, h, each_of-less x (take 99 more) more s u r e))

    pub drain_ends :
        (n : ℕ) (s : S)
        → length (rows s) < n
        → (drain n s ≡ failed) ⊎ ((t : S) × (drain n s ≡ done t) × (rows t ≡ []))
    unfolding drain
    drain_ends zero s h = elim (none_less h) [ ]
      where
        none_less : length (rows s) < 0 → ⊥
        none_less h = omega (arith, h)
    drain_ends (suc n) s h = round_ends n s (rows s) refl h (λ u. drain_ends n u)
