-- ===== src/Store/Pending/Queue.antt =====
-- The oldest row of a queue.
use devproofai.Base.{
  ◌≤◌, String, ◌≡◌, refl, Bool, true, false, List, [], ◌∷◌, Option, none, some, arith, Bool-cases,
  inl, inr, All, All-mono, ltb, subst,
}
use devproofai.Store.Rows.{PendingRow}
use devproofai.Store.Pending.{oldest, waits_for, older_of}

-- The row waits for the model, and no row of that model was parked before it.
pub record IsOldest (model : String) (rows : List PendingRow) (p : PendingRow) : Type 0 where
  pub waits : waits_for model p ≡ true
  pub first : All (λ q. waits_for model q ≡ true → p.created_at ≤ q.created_at) rows

none_waits :
    (model : String) (rows : List PendingRow)
    → oldest model rows ≡ none
    → All (λ q. waits_for model q ≡ false) rows
unfolding oldest
none_waits model [] e = tt
none_waits model (r ∷ rows) e = elim (Bool-cases (waits_for model r)) [
  | inl t ↦ absurd (older_some (oldest model rows) (rw t at e))
  | inr f ↦ (f, none_waits model rows (rw f at e))
]
  where
    older_some : (o : Option PendingRow) → some (older_of r o) ≡ none → ⊥
    older_some o h = cc

-- The older of a row and the oldest of the rest is the oldest of all.
older_of-IsOldest :
    (model : String) (rows : List PendingRow) (r : PendingRow) (o : Option PendingRow)
    → waits_for model r ≡ true
    → oldest model rows ≡ o
    → ((q : PendingRow) → o ≡ some q → IsOldest model rows q)
    → IsOldest model (r ∷ rows) (older_of r o)
unfolding older_of
older_of-IsOldest model rows r none t e ih = record {
  waits = t;
  first =
      (λ h. omega arith, All-mono _ _ rows (λ q f h. absurd (both f h)) (none_waits model rows e));
}
  where
    both : {b : Bool} → b ≡ false → b ≡ true → ⊥
    both f h = cc
older_of-IsOldest model rows r (some q) t e ih =
    let i = ih q refl in
    elim (Bool-cases (ltb q.created_at r.created_at)) [
      | inl earlier ↦ rw earlier (record { waits = i.waits; first = (λ h. ground arith, i.first) })
      | inr later ↦ rw later (record {
        waits = t;
        first = (λ h. omega arith, All-mono _ _ rows (λ x f h. ground (arith, f h)) i.first);
      })
    ]

pub oldest-IsOldest :
    (model : String) (rows : List PendingRow) (p : PendingRow)
    → oldest model rows ≡ some p
    → IsOldest model rows p
unfolding oldest
oldest-IsOldest model [] p e = absurd (none_ne_some e)
  where
    none_ne_some : none ≡ some p → ⊥
    none_ne_some h = cc
oldest-IsOldest model (r ∷ rows) p e = elim (Bool-cases (waits_for model r)) [
  | inl t ↦
      subst (IsOldest model (r ∷ rows)) (same _ (rw t at e))
        (older_of-IsOldest model rows r (oldest model rows) t refl (oldest-IsOldest model rows))
  | inr f ↦
      let i = oldest-IsOldest model rows p (rw f at e) in
      record { waits = i.waits; first = (λ h. absurd (both f h), i.first) }
]
  where
    same : (q : PendingRow) → some q ≡ some p → q ≡ p
    same q h = cc

    both : {b : Bool} → b ≡ false → b ≡ true → ⊥
    both f h = cc
