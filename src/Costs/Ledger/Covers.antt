-- ===== src/Costs/Ledger/Covers.antt =====
-- The watermark of a session lies behind no entry of it: `costWatermarks` of repo.ts.
use devproofai.Base.{
  ℕ, ◌+◌, ◌-◌, ◌≤◌, ◌<◌, String, ◌≡◌, refl, Bool, true, false, not, ◌&&◌, List, [], ◌∷◌, Option,
  none, some, arith, ◌==◌, if◌then◌else◌, ltb, nat_eq, max, inl, inr, Bool-cases,
}
use devproofai.Costs.Span.{span_start}
use devproofai.Costs.Accruals.{EntryKind, CostEntry}
use devproofai.Costs.Ledger.{is_deployment_kind, watermark, later}
use devproofai.Costs.Ledger.Chain.{kind_no, matches, latest}

-- No entry of the last day, or the last one.
abbrev pub Behind : ℕ → ℕ → Option ℕ → Type 0
Behind now end none = end ≤ now - 86_400_000
Behind now end (some w) = (end ≤ w) × (now < w + 86_400_000)

module _ (now end ts : ℕ) where
  newest : Bool → Option ℕ → Option ℕ
  newest mine o = if mine && ltb now (ts + 86_400_000) then later ts o else o

  -- An entry of another subject, or of another kind of the same session.
  kept : (o : Option ℕ) (mine : Bool) → Behind now end o → Behind now end (newest mine o)
  unfolding newest
  kept o false h = h
  kept none true h = elim (Bool-cases (ltb now (ts + 86_400_000))) [
    | inl recent ↦ rw recent (ends recent)
    | inr old ↦ rw old h
  ]
    where
      ends : ltb now (ts + 86_400_000) ≡ true → (end ≤ ts) × (now < ts + 86_400_000)
      ends r = (ground arith, ground arith)
  kept (some w) true (h, g) = elim (Bool-cases (ltb now (ts + 86_400_000))) [
    | inl recent ↦ rw recent (omega arith, omega arith)
    | inr old ↦ rw old (h, g)
  ]

  -- An entry of the kind itself.
  passed : (o : Option ℕ) → Behind now end o → Behind now (max ts end) (newest true o)
  unfolding newest
  passed none h = elim (Bool-cases (ltb now (ts + 86_400_000))) [
    | inl recent ↦ rw recent (ends recent)
    | inr old ↦ rw old (before old)
  ]
    where
      ends : ltb now (ts + 86_400_000) ≡ true → (max ts end ≤ ts) × (now < ts + 86_400_000)
      ends r = (ground arith, ground arith)

      before : ltb now (ts + 86_400_000) ≡ false → max ts end ≤ now - 86_400_000
      before r = ground arith
  passed (some w) (h, g) = elim (Bool-cases (ltb now (ts + 86_400_000))) [
    | inl recent ↦ rw recent (omega arith, omega arith)
    | inr old ↦ rw old (behind old, g)
  ]
    where
      behind : ltb now (ts + 86_400_000) ≡ false → max ts end ≤ w
      behind r = ground (arith, h, g)

not_serving :
    (k kind : EntryKind)
    → is_deployment_kind k ≡ false
    → nat_eq (kind_no kind) (kind_no k) ≡ true
    → is_deployment_kind kind ≡ false
not_serving k EntryKind.env_pod h e = refl
not_serving k EntryKind.session_time h e = refl
not_serving EntryKind.env_pod EntryKind.pool_pod h e = cc
not_serving EntryKind.env_pod EntryKind.deployment_time h e = cc
not_serving EntryKind.session_time EntryKind.pool_pod h e = cc
not_serving EntryKind.session_time EntryKind.deployment_time h e = cc
not_serving EntryKind.pool_pod EntryKind.pool_pod h e = cc
not_serving EntryKind.pool_pod EntryKind.deployment_time h e = cc
not_serving EntryKind.deployment_time EntryKind.pool_pod h e = cc
not_serving EntryKind.deployment_time EntryKind.deployment_time h e = cc

module _ (k : EntryKind) (of_sessions : is_deployment_kind k ≡ false) (id : String) (now : ℕ) where
  pub watermark-Behind :
      (es : List CostEntry) → Behind now (latest k id es) (watermark false now id es)
  unfolding watermark latest newest
  watermark-Behind [] = omega arith
  watermark-Behind (e ∷ es) = elim (Bool-cases (matches k id e)) [
    | inl hit ↦
        rw (hit, same hit, serves hit)
          (passed now (latest k id es) e.ts (watermark false now id es) (watermark-Behind es))
    | inr miss ↦ rw miss (
        kept now (latest k id es) e.ts (watermark false now id es)
          ((e.subject == id) && not (is_deployment_kind e.kind)) (watermark-Behind es))
  ]
    where
      same : matches k id e ≡ true → (e.subject == id) ≡ true
      same hit = unfold matches in ground arith

      serves : matches k id e ≡ true → is_deployment_kind e.kind ≡ false
      serves hit = not_serving k e.kind of_sessions (unfold matches in ground arith)

-- The pod of a turn started within the day, or has not started.
abbrev pub is_recent : ℕ → Option ℕ → Bool
is_recent now none = true
is_recent now (some start) = ltb now (start + 86_400_000)

pub span_start-Behind :
    (now end : ℕ) (mark anchor : Option ℕ) (from : ℕ)
    → Behind now end mark
    → is_recent now anchor ≡ true
    → span_start mark anchor ≡ some from
    → end ≤ from
unfolding span_start
span_start-Behind now end none none from h r e = cc
span_start-Behind now end none (some start) from h r e = ground (arith, e)
span_start-Behind now end (some w) none from h r e = ground (arith, e)
span_start-Behind now end (some w) (some start) from h r e = ground (arith, e)
