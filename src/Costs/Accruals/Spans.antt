-- ===== src/Costs/Accruals/Spans.antt =====
-- The spans of the entries that one accrual makes for a session.
use devproofai.Base.{
  ℕ, ◌+◌, ◌-◌, ◌*◌, ◌≤◌, String, ◌≡◌, refl, ◌∙◌, Bool, true, false, ◌&&◌, List, [], ◌∷◌, Option,
  none, some, arith, ◌==◌, nat_eq, map, includes, inl, inr, Bool-cases, All, IsDistinct, eq_iff,
  subst,
}
use devproofai.Platform.Settings.{CostSettings}
use devproofai.Costs.Prices.{TimePrice}
use devproofai.Costs.Span.{AccrualMode, span_start, raw_ms, quantize_sec, quantize_sec-IsMetered}
use devproofai.Costs.Accruals.{
  TurnObs, EntryKind, CostEntry, PriceRow, Watermarks, wanted, env_entry, session_entry, turn_entry,
  billed_turn, env_entries, session_entries, price_of, price_row, metered_turn, turns_entries,
}
use devproofai.Costs.Ledger.{is_deployment_kind}
use devproofai.Costs.Ledger.Chain.{
  kind_no, matches, One, Others, One-append_left, One-append_right, Others-append,
}

module _ (k : EntryKind) (of_sessions : is_deployment_kind k ≡ false) (id : String) where
  wanted-Others :
      (on : Bool) (o : Option TimePrice) (make : TimePrice → CostEntry)
      → ((p : TimePrice) → matches k id (make p) ≡ false)
      → Others k id (wanted on o make)
  unfolding wanted
  wanted-Others on none make h = tt
  wanted-Others true (some p) make h = (h p, tt)
  wanted-Others false (some p) make h = tt

  wanted-One :
      (low high : ℕ) (on : Bool) (o : Option TimePrice) (make : TimePrice → CostEntry)
      → ((p : TimePrice) → (low + (make p).seconds * 1000 ≤ (make p).ts) × ((make p).ts ≤ high))
      → One k id low high (wanted on o make)
  unfolding wanted
  wanted-One low high on none make h = tt
  wanted-One low high true (some p) make h = inr ((h p).0, (h p).1, tt)
  wanted-One low high false (some p) make h = tt

  not_session : (k : EntryKind) → nat_eq 2 (kind_no k) ≡ true → nat_eq 3 (kind_no k) ≡ false
  not_session EntryKind.pool_pod h = refl
  not_session EntryKind.deployment_time h = refl
  not_session EntryKind.env_pod h = refl
  not_session EntryKind.session_time h = cc

  module _ (now : ℕ) (settings : CostSettings) (prices : List PriceRow) where
    env_entries-Others :
        (t : TurnObs) (from sec : ℕ)
        → (nat_eq 2 (kind_no k) && (t.session_id == id)) ≡ false
        → Others k id (env_entries now settings prices t from sec)
    unfolding env_entries env_entry turn_entry matches
    env_entries-Others t from sec far =
        wanted-Others (settings.enabled && settings.track_env_costs)
          (price_of (price_row prices "environment" t.environment_id) (λ p. p.real_pod_time))
          (env_entry t from sec) (λ p. far)

    session_entries-Others :
        (t : TurnObs) (from sec : ℕ)
        → (nat_eq 3 (kind_no k) && (t.session_id == id)) ≡ false
        → Others k id (session_entries now settings prices t from sec)
    unfolding session_entries session_entry turn_entry matches
    session_entries-Others t from sec far =
        wanted-Others (settings.billing.enabled && settings.billing.bill_session_time)
          (price_of (price_row prices "environment" t.environment_id) (λ p. p.billing_session_time))
          (session_entry t from sec) (λ p. far)

    env_entries-One :
        (t : TurnObs) (from sec low high : ℕ)
        → low ≤ from
        → from + sec * 1000 ≤ high
        → One k id low high (env_entries now settings prices t from sec)
    unfolding env_entries env_entry turn_entry
    env_entries-One t from sec low high h u =
        wanted-One low high (settings.enabled && settings.track_env_costs)
          (price_of (price_row prices "environment" t.environment_id) (λ p. p.real_pod_time))
          (env_entry t from sec) (λ p. (omega arith, u))

    session_entries-One :
        (t : TurnObs) (from sec low high : ℕ)
        → low ≤ from
        → from + sec * 1000 ≤ high
        → One k id low high (session_entries now settings prices t from sec)
    unfolding session_entries session_entry turn_entry
    session_entries-One t from sec low high h u =
        wanted-One low high (settings.billing.enabled && settings.billing.bill_session_time)
          (price_of (price_row prices "environment" t.environment_id) (λ p. p.billing_session_time))
          (session_entry t from sec) (λ p. (omega arith, u))

    -- The two entries of a turn are of different kinds.
    billed_turn-One :
        (t : TurnObs) (from sec low : ℕ)
        → low ≤ from
        → from + sec * 1000 ≤ now + 59_999
        → One k id low (now + 59_999) (billed_turn now settings prices t from sec)
    unfolding billed_turn
    billed_turn-One t from sec low h u = elim (Bool-cases (nat_eq 2 (kind_no k))) [
      | inl env ↦
          One-append_right k id low (now + 59_999) (env_entries now settings prices t from sec)
            (session_entries now settings prices t from sec)
            (env_entries-One t from sec low (now + 59_999) h u)
            (session_entries-Others t from sec (rw (not_session k env) refl))
      | inr other ↦
          One-append_left k id low (now + 59_999) (env_entries now settings prices t from sec)
            (session_entries now settings prices t from sec)
            (env_entries-Others t from sec (rw other refl))
            (session_entries-One t from sec low (now + 59_999) h u)
    ]

    billed_turn-Others :
        (t : TurnObs) (from sec : ℕ)
        → (t.session_id == id) ≡ false
        → Others k id (billed_turn now settings prices t from sec)
    unfolding billed_turn
    billed_turn-Others t from sec far =
        Others-append k id (env_entries now settings prices t from sec)
          (session_entries now settings prices t from sec)
          (env_entries-Others t from sec (ground (arith, far)))
          (session_entries-Others t from sec (ground (arith, far)))

    metered_turn-Others :
        (mode : AccrualMode) (t : TurnObs) (o : Option ℕ)
        → (t.session_id == id) ≡ false
        → Others k id (metered_turn now settings prices mode t o)
    unfolding metered_turn
    metered_turn-Others mode t none far = tt
    metered_turn-Others mode t (some from) far = elim (Bool-cases (nat_eq (raw_ms now from) 0)) [
      | inl idle ↦ rw idle tt
      | inr busy ↦ elim (Bool-cases (nat_eq (quantize_sec (raw_ms now from) mode) 0)) [
        | inl short ↦ rw (busy, short) tt
        | inr long ↦ rw (busy, long) (billed_turn-Others t from _ far)
      ]
    ]

    by_now :
        (from : ℕ) (mode : AccrualMode)
        → nat_eq (raw_ms now from) 0 ≡ false
        → from + quantize_sec (raw_ms now from) mode * 1000 ≤ now + 59_999
    unfolding raw_ms
    by_now from mode busy = let m = quantize_sec-IsMetered now from mode in ends (m.elapsed) busy
      where
        ends :
            quantize_sec (raw_ms now from) mode * 1000 ≤ (now - from) + 59_999
            → nat_eq (raw_ms now from) 0 ≡ false
            → from + quantize_sec (raw_ms now from) mode * 1000 ≤ now + 59_999
        ends e b = ground arith

    metered_turn-One :
        (mode : AccrualMode) (t : TurnObs) (o : Option ℕ) (low : ℕ)
        → ((from : ℕ) → o ≡ some from → low ≤ from)
        → One k id low (now + 59_999) (metered_turn now settings prices mode t o)
    unfolding metered_turn
    metered_turn-One mode t none low h = tt
    metered_turn-One mode t (some from) low h = elim (Bool-cases (nat_eq (raw_ms now from) 0)) [
      | inl idle ↦ rw idle tt
      | inr busy ↦ elim (Bool-cases (nat_eq (quantize_sec (raw_ms now from) mode) 0)) [
        | inl short ↦ rw (busy, short) tt
        | inr long ↦
            rw (busy, long) (billed_turn-One t from _ low (h from refl) (by_now from mode busy))
      ]
    ]

    turns_entries-Others :
        (mode : AccrualMode) (marks : Watermarks) (ts : List TurnObs)
        → includes (map (λ t. t.session_id) ts) id ≡ false
        → Others k id (turns_entries now settings prices mode marks ts)
    unfolding turns_entries
    turns_entries-Others mode marks [] h = tt
    turns_entries-Others mode marks (t ∷ ts) h =
        Others-append k id _ _ (metered_turn-Others mode t _ (ground (arith, h)))
          (turns_entries-Others mode marks ts (ground (arith, h)))

    pub turns_entries-One :
        (mode : AccrualMode) (marks : Watermarks) (ts : List TurnObs) (low : ℕ)
        → IsDistinct (map (λ t. t.session_id) ts)
        → All
            (λ t. (from : ℕ) → span_start (marks.sessions id) t.started_at ≡ some from → low ≤ from)
            ts
        → One k id low (now + 59_999) (turns_entries now settings prices mode marks ts)
    unfolding turns_entries
    turns_entries-One mode marks [] low d h = tt
    turns_entries-One mode marks (t ∷ ts) low (new, d) (h, hs) =
        elim (Bool-cases (t.session_id == id)) [
          | inl same ↦
              One-append_right k id low _ _ _
                (metered_turn-One mode t _ low
                  (λ from e. h from (ap_id ((eq_iff t.session_id id).0 same) ∙ e)))
                (turns_entries-Others mode marks ts (
                  subst (λ x. includes (map (λ t. t.session_id) ts) x ≡ false)
                    ((eq_iff t.session_id id).0 same) new))
          | inr far ↦
              One-append_left k id low _ _ _ (metered_turn-Others mode t _ far)
                (turns_entries-One mode marks ts low d hs)
        ]
      where
        ap_id :
            t.session_id ≡ id
            → span_start (marks.sessions id) t.started_at
              ≡ span_start (marks.sessions t.session_id) t.started_at
        ap_id e = rw e refl
