-- ===== src/Costs/Accruals/Again.antt =====
-- A turn whose pod started more than a day ago, and that has no entry of the last day.
use devproofai.Base.{
  ◌==◌, not, length, if◌then◌else◌, eq_refl, ℕ, ◌+◌, ◌*◌, ◌≤◌, String, ◌≡◌, refl, ◌∙◌, Bool, true,
  false, ◌&&◌, List, [], ◌∷◌, ◌++◌, Option, none, some, arith, ltb, All, All-append,
}
use devproofai.Platform.Settings.{CostSettings}
use devproofai.Costs.Prices.{TimePrice}
use devproofai.Costs.Span.{AccrualMode, tick, settle, span_start, raw_ms, quantize_sec}
use devproofai.Costs.Accruals.{
  TurnObs, CostEntry, EntryKind, PriceRow, compute_accruals, wanted, env_entry, session_entry,
  turn_entry, env_entries, session_entries, billed_turn, metered_turn, turns_entries,
  deployments_entries, price_of, price_row,
}
use devproofai.Costs.Ledger.Chain.{total_seconds, matches}
use devproofai.Costs.Ledger.{
  watermark, later, is_deployment_kind, cost_watermarks, insert_cost_entries, accrue, needs_time,
}

-- The entry ended more than a day ago.
abbrev Old : ℕ → List CostEntry → Type 0
Old now ns = All (λ e. ltb now (e.ts + 86_400_000) ≡ false) ns

watermark-insert-Old :
    (now : ℕ) (id : String) (es ns : List CostEntry)
    → Old now ns
    → watermark false now id (insert_cost_entries es ns) ≡ watermark false now id es
unfolding insert_cost_entries
watermark-insert-Old now id es [] h = refl
watermark-insert-Old now id es (n ∷ ns) (o, h) = watermark-insert-Old now id (n ∷ es) ns h ∙ skipped
  where
    skipped : watermark false now id (n ∷ es) ≡ watermark false now id es
    skipped = unfold watermark in ground (arith, o)

-- The accruals of a turn at the times of a list, one after the other.
pub accrue_at :
    CostSettings → List PriceRow → AccrualMode → TurnObs → List ℕ → List CostEntry → List CostEntry
accrue_at settings prices mode t [] es = es
accrue_at settings prices mode t (n ∷ ns) es =
    accrue_at settings prices mode t ns (accrue settings prices [] (t ∷ []) n mode es)

module _ (now : ℕ) where
  wanted-Old :
      (on : Bool) (o : Option TimePrice) (make : TimePrice → CostEntry)
      → ((p : TimePrice) → ltb now ((make p).ts + 86_400_000) ≡ false)
      → Old now (wanted on o make)
  unfolding wanted
  wanted-Old on none make h = tt
  wanted-Old true (some p) make h = (h p, tt)
  wanted-Old false (some p) make h = tt

  module _ (settings : CostSettings) (prices : List PriceRow) (mode : AccrualMode) (t : TurnObs)
      (start : ℕ) (old : start + 86_520_000 ≤ now) where
    -- Two minutes after the start of the pod a span ends that is too old for `now`.
    billed_turn-Old : (n : ℕ) → Old now (billed_turn n settings prices t start 120)
    unfolding billed_turn env_entries session_entries env_entry session_entry turn_entry
    billed_turn-Old n =
        All-append (λ e. ltb now (e.ts + 86_400_000) ≡ false)
          (env_entries n settings prices t start 120)
          (session_entries n settings prices t start 120)
          (wanted-Old (settings.enabled && settings.track_env_costs)
            (price_of (price_row prices "environment" t.environment_id) (λ p. p.real_pod_time))
            (env_entry t start 120) (λ p. ends))
          (wanted-Old (settings.billing.enabled && settings.billing.bill_session_time)
            (price_of (price_row prices "environment" t.environment_id)
              (λ p. p.billing_session_time))
            (session_entry t start 120) (λ p. ends))
      where
        ends : ltb now (start + 120 * 1000 + 86_400_000) ≡ false
        ends = ground (arith, old)

    -- What is metered for such a turn at `n`, or later: two minutes from the start of its pod.
    metered_old :
        (n : ℕ)
        → now ≤ n
        → metered_turn n settings prices mode t (some start)
          ≡ billed_turn n settings prices t start 120
    unfolding metered_turn
    metered_old n h = rw (capped, whole mode) refl
      where
        capped : raw_ms n start ≡ 120_000
        capped = unfold raw_ms in ground (arith, h, old)

        whole : (m : AccrualMode) → quantize_sec 120_000 m ≡ 120
        whole tick = unfold quantize_sec in refl
        whole settle = unfold quantize_sec in refl

    module _ (rate : TimePrice) (began : t.started_at ≡ some start)
        (billed : (settings.billing.enabled && settings.billing.bill_session_time) ≡ true)
        (priced : price_of
            (price_row prices "environment" t.environment_id)
            (λ p. p.billing_session_time)
          ≡ some rate) where
      same_entries :
          (n : ℕ) (es : List CostEntry)
          → now ≤ n
          → watermark false n t.session_id es ≡ none
          → accrue settings prices [] (t ∷ []) n mode es
            ≡ insert_cost_entries es (billed_turn n settings prices t start 120 ++ [])
      unfolding accrue compute_accruals cost_watermarks deployments_entries turns_entries span_start
          needs_time
      same_entries n es h u = rw (time_on, u, began, metered_old n h) refl
        where
          time_on : needs_time settings ≡ true
          time_on = ground (arith, billed)

      -- No mark in the day before `now` is none in the day before a later time.
      later_unmarked :
          (n : ℕ) (es : List CostEntry)
          → now ≤ n
          → watermark false now t.session_id es ≡ none
          → watermark false n t.session_id es ≡ none
      unfolding watermark
      later_unmarked n [] h u = refl
      later_unmarked n (e ∷ es) h u =
          let (off, rest) = unmarked _ e.ts (watermark false now t.session_id es) u in
          let off_later : ((e.subject == t.session_id)
                && not (is_deployment_kind e.kind)
                && ltb n (e.ts + 86_400_000))
              ≡ false =
            ground (arith, off, h) in
          rw (off_later, later_unmarked n es h rest) refl
        where
          unmarked :
              (b : Bool) (ts : ℕ) (r : Option ℕ)
              → (if b then later ts r else r) ≡ none
              → (b ≡ false) × (r ≡ none)
          unmarked true ts none g = cc
          unmarked true ts (some u) g = cc
          unmarked false ts r g = (refl, g)

      session_seconds :
          (n : ℕ) (es : List CostEntry)
          → total_seconds EntryKind.session_time t.session_id
              (insert_cost_entries es (billed_turn n settings prices t start 120 ++ []))
            ≡ total_seconds EntryKind.session_time t.session_id es + 120
      unfolding billed_turn env_entries session_entries wanted env_entry session_entry turn_entry
          total_seconds matches insert_cost_entries
      session_seconds n es =
          rw (billed, priced)
            (of_env (settings.enabled && settings.track_env_costs)
              (price_of (price_row prices "environment" t.environment_id) (λ p. p.real_pod_time)))
        where
          of_env :
              (on : Bool) (o : Option TimePrice)
              → total_seconds EntryKind.session_time t.session_id (
                  insert_cost_entries es (
                    (wanted on o (env_entry t start 120)
                      ++ wanted true (some rate) (session_entry t start 120))
                    ++ []))
                ≡ total_seconds EntryKind.session_time t.session_id es + 120
          of_env on none = rw (eq_refl t.session_id) (omega arith)
          of_env true (some p) = rw (eq_refl t.session_id) (omega arith)
          of_env false (some p) = rw (eq_refl t.session_id) (omega arith)

      still_unmarked :
          (n : ℕ) (es : List CostEntry)
          → watermark false now t.session_id es ≡ none
          → watermark false now t.session_id
              (insert_cost_entries es (billed_turn n settings prices t start 120 ++ []))
            ≡ none
      still_unmarked n es u =
          watermark-insert-Old now t.session_id es (billed_turn n settings prices t start 120 ++ [])
            (All-append (λ e. ltb now (e.ts + 86_400_000) ≡ false)
              (billed_turn n settings prices t start 120) [] (billed_turn-Old n) tt)
          ∙ u

      -- A turn whose pod started at least a day and two minutes before `now`, whose session has no
      -- entry of the day before `now`, and whose session time is billed at a price: its
      -- accruals at any times from `now` on, all ticks or all settlements and however many there
      -- are, each meter 120 seconds of session time.
      pub total_seconds-accrue_at :
          (ns : List ℕ) (es : List CostEntry)
          → All (λ n. now ≤ n) ns
          → watermark false now t.session_id es ≡ none
          → total_seconds EntryKind.session_time t.session_id
              (accrue_at settings prices mode t ns es)
            ≡ total_seconds EntryKind.session_time t.session_id es + 120 * length ns
      unfolding accrue_at
      total_seconds-accrue_at [] es h u = omega arith
      total_seconds-accrue_at (n ∷ ns) es (h, hs) u =
          let e = same_entries n es h (later_unmarked n es h u) in
          let more =
            total_seconds-accrue_at ns
              (insert_cost_entries es (billed_turn n settings prices t start 120 ++ [])) hs
              (still_unmarked n es u) in
          rw e (more ∙ omega (arith, session_seconds n es))
