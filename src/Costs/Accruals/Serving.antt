-- ===== src/Costs/Accruals/Serving.antt =====
-- The entries that one accrual makes for deployments are of no kind that sessions have.
use devproofai.Base.{
  ℕ, ◌*◌, ◌+◌, String, ◌≡◌, refl, Bool, true, false, ◌&&◌, List, [], ◌∷◌, Option, none, some,
  nat_eq, inl, inr, Bool-cases,
}
use devproofai.Platform.Settings.{CostSettings}
use devproofai.Costs.Prices.{TimePrice, rate_per_second}
use devproofai.Costs.Span.{tick, raw_ms, quantize_sec}
use devproofai.Costs.Accruals.{
  DeploymentObs, EntryKind, CostEntry, PriceRow, Watermarks, wanted, deployment_entry, pool_price,
  deployment_price, planted, metered, watched, deployments_entries, cost, no_cost,
}
use devproofai.Costs.Ledger.{is_deployment_kind}
use devproofai.Costs.Ledger.Chain.{kind_no, matches, Others, Others-append}

module _ (k : EntryKind) (of_sessions : is_deployment_kind k ≡ false) (id : String) where
  wanted-Others :
      (on : Bool) (o : Option TimePrice) (make : TimePrice → CostEntry)
      → ((p : TimePrice) → matches k id (make p) ≡ false)
      → Others k id (wanted on o make)
  unfolding wanted
  wanted-Others on none make h = tt
  wanted-Others true (some p) make h = (h p, tt)
  wanted-Others false (some p) make h = tt

  not_serving : (k : EntryKind) → is_deployment_kind k ≡ false → nat_eq 0 (kind_no k) ≡ false
  not_serving EntryKind.pool_pod h = cc
  not_serving EntryKind.deployment_time h = cc
  not_serving EntryKind.env_pod h = refl
  not_serving EntryKind.session_time h = refl

  not_served : (k : EntryKind) → is_deployment_kind k ≡ false → nat_eq 1 (kind_no k) ≡ false
  not_served EntryKind.pool_pod h = cc
  not_served EntryKind.deployment_time h = cc
  not_served EntryKind.env_pod h = refl
  not_served EntryKind.session_time h = refl

  module _ (now : ℕ) (settings : CostSettings) (prices : List PriceRow) where
    planted-Others : (d : DeploymentObs) → Others k id (planted now settings prices d)
    unfolding planted deployment_entry matches
    planted-Others d =
        Others-append k id
          (wanted (settings.enabled && settings.track_pool_costs) (pool_price now settings prices d)
            (λ p. deployment_entry EntryKind.pool_pod d 0 now (some no_cost) none))
          (wanted (settings.billing.enabled && settings.billing.bill_deployment_time)
            (deployment_price now settings prices d)
            (λ p. deployment_entry EntryKind.deployment_time d 0 now none (some no_cost)))
          (wanted-Others (settings.enabled && settings.track_pool_costs)
            (pool_price now settings prices d)
            (λ p. deployment_entry EntryKind.pool_pod d 0 now (some no_cost) none)
            (λ p. rw (not_serving k of_sessions) refl))
          (wanted-Others (settings.billing.enabled && settings.billing.bill_deployment_time)
            (deployment_price now settings prices d)
            (λ p. deployment_entry EntryKind.deployment_time d 0 now none (some no_cost))
            (λ p. rw (not_served k of_sessions) refl))

    metered-Others :
        (d : DeploymentObs) (from sec : ℕ) → Others k id (metered now settings prices d from sec)
    unfolding metered deployment_entry matches
    metered-Others d from sec =
        Others-append k id
          (wanted (settings.enabled && settings.track_pool_costs) (pool_price now settings prices d)
            (λ p.
              deployment_entry EntryKind.pool_pod d sec (from + sec * 1000)
                (some (cost (rate_per_second p) (d.ready_replicas * sec))) none))
          (wanted (settings.billing.enabled && settings.billing.bill_deployment_time)
            (deployment_price now settings prices d)
            (λ p.
              deployment_entry EntryKind.deployment_time d sec (from + sec * 1000) none
                (some (cost (rate_per_second p) (d.ready_replicas * sec)))))
          (wanted-Others (settings.enabled && settings.track_pool_costs)
            (pool_price now settings prices d)
            (λ p.
              deployment_entry EntryKind.pool_pod d sec (from + sec * 1000)
                (some (cost (rate_per_second p) (d.ready_replicas * sec))) none)
            (λ p. rw (not_serving k of_sessions) refl))
          (wanted-Others (settings.billing.enabled && settings.billing.bill_deployment_time)
            (deployment_price now settings prices d)
            (λ p.
              deployment_entry EntryKind.deployment_time d sec (from + sec * 1000) none
                (some (cost (rate_per_second p) (d.ready_replicas * sec))))
            (λ p. rw (not_served k of_sessions) refl))

    watched-Others :
        (d : DeploymentObs) (o : Option ℕ) → Others k id (watched now settings prices d o)
    unfolding watched
    watched-Others d none = planted-Others d
    watched-Others d (some from) =
        elim (Bool-cases (nat_eq (quantize_sec (raw_ms now from) tick) 0)) [
          | inl short ↦ rw short tt
          | inr long ↦ rw long (metered-Others d from (quantize_sec (raw_ms now from) tick))
        ]

    pub deployments_entries-Others :
        (marks : Watermarks) (ds : List DeploymentObs)
        → Others k id (deployments_entries now settings prices marks ds)
    unfolding deployments_entries
    deployments_entries-Others marks [] = tt
    deployments_entries-Others marks (d ∷ ds) = elim (Bool-cases (nat_eq d.ready_replicas 0)) [
      | inl asleep ↦ rw asleep (deployments_entries-Others marks ds)
      | inr ready ↦ rw ready (
          Others-append k id (watched now settings prices d (marks.deployments d.name))
            (deployments_entries now settings prices marks ds)
            (watched-Others d (marks.deployments d.name)) (deployments_entries-Others marks ds))
    ]
