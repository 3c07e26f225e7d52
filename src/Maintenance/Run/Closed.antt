-- ===== src/Maintenance/Run/Closed.antt =====
-- The sweep of the cluster is closed against lists that could not be read.
use devproofai.Base.{
  String, ◌≡◌, refl, Bool, true, false, List, ◌∷◌, Option, none, some, ◌⊎◌, inl, inr, if◌then◌else◌,
  map, ℕ,
}
use devproofai.Maintenance.Settings.{MaintenanceSettings}
use devproofai.Maintenance.Run.{
  Site, Section, Spared, Outside, Answer, ids_of, spared, sweep, k8s_section,
}

module _ (out : Outside) (m : MaintenanceSettings) (now : ℕ) (w : Site) where
  -- Every id that the tables hold.
  abbrev live : Spared
  live = record {
    vaults = w.vaults;
    environments = w.db.environments;
    sessions = map (λ s. s.id) w.db.sessions;
  }

  pub record IsSwept (v : Site) : Type 0 where
    pub vaults : out.broken "vaults" ≡ none
    pub environments : out.broken "environments" ≡ none
    pub sessions : out.broken "sessions" ≡ none
    pub site : v ≡ record w { swept = live ∷ w.swept }

  on-IsSwept :
      (on : Bool) (s : Section) (r : Site × Section)
      → (r.0 ≡ w) ⊎ IsSwept r.0
      → ((if on then r else (w, s)).0 ≡ w) ⊎ IsSwept (if on then r else (w, s)).0
  on-IsSwept true s r h = h
  on-IsSwept false s r h = inl refl

  sweep-IsSwept :
      (f : Option (Spared → Answer (List String))) (v e s : Option String)
      → out.broken "vaults" ≡ v
      → out.broken "environments" ≡ e
      → out.broken "sessions" ≡ s
      → ((sweep out m now f
            (spared out m now
              (ids_of out m now v live.vaults)
              (ids_of out m now e live.environments)
              (ids_of out m now s live.sessions))
            w).0
          ≡ w)
        ⊎ IsSwept
            (sweep out m now f
              (spared out m now
                (ids_of out m now v live.vaults)
                (ids_of out m now e live.environments)
                (ids_of out m now s live.sessions))
              w).0
  unfolding sweep spared ids_of
  sweep-IsSwept none v e s a b c = inl refl
  sweep-IsSwept (some f) (some x) e s a b c = inl refl
  sweep-IsSwept (some f) none (some y) s a b c = inl refl
  sweep-IsSwept (some f) none none (some z) a b c = inl refl
  sweep-IsSwept (some f) none none none a b c =
      inr (record { vaults = a; environments = b; sessions = c; site = refl })

  -- The section of the cluster changes nothing, or the lists of vaults, of environments and of
  -- sessions were all read and the cluster is swept once, told to spare every id of them.
  pub k8s_section-IsSwept : ((k8s_section out m now w).0 ≡ w) ⊎ IsSwept (k8s_section out m now w).0
  unfolding k8s_section
  k8s_section-IsSwept = on-IsSwept m.k8s _ _ (
      sweep-IsSwept out.sweep_k8s (out.broken "vaults") (out.broken "environments")
        (out.broken "sessions") refl refl refl)
