-- ===== src/Platform/RoutingState/Projection.antt =====
-- The table of routing states after a sweep.
use mathlib.Core.Option
use devproofai.Base.{
  String, ◌≡◌, refl, ap, ◌∙◌, sym, subst, Bool, true, false, List, [], ◌∷◌, Option, none, some,
  arith, ◌==◌, if◌then◌else◌, map, includes, is_some, find_row, IsDistinct, Bool-cases, any, not,
  ◌&&◌, ◌||◌, inl, inr, eq_iff,
}
use devproofai.Platform.RoutingState.{
  RoutingState, Deployment, RoutingRow, Tables, model_key, set_model_routing, prune_model_routing,
  routing_state_for, set_rows, sweep_model_routing, sleeps, is_asleep, wake_model,
  clear_wake_request, heal_one, heal_all, take_wake_requests, heal_taken,
}
use devproofai.Platform.RoutingState.Rows.{
  deployment_key, to_waking, find_row-set_model_routing, find_row-set_waking,
  find_row-prune_model_routing, deployed, includes-names,
}

module _ (patch_fails : String → Bool) (is_warmed : String → Bool) where
  -- The projection of a deployment.
  pub row_for : Deployment → RoutingRow
  row_for d = record {
    model = d.name;
    state = routing_state_for d.phase (is_warmed d.name);
    phase = some d.phase;
  }

  placed :
      (b : Bool) (d : Deployment) (o : Option Deployment) (old : Option RoutingRow)
      → (b ≡ true → o ≡ none)
      → (elim o [ none ↦ (if b then some (row_for d) else old) | some e ↦ some (row_for e) ])
        ≡ (elim (if b then some d else o) [ none ↦ old | some e ↦ some (row_for e) ])
  placed true d none old h = refl
  placed true d (some e) old h = absurd (is_none (h refl))
    where
      is_none : some e ≡ none → ⊥
      is_none k = cc
  placed false d none old h = refl
  placed false d (some e) old h = refl

  not_again :
      (d : Deployment) (ds : List Deployment) (j : String)
      → includes (map (λ d. d.name) ds) d.name ≡ false
      → (d.name == j) ≡ true
      → find_row deployment_key j ds ≡ none
  not_again d ds j new same = by_option (find_row deployment_key j ds) (
      sym (includes-names ds j)
      ∙ ap (includes (map (λ d. d.name) ds)) (sym ((eq_iff d.name j).0 same))
      ∙ new)
    where
      by_option : (o : Option Deployment) → is_some o ≡ false → o ≡ none
      by_option none h = refl
      by_option (some e) h = cc

  find_row-set_rows :
      (ds : List Deployment) (rows : List RoutingRow) (j : String)
      → IsDistinct (map (λ d. d.name) ds)
      → find_row model_key j (set_rows patch_fails is_warmed rows ds)
        ≡ (elim (find_row deployment_key j ds) [
          | none ↦ find_row model_key j rows
          | some d ↦ some (row_for d)
        ])
  unfolding set_rows row_for
  find_row-set_rows [] rows j h = refl
  find_row-set_rows (d ∷ ds) rows j (new, h) =
      find_row-set_rows ds
        (set_model_routing rows d.name (routing_state_for d.phase (is_warmed d.name))
          (some d.phase))
        j h
      ∙ ap
          (λ (x : Option RoutingRow). elim (find_row deployment_key j ds) [
            | none ↦ x
            | some e ↦ some (row_for e)
          ])
          (find_row-set_model_routing rows d.name (routing_state_for d.phase (is_warmed d.name))
            d.phase j)
      ∙ placed (d.name == j) d (find_row deployment_key j ds) (find_row model_key j rows)
          (not_again d ds j new)

  kept_or_none :
      (o : Option Deployment) (old : Option RoutingRow)
      → (if is_some o then (elim o [ none ↦ old | some d ↦ some (row_for d) ]) else none)
        ≡ Option.map row_for o
  kept_or_none none old = refl
  kept_or_none (some d) old = refl

  -- A request that is healed: its deployment sleeps, and its patch succeeds.
  wakes : List Deployment → String → Bool
  wakes ds m = sleeps ds m && not (patch_fails m)

  find_row-wake_model :
      (t : Tables) (m j : String)
      → is_some (find_row model_key m t.model_routing) ≡ true
      → find_row model_key j (wake_model patch_fails t m).model_routing ≡ (
          if not (patch_fails m) && (m == j)
          then Option.map to_waking (find_row model_key j t.model_routing)
          else find_row model_key j t.model_routing)
  unfolding wake_model clear_wake_request
  find_row-wake_model t m j there = elim (Bool-cases (patch_fails m)) [
    | inl fails ↦ rw fails refl
    | inr works ↦ rw works (find_row-set_waking t.model_routing m j there)
  ]

  find_row-heal_one :
      (ds : List Deployment) (t : Tables) (m j : String)
      → (sleeps ds m ≡ true → is_some (find_row model_key m t.model_routing) ≡ true)
      → find_row model_key j (heal_one patch_fails ds t m).model_routing ≡ (
          if wakes ds m && (m == j)
          then Option.map to_waking (find_row model_key j t.model_routing)
          else find_row model_key j t.model_routing)
  unfolding heal_one wakes
  find_row-heal_one ds t m j there = elim (Bool-cases (sleeps ds m)) [
    | inl asleep ↦ rw asleep (find_row-wake_model t m j (there asleep))
    | inr awake ↦ rw awake refl
  ]

  woken_once :
      (b c : Bool) (o : Option RoutingRow)
      → (if b
          then Option.map to_waking (if c then Option.map to_waking o else o)
          else if c
          then Option.map to_waking o
          else o)
        ≡ (if c || b then Option.map to_waking o else o)
  unfolding to_waking
  woken_once true true none = refl
  woken_once true true (some r) = refl
  woken_once true false o = refl
  woken_once false true o = refl
  woken_once false false o = refl

  some_row :
      (b : Bool) (o : Option RoutingRow)
      → is_some o ≡ true
      → is_some (if b then Option.map to_waking o else o) ≡ true
  some_row b none h = cc
  some_row true (some r) h = refl
  some_row false (some r) h = refl

  find_row-heal_all :
      (ds : List Deployment) (t : Tables) (ms : List String) (j : String)
      → ((m : String) → sleeps ds m ≡ true → is_some (find_row model_key m t.model_routing) ≡ true)
      → find_row model_key j (heal_all patch_fails ds t ms).model_routing ≡ (
          if any (λ m. wakes ds m && (m == j)) ms
          then Option.map to_waking (find_row model_key j t.model_routing)
          else find_row model_key j t.model_routing)
  unfolding heal_all
  find_row-heal_all ds t [] j there = refl
  find_row-heal_all ds t (m ∷ ms) j there =
      find_row-heal_all ds (heal_one patch_fails ds t m) ms j (λ k asleep.
        subst (λ o. is_some o ≡ true) (sym (find_row-heal_one ds t m k (there m)))
          (some_row (wakes ds m && (m == k)) (find_row model_key k t.model_routing)
            (there k asleep)))
      ∙ rw (find_row-heal_one ds t m j (there m)) (
          woken_once (any (λ m. wakes ds m && (m == j)) ms) (wakes ds m && (m == j))
            (find_row model_key j t.model_routing))

  no_request-heal_all :
      (ds : List Deployment) (t : Tables) (ms : List String)
      → t.wake_requests ≡ []
      → (heal_all patch_fails ds t ms).wake_requests ≡ []
  unfolding heal_all heal_one wake_model clear_wake_request
  no_request-heal_all ds t [] h = h
  no_request-heal_all ds t (m ∷ ms) h =
      no_request-heal_all ds (heal_one patch_fails ds t m) ms (ground (arith, h))

  asked_at :
      (ds : List Deployment) (ms : List String) (j : String)
      → any (λ m. wakes ds m && (m == j)) ms ≡ (includes ms j && wakes ds j)
  asked_at ds [] j = refl
  asked_at ds (m ∷ ms) j = elim (Bool-cases (m == j)) [
    | inl same ↦
        let e : wakes ds m ≡ wakes ds j = ap (wakes ds) ((eq_iff m j).0 same) in
        ground (arith, asked_at ds ms j, e, same)
    | inr far ↦ ground (arith, asked_at ds ms j, far)
  ]

  -- A deployment's row after a sweep that took the requests `asked`.
  pub swept : List String → Deployment → RoutingRow
  swept asked d =
      if includes asked d.name && ((d.phase == "Idle") && not (patch_fails d.name))
      then record (row_for d) { state = RoutingState.waking }
      else row_for d

  wakes_at :
      (ds : List Deployment) (j : String) (d : Deployment)
      → find_row deployment_key j ds ≡ some d
      → wakes ds j ≡ ((d.phase == "Idle") && not (patch_fails d.name))
  unfolding wakes sleeps is_asleep
  wakes_at ds j d h = rw (wakes, sleeps, h, deployed ds j d h, is_asleep) refl

  asleep_found :
      (ds : List Deployment) (m : String)
      → sleeps ds m ≡ true
      → (o : Option Deployment) → find_row deployment_key m ds ≡ o
      → is_some (Option.map row_for o) ≡ true
  unfolding sleeps is_asleep
  asleep_found ds m asleep none e = absurd (gone (rw (sleeps, e) at asleep))
    where
      gone : false ≡ true → ⊥
      gone k = cc
  asleep_found ds m asleep (some d) e = refl

  waking_if :
      (b : Bool) (r : RoutingRow)
      → (if b then some (to_waking r) else some r) ≡ some (if b then to_waking r else r)
  waking_if true r = refl
  waking_if false r = refl

  swept_at :
      (ds : List Deployment) (asked : List String) (j : String) (o : Option Deployment)
      → find_row deployment_key j ds ≡ o
      → (if includes asked j && wakes ds j
          then Option.map to_waking (Option.map row_for o)
          else Option.map row_for o)
        ≡ Option.map (swept asked) o
  unfolding swept to_waking
  swept_at ds asked j none h = ground arith
  swept_at ds asked j (some d) h =
      rw (wakes_at ds j d h, ← deployed ds j d h)
        (waking_if (includes asked d.name && ((d.phase == "Idle") && not (patch_fails d.name)))
          (row_for d))

  -- The tables when the requests are taken.
  abbrev pruned : Tables → List Deployment → Tables
  pruned t ds = record {
    model_routing =
        prune_model_routing (set_rows patch_fails is_warmed t.model_routing ds)
          (map (λ d. d.name) ds);
    wake_requests = [];
  }

  -- After a sweep over deployments with distinct names, the table is their projection: a deployment
  -- has the row with its phase and the state that its phase and its warmth give, but waking if a
  -- wake of it was requested, it is Idle and the patch of it does not throw; any other model has no
  -- row. No wake request is left, whatever the tables held before.
  pub sweep_model_routing_lem :
      (t : Tables) (ds : List Deployment)
      → IsDistinct (map (λ d. d.name) ds)
      → ((j : String)
          → find_row model_key j (sweep_model_routing patch_fails is_warmed t ds).model_routing
            ≡ Option.map (swept t.wake_requests) (find_row deployment_key j ds))
        × ((sweep_model_routing patch_fails is_warmed t ds).wake_requests ≡ [])
  unfolding sweep_model_routing take_wake_requests heal_taken
  sweep_model_routing_lem t ds h = (
    λ j.
        find_row-heal_all ds (pruned t ds) t.wake_requests j (λ m asleep. there m asleep)
        ∙ rw (asked_at ds t.wake_requests j, projected j)
            (swept_at ds t.wake_requests j (find_row deployment_key j ds) refl),
    no_request-heal_all ds (pruned t ds) t.wake_requests refl,
  )
    where
      projected :
          (j : String)
          → find_row model_key j (pruned t ds).model_routing
            ≡ Option.map row_for (find_row deployment_key j ds)
      projected j =
          find_row-prune_model_routing (set_rows patch_fails is_warmed t.model_routing ds)
            (map (λ d. d.name) ds) j
          ∙ rw (includes-names ds j, find_row-set_rows ds t.model_routing j h)
              (kept_or_none (find_row deployment_key j ds) (find_row model_key j t.model_routing))

      there :
          (m : String)
          → sleeps ds m ≡ true
          → is_some (find_row model_key m (pruned t ds).model_routing) ≡ true
      there m asleep =
          rw (projected m) (asleep_found ds m asleep (find_row deployment_key m ds) refl)
