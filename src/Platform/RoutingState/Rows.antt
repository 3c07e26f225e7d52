-- ===== src/Platform/RoutingState/Rows.antt =====
-- The rows of model_routing: what an upsert, a wake and a prune do to each.
use mathlib.Core.Option
use devproofai.Base.{
  String, ◌≡◌, refl, ap, ◌∙◌, sym, subst, Bool, true, false, List, [], ◌∷◌, Option, none, some,
  arith, ◌==◌, if◌then◌else◌, map, includes, is_some, find_row, find_row-append, Bool-cases,
  find_row-update_row, inl, inr, eq_iff,
}
use devproofai.Platform.RoutingState.{
  RoutingState, Deployment, RoutingRow, model_key, set_model_routing, prune_model_routing, new_row,
  phase_or_kept,
}

abbrev pub deployment_key : Deployment → String
deployment_key d = d.name

named :
    (rows : List RoutingRow) (model : String) (q : RoutingRow)
    → find_row model_key model rows ≡ some q
    → q.model ≡ model
named [] model q h = cc
named (r ∷ rows) model q h = elim (Bool-cases (r.model == model)) [
  | inl same ↦ of_head (rw same at h) ((eq_iff r.model model).0 same)
  | inr far ↦ named rows model q (rw far at h)
]
  where
    of_head : some r ≡ some q → r.model ≡ model → q.model ≡ model
    of_head e k = cc

-- The row is set, with the phase that is given.
pub find_row-set_model_routing :
    (rows : List RoutingRow) (model : String) (state : RoutingState) (phase j : String)
    → find_row model_key j (set_model_routing rows model state (some phase)) ≡ (
        if model == j
        then some (record { model = model; state = state; phase = some phase })
        else find_row model_key j rows)
unfolding set_model_routing new_row phase_or_kept
find_row-set_model_routing rows model state phase j =
    elim (Bool-cases (is_some (find_row model_key model rows))) [
      | inl there ↦ rw there (
          find_row-update_row model_key
            (λ (q : RoutingRow). record q { state = state; phase = some phase }) (λ r. refl) model j
            rows
          ∙ replaced (model == j) refl there)
      | inr new ↦ rw new (find_row-append model_key j rows _ ∙ ground (arith, new, eq_iff model j))
    ]
  where
    given :
        (o : Option RoutingRow)
        → is_some o ≡ true
        → ((q : RoutingRow) → o ≡ some q → q.model ≡ model)
        → Option.map (λ (q : RoutingRow). record q { state = state; phase = some phase }) o
          ≡ some (record { model = model; state = state; phase = some phase })
    given none h k = cc
    given (some q) h k = rw (k q refl) refl

    replaced :
        (b : Bool)
        → (model == j) ≡ b
        → is_some (find_row model_key model rows) ≡ true
        → (if b
            then Option.map
                (λ (q : RoutingRow). record q { state = state; phase = some phase })
                (find_row model_key j rows)
            else find_row model_key j rows)
          ≡ (if b
              then some (record { model = model; state = state; phase = some phase })
              else find_row model_key j rows)
    replaced false e h = refl
    replaced true e h =
        let same : model ≡ j = (eq_iff model j).0 e in
        given (find_row model_key j rows)
          (subst (λ k. is_some (find_row model_key k rows) ≡ true) same h)
          (λ q f. named rows j q f ∙ sym same)

-- What a wake makes of the row.
unfoldable pub to_waking : RoutingRow → RoutingRow
to_waking r = record r { state = RoutingState.waking }

-- A row that is there keeps its phase, if none is given.
pub find_row-set_waking :
    (rows : List RoutingRow) (model j : String)
    → is_some (find_row model_key model rows) ≡ true
    → find_row model_key j (set_model_routing rows model RoutingState.waking none) ≡ (
        if model == j
        then Option.map to_waking (find_row model_key j rows)
        else find_row model_key j rows)
unfolding set_model_routing phase_or_kept to_waking
find_row-set_waking rows model j there = rw there (
    find_row-update_row model_key
      (λ (q : RoutingRow). record q { state = RoutingState.waking; phase = q.phase }) (λ r. refl)
      model j rows)

pub find_row-prune_model_routing :
    (rows : List RoutingRow) (keep : List String) (j : String)
    → find_row model_key j (prune_model_routing rows keep)
      ≡ (if includes keep j then find_row model_key j rows else none)
unfolding prune_model_routing
find_row-prune_model_routing [] keep j = ground arith
find_row-prune_model_routing (r ∷ rows) keep j = elim (Bool-cases (r.model == j)) [
  | inl same ↦ at_row same ((eq_iff r.model j).0 same) (find_row-prune_model_routing rows keep j)
  | inr far ↦ ground (arith, far, find_row-prune_model_routing rows keep j)
]
  where
    at_row :
        (r.model == j) ≡ true
        → r.model ≡ j
        → find_row model_key j (prune_model_routing rows keep)
          ≡ (if includes keep j then find_row model_key j rows else none)
        → find_row model_key j (prune_model_routing (r ∷ rows) keep)
          ≡ (if includes keep j then find_row model_key j (r ∷ rows) else none)
    at_row same e rest = ground (arith, same, ap (includes keep) e, rest)

pub deployed :
    (ds : List Deployment) (j : String) (d : Deployment)
    → find_row deployment_key j ds ≡ some d
    → d.name ≡ j
deployed [] j d h = cc
deployed (e ∷ ds) j d h = elim (Bool-cases (e.name == j)) [
  | inl same ↦ of_head (rw same at h) ((eq_iff e.name j).0 same)
  | inr far ↦ deployed ds j d (rw far at h)
]
  where
    of_head : some e ≡ some d → e.name ≡ j → d.name ≡ j
    of_head q k = cc

pub includes-names :
    (ds : List Deployment) (j : String)
    → includes (map (λ d. d.name) ds) j ≡ is_some (find_row deployment_key j ds)
includes-names [] j = refl
includes-names (d ∷ ds) j = ground (arith, includes-names ds j)
