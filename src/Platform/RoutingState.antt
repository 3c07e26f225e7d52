-- ===== src/Platform/RoutingState.antt =====
-- `sweepModelRouting` of routing-state.ts over the tables model_routing and wake_requests
-- (`setModelRouting`, `pruneModelRouting`, `takeWakeRequests` of repo.ts), with `wakeModel` of
-- wake.ts, which it calls.
pub mod Rows
pub mod Projection
use devproofai.Base.{
  ℕ, String, Bool, true, false, not, ◌&&◌, List, [], ◌∷◌, ◌++◌, Option, none, some, ◌==◌,
  if◌then◌else◌, filter, map, includes, is_some, find_row, update_row,
}

pub data RoutingState : Type 0 where
  ready idle waking : RoutingState

pub record Deployment : Type 0 where
  pub name : String
  pub phase : String

pub record RoutingRow : Type 0 where
  pub model : String
  pub state : RoutingState
  pub phase : Option String

pub record Tables : Type 0 where
  pub model_routing : List RoutingRow
  pub wake_requests : List String

unfoldable pub routing_state_for : String → Bool → RoutingState
routing_state_for phase warmed =
    if (phase == "Ready") && warmed then ready else if phase == "Idle" then idle else waking

abbrev pub model_key : RoutingRow → String
model_key r = r.model

-- A new row whose phase is not given holds NULL.
pub new_row : String → RoutingState → Option String → RoutingRow
new_row model state phase = record { model = model; state = state; phase = phase }

-- COALESCE(EXCLUDED.phase, model_routing.phase)
pub phase_or_kept : Option String → Option String → Option String
phase_or_kept none old = old
phase_or_kept (some phase) old = some phase

-- INSERT … ON CONFLICT (model) DO UPDATE
unfoldable pub set_model_routing :
    List RoutingRow → String → RoutingState → Option String → List RoutingRow
unfolding new_row phase_or_kept
set_model_routing rows model state phase =
    if is_some (find_row model_key model rows)
    then update_row model_key model
        (λ q. record q { state = state; phase = phase_or_kept phase q.phase }) rows
    else rows ++ new_row model state phase ∷ []

-- DELETE … WHERE NOT (model = ANY(keep))
unfoldable pub prune_model_routing : List RoutingRow → List String → List RoutingRow
prune_model_routing rows keep = filter (λ r. includes keep r.model) rows

-- DELETE FROM wake_requests RETURNING model
unfoldable pub take_wake_requests : Tables → List String × Tables
take_wake_requests t = (t.wake_requests, record t { wake_requests = [] })

unfoldable pub clear_wake_request : Tables → String → Tables
clear_wake_request t model = record t {
  wake_requests = filter (λ m. not (m == model)) t.wake_requests;
}

unfoldable pub delete_model_routing : Tables → String → Tables
delete_model_routing t model =
    clear_wake_request
      (record t { model_routing = filter (λ r. not (r.model == model)) t.model_routing }) model

pub is_asleep : Option Deployment → Bool
is_asleep none = false
is_asleep (some d) = d.phase == "Idle"

-- A request is healed if its deployment still sleeps.
unfoldable pub sleeps : List Deployment → String → Bool
unfolding is_asleep
sleeps ds model = is_asleep (find_row (λ d. d.name) model ds)

-- `patch_fails model` says whether the patch of the deployment throws.
module _ (patch_fails : String → Bool) where
  -- An exception ends the wake; the sweep logs it and goes on.
  unfoldable pub wake_model : Tables → String → Tables
  wake_model t model =
      if patch_fails model
      then t
      else clear_wake_request
          (record t {
            model_routing = set_model_routing t.model_routing model RoutingState.waking none;
          })
          model

  pub heal_one : List Deployment → Tables → String → Tables
  unfolding wake_model sleeps
  heal_one ds t model = if sleeps ds model then wake_model t model else t

  pub heal_all : List Deployment → Tables → List String → Tables
  unfolding heal_one
  heal_all ds t [] = t
  heal_all ds t (m ∷ ms) = heal_all ds (heal_one ds t m) ms

  module _ (is_warmed : String → Bool) where
    unfoldable pub set_rows : List RoutingRow → List Deployment → List RoutingRow
    set_rows rows [] = rows
    set_rows rows (d ∷ ds) =
        set_rows
          (set_model_routing rows d.name (routing_state_for d.phase (is_warmed d.name))
            (some d.phase))
          ds

    -- The requests are taken first, and healed in order.
    pub heal_taken : List Deployment → List String × Tables → Tables
    unfolding heal_all
    heal_taken ds (asked, t) = heal_all ds t asked

    unfoldable pub sweep_model_routing : Tables → List Deployment → Tables
    unfolding set_rows heal_taken
    sweep_model_routing t ds = heal_taken ds (
        take_wake_requests (record t {
          model_routing = prune_model_routing (set_rows t.model_routing ds) (map (λ d. d.name) ds);
        }))
