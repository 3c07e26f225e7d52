-- ===== src/Tests/Reports.antt =====
-- A late report, and a sweep of the routing states.
use mathlib.Core.Option
use devproofai.Base.{
  String, ◌≡◌, refl, Bool, true, false, List, [], ◌∷◌, none, some, arith, truthy, find_row,
}
use devproofai.Store.Rows.{Status}
use devproofai.Store.Sessions.{get_session, Extras}
use devproofai.Actions.Report.{reported, report_status, listed}
use devproofai.Actions.Report.Stale.{report_status_stale}
use devproofai.Platform.RoutingState.{
  Tables, Deployment, RoutingState, model_key, sweep_model_routing,
}
use devproofai.Platform.RoutingState.Rows.{deployment_key}
use devproofai.Platform.RoutingState.Projection.{sweep_model_routing_lem, swept}
use devproofai.Tests.Stores.{store, session}

abbrev salvage : Extras
salvage = record { sdk_session_id = none; checkpoint_file_id = some "f7" }

found_running : get_session store "s1" ≡ some (session "s1" Status.running 2 none)
unfolding get_session
found_running = refl

report_status_stale_example :
    ((report_status store "s1" Status.idle salvage (some 1) 99).1
      ≡ reported false (listed (truthy (some "f7"))))
    × ((j : String)
        → get_session (report_status store "s1" Status.idle salvage (some 1) 99).0 j
          ≡ get_session store j)
report_status_stale_example =
    report_status_stale store "s1" Status.idle salvage 1 99 found_running refl (omega arith)

abbrev tables : Tables
tables = record {
  model_routing =
      record { model = "gone"; state = RoutingState.ready; phase = some "Ready" }
      ∷ record { model = "qwen"; state = RoutingState.waking; phase = some "Pending" }
      ∷ [];
  wake_requests = "qwen" ∷ "gone" ∷ [];
}

abbrev deployments : List Deployment
deployments =
    record { name = "qwen"; phase = "Idle" } ∷ record { name = "phi"; phase = "Ready" } ∷ []

abbrev warmed : String → Bool
warmed m = true

abbrev patch_fails : String → Bool
patch_fails m = false

sweep_model_routing_lem_example :
    ((j : String)
      → find_row model_key j
          (sweep_model_routing patch_fails warmed tables deployments).model_routing
        ≡ Option.map
            (swept patch_fails warmed tables.wake_requests)
            (find_row deployment_key j deployments))
    × ((sweep_model_routing patch_fails warmed tables deployments).wake_requests ≡ [])
sweep_model_routing_lem_example =
    sweep_model_routing_lem patch_fails warmed tables deployments (refl, (refl, tt))
