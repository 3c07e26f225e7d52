-- ===== src/Maintenance/Run.antt =====
-- `runMaintenance`: the sections in their order, each isolated from the errors of the others. The
-- counts of the summary are left out; which sections ran and what they failed with is kept.
pub mod Kept
pub mod Closed
use devproofai.Base.{
  ℕ, ◌+◌, String, Bool, true, false, not, ◌&&◌, ◌||◌, List, [], ◌∷◌, ◌++◌, Option, none, some,
  if◌then◌else◌, map,
}
use devproofai.Store.Rows.{Session, FileRow, Db}
use devproofai.Costs.Accruals.{CostEntry, PriceRow}
use devproofai.Files.{StoredObject, del_key, delete_file_record_by_id}
use devproofai.Files.Sessions.{delete_session_fully}
use devproofai.Maintenance.Expiry.{
  UsageRow, RejectRow, prune_cost_entries, prune_gateway_usage, prune_routing_rejects,
  prune_orphan_resource_prices, list_expired_sessions, list_expired_files,
}
use devproofai.Maintenance.Gc.{run_gc}
use devproofai.Maintenance.Settings.{Retention, MaintenanceSettings, retention_ms}

-- GRACE_MS
abbrev pub grace_ms : ℕ
grace_ms = 3_600_000

-- The ids that the sweep of the cluster is told to spare.
pub record Spared : Type 0 where
  pub vaults : List String
  pub environments : List String
  pub sessions : List String

-- What a run reads and changes; `swept` are the sweeps of the cluster, newest first.
pub record Site : Type 0 where
  pub db : Db
  pub objects : List StoredObject
  pub ledger : List CostEntry
  pub usage : List UsageRow
  pub rejects : List RejectRow
  pub prices : List PriceRow
  pub vaults : List String
  pub externals : List String
  pub swept : List Spared

-- A statement or a call that answers, or throws with a message.
pub data Answer {ℓ} (A : Type ℓ) : Type ℓ where
  threw : String → Answer A
  gave : A → Answer A

pub record Section : Type 0 where
  pub ran : Bool
  pub errors : List String

pub record Summary : Type 0 where
  pub billing : Section
  pub tokens : Section
  pub rejects : Section
  pub sessions : Section
  pub files : Section
  pub prices : Section
  pub k8s : Section
  pub orphans : Section

-- What is not under the control of the run: failing statements by name, the pods' answer to a
-- stop, objects that cannot be deleted, the listing of deployments, the sweep of the cluster.
pub record Outside : Type 0 where
  pub broken : String → Option String
  pub stops : String → Bool
  pub fails : String → Bool
  pub changed : Session → ℕ
  pub used : FileRow → ℕ
  pub list_serving : Option (Answer (List String × List String))
  pub sweep_k8s : Option (Spared → Answer (List String))

abbrev skipped : Section
skipped = record { ran = false; errors = [] }

-- `guard`: the section ran, with the errors that it caught.
abbrev ran : List String → Section
ran es = record { ran = true; errors = es }

module _ (out : Outside) (m : MaintenanceSettings) (now : ℕ) where
  -- A prune is one statement.
  pruned : Bool → Option String → Site → Site → Site × Section
  pruned false error before after = (before, skipped)
  pruned true none before after = (after, ran [])
  pruned true (some e) before after = (before, ran (e ∷ []))

  billing_section : Site → Site × Section
  unfolding pruned prune_cost_entries
  billing_section w =
      pruned m.billing.enabled (out.broken "pruneCostEntries") w
        (record w { ledger = prune_cost_entries now (retention_ms m.billing) w.ledger })

  tokens_section : Site → Site × Section
  unfolding pruned prune_gateway_usage
  tokens_section w =
      pruned m.tokens.enabled (out.broken "pruneGatewayUsage") w
        (record w { usage = prune_gateway_usage now (retention_ms m.tokens) w.usage })

  rejects_section : Site → Site × Section
  unfolding pruned prune_routing_rejects
  rejects_section w =
      pruned m.rejects.enabled (out.broken "pruneRoutingRejects") w
        (record w { rejects = prune_routing_rejects now (retention_ms m.rejects) w.rejects })

  -- The first session that cannot be deleted ends the section; its message is not kept.
  next_session :
      Site
      → (Db → List StoredObject → Site × Section)
      → Option (Db × List StoredObject)
      → Site × Section
  next_session w more none = (w, ran ("session" ∷ []))
  next_session w more (some r) = more r.0 r.1

  delete_sessions : Site → List Session → Site × Section
  unfolding next_session
  delete_sessions w [] = (w, ran [])
  delete_sessions w (s ∷ ss) =
      next_session w (λ db objects. delete_sessions (record w { db = db; objects = objects }) ss)
        (delete_session_fully out.stops out.fails w.db w.objects s.workspace_id s.id)

  leg : Retention → Option ℕ
  leg r = if r.enabled then some (retention_ms r) else none

  listed_sessions : Option String → Site → Site × Section
  unfolding delete_sessions leg
  listed_sessions (some e) w = (w, ran (e ∷ []))
  listed_sessions none w =
      delete_sessions w (list_expired_sessions out.changed w.db now (leg m.idle) (leg m.completed))

  sessions_section : Site → Site × Section
  unfolding listed_sessions
  sessions_section w =
      if m.idle.enabled || m.completed.enabled
      then listed_sessions (out.broken "listExpiredSessions") w
      else (w, skipped)

  -- A deletion that throws is passed over.
  drop_file : Site → Option (Db × Option String) → Site
  unfolding del_key
  drop_file w none = w
  drop_file w (some r) = record w { db = r.0; objects = del_key out.fails r.1 w.objects }

  unfoldable pub drop_files : Site → List FileRow → Site
  unfolding drop_file
  drop_files w [] = w
  drop_files w (f ∷ fs) = drop_files (drop_file w (delete_file_record_by_id w.db f.id)) fs

  half : Retention → String → Site → Site
  unfolding drop_files
  half r kind w =
      if r.enabled
      then drop_files w (list_expired_files out.used w.db now kind (retention_ms r))
      else w

  halves : Option String → Site → Site × Section
  unfolding half
  halves none w = (half m.output "output" (half m.input "upload" w), ran [])
  halves (some e) w = (w, ran (e ∷ []))

  files_section : Site → Site × Section
  unfolding halves
  files_section w =
      if m.input.enabled || m.output.enabled
      then halves (out.broken "listExpiredFiles") w
      else (w, skipped)

  -- The prices of one kind, whose lister may have failed.
  price_leg : String → Answer (List String) → Site × List String → Site × List String
  unfolding prune_orphan_resource_prices
  price_leg kind (threw e) (w, errors) = (w, errors ++ e ∷ [])
  price_leg kind (gave live) (w, errors) =
      (record w { prices = prune_orphan_resource_prices kind live w.prices }, errors)

  serving_legs : Option (Answer (List String × List String)) → Site → Site × List String
  unfolding price_leg
  serving_legs none w = (w, "serving: no kubestore access" ∷ [])
  serving_legs (some (threw e)) w = (w, e ∷ [])
  serving_legs (some (gave (pools, deployments))) w =
      price_leg "deployment" (gave deployments) (price_leg "pool" (gave pools) (w, []))

  -- `listAllIds` of a table.
  ids_of : Option String → List String → Answer (List String)
  ids_of none ids = gave ids
  ids_of (some e) ids = threw e

  prices_section : Site → Site × Section
  unfolding serving_legs price_leg ids_of
  prices_section w =
      if m.prices
      then (let r = price_leg "environment" (ids_of (out.broken "environments") w.db.environments) (
            price_leg "external" (ids_of (out.broken "external_deployments") w.externals)
              (serving_legs out.list_serving w)) in
          (r.0, ran r.1))
      else (w, skipped)

  -- All three lists, or the first error.
  spared : Answer (List String) → Answer (List String) → Answer (List String) → Answer Spared
  spared (threw e) b c = threw e
  spared (gave x) (threw e) c = threw e
  spared (gave x) (gave y) (threw e) = threw e
  spared (gave x) (gave y) (gave z) = gave (record { vaults = x; environments = y; sessions = z })

  swept_errors : Answer (List String) → List String
  swept_errors (threw e) = e ∷ []
  swept_errors (gave es) = es

  sweep : Option (Spared → Answer (List String)) → Answer Spared → Site → Site × Section
  unfolding swept_errors
  sweep none ids w = (w, ran ("no k8s access" ∷ []))
  sweep (some f) (threw e) w = (w, ran (e ∷ []))
  sweep (some f) (gave ids) w = (record w { swept = ids ∷ w.swept }, ran (swept_errors (f ids)))

  unfoldable pub k8s_section : Site → Site × Section
  unfolding sweep spared ids_of
  k8s_section w =
      if m.k8s
      then sweep out.sweep_k8s
          (spared (ids_of (out.broken "vaults") w.vaults)
            (ids_of (out.broken "environments") w.db.environments)
            (ids_of (out.broken "sessions") (map (λ s. s.id) w.db.sessions)))
          w
      else (w, skipped)

  collect : Option String → Site → Site × Section
  unfolding run_gc
  collect (some e) w = (w, ran (e ∷ []))
  collect none w =
      let d = run_gc out.fails now grace_ms w.db w.objects in
      (record w { db = d.db; objects = d.objects }, ran [])

  orphans_section : Site → Site × Section
  unfolding collect
  orphans_section w =
      if m.orphans then collect (out.broken "listOrphanFileRows") w else (w, skipped)

  unfoldable pub run_maintenance : Site → Site × Summary
  unfolding billing_section tokens_section rejects_section sessions_section files_section
      prices_section k8s_section orphans_section
  run_maintenance w =
      let a = billing_section w in
      let b = tokens_section a.0 in
      let c = rejects_section b.0 in
      let d = sessions_section c.0 in
      let e = files_section d.0 in
      let f = prices_section e.0 in
      let g = k8s_section f.0 in
      let h = orphans_section g.0 in
      (
        h.0,
        record {
          billing = a.1;
          tokens = b.1;
          rejects = c.1;
          sessions = d.1;
          files = e.1;
          prices = f.1;
          k8s = g.1;
          orphans = h.1;
        },
      )
