-- ===== src/Maintenance/Run/Kept.antt =====
-- A run of the maintenance loses no object that a file row still claims.
use devproofai.Base.{
  ℕ, String, ◌≡◌, refl, ◌∙◌, Bool, true, false, List, [], ◌∷◌, Option, none, some, if◌then◌else◌,
  ◌||◌,
}
use devproofai.Store.Rows.{Session, FileRow, Db}
use devproofai.Files.{StoredObject, has_object, object_key_exists, delete_file_record_by_id}
use devproofai.Files.Claims.{Keeps, delete_file_record-Keeps}
use devproofai.Files.Sessions.{delete_session_fully, delete_session_fully-Keeps}
use devproofai.Maintenance.Gc.Collected.{run_gc-Keeps}
use devproofai.Maintenance.Expiry.{
  prune_cost_entries, prune_gateway_usage, prune_routing_rejects, list_expired_sessions,
  list_expired_files,
}
use devproofai.Maintenance.Settings.{Retention, MaintenanceSettings, retention_ms}
use devproofai.Maintenance.Run.{
  Site, Section, Spared, Outside, Answer, gave, threw, grace_ms, pruned, billing_section,
  tokens_section, rejects_section, next_session, delete_sessions, listed_sessions, leg,
  sessions_section, drop_file, drop_files, half, halves, files_section, price_leg, serving_legs,
  prices_section, ids_of, sweep, k8s_section, collect, orphans_section, run_maintenance,
}

module _ (key : String) where
  -- What is claimed after was claimed before, and its object is as it was.
  Safe : Site → Site → Type 0
  Safe v w = object_key_exists w.db key ≡ true → Keeps v.db w.db v.objects w.objects key

  Safe-refl : (w : Site) → Safe w w
  unfolding Safe
  Safe-refl w c = record { claimed = c; stored = refl }

  Safe-trans : (u v w : Site) → Safe u v → Safe v w → Safe u w
  unfolding Safe
  Safe-trans u v w f g c =
      let k = g c in
      let j = f k.claimed in record { claimed = j.claimed; stored = k.stored ∙ j.stored }

  when-Safe : (on : Bool) (v w : Site) → Safe v w → Safe v (if on then w else v)
  when-Safe true v w h = h
  when-Safe false v w h = Safe-refl v

  section-Safe :
      (on : Bool) (v : Site) (r : Site × Section) (s : Section)
      → Safe v r.0
      → Safe v (if on then r else (v, s)).0
  section-Safe true v r s h = h
  section-Safe false v r s h = Safe-refl v

  module _ (out : Outside) (m : MaintenanceSettings) (now : ℕ) where
    delete_sessions-Safe :
        (w : Site) (ss : List Session) → Safe w (delete_sessions out m now w ss).0
    unfolding delete_sessions next_session
    delete_sessions-Safe w [] = Safe-refl w
    delete_sessions-Safe w (s ∷ ss) =
        one (delete_session_fully out.stops out.fails w.db w.objects s.workspace_id s.id) refl
          (λ db objects. delete_sessions-Safe (record w { db = db; objects = objects }) ss)
      where
        one :
            (r : Option (Db × List StoredObject))
            → delete_session_fully out.stops out.fails w.db w.objects s.workspace_id s.id ≡ r
            → ((db : Db) (objects : List StoredObject)
                → Safe
                    (record w { db = db; objects = objects })
                    (delete_sessions out m now (record w { db = db; objects = objects }) ss).0)
            → Safe w
                (next_session out m now w
                  (λ db objects.
                    delete_sessions out m now (record w { db = db; objects = objects }) ss)
                  r).0
        one none e rest = Safe-refl w
        one (some r) e rest =
            Safe-trans w (record w { db = r.0; objects = r.1 }) _
              (unfold Safe in
                delete_session_fully-Keeps out.stops out.fails key w.db w.objects s.workspace_id
                  s.id r.0 r.1 e)
              (rest r.0 r.1)

    drop_files-Safe : (w : Site) (fs : List FileRow) → Safe w (drop_files out m now w fs)
    unfolding drop_files
    drop_files-Safe w [] = Safe-refl w
    drop_files-Safe w (f ∷ fs) =
        Safe-trans w (drop_file out m now w (delete_file_record_by_id w.db f.id)) _
          (one (delete_file_record_by_id w.db f.id) refl)
          (drop_files-Safe (drop_file out m now w (delete_file_record_by_id w.db f.id)) fs)
      where
        one :
            (r : Option (Db × Option String))
            → delete_file_record_by_id w.db f.id ≡ r
            → Safe w (drop_file out m now w r)
        one none e = unfold drop_file in Safe-refl w
        one (some r) e =
            unfold Safe drop_file in
            delete_file_record-Keeps out.fails key w.objects w.db f.id r.0 r.1 e

    -- A prune, a price leg and the cluster's sweep touch neither the files nor the objects.
    pruned-Safe :
        (on : Bool) (error : Option String) (v w : Site)
        → w.db ≡ v.db
        → w.objects ≡ v.objects
        → Safe v (pruned out m now on error v w).0
    unfolding pruned Safe
    pruned-Safe false error v w d o = Safe-refl v
    pruned-Safe true (some e) v w d o = Safe-refl v
    pruned-Safe true none v w d o = λ c. record { claimed = rw (← d) c; stored = rw o refl }

    billing_section-Safe : (w : Site) → Safe w (billing_section out m now w).0
    unfolding billing_section
    billing_section-Safe w =
        pruned-Safe m.billing.enabled (out.broken "pruneCostEntries") w
          (record w { ledger = prune_cost_entries now (retention_ms m.billing) w.ledger }) refl refl

    tokens_section-Safe : (w : Site) → Safe w (tokens_section out m now w).0
    unfolding tokens_section
    tokens_section-Safe w =
        pruned-Safe m.tokens.enabled (out.broken "pruneGatewayUsage") w
          (record w { usage = prune_gateway_usage now (retention_ms m.tokens) w.usage }) refl refl

    rejects_section-Safe : (w : Site) → Safe w (rejects_section out m now w).0
    unfolding rejects_section
    rejects_section-Safe w =
        pruned-Safe m.rejects.enabled (out.broken "pruneRoutingRejects") w
          (record w { rejects = prune_routing_rejects now (retention_ms m.rejects) w.rejects }) refl
          refl

    sessions_section-Safe : (w : Site) → Safe w (sessions_section out m now w).0
    unfolding sessions_section
    sessions_section-Safe w =
        section-Safe (m.idle.enabled || m.completed.enabled) w _ _
          (listed (out.broken "listExpiredSessions"))
      where
        listed : (e : Option String) → Safe w (listed_sessions out m now e w).0
        listed (some e) = unfold listed_sessions in Safe-refl w
        listed none =
            unfold listed_sessions in
            delete_sessions-Safe w (
              list_expired_sessions out.changed w.db now (leg out m now m.idle)
                (leg out m now m.completed))

    half-Safe : (r : Retention) (kind : String) (w : Site) → Safe w (half out m now r kind w)
    unfolding half
    half-Safe r kind w =
        when-Safe r.enabled w _
          (drop_files-Safe w (list_expired_files out.used w.db now kind (retention_ms r)))

    files_section-Safe : (w : Site) → Safe w (files_section out m now w).0
    unfolding files_section
    files_section-Safe w =
        section-Safe (m.input.enabled || m.output.enabled) w _ _
          (both (out.broken "listExpiredFiles"))
      where
        both : (e : Option String) → Safe w (halves out m now e w).0
        both (some e) = unfold halves in Safe-refl w
        both none =
            unfold halves in
            Safe-trans w (half out m now m.input "upload" w) _ (half-Safe m.input "upload" w)
              (half-Safe m.output "output" (half out m now m.input "upload" w))

    price_leg-Safe :
        (kind : String) (a : Answer (List String)) (w : Site) (es : List String)
        → Safe w (price_leg out m now kind a (w, es)).0
    unfolding price_leg
    price_leg-Safe kind (threw e) w es = Safe-refl w
    price_leg-Safe kind (gave live) w es = unfold Safe in λ c. record { claimed = c; stored = refl }

    serving_legs-Safe :
        (l : Option (Answer (List String × List String))) (w : Site)
        → Safe w (serving_legs out m now l w).0
    unfolding serving_legs
    serving_legs-Safe none w = Safe-refl w
    serving_legs-Safe (some (threw e)) w = Safe-refl w
    serving_legs-Safe (some (gave (ps, ds))) w =
        Safe-trans w (price_leg out m now "pool" (gave ps) (w, [])).0 _
          (price_leg-Safe "pool" (gave ps) w [])
          (price_leg-Safe "deployment" (gave ds) (price_leg out m now "pool" (gave ps) (w, [])).0
            [])

    prices_section-Safe : (w : Site) → Safe w (prices_section out m now w).0
    unfolding prices_section
    prices_section-Safe w = section-Safe m.prices w _ _ (
        let a = serving_legs out m now out.list_serving w in
        let x = ids_of out m now (out.broken "external_deployments") w.externals in
        let b = price_leg out m now "external" x a in
        Safe-trans w a.0 _ (serving_legs-Safe out.list_serving w) (
          Safe-trans a.0 b.0 _ (price_leg-Safe "external" x a.0 a.1) (
            price_leg-Safe "environment"
              (ids_of out m now (out.broken "environments") w.db.environments) b.0 b.1)))

    k8s_section-Safe : (w : Site) → Safe w (k8s_section out m now w).0
    unfolding k8s_section
    k8s_section-Safe w = section-Safe m.k8s w _ _ (swept out.sweep_k8s _)
      where
        swept :
            (f : Option (Spared → Answer (List String))) (a : Answer Spared)
            → Safe w (sweep out m now f a w).0
        swept none a = unfold sweep in Safe-refl w
        swept (some f) (threw e) = unfold sweep in Safe-refl w
        swept (some f) (gave ids) = unfold sweep Safe in λ c. record { claimed = c; stored = refl }

    orphans_section-Safe : (w : Site) → Safe w (orphans_section out m now w).0
    unfolding orphans_section
    orphans_section-Safe w =
        section-Safe m.orphans w _ _ (collected (out.broken "listOrphanFileRows"))
      where
        collected : (e : Option String) → Safe w (collect out m now e w).0
        collected (some e) = unfold collect in Safe-refl w
        collected none =
            unfold collect Safe in run_gc-Keeps out.fails key now grace_ms w.db w.objects

  -- After a run of the maintenance, with any settings and whatever fails outside it, every object
  -- whose key some file row claims is stored exactly if it was stored before.
  pub run_maintenance-stored :
      (out : Outside) (m : MaintenanceSettings) (now : ℕ) (w : Site)
      → object_key_exists (run_maintenance out m now w).0.db key ≡ true
      → has_object (run_maintenance out m now w).0.objects key ≡ has_object w.objects key
  unfolding run_maintenance Safe
  run_maintenance-stored out m now w c =
      let a = (billing_section out m now w).0 in
      let b = (tokens_section out m now a).0 in
      let d = (rejects_section out m now b).0 in
      let e = (sessions_section out m now d).0 in
      let f = (files_section out m now e).0 in
      let g = (prices_section out m now f).0 in
      let h = (k8s_section out m now g).0 in
      let i = (orphans_section out m now h).0 in
      (Safe-trans w a i (billing_section-Safe out m now w)
        (Safe-trans a b i (tokens_section-Safe out m now a) (
          Safe-trans b d i (rejects_section-Safe out m now b) (
            Safe-trans d e i (sessions_section-Safe out m now d) (
              Safe-trans e f i (files_section-Safe out m now e) (
                Safe-trans f g i (prices_section-Safe out m now f) (
                  Safe-trans g h i (k8s_section-Safe out m now g)
                    (orphans_section-Safe out m now h)))))))
        c).stored
