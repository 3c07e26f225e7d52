-- ===== src/Tests/Maintenance.antt =====
-- The garbage collector on a store with a shared key, an orphan and a loose object.
use devproofai.Base.{
  String, ◌≡◌, refl, Bool, true, false, List, [], ◌∷◌, none, some, ◌==◌, if◌then◌else◌, ◌⊎◌, any,
  nat_eq, arith,
}
use devproofai.Store.Rows.{FileRow, Db}
use devproofai.Files.{StoredObject, has_object, object_key_exists}
use devproofai.Maintenance.Gc.{run_gc}
use devproofai.Maintenance.Cron.{validate_cron, trim, cron_matches, field_matches}
use devproofai.Maintenance.Cron.Values.{field_values, field_matches-field_values}
use devproofai.Maintenance.Settings.{
  days, Retention, retention_ms, MaintenanceSettings, fields, validate_maintenance_settings,
  merge_maintenance_settings, default_maintenance_settings,
}
use devproofai.Maintenance.Settings.RoundTrip.{posted, IsStored, merge-posted}
use devproofai.Maintenance.Expiry.{list_expired_files, list_expired_sessions}
use devproofai.Maintenance.Run.{Outside, Site, gave, run_maintenance, k8s_section}
use devproofai.Maintenance.Run.Kept.{run_maintenance-stored}
use devproofai.Maintenance.Run.Closed.{IsSwept, k8s_section-IsSwept}
use devproofai.Maintenance.Gc.Objects.{IsCollected, run_gc-IsCollected}
use devproofai.Tests.Stores.{store}

abbrev file : String → String → String → FileRow
file id kind key = record {
  id = id;
  session_id = none;
  name = id;
  size = 5;
  kind = kind;
  created_at = 10;
  workspace_id = "w1";
  object_key = key;
}

abbrev object : String → StoredObject
object key = record { key = key; size = 5; modified = 20 }

-- `f2` was replaced by `f3` under the same key; `f4` is a checkpoint without a session.
abbrev pub shelves : Db
shelves = record store {
  files =
      file "f2" "memory" "w1/a" ∷ file "f3" "memory" "w1/a" ∷ file "f4" "checkpoint" "w1/c" ∷ [];
  memory_stores =
      record {
        id = "m1";
        workspace_id = "w1";
        name = "notes";
        entries = record { path = "a"; file_id = "f3" } ∷ [];
      }
      ∷ [];
}

abbrev pub objects : List StoredObject
objects = object "w1/a" ∷ object "w1/c" ∷ object "w1/lost" ∷ []

abbrev obeys : String → Bool
obeys key = false

abbrev week : Retention
week = record { enabled = true; keep = 7; unit = days }

abbrev settings : MaintenanceSettings
settings = record {
  cron = "30 2 */5 * 1-5";
  orphans = true;
  billing = week;
  tokens = week;
  idle = week;
  completed = week;
  input = week;
  output = week;
  rejects = week;
  prices = true;
  k8s = true;
}

-- The statement that lists the vaults fails.
abbrev outside : Outside
outside = record {
  broken = λ name. if name == "vaults" then some "connection lost" else none;
  stops = λ id. true;
  fails = obeys;
  changed = λ s. s.created_at;
  used = λ f. f.created_at;
  list_serving = none;
  sweep_k8s = some (λ ids. gave []);
}

abbrev site : Site
site = record {
  db = shelves;
  objects = objects;
  ledger = [];
  usage = [];
  rejects = [];
  prices = [];
  vaults = "v1" ∷ [];
  externals = [];
  swept = [];
}

run_maintenance-stored_example :
    has_object (run_maintenance outside settings 5_000_000 site).0.objects "w1/a"
    ≡ has_object site.objects "w1/a"
unfolding object_key_exists run_maintenance list_expired_files list_expired_sessions retention_ms
run_maintenance-stored_example = run_maintenance-stored "w1/a" outside settings 5_000_000 site refl

k8s_section-IsSwept_example :
    ((k8s_section outside settings 5_000_000 site).0 ≡ site)
    ⊎ IsSwept outside settings 5_000_000 site (k8s_section outside settings 5_000_000 site).0
k8s_section-IsSwept_example = k8s_section-IsSwept outside settings 5_000_000 site

settings-IsStored : IsStored settings
unfolding validate_cron trim
settings-IsStored = record {
  cron = refl;
  trimmed = refl;
  given = refl;
  billing = omega arith;
  tokens = omega arith;
  idle = omega arith;
  completed = omega arith;
  input = omega arith;
  output = omega arith;
  rejects = omega arith;
}

merge-posted_example :
    (validate_maintenance_settings (fields (posted settings)) ≡ none)
    × (merge_maintenance_settings (default_maintenance_settings none) (posted settings) ≡ settings)
merge-posted_example = merge-posted (default_maintenance_settings none) settings settings-IsStored

field_matches-field_values_example :
    field_matches 1 31 "*/5,30" 16 ≡ any (λ u. nat_eq u 16) (field_values 1 31 "*/5,30")
field_matches-field_values_example = field_matches-field_values 1 31 "*/5,30" 16

-- The first of June 2026, a Monday, at half past two.
cron_example :
    cron_matches "30 2 */5 * 1-5"
      (record { minute = 30; hour = 2; day = 1; month = 6; weekday = 1 })
    ≡ true
unfolding cron_matches
cron_example = refl

run_gc-IsCollected_example :
    IsCollected obeys 5_000_000 3_600_000 shelves objects
      (run_gc obeys 5_000_000 3_600_000 shelves objects)
run_gc-IsCollected_example = run_gc-IsCollected obeys 5_000_000 3_600_000 shelves objects
