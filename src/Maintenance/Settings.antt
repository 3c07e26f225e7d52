-- ===== src/Maintenance/Settings.antt =====
-- The maintenance settings: defaults, the merge of a posted object and its check. A posted object
-- is read field by field; a value that is no object has none of the fields.
pub mod RoundTrip
use devproofai.Base.{
  ℕ, ◌*◌, ◌≤◌, String, ◌≡◌, refl, Bool, true, false, not, ◌&&◌, ◌||◌, List, [], ◌∷◌, Option, none,
  some, ◌==◌, arith, if◌then◌else◌, is_empty, leb,
}
use devproofai.Routing.Values.{Scalar, absent, number, Number, whole, is_whole_from}
use devproofai.Platform.Settings.{Value, flag, text}
use devproofai.Maintenance.Cron.{CronFault, validate_cron, trim}

pub data RetentionUnit : Type 0 where
  hours days : RetentionUnit

pub record Retention : Type 0 where
  pub enabled : Bool
  pub keep : ℕ
  pub unit : RetentionUnit

pub record MaintenanceSettings : Type 0 where
  pub cron : String
  pub orphans : Bool
  pub billing : Retention
  pub tokens : Retention
  pub idle : Retention
  pub completed : Retention
  pub input : Retention
  pub output : Retention
  pub rejects : Retention
  pub prices : Bool
  pub k8s : Bool

abbrev pub default_maintenance_cron : String
default_maintenance_cron = "0 1 * * *"

off_for : ℕ → RetentionUnit → Retention
off_for n u = record { enabled = false; keep = n; unit = u }

cron_or : String → Option String → String
unfolding trim
cron_or base none = base
cron_or base (some c) = if is_empty (trim c) then base else trim c

unfoldable pub default_maintenance_settings : Option String → MaintenanceSettings
unfolding cron_or off_for
default_maintenance_settings legacy = record {
  cron = cron_or default_maintenance_cron legacy;
  orphans = true;
  billing = off_for 365 days;
  tokens = off_for 365 days;
  idle = off_for 7 days;
  completed = off_for 4 hours;
  input = off_for 4 hours;
  output = off_for 4 hours;
  rejects = record { enabled = true; keep = 30; unit = days };
  prices = true;
  k8s = true;
}

pub record PostedRetention : Type 0 where
  pub enabled : Value
  pub keep : Scalar
  pub unit : Value

pub record PostedMaintenance : Type 0 where
  pub cron : Value
  pub orphans : Value
  pub billing : PostedRetention
  pub tokens : PostedRetention
  pub idle : PostedRetention
  pub completed : PostedRetention
  pub input : PostedRetention
  pub output : PostedRetention
  pub rejects : PostedRetention
  pub prices : Value
  pub k8s : Value

merge_flag : Bool → Value → Bool
merge_flag base (flag b) = b
merge_flag base _ = base

merge_keep : ℕ → Scalar → ℕ
merge_keep base (number (whole n)) = if leb 1 n then n else base
merge_keep base _ = base

merge_unit : RetentionUnit → Value → RetentionUnit
merge_unit base (text u) = if u == "hours" then hours else if u == "days" then days else base
merge_unit base _ = base

unfoldable pub merge_retention : Retention → PostedRetention → Retention
unfolding merge_flag merge_keep merge_unit
merge_retention base raw = record {
  enabled = merge_flag base.enabled raw.enabled;
  keep = merge_keep base.keep raw.keep;
  unit = merge_unit base.unit raw.unit;
}

merge_cron : String → Value → String
unfolding cron_or
merge_cron base (text c) = cron_or base (some c)
merge_cron base _ = base

unfoldable pub merge_maintenance_settings :
    MaintenanceSettings → PostedMaintenance → MaintenanceSettings
unfolding merge_flag merge_retention merge_cron
merge_maintenance_settings base m = record {
  cron = merge_cron base.cron m.cron;
  orphans = merge_flag base.orphans m.orphans;
  billing = merge_retention base.billing m.billing;
  tokens = merge_retention base.tokens m.tokens;
  idle = merge_retention base.idle m.idle;
  completed = merge_retention base.completed m.completed;
  input = merge_retention base.input m.input;
  output = merge_retention base.output m.output;
  rejects = merge_retention base.rejects m.rejects;
  prices = merge_flag base.prices m.prices;
  k8s = merge_flag base.k8s m.k8s;
}

pub data MaintenanceFault : Type 0 where
  maintenance_object cron_text : MaintenanceFault
  bad_cron : CronFault → MaintenanceFault
  not_boolean not_whole not_unit : (path : String) → MaintenanceFault

cron_result : Option CronFault → Option MaintenanceFault
cron_result none = none
cron_result (some f) = some (bad_cron f)

cron_fault : Value → Option MaintenanceFault
unfolding cron_result
cron_fault Value.undefined = none
cron_fault (text c) = cron_result (validate_cron c)
cron_fault _ = some cron_text

is_no_flag : Value → Bool
is_no_flag Value.undefined = false
is_no_flag (flag b) = false
is_no_flag _ = true

is_no_count : Scalar → Bool
is_no_count absent = false
is_no_count v = not (is_whole_from 1 v)

is_no_unit : Value → Bool
is_no_unit Value.undefined = false
is_no_unit (text u) = not ((u == "hours") || (u == "days"))
is_no_unit _ = true

rule_fault : String → PostedRetention → Option MaintenanceFault
unfolding is_no_flag is_no_count is_no_unit
rule_fault path r =
    if is_no_flag r.enabled
    then some (not_boolean path)
    else if is_no_count r.keep
    then some (not_whole path)
    else if is_no_unit r.unit
    then some (not_unit path)
    else none

first_fault : Option MaintenanceFault → Option MaintenanceFault → Option MaintenanceFault
first_fault none rest = rest
first_fault (some fault) rest = some fault

rules_fault : List (String × PostedRetention) → Option MaintenanceFault
unfolding rule_fault first_fault
rules_fault [] = none
rules_fault ((path, r) ∷ more) = first_fault (rule_fault path r) (rules_fault more)

pub data PostedSettings : Type 0 where
  no_settings no_object : PostedSettings
  fields : PostedMaintenance → PostedSettings

switches_fault : PostedMaintenance → Option MaintenanceFault
unfolding is_no_flag rules_fault
switches_fault m =
    if is_no_flag m.orphans
    then some (not_boolean "orphans")
    else if is_no_flag m.prices
    then some (not_boolean "prices")
    else if is_no_flag m.k8s
    then some (not_boolean "k8s")
    else rules_fault (
        ("billing", m.billing)
        ∷ ("tokens", m.tokens)
        ∷ ("rejects", m.rejects)
        ∷ ("sessions.idle", m.idle)
        ∷ ("sessions.completed", m.completed)
        ∷ ("files.input", m.input)
        ∷ ("files.output", m.output)
        ∷ [])

unfoldable pub validate_maintenance_settings : PostedSettings → Option MaintenanceFault
unfolding cron_fault first_fault switches_fault
validate_maintenance_settings no_settings = none
validate_maintenance_settings no_object = some maintenance_object
validate_maintenance_settings (fields m) = first_fault (cron_fault m.cron) (switches_fault m)

unfoldable pub retention_ms : Retention → ℕ
retention_ms r = r.keep * (elim r.unit [ hours ↦ 3_600_000 | days ↦ 86_400_000 ])
