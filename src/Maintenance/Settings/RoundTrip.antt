-- ===== src/Maintenance/Settings/RoundTrip.antt =====
-- Settings that are stored can be read, posted back and merged over any others.
use devproofai.Base.{ℕ, ◌≤◌, String, ◌≡◌, refl, true, false, none, arith, is_empty, leb}
use devproofai.Routing.Values.{number, whole}
use devproofai.Platform.Settings.{flag, text}
use devproofai.Maintenance.Cron.{validate_cron, trim}
use devproofai.Maintenance.Settings.{
  RetentionUnit, hours, days, Retention, MaintenanceSettings, PostedRetention, PostedMaintenance,
  fields, merge_retention, merge_flag, merge_keep, merge_unit, merge_cron, cron_or,
  merge_maintenance_settings, validate_maintenance_settings, cron_fault, rule_fault, rules_fault,
  switches_fault, first_fault, cron_result, is_no_flag, is_no_count, is_no_unit,
}

unit_name : RetentionUnit → String
unit_name hours = "hours"
unit_name days = "days"

posted_retention : Retention → PostedRetention
unfolding unit_name
posted_retention r = record {
  enabled = flag r.enabled;
  keep = number (whole r.keep);
  unit = text (unit_name r.unit);
}

-- The settings as a client reads and posts them.
unfoldable pub posted : MaintenanceSettings → PostedMaintenance
unfolding posted_retention
posted s = record {
  cron = text s.cron;
  orphans = flag s.orphans;
  billing = posted_retention s.billing;
  tokens = posted_retention s.tokens;
  idle = posted_retention s.idle;
  completed = posted_retention s.completed;
  input = posted_retention s.input;
  output = posted_retention s.output;
  rejects = posted_retention s.rejects;
  prices = flag s.prices;
  k8s = flag s.k8s;
}

-- A cron text that was checked and trimmed, and counts of at least one.
pub record IsStored (s : MaintenanceSettings) : Type 0 where
  pub cron : validate_cron s.cron ≡ none
  pub trimmed : trim s.cron ≡ s.cron
  pub given : is_empty s.cron ≡ false
  pub billing : 1 ≤ s.billing.keep
  pub tokens : 1 ≤ s.tokens.keep
  pub idle : 1 ≤ s.idle.keep
  pub completed : 1 ≤ s.completed.keep
  pub input : 1 ≤ s.input.keep
  pub output : 1 ≤ s.output.keep
  pub rejects : 1 ≤ s.rejects.keep

merge_unit-unit_name : (base u : RetentionUnit) → merge_unit base (text (unit_name u)) ≡ u
unfolding merge_unit unit_name
merge_unit-unit_name base hours = refl
merge_unit-unit_name base days = refl

is_no_unit-unit_name : (u : RetentionUnit) → is_no_unit (text (unit_name u)) ≡ false
unfolding is_no_unit unit_name
is_no_unit-unit_name hours = refl
is_no_unit-unit_name days = refl

merge_keep-whole : (base n : ℕ) → 1 ≤ n → merge_keep base (number (whole n)) ≡ n
unfolding merge_keep
merge_keep-whole base n h = ground arith

merge-posted_retention :
    (base r : Retention) → 1 ≤ r.keep → merge_retention base (posted_retention r) ≡ r
unfolding merge_retention merge_flag posted_retention
merge-posted_retention base r h =
    rw (merge_keep-whole base.keep r.keep h, merge_unit-unit_name base.unit r.unit) refl

rule_fault-posted_retention :
    (path : String) (r : Retention) → 1 ≤ r.keep → rule_fault path (posted_retention r) ≡ none
unfolding rule_fault is_no_flag is_no_count posted_retention
rule_fault-posted_retention path r h = rw (is_no_unit-unit_name r.unit, counted r.keep h) refl
  where
    counted : (n : ℕ) → 1 ≤ n → leb 1 n ≡ true
    counted n h = ground arith

-- Settings whose cron text is checked and trimmed and whose counts are at least one, posted as a
-- client reads them, pass the check, and merged over any settings they replace them.
pub merge-posted :
    (base s : MaintenanceSettings)
    → IsStored s
    → (validate_maintenance_settings (fields (posted s)) ≡ none)
      × (merge_maintenance_settings base (posted s) ≡ s)
unfolding validate_maintenance_settings merge_maintenance_settings posted cron_fault first_fault
    cron_result switches_fault rules_fault is_no_flag merge_flag merge_cron cron_or
merge-posted base s h = (
  rw
      (
        h.cron,
        rule_fault-posted_retention "billing" s.billing h.billing,
        rule_fault-posted_retention "tokens" s.tokens h.tokens,
        rule_fault-posted_retention "rejects" s.rejects h.rejects,
        rule_fault-posted_retention "sessions.idle" s.idle h.idle,
        rule_fault-posted_retention "sessions.completed" s.completed h.completed,
        rule_fault-posted_retention "files.input" s.input h.input,
        rule_fault-posted_retention "files.output" s.output h.output,
      )
      refl,
  rw
      (
        h.trimmed,
        h.given,
        merge-posted_retention base.billing s.billing h.billing,
        merge-posted_retention base.tokens s.tokens h.tokens,
        merge-posted_retention base.rejects s.rejects h.rejects,
        merge-posted_retention base.idle s.idle h.idle,
        merge-posted_retention base.completed s.completed h.completed,
        merge-posted_retention base.input s.input h.input,
        merge-posted_retention base.output s.output h.output,
      )
      refl,
)
