-- ===== src/Platform/Settings.antt =====
-- `normalizeCostSettings`, `validateCostSettings` of costs.ts. A posted object is read field by field; a nested object is missing, not an object, or its fields.
use devproofai.Base.{
  String, Bool, true, false, not, List, [], ◌∷◌, Option, none, some, if◌then◌else◌, includes,
}

-- A field that should hold a truth value or a text.
pub data Value : Type 0 where
  undefined : Value
  flag : Bool → Value
  text : String → Value
  other : Value

pub record PostedBilling : Type 0 where
  pub enabled : Value
  pub show_session_costs : Value
  pub bill_session_time : Value
  pub bill_external_tokens : Value
  pub bill_local_tokens : Value
  pub bill_deployment_time : Value

pub data Nested : Type 0 where
  undefined : Nested
  no_object : Nested
  object : PostedBilling → Nested

pub record PostedCosts : Type 0 where
  pub enabled : Value
  pub currency : Value
  pub track_pool_costs : Value
  pub track_external_costs : Value
  pub track_env_costs : Value
  pub billing : Nested

pub record Billing : Type 0 where
  pub enabled : Bool
  pub show_session_costs : Bool
  pub bill_session_time : Bool
  pub bill_external_tokens : Bool
  pub bill_local_tokens : Bool
  pub bill_deployment_time : Bool

pub record CostSettings : Type 0 where
  pub enabled : Bool
  pub currency : String
  pub track_pool_costs : Bool
  pub track_external_costs : Bool
  pub track_env_costs : Bool
  pub billing : Billing

abbrev pub currencies : List String
currencies = "EUR" ∷ "USD" ∷ "GBP" ∷ "CHF" ∷ "JPY" ∷ []

-- `asBool(v, false)`: every default is off.
as_bool : Value → Bool
as_bool (flag b) = b
as_bool _ = false

currency_of : Value → String
currency_of (text c) = if includes currencies c then c else "EUR"
currency_of _ = "EUR"

no_billing : PostedBilling
no_billing = record {
  enabled = Value.undefined;
  show_session_costs = Value.undefined;
  bill_session_time = Value.undefined;
  bill_external_tokens = Value.undefined;
  bill_local_tokens = Value.undefined;
  bill_deployment_time = Value.undefined;
}

-- `r.billing ?? {}`; a value that is no object has none of the fields.
billing_of : Nested → PostedBilling
unfolding no_billing
billing_of (object b) = b
billing_of _ = no_billing

normalize_billing : PostedBilling → Billing
unfolding as_bool
normalize_billing b = record {
  enabled = as_bool b.enabled;
  show_session_costs = as_bool b.show_session_costs;
  bill_session_time = as_bool b.bill_session_time;
  bill_external_tokens = as_bool b.bill_external_tokens;
  bill_local_tokens = as_bool b.bill_local_tokens;
  bill_deployment_time = as_bool b.bill_deployment_time;
}

unfoldable pub normalize_cost_settings : PostedCosts → CostSettings
unfolding as_bool currency_of billing_of normalize_billing
normalize_cost_settings r = record {
  enabled = as_bool r.enabled;
  currency = currency_of r.currency;
  track_pool_costs = as_bool r.track_pool_costs;
  track_external_costs = as_bool r.track_external_costs;
  track_env_costs = as_bool r.track_env_costs;
  billing = normalize_billing (billing_of r.billing);
}

pub data SettingsFault : Type 0 where
  costs_object bad_currency bad_billing : SettingsFault
  bad_flag bad_billing_flag : String → SettingsFault

is_bad_flag : Value → Bool
is_bad_flag Value.undefined = false
is_bad_flag (flag b) = false
is_bad_flag _ = true

-- The first of the named fields that is there and holds no truth value.
first_bad : List (String × Value) → Option String
unfolding is_bad_flag
first_bad [] = none
first_bad ((k, v) ∷ more) = let rest = first_bad more in if is_bad_flag v then some k else rest

bad_currency_value : Value → Bool
bad_currency_value Value.undefined = false
bad_currency_value (text c) = not (includes currencies c)
bad_currency_value _ = true

billing_fault : Nested → Option SettingsFault
unfolding first_bad
billing_fault Nested.undefined = none
billing_fault no_object = some bad_billing
billing_fault (object b) =
    elim (first_bad (
      ("enabled", b.enabled)
      ∷ ("showSessionCosts", b.show_session_costs)
      ∷ ("billSessionTime", b.bill_session_time)
      ∷ ("billExternalTokens", b.bill_external_tokens)
      ∷ ("billLocalTokens", b.bill_local_tokens)
      ∷ ("billDeploymentTime", b.bill_deployment_time)
      ∷ [])) [ none ↦ none | some k ↦ some (bad_billing_flag k) ]

flags_fault : PostedCosts → Option SettingsFault
unfolding first_bad billing_fault
flags_fault r =
    elim (first_bad (
      ("enabled", r.enabled)
      ∷ ("trackPoolCosts", r.track_pool_costs)
      ∷ ("trackExternalCosts", r.track_external_costs)
      ∷ ("trackEnvCosts", r.track_env_costs)
      ∷ [])) [ some k ↦ some (bad_flag k) | none ↦ billing_fault r.billing ]

-- `none` is a value that is no object.
unfoldable pub validate_cost_settings : Option PostedCosts → Option SettingsFault
unfolding flags_fault bad_currency_value
validate_cost_settings none = some costs_object
validate_cost_settings (some r) =
    if bad_currency_value r.currency then some bad_currency else flags_fault r
