-- ===== src/Routing/Conditions.antt =====
-- `conditionError`
use devproofai.Base.{
  String, Bool, true, false, not, ◌&&◌, ◌||◌, List, [], ◌∷◌, Option, none, some, if◌then◌else◌, leb,
  ltb, length, any, map, includes, is_empty,
}
use devproofai.Routing.Values.{
  Scalar, text, Items, missing, no_array, items, is_one_of, is_whole_in, is_whole_from, is_amount,
  is_percent, units, is_clock_value,
}

-- An absent window is `none`.
pub record Window : Type 0 where
  pub kind : Scalar
  pub hours : Scalar

-- `labels` is an object with its entries in order, or something else.
pub data Labels : Type 0 where
  no_object : Labels
  entries : List (String × Scalar) → Labels

pub data Condition : Type 0 where
  no_condition : Condition
  cost : (ledger scope op threshold : Scalar) (window : Option Window) → Condition
  tokens : (scope op threshold : Scalar) (window : Option Window) → Condition
  context : (op tokens : Scalar) → Condition
  available : Condition
  time : (days : Items Scalar) (from to tz : Scalar) → Condition
  split : (percent : Scalar) → Condition
  classify : (deployment : Scalar) (labels : Labels) (matches : Items Scalar) → Condition
  unknown_type : Scalar → Condition

pub data ConditionFault : Type 0 where
  must_be_object : ConditionFault
  cost_ledger cost_scope cost_op cost_threshold cost_window cost_hours : ConditionFault
  tokens_scope tokens_op tokens_threshold tokens_window tokens_hours : ConditionFault
  context_op context_tokens : ConditionFault
  time_days time_clock time_zone : ConditionFault
  split_percent : ConditionFault
  classify_deployment labels_object labels_count labels_entry labels_match : ConditionFault
  unknown_condition : ConditionFault

-- `TargetCtx`: the names of the local deployments and of the external endpoints.
pub record TargetCtx : Type 0 where
  pub local_names : List String
  pub external_names : List String

abbrev pub knows : TargetCtx → String → Bool
knows ctx t = includes ctx.local_names t || includes ctx.external_names t

abbrev pub is_target : TargetCtx → Scalar → Bool
is_target ctx (text t) = knows ctx t
is_target ctx _ = false

-- if (bad) return fault
abbrev pub first_fault {ℓ} : {F : Type ℓ} → Bool → F → Option F → Option F
first_fault bad fault rest = if bad then some fault else rest

abbrev scopes : List String
scopes = "key" ∷ "workspace" ∷ "agent" ∷ "routing" ∷ "target" ∷ []

abbrev kinds : List String
kinds = "month" ∷ "day" ∷ "rolling" ∷ []

-- The two checks of a window, each with its own message.
window_fault : Option Window → ConditionFault → ConditionFault → Option ConditionFault
window_fault none bad_kind bad_hours = some bad_kind
window_fault (some w) bad_kind bad_hours = first_fault (not (is_one_of kinds w.kind)) bad_kind (
    first_fault (is_one_of ("rolling" ∷ []) w.kind && not (is_whole_in 1 8760 w.hours)) bad_hours
      none)

days_ok : Items Scalar → Bool
days_ok missing = true
days_ok no_array = false
days_ok (items []) = false
days_ok (items (d ∷ ds)) = not (
    any (λ x. not (is_one_of ("mon" ∷ "tue" ∷ "wed" ∷ "thu" ∷ "fri" ∷ "sat" ∷ "sun" ∷ []) x))
      (d ∷ ds))

is_text : Scalar → Bool
is_text (text t) = true
is_text _ = false

label_ok : String × Scalar → Bool
unfolding is_text
label_ok (k, v) = not (is_empty k) && leb (units k) 32 && is_text v

match_ok : List String → Items Scalar → Bool
match_ok names missing = false
match_ok names no_array = false
match_ok names (items []) = false
match_ok names (items (m ∷ ms)) = not (any (λ x. not (is_one_of names x)) (m ∷ ms))

labels_fault : Labels → Items Scalar → Option ConditionFault
unfolding label_ok match_ok
labels_fault no_object ms = some labels_object
labels_fault (entries es) ms = first_fault (ltb (length es) 1 || ltb 8 (length es)) labels_count (
    first_fault (any (λ e. not (label_ok e)) es) labels_entry
      (first_fault (not (match_ok (map (λ e. e.0) es) ms)) labels_match none))

-- `known_zone` is what Intl.DateTimeFormat accepts as a time zone.
zone_ok : (String → Bool) → Scalar → Bool
zone_ok known_zone (text t) = not (is_empty t) && known_zone t
zone_ok known_zone _ = false

module _ (known_zone : String → Bool) (ctx : TargetCtx) where
  unfoldable pub condition_error : Condition → Option ConditionFault
  unfolding window_fault days_ok labels_fault zone_ok
  condition_error no_condition = some must_be_object
  condition_error (cost ledger scope op threshold window) =
      first_fault (not (is_one_of ("billed" ∷ "real" ∷ []) ledger)) cost_ledger (
        first_fault (not (is_one_of scopes scope)) cost_scope (
          first_fault (not (is_one_of ("<" ∷ ">=" ∷ []) op)) cost_op (
            first_fault (not (is_amount threshold)) cost_threshold
              (window_fault window cost_window cost_hours))))
  condition_error (tokens scope op threshold window) =
      first_fault (not (is_one_of scopes scope)) tokens_scope (
        first_fault (not (is_one_of ("<" ∷ ">=" ∷ []) op)) tokens_op (
          first_fault (not (is_whole_from 0 threshold)) tokens_threshold
            (window_fault window tokens_window tokens_hours)))
  condition_error (context op n) =
      first_fault (not (is_one_of ("<=" ∷ ">" ∷ []) op)) context_op
        (first_fault (not (is_whole_from 1 n)) context_tokens none)
  condition_error available = none
  condition_error (time days from to tz) = first_fault (not (days_ok days)) time_days (
      first_fault (not (is_clock_value from) || not (is_clock_value to)) time_clock
        (first_fault (not (zone_ok known_zone tz)) time_zone none))
  condition_error (split percent) = first_fault (not (is_percent percent)) split_percent none
  condition_error (classify deployment labels matches) =
      first_fault (not (is_target ctx deployment)) classify_deployment (labels_fault labels matches)
  condition_error (unknown_type t) = some unknown_condition
