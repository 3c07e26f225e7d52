-- ===== src/Routing/Rules.antt =====
-- `validateRouting`
use devproofai.Base.{
  ℕ, ◌+◌, String, Bool, not, List, [], ◌∷◌, Option, none, some, if◌then◌else◌, ltb, length,
}
use devproofai.Routing.Values.{Scalar, Items, missing, no_array, items}
use devproofai.Routing.Conditions.{
  Condition, ConditionFault, TargetCtx, is_target, condition_error, first_fault,
}

pub record RoutingRule : Type 0 where
  pub target : Scalar
  pub conditions : Items Condition

pub data Terminal : Type 0 where
  route : (target : Scalar) → Terminal
  reject : Terminal
  no_action : Terminal

pub record RoutingSpec : Type 0 where
  pub rules : Items RoutingRule
  pub terminal : Terminal

pub data RoutingFault : Type 0 where
  rules_array too_many_rules : RoutingFault
  rule_target rule_conditions rule_too_many : ℕ → RoutingFault
  rule_condition : ℕ → ConditionFault → RoutingFault
  terminal_target terminal_action : RoutingFault

module _ (known_zone : String → Bool) (ctx : TargetCtx) where
  conditions_error : ℕ → List Condition → Option RoutingFault
  conditions_error i [] = none
  conditions_error i (c ∷ cs) =
      let rest = conditions_error i cs in
      elim (condition_error known_zone ctx c) [
        | none ↦ rest
        | some fault ↦ some (rule_condition i fault)
      ]

  unfoldable pub list_error : ℕ → Items Condition → Option RoutingFault
  unfolding conditions_error
  list_error i missing = some (rule_conditions i)
  list_error i no_array = some (rule_conditions i)
  list_error i (items cs) =
      first_fault (ltb 10 (length cs)) (rule_too_many i) (conditions_error i cs)

  -- Rules are numbered from 1 in the messages.
  unfoldable pub rules_error : ℕ → List RoutingRule → Option RoutingFault
  unfolding list_error
  rules_error i [] = none
  rules_error i (r ∷ rs) =
      let rest = rules_error (i + 1) rs in
      if not (is_target ctx r.target)
      then some (rule_target i)
      else elim (list_error i r.conditions) [ none ↦ rest | some fault ↦ some fault ]

  unfoldable pub terminal_error : Terminal → Option RoutingFault
  terminal_error reject = none
  terminal_error (route t) = first_fault (not (is_target ctx t)) terminal_target none
  terminal_error no_action = some terminal_action

  unfoldable pub validate_list : List RoutingRule → Terminal → Option RoutingFault
  unfolding rules_error terminal_error
  validate_list rs t =
      if ltb 50 (length rs)
      then some too_many_rules
      else elim (rules_error 1 rs) [ none ↦ terminal_error t | some fault ↦ some fault ]

  -- `none` is `null`: the table is accepted.
  unfoldable pub validate_routing : RoutingSpec → Option RoutingFault
  unfolding validate_list
  validate_routing spec = elim spec.rules [
    | missing ↦ some rules_array
    | no_array ↦ some rules_array
    | items rs ↦ validate_list rs spec.terminal
  ]
