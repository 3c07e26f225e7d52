-- ===== src/Routing/Targets.antt =====
-- `reachableTargets`, `reachableLocalTargets`, of a table as the database holds it.
pub mod Known
use devproofai.Base.{
  String, Bool, true, false, List, [], ◌∷◌, ◌++◌, Option, none, some, if◌then◌else◌, filter,
  includes, is_empty,
}
use devproofai.Routing.Values.{Scalar, text, Items, items}
use devproofai.Routing.Rules.{RoutingRule, RoutingSpec, Terminal, route}

-- set.add(name), in order of insertion
add_name : List String → String → List String
add_name names t = if includes names t then names else names ++ t ∷ []

add_target : List String → Scalar → List String
unfolding add_name
add_target names (text t) = if is_empty t then names else add_name names t
add_target names _ = names

add_rules : List String → List RoutingRule → List String
unfolding add_target
add_rules names [] = names
add_rules names (r ∷ rs) = add_rules (add_target names r.target) rs

add_terminal : List String → Terminal → List String
unfolding add_name
add_terminal names (route (text t)) = add_name names t
add_terminal names _ = names

pub rules_of : Items RoutingRule → List RoutingRule
rules_of (items rs) = rs
rules_of _ = []

unfoldable pub reachable_targets : RoutingSpec → List String
unfolding add_rules add_terminal rules_of
reachable_targets spec = add_terminal (add_rules [] (rules_of spec.rules)) spec.terminal

module _ (local_names : List String) where
  add_local : List String → Scalar → List String
  unfolding add_name
  add_local names (text t) = if includes local_names t then add_name names t else names
  add_local names _ = names

  add_local_rules : List String → List RoutingRule → List String
  unfolding add_local
  add_local_rules names [] = names
  add_local_rules names (r ∷ rs) = add_local_rules (add_local names r.target) rs

  add_local_terminal : List String → Terminal → List String
  unfolding add_local
  add_local_terminal names (route t) = add_local names t
  add_local_terminal names _ = names

  unfoldable pub reachable_local_targets : RoutingSpec → List String
  unfolding add_local_rules add_local_terminal rules_of
  reachable_local_targets spec =
      add_local_terminal (add_local_rules [] (rules_of spec.rules)) spec.terminal
