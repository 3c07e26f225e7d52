-- ===== src/Routing/Targets/Known.antt =====
-- Where a request can land through an accepted table.
use devproofai.Base.{
  ℕ, ◌+◌, ◌≤◌, String, ◌≡◌, refl, Bool, true, false, not, List, [], ◌∷◌, Option, none, some, arith,
  if◌then◌else◌, Bool-cases, inl, inr, All, All-append, is_empty, includes, ltb, length,
}
use devproofai.Routing.Values.{Scalar, absent, text, number, other, Items, missing, no_array, items}
use devproofai.Routing.Conditions.{TargetCtx, is_target, knows}
use devproofai.Routing.Rules.{
  RoutingRule, RoutingSpec, RoutingFault, Terminal, route, reject, no_action, rules_error,
  list_error, terminal_error, validate_list, validate_routing,
}
use devproofai.Routing.Targets.{
  add_name, add_target, add_rules, add_terminal, rules_of, reachable_targets,
}

module _ (known_zone : String → Bool) (ctx : TargetCtx) where
  abbrev IsKnown : String → Type 0
  IsKnown t = knows ctx t ≡ true

  add_name-All :
      (names : List String) (t : String)
      → All IsKnown names
      → knows ctx t ≡ true
      → All IsKnown (add_name names t)
  unfolding add_name
  add_name-All names t h k = elim (Bool-cases (includes names t)) [
    | inl old ↦ rw old h
    | inr new ↦ rw new (All-append _ names (t ∷ []) h (k, tt))
  ]

  add_target-All :
      (names : List String) (v : Scalar)
      → All IsKnown names
      → is_target ctx v ≡ true
      → All IsKnown (add_target names v)
  unfolding add_target
  add_target-All names (text t) h k = elim (Bool-cases (is_empty t)) [
    | inl empty ↦ rw empty h
    | inr named ↦ rw named (add_name-All names t h k)
  ]
  add_target-All names absent h k = cc
  add_target-All names (number n) h k = cc
  add_target-All names other h k = cc

  split_rules :
      (bad : Bool) (i : ℕ) (found rest : Option RoutingFault)
      → (if bad
          then some (RoutingFault.rule_target i)
          else elim found [ none ↦ rest | some fault ↦ some fault ])
        ≡ none
      → (bad ≡ false) × (rest ≡ none)
  split_rules true i found rest h = cc
  split_rules false i none rest h = (refl, h)
  split_rules false i (some fault) rest h = cc

  add_rules-All :
      (names : List String) (rs : List RoutingRule) (i : ℕ)
      → All IsKnown names
      → rules_error known_zone ctx i rs ≡ none
      → All IsKnown (add_rules names rs)
  unfolding add_rules rules_error
  add_rules-All names [] i h e = h
  add_rules-All names (r ∷ rs) i h e =
      let (good, rest) =
        split_rules (not (is_target ctx r.target)) i (list_error known_zone ctx i r.conditions) _
          e in
      add_rules-All (add_target names r.target) rs (i + 1)
        (add_target-All names r.target h (ground (arith, good))) rest

  add_terminal-All :
      (names : List String) (t : Terminal)
      → All IsKnown names
      → terminal_error known_zone ctx t ≡ none
      → All IsKnown (add_terminal names t)
  unfolding add_terminal terminal_error
  add_terminal-All names reject h e = h
  add_terminal-All names no_action h e = h
  add_terminal-All names (route (text t)) h e = add_name-All names t h (ground (arith, e))
  add_terminal-All names (route absent) h e = h
  add_terminal-All names (route (number n)) h e = h
  add_terminal-All names (route other) h e = h

  split_list :
      (long : Bool) (found rest : Option RoutingFault)
      → (if long
          then some RoutingFault.too_many_rules
          else elim found [ none ↦ rest | some fault ↦ some fault ])
        ≡ none
      → (long ≡ false) × (found ≡ none) × (rest ≡ none)
  split_list true found rest h = cc
  split_list false none rest h = (refl, refl, h)
  split_list false (some fault) rest h = cc

  accepted_list :
      (rs : List RoutingRule) (t : Terminal)
      → validate_list known_zone ctx rs t ≡ none
      → (length rs ≤ 50) × All IsKnown (add_terminal (add_rules [] rs) t)
  unfolding validate_list
  accepted_list rs t e =
      let (short, rules, last) = split_list (ltb 50 (length rs)) _ _ e in
      (ground arith, add_terminal-All _ t (add_rules-All [] rs 1 tt rules) last)

  -- Through a table that is accepted, a request can land only on a deployment or an external
  -- endpoint that was there at the check, and the table has at most fifty rules.
  pub validate_routing_lem :
      (spec : RoutingSpec)
      → validate_routing known_zone ctx spec ≡ none
      → (length (rules_of spec.rules) ≤ 50) × All (λ t. knows ctx t ≡ true) (reachable_targets spec)
  unfolding validate_routing reachable_targets
  validate_routing_lem spec e = by_rules spec.rules e
    where
      by_rules :
          (r : Items RoutingRule)
          → (elim r [
            | missing ↦ some RoutingFault.rules_array
            | no_array ↦ some RoutingFault.rules_array
            | items rs ↦ validate_list known_zone ctx rs spec.terminal
          ])
            ≡ none
          → (length (rules_of r) ≤ 50)
            × All IsKnown (add_terminal (add_rules [] (rules_of r)) spec.terminal)
      by_rules missing h = cc
      by_rules no_array h = cc
      by_rules (items rs) h = accepted_list rs spec.terminal h
