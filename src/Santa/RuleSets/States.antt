-- ===== src/Santa/RuleSets/States.antt =====
-- What holds of the tables between two turns of the loop in `RuleSetUpdate.post`
-- (zentral/contrib/santa/api_views.py).
use zentral.Base.{
  Bool, List, all, any, contains, false, ltb, not, select, some, true, ℕ, ◌&&◌, ◌==◌, ◌≡◌, nat_eq,
  string_eq, option_eq,
}
use zentral.Santa.Rules.{Rule, Target}
use zentral.Santa.Targets.{TargetTable, target_eq}
use zentral.Santa.Targets.Keys.{is_descending, target_at}
use zentral.Santa.RuleUpdates.{RuleValues, agrees}
use zentral.Santa.RuleSets.Updates.{is_rule_of}

-- Targets and rules have keys that are there.
abbrev pub IsKeyed : TargetTable → List Rule → Type 0
IsKeyed targets rules =
    (is_descending targets.next_pk targets.rows ≡ true)
    × (all (λ r. ltb r.target targets.next_pk) rules ≡ true)

module _ (configuration rule_set : ℕ) where
  -- The rules that are not the rule set's own in this configuration.
  abbrev pub others : List Rule → List Rule
  others rules = select (λ r. not (is_rule_of configuration rule_set r)) rules

  abbrev pub is_on_target : TargetTable → Target → Rule → Bool
  is_on_target targets t r =
      (r.configuration == configuration) && (target_at targets.rows r.target == some t)

  -- Another rule of the configuration is on the target.
  abbrev pub is_taken : Target → TargetTable → List Rule → Bool
  is_taken t targets rules = any (is_on_target targets t) (others rules)

  abbrev pub is_met : Target → RuleValues → TargetTable → List ℕ → Rule → Bool
  is_met t v targets found r =
      (is_rule_of configuration rule_set r && (target_at targets.rows r.target == some t))
      && (agrees v r && contains found r.target)

  -- The rule set has a rule on the target, found by the loop, that is as it is asked for.
  abbrev pub meets : Target → RuleValues → TargetTable → List Rule → List ℕ → Bool
  meets t v targets rules found = any (is_met t v targets found) rules

  -- The targets that were found are those of the request.
  abbrev pub are_found : List Target → TargetTable → List ℕ → Bool
  are_found ts targets found =
      all (λ k. ltb k targets.next_pk && any (λ t. target_at targets.rows k == some t) ts) found

  -- The turn on the target `t`.
  abbrev pub IsTurn :
      Target
      → RuleValues
      → TargetTable
      → List Rule
      → List ℕ
      → TargetTable
      → List Rule
      → List ℕ
      → Type 0
  IsTurn t v targets rules found new written seen =
      IsKeyed new written
      × (others written ≡ others rules)
      × ((u : Target) → is_taken u targets rules ≡ false → is_taken u new written ≡ false)
      × (meets t v new written seen ≡ true)
      × ((u : Target) (w : RuleValues)
          → (t == u) ≡ false
          → meets u w targets rules found ≡ true
          → meets u w new written seen ≡ true)
      × ((ts : List Target)
          → contains ts t ≡ true
          → are_found ts targets found ≡ true
          → are_found ts new seen ≡ true)
