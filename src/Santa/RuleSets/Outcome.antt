-- ===== src/Santa/RuleSets/Outcome.antt =====
-- What a validated update of a rule set leaves in one configuration (`RuleSetUpdateSerializer` of
-- zentral/contrib/santa/serializers.py and `RuleSetUpdate.post` of zentral/contrib/santa/api_views.py).
use zentral.Santa.RuleUpdates.Laws.{same_set_refl}
use zentral.Base.{
  Bool, List, String, Yields, Yields-bind, [], all, all-contains, all-of_select, all_mono, and-left,
  and-right, any, any-map, any-of_select, arith, contains, false_of_not, ltb, not, refl, select,
  select-select, some, sym, true, ℕ, ◌&&◌, ◌==◌, ◌||◌, ◌∙◌, ◌≡◌, nat_eq, string_eq, option_eq,
}
use zentral.Santa.Rules.{Rule, Target}
use zentral.Santa.Targets.{target_eq}
use zentral.Santa.Targets.Keys.{target_at}
use zentral.Santa.Forms.{Tables}
use zentral.Santa.RuleUpdates.{RuleValues, agrees, same_set}
use zentral.Santa.RuleSets.{RuleUpdate, has_conflict, validate_rules}
use zentral.Santa.RuleSets.Updates.{
  Progress, RuleEvent, apply_rules, values_of, is_rule_of, is_left_over, delete_left_over, start,
  apply_configuration,
}
use zentral.Santa.RuleSets.States.{IsKeyed, others, is_met}
use zentral.Santa.RuleSets.Passes.{targets_of, IsPass, apply_rules-IsPass}
use zentral.Santa.RuleSets.Validation.{validate_rules-IsValid, no_conflict-is_taken}

-- A rule that the rule set has on the target, as it is asked for.
abbrev pub is_wanted : ℕ → ℕ → Tables → Target → RuleValues → Rule → Bool
is_wanted configuration rule_set tables t v r =
    is_rule_of configuration rule_set r
    && ((target_at tables.targets.rows r.target == some t) && agrees v r)

abbrev pub is_asked_for : Tables → List RuleUpdate → Rule → Bool
is_asked_for tables us r = any (λ u. target_at tables.targets.rows r.target == some u.target) us

kept_of : (o c : Bool) → not o ≡ true → not (o && not c) ≡ true
kept_of o c h = ground arith

met_of :
    (o m a c : Bool)
    → ((o && m) && (a && c)) ≡ true
    → (not (o && not c) ≡ true) × ((o && (m && a)) ≡ true)
met_of o m a c h = (ground arith, ground arith)

asked_of : (o c w : Bool) → not (o && not c) ≡ true → (c ≡ true → w ≡ true) → (not o || w) ≡ true
asked_of o c w h f = ground (arith, f)

module _ (sorted : List String → List String)
    (keeps : (l : List String) → same_set l (sorted l) ≡ true) (all_tags : String → ℕ)
    (configuration rule_set : ℕ) (us : List RuleUpdate) (tables : Tables) where
  -- The rules of others are as they were, each rule of the request is there as it is asked for, and
  -- the rule set has no other rule.
  abbrev pub IsUpdated : Progress → Type 0
  IsUpdated q =
      (others configuration rule_set q.tables.rules ≡ others configuration rule_set tables.rules)
      × (all
            (λ u.
              any (is_wanted configuration rule_set q.tables u.target (values_of all_tags u))
                q.tables.rules)
            us
          ≡ true)
      × (all (λ r. not (is_rule_of configuration rule_set r) || is_asked_for q.tables us r)
            q.tables.rules
          ≡ true)

  delete_left_over-IsUpdated :
      (events : List RuleEvent) (p : Progress)
      → IsPass sorted keeps all_tags configuration rule_set us (start tables events) p
      → IsUpdated (delete_left_over configuration rule_set p)
  unfolding delete_left_over
  delete_left_over-IsUpdated events p pass =
      let found = p.found_target_pks in
      let stays : Rule → Bool = λ r. not (is_left_over configuration rule_set found r) in
      (
        select-select (λ r. not (is_rule_of configuration rule_set r)) stays p.tables.rules
              (λ r h. kept_of (is_rule_of configuration rule_set r) (contains found r.target) h)
            ∙ pass.1,
        all_mono _
            (λ u.
              any (is_wanted configuration rule_set p.tables u.target (values_of all_tags u))
                (select stays p.tables.rules))
            us
            (λ u h.
              any-of_select
                (is_met configuration rule_set u.target (values_of all_tags u) p.tables.targets
                  found)
                (is_wanted configuration rule_set p.tables u.target (values_of all_tags u)) stays
                p.tables.rules
                (λ r m.
                  met_of (is_rule_of configuration rule_set r)
                    (target_at p.tables.targets.rows r.target == some u.target)
                    (agrees (values_of all_tags u) r) (contains found r.target) m)
                h)
            pass.3,
        all-of_select (λ r. not (is_rule_of configuration rule_set r) || is_asked_for p.tables us r)
            stays p.tables.rules
            (λ r h.
              asked_of (is_rule_of configuration rule_set r) (contains found r.target)
                (is_asked_for p.tables us r) h
                (λ seen.
                  sym (
                    any-map (λ t. target_at p.tables.targets.rows r.target == some t)
                      (λ u. u.target) us)
                  ∙ and-right _ _ (
                      all-contains
                        (λ k.
                          ltb k p.tables.targets.next_pk
                          && any (λ t. target_at p.tables.targets.rows k == some t) (targets_of us))
                        found r.target
                        (pass.5 (targets_of us) (and-left _ _ (same_set_refl (targets_of us))) refl)
                        seen))),
      )

  -- An update that passes the validation raises no error in a configuration that it was validated
  -- for. There the rule set has, on each target of the request, a rule with what is asked for, no rule
  -- on another target, and the rules that are not the rule set's own stay as they were. The rules and
  -- the targets have keys that are there, and sorting a list keeps its items.
  pub apply_configuration-IsUpdated :
      (configurations : List ℕ) (events : List RuleEvent)
      → IsKeyed tables.targets tables.rules
      → contains configurations configuration ≡ true
      → validate_rules configurations (some rule_set) tables [] 0 us ≡ []
      → Yields IsUpdated
          (apply_configuration sorted all_tags rule_set us tables events configuration)
  unfolding apply_configuration
  apply_configuration-IsUpdated configurations events keyed c v =
      let valid = validate_rules-IsValid configurations (some rule_set) tables [] 0 us v in
      Yields-bind (IsPass sorted keeps all_tags configuration rule_set us (start tables events))
        IsUpdated (apply_rules sorted all_tags configuration rule_set us (start tables events)) _
        (apply_rules-IsPass sorted keeps all_tags configuration rule_set us (start tables events)
          keyed valid.2
          (all_mono (λ u. not (has_conflict configurations (some rule_set) tables u.target)) _ us
            (λ u h.
              rw
                (no_conflict-is_taken configurations configuration rule_set tables u.target keyed c
                  (false_of_not _ h))
                refl)
            valid.0))
        (λ p pass. delete_left_over-IsUpdated events p pass)
