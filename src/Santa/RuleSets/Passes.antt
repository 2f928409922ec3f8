-- ===== src/Santa/RuleSets/Passes.antt =====
-- The loop on the rules of one configuration in `RuleSetUpdate.post`
-- (zentral/contrib/santa/api_views.py).
use zentral.Base.{
  Bool, List, Option, String, Yields, Yields-bind, [], all, all_mono, and-left, and-right, and_of,
  arith, contains, false, false_of_not, map, none, not, refl, some, true, ℕ, ◌&&◌, ◌==◌, ◌||◌, ◌∙◌,
  ◌∷◌, ◌≡◌, nat_eq, string_eq, option_eq,
}
use zentral.Santa.Rules.{Target}
use zentral.Santa.Targets.{target_eq}
use zentral.Santa.RuleUpdates.{RuleValues, same_set}
use zentral.Santa.RuleSets.{RuleUpdate}
use zentral.Santa.RuleSets.Updates.{Progress, apply_rule, apply_rules, values_of}
use zentral.Santa.RuleSets.Turns.{upsert-IsTurn}
use zentral.Santa.RuleSets.States.{IsKeyed, others, is_taken, meets, are_found, IsTurn}

abbrev pub targets_of : List RuleUpdate → List Target
targets_of us = map (λ u. u.target) us

-- No two rules of the request are on one target.
abbrev pub are_distinct : List Target → Bool
are_distinct [] = true
are_distinct (t ∷ ts) = not (contains ts t) && are_distinct ts

Yields-mono {ℓ} :
    {A : Type ℓ} (P Q : A → Type 0)
    → ((a : A) → P a → Q a)
    → (o : Option A) → Yields P o
    → Yields Q o
Yields-mono P Q h none p = p
Yields-mono P Q h (some a) p = h a p

contains-away : (a b : Bool) → (a || b) ≡ false → (a ≡ false) × (b ≡ false)
contains-away a b h = (ground arith, ground arith)

module _ (sorted : List String → List String)
    (keeps : (l : List String) → same_set l (sorted l) ≡ true) (all_tags : String → ℕ)
    (configuration rule_set : ℕ) where
  abbrev pub takes : Progress → Target → Bool
  takes p t = is_taken configuration rule_set t p.tables.targets p.tables.rules

  abbrev pub satisfies : Progress → Target → RuleValues → Bool
  satisfies q t v =
      meets configuration rule_set t v q.tables.targets q.tables.rules q.found_target_pks

  abbrev pub has_found : Progress → List Target → Bool
  has_found p ts = are_found configuration rule_set ts p.tables.targets p.found_target_pks

  abbrev pub satisfies_all : Progress → List RuleUpdate → Bool
  satisfies_all q us = all (λ u. satisfies q u.target (values_of all_tags u)) us

  abbrev pub IsPass : List RuleUpdate → Progress → Progress → Type 0
  IsPass us p q =
      IsKeyed q.tables.targets q.tables.rules
      × (others configuration rule_set q.tables.rules
          ≡ others configuration rule_set p.tables.rules)
      × ((t : Target) → takes p t ≡ false → takes q t ≡ false)
      × (satisfies_all q us ≡ true)
      × ((t : Target) (v : RuleValues)
          → contains (targets_of us) t ≡ false
          → satisfies p t v ≡ true
          → satisfies q t v ≡ true)
      × ((ts : List Target)
          → all (contains ts) (targets_of us) ≡ true
          → has_found p ts ≡ true
          → has_found q ts ≡ true)

  apply_rule-IsTurn :
      (u : RuleUpdate) (p : Progress)
      → IsKeyed p.tables.targets p.tables.rules
      → takes p u.target ≡ false
      → Yields
          (λ q.
            IsTurn configuration rule_set u.target
              (values_of all_tags u)
              p.tables.targets
              p.tables.rules
              p.found_target_pks
              q.tables.targets
              q.tables.rules
              q.found_target_pks)
          (apply_rule sorted all_tags configuration rule_set u p)
  unfolding apply_rule
  apply_rule-IsTurn u p keyed free =
      upsert-IsTurn configuration rule_set sorted keeps u.target (values_of all_tags u) p keyed free
        _ refl

  -- A pass over distinct targets that no other rule is on.
  pub apply_rules-IsPass :
      (us : List RuleUpdate) (p : Progress)
      → IsKeyed p.tables.targets p.tables.rules
      → are_distinct (targets_of us) ≡ true
      → all (λ u. not (takes p u.target)) us ≡ true
      → Yields (IsPass us p) (apply_rules sorted all_tags configuration rule_set us p)
  unfolding apply_rules
  apply_rules-IsPass [] p keyed d free = (keyed, refl, λ t h. h, refl, λ t v a h. h, λ ts a h. h)
  apply_rules-IsPass (u ∷ us) p keyed d free =
      Yields-bind
        (λ q.
          IsTurn configuration rule_set u.target (values_of all_tags u) p.tables.targets
            p.tables.rules p.found_target_pks q.tables.targets q.tables.rules q.found_target_pks)
        (IsPass (u ∷ us) p) (apply_rule sorted all_tags configuration rule_set u p) _
        (apply_rule-IsTurn u p keyed (false_of_not _ (and-left _ _ free)))
        (λ q turn.
          Yields-mono (IsPass us q) (IsPass (u ∷ us) p) (λ r pass. joined q r turn pass)
            (apply_rules sorted all_tags configuration rule_set us q)
            (apply_rules-IsPass us q turn.0 (and-right _ _ d) (
              all_mono (λ w. not (takes p w.target)) (λ w. not (takes q w.target)) us
                (λ w h. rw (turn.2 w.target (false_of_not _ h)) refl) (and-right _ _ free))))
    where
      joined :
          (q r : Progress)
          → IsTurn configuration rule_set u.target
              (values_of all_tags u)
              p.tables.targets
              p.tables.rules
              p.found_target_pks
              q.tables.targets
              q.tables.rules
              q.found_target_pks
          → IsPass us q r
          → IsPass (u ∷ us) p r
      joined q r turn pass = (
        pass.0,
        pass.1 ∙ turn.1,
        λ t h. pass.2 t (turn.2 t h),
        and_of _ _
            (pass.4 u.target (values_of all_tags u)
              (false_of_not (contains (targets_of us) u.target)
                (and-left _ (are_distinct (targets_of us)) d))
              turn.3)
            pass.3,
        λ t v a h.
            let away = contains-away (u.target == t) (contains (targets_of us) t) a in
            pass.4 t v away.1 (turn.4 t v away.0 h),
        λ ts a h.
            pass.5 ts (and-right (contains ts u.target) (all (contains ts) (targets_of us)) a)
              (turn.5 ts (and-left (contains ts u.target) (all (contains ts) (targets_of us)) a) h),
      )
