-- ===== src/Santa/RuleSets/Validation.antt =====
-- What the validation of a rule set's update (`RuleSetUpdateSerializer` of
-- zentral/contrib/santa/serializers.py and `RuleSetUpdate.post` of zentral/contrib/santa/api_views.py).
use mathlib.Core.List.{cons-ne-nil}
use mathlib.Core.Option.{none-ne-some}
use zentral.Santa.RuleSets.{
  duplicated, conflict, bundle_not_uploaded, RuleUpdate, RuleError, with_error, rule_error,
  has_conflict, has_rule_set, validate_rules, is_uploaded_bundle,
}
use zentral.Santa.RuleSets.Updates.{is_rule_of}
use zentral.Base.{
  Bool, Bool-cases, Equality, List, Option, [], all, and-left, and-right, any-select, any_mono, ap,
  arith, beq-eq_of, beq_refl, contains, false, if◌then◌else◌, inl, inr, none, not, refl, some, suc,
  sym, true, ℕ, ◌&&◌, ◌==◌, ◌||◌, ◌∙◌, ◌∷◌, ◌≡◌, nat_eq, string_eq, option_eq,
}
use zentral.Santa.Rules.{Rule, Target, bundle, target_type_eq}
use zentral.Santa.Targets.{is_target, target_eq}
use zentral.Santa.Targets.Keys.{target_at, is_target-at}
use zentral.Santa.Forms.{Tables}
use zentral.Santa.RuleSets.States.{IsKeyed, is_taken, is_on_target}
use zentral.Santa.RuleSets.Passes.{targets_of, are_distinct}

no_error :
    (n : ℕ) (o : Option RuleError) (rest : List (ℕ × RuleError))
    → with_error n o rest ≡ []
    → (o ≡ none) × (rest ≡ [])
no_error n none rest h = (refl, h)
no_error n (some e) rest h = absurd (cons-ne-nil (n, e) rest h)

none_of :
    (c b k : Bool)
    → (if c
        then some conflict
        else if b
        then some bundle_not_uploaded
        else if k
        then some duplicated
        else none)
      ≡ none
    → (c ≡ false) × (k ≡ false)
none_of true b k h = absurd (none-ne-some conflict (sym h))
none_of false true k h = absurd (none-ne-some bundle_not_uploaded (sym h))
none_of false false true h = absurd (none-ne-some duplicated (sym h))
none_of false false false h = (refl, refl)

rule_error-none :
    (configurations : List ℕ) (s : Option ℕ) (tables : Tables) (keys : List Target) (u : RuleUpdate)
    → rule_error configurations s tables keys u ≡ none
    → (has_conflict configurations s tables u.target ≡ false) × (contains keys u.target ≡ false)
rule_error-none configurations s tables keys u h =
    none_of (has_conflict configurations s tables u.target)
      ((u.target.type == bundle) && not (is_uploaded_bundle tables u.target))
      (contains keys u.target) h

beq_sym {ℓ} : {A : Type ℓ} ⦃e : Equality A⦄ (a b : A) → (a == b) ≡ false → (b == a) ≡ false
beq_sym a b h = elim (Bool-cases (b == a)) [
  | inl same ↦ ground (arith, ap (λ x. a == x) (beq-eq_of b a same) ∙ beq_refl a)
  | inr other ↦ other
]

fresh_targets :
    (t : Target) (keys : List Target) (us : List RuleUpdate)
    → all (λ w. not (contains (t ∷ keys) w.target)) us ≡ true
    → (contains (targets_of us) t ≡ false) × (all (λ w. not (contains keys w.target)) us ≡ true)
fresh_targets t keys [] h = (refl, refl)
fresh_targets t keys (u ∷ us) h =
    let rest = fresh_targets t keys us (and-right _ _ h) in
    let away = neither (t == u.target) (contains keys u.target) (and-left _ _ h) in
    (rw (beq_sym t u.target away.0, rest.0) refl, rw (away.1, rest.1) refl)
  where
    neither : (a b : Bool) → not (a || b) ≡ true → (a ≡ false) × (b ≡ false)
    neither a b h = (ground arith, ground arith)

abbrev pub IsValid : List ℕ → Option ℕ → Tables → List Target → List RuleUpdate → Type 0
IsValid configurations s tables keys us =
    (all (λ u. not (has_conflict configurations s tables u.target)) us ≡ true)
    × (all (λ u. not (contains keys u.target)) us ≡ true)
    × (are_distinct (targets_of us) ≡ true)

pub validate_rules-IsValid :
    (configurations : List ℕ) (s : Option ℕ) (tables : Tables) (keys : List Target) (n : ℕ)
    (us : List RuleUpdate)
    → validate_rules configurations s tables keys n us ≡ []
    → IsValid configurations s tables keys us
unfolding validate_rules
validate_rules-IsValid configurations s tables keys n [] h = (refl, refl, refl)
validate_rules-IsValid configurations s tables keys n (u ∷ us) h =
    let e = no_error n (rule_error configurations s tables keys u) _ h in
    let here = rule_error-none configurations s tables keys u e.0 in
    let rest = validate_rules-IsValid configurations s tables (u.target ∷ keys) (suc n) us e.1 in
    let fresh = fresh_targets u.target keys us rest.1 in
    (rw (here.0, rest.0) refl, rw (here.1, fresh.1) refl, rw (fresh.0, rest.2) refl)

pub no_conflict-is_taken :
    (configurations : List ℕ) (configuration rule_set : ℕ) (tables : Tables) (t : Target)
    → IsKeyed tables.targets tables.rules
    → contains configurations configuration ≡ true
    → has_conflict configurations (some rule_set) tables t ≡ false
    → is_taken configuration rule_set t tables.targets tables.rules ≡ false
unfolding is_target
no_conflict-is_taken configurations configuration rule_set tables t keyed c h =
    sym (
      any-select (λ r. not (is_rule_of configuration rule_set r))
        (is_on_target configuration rule_set tables.targets t) tables.rules)
    ∙ any_mono _
        (λ r.
          not (has_rule_set (some rule_set) r)
          && (contains configurations r.configuration && is_target tables.targets t r.target))
        clash tables.rules h
  where
    clash_of :
        (c rs m conf tt : Bool)
        → (not rs && (c && m)) ≡ false
        → (conf ≡ true → c ≡ true)
        → (tt ≡ true → m ≡ true)
        → (not (conf && rs) && (conf && tt)) ≡ false
    clash_of c rs m conf tt h f g = ground (arith, f, g)

    clash :
        (r : Rule)
        → (not (has_rule_set (some rule_set) r)
            && (contains configurations r.configuration && is_target tables.targets t r.target))
          ≡ false
        → (not (is_rule_of configuration rule_set r)
            && is_on_target configuration rule_set tables.targets t r)
          ≡ false
    clash r e =
        clash_of (contains configurations r.configuration) (r.rule_set == some rule_set)
          (is_target tables.targets t r.target) (r.configuration == configuration)
          (target_at tables.targets.rows r.target == some t) e
          (λ same. ap (contains configurations) (beq-eq_of r.configuration configuration same) ∙ c)
          (λ same.
            is_target-at t r.target tables.targets.next_pk tables.targets.rows keyed.0
              (beq-eq_of (target_at tables.targets.rows r.target) (some t) same))
