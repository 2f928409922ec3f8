-- ===== src/Santa/Forms/Valid.antt =====
-- What a valid rule form of zentral/contrib/santa/forms.py says of the rule.
use zentral.Santa.Forms.{
  type_of, tag_conflict, serial_number_conflict, primary_user_conflict, clean_rule_form,
  given_target, sha256_of, has_sha256, rule_exists, target_of, policy_of, is_valid_rule_form,
  custom_msg_of, checked_policy, checked_bundle, bundle_policy, custom_msg_policy, has_rule_on,
  Tables, ScopeData, Subject, RuleFormData, Cleaned, cleaned, is_clean, add_errors, error_if,
  FormError, has_field, has_scope, or_none, validate_scope, add_conflict, one_target, any_target,
}
use mathlib.Core.Option.{none-ne-some}
use zentral.Santa.Forms.Sound.{type_in}
use zentral.Santa.Rules.{Bundle, Target, TargetType, bundle, target_type_eq}
use mathlib.Core.Path.{ap₂}
use zentral.Base.{
  Bool, Equality, List, Option, String, [], and-left, and-right, ap, arith, false, false_of_not,
  find, if◌then◌else◌, is_empty, none, not, overlaps, refl, some, sym, true, ℕ, ◌&&◌, ◌==◌, ◌∙◌,
  ◌∷◌, ◌≡◌, nat_eq, string_eq, option_eq,
}
use zentral.Santa.Policy.{blocklist, is_bundle_policy}
use zentral.Santa.Targets.{target_eq}

is_clean-add_errors :
    (es : List FormError) (c : Cleaned) → is_clean (add_errors es c) ≡ (is_empty es && is_clean c)
is_clean-add_errors [] (cleaned []) = refl
is_clean-add_errors [] (cleaned (x ∷ fs)) = refl
is_clean-add_errors [] Cleaned.unbound_local_error = refl
is_clean-add_errors [] Cleaned.key_error = refl
is_clean-add_errors [] Cleaned.value_error = refl
is_clean-add_errors (e ∷ es) (cleaned fs) = refl
is_clean-add_errors (e ∷ es) Cleaned.unbound_local_error = refl
is_clean-add_errors (e ∷ es) Cleaned.key_error = refl
is_clean-add_errors (e ∷ es) Cleaned.value_error = refl

is_empty-error_if : (b : Bool) (e : FormError) → is_empty (error_if b e) ≡ not b
is_empty-error_if true e = refl
is_empty-error_if false e = refl

pub is_clean-error_if :
    (b : Bool) (e : FormError) (c : Cleaned)
    → is_clean (add_errors (error_if b e) c) ≡ (not b && is_clean c)
is_clean-error_if b e c =
    is_clean-add_errors (error_if b e) c ∙ ap (λ x. x && is_clean c) (is_empty-error_if b e)

module _ {ℓ} {A : Type ℓ} ⦃eq : Equality A⦄ where
  is_clean-add_conflict :
      (e : FormError) (xs ys : Option (List A)) (rest : Cleaned)
      → (has_field xs && has_field ys) ≡ true
      → is_clean (add_conflict e xs ys rest)
        ≡ (not (overlaps (or_none xs) (or_none ys)) && is_clean rest)
  is_clean-add_conflict e (some []) (some ys) rest h = is_clean-error_if false e rest
  is_clean-add_conflict e (some (x ∷ xs)) (some ys) rest h =
      is_clean-error_if (overlaps (x ∷ xs) ys) e rest
  is_clean-add_conflict e none ys rest h = ground arith
  is_clean-add_conflict e (some xs) none rest h = ground arith

-- A valid scope excludes nothing that it includes.
pub is_clean-validate_scope :
    (s : ScopeData)
    → has_scope s ≡ true
    → is_clean (validate_scope s) ≡ (
        not (overlaps (or_none s.primary_users) (or_none s.excluded_primary_users))
        && (not (overlaps (or_none s.serial_numbers) (or_none s.excluded_serial_numbers))
            && not (overlaps (or_none s.tags) (or_none s.excluded_tags))))
unfolding validate_scope
is_clean-validate_scope s h =
    is_clean-add_conflict primary_user_conflict s.primary_users s.excluded_primary_users _
      (ground arith)
    ∙ ap (λ b. not (overlaps (or_none s.primary_users) (or_none s.excluded_primary_users)) && b)
        (is_clean-add_conflict serial_number_conflict s.serial_numbers s.excluded_serial_numbers _
            (ground arith)
          ∙ ap
              (λ b.
                not (overlaps (or_none s.serial_numbers) (or_none s.excluded_serial_numbers)) && b)
              (is_clean-add_conflict tag_conflict s.tags s.excluded_tags (cleaned []) (ground arith)
                ∙ and_true _))
  where
    and_true : (b : Bool) → (b && true) ≡ b
    and_true b = ground arith

pub is_clean-checked_policy :
    (on_bundle : Bool) (p : ℕ) (custom_msg : String) (rest : Cleaned)
    → is_clean (checked_policy on_bundle (some p) custom_msg rest) ≡ (
        not (on_bundle && not (is_bundle_policy p))
        && (not (not (p == blocklist) && not (custom_msg == "")) && is_clean rest))
is_clean-checked_policy on_bundle p custom_msg rest =
    is_clean-error_if (on_bundle && not (is_bundle_policy p)) bundle_policy _
    ∙ ap (λ b. not (on_bundle && not (is_bundle_policy p)) && b)
        (is_clean-error_if (not (p == blocklist) && not (custom_msg == "")) custom_msg_policy rest)

checked_bundle-passes :
    (on_bundle : Bool) (b : Option Bundle) (rest : Cleaned)
    → is_clean (if on_bundle then checked_bundle b rest else rest) ≡ true
    → is_clean rest ≡ true
checked_bundle-passes false b rest h = h
checked_bundle-passes true (some b) rest h = ground arith
checked_bundle-passes true none rest h = ground arith

type_of-target :
    (subject : Subject) (d : RuleFormData) (t : Target)
    → target_of subject d ≡ some t
    → type_of subject d ≡ some t.type
type_of-target (one_target u) d t e = ap type_in e
type_of-target any_target d t e = given d.target_type d.target_sha256 e
  where
    given : (o : Option TargetType) (s : Option ℕ) → given_target o s ≡ some t → o ≡ some t.type
    given (some u) (some s) e = ap type_in e
    given (some u) none e = absurd (none-ne-some t e)
    given none s e = absurd (none-ne-some t e)

-- What a valid form says of the rule.
pub valid_rule_form :
    (configuration : ℕ) (tables : Tables) (subject : Subject) (d : RuleFormData) (t : Target)
    (p : ℕ)
    → target_of subject d ≡ some t
    → policy_of subject d.policy ≡ some p
    → is_valid_rule_form configuration tables subject d ≡ true
    → (has_rule_on configuration tables (some t) ≡ false)
      × (is_clean (
            checked_policy
              (t.type == bundle)
              (some p)
              (custom_msg_of subject d.custom_msg)
              (validate_scope d.scope))
          ≡ true)
      × (has_scope d.scope ≡ true)
unfolding is_valid_rule_form clean_rule_form
valid_rule_form configuration tables subject d t p e f h =
    let scope-clean = and-right _ _ (and-right _ _ h) in
    let rest =
      checked_policy (type_of subject d == some bundle) (policy_of subject d.policy)
        (custom_msg_of subject d.custom_msg) (validate_scope d.scope) in
    let found = find (has_sha256 tables.targets (sha256_of subject d)) tables.bundles in
    let c =
      sym (
        is_clean-error_if (has_rule_on configuration tables (target_of subject d)) rule_exists
          (if type_of subject d == some bundle then checked_bundle found rest else rest))
      ∙ and-right _ _ scope-clean in
    (
      ap (has_rule_on configuration tables) (sym e) ∙ false_of_not _ (and-left _ _ c),
      ap₂
            (λ ty po. is_clean (
              checked_policy (ty == some bundle) po (custom_msg_of subject d.custom_msg)
                (validate_scope d.scope)))
            (sym (type_of-target subject d t e)) (sym f)
          ∙ checked_bundle-passes _ found rest (and-right _ _ c),
      and-left _ _ scope-clean,
    )
