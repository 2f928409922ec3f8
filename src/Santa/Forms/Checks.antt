-- ===== src/Santa/Forms/Checks.antt =====
-- When the forms on rules in zentral/contrib/santa/forms.py raise.
use zentral.Base.{
  Bool, Equality, List, Option, String, [], ap, arith, false, find, if◌then◌else◌, none, not,
  overlaps, refl, some, true, ℕ, ◌&&◌, ◌==◌, ◌||◌, ◌∙◌, ◌∷◌, ◌≡◌, nat_eq, string_eq, option_eq,
}
use zentral.Santa.Forms.{
  Tables, ScopeData, Subject, RuleFormData, Cleaned, cleaned, unbound_local_error, key_error,
  value_error, FormError, add_errors, error_if, add_conflict, validate_scope, type_of, policy_of,
  sha256_of, has_sha256, checked_bundle, checked_policy, clean_rule_form, has_field, custom_msg_of,
  has_rule_on, target_of, rule_exists, bundle_policy, custom_msg_policy, primary_user_conflict,
  serial_number_conflict, tag_conflict,
}
use zentral.Santa.Policy.{blocklist, is_bundle_policy}
use zentral.Santa.Rules.{Bundle, bundle, target_type_eq}

abbrev pub raises : Cleaned → Bool
raises (cleaned es) = false
raises _ = true

-- A key of the two sets that is looked up and is not there.
abbrev pub misses_key {ℓ} : {A : Type ℓ} → Option (List A) → Option (List A) → Bool
misses_key none ys = true
misses_key (some []) ys = false
misses_key (some (x ∷ xs)) ys = not (has_field ys)

abbrev pub misses_scope : ScopeData → Bool
misses_scope s =
    misses_key s.primary_users s.excluded_primary_users
    || (misses_key s.serial_numbers s.excluded_serial_numbers || misses_key s.tags s.excluded_tags)

abbrev pub is_uploaded : Option Bundle → Bool
is_uploaded none = false
is_uploaded (some b) = not (b.uploaded_at == none)

raises-add_errors : (es : List FormError) (c : Cleaned) → raises (add_errors es c) ≡ raises c
raises-add_errors es (cleaned fs) = refl
raises-add_errors es unbound_local_error = refl
raises-add_errors es key_error = refl
raises-add_errors es value_error = refl

raises-add_conflict {ℓ} :
    {A : Type ℓ} ⦃eq : Equality A⦄ (e : FormError) (xs ys : Option (List A)) (rest : Cleaned)
    → raises (add_conflict e xs ys rest) ≡ (misses_key xs ys || raises rest)
raises-add_conflict e none none rest = refl
raises-add_conflict e none (some ys) rest = refl
raises-add_conflict e (some []) none rest = refl
raises-add_conflict {A = A} e (some []) (some ys) rest =
    raises-add_errors (error_if (overlaps {A = A} [] ys) e) rest
raises-add_conflict e (some (x ∷ xs)) none rest = refl
raises-add_conflict e (some (x ∷ xs)) (some ys) rest =
    raises-add_errors (error_if (overlaps (x ∷ xs) ys) e) rest

raises-validate_scope : (s : ScopeData) → raises (validate_scope s) ≡ misses_scope s
unfolding validate_scope
raises-validate_scope s = ground (
  arith,
  raises-add_conflict tag_conflict s.tags s.excluded_tags (cleaned []),
  raises-add_conflict serial_number_conflict s.serial_numbers s.excluded_serial_numbers
      (add_conflict tag_conflict s.tags s.excluded_tags (cleaned [])),
  raises-add_conflict primary_user_conflict s.primary_users s.excluded_primary_users (
      add_conflict serial_number_conflict s.serial_numbers s.excluded_serial_numbers
        (add_conflict tag_conflict s.tags s.excluded_tags (cleaned []))),
)

raises-checked_policy :
    (on_bundle : Bool) (policy : Option ℕ) (custom_msg : String) (rest : Cleaned)
    → raises (checked_policy on_bundle policy custom_msg rest)
      ≡ (not (has_field policy) || raises rest)
raises-checked_policy on_bundle none custom_msg rest = refl
raises-checked_policy on_bundle (some p) custom_msg rest =
    raises-add_errors (error_if (on_bundle && not (is_bundle_policy p)) bundle_policy) _
    ∙ raises-add_errors
        (error_if (not (p == blocklist) && not (custom_msg == "")) custom_msg_policy) rest

raises-checked_bundle :
    (b : Option Bundle) (rest : Cleaned)
    → raises (checked_bundle b rest) ≡ (not (is_uploaded b) || raises rest)
raises-checked_bundle none rest = refl
raises-checked_bundle (some b) rest = ground arith

-- The checks of a new rule raise in exactly three cases: the rule is on a bundle that is unknown or
-- not uploaded, the form has no valid policy, or a scope field that is looked up has an error of
-- its own.
pub clean_rule_form-raises :
    (configuration : ℕ) (tables : Tables) (subject : Subject) (d : RuleFormData)
    → raises (clean_rule_form configuration tables subject d) ≡ (
        ((type_of subject d == some bundle)
          && not
              (is_uploaded (find (has_sha256 tables.targets (sha256_of subject d)) tables.bundles)))
        || (not (has_field (policy_of subject d.policy)) || misses_scope d.scope))
unfolding clean_rule_form
clean_rule_form-raises configuration tables subject d =
    let on_bundle = type_of subject d == some bundle in
    let policy = policy_of subject d.policy in
    let found = find (has_sha256 tables.targets (sha256_of subject d)) tables.bundles in
    let rest =
      checked_policy on_bundle policy (custom_msg_of subject d.custom_msg)
        (validate_scope d.scope) in
    raises-add_errors
      (error_if (has_rule_on configuration tables (target_of subject d)) rule_exists)
      (if on_bundle then checked_bundle found rest else rest)
    ∙ branch on_bundle found rest
    ∙ ap (λ b. (on_bundle && not (is_uploaded found)) || b)
        (raises-checked_policy on_bundle policy (custom_msg_of subject d.custom_msg)
            (validate_scope d.scope)
          ∙ ap (λ b. not (has_field policy) || b) (raises-validate_scope d.scope))
  where
    branch :
        (on_bundle : Bool) (found : Option Bundle) (rest : Cleaned)
        → raises (if on_bundle then checked_bundle found rest else rest)
          ≡ ((on_bundle && not (is_uploaded found)) || raises rest)
    branch true found rest = raises-checked_bundle found rest
    branch false found rest = refl
