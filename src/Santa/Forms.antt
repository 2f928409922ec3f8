-- ===== src/Santa/Forms.antt =====
-- The forms on rules in zentral/contrib/santa/forms.py.
pub mod Checks
pub mod Saved
pub mod Valid
pub mod Sound
use zentral.Base.{
  Bool, Equality, List, Option, String, [], any, false, find, if◌then◌else◌, none, not, overlaps,
  some, true, ℕ, ◌&&◌, ◌++◌, ◌==◌, ◌∷◌, nat_eq, string_eq, option_eq,
}
use zentral.Santa.Policy.{blocklist, is_rule_policy, is_bundle_policy}
use zentral.Santa.Rules.{Rule, Bundle, Target, TargetType, bundle, target_type_eq}
use zentral.Santa.Targets.{TargetTable, is_target, get_or_create_target}
use zentral.Santa.RuleUpdates.{RuleValues, update_rule, rule_changes, has_no_changes, RuleChanges}

-- The tables that the forms read.
pub record Tables : Type 0 where
  pub targets : TargetTable
  pub bundles : List Bundle
  pub rules : List Rule

-- The scope in `cleaned_data`. A field that has an error of its own is not there.
pub record ScopeData : Type 0 where
  pub serial_numbers : Option (List String)
  pub excluded_serial_numbers : Option (List String)
  pub primary_users : Option (List String)
  pub excluded_primary_users : Option (List String)
  pub tags : Option (List ℕ)
  pub excluded_tags : Option (List ℕ)

-- Is the form shown for one binary, bundle or certificate, by its digest, or for any target?
pub data Subject : Type 0 where
  any_target : Subject
  one_target : Target → Subject

pub record RuleFormData : Type 0 where
  pub target_type : Option TargetType
  pub target_sha256 : Option ℕ
  pub policy : Option ℕ
  pub custom_msg : String
  pub scope : ScopeData

pub data FormError : Type 0 where
  rule_exists bundle_policy custom_msg_policy : FormError
  primary_user_conflict serial_number_conflict tag_conflict : FormError

-- `clean` adds errors, or it raises: a `policy` that was never assigned, a key that is not there,
-- or an error on the field `bundle`, which the form does not have.
pub data Cleaned : Type 0 where
  cleaned : List FormError → Cleaned
  unbound_local_error key_error value_error : Cleaned

abbrev pub add_errors : List FormError → Cleaned → Cleaned
add_errors es (cleaned fs) = cleaned (es ++ fs)
add_errors es raised = raised

abbrev pub error_if : Bool → FormError → List FormError
error_if test e = if test then e ∷ [] else []

abbrev pub add_conflict {ℓ} :
    {A : Type ℓ}
    → ⦃e : Equality A⦄ → FormError
    → Option (List A)
    → Option (List A)
    → Cleaned
    → Cleaned
add_conflict e (some xs) (some ys) rest = add_errors (error_if (overlaps xs ys) e) rest
-- an empty list of included items never looks at the excluded ones
add_conflict e (some []) none rest = rest
add_conflict e _ _ rest = key_error

-- `RuleFormMixin.validate_scope`
unfoldable pub validate_scope : ScopeData → Cleaned
validate_scope s = add_conflict primary_user_conflict s.primary_users s.excluded_primary_users (
    add_conflict serial_number_conflict s.serial_numbers s.excluded_serial_numbers
      (add_conflict tag_conflict s.tags s.excluded_tags (cleaned [])))

abbrev pub given_target : Option TargetType → Option ℕ → Option Target
given_target (some t) (some s) = some (record { type = t; sha256 = s })
given_target _ _ = none

abbrev pub target_of : Subject → RuleFormData → Option Target
target_of (one_target t) d = some t
target_of any_target d = given_target d.target_type d.target_sha256

abbrev pub type_of : Subject → RuleFormData → Option TargetType
type_of (one_target t) d = some t.type
type_of any_target d = d.target_type

abbrev pub sha256_of : Subject → RuleFormData → Option ℕ
sha256_of (one_target t) d = some t.sha256
sha256_of any_target d = d.target_sha256

-- The form on a bundle has the bundles' policies only, and no message.
abbrev pub is_choice : Subject → ℕ → Bool
is_choice any_target p = is_rule_policy p
is_choice (one_target t) p = if t.type == bundle then is_bundle_policy p else is_rule_policy p

abbrev pub policy_of : Subject → Option ℕ → Option ℕ
policy_of subject none = none
policy_of subject (some p) = if is_choice subject p then some p else none

abbrev pub custom_msg_of : Subject → String → String
custom_msg_of any_target msg = msg
custom_msg_of (one_target t) msg = if t.type == bundle then "" else msg

-- `Rule.objects.filter(configuration=…, target__type=…, target__sha256=…).count()`
abbrev pub has_rule_on : ℕ → Tables → Option Target → Bool
has_rule_on configuration tables none = false
has_rule_on configuration tables (some t) =
    any (λ r. (r.configuration == configuration) && is_target tables.targets t r.target)
      tables.rules

abbrev pub has_sha256 : TargetTable → Option ℕ → Bundle → Bool
has_sha256 targets none b = false
has_sha256 targets (some s) b =
    any (λ row. (row.pk == b.target) && (row.target.sha256 == s)) targets.rows

-- An error on the bundle is added to a field that is not there, which raises `ValueError`.
abbrev pub checked_bundle : Option Bundle → Cleaned → Cleaned
checked_bundle none rest = value_error
checked_bundle (some b) rest = if b.uploaded_at == none then value_error else rest

abbrev pub checked_policy : Bool → Option ℕ → String → Cleaned → Cleaned
checked_policy on_bundle none custom_msg rest = unbound_local_error
checked_policy on_bundle (some p) custom_msg rest =
    add_errors (error_if (on_bundle && not (is_bundle_policy p)) bundle_policy) (
      add_errors (error_if (not (p == blocklist) && not (custom_msg == "")) custom_msg_policy) rest)

-- `RuleForm.clean`
unfoldable pub clean_rule_form : ℕ → Tables → Subject → RuleFormData → Cleaned
clean_rule_form configuration tables subject d =
    let on_bundle = type_of subject d == some bundle in
    let policy = policy_of subject d.policy in
    let rest =
      checked_policy on_bundle policy (custom_msg_of subject d.custom_msg)
        (validate_scope d.scope) in
    add_errors (error_if (has_rule_on configuration tables (target_of subject d)) rule_exists) (
      if on_bundle
      then checked_bundle (find (has_sha256 tables.targets (sha256_of subject d)) tables.bundles)
          rest
      else rest)

abbrev pub has_field {ℓ} : {A : Type ℓ} → Option A → Bool
has_field none = false
has_field (some a) = true

abbrev pub has_scope : ScopeData → Bool
has_scope s =
    has_field s.serial_numbers
    && (has_field s.excluded_serial_numbers
        && (has_field s.primary_users
            && (has_field s.excluded_primary_users
                && (has_field s.tags && has_field s.excluded_tags))))

abbrev pub is_clean : Cleaned → Bool
is_clean (cleaned []) = true
is_clean _ = false

-- `is_valid()`: no field has an error of its own, and `clean` adds none.
unfoldable pub is_valid_rule_form : ℕ → Tables → Subject → RuleFormData → Bool
is_valid_rule_form configuration tables subject d =
    has_field (target_of subject d)
    && (has_field (policy_of subject d.policy)
        && (has_scope d.scope && is_clean (clean_rule_form configuration tables subject d)))

abbrev pub or_none {ℓ} : {A : Type ℓ} → Option (List A) → List A
or_none none = []
or_none (some xs) = xs

unfoldable pub new_rule : ℕ → ℕ → ℕ → String → ScopeData → Rule
new_rule configuration target policy custom_msg s = record {
  configuration = configuration;
  rule_set = none;
  target = target;
  policy = policy;
  custom_msg = custom_msg;
  version = 1;
  serial_numbers = or_none s.serial_numbers;
  excluded_serial_numbers = or_none s.excluded_serial_numbers;
  primary_users = or_none s.primary_users;
  excluded_primary_users = or_none s.excluded_primary_users;
  tags = or_none s.tags;
  excluded_tags = or_none s.excluded_tags;
}

-- `Rule.objects.create(…)`: `none` is the `IntegrityError` of a second rule on a target.
unfoldable pub create_rule : Rule → TargetTable → Tables → Option Tables
create_rule r targets tables =
    if any (λ x. (x.configuration == r.configuration) && (x.target == r.target)) tables.rules
    then none
    else some (record tables { targets = targets; rules = r ∷ tables.rules })

unfoldable pub save_with :
    ℕ → Tables → String → ScopeData → Option Target → Option ℕ → Option Tables
unfolding new_rule
save_with configuration tables custom_msg s (some t) (some p) =
    let found = get_or_create_target t tables.targets in
    create_rule (new_rule configuration found.0 p custom_msg s) found.1 tables
save_with configuration tables custom_msg s _ _ = none

-- `RuleForm.save`: `none` is an exception.
unfoldable pub save_rule_form : ℕ → Tables → Subject → RuleFormData → Option Tables
unfolding save_with
save_rule_form configuration tables subject d =
    save_with configuration tables (custom_msg_of subject d.custom_msg) d.scope
      (target_of subject d) (policy_of subject d.policy)

-- `UpdateRuleForm.clean`. `target_type` is no field of this form, so the test for bundles reads
-- a key that is never there.
unfoldable pub clean_update_rule_form : Option ℕ → String → ScopeData → Cleaned
clean_update_rule_form none custom_msg s = validate_scope s
clean_update_rule_form (some p) custom_msg s =
    add_errors (error_if (not (p == blocklist) && not (custom_msg == "")) custom_msg_policy)
      (validate_scope s)

-- `UpdateRuleForm.save`: the new rule, and the event if there is something to tell.
unfoldable pub save_update_rule_form : RuleValues → Rule → Rule × Option RuleChanges
save_update_rule_form v r =
    let changes = rule_changes v r in
    (update_rule (λ l. l) v r, (if has_no_changes changes then none else some changes))
