-- ===== src/Santa/RuleSets.antt =====
-- The update of a rule set: the serializers of zentral/contrib/santa/serializers.py.
pub mod Updates
pub mod States
pub mod Outcome
pub mod Validation
pub mod Passes
pub mod Writes
pub mod Turns
use zentral.Base.{
  Bool, List, Option, String, [], any, contains, false, if◌then◌else◌, none, not, overlaps, some,
  suc, truthy, ℕ, ◌&&◌, ◌==◌, ◌∷◌, nat_eq, string_eq, option_eq,
}
use zentral.Santa.Policy.{blocklist, is_bundle_policy}
use zentral.Santa.Rules.{Rule, Target, TargetType, bundle, target_type_eq, Bundle}
use zentral.Santa.Targets.{TargetTable, is_target, get_or_create_target, target_eq}
use zentral.Santa.RuleUpdates.{RuleValues, RuleChanges, update_rule, agrees, rule_changes}
use zentral.Santa.Forms.{Tables, or_none, create_rule, has_sha256}

-- One rule of the request. A key that is not required may be missing.
pub record RuleUpdate : Type 0 where
  pub policy : ℕ
  pub target : Target
  pub custom_msg : Option String
  pub serial_numbers : Option (List String)
  pub excluded_serial_numbers : Option (List String)
  pub primary_users : Option (List String)
  pub excluded_primary_users : Option (List String)
  pub tags : Option (List String)
  pub excluded_tags : Option (List String)

pub data UpdateError : Type 0 where
  wrong_bundle_policy custom_msg_policy : UpdateError
  serial_numbers_conflict primary_users_conflict tags_conflict : UpdateError

abbrev pub or_empty : Option String → String
or_empty none = ""
or_empty (some s) = s

-- The first error that `RuleUpdateSerializer.validate` raises.
unfoldable pub validate_rule : RuleUpdate → Option UpdateError
validate_rule u =
    if (u.target.type == bundle) && not (is_bundle_policy u.policy)
    then some wrong_bundle_policy
    else if not (u.policy == blocklist) && truthy u.custom_msg
    then some custom_msg_policy
    else if overlaps (or_none u.serial_numbers) (or_none u.excluded_serial_numbers)
    then some serial_numbers_conflict
    else if overlaps (or_none u.primary_users) (or_none u.excluded_primary_users)
    then some primary_users_conflict
    else if overlaps (or_none u.tags) (or_none u.excluded_tags)
    then some tags_conflict
    else none

pub data RuleError : Type 0 where
  duplicated conflict bundle_not_uploaded : RuleError

-- Is the rule one of the rule set? A rule set that is not there yet has none.
abbrev pub has_rule_set : Option ℕ → Rule → Bool
has_rule_set none r = false
has_rule_set (some s) r = r.rule_set == some s

-- Is there a rule on the target, in one of the configurations, that is not of the rule set?
abbrev pub has_conflict : List ℕ → Option ℕ → Tables → Target → Bool
has_conflict configurations rule_set tables t =
    any
      (λ r.
        not (has_rule_set rule_set r)
        && (contains configurations r.configuration && is_target tables.targets t r.target))
      tables.rules

abbrev pub is_uploaded_bundle : Tables → Target → Bool
is_uploaded_bundle tables t =
    any (λ b. has_sha256 tables.targets (some t.sha256) b && not (b.uploaded_at == none))
      tables.bundles

-- The last error that is set for a rule is the one that stays.
abbrev pub rule_error : List ℕ → Option ℕ → Tables → List Target → RuleUpdate → Option RuleError
rule_error configurations rule_set tables keys u =
    if has_conflict configurations rule_set tables u.target
    then some conflict
    else if (u.target.type == bundle) && not (is_uploaded_bundle tables u.target)
    then some bundle_not_uploaded
    else if contains keys u.target
    then some duplicated
    else none

abbrev pub with_error : ℕ → Option RuleError → List (ℕ × RuleError) → List (ℕ × RuleError)
with_error rule_id none rest = rest
with_error rule_id (some e) rest = (rule_id, e) ∷ rest

-- `RuleSetUpdateSerializer.validate`: the errors by the number of the rule.
unfoldable pub validate_rules :
    List ℕ → Option ℕ → Tables → List Target → ℕ → List RuleUpdate → List (ℕ × RuleError)
validate_rules configurations rule_set tables keys rule_id [] = []
validate_rules configurations rule_set tables keys rule_id (u ∷ us) =
    with_error rule_id (rule_error configurations rule_set tables keys u)
      (validate_rules configurations rule_set tables (u.target ∷ keys) (suc rule_id) us)
