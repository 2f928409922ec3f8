-- ===== src/Santa/RuleExamples.antt =====
-- The forms, the updates of rules and the rule sets of zentral/contrib/santa at concrete inputs.
use zentral.Base.Tests.{string_eq}
use zentral.Santa.Forms.{
  validate_scope, Tables, ScopeData, RuleFormData, any_target, clean_rule_form, save_rule_form,
  is_valid_rule_form, has_rule_on, target_of,
}
use zentral.Santa.Forms.Sound.{is_sound, is_consistent}
use zentral.Santa.Targets.{is_target}
use zentral.Base.{List, Option, Yields, [], none, refl, some, true, ℕ, ◌∷◌, ◌≡◌}
use zentral.Santa.Policy.{allowlist, blocklist}
use zentral.Santa.Rules.{Rule, Target, TargetType, binary, bundle, target_type_eq}
use zentral.Santa.RuleUpdates.Laws.{same_set_refl}
use zentral.Santa.Forms.Checks.{raises, clean_rule_form-raises}
use zentral.Santa.Forms.Saved.{save_rule_form-is_consistent}
use zentral.Santa.RuleSets.{RuleUpdate, validate_rules}
use zentral.Santa.RuleSets.Updates.{apply_configuration}
use zentral.Santa.RuleSets.Outcome.{IsUpdated, apply_configuration-IsUpdated}

abbrev tool : Target
tool = record { type = bundle; sha256 = 90 }

abbrev part : Target
part = record { type = binary; sha256 = 91 }

abbrev some_rule : Option ℕ → ℕ → Rule
some_rule rule_set target = record {
  configuration = 7;
  rule_set = rule_set;
  target = target;
  policy = allowlist;
  custom_msg = "";
  version = 1;
  serial_numbers = "C01" ∷ [];
  excluded_serial_numbers = [];
  primary_users = [];
  excluded_primary_users = [];
  tags = 4 ∷ [];
  excluded_tags = [];
}

-- A rule on a binary, a rule of the rule set 3 on a bundle, and one of another rule set.
abbrev rule_tables : Tables
rule_tables = record {
  targets = record {
    rows =
        record { pk = 3; target = record { type = binary; sha256 = 93 } }
        ∷ record { pk = 2; target = tool }
        ∷ record { pk = 1; target = part }
        ∷ [];
    next_pk = 4;
  };
  bundles =
      record {
        target = 2;
        path = "/Applications/Tool.app";
        executable_rel_path = "Contents/MacOS/Tool";
        bundle_id = "com.example.tool";
        name = "Tool";
        version = "1";
        version_str = "1.0";
        binary_count = 1;
        binary_targets = 1 ∷ [];
        uploaded_at = some 100;
      }
      ∷ [];
  rules = some_rule (some 5) 3 ∷ some_rule (some 3) 2 ∷ [];
}

abbrev no_scope : ScopeData
no_scope = record {
  serial_numbers = some [];
  excluded_serial_numbers = some [];
  primary_users = some ("jane" ∷ []);
  excluded_primary_users = some [];
  tags = some [];
  excluded_tags = some [];
}

abbrev rule_form : RuleFormData
rule_form = record {
  target_type = some binary;
  target_sha256 = some 91;
  policy = some blocklist;
  custom_msg = "Ask the help desk";
  scope = no_scope;
}

-- No policy was chosen.
abbrev empty_form : RuleFormData
empty_form = record rule_form { policy = none }

clean_rule_form-raises_example : raises (clean_rule_form 7 rule_tables any_target empty_form) ≡ true
clean_rule_form-raises_example = clean_rule_form-raises 7 rule_tables any_target empty_form

save_rule_form-is_consistent_example :
    Yields
      (λ saved.
        (is_consistent saved ≡ true)
        × (has_rule_on 7 saved (target_of any_target rule_form) ≡ true))
      (save_rule_form 7 rule_tables any_target rule_form)
unfolding is_sound is_valid_rule_form clean_rule_form validate_scope is_target
save_rule_form-is_consistent_example =
    save_rule_form-is_consistent 7 rule_tables any_target rule_form refl refl

abbrev rule_update : ℕ → TargetType → ℕ → RuleUpdate
rule_update policy type sha256 = record {
  policy = policy;
  target = record { type = type; sha256 = sha256 };
  custom_msg = none;
  serial_numbers = none;
  excluded_serial_numbers = none;
  primary_users = some ("jane" ∷ []);
  excluded_primary_users = none;
  tags = none;
  excluded_tags = none;
}

-- A rule on a binary that is known and one on a binary that is not. The rule on the bundle goes.
abbrev request : List RuleUpdate
request = rule_update blocklist binary 91 ∷ rule_update allowlist binary 99 ∷ []

apply_configuration-IsUpdated_example :
    Yields
      (IsUpdated (λ l. l) same_set_refl (λ name. 4) 7 3 request rule_tables)
      (apply_configuration (λ l. l) (λ name. 4) 3 request rule_tables [] 7)
unfolding validate_rules is_target
apply_configuration-IsUpdated_example =
    apply_configuration-IsUpdated (λ l. l) same_set_refl (λ name. 4) 7 3 request rule_tables
      (7 ∷ []) [] (refl, refl) refl refl
