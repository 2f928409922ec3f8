-- ===== src/Santa/RuleSets/Updates.antt =====
-- The update of a rule set: `RuleSetUpdate.post` of zentral/contrib/santa/api_views.py. The built-in
-- `sorted` is an argument, and so is the dictionary `all_tags`.
use zentral.Base.{
  Bool, List, Option, String, [], contains, find, if◌then◌else◌, length, map, none, not, select,
  some, suc, ℕ, ◌&&◌, ◌++◌, ◌==◌, ◌>>=◌, ◌∷◌, nat_eq, string_eq, option_eq,
}
use zentral.Santa.Rules.{Rule, target_type_eq}
use zentral.Santa.Targets.{TargetTable, get_or_create_target, target_eq}
use zentral.Santa.RuleUpdates.{RuleValues, RuleChanges, update_rule, agrees, rule_changes}
use zentral.Santa.Forms.{Tables, or_none, create_rule}
use zentral.Santa.RuleSets.{RuleUpdate, or_empty}

-- What a rule is to be, with the tags' keys.
unfoldable pub values_of : (String → ℕ) → RuleUpdate → RuleValues
values_of all_tags u = record {
  policy = u.policy;
  custom_msg = or_empty u.custom_msg;
  serial_numbers = or_none u.serial_numbers;
  excluded_serial_numbers = or_none u.excluded_serial_numbers;
  primary_users = or_none u.primary_users;
  excluded_primary_users = or_none u.excluded_primary_users;
  tags = map all_tags (or_none u.tags);
  excluded_tags = map all_tags (or_none u.excluded_tags);
}

-- `rule_update_events`
pub data RuleEvent : Type 0 where
  created : Rule → RuleEvent
  updated : Rule → RuleChanges → RuleEvent
  deleted : Rule → RuleEvent

-- The state of the loop on one configuration.
pub record Progress : Type 0 where
  pub tables : Tables
  pub found_target_pks : List ℕ
  pub rules_created : ℕ
  pub rules_updated : ℕ
  pub rules_present : ℕ
  pub rules_deleted : ℕ
  pub events : List RuleEvent

abbrev pub is_rule_of : ℕ → ℕ → Rule → Bool
is_rule_of configuration rule_set r =
    (r.configuration == configuration) && (r.rule_set == some rule_set)

abbrev pub is_rule_at : ℕ → ℕ → ℕ → Rule → Bool
is_rule_at configuration rule_set target r =
    is_rule_of configuration rule_set r && (r.target == target)

unfoldable pub new_owned_rule : ℕ → ℕ → ℕ → RuleValues → Rule
new_owned_rule configuration rule_set target v = record {
  configuration = configuration;
  rule_set = some rule_set;
  target = target;
  policy = v.policy;
  custom_msg = v.custom_msg;
  version = 1;
  serial_numbers = v.serial_numbers;
  excluded_serial_numbers = v.excluded_serial_numbers;
  primary_users = v.primary_users;
  excluded_primary_users = v.excluded_primary_users;
  tags = v.tags;
  excluded_tags = v.excluded_tags;
}

-- `rule.save()`
abbrev pub save_rule : (Rule → Bool) → Rule → List Rule → List Rule
save_rule is_row r rules = map (λ x. if is_row x then r else x) rules

-- One turn of the loop, with the result of the lookup: the rule is created, left as it is or updated.
unfoldable pub upsert :
    (List String → List String)
    → ℕ
    → ℕ
    → RuleValues
    → ℕ × TargetTable
    → Progress
    → Option Rule
    → Option Progress
upsert sorted configuration rule_set v found p none =
    let r = new_owned_rule configuration rule_set found.0 v in
    (create_rule r found.1 p.tables) >>= (λ tables. some (record p {
      tables = tables;
      found_target_pks = found.0 ∷ p.found_target_pks;
      rules_created = suc p.rules_created;
      events = p.events ++ created r ∷ [];
    }))
upsert sorted configuration rule_set v found p (some r) =
    let seen = found.0 ∷ p.found_target_pks in
    if agrees v r
    then some (record p {
      tables = record p.tables { targets = found.1 };
      found_target_pks = seen;
      rules_present = suc p.rules_present;
    })
    else some (record p {
      tables = record p.tables {
        targets = found.1;
        rules =
            save_rule (is_rule_at configuration rule_set found.0) (update_rule sorted v r)
              p.tables.rules;
      };
      found_target_pks = seen;
      rules_updated = suc p.rules_updated;
      events = p.events ++ updated (update_rule sorted v r) (rule_changes v r) ∷ [];
    })

-- `none` is the `IntegrityError` of a second rule on a target.
unfoldable pub apply_rule :
    (List String → List String) → (String → ℕ) → ℕ → ℕ → RuleUpdate → Progress → Option Progress
apply_rule sorted all_tags configuration rule_set u p =
    let found = get_or_create_target u.target p.tables.targets in
    upsert sorted configuration rule_set (values_of all_tags u) found p
      (find (is_rule_at configuration rule_set found.0) p.tables.rules)

unfoldable pub apply_rules :
    (List String → List String)
    → (String → ℕ)
    → ℕ
    → ℕ
    → List RuleUpdate
    → Progress
    → Option Progress
apply_rules sorted all_tags configuration rule_set [] p = some p
apply_rules sorted all_tags configuration rule_set (u ∷ us) p =
    (apply_rule sorted all_tags configuration rule_set u p)
    >>= (λ q. apply_rules sorted all_tags configuration rule_set us q)

-- The rules of the rule set whose targets were not found.
abbrev pub is_left_over : ℕ → ℕ → List ℕ → Rule → Bool
is_left_over configuration rule_set found r =
    is_rule_of configuration rule_set r && not (contains found r.target)

unfoldable pub delete_left_over : ℕ → ℕ → Progress → Progress
delete_left_over configuration rule_set p =
    let is_gone = is_left_over configuration rule_set p.found_target_pks in
    let gone = select is_gone p.tables.rules in
    record p {
      tables = record p.tables { rules = select (λ r. not (is_gone r)) p.tables.rules };
      rules_deleted = length gone;
      events = p.events ++ map deleted gone;
    }

abbrev pub start : Tables → List RuleEvent → Progress
start tables events = record {
  tables = tables;
  found_target_pks = [];
  rules_created = 0;
  rules_updated = 0;
  rules_present = 0;
  rules_deleted = 0;
  events = events;
}

unfoldable pub apply_configuration :
    (List String → List String)
    → (String → ℕ)
    → ℕ
    → List RuleUpdate
    → Tables
    → List RuleEvent
    → ℕ
    → Option Progress
apply_configuration sorted all_tags rule_set us tables events configuration =
    (apply_rules sorted all_tags configuration rule_set us (start tables events))
    >>= (λ p. some (delete_left_over configuration rule_set p))

-- The counts of one configuration in `ruleset_update_event`.
pub record RuleResults : Type 0 where
  pub configuration : ℕ
  pub created : ℕ
  pub deleted : ℕ
  pub present : ℕ
  pub updated : ℕ

pub record Updated : Type 0 where
  pub tables : Tables
  pub results : List RuleResults
  pub events : List RuleEvent

abbrev pub results_of : ℕ → Progress → RuleResults
results_of configuration p = record {
  configuration = configuration;
  created = p.rules_created;
  deleted = p.rules_deleted;
  present = p.rules_present;
  updated = p.rules_updated;
}

-- `RuleSetUpdate.post` after the validation.
unfoldable pub apply_configurations :
    (List String → List String)
    → (String → ℕ)
    → ℕ
    → List RuleUpdate
    → List ℕ
    → Updated
    → Option Updated
apply_configurations sorted all_tags rule_set us [] st = some st
apply_configurations sorted all_tags rule_set us (c ∷ cs) st =
    (apply_configuration sorted all_tags rule_set us st.tables st.events c) >>= (λ p.
      apply_configurations sorted all_tags rule_set us cs (record {
        tables = p.tables;
        results = st.results ++ results_of c p ∷ [];
        events = p.events;
      }))
