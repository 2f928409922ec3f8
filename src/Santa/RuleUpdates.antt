-- ===== src/Santa/RuleUpdates.antt =====
-- The update of a rule in zentral/contrib/santa: `UpdateRuleForm.save` of forms.py and the update in
-- `RuleSetUpdate.post` of api_views.py make the same changes and the same event. A set is a list.
pub mod Laws
use zentral.Base.{
  Bool, Equality, List, String, [], all, contains, if◌then◌else◌, is_empty, not, select, suc, ℕ,
  ◌&&◌, ◌==◌, ◌∷◌, nat_eq, string_eq, option_eq,
}
use zentral.Santa.Rules.{Rule}

module _ {ℓ} {A : Type ℓ} ⦃e : Equality A⦄ where
  -- `xs - ys`
  abbrev pub minus : List A → List A → List A
  minus xs ys = select (λ x. not (contains ys x)) xs

  -- `set(xs) == set(ys)`
  abbrev pub same_set : List A → List A → Bool
  same_set xs ys = all (contains ys) xs && all (contains xs) ys

-- The values that are asked for.
pub record RuleValues : Type 0 where
  pub policy : ℕ
  pub custom_msg : String
  pub serial_numbers : List String
  pub excluded_serial_numbers : List String
  pub primary_users : List String
  pub excluded_primary_users : List String
  pub tags : List ℕ
  pub excluded_tags : List ℕ

-- A set that has not changed stays as it is stored. `store` makes the list that is stored of a new
-- one: `sorted` for a rule set, nothing for the form.
abbrev pub stored : (List String → List String) → List String → List String → List String
stored store new old = if same_set new old then old else store new

abbrev pub stored_tags : List ℕ → List ℕ → List ℕ
stored_tags new old = if same_set new old then old else new

-- A new message bumps the version, "to trigger rule distribution".
unfoldable pub update_rule : (List String → List String) → RuleValues → Rule → Rule
update_rule store v r = record r {
  policy = v.policy;
  custom_msg = v.custom_msg;
  version = if r.custom_msg == v.custom_msg then r.version else suc r.version;
  serial_numbers = stored store v.serial_numbers r.serial_numbers;
  excluded_serial_numbers = stored store v.excluded_serial_numbers r.excluded_serial_numbers;
  primary_users = stored store v.primary_users r.primary_users;
  excluded_primary_users = stored store v.excluded_primary_users r.excluded_primary_users;
  tags = stored_tags v.tags r.tags;
  excluded_tags = stored_tags v.excluded_tags r.excluded_tags;
}

-- Is the rule as it is asked for? (not `rule_updated`)
unfoldable pub agrees : RuleValues → Rule → Bool
agrees v r =
    (r.policy == v.policy)
    && ((r.custom_msg == v.custom_msg)
        && (same_set v.serial_numbers r.serial_numbers
            && (same_set v.excluded_serial_numbers r.excluded_serial_numbers
                && (same_set v.primary_users r.primary_users
                    && (same_set v.excluded_primary_users r.excluded_primary_users
                        && (same_set v.tags r.tags && same_set v.excluded_tags r.excluded_tags))))))

-- What the event tells of one attribute. An empty list is a key that is not there.
pub record Change {ℓ} (A : Type ℓ) : Type ℓ where
  pub added : List A
  pub removed : List A

abbrev pub set_change {ℓ} : {A : Type ℓ} → ⦃e : Equality A⦄ → List A → List A → Change A
set_change new old = record { added = minus new old; removed = minus old new }

abbrev pub policy_change : ℕ → ℕ → Change ℕ
policy_change new old =
    if old == new
    then record { added = []; removed = [] }
    else record { added = new ∷ []; removed = old ∷ [] }

abbrev pub unless_empty : String → List String
unless_empty s = if s == "" then [] else s ∷ []

abbrev pub msg_change : String → String → Change String
msg_change new old =
    if old == new
    then record { added = []; removed = [] }
    else record { added = unless_empty new; removed = unless_empty old }

pub record RuleChanges : Type 0 where
  pub policy : Change ℕ
  pub custom_msg : Change String
  pub serial_numbers : Change String
  pub excluded_serial_numbers : Change String
  pub primary_users : Change String
  pub excluded_primary_users : Change String
  pub tags : Change ℕ
  pub excluded_tags : Change ℕ

unfoldable pub rule_changes : RuleValues → Rule → RuleChanges
rule_changes v r = record {
  policy = policy_change v.policy r.policy;
  custom_msg = msg_change v.custom_msg r.custom_msg;
  serial_numbers = set_change v.serial_numbers r.serial_numbers;
  excluded_serial_numbers = set_change v.excluded_serial_numbers r.excluded_serial_numbers;
  primary_users = set_change v.primary_users r.primary_users;
  excluded_primary_users = set_change v.excluded_primary_users r.excluded_primary_users;
  tags = set_change v.tags r.tags;
  excluded_tags = set_change v.excluded_tags r.excluded_tags;
}

abbrev pub is_no_change {ℓ} : {A : Type ℓ} → Change A → Bool
is_no_change c = is_empty c.added && is_empty c.removed

-- `if not updates`: no event is posted.
unfoldable pub has_no_changes : RuleChanges → Bool
has_no_changes c =
    is_no_change c.policy
    && (is_no_change c.custom_msg
        && (is_no_change c.serial_numbers
            && (is_no_change c.excluded_serial_numbers
                && (is_no_change c.primary_users
                    && (is_no_change c.excluded_primary_users
                        && (is_no_change c.tags && is_no_change c.excluded_tags))))))
