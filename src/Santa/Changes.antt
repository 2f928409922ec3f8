-- ===== src/Santa/Changes.antt =====
-- The query of `MachineRuleManager._iter_new_rules` in zentral/contrib/santa/models.py, one
-- function for each of its common table expressions.
pub mod Wanted
pub mod Order
pub mod Joins
pub mod Pending
pub mod Fits
use mathlib.Core.Option
use mathlib.Core.List.{flat_map}
use zentral.Base.{
  Bool, List, Option, String, [], any, if◌then◌else◌, is_empty, leb, map, none, not, select, some,
  take, ℕ, ◌&&◌, ◌++◌, ◌==◌, ◌||◌, ◌∷◌, nat_eq, string_eq, option_eq,
}
use zentral.Santa.Policy.{remove}
use zentral.Santa.Rules.{Target, TargetType, Rule, Bundle, EnrolledMachine, in_scope}

-- A row of santa_machinerule: what the server has told the agent. A `cursor` marks a row that the
-- agent has not acknowledged.
pub record MachineRule : Type 0 where
  pub enrolled_machine : ℕ
  pub target : ℕ
  pub policy : ℕ
  pub version : ℕ
  pub cursor : Option String

-- The other tables that the query reads. Foreign keys hold, so a target can be looked up.
-- A configuration has one rule for a target at most (`unique_together`), so the grouping of
-- `prepared_rules` gives each rule back with its tags.
pub record Tables : Type 0 where
  pub rules : List Rule
  pub bundles : List Bundle
  pub get_target : ℕ → Target

pub record ExpandedRule : Type 0 where
  pub target_id : ℕ
  pub policy : ℕ
  pub custom_msg : String
  pub version : ℕ
  pub bundle_count : Option ℕ
  pub bundle_target : Option ℕ

bundle_row : Rule → Bundle → ℕ → ExpandedRule
bundle_row r b t = record {
  target_id = t;
  policy = r.policy;
  custom_msg = r.custom_msg;
  version = r.version;
  bundle_count = some b.binary_count;
  bundle_target = some b.target;
}

-- One row for each binary of the rule's bundle; a rule on anything else, and one on a bundle with
-- no known binary, stands for itself (the two left joins of `expanded_rules`).
expand_bundle : Rule → Bundle → List ExpandedRule
unfolding bundle_row
expand_bundle r b =
    if is_empty b.binary_targets
    then bundle_row r b r.target ∷ []
    else map (bundle_row r b) b.binary_targets

expand_rule : Rule → List Bundle → List ExpandedRule
unfolding expand_bundle
expand_rule r [] =
    record {
      target_id = r.target;
      policy = r.policy;
      custom_msg = r.custom_msg;
      version = r.version;
      bundle_count = none;
      bundle_target = none;
    }
    ∷ []
expand_rule r (b ∷ bs) = flat_map (expand_bundle r) (b ∷ bs)

-- `filtered_rules` and `expanded_rules`
unfoldable pub expanded_rules : Tables → EnrolledMachine → List ℕ → List ExpandedRule
unfolding expand_rule
expanded_rules db m tags =
    flat_map (λ r. expand_rule r (select (λ b. b.target == r.target) db.bundles))
      (select (in_scope m tags) db.rules)

-- `machine_rules`
unfoldable pub machine_rules : ℕ → List MachineRule → List MachineRule
machine_rules pk rows = select (λ r. r.enrolled_machine == pk) rows

-- A row of `rule_product`, the full outer join: one side or the other may be null.
pub data ProductRow : Type 0 where
  rule_only : ExpandedRule → ProductRow
  both : ExpandedRule → MachineRule → ProductRow
  machine_only : MachineRule → ProductRow

pub join_rule : ExpandedRule → List MachineRule → List ProductRow
join_rule er [] = rule_only er ∷ []
join_rule er (mr ∷ mrs) = map (both er) (mr ∷ mrs)

unfoldable pub rule_product : List ExpandedRule → List MachineRule → List ProductRow
unfolding join_rule
rule_product ers mrs =
    flat_map (λ er. join_rule er (select (λ mr. mr.target == er.target_id) mrs)) ers
    ++ map machine_only (select (λ mr. not (any (λ er. mr.target == er.target_id) ers)) mrs)

pub record ChangedRule : Type 0 where
  pub target_id : ℕ
  pub policy : ℕ
  pub custom_msg : Option String
  pub version : ℕ
  pub bundle_count : Option ℕ
  pub bundle_target : Option ℕ

changed_row : ExpandedRule → ChangedRule
changed_row er = record {
  target_id = er.target_id;
  policy = er.policy;
  custom_msg = some er.custom_msg;
  version = er.version;
  bundle_count = er.bundle_count;
  bundle_target = er.bundle_target;
}

removed_row : MachineRule → ChangedRule
removed_row mr = record {
  target_id = mr.target;
  policy = remove;
  custom_msg = none;
  version = 1;
  bundle_count = none;
  bundle_target = none;
}

unfoldable pub is_stale : ExpandedRule → MachineRule → Bool
is_stale er mr = not (er.policy == mr.policy) || not (er.version == mr.version)

-- The first branch of the UNION: new rules and rules that differ from what the agent has.
pub updates_of : ProductRow → List ChangedRule
unfolding changed_row is_stale
updates_of (rule_only er) = changed_row er ∷ []
updates_of (both er mr) = if is_stale er mr then changed_row er ∷ [] else []
updates_of (machine_only mr) = []

-- The second: what the agent has and no rule asks for.
pub removals_of : ProductRow → List ChangedRule
unfolding removed_row
removals_of (machine_only mr) = removed_row mr ∷ []
removals_of (rule_only er) = []
removals_of (both er mr) = []

changed_rule_beq : ChangedRule → ChangedRule → Bool
changed_rule_beq a b =
    (a.target_id == b.target_id)
    && ((a.policy == b.policy)
        && ((a.custom_msg == b.custom_msg)
            && ((a.version == b.version)
                && ((a.bundle_count == b.bundle_count) && (a.bundle_target == b.bundle_target)))))

-- UNION drops duplicate rows.
pub distinct_changes : List ChangedRule → List ChangedRule
unfolding changed_rule_beq
distinct_changes [] = []
distinct_changes (x ∷ xs) =
    let rest = distinct_changes xs in x ∷ select (λ y. not (changed_rule_beq x y)) rest

unfoldable pub changed_rules : List ProductRow → List ChangedRule
unfolding updates_of removals_of distinct_changes
changed_rules rows = distinct_changes (flat_map updates_of rows ++ flat_map removals_of rows)

-- A row of the result: the changed rule joined with its target and with the bundle's.
pub record NewRule : Type 0 where
  pub target_id : ℕ
  pub rule_type : TargetType
  pub sha256 : ℕ
  pub policy : ℕ
  pub custom_msg : Option String
  pub version : ℕ
  pub bundle_count : Option ℕ
  pub bundle_hash : Option ℕ

unfoldable pub join_targets : (ℕ → Target) → ChangedRule → NewRule
join_targets get_target c = record {
  target_id = c.target_id;
  rule_type = (get_target c.target_id).type;
  sha256 = (get_target c.target_id).sha256;
  policy = c.policy;
  custom_msg = c.custom_msg;
  version = c.version;
  bundle_count = c.bundle_count;
  bundle_hash = Option.map (λ t. (get_target t).sha256) c.bundle_target;
}

-- `order by t.sha256`. The source leaves the order of equal digests open.
insert_by_sha256 : NewRule → List NewRule → List NewRule
insert_by_sha256 x [] = x ∷ []
insert_by_sha256 x (y ∷ ys) =
    if leb x.sha256 y.sha256 then x ∷ y ∷ ys else y ∷ insert_by_sha256 x ys

unfoldable pub order_by_sha256 : List NewRule → List NewRule
unfolding insert_by_sha256
order_by_sha256 [] = []
order_by_sha256 (x ∷ xs) = insert_by_sha256 x (order_by_sha256 xs)

-- All the rows, before `limit`.
unfoldable pub pending_rules : Tables → EnrolledMachine → List ℕ → List MachineRule → List NewRule
pending_rules db m tags rows = order_by_sha256 (
    map (join_targets db.get_target)
      (changed_rules (rule_product (expanded_rules db m tags) (machine_rules m.pk rows))))

unfoldable pub iter_new_rules : Tables → EnrolledMachine → List ℕ → List MachineRule → List NewRule
unfolding pending_rules
iter_new_rules db m tags rows = take m.batch_size (pending_rules db m tags rows)
