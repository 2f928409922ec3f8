-- ===== src/Santa/Sync.antt =====
-- `MachineRuleManager.get_next_rule_batch` of zentral/contrib/santa/models.py. A request runs in one
-- transaction, so an exception leaves the table as it was. The random cursor is an argument.
pub mod Settle
pub mod Send
pub mod Batches
pub mod Rows
pub mod Progress
pub mod Outcomes
pub mod Rounds
pub mod Downloads
pub mod Conflicts
use zentral.Base.{
  Bool, List, Option, String, [], if◌then◌else◌, is_empty, map, none, not, select, some, truthy, ℕ,
  ◌&&◌, ◌==◌, ◌||◌, ◌∷◌, nat_eq, string_eq, option_eq,
}
use zentral.Santa.Policy.{word, value_error, translate_rule_policy, remove}
use zentral.Santa.Rules.{TargetType, EnrolledMachine}
use zentral.Santa.Changes.{MachineRule, Tables, NewRule, iter_new_rules}
use zentral.Santa.Machines.{update_or_create}

-- The rows that a fresh start drops: not acknowledged, not a removal, and not of the batch that
-- this request acknowledges.
pub is_dropped : ℕ → Option String → MachineRule → Bool
is_dropped pk cursor r =
    (r.enrolled_machine == pk)
    && (not (r.policy == remove)
        && (not (r.cursor == none) && not (truthy cursor && (r.cursor == cursor))))

unfoldable pub cleanup : ℕ → Option String → List MachineRule → List MachineRule
unfolding is_dropped
cleanup pk cursor rows = select (λ r. not (is_dropped pk cursor r)) rows

pub has_cursor : ℕ → Option String → MachineRule → Bool
has_cursor pk cursor r = (r.enrolled_machine == pk) && (r.cursor == cursor)

-- Removals of the acknowledged batch are deleted, and its other rows lose their cursor.
pub clear_cursor : ℕ → Option String → MachineRule → MachineRule
unfolding has_cursor
clear_cursor pk cursor r = if has_cursor pk cursor r then record r { cursor = none } else r

unfoldable pub acknowledge : ℕ → Option String → List MachineRule → List MachineRule
unfolding has_cursor clear_cursor
acknowledge pk cursor rows =
    if truthy cursor
    then map (clear_cursor pk cursor)
        (select (λ r. not (has_cursor pk cursor r && (r.policy == remove))) rows)
    else rows

-- A rule of the response.
pub record RuleInfo : Type 0 where
  pub rule_type : TargetType
  pub sha256 : ℕ
  pub policy : String
  pub custom_msg : Option String
  pub file_bundle_binary_count : Option ℕ
  pub file_bundle_hash : Option ℕ

-- An empty custom message is not sent, nor is one with a removal.
pub response_msg : NewRule → Option String
response_msg r = if r.policy == remove || not (truthy r.custom_msg) then none else r.custom_msg

pub rule_info : NewRule → String → RuleInfo
unfolding response_msg
rule_info r policy = record {
  rule_type = r.rule_type;
  sha256 = r.sha256;
  policy = policy;
  custom_msg = response_msg r;
  file_bundle_binary_count = r.bundle_count;
  file_bundle_hash = r.bundle_hash;
}

pub sent_row : ℕ → String → NewRule → MachineRule
sent_row pk cursor r = record {
  enrolled_machine = pk;
  target = r.target_id;
  policy = r.policy;
  version = r.version;
  cursor = some cursor;
}

-- The loop over the new rules. `none` stands for the `ValueError` of an unknown policy.
unfoldable pub send_all :
    ℕ → String → List NewRule → List MachineRule → Option (List MachineRule × List RuleInfo)
unfolding sent_row rule_info
send_all pk cursor [] rows = some (rows, [])
send_all pk cursor (r ∷ rs) rows =
    let rest = send_all pk cursor rs (update_or_create (sent_row pk cursor r) rows) in
    elim (translate_rule_policy r.policy) [
      | word w ↦ elim rest [
        | none ↦ none
        | some (rows', infos) ↦ some (rows', rule_info r w ∷ infos)
      ]
      | value_error p ↦ none
    ]

pub record Batch : Type 0 where
  pub rows : List MachineRule
  pub rules : List RuleInfo
  pub cursor : Option String

pub response_cursor : String → List RuleInfo → Option String
response_cursor fresh rules = if is_empty rules then none else some fresh

pub to_batch : String → Option (List MachineRule × List RuleInfo) → Option Batch
unfolding response_cursor
to_batch fresh none = none
to_batch fresh (some (rows, rules)) =
    some (record { rows = rows; rules = rules; cursor = response_cursor fresh rules })

unfoldable pub get_next_rule_batch :
    Tables → EnrolledMachine → List ℕ → Option String → String → List MachineRule → Option Batch
unfolding to_batch
get_next_rule_batch db m tags cursor fresh rows =
    let acked = acknowledge m.pk cursor (cleanup m.pk cursor rows) in
    to_batch fresh (send_all m.pk fresh (iter_new_rules db m tags acked) acked)
