-- ===== src/Santa/Changes/Pending.antt =====
-- Which targets the query of zentral/contrib/santa/models.py returns, read off the configured rules
-- and the machine's row of each target.
use mathlib.Core.Path.{ap₂}
use mathlib.Core.List.{flat_map}
use zentral.Base.{
  Bool, List, Option, [], any, any-append, any-flat_map, ap, arith, is_empty, map, not, refl, ℕ,
  ◌&&◌, ◌++◌, ◌==◌, ◌||◌, ◌∙◌, ◌∷◌, ◌≡◌, nat_eq, string_eq, option_eq,
}
use zentral.Santa.Rules.{EnrolledMachine}
use zentral.Santa.Changes.{
  MachineRule, Tables, ExpandedRule, ProductRow, machine_only, updates_of, removals_of,
  changed_rules, rule_product, machine_rules, expanded_rules, pending_rules,
}
use zentral.Santa.Changes.Wanted.{wanted, stale_for, is_some, out_of_sync}
use zentral.Santa.Changes.Order.{
  at_target, changes, any-order_by_sha256, any-join_targets, any-distinct_changes,
}
use zentral.Santa.Changes.Joins.{
  updates, removals, rows_for, unmatched, joined, any-updates, any-removals, any-updates-unmatched,
  any-removals-unmatched, any-machine_rules, any-wanted,
}
use zentral.Santa.Machines.{row_of, HasUniqueKeys}

unfoldable pub is_pending : Tables → EnrolledMachine → List ℕ → List MachineRule → ℕ → Bool
is_pending db m tags rows t = any (λ n. n.target_id == t) (pending_rules db m tags rows)

out_of_sync_lem :
    (ws : List ExpandedRule) (row : Option MachineRule)
    → (any (stale_for row) ws || (is_some row && is_empty ws)) ≡ out_of_sync ws row
unfolding out_of_sync
out_of_sync_lem [] row = ground arith
out_of_sync_lem (w ∷ ws) row = ground arith

not-not : (b : Bool) → not (not b) ≡ b
not-not b = ground arith

product : ℕ → List ExpandedRule → List MachineRule → List ProductRow
product pk ers rows =
    flat_map (joined pk rows) ers ++ map machine_only (unmatched ers (machine_rules pk rows))

product_lem :
    (pk : ℕ) (ers : List ExpandedRule) (rows : List MachineRule)
    → rule_product ers (machine_rules pk rows) ≡ product pk ers rows
unfolding product rule_product joined rows_for unmatched
product_lem pk ers rows = refl

module _ (pk t : ℕ) (ers : List ExpandedRule) (rows : List MachineRule)
    (unique : HasUniqueKeys rows) where
  any-updates-product :
      any (updates t) (product pk ers rows) ≡ any (stale_for (row_of pk t rows)) (wanted t ers)
  unfolding product
  any-updates-product =
      any-append (updates t) (flat_map (joined pk rows) ers) _
      ∙ ap₂ (λ a b. a || b) (any-updates pk t ers rows unique) (any-updates-unmatched t _)
      ∙ ground arith

  any-removals-product :
      any (removals t) (product pk ers rows)
      ≡ (is_some (row_of pk t rows) && is_empty (wanted t ers))
  unfolding product
  any-removals-product =
      any-append (removals t) (flat_map (joined pk rows) ers) _
      ∙ ap₂ (λ a b. a || b) (any-removals pk t ers rows unique)
          (any-removals-unmatched t ers (machine_rules pk rows)
            ∙ ap₂ (λ a b. a && not b) (any-machine_rules pk t rows) (any-wanted t ers)
            ∙ ap (λ b. is_some (row_of pk t rows) && b) (not-not _))

  any-changed_rules :
      any (changes (at_target t)) (changed_rules (rule_product ers (machine_rules pk rows)))
      ≡ out_of_sync (wanted t ers) (row_of pk t rows)
  unfolding changed_rules
  any-changed_rules =
      ap (λ p. any (changes (at_target t)) (changed_rules p)) (product_lem pk ers rows)
      ∙ any-distinct_changes (at_target t) _
      ∙ any-append (changes (at_target t)) (flat_map updates_of (product pk ers rows)) _
      ∙ ap₂ (λ a b. a || b)
          (any-flat_map (changes (at_target t)) updates_of (product pk ers rows)
            ∙ any-updates-product)
          (any-flat_map (changes (at_target t)) removals_of (product pk ers rows)
            ∙ any-removals-product)
      ∙ out_of_sync_lem (wanted t ers) (row_of pk t rows)

-- Where the table has one row at most for a machine and a target, a target is among the rows to
-- send exactly if it is out of sync: one of its rules is missing on the machine or differs from
-- the machine's row, or the machine has a row that no rule asks for.
pub is_pending_lem :
    (db : Tables) (m : EnrolledMachine) (tags : List ℕ) (rows : List MachineRule) (t : ℕ)
    → HasUniqueKeys rows
    → is_pending db m tags rows t
      ≡ out_of_sync (wanted t (expanded_rules db m tags)) (row_of m.pk t rows)
unfolding is_pending pending_rules
is_pending_lem db m tags rows t unique =
    any-order_by_sha256 (at_target t) _
    ∙ any-join_targets (at_target t) db.get_target _
    ∙ any-changed_rules m.pk t (expanded_rules db m tags) rows unique
