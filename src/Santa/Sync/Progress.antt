-- ===== src/Santa/Sync/Progress.antt =====
-- One round of the rule download of zentral/contrib/santa/models.py: a batch, and the request that
-- acknowledges it.
use zentral.Base.{
  Bool, Bool-cases, List, Option, String, [], any, any-select-false, ap, arith, false, inl, inr,
  length, none, not, some, sym, true, ℕ, ◌&&◌, ◌==◌, ◌∙◌, ◌∷◌, ◌≡◌, ◌≤◌, nat_eq, string_eq,
  option_eq,
}
use zentral.Santa.Policy.{is_rule_policy}
use zentral.Santa.Rules.{EnrolledMachine}
use zentral.Santa.Changes.{
  MachineRule, Tables, ExpandedRule, NewRule, expanded_rules, pending_rules, iter_new_rules,
}
use zentral.Santa.Changes.Wanted.{targets, wanted, out_of_sync}
use zentral.Santa.Changes.Order.{at_target, news}
use zentral.Santa.Changes.Pending.{is_pending, is_pending_lem}
use zentral.Santa.Changes.Fits.{
  fits, misfit, any-misfit-pending_rules, HasRulePolicies, expanded_rules-policies,
}
use zentral.Santa.Machines.{row_of, HasUniqueKeys}
use zentral.Santa.Sync.{Batch, get_next_rule_batch}
use zentral.Santa.Sync.Settle.{
  settle, settle-HasUniqueKeys, row_of-settle, settle_row, settle_row-acknowledged,
}
use zentral.Santa.Sync.Send.{
  written, written-HasUniqueKeys, row_of-written, row_of-written_other, IsSent,
}
use zentral.Santa.Sync.Batches.{any-take-false, batch_parts}
use zentral.Santa.Sync.Rows.{
  row_of-HasOtherCursor, settle_row-HasOtherCursor, settle_row-stays, row_of-settle-IsSettled,
}

-- The targets of a batch.
abbrev pub is_delivered :
    Tables → EnrolledMachine → List ℕ → Option String → List MachineRule → ℕ → Bool
is_delivered db m tags cursor rows t =
    any (news (at_target t)) (iter_new_rules db m tags (settle m.pk cursor rows))

-- No cursor of the table is this one.
abbrev pub IsFresh : String → List MachineRule → Type 0
IsFresh c rows = ((c == "") ≡ false) × (any (λ r. r.cursor == some c) rows ≡ false)

-- No target of a machine is asked for by two rules.
abbrev pub HasOneRuleEach : List ExpandedRule → Type 0
HasOneRuleEach ers = (t : ℕ) → length (wanted t ers) ≤ 1

-- After the acknowledgement, a target that was sent is in sync and any other is as it was.
settled_row_of_sent :
    (pk : ℕ) (fresh : String) (ws : List ExpandedRule) (row : Option MachineRule)
    → length ws ≤ 1
    → any (λ w. not (is_rule_policy w.policy)) ws ≡ false
    → (fresh == "") ≡ false
    → IsSent pk fresh (fits ws) row
    → out_of_sync ws (settle_row pk (some fresh) row) ≡ false
unfolding out_of_sync fits
settled_row_of_sent pk fresh ws none one ok f s = absurd s
settled_row_of_sent pk fresh [] (some r) one ok f s =
    rw (settle_row-acknowledged pk fresh r s.0 s.1 f) (ground arith)
settled_row_of_sent pk fresh (w ∷ []) (some r) one ok f s =
    rw (settle_row-acknowledged pk fresh r s.0 s.1 f) (ground arith)
settled_row_of_sent pk fresh (w ∷ w' ∷ ws) (some r) one ok f s = absurd (omega arith)

module _ (db : Tables) (m : EnrolledMachine) (tags : List ℕ) (cursor : Option String)
    (fresh : String) (rows : List MachineRule) (b : Batch)
    (returned : get_next_rule_batch db m tags cursor fresh rows ≡ some b)
    (unique : HasUniqueKeys rows) (new : IsFresh fresh rows) where
  unfoldable pub before : List MachineRule
  before = settle m.pk cursor rows

  unique_before : HasUniqueKeys before
  unfolding before
  unique_before = settle-HasUniqueKeys m.pk cursor rows unique

  unfoldable pub sent : List NewRule
  sent = iter_new_rules db m tags before

  pub rows_of_batch : b.rows ≡ written m.pk fresh sent before
  unfolding sent before
  rows_of_batch = (batch_parts db m tags cursor fresh rows b returned).0

  -- If the table has one row at most for a machine and a target, it still has after a batch with a
  -- new cursor.
  pub batch-HasUniqueKeys : HasUniqueKeys b.rows
  batch-HasUniqueKeys =
      rw rows_of_batch (written-HasUniqueKeys m.pk fresh sent before unique_before)

  row_after :
      (t : ℕ)
      → row_of m.pk t (settle m.pk (some fresh) b.rows)
        ≡ settle_row m.pk (some fresh) (row_of m.pk t (written m.pk fresh sent before))
  row_after t =
      row_of-settle m.pk m.pk t (some fresh) b.rows batch-HasUniqueKeys
      ∙ ap (λ l. settle_row m.pk (some fresh) (row_of m.pk t l)) rows_of_batch

  row_after_other :
      (t : ℕ)
      → any (news (at_target t)) sent ≡ false
      → row_of m.pk t (settle m.pk (some fresh) b.rows) ≡ row_of m.pk t before
  unfolding before
  row_after_other t h =
      row_after t
      ∙ ap (settle_row m.pk (some fresh))
          (row_of-written_other m.pk m.pk t fresh sent before (ground (arith, h)))
      ∙ settle_row-stays m.pk fresh (row_of m.pk t before)
          (row_of-settle-IsSettled m.pk t cursor rows unique)
          (rw (row_of-settle m.pk m.pk t cursor rows unique) (
            settle_row-HasOtherCursor m.pk fresh cursor (row_of m.pk t rows)
              (row_of-HasOtherCursor m.pk t fresh rows new.1)))

  after_sent :
      HasRulePolicies db.rules
      → HasOneRuleEach (expanded_rules db m tags)
      → (t : ℕ) → any (news (at_target t)) sent ≡ true
      → out_of_sync
          (wanted t (expanded_rules db m tags))
          (row_of m.pk t (settle m.pk (some fresh) b.rows))
        ≡ false
  unfolding sent iter_new_rules
  after_sent ok one t h =
      let ers = expanded_rules db m tags in
      let known =
        any-select-false (λ er. not (is_rule_policy er.policy)) (targets t) ers
          (expanded_rules-policies (λ p. not (is_rule_policy p)) db m tags ok) in
      let fit =
        any-take-false (news (misfit t ers)) m.batch_size (pending_rules db m tags before)
          (any-misfit-pending_rules db m tags before t) in
      rw (row_after t) (
        settled_row_of_sent m.pk fresh (wanted t ers) _ (one t) known new.0
          (row_of-written m.pk t fresh (fits (wanted t ers)) sent before fit (inl h)))

  -- With stored rules of known policies, no target that two expanded rules ask for, one row at
  -- most for a machine and a target, and a cursor that is new: once the next request has
  -- acknowledged a batch, a target is out of sync exactly if it was out of sync before and not in
  -- the batch.
  pub batch_progress :
      HasRulePolicies db.rules
      → HasOneRuleEach (expanded_rules db m tags)
      → (t : ℕ)
      → is_pending db m tags (settle m.pk (some fresh) b.rows) t ≡ (
          is_pending db m tags (settle m.pk cursor rows) t
          && not (is_delivered db m tags cursor rows t))
  unfolding before sent
  batch_progress ok one t =
      let ers = expanded_rules db m tags in
      let after =
        is_pending_lem db m tags (settle m.pk (some fresh) b.rows) t
          (settle-HasUniqueKeys m.pk (some fresh) b.rows batch-HasUniqueKeys) in
      elim (Bool-cases (is_delivered db m tags cursor rows t)) [
        | inl h ↦ rw h (after ∙ after_sent ok one t h ∙ ground arith)
        | inr h ↦ rw h (
            after
            ∙ ap (out_of_sync (wanted t ers)) (row_after_other t h)
            ∙ sym (is_pending_lem db m tags before t unique_before)
            ∙ ground arith)
      ]
