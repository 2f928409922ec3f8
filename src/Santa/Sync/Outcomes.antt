-- ===== src/Santa/Sync/Outcomes.antt =====
-- What a batch of `get_next_rule_batch` (zentral/contrib/santa/models.py) guarantees: its size, the
-- end of a download, and what happens to a batch that is never acknowledged.
use zentral.Base.{
  List, Option, String, [], any, any-select-false, ap, arith, false, if◌then◌else◌, inl, is_empty,
  length, length-take-le, none, not, refl, some, suc, sym, take, true, zero, ℕ, ◌&&◌, ◌<◌, ◌==◌,
  ◌∙◌, ◌∷◌, ◌≡◌, ◌≤◌, nat_eq, string_eq, option_eq,
}
use zentral.Santa.Policy.{remove, is_rule_policy}
use zentral.Santa.Rules.{EnrolledMachine}
use zentral.Santa.Changes.{
  MachineRule, Tables, ExpandedRule, expanded_rules, pending_rules, iter_new_rules,
}
use zentral.Santa.Changes.Wanted.{targets, wanted, out_of_sync, stale_for}
use zentral.Santa.Changes.Order.{at_target, news}
use zentral.Santa.Changes.Pending.{is_pending, is_pending_lem}
use zentral.Santa.Changes.Fits.{
  fits, misfit, any-misfit-pending_rules, HasRulePolicies, expanded_rules-policies,
}
use zentral.Santa.Machines.{row_of, HasUniqueKeys}
use zentral.Santa.Sync.{Batch, get_next_rule_batch}
use zentral.Santa.Sync.Settle.{
  settle, settle-HasUniqueKeys, row_of-settle, settle_row, IsSettled, settle_row-forgotten,
}
use zentral.Santa.Sync.Send.{
  written, written-HasUniqueKeys, row_of-written, row_of-written_other, IsSent,
}
use zentral.Santa.Sync.Batches.{any-take-false, batch_parts}
use zentral.Santa.Sync.Rows.{row_of-settle-IsSettled, row_of-settle_other}
use zentral.Santa.Sync.Progress.{is_delivered}

-- What the agent has for a target is acknowledged and is what every rule of the target asks for.
abbrev pub AsAsked : MachineRule → List ExpandedRule → Type 0
AsAsked r [] = Unit
AsAsked r (w ∷ ws) = (r.policy ≡ w.policy) × (r.version ≡ w.version) × AsAsked r ws

abbrev pub IsDone : List ExpandedRule → Option MachineRule → Type 0
IsDone [] none = Unit
IsDone [] (some r) = ⊥
IsDone (w ∷ ws) none = ⊥
IsDone (w ∷ ws) (some r) = (r.cursor ≡ none) × AsAsked r (w ∷ ws)

as_asked :
    (r : MachineRule) (ws : List ExpandedRule) → any (stale_for (some r)) ws ≡ false → AsAsked r ws
unfolding stale_for
as_asked r [] h = tt
as_asked r (w ∷ ws) h = (ground arith, ground arith, as_asked r ws (ground arith))

is_done :
    (ws : List ExpandedRule) (row : Option MachineRule)
    → any (λ w. not (is_rule_policy w.policy)) ws ≡ false
    → IsSettled row
    → out_of_sync ws row ≡ false
    → IsDone ws row
unfolding out_of_sync
is_done [] none ok s h = tt
is_done [] (some r) ok s h = cc
is_done (w ∷ ws) none ok s h = cc
is_done (w ∷ ws) (some r) ok s h = let asked = as_asked r (w ∷ ws) h in (ground arith, asked)

length-zero-take {ℓ} : {A : Type ℓ} (n : ℕ) (xs : List A) → 0 < n → length (take n xs) ≡ 0 → xs ≡ []
length-zero-take n [] h e = refl
length-zero-take zero (x ∷ xs) h e = absurd (omega arith)
length-zero-take (suc n) (x ∷ xs) h e = absurd (omega arith)

written-take-nil :
    (pk : ℕ) (c : String) (n : ℕ) (rows : List MachineRule) → written pk c (take n []) rows ≡ rows
written-take-nil pk c zero rows = refl
written-take-nil pk c (suc n) rows = refl

-- A rule never asks for a removal.
asked_policy :
    (p v : ℕ) (ws : List ExpandedRule)
    → any (λ w. not (is_rule_policy w.policy)) ws ≡ false
    → any (λ w. (w.policy == p) && (w.version == v)) ws ≡ true
    → (p == remove) ≡ false
asked_policy p v [] ok h = cc
asked_policy p v (w ∷ ws) ok h = ground (arith, asked_policy p v ws)

resent :
    (pk : ℕ) (fresh : String) (ws : List ExpandedRule) (row : Option MachineRule)
    → any (λ w. not (is_rule_policy w.policy)) ws ≡ false
    → IsSent pk fresh (fits ws) row
    → out_of_sync ws (settle_row pk none row) ≡ true
unfolding out_of_sync fits stale_for
resent pk fresh ws none ok s = absurd s
resent pk fresh [] (some r) ok s = rw (settle_row-forgotten pk fresh r s.0 s.1) (ground arith)
resent pk fresh (w ∷ ws) (some r) ok s =
    let e = asked_policy r.policy r.version (w ∷ ws) ok s.2 in
    let gone : settle_row pk none (some r) ≡ none =
      settle_row-forgotten pk fresh r s.0 s.1 ∙ ap (λ c. if c then some r else none) e in
    ap (out_of_sync (w ∷ ws)) gone

module _ (db : Tables) (m : EnrolledMachine) (tags : List ℕ) (cursor : Option String)
    (fresh : String) (rows : List MachineRule) (b : Batch)
    (returned : get_next_rule_batch db m tags cursor fresh rows ≡ some b) where
  -- A batch has at most `batch_size` rules, and the response has the new cursor exactly if there
  -- is a rule to acknowledge.
  pub batch_bounds :
      (length b.rules ≤ m.batch_size) × (b.cursor ≡ (if is_empty b.rules then none else some fresh))
  unfolding iter_new_rules
  batch_bounds =
      let parts = batch_parts db m tags cursor fresh rows b returned in
      (
        omega (
          arith,
          parts.1,
          length-take-le m.batch_size (pending_rules db m tags (settle m.pk cursor rows)),
        ),
        parts.2,
      )

  -- Where the table has one row at most for a machine and a target, a batch for a machine leaves
  -- the rows of the other machines as they are.
  pub other_machines_untouched :
      HasUniqueKeys rows → (k t : ℕ) → (m.pk == k) ≡ false → row_of k t b.rows ≡ row_of k t rows
  other_machines_untouched unique k t h =
      ap (row_of k t) (batch_parts db m tags cursor fresh rows b returned).0
      ∙ row_of-written_other m.pk k t fresh (iter_new_rules db m tags (settle m.pk cursor rows)) _
          (rw h refl)
      ∙ row_of-settle_other m.pk k t cursor rows unique h

  -- With stored rules of known policies, one row at most for a machine and a target, and a
  -- positive batch size, a batch without a rule means that the machine has acknowledged, for every
  -- target, the policy and the version of each rule in its scope, and has a row for no other
  -- target.
  pub empty_batch-IsDone :
      HasRulePolicies db.rules
      → HasUniqueKeys rows
      → 0 < m.batch_size
      → b.rules ≡ []
      → (t : ℕ) → IsDone (wanted t (expanded_rules db m tags)) (row_of m.pk t b.rows)
  unfolding iter_new_rules is_pending
  empty_batch-IsDone ok unique size e t =
      let ers = expanded_rules db m tags in
      let before = settle m.pk cursor rows in
      let pending = pending_rules db m tags before in
      let parts = batch_parts db m tags cursor fresh rows b returned in
      let none_left = length-zero-take m.batch_size pending size (sym parts.1 ∙ ap length e) in
      let same : b.rows ≡ before =
        parts.0
        ∙ ap (λ l. written m.pk fresh (take m.batch_size l) before) none_left
        ∙ written-take-nil m.pk fresh m.batch_size before in
      let known =
        any-select-false (λ er. not (is_rule_policy er.policy)) (targets t) ers
          (expanded_rules-policies (λ p. not (is_rule_policy p)) db m tags ok) in
      let in_sync =
        sym (is_pending_lem db m tags before t (settle-HasUniqueKeys m.pk cursor rows unique))
        ∙ ap (any (news (at_target t))) none_left in
      rw same (
        is_done (wanted t ers) (row_of m.pk t before) known
          (row_of-settle-IsSettled m.pk t cursor rows unique) in_sync)

  -- With stored rules of known policies and one row at most for a machine and a target: if the
  -- agent starts again without acknowledging a batch, all that was in it is to be sent again.
  pub unacknowledged_resent :
      HasRulePolicies db.rules
      → HasUniqueKeys rows
      → (t : ℕ) → is_delivered db m tags cursor rows t ≡ true
      → is_pending db m tags (settle m.pk none b.rows) t ≡ true
  unfolding iter_new_rules
  unacknowledged_resent ok unique t h =
      let ers = expanded_rules db m tags in
      let before = settle m.pk cursor rows in
      let parts = batch_parts db m tags cursor fresh rows b returned in
      let known =
        any-select-false (λ er. not (is_rule_policy er.policy)) (targets t) ers
          (expanded_rules-policies (λ p. not (is_rule_policy p)) db m tags ok) in
      let fit =
        any-take-false (news (misfit t ers)) m.batch_size (pending_rules db m tags before)
          (any-misfit-pending_rules db m tags before t) in
      let stored = row_of-written m.pk t fresh (fits (wanted t ers)) _ before fit (inl h) in
      let unique' : HasUniqueKeys b.rows = rw parts.0 (
        written-HasUniqueKeys m.pk fresh (iter_new_rules db m tags before) before
          (settle-HasUniqueKeys m.pk cursor rows unique)) in
      is_pending_lem db m tags (settle m.pk none b.rows) t
        (settle-HasUniqueKeys m.pk none b.rows unique')
      ∙ ap (out_of_sync (wanted t ers)) (
          row_of-settle m.pk m.pk t none b.rows unique'
          ∙ ap (λ l. settle_row m.pk none (row_of m.pk t l)) parts.0)
      ∙ resent m.pk fresh (wanted t ers) _ known stored
