-- ===== src/Santa/Sync/Batches.antt =====
-- What a call of `get_next_rule_batch` (zentral/contrib/santa/models.py) returns, from its parts.
use zentral.Base.{
  Bool, List, Option, String, [], any, arith, false, if◌then◌else◌, is_empty, length, none, not,
  refl, some, suc, take, zero, ℕ, ◌∷◌, ◌≡◌,
}
use zentral.Santa.Policy.{is_known}
use zentral.Santa.Rules.{EnrolledMachine}
use zentral.Santa.Changes.{MachineRule, Tables, pending_rules, iter_new_rules}
use zentral.Santa.Changes.Fits.{HasRulePolicies, any-unknown-pending_rules}
use zentral.Santa.Sync.{
  acknowledge, cleanup, response_cursor, to_batch, RuleInfo, Batch, send_all, get_next_rule_batch,
}
use zentral.Santa.Sync.Settle.{settle}
use zentral.Santa.Sync.Send.{send_all-total, send_all-written, written}

pub any-take-false {ℓ} :
    {A : Type ℓ} (p : A → Bool) (n : ℕ) (xs : List A) → any p xs ≡ false → any p (take n xs) ≡ false
any-take-false p zero xs h = refl
any-take-false p (suc n) [] h = refl
any-take-false p (suc n) (x ∷ xs) h = ground (arith, any-take-false p n xs)

to_batch-some :
    (fresh : String) (o : Option (List MachineRule × List RuleInfo))
    (out : List MachineRule × List RuleInfo)
    → o ≡ some out
    → (b : Batch) × (to_batch fresh o ≡ some b)
unfolding to_batch
to_batch-some fresh o out h =
    (record { rows = out.0; rules = out.1; cursor = response_cursor fresh out.1 }, rw h)

-- If the stored rules have known policies, a batch is returned whatever the machine has: no
-- request ends in the `ValueError` of `translate_rule_policy`.
pub get_next_rule_batch-total :
    (db : Tables) (m : EnrolledMachine) (tags : List ℕ) (cursor : Option String) (fresh : String)
    (rows : List MachineRule)
    → HasRulePolicies db.rules
    → (b : Batch) × (get_next_rule_batch db m tags cursor fresh rows ≡ some b)
unfolding get_next_rule_batch iter_new_rules
get_next_rule_batch-total db m tags cursor fresh rows h =
    let acked = acknowledge m.pk cursor (cleanup m.pk cursor rows) in
    let pending = pending_rules db m tags acked in
    let known =
      any-take-false (λ n. not (is_known n.policy)) m.batch_size pending
        (any-unknown-pending_rules db m tags acked h) in
    let (out, e) = send_all-total m.pk fresh (take m.batch_size pending) acked known in
    to_batch-some fresh _ out e

to_batch_parts :
    (fresh : String) (o : Option (List MachineRule × List RuleInfo)) (b : Batch)
    → to_batch fresh o ≡ some b
    → (o ≡ some (b.rows, b.rules)) × (b.cursor ≡ (if is_empty b.rules then none else some fresh))
unfolding to_batch
to_batch_parts fresh none b h = cc
to_batch_parts fresh (some out) b h = ground arith

pub batch_parts :
    (db : Tables) (m : EnrolledMachine) (tags : List ℕ) (cursor : Option String) (fresh : String)
    (rows : List MachineRule) (b : Batch)
    → get_next_rule_batch db m tags cursor fresh rows ≡ some b
    → let sent = iter_new_rules db m tags (settle m.pk cursor rows) in
      (b.rows ≡ written m.pk fresh sent (settle m.pk cursor rows))
      × (length b.rules ≡ length sent)
      × (b.cursor ≡ (if is_empty b.rules then none else some fresh))
unfolding get_next_rule_batch settle
batch_parts db m tags cursor fresh rows b h =
    let acked = acknowledge m.pk cursor (cleanup m.pk cursor rows) in
    let sent = iter_new_rules db m tags acked in
    let parts = to_batch_parts fresh (send_all m.pk fresh sent acked) b h in
    let sends = send_all-written m.pk fresh sent acked (b.rows, b.rules) parts.0 in
    (sends.0, sends.1, parts.1)
