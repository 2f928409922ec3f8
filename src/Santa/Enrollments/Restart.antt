-- ===== src/Santa/Enrollments/Restart.antt =====
-- What the rule download sends after a clean sync (zentral/contrib/santa/views.py and models.py).
use zentral.Base.{
  Bool, List, [], any, ap, arith, false, is_empty, none, not, refl, sym, true, ℕ, ◌∙◌, ◌∷◌, ◌≡◌,
}
use zentral.Santa.Rules.{EnrolledMachine}
use zentral.Santa.Changes.{Tables, MachineRule, ExpandedRule, expanded_rules}
use zentral.Santa.Changes.Wanted.{wanted, out_of_sync, stale_for, is_some}
use zentral.Santa.Changes.Pending.{is_pending, is_pending_lem}
use zentral.Santa.Machines.{row_of, HasUniqueKeys}
use zentral.Santa.Machines.Laws.{select-HasUniqueKeys}
use zentral.Santa.Enrollments.{PreflightData, SyncTables, Machine}
use zentral.Santa.Enrollments.Preflight.{respond, respond_if, is_rule_of_machine}
use zentral.Santa.Enrollments.CleanSync.{respond-Answers}

row_of-absent :
    (pk t : ℕ) (rows : List MachineRule)
    → any (is_rule_of_machine pk) rows ≡ false
    → row_of pk t rows ≡ none
unfolding row_of
row_of-absent pk t [] h = refl
row_of-absent pk t (r ∷ rows) h = ground (arith, row_of-absent pk t rows)

out_of_sync-none : (ers : List ExpandedRule) → out_of_sync ers none ≡ not (is_empty ers)
unfolding out_of_sync stale_for is_some
out_of_sync-none [] = refl
out_of_sync-none (er ∷ ers) = refl

not-eq_of_true : (a b : Bool) → a ≡ not b → a ≡ true → b ≡ false
not-eq_of_true a b h k = ground arith

respond-machine :
    (d : PreflightData) (row : Machine) (sync : SyncTables) → (respond d row sync).machine ≡ row
unfolding respond
respond-machine d row sync = go d.request_clean_sync
  where
    go : (b : Bool) → (respond_if b row sync).machine ≡ row
    go true = refl
    go false = refl

respond-HasUniqueKeys :
    (d : PreflightData) (row : Machine) (sync : SyncTables)
    → HasUniqueKeys sync.machine_rules
    → HasUniqueKeys (respond d row sync).tables.machine_rules
unfolding respond
respond-HasUniqueKeys d row sync unique = go d.request_clean_sync
  where
    go : (b : Bool) → HasUniqueKeys (respond_if b row sync).tables.machine_rules
    go true =
        select-HasUniqueKeys (λ r. not (is_rule_of_machine row.pk r)) sync.machine_rules unique
    go false = unique

-- After a preflight that announces a clean sync, and where the table has one row at most for a machine
-- and a target, the rows to send are those of the targets that a rule in the machine's scope is on.
pub clean_sync-is_pending :
    (d : PreflightData) (row : Machine) (sync : SyncTables) (db : Tables) (m : EnrolledMachine)
    (tags : List ℕ) (t : ℕ)
    → (respond d row sync).clean_sync ≡ true
    → m.pk ≡ row.pk
    → HasUniqueKeys sync.machine_rules
    → is_pending db m tags (respond d row sync).tables.machine_rules t
      ≡ not (is_empty (wanted t (expanded_rules db m tags)))
clean_sync-is_pending d row sync db m tags t clean same unique =
    let rows = (respond d row sync).tables.machine_rules in
    let absent : any (is_rule_of_machine m.pk) rows ≡ false =
      ap (λ k. any (is_rule_of_machine k) rows)
        (same ∙ ap (λ x. x.pk) (sym (respond-machine d row sync)))
      ∙ not-eq_of_true _ _ (respond-Answers d row sync).0 clean in
    is_pending_lem db m tags rows t (respond-HasUniqueKeys d row sync unique)
    ∙ ap (out_of_sync (wanted t (expanded_rules db m tags))) (row_of-absent m.pk t rows absent)
    ∙ out_of_sync-none (wanted t (expanded_rules db m tags))
