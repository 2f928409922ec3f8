-- ===== src/Santa/Changes/Joins.antt =====
-- The full outer join and the two branches of the UNION, target by target
-- (zentral/contrib/santa/models.py).
use mathlib.Core.List.{flat_map}
use zentral.Base.{
  Bool, Bool-cases, List, Option, [], any, any-cong, any-flat_map, any-never, any-select, ap, arith,
  beq-eq_of, false, inl, inr, is_empty, map, none, not, refl, select, some, true, ℕ, ◌&&◌, ◌==◌,
  ◌||◌, ◌∙◌, ◌∷◌, ◌≡◌, nat_eq, string_eq, option_eq,
}
use zentral.Santa.Changes.{
  MachineRule, ExpandedRule, ProductRow, machine_only, join_rule, updates_of, removals_of,
  changed_row, removed_row, machine_rules,
}
use zentral.Santa.Changes.Wanted.{targets, wanted, stale_for, is_some}
use zentral.Santa.Changes.Order.{at_target, changes}
use zentral.Santa.Machines.Laws.{has_key_of}
use zentral.Santa.Machines.{has_key, row_of, HasUniqueKeys}

-- The machine's rows of one target: none, or the one that the key allows.
unfoldable pub rows_for : ℕ → ℕ → List MachineRule → List MachineRule
rows_for pk t rows = select (λ mr. mr.target == t) (machine_rules pk rows)

as_list : Option MachineRule → List MachineRule
as_list none = []
as_list (some r) = r ∷ []

rows_for-none :
    (pk t : ℕ) (rows : List MachineRule) → any (has_key pk t) rows ≡ false → rows_for pk t rows ≡ []
unfolding rows_for machine_rules
rows_for-none pk t [] h = refl
rows_for-none pk t (r ∷ rows) h = ground (arith, rows_for-none pk t rows)

rows_for_lem :
    (pk t : ℕ) (rows : List MachineRule)
    → HasUniqueKeys rows
    → rows_for pk t rows ≡ as_list (row_of pk t rows)
unfolding rows_for machine_rules row_of as_list
rows_for_lem pk t [] h = refl
rows_for_lem pk t (r ∷ rows) h =
    ground (arith, rows_for_lem pk t rows, rows_for-none pk t rows, has_key_of pk t r rows)

abbrev pub updates : ℕ → ProductRow → Bool
updates t p = any (changes (at_target t)) (updates_of p)

abbrev pub removals : ℕ → ProductRow → Bool
removals t p = any (changes (at_target t)) (removals_of p)

or-false : (b : Bool) → (b || false) ≡ b
or-false b = ground arith

-- The updates of one rule: one if the machine's row is missing or stale.
updates_of_rule :
    (t : ℕ) (er : ExpandedRule) (o : Option MachineRule)
    → any (updates t) (join_rule er (as_list o)) ≡ (targets t er && stale_for o er)
unfolding join_rule as_list updates_of stale_for changed_row
updates_of_rule t er none = ground arith
updates_of_rule t er (some mr) = ground arith

removals_of_rule :
    (t : ℕ) (er : ExpandedRule) (o : Option MachineRule)
    → any (removals t) (join_rule er (as_list o)) ≡ false
unfolding join_rule as_list removals_of
removals_of_rule t er none = refl
removals_of_rule t er (some mr) = refl

same_row :
    (pk t : ℕ) (rows : List MachineRule) (er : ExpandedRule)
    → (targets t er && stale_for (row_of pk er.target_id rows) er)
      ≡ (targets t er && stale_for (row_of pk t rows) er)
same_row pk t rows er = elim (Bool-cases (targets t er)) [
  | inl e ↦ ap (λ a. targets t er && stale_for (row_of pk a rows) er) (beq-eq_of er.target_id t e)
  | inr e ↦ rw e refl
]

unfoldable pub joined : ℕ → List MachineRule → ExpandedRule → List ProductRow
joined pk rows er = join_rule er (rows_for pk er.target_id rows)

module _ (pk t : ℕ) (ers : List ExpandedRule) (rows : List MachineRule)
    (unique : HasUniqueKeys rows) where
  joined_lem :
      (er : ExpandedRule) → joined pk rows er ≡ join_rule er (as_list (row_of pk er.target_id rows))
  unfolding joined
  joined_lem er = ap (join_rule er) (rows_for_lem pk er.target_id rows unique)

  pub any-updates :
      any (updates t) (flat_map (joined pk rows) ers)
      ≡ any (stale_for (row_of pk t rows)) (wanted t ers)
  any-updates =
      any-flat_map (updates t) (joined pk rows) ers
      ∙ any-cong (λ er. any (updates t) (joined pk rows er))
          (λ er. targets t er && stale_for (row_of pk t rows) er)
          (λ er.
            ap (any (updates t)) (joined_lem er)
            ∙ updates_of_rule t er (row_of pk er.target_id rows)
            ∙ same_row pk t rows er)
          ers
      ∙ any-select (targets t) (stale_for (row_of pk t rows)) ers

  pub any-removals : any (removals t) (flat_map (joined pk rows) ers) ≡ false
  any-removals =
      any-flat_map (removals t) (joined pk rows) ers
      ∙ any-never (λ er. any (removals t) (joined pk rows er))
          (λ er.
            ap (any (removals t)) (joined_lem er)
            ∙ removals_of_rule t er (row_of pk er.target_id rows))
          ers

unfoldable pub unmatched : List ExpandedRule → List MachineRule → List MachineRule
unmatched ers mrs = select (λ mr. not (any (λ er. mr.target == er.target_id) ers)) mrs

pub any-updates-unmatched :
    (t : ℕ) (mrs : List MachineRule) → any (updates t) (map machine_only mrs) ≡ false
unfolding updates_of
any-updates-unmatched t [] = refl
any-updates-unmatched t (mr ∷ mrs) = any-updates-unmatched t mrs

pub any-targets_sym :
    (t : ℕ) (mr : MachineRule) (ers : List ExpandedRule)
    → (mr.target == t) ≡ true
    → any (λ er. mr.target == er.target_id) ers ≡ any (targets t) ers
any-targets_sym t mr [] h = refl
any-targets_sym t mr (er ∷ ers) h = ground (arith, any-targets_sym t mr ers h)

pub any-removals-unmatched :
    (t : ℕ) (ers : List ExpandedRule) (mrs : List MachineRule)
    → any (removals t) (map machine_only (unmatched ers mrs))
      ≡ (any (λ mr. mr.target == t) mrs && not (any (targets t) ers))
unfolding removals_of unmatched removed_row
any-removals-unmatched t ers [] = refl
any-removals-unmatched t ers (mr ∷ mrs) =
    ground (arith, any-removals-unmatched t ers mrs, any-targets_sym t mr ers)

pub any-machine_rules :
    (pk t : ℕ) (rows : List MachineRule)
    → any (λ mr. mr.target == t) (machine_rules pk rows) ≡ is_some (row_of pk t rows)
unfolding machine_rules row_of is_some
any-machine_rules pk t [] = refl
any-machine_rules pk t (r ∷ rows) = ground (arith, any-machine_rules pk t rows)

pub any-wanted :
    (t : ℕ) (ers : List ExpandedRule) → any (targets t) ers ≡ not (is_empty (wanted t ers))
any-wanted t [] = refl
any-wanted t (er ∷ ers) = ground (arith, any-wanted t ers)
