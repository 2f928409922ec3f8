-- ===== src/Santa/Sync/Settle.antt =====
-- What the two first steps of `get_next_rule_batch` (zentral/contrib/santa/models.py) do to the
-- row of each target: forget what was not acknowledged, then acknowledge.
use mathlib.Core.Option
use zentral.Base.{
  Bool, Bool-cases, List, Option, String, ap, arith, beq_refl, false, if◌then◌else◌, inl, inr, none,
  not, select, some, truthy, ℕ, ◌&&◌, ◌==◌, ◌∙◌, ◌≡◌, ◌⊎◌, nat_eq, string_eq, option_eq,
}
use zentral.Santa.Policy.{remove}
use zentral.Santa.Changes.{MachineRule}
use zentral.Santa.Machines.{row_of, HasUniqueKeys}
use zentral.Santa.Machines.Laws.{
  keep_if, row_of-select, row_of-map, select-HasUniqueKeys, map-HasUniqueKeys,
}
use zentral.Santa.Sync.{is_dropped, cleanup, has_cursor, clear_cursor, acknowledge}

unfoldable pub settle : ℕ → Option String → List MachineRule → List MachineRule
settle pk cursor rows = acknowledge pk cursor (cleanup pk cursor rows)

abbrev removed : ℕ → Option String → MachineRule → Bool
removed pk cursor r = has_cursor pk cursor r && (r.policy == remove)

same_machine :
    (pk : ℕ) (cursor : Option String) (r : MachineRule)
    → (clear_cursor pk cursor r).enrolled_machine ≡ r.enrolled_machine
unfolding clear_cursor
same_machine pk cursor r = ground arith

same_target :
    (pk : ℕ) (cursor : Option String) (r : MachineRule)
    → (clear_cursor pk cursor r).target ≡ r.target
unfolding clear_cursor
same_target pk cursor r = ground arith

acknowledge-HasUniqueKeys :
    (pk : ℕ) (cursor : Option String) (rows : List MachineRule)
    → HasUniqueKeys rows
    → HasUniqueKeys (acknowledge pk cursor rows)
unfolding acknowledge
acknowledge-HasUniqueKeys pk cursor rows h = elim (Bool-cases (truthy cursor)) [
  | inl e ↦ rw e (
      map-HasUniqueKeys (clear_cursor pk cursor) (same_machine pk cursor) (same_target pk cursor) _
        (select-HasUniqueKeys (λ r. not (removed pk cursor r)) rows h))
  | inr e ↦ rw e h
]

pub settle-HasUniqueKeys :
    (pk : ℕ) (cursor : Option String) (rows : List MachineRule)
    → HasUniqueKeys rows
    → HasUniqueKeys (settle pk cursor rows)
unfolding settle cleanup
settle-HasUniqueKeys pk cursor rows h =
    acknowledge-HasUniqueKeys pk cursor (cleanup pk cursor rows)
      (select-HasUniqueKeys (λ r. not (is_dropped pk cursor r)) rows h)

-- What happens to one row.
cleanup_row : ℕ → Option String → Option MachineRule → Option MachineRule
cleanup_row pk cursor row = keep_if (λ r. not (is_dropped pk cursor r)) row

acknowledge_row : ℕ → Option String → Option MachineRule → Option MachineRule
acknowledge_row pk cursor row =
    if truthy cursor
    then Option.map (clear_cursor pk cursor) (keep_if (λ r. not (removed pk cursor r)) row)
    else row

unfoldable pub settle_row : ℕ → Option String → Option MachineRule → Option MachineRule
unfolding cleanup_row acknowledge_row is_dropped has_cursor clear_cursor
settle_row pk cursor row = acknowledge_row pk cursor (cleanup_row pk cursor row)

row_of-acknowledge :
    (pk k t : ℕ) (cursor : Option String) (rows : List MachineRule)
    → HasUniqueKeys rows
    → row_of k t (acknowledge pk cursor rows) ≡ acknowledge_row pk cursor (row_of k t rows)
unfolding acknowledge acknowledge_row
row_of-acknowledge pk k t cursor rows h = elim (Bool-cases (truthy cursor)) [
  | inl e ↦ rw e (
      row_of-map (clear_cursor pk cursor) (same_machine pk cursor) (same_target pk cursor) k t _
      ∙ ap (Option.map (clear_cursor pk cursor))
          (row_of-select k t (λ r. not (removed pk cursor r)) rows h))
  | inr e ↦ rw e
]

pub row_of-settle :
    (pk k t : ℕ) (cursor : Option String) (rows : List MachineRule)
    → HasUniqueKeys rows
    → row_of k t (settle pk cursor rows) ≡ settle_row pk cursor (row_of k t rows)
unfolding settle cleanup settle_row
row_of-settle pk k t cursor rows h =
    let p = λ (r : MachineRule). not (is_dropped pk cursor r) in
    row_of-acknowledge pk k t cursor (select p rows) (select-HasUniqueKeys p rows h)
    ∙ ap (acknowledge_row pk cursor) (row_of-select k t p rows h)

-- What is left of a machine's rows is acknowledged or a removal.
abbrev pub IsSettled : Option MachineRule → Type 0
IsSettled none = Unit
IsSettled (some r) = (r.cursor ≡ none) ⊎ (r.policy ≡ remove)

pub settle_row-IsSettled :
    (pk : ℕ) (cursor : Option String) (r : MachineRule)
    → r.enrolled_machine ≡ pk
    → IsSettled (settle_row pk cursor (some r))
unfolding settle_row
settle_row-IsSettled pk cursor r h = ground arith

-- The next request acknowledges the rows that carry its cursor.
pub settle_row-acknowledged :
    (pk : ℕ) (fresh : String) (r : MachineRule)
    → r.enrolled_machine ≡ pk
    → r.cursor ≡ some fresh
    → (fresh == "") ≡ false
    → settle_row pk (some fresh) (some r)
      ≡ (if r.policy == remove then none else some (record r { cursor = none }))
unfolding settle_row
settle_row-acknowledged pk fresh r h c f = ground (arith, beq_refl fresh)

-- What is settled already stays, unless it carries that cursor.
pub settle_row-settled :
    (pk : ℕ) (fresh : String) (r : MachineRule)
    → IsSettled (some r)
    → (r.cursor == some fresh) ≡ false
    → settle_row pk (some fresh) (some r) ≡ some r
unfolding settle_row
settle_row-settled pk fresh r s c = ground arith

-- A fresh start forgets it, unless it is a removal.
pub settle_row-forgotten :
    (pk : ℕ) (fresh : String) (r : MachineRule)
    → r.enrolled_machine ≡ pk
    → r.cursor ≡ some fresh
    → settle_row pk none (some r) ≡ (if r.policy == remove then some r else none)
unfolding settle_row
settle_row-forgotten pk fresh r h c = ground arith

-- The rows of other machines stay.
pub settle_row-other :
    (pk : ℕ) (cursor : Option String) (r : MachineRule)
    → (r.enrolled_machine == pk) ≡ false
    → settle_row pk cursor (some r) ≡ some r
unfolding settle_row
settle_row-other pk cursor r h = ground arith
