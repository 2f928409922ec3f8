-- ===== src/Santa/Machines/Laws.antt =====
-- What the writes to the `MachineRule` table do to the row of each key.
use mathlib.Core.Path.{ap₂}
use mathlib.Core.Option
use zentral.Base.{
  Bool, List, Option, [], any, any-select-false, arith, false, if◌then◌else◌, map, none, refl,
  select, some, true, ℕ, ◌||◌, ◌∷◌, ◌≡◌,
}
use zentral.Santa.Changes.{MachineRule}
use zentral.Santa.Machines.{has_key, row_of, update_or_create, HasUniqueKeys}

abbrev pub keep_if : (MachineRule → Bool) → Option MachineRule → Option MachineRule
keep_if p none = none
keep_if p (some r) = if p r then some r else none

pub row_of-update_or_create :
    (pk t : ℕ) (new : MachineRule) (rows : List MachineRule)
    → row_of pk t (update_or_create new rows)
      ≡ (if has_key pk t new then some new else row_of pk t rows)
unfolding row_of update_or_create
row_of-update_or_create pk t new [] = refl
row_of-update_or_create pk t new (r ∷ rows) = ground (arith, row_of-update_or_create pk t new rows)

any-has_key-update_or_create :
    (pk t : ℕ) (new : MachineRule) (rows : List MachineRule)
    → any (has_key pk t) (update_or_create new rows) ≡ (has_key pk t new || any (has_key pk t) rows)
unfolding update_or_create
any-has_key-update_or_create pk t new [] = refl
any-has_key-update_or_create pk t new (r ∷ rows) =
    ground (arith, any-has_key-update_or_create pk t new rows)

pub update_or_create-HasUniqueKeys :
    (new : MachineRule) (rows : List MachineRule)
    → HasUniqueKeys rows
    → HasUniqueKeys (update_or_create new rows)
unfolding update_or_create
update_or_create-HasUniqueKeys new [] h = (refl, tt)
update_or_create-HasUniqueKeys new (r ∷ rows) h = ground (
  arith,
  any-has_key-update_or_create r.enrolled_machine r.target new rows,
  update_or_create-HasUniqueKeys new rows,
)

pub select-HasUniqueKeys :
    (p : MachineRule → Bool) (rows : List MachineRule)
    → HasUniqueKeys rows
    → HasUniqueKeys (select p rows)
select-HasUniqueKeys p [] h = tt
select-HasUniqueKeys p (r ∷ rows) h = ground (
  arith,
  any-select-false (has_key r.enrolled_machine r.target) p rows,
  select-HasUniqueKeys p rows,
)

row_of-none :
    (pk t : ℕ) (rows : List MachineRule) → any (has_key pk t) rows ≡ false → row_of pk t rows ≡ none
unfolding row_of
row_of-none pk t [] h = refl
row_of-none pk t (r ∷ rows) h = ground (arith, row_of-none pk t rows)

pub has_key_of :
    (pk t : ℕ) (r : MachineRule) (rows : List MachineRule)
    → has_key pk t r ≡ true
    → any (has_key r.enrolled_machine r.target) rows ≡ any (has_key pk t) rows
has_key_of pk t r rows h =
    let e : r.enrolled_machine ≡ pk = ground arith in
    let f : r.target ≡ t = ground arith in ap₂ (λ a b. any (has_key a b) rows) e f

-- Dropping rows by a test drops the row of a key exactly if the test says so.
pub row_of-select :
    (pk t : ℕ) (p : MachineRule → Bool) (rows : List MachineRule)
    → HasUniqueKeys rows
    → row_of pk t (select p rows) ≡ keep_if p (row_of pk t rows)
unfolding row_of
row_of-select pk t p [] h = refl
row_of-select pk t p (r ∷ rows) h = ground (
  arith,
  row_of-select pk t p rows,
  has_key_of pk t r rows,
  row_of-none pk t (select p rows),
  any-select-false (has_key pk t) p rows,
)

-- A write that keeps the keys.
module _ (f : MachineRule → MachineRule)
    (same_machine : (r : MachineRule) → (f r).enrolled_machine ≡ r.enrolled_machine)
    (same_target : (r : MachineRule) → (f r).target ≡ r.target) where
  pub row_of-map :
      (pk t : ℕ) (rows : List MachineRule)
      → row_of pk t (map f rows) ≡ Option.map f (row_of pk t rows)
  unfolding row_of
  row_of-map pk t [] = refl
  row_of-map pk t (r ∷ rows) = ground (arith, row_of-map pk t rows, same_machine r, same_target r)

  any-has_key-map :
      (pk t : ℕ) (rows : List MachineRule)
      → any (has_key pk t) (map f rows) ≡ any (has_key pk t) rows
  any-has_key-map pk t [] = refl
  any-has_key-map pk t (r ∷ rows) =
      ground (arith, any-has_key-map pk t rows, same_machine r, same_target r)

  pub map-HasUniqueKeys :
      (rows : List MachineRule) → HasUniqueKeys rows → HasUniqueKeys (map f rows)
  map-HasUniqueKeys [] h = tt
  map-HasUniqueKeys (r ∷ rows) h =
      (rw (same_machine, same_target, any-has_key-map) h.0, map-HasUniqueKeys rows h.1)
