-- ===== src/Santa/Machines.antt =====
-- The table of `MachineRule` (zentral/contrib/santa/models.py): the two columns of its key, and the
-- writes that `MachineRuleManager` makes.
pub mod Laws
use zentral.Base.{
  Bool, List, Option, [], any, false, find, if◌then◌else◌, ℕ, ◌&&◌, ◌==◌, ◌∷◌, ◌≡◌, nat_eq,
  string_eq, option_eq,
}
use zentral.Santa.Changes.{MachineRule}

-- `unique_together = (("enrolled_machine", "target"),)`
abbrev pub has_key : ℕ → ℕ → MachineRule → Bool
has_key pk t r = (r.enrolled_machine == pk) && (r.target == t)

unfoldable pub row_of : ℕ → ℕ → List MachineRule → Option MachineRule
row_of pk t rows = find (has_key pk t) rows

-- `update_or_create(enrolled_machine=…, target=…, defaults=…)`
unfoldable pub update_or_create : MachineRule → List MachineRule → List MachineRule
update_or_create new [] = new ∷ []
update_or_create new (r ∷ rows) =
    if has_key new.enrolled_machine new.target r then new ∷ rows else r ∷ update_or_create new rows

-- No two rows have one key.
abbrev pub HasUniqueKeys : List MachineRule → Type 0
HasUniqueKeys [] = Unit
HasUniqueKeys (r ∷ rows) =
    (any (has_key r.enrolled_machine r.target) rows ≡ false) × HasUniqueKeys rows
