-- ===== src/Santa/Changes/Wanted.antt =====
-- What a machine has to have for a target, and when it does (zentral/contrib/santa/models.py).
use zentral.Base.{
  Bool, List, Option, [], any, false, none, select, some, true, ℕ, ◌==◌, ◌∷◌, nat_eq, string_eq,
  option_eq,
}
use zentral.Santa.Changes.{MachineRule, ExpandedRule, is_stale}

abbrev pub targets : ℕ → ExpandedRule → Bool
targets t er = er.target_id == t

-- The rules that a machine has to have for a target.
abbrev pub wanted : ℕ → List ExpandedRule → List ExpandedRule
wanted t ers = select (targets t) ers

unfoldable pub stale_for : Option MachineRule → ExpandedRule → Bool
unfolding is_stale
stale_for none er = true
stale_for (some mr) er = is_stale er mr

unfoldable pub is_some : Option MachineRule → Bool
is_some none = false
is_some (some r) = true

-- A target is out of sync if one of its rules is missing on the machine or differs from the
-- machine's row, or if the machine has a row and no rule asks for one.
unfoldable pub out_of_sync : List ExpandedRule → Option MachineRule → Bool
unfolding stale_for is_some
out_of_sync [] row = is_some row
out_of_sync (er ∷ ers) row = any (stale_for row) (er ∷ ers)
