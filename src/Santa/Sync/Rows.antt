-- ===== src/Santa/Sync/Rows.antt =====
-- The row of one target across the two first steps of a request (zentral/contrib/santa/models.py).
use zentral.Base.{
  List, Option, String, [], and-left, any, arith, beq-eq_of, false, none, refl, some, true, ℕ, ◌==◌,
  ◌∙◌, ◌∷◌, ◌≡◌, nat_eq, string_eq, option_eq,
}
use zentral.Santa.Changes.{MachineRule}
use zentral.Santa.Machines.{has_key, row_of, HasUniqueKeys}
use zentral.Santa.Sync.Settle.{
  settle, row_of-settle, settle_row, IsSettled, settle_row-IsSettled, settle_row-settled,
  settle_row-other,
}

pub row_of-has_key :
    (pk t : ℕ) (r : MachineRule) (rows : List MachineRule)
    → row_of pk t rows ≡ some r
    → has_key pk t r ≡ true
unfolding row_of
row_of-has_key pk t r [] h = cc
row_of-has_key pk t r (x ∷ rows) h = ground (arith, row_of-has_key pk t r rows)

abbrev pub HasOtherCursor : String → Option MachineRule → Type 0
HasOtherCursor c none = Unit
HasOtherCursor c (some r) = (r.cursor == some c) ≡ false

pub row_of-HasOtherCursor :
    (pk t : ℕ) (c : String) (rows : List MachineRule)
    → any (λ r. r.cursor == some c) rows ≡ false
    → HasOtherCursor c (row_of pk t rows)
unfolding row_of
row_of-HasOtherCursor pk t c [] h = tt
row_of-HasOtherCursor pk t c (x ∷ rows) h = ground (arith, row_of-HasOtherCursor pk t c rows)

pub settle_row-HasOtherCursor :
    (pk : ℕ) (c : String) (cursor : Option String) (row : Option MachineRule)
    → HasOtherCursor c row
    → HasOtherCursor c (settle_row pk cursor row)
unfolding settle_row
settle_row-HasOtherCursor pk c cursor none h = ground arith
settle_row-HasOtherCursor pk c cursor (some r) h = ground arith

pub settle_row-stays :
    (pk : ℕ) (c : String) (row : Option MachineRule)
    → IsSettled row
    → HasOtherCursor c row
    → settle_row pk (some c) row ≡ row
unfolding settle_row
settle_row-stays pk c none s h = ground arith
settle_row-stays pk c (some r) s h = settle_row-settled pk c r s h

settle_row-none : (pk : ℕ) (cursor : Option String) → settle_row pk cursor none ≡ none
unfolding settle_row
settle_row-none pk cursor = ground arith

pub row_of-settle-IsSettled :
    (pk t : ℕ) (cursor : Option String) (rows : List MachineRule)
    → HasUniqueKeys rows
    → IsSettled (row_of pk t (settle pk cursor rows))
row_of-settle-IsSettled pk t cursor rows u =
    rw (row_of-settle pk pk t cursor rows u) (go (row_of pk t rows) refl)
  where
    go : (o : Option MachineRule) → row_of pk t rows ≡ o → IsSettled (settle_row pk cursor o)
    go none e = rw (settle_row-none pk cursor) tt
    go (some r) e =
        settle_row-IsSettled pk cursor r
          (beq-eq_of r.enrolled_machine pk (and-left _ _ (row_of-has_key pk t r rows e)))

other_machine :
    (pk k t : ℕ) (r : MachineRule)
    → has_key k t r ≡ true
    → (pk == k) ≡ false
    → (r.enrolled_machine == pk) ≡ false
other_machine pk k t r h e = ground arith

pub row_of-settle_other :
    (pk k t : ℕ) (cursor : Option String) (rows : List MachineRule)
    → HasUniqueKeys rows
    → (pk == k) ≡ false
    → row_of k t (settle pk cursor rows) ≡ row_of k t rows
row_of-settle_other pk k t cursor rows u h =
    row_of-settle pk k t cursor rows u ∙ go (row_of k t rows) refl
  where
    go : (o : Option MachineRule) → row_of k t rows ≡ o → settle_row pk cursor o ≡ o
    go none e = settle_row-none pk cursor
    go (some r) e =
        settle_row-other pk cursor r (other_machine pk k t r (row_of-has_key k t r rows e) h)
