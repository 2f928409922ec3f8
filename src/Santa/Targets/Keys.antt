-- ===== src/Santa/Targets/Keys.antt =====
-- The keys of the targets of zentral/contrib/santa: a target keeps its key, and a key its target.
use zentral.Base.{
  Bool, Bool-cases, List, Option, [], and-right, any, ap, arith, beq-eq_of, beq_refl, false, find,
  if◌then◌else◌, inl, inr, ltb, none, refl, some, sym, true, ℕ, ◌&&◌, ◌==◌, ◌∙◌, ◌∷◌, ◌≡◌, nat_eq,
  string_eq, option_eq,
}
use mathlib.Core.Option.{none-ne-some, some-injective}
use zentral.Santa.Rules.{Target}
use zentral.Santa.Targets.{
  unless_found, TargetRow, TargetTable, is_target, pk_of, pk_in, get_or_create_target, target_eq,
}

-- The newest row is the first: keys go up.
abbrev pub is_descending : ℕ → List TargetRow → Bool
is_descending n [] = true
is_descending n (r ∷ rows) = ltb r.pk n && is_descending r.pk rows

abbrev pub target_in : Option TargetRow → Option Target
target_in none = none
target_in (some r) = some r.target

abbrev pub target_at : List TargetRow → ℕ → Option Target
target_at rows pk = target_in (find (λ r. r.pk == pk) rows)

-- What a target's key finds is the target.
target_at-pk_of :
    (t : Target) (n pk : ℕ) (rows : List TargetRow)
    → is_descending n rows ≡ true
    → pk_in (find (λ r. r.target == t) rows) ≡ some pk
    → (ltb pk n ≡ true) × (target_at rows pk ≡ some t)
target_at-pk_of t n pk [] d h = absurd (none-ne-some pk h)
target_at-pk_of t n pk (r ∷ rows) d h = elim (Bool-cases (r.target == t)) [
  | inl same ↦ here same (
      some-injective r.pk pk
        (ap (λ b. pk_in (if b then some r else find (λ x. x.target == t) rows)) (sym same) ∙ h))
  | inr other ↦
      let rest : (ltb pk r.pk ≡ true) × (target_at rows pk ≡ some t) =
        target_at-pk_of t r.pk pk rows (and-right (ltb r.pk n) (is_descending r.pk rows) d) (
          ap (λ b. pk_in (if b then some r else find (λ x. x.target == t) rows)) (sym other) ∙ h) in
      (ground (arith, rest.0), later rest.0 rest.1)
]
  where
    here :
        (r.target == t) ≡ true → r.pk ≡ pk → (ltb pk n ≡ true) × (target_at (r ∷ rows) pk ≡ some t)
    here same e = (ground arith, rw (e, beq_refl pk, beq-eq_of r.target t same) refl)

    later : ltb pk r.pk ≡ true → target_at rows pk ≡ some t → target_at (r ∷ rows) pk ≡ some t
    later l e = let other : (r.pk == pk) ≡ false = ground arith in rw other e

is_target-pk_of :
    (t : Target) (pk : ℕ) (rows : List TargetRow)
    → pk_in (find (λ r. r.target == t) rows) ≡ some pk
    → any (λ r. (r.pk == pk) && (r.target == t)) rows ≡ true
is_target-pk_of t pk [] h = absurd (none-ne-some pk h)
is_target-pk_of t pk (r ∷ rows) h = ground (arith, is_target-pk_of t pk rows)

abbrev pub IsKept : Target → TargetTable → ℕ × TargetTable → Type 0
IsKept t table found =
    (is_descending found.1.next_pk found.1.rows ≡ true)
    × (ltb found.0 found.1.next_pk ≡ true)
    × (target_at found.1.rows found.0 ≡ some t)
    × (is_target found.1 t found.0 ≡ true)
    × ((k : ℕ)
        → ltb k table.next_pk ≡ true
        → (ltb k found.1.next_pk ≡ true) × (target_at found.1.rows k ≡ target_at table.rows k))

-- The key that is found or created is the key of the target, and the other keys stay as they are.
pub get_or_create-IsKept :
    (t : Target) (table : TargetTable)
    → is_descending table.next_pk table.rows ≡ true
    → IsKept t table (get_or_create_target t table)
unfolding get_or_create_target pk_of is_target
get_or_create-IsKept t table d = go (pk_of t table) refl
  where
    older : (k : ℕ) → ltb k table.next_pk ≡ true → (table.next_pk == k) ≡ false
    older k l = ground arith

    go : (o : Option ℕ) → pk_of t table ≡ o → IsKept t table (unless_found t table o)
    go (some pk) h =
        let found = target_at-pk_of t table.next_pk pk table.rows d h in
        (d, found.0, found.1, is_target-pk_of t pk table.rows h, λ k l. (l, refl))
    go none h = (
      ground arith,
      ground arith,
      rw (beq_refl table.next_pk) refl,
      rw (beq_refl table.next_pk, beq_refl t) refl,
      λ k l. (ground arith, rw (older k l) refl),
    )

-- What `filter(target__type=…, target__sha256=…)` finds is at its key.
pub is_target-at :
    (t : Target) (k n : ℕ) (rows : List TargetRow)
    → is_descending n rows ≡ true
    → (target_at rows k ≡ some t)
    → any (λ r. (r.pk == k) && (r.target == t)) rows ≡ true
is_target-at t k n [] d h = absurd (none-ne-some t h)
is_target-at t k n (r ∷ rows) d h = elim (Bool-cases (r.pk == k)) [
  | inl same ↦
      let e : r.target ≡ t =
        some-injective r.target t
          (ap (λ b. target_in (if b then some r else find (λ x. x.pk == k) rows)) (sym same) ∙ h) in
      rw (same, e, beq_refl t) refl
  | inr other ↦
      let rest : any (λ x. (x.pk == k) && (x.target == t)) rows ≡ true =
        is_target-at t k r.pk rows (and-right (ltb r.pk n) (is_descending r.pk rows) d) (
          ap (λ b. target_in (if b then some r else find (λ x. x.pk == k) rows)) (sym other) ∙ h) in
      rw (other, rest) refl
]
