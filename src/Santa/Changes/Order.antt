-- ===== src/Santa/Changes/Order.antt =====
-- Sorting, joining and dropping duplicates keep the targets of the rows (zentral/contrib/santa/models.py).
use mathlib.Core.Path.{ap₂}
use zentral.Base.{
  Bool, List, [], and-left, and-right, any, ap, arith, beq-eq_of, map, not, refl, select, true, ℕ,
  ◌==◌, ◌||◌, ◌∙◌, ◌∷◌, ◌≡◌, nat_eq, string_eq, option_eq,
}
use zentral.Santa.Rules.{Target}
use zentral.Santa.Changes.{
  ChangedRule, NewRule, changed_rule_beq, distinct_changes, join_targets, insert_by_sha256,
  order_by_sha256,
}

-- A test of a row's target, policy and version, which all these steps keep.
abbrev pub RowTest : Type 0
RowTest = ℕ → ℕ → ℕ → Bool

abbrev pub at_target : ℕ → RowTest
at_target t a p v = a == t

abbrev pub changes : RowTest → ChangedRule → Bool
changes q c = q c.target_id c.policy c.version

abbrev pub news : RowTest → NewRule → Bool
news q n = q n.target_id n.policy n.version

any-insert_by_sha256 :
    (q : RowTest) (x : NewRule) (xs : List NewRule)
    → any (news q) (insert_by_sha256 x xs) ≡ (news q x || any (news q) xs)
unfolding insert_by_sha256
any-insert_by_sha256 q x [] = refl
any-insert_by_sha256 q x (y ∷ ys) = ground (arith, any-insert_by_sha256 q x ys)

pub any-order_by_sha256 :
    (q : RowTest) (xs : List NewRule) → any (news q) (order_by_sha256 xs) ≡ any (news q) xs
unfolding order_by_sha256
any-order_by_sha256 q [] = refl
any-order_by_sha256 q (x ∷ xs) =
    any-insert_by_sha256 q x (order_by_sha256 xs)
    ∙ ap (λ b. news q x || b) (any-order_by_sha256 q xs)

pub any-join_targets :
    (q : RowTest) (get_target : ℕ → Target) (cs : List ChangedRule)
    → any (news q) (map (join_targets get_target) cs) ≡ any (changes q) cs
unfolding join_targets
any-join_targets q g [] = refl
any-join_targets q g (c ∷ cs) = ap (λ b. changes q c || b) (any-join_targets q g cs)

test_of_copy :
    (q : RowTest) (x y : ChangedRule) → changed_rule_beq x y ≡ true → changes q x ≡ changes q y
unfolding changed_rule_beq
test_of_copy q x y h =
    let rest = and-right _ _ h in
    let e : (x.target_id == y.target_id) ≡ true = and-left _ _ h in
    let f : (x.policy == y.policy) ≡ true = and-left _ _ rest in
    let g : (x.version == y.version) ≡ true = and-left _ _ (and-right _ _ (and-right _ _ rest)) in
    ap (λ a. q a x.policy x.version) (beq-eq_of x.target_id y.target_id e)
    ∙ ap₂ (λ a b. q y.target_id a b) (beq-eq_of x.policy y.policy f)
        (beq-eq_of x.version y.version g)

-- Dropping the copies of a row that is kept drops no target.
any-without_copies :
    (q : RowTest) (x : ChangedRule) (xs : List ChangedRule)
    → (changes q x || any (changes q) (select (λ y. not (changed_rule_beq x y)) xs))
      ≡ (changes q x || any (changes q) xs)
any-without_copies q x [] = refl
any-without_copies q x (y ∷ ys) = ground (arith, any-without_copies q x ys, test_of_copy q x y)

pub any-distinct_changes :
    (q : RowTest) (xs : List ChangedRule)
    → any (changes q) (distinct_changes xs) ≡ any (changes q) xs
unfolding distinct_changes
any-distinct_changes q [] = refl
any-distinct_changes q (x ∷ xs) =
    any-without_copies q x (distinct_changes xs)
    ∙ ap (λ b. changes q x || b) (any-distinct_changes q xs)
