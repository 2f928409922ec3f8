-- ===== src/Base/Lists.antt =====
-- Lists over the native numbers, under the library's names, and Python's `any`, `all`, `in`, `filter`.
use Prim.Native.Nat.{ℕ, zero, suc, ◌+◌, ◌≤◌}
use mathlib.Core.Path.{◌≡◌, refl, ap, ap₂, ◌∙◌}
use mathlib.Core.Bool.{Bool, true, false, ◌&&◌, ◌||◌}
use mathlib.Core.Logic.{◌⊎◌}
use mathlib.Core.List.{List, [], ◌∷◌, ◌++◌, map, flat_map}
use mathlib.Core.Option.{Option, none, some}
use native.Mathlib.Omega.{arith}
use zentral.Base.Tests.{if◌then◌else◌, Equality, ◌==◌}

pub or-false_left : (a b : Bool) → (a || b) ≡ false → a ≡ false
or-false_left a b h = ground arith

pub or-false_right : (a b : Bool) → (a || b) ≡ false → b ≡ false
or-false_right a b h = ground arith

or-false_of : (a b : Bool) → a ≡ false → b ≡ false → (a || b) ≡ false
or-false_of a b h k = ground arith

module _ {ℓ} {A : Type ℓ} where
  abbrev pub length : List A → ℕ
  length [] = 0
  length (x ∷ xs) = suc (length xs)

  abbrev pub take : ℕ → List A → List A
  take zero xs = []
  take (suc n) [] = []
  take (suc n) (x ∷ xs) = x ∷ take n xs

  -- the items that pass a test (a comprehension's `if`, a queryset's `filter`)
  abbrev pub select : (A → Bool) → List A → List A
  select p [] = []
  select p (x ∷ xs) = let rest = select p xs in if p x then x ∷ rest else rest

  abbrev pub any : (A → Bool) → List A → Bool
  any p [] = false
  any p (x ∷ xs) = p x || any p xs

  abbrev pub all : (A → Bool) → List A → Bool
  all p [] = true
  all p (x ∷ xs) = p x && all p xs

  -- the first item that passes a test (a queryset's `get`)
  abbrev pub find : (A → Bool) → List A → Option A
  find p [] = none
  find p (x ∷ xs) = if p x then some x else find p xs

  abbrev pub is_empty : List A → Bool
  is_empty [] = true
  is_empty (x ∷ xs) = false

  -- a predicate of every item, and of some item
  abbrev pub All {κ} : (A → Type κ) → List A → Type κ
  All P [] = Unit
  All P (x ∷ xs) = P x × All P xs

  abbrev pub Any : (A → Type 0) → List A → Type 0
  Any P [] = ⊥
  Any P (x ∷ xs) = P x ⊎ Any P xs

  pub length-take-le : (n : ℕ) (xs : List A) → length (take n xs) ≤ n
  length-take-le zero xs = omega arith
  length-take-le (suc n) [] = omega arith
  length-take-le (suc n) (x ∷ xs) = omega (arith, length-take-le n xs)

  pub length-append : (xs ys : List A) → length (xs ++ ys) ≡ length xs + length ys
  length-append [] ys = omega arith
  length-append (x ∷ xs) ys = omega (arith, length-append xs ys)

module _ {ℓ} {A : Type ℓ} where
  pub length-select-le : (p : A → Bool) (xs : List A) → length (select p xs) ≤ length xs
  length-select-le p [] = omega arith
  length-select-le p (x ∷ xs) = ground (arith, length-select-le p xs)

  pub any-append : (p : A → Bool) (xs ys : List A) → any p (xs ++ ys) ≡ (any p xs || any p ys)
  any-append p [] ys = refl
  any-append p (x ∷ xs) ys = ground (arith, any-append p xs ys)

module _ {ℓ} {A : Type ℓ} ⦃e : Equality A⦄ where
  -- Python's `a in xs`
  abbrev pub contains : List A → A → Bool
  contains xs a = any (λ x. x == a) xs

  -- do two sets share an item (Python's `xs & ys`, SQL's `xs && ys`)
  abbrev pub overlaps : List A → List A → Bool
  overlaps xs ys = any (contains ys) xs

pub any-flat_map {ℓ κ} :
    {A : Type ℓ} {B : Type κ} (p : B → Bool) (f : A → List B) (xs : List A)
    → any p (flat_map f xs) ≡ any (λ x. any p (f x)) xs
unfolding flat_map
any-flat_map p f [] = refl
any-flat_map p f (x ∷ xs) =
    any-append p (f x) (flat_map f xs) ∙ ap (λ b. any p (f x) || b) (any-flat_map p f xs)

pub any-map {ℓ κ} :
    {A : Type ℓ} {B : Type κ} (p : B → Bool) (f : A → B) (xs : List A)
    → any p (map f xs) ≡ any (λ x. p (f x)) xs
any-map p f [] = refl
any-map p f (x ∷ xs) = ap (λ b. p (f x) || b) (any-map p f xs)

pub any-cong {ℓ} :
    {A : Type ℓ} (p q : A → Bool) → ((x : A) → p x ≡ q x) → (xs : List A) → any p xs ≡ any q xs
any-cong p q h [] = refl
any-cong p q h (x ∷ xs) = ap₂ (λ a b. a || b) (h x) (any-cong p q h xs)

pub any-never {ℓ} :
    {A : Type ℓ} (p : A → Bool) → ((x : A) → p x ≡ false) → (xs : List A) → any p xs ≡ false
any-never p h [] = refl
any-never p h (x ∷ xs) = ground (arith, h x, any-never p h xs)

pub any-select {ℓ} :
    {A : Type ℓ} (p q : A → Bool) (xs : List A) → any (λ x. p x && q x) xs ≡ any q (select p xs)
any-select p q [] = refl
any-select p q (x ∷ xs) = ground (arith, any-select p q xs)

-- A test that never exceeds one that fails everywhere.
pub any_mono {ℓ} :
    {A : Type ℓ} (p q : A → Bool)
    → ((x : A) → q x ≡ false → p x ≡ false)
    → (xs : List A) → any q xs ≡ false
    → any p xs ≡ false
any_mono p q h [] e = refl
any_mono p q h (x ∷ xs) e =
    or-false_of (p x) (any p xs) (h x (or-false_left _ _ e))
      (any_mono p q h xs (or-false_right _ _ e))

pub any-select-false {ℓ} :
    {A : Type ℓ} (p q : A → Bool) (xs : List A) → any p xs ≡ false → any p (select q xs) ≡ false
any-select-false p q [] h = refl
any-select-false p q (r ∷ rows) h = ground (arith, any-select-false p q rows)
