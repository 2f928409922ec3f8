-- ===== src/Base/Search.antt =====
-- Results that are found or computed or not there, and what is known of the items that are selected.
use mathlib.Core.Path.{◌≡◌, refl, ap, ◌∙◌, subst, sym}
use mathlib.Core.Option
use mathlib.Core.Option.{Option, none, some, none-ne-some, some-injective}
use mathlib.Core.Bool.{Bool, true, false, not, ◌||◌}
use mathlib.Core.Logic.{inl, inr}
use mathlib.Core.List.{List, [], ◌∷◌}
use native.Mathlib.Omega.{arith}
use zentral.Base.Tests.{if◌then◌else◌, Equality, ◌==◌, Bool-cases, beq-eq_of, and-left, and-right}
use zentral.Base.Lists.{any, all, select, find, contains, or-false_left, or-false_right}

-- An optional result is there, and has a property.
abbrev pub Yields {ℓ} : {A : Type ℓ} → (A → Type 0) → Option A → Type 0
Yields P none = ⊥
Yields P (some a) = P a

infixl 5 ◌>>=◌
abbrev pub ◌>>=◌ {ℓ κ} : {A : Type ℓ} {B : Type κ} → Option A → (A → Option B) → Option B
none >>= f = none
some a >>= f = f a

pub Yields-bind {ℓ κ} :
    {A : Type ℓ} {B : Type κ} (P : A → Type 0) (Q : B → Type 0) (m : Option A) (f : A → Option B)
    → Yields P m
    → ((a : A) → P a → Yields Q (f a))
    → Yields Q (m >>= f)
Yields-bind P Q none f h k = elim h [ ]
Yields-bind P Q (some a) f h k = k a h

-- A test of every item, and of some item, that follows item by item.
pub all_mono {ℓ} :
    {A : Type ℓ} (p q : A → Bool) (xs : List A)
    → ((x : A) → p x ≡ true → q x ≡ true)
    → all p xs ≡ true
    → all q xs ≡ true
all_mono p q [] h a = refl
all_mono p q (x ∷ xs) h a = ground (arith, h x, all_mono p q xs h)

pub any_mono-all {ℓ} :
    {A : Type ℓ} (g p q : A → Bool) (xs : List A)
    → ((x : A) → g x ≡ true → q x ≡ false → p x ≡ false)
    → all g xs ≡ true
    → any q xs ≡ false
    → any p xs ≡ false
any_mono-all g p q [] h a e = refl
any_mono-all g p q (x ∷ xs) h a e = ground (arith, h x, any_mono-all g p q xs h)

-- Some item passes a second test, if it does so wherever an item passes the first.
pub any-implies {ℓ} :
    {A : Type ℓ} (g p q : A → Bool) (xs : List A)
    → ((x : A) → g x ≡ true → p x ≡ true → q x ≡ true)
    → all g xs ≡ true
    → any p xs ≡ true
    → any q xs ≡ true
any-implies g p q [] h a e = e
any-implies g p q (x ∷ xs) h a e = ground (arith, h x, any-implies g p q xs h)

pub all-select {ℓ} :
    {A : Type ℓ} (g p : A → Bool) (xs : List A) → all g xs ≡ true → all g (select p xs) ≡ true
all-select g p [] h = refl
all-select g p (x ∷ xs) h = ground (arith, all-select g p xs)

pub all-true {ℓ} : {A : Type ℓ} (xs : List A) → all (λ x. true) xs ≡ true
all-true [] = refl
all-true (x ∷ xs) = all-true xs

pub any-or {ℓ} :
    {A : Type ℓ} (p q : A → Bool) (xs : List A)
    → any p xs ≡ false
    → any q xs ≡ false
    → any (λ x. p x || q x) xs ≡ false
any-or p q [] h k = refl
any-or p q (x ∷ xs) h k = ground (arith, any-or p q xs)

pub Yields-if {ℓ} :
    {A : Type ℓ} (P : A → Type 0) (b : Bool) (m n : Option A)
    → (b ≡ true → Yields P m)
    → (b ≡ false → Yields P n)
    → Yields P (if b then m else n)
Yields-if P true m n h k = h refl
Yields-if P false m n h k = k refl

-- A chain that gives a result has a first step that does.
pub bind-some {ℓ κ} :
    {A : Type ℓ} {B : Type κ} (m : Option A) (f : A → Option B) (b : B)
    → (m >>= f) ≡ some b
    → (a : A) × (m ≡ some a) × (f a ≡ some b)
bind-some none f b h = absurd (none-ne-some b h)
bind-some (some a) f b h = (a, refl, h)

pub some-of_map :
    {A : Type 0} (o p : Option A)
    → Option.map some o ≡ some p
    → (a : A) × (o ≡ some a) × (some a ≡ p)
some-of_map none p h = absurd (none-ne-some p h)
some-of_map (some a) p h = (a, refl, some-injective (some a) p h)

pub if-some :
    {A : Type 0} (k : Bool) (a b : A) → (if k then some a else none) ≡ some b → (k ≡ true) × (a ≡ b)
if-some true a b h = (refl, some-injective _ _ h)
if-some false a b h = absurd (none-ne-some b h)

pub Yields-bind-some {ℓ κ} :
    {A : Type ℓ} {B : Type κ} (Q : B → Type 0) (m : Option A) (f : A → Option B) (a : A)
    → m ≡ some a
    → Yields Q (f a)
    → Yields Q (m >>= f)
Yields-bind-some Q m f a h q = subst (λ o. Yields Q (o >>= f)) (sym h) q

pub find-none {ℓ} : {A : Type ℓ} (p : A → Bool) (xs : List A) → find p xs ≡ none → any p xs ≡ false
find-none p [] h = refl
find-none p (x ∷ xs) h = elim (Bool-cases (p x)) [
  | inl same ↦ absurd (none-ne-some x (sym h ∙ ap (λ b. if b then some x else find p xs) same))
  | inr other ↦
      rw (other, find-none p xs (ap (λ b. if b then some x else find p xs) (sym other) ∙ h)) refl
]

pub select-select {ℓ} :
    {A : Type ℓ} (p g : A → Bool) (xs : List A)
    → ((x : A) → p x ≡ true → g x ≡ true)
    → select p (select g xs) ≡ select p xs
select-select p g [] h = refl
select-select p g (x ∷ xs) h = ground (arith, h x, select-select p g xs h)

-- What is known of the items that are selected.
pub any-of_select {ℓ} :
    {A : Type ℓ} (p q g : A → Bool) (xs : List A)
    → ((x : A) → p x ≡ true → (g x ≡ true) × (q x ≡ true))
    → any p xs ≡ true
    → any q (select g xs) ≡ true
any-of_select p q g [] h e = e
any-of_select p q g (x ∷ xs) h e = ground (arith, h x, any-of_select p q g xs h)

pub all-of_select {ℓ} :
    {A : Type ℓ} (p g : A → Bool) (xs : List A)
    → ((x : A) → g x ≡ true → p x ≡ true)
    → all p (select g xs) ≡ true
all-of_select p g [] h = refl
all-of_select p g (x ∷ xs) h = ground (arith, h x, all-of_select p g xs h)

pub all-contains {ℓ} :
    {A : Type ℓ} ⦃e : Equality A⦄ (p : A → Bool) (xs : List A) (a : A)
    → all p xs ≡ true
    → contains xs a ≡ true
    → p a ≡ true
all-contains p [] a h k = absurd (ground arith)
all-contains p (x ∷ xs) a h k = elim (Bool-cases (x == a)) [
  | inl same ↦ ap p (sym (beq-eq_of x a same)) ∙ and-left (p x) (all p xs) h
  | inr other ↦ all-contains p xs a (and-right (p x) (all p xs) h) (ground arith)
]

-- A test that no item passes fails on an item that is found.
pub find-any-false {ℓ} :
    {A : Type ℓ} (p q : A → Bool) (a : A) (xs : List A)
    → find p xs ≡ some a
    → any q xs ≡ false
    → q a ≡ false
find-any-false p q a [] h k = absurd (none-ne-some a h)
find-any-false p q a (x ∷ xs) h k = elim (Bool-cases (p x)) [
  | inl same ↦
      ap q (some-injective a x (sym h ∙ ap (λ b. if b then some x else find p xs) same))
      ∙ or-false_left (q x) (any q xs) k
  | inr other ↦
      find-any-false p q a xs (ap (λ b. if b then some x else find p xs) (sym other) ∙ h)
        (or-false_right (q x) (any q xs) k)
]

pub all-of_none {ℓ} :
    {A : Type ℓ} (p q : A → Bool) (xs : List A)
    → any q xs ≡ false
    → all (λ x. not (q x) || p x) xs ≡ true
all-of_none p q [] h = refl
all-of_none p q (x ∷ xs) h = ground (arith, all-of_none p q xs)

pub find-is {ℓ} :
    {A : Type ℓ} (p : A → Bool) (a : A) (xs : List A) → find p xs ≡ some a → p a ≡ true
find-is p a [] h = absurd (none-ne-some a h)
find-is p a (x ∷ xs) h = elim (Bool-cases (p x)) [
  | inl same ↦
      ap p (some-injective a x (sym h ∙ ap (λ b. if b then some x else find p xs) same)) ∙ same
  | inr other ↦ find-is p a xs (ap (λ b. if b then some x else find p xs) (sym other) ∙ h)
]

pub find-any {ℓ} :
    {A : Type ℓ} (p q : A → Bool) (a : A) (xs : List A)
    → find p xs ≡ some a
    → q a ≡ true
    → any q xs ≡ true
find-any p q a xs h k = elim (Bool-cases (any q xs)) [
  | inl some_passes ↦ some_passes
  | inr none_passes ↦ absurd (false-ne (sym (find-any-false p q a xs h none_passes) ∙ k))
]
  where
    false-ne : false ≡ true → ⊥
    false-ne h = ground arith

pub all-select_both {ℓ} :
    {A : Type ℓ} (p g q : A → Bool) (xs : List A)
    → ((x : A) → p x ≡ true → g x ≡ true → q x ≡ true)
    → all p xs ≡ true
    → all q (select g xs) ≡ true
all-select_both p g q [] h k = refl
all-select_both p g q (x ∷ xs) h k = ground (arith, h x, all-select_both p g q xs h)
