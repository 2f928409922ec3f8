-- ===== src/Merkle/Results.antt =====
-- The exceptions that zentral/utils/mt_models.py raises and lets through, and results that may be one.
use mathlib.Core.Option.{none-ne-some, some-injective}
use zentral.Base.{Bool, Option, ap, false, if◌then◌else◌, none, refl, some, subst, true, ◌∙◌, ◌≡◌}

-- `hash_mismatch` is the MTOError of the check at the end of `commit`. `integrity_error` and
-- `validation_error` come from the database and from `full_clean`, and `recursion_error` from the
-- interpreter, whose stack is bounded.
pub data Error : Type 0 where
  mto_error hash_mismatch value_error assertion_error attribute_error type_error : Error
  integrity_error validation_error recursion_error : Error

pub data Result {ℓ} (A : Type ℓ) : Type ℓ where
  ok : A → Result A
  err : Error → Result A

infixl 5 ◌>>=◌
abbrev pub ◌>>=◌ {ℓ κ} : {A : Type ℓ} {B : Type κ} → Result A → (A → Result B) → Result B
ok a >>= next = next a
err raised >>= next = err raised

abbrev pub result_of {ℓ} : {A : Type ℓ} → Result A → Option A
result_of (ok a) = some a
result_of (err raised) = none

pub err-ne-ok {ℓ} : {A : Type ℓ} {B : Type 0} {e : Error} {a : A} → err e ≡ ok a → B
err-ne-ok {a = a} h = absurd (none-ne-some a (ap result_of h))

pub ok-injective {ℓ} : {A : Type ℓ} {a b : A} → ok a ≡ ok b → a ≡ b
ok-injective {a = a} {b = b} h = some-injective a b (ap result_of h)

-- What a chain of two steps that returns has gone through.
pub steps_of {ℓ κ} :
    {A : Type ℓ} {B : Type κ} (m : Result A) (f : A → Result B) (b : B)
    → (m >>= f) ≡ ok b
    → (a : A) × ((m ≡ ok a) × (f a ≡ ok b))
steps_of (ok a) f b h = (a, (refl, h))
steps_of (err raised) f b h = absurd (err-ne-ok {B = ⊥} h)

pub ok_bind {ℓ κ} :
    {A : Type ℓ} {B : Type κ} {m : Result A} (f : A → Result B) {a : A} {r : Result B}
    → m ≡ ok a
    → f a ≡ r
    → (m >>= f) ≡ r
ok_bind f h k = ap (λ x. x >>= f) h ∙ k

-- A property of the value, if there is one.
abbrev pub Returns {ℓ} : {A : Type ℓ} → (A → Type 0) → Result A → Type 0
Returns P (ok a) = P a
Returns P (err raised) = Unit

pub Returns-bind {ℓ κ} :
    {A : Type ℓ} {B : Type κ} (P : A → Type 0) (Q : B → Type 0) (m : Result A) (f : A → Result B)
    → Returns P m
    → ((a : A) → m ≡ ok a → P a → Returns Q (f a))
    → Returns Q (m >>= f)
Returns-bind P Q (ok a) f h k = k a refl h
Returns-bind P Q (err raised) f h k = tt

pub Returns-if {ℓ} :
    {A : Type ℓ} (P : A → Type 0) (b : Bool) (m n : Result A)
    → (b ≡ true → Returns P m)
    → (b ≡ false → Returns P n)
    → Returns P (if b then m else n)
Returns-if P true m n h k = h refl
Returns-if P false m n h k = k refl

pub Returns-of_nothing {ℓ} : {A : Type ℓ} (m : Result A) → Returns (λ a. Unit) m
Returns-of_nothing (ok a) = tt
Returns-of_nothing (err raised) = tt

pub Returns_at {ℓ} :
    {A : Type ℓ} (P : A → Type 0) (m : Result A) (a : A) → Returns P m → m ≡ ok a → P a
Returns_at P m a h e = subst (Returns P) e h

-- every exception but the one of a stack that is too small
unfoldable pub is_ordinary : Error → Bool
is_ordinary Error.recursion_error = false
is_ordinary _ = true

-- A value with a property, or an ordinary exception.
abbrev pub Fine {ℓ} : {A : Type ℓ} → (A → Type 0) → Result A → Type 0
Fine P (ok a) = P a
Fine P (err raised) = is_ordinary raised ≡ true

pub Fine-bind {ℓ κ} :
    {A : Type ℓ} {B : Type κ} (P : A → Type 0) (Q : B → Type 0) (m : Result A) (f : A → Result B)
    → Fine P m
    → ((a : A) → P a → Fine Q (f a))
    → Fine Q (m >>= f)
Fine-bind P Q (ok a) f h k = k a h
Fine-bind P Q (err raised) f h k = h

pub Fine-if {ℓ} :
    {A : Type ℓ} (P : A → Type 0) (b : Bool) (m n : Result A)
    → Fine P m
    → Fine P n
    → Fine P (if b then m else n)
Fine-if P true m n h k = h
Fine-if P false m n h k = k

pub Fine-mono {ℓ} :
    {A : Type ℓ} (P Q : A → Type 0) (m : Result A) → ((a : A) → P a → Q a) → Fine P m → Fine Q m
Fine-mono P Q (ok a) k h = k a h
Fine-mono P Q (err raised) k h = h
