-- ===== src/Merkle/Sorting.antt =====
-- Python's `sorted` on texts, by the numbers of their characters.
use Prim.Native.String.compare
use Prim.Native.String.{compare}
use Prim.Native.Char.{Char, code}
use text.Mathlib.Text.{is_le}
use text.Mathlib.TextEquality.{Char-path}
use mathlib.Core.Path.{ap₂}
use mathlib.Core.List.{Permᴰ}
use zentral.Base.{
  Bool, List, String, [], arith, false, if◌then◌else◌, ltb, nat_beq, refl, true, ◌&&◌, ◌||◌, ◌∙◌,
  ◌∷◌, ◌≡◌,
}

unfoldable pub is_before : String → String → Bool
is_before s t = is_le (compare s t)

unfoldable pub insert : String → List String → List String
unfolding is_before
insert s [] = s ∷ []
insert s (t ∷ ts) = let rest = insert s ts in if is_before s t then s ∷ t ∷ ts else t ∷ rest

unfoldable pub sorted : List String → List String
sorted [] = []
sorted (s ∷ ss) = insert s (sorted ss)

is_before-nil : (t : String) → is_before String.[] t ≡ true
unfolding is_before
is_before-nil String.[] = refl
is_before-nil (String.◌∷◌ d t) = rw (compare.nil-cons d t) refl

is_before-cons_nil : (c : Char) (s : String) → is_before (String.◌∷◌ c s) String.[] ≡ false
unfolding is_before
is_before-cons_nil c s = rw (compare.cons-nil c s) refl

-- Texts are compared by their first characters, and then by the others.
is_before-cons :
    (c d : Char) (s t : String)
    → is_before (String.◌∷◌ c s) (String.◌∷◌ d t)
      ≡ (ltb (code c) (code d) || (nat_beq (code c) (code d) && is_before s t))
unfolding is_before
is_before-cons c d s t = rw (compare.cons-cons c d s t) (ground arith)

is_before_total : (s t : String) → is_before s t ≡ false → is_before t s ≡ true
is_before_total String.[] t h = absurd (ground (arith, is_before-nil t))
is_before_total (String.◌∷◌ c s) String.[] h = is_before-nil _
is_before_total (String.◌∷◌ c s) (String.◌∷◌ d t) h =
    ground (arith, is_before-cons c d s t, is_before-cons d c t s, is_before_total s t)

is_before_antisym : (s t : String) → is_before s t ≡ true → is_before t s ≡ true → s ≡ t
is_before_antisym String.[] String.[] h k = refl
is_before_antisym String.[] (String.◌∷◌ d t) h k = absurd (ground (arith, is_before-cons_nil d t))
is_before_antisym (String.◌∷◌ c s) String.[] h k = absurd (ground (arith, is_before-cons_nil c s))
is_before_antisym (String.◌∷◌ c s) (String.◌∷◌ d t) h k =
    λ i. String.◌∷◌ (Char-path c d codes i) (is_before_antisym s t first second i)
  where
    codes : code c ≡ code d
    codes = ground (arith, is_before-cons c d s t, is_before-cons d c t s)

    first : is_before s t ≡ true
    first = ground (arith, is_before-cons c d s t, is_before-cons d c t s)

    second : is_before t s ≡ true
    second = ground (arith, is_before-cons c d s t, is_before-cons d c t s)

is_before_trans :
    (s t u : String) → is_before s t ≡ true → is_before t u ≡ true → is_before s u ≡ true
is_before_trans String.[] t u h k = is_before-nil u
is_before_trans (String.◌∷◌ c s) String.[] u h k = absurd (ground (arith, is_before-cons_nil c s))
is_before_trans (String.◌∷◌ c s) (String.◌∷◌ d t) String.[] h k =
    absurd (ground (arith, is_before-cons_nil d t))
is_before_trans (String.◌∷◌ c s) (String.◌∷◌ d t) (String.◌∷◌ e u) h k = ground (
  arith,
  is_before-cons c d s t,
  is_before-cons d e t u,
  is_before-cons c e s u,
  is_before_trans s t u,
)

insert_comm : (s t : String) (l : List String) → insert s (insert t l) ≡ insert t (insert s l)
unfolding insert
insert_comm s t [] = ground (arith, is_before_total s t, is_before_total t s, is_before_antisym s t)
insert_comm s t (u ∷ l) = ground (
  arith,
  is_before_total s t,
  is_before_total t s,
  is_before_antisym s t,
  is_before_trans s t u,
  is_before_trans t s u,
  is_before_total s u,
  is_before_total t u,
  insert_comm s t l,
)

-- The order of a list does not change what it is sorted to.
pub sorted-Perm : {xs ys : List String} → Permᴰ xs ys → sorted xs ≡ sorted ys
unfolding sorted
sorted-Perm Permᴰ.nil = refl
sorted-Perm (Permᴰ.cons e d) = ap₂ insert e (sorted-Perm d)
sorted-Perm (Permᴰ.swap {a = a} {b = b} {l = l} e f) =
    insert_comm a b (sorted l) ∙ ap₂ (λ x y. insert x (insert y (sorted l))) f e
sorted-Perm (Permᴰ.trans d e) = sorted-Perm d ∙ sorted-Perm e
