-- ===== src/Merkle/Hasher/Order.antt =====
-- The digest does not depend on the order in which the fields were added.
use Prim.Native.String.{◌++◌ as ◌<>◌}
use mathlib.Core.Path.{ap₂}
use mathlib.Core.List.{Permᴰ}
use zentral.Base.{
  Bool, Bool-cases, List, Option, String, [], and-right, ap, arith, contains, if◌then◌else◌, inl,
  inr, none, not, refl, some, string_eq, subst, sym, true, ◌&&◌, ◌==◌, ◌||◌, ◌∙◌, ◌∷◌, ◌≡◌, nat_eq,
  option_eq, bool_eq,
}
use zentral.Merkle.Sorting.{sorted, sorted-Perm}
use zentral.Merkle.Hasher.{Fields, keys, lookup, entry_text, digest_texts, hexdigest}

abbrev pub distinct : List String → Bool
distinct [] = true
distinct (k ∷ ks) = not (contains ks k) && distinct ks

-- what is fed to the digest for each key
abbrev pub view : Fields → List (String × String)
view [] = []
view ((k, e) ∷ rest) = (k, entry_text (some e)) ∷ view rest

pub contains-Perm :
    {xs ys : List String} → Permᴰ xs ys → (a : String) → contains xs a ≡ contains ys a
contains-Perm Permᴰ.nil a = refl
contains-Perm (Permᴰ.cons e d) a = ap₂ (λ x b. (x == a) || b) e (contains-Perm d a)
contains-Perm (Permᴰ.swap {a = x} {b = y} {l = l} e f) a =
    or_swap (x == a) (y == a) (contains l a)
    ∙ ap₂ (λ z w. (z == a) || ((w == a) || contains l a)) f e
  where
    or_swap : (b c d : Bool) → (b || (c || d)) ≡ (c || (b || d))
    or_swap b c d = ground arith
contains-Perm (Permᴰ.trans d e) a = contains-Perm d a ∙ contains-Perm e a

pub distinct-Perm : {xs ys : List String} → Permᴰ xs ys → distinct xs ≡ distinct ys
distinct-Perm Permᴰ.nil = refl
distinct-Perm (Permᴰ.cons {l₁ = l} {l₂ = m} e d) =
    ap₂ (λ x b. not (contains l x) && b) e (distinct-Perm d)
    ∙ ap (λ b. not b && distinct m) (contains-Perm d _)
distinct-Perm (Permᴰ.swap {a = x} {b = y} {l = l} e f) =
    and_swap ∙ ap₂ (λ z w. not ((w == z) || contains l z) && (not (contains l w) && distinct l)) f e
  where
    and_swap :
        (not ((y == x) || contains l x) && (not (contains l y) && distinct l))
        ≡ (not ((x == y) || contains l y) && (not (contains l x) && distinct l))
    and_swap = ground (arith, string_eq.test_iff x y, string_eq.test_iff y x)
distinct-Perm (Permᴰ.trans d e) = distinct-Perm d ∙ distinct-Perm e

module _ {V : Type 0} where
  pub keys-Perm : {vs ws : List (String × V)} → Permᴰ vs ws → Permᴰ (keys vs) (keys ws)
  keys-Perm Permᴰ.nil = Permᴰ.nil
  keys-Perm (Permᴰ.cons {a = a} {b = b} e d) = Permᴰ.cons (ap (λ p. p.0) e) (keys-Perm d)
  keys-Perm (Permᴰ.swap e f) = Permᴰ.swap (ap (λ p. p.0) e) (ap (λ p. p.0) f)
  keys-Perm (Permᴰ.trans d e) = Permᴰ.trans (keys-Perm d) (keys-Perm e)

  lookup-Perm :
      {vs ws : List (String × V)}
      → Permᴰ vs ws
      → distinct (keys vs) ≡ true
      → (k : String) → lookup k vs ≡ lookup k ws
  lookup-Perm Permᴰ.nil u k = refl
  lookup-Perm (Permᴰ.cons e d) u k =
      ap₂ (λ p o. if p.0 == k then some p.1 else o) e (lookup-Perm d (and-right _ _ u) k)
  lookup-Perm (Permᴰ.swap {a = x} {b = y} {l = l} e f) u k =
      swapped
      ∙ ap₂ (λ p q. if p.0 == k then some p.1 else if q.0 == k then some q.1 else lookup k l) f e
    where
      swapped :
          (if x.0 == k then some x.1 else if y.0 == k then some y.1 else lookup k l)
          ≡ (if y.0 == k then some y.1 else if x.0 == k then some x.1 else lookup k l)
      swapped =
          ground
            (arith, string_eq.test_iff x.0 k, string_eq.test_iff y.0 k, string_eq.test_iff y.0 x.0)
  lookup-Perm (Permᴰ.trans d e) u k =
      lookup-Perm d u k ∙ lookup-Perm e (sym (distinct-Perm (keys-Perm d)) ∙ u) k

pub keys-view : (fields : Fields) → keys (view fields) ≡ keys fields
keys-view [] = refl
keys-view ((k, e) ∷ rest) = ap (λ ks. k ∷ ks) (keys-view rest)

text_or_empty : Option String → String
text_or_empty none = ""
text_or_empty (some v) = v

entry_text-view :
    (k : String) (fields : Fields)
    → entry_text (lookup k fields) ≡ text_or_empty (lookup k (view fields))
unfolding text_or_empty entry_text
entry_text-view k [] = refl
entry_text-view k ((j, e) ∷ rest) = elim (Bool-cases (j == k)) [
  | inl same ↦ rw (same) refl
  | inr other ↦ rw (other, entry_text-view k rest) refl
]

digest_texts-Perm :
    (ks : List String) (fields others : Fields)
    → Permᴰ (view fields) (view others)
    → distinct (keys fields) ≡ true
    → digest_texts ks fields ≡ digest_texts ks others
unfolding digest_texts
digest_texts-Perm [] fields others d u = refl
digest_texts-Perm (k ∷ ks) fields others d u =
    ap₂ (λ v r. k <> (v <> r))
      (entry_text-view k fields
        ∙ ap text_or_empty (lookup-Perm d (ap distinct (keys-view fields) ∙ u) k)
        ∙ sym (entry_text-view k others))
      (digest_texts-Perm ks fields others d u)

-- The digest is the same if the keys and what is fed for them are the same, in any order.
pub hexdigest-Perm :
    (sha1 : String → String) (fields others : Fields)
    → Permᴰ (view fields) (view others)
    → distinct (keys fields) ≡ true
    → hexdigest sha1 fields ≡ hexdigest sha1 others
unfolding hexdigest
hexdigest-Perm sha1 fields others d u = ap sha1 (
    digest_texts-Perm (sorted (keys fields)) fields others d u
    ∙ ap (λ ks. digest_texts ks others)
        (sorted-Perm (
          subst (λ ks. Permᴰ ks (keys others)) (keys-view fields)
            (subst (λ ks. Permᴰ (keys (view fields)) ks) (keys-view others) (keys-Perm d)))))
