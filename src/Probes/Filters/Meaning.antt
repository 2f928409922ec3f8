-- ===== src/Probes/Filters/Meaning.antt =====
-- What a payload filter of zentral/core/probes/base.py means.
use mathlib.Core.List.{Permᴰ}
use mathlib.Core.Path.{ap₂}
use mathlib.Core.Option
use zentral.Base.{
  All, Bool, Bool-cases, List, Option, String, [], all, and-left, and-right, ap, arith, beq-eq_of,
  beq_refl, contains, false, if◌then◌else◌, inl, inr, is_empty, none, not, overlaps, refl, some,
  subst, sym, true, ◌&&◌, ◌==◌, ◌||◌, ◌↔◌, ◌∙◌, ◌∷◌, ◌≡◌, ◌⊎◌, nat_eq, string_eq, option_eq,
  bool_eq,
}
use zentral.Probes.Filters.{
  PayloadItem, payload_items, payload_filter, common_values, test_item, test_event_payload,
  is_operator, keep_item,
}
use zentral.Probes.Payload.{Value, get_flattened_payload_values}
use zentral.Probes.Payload.Values.{IsIn, Reaches, get_flattened_payload_values_lem}
use zentral.Probes.Attributes.{split_attribute}

-- A filter's value that the attribute reaches in the payload.
abbrev pub Shares : (Value → String) → Value → PayloadItem → Type 0
Shares str payload d =
    let path = split_attribute d.attribute in
    (s : String) × IsIn s d.values × Reaches str payload path.0 path.1 s

abbrev pub Decides : Bool → Type 0 → Type 0
Decides true P = P
Decides false P = ¬ P

-- An item with values holds if one of them is reached (IN), or if none is (NOT_IN).
abbrev pub Holds : (Value → String) → Value → PayloadItem → Type 0
Holds str payload d =
    (is_empty d.values ≡ true) ⊎ Decides (d.operator == "IN") (Shares str payload d)

pub all-Permutation : {A : Type 0} (q : A → Bool) (k l : List A) → Permᴰ k l → all q k ≡ all q l
all-Permutation q k l Permᴰ.nil = refl
all-Permutation q k l (Permᴰ.cons {l₁ = k'} {l₂ = l'} e p) =
    ap₂ (λ a b. a && b) (ap q e) (all-Permutation q k' l' p)
all-Permutation q k l (Permᴰ.swap {a = a} {b = b} {l = m} e f) =
    and_swap (q a) (q b) (all q m) ∙ ap₂ (λ x y. x && (y && all q m)) (ap q f) (ap q e)
  where
    and_swap : (x y z : Bool) → (x && (y && z)) ≡ (y && (x && z))
    and_swap x y z = ground arith
all-Permutation q k l (Permᴰ.trans {l₂ = m} p r) = all-Permutation q k m p ∙ all-Permutation q m l r

contains-IsIn : (xs : List String) (s : String) → contains xs s ≡ true → IsIn s xs
contains-IsIn [] s h = cc
contains-IsIn (x ∷ xs) s h = elim (Bool-cases (x == s)) [
  | inl e ↦ inl (beq-eq_of x s e)
  | inr e ↦ inr (contains-IsIn xs s (rw e at h))
]

IsIn-contains : (xs : List String) (s : String) → IsIn s xs → contains xs s ≡ true
IsIn-contains [] s h = absurd h
IsIn-contains (x ∷ xs) s (inl e) = rw (e, beq_refl s) refl
IsIn-contains (x ∷ xs) s (inr h) = rw (IsIn-contains xs s h) (ground arith)

overlaps-shared :
    (xs ys : List String) → overlaps xs ys ≡ true → (s : String) × IsIn s xs × IsIn s ys
overlaps-shared [] ys h = cc
overlaps-shared (x ∷ xs) ys h = elim (Bool-cases (contains ys x)) [
  | inl e ↦ (x, inl refl, contains-IsIn ys x e)
  | inr e ↦ (let (s, i, j) = overlaps-shared xs ys (rw e at h) in (s, inr i, j))
]

shared-overlaps : (xs ys : List String) (s : String) → IsIn s xs → IsIn s ys → overlaps xs ys ≡ true
shared-overlaps [] ys s i j = absurd i
shared-overlaps (x ∷ xs) ys s (inl e) j =
    rw (IsIn-contains ys x (subst (λ t. IsIn t ys) (sym e) j)) refl
shared-overlaps (x ∷ xs) ys s (inr i) j = rw (shared-overlaps xs ys s i j) (ground arith)

common-Shares :
    (str : Value → String) (payload : Value) (d : PayloadItem)
    → (common_values str payload d ≡ true) ↔ Shares str payload d
common-Shares str payload d =
    let path = split_attribute d.attribute in
    let found = get_flattened_payload_values str payload path.0 path.1 in
    (
      (λ h.
          let (s, i, j) = overlaps-shared d.values found h in
          (s, i, (get_flattened_payload_values_lem str payload path.0 path.1 s).0 j)),
      (λ (s, i, r).
          shared-overlaps d.values found s i
            ((get_flattened_payload_values_lem str payload path.0 path.1 s).1 r)),
    )

decides_of :
    (b c : Bool) (P : Type 0) → ((c ≡ true) ↔ P) → (if b then c else not c) ≡ true → Decides b P
decides_of true c P h e = h.0 e
decides_of false c P h e = λ p. absurd (not_both c e (h.1 p))
  where
    not_both : (x : Bool) → not x ≡ true → x ≡ true → ⊥
    not_both x f g = ground arith

of_decides :
    (b c : Bool) (P : Type 0) → ((c ≡ true) ↔ P) → Decides b P → (if b then c else not c) ≡ true
of_decides true c P h d = h.1 d
of_decides false true P h d = absurd (d (h.0 refl))
of_decides false false P h d = refl

test_known :
    (i n c : Bool)
    → (i || n) ≡ true
    → (i && n) ≡ false
    → not ((i && not c) || (n && c)) ≡ (if i then c else not c)
test_known i n c h k = ground arith

one_operator : (o : String) → (o == "IN" && o == "NOT_IN") ≡ false
one_operator o = elim (Bool-cases (o == "IN")) [
  | inl e ↦ rw e (rw (beq-eq_of o "IN" e) refl)
  | inr e ↦ rw e refl
]

test_item_lem :
    (str : Value → String) (payload : Value) (d : PayloadItem)
    → is_operator d.operator ≡ true
    → test_item str payload d ≡ (
        if d.operator == "IN"
        then common_values str payload d
        else not (common_values str payload d))
unfolding test_item
test_item_lem str payload d h =
    test_known (d.operator == "IN") (d.operator == "NOT_IN") (common_values str payload d) h
      (one_operator d.operator)

some_injective : {A : Type 0} (a b : A) → some a ≡ some b → a ≡ b
some_injective a b h = cc

-- What is left of the items of a filter decides as all of them do.
kept :
    (str : Value → String) (payload : Value) (d : PayloadItem) (o : Option (List PayloadItem))
    (items : List PayloadItem)
    → keep_item d o ≡ some items
    → (rest : List PayloadItem) × (o ≡ some rest)
      × (all (test_item str payload) items
          ≡ ((is_empty d.values || test_item str payload d) && all (test_item str payload) rest))
unfolding keep_item
kept str payload d none items h = cc
kept str payload d (some rest) items h = (rest, refl, kept_by (is_empty d.values) h)
  where
    kept_by :
        (b : Bool)
        → some (if b then rest else d ∷ rest) ≡ some items
        → all (test_item str payload) items
          ≡ ((b || test_item str payload d) && all (test_item str payload) rest)
    kept_by true e = ap (all (test_item str payload)) (sym (some_injective rest items e))
    kept_by false e = ap (all (test_item str payload)) (sym (some_injective (d ∷ rest) items e))

-- Each item with a known operator decides as its meaning says.
item_lem :
    (str : Value → String) (payload : Value) (d : PayloadItem)
    → is_operator d.operator ≡ true
    → ((is_empty d.values || test_item str payload d) ≡ true) ↔ Holds str payload d
item_lem str payload d h = (
  (λ e. elim (Bool-cases (is_empty d.values)) [
    | inl k ↦ inl k
    | inr k ↦ inr (
        decides_of (d.operator == "IN") _ _ (common-Shares str payload d)
          (sym (test_item_lem str payload d h) ∙ rw k at e))
  ]),
  (λ x. elim x [
    | inl k ↦ rw k refl
    | inr y ↦
        (let t : test_item str payload d ≡ true =
            test_item_lem str payload d h
            ∙ of_decides (d.operator == "IN") _ _ (common-Shares str payload d) y in
          ground (arith, t))
  ]),
)

items_lem :
    (str : Value → String) (payload : Value) (ds items : List PayloadItem)
    → payload_items ds ≡ some items
    → (all (test_item str payload) items ≡ true) ↔ All (Holds str payload) ds
unfolding payload_items
items_lem str payload [] items h =
    ((λ e. tt), (λ e. ap (all (test_item str payload)) (sym (some_injective [] items h))))
items_lem str payload (d ∷ ds) items h = elim (Bool-cases (is_operator d.operator)) [
  | inl k ↦
      (let (rest, e, split) = kept str payload d (payload_items ds) items (rw k at h) in
        let (to, from) = items_lem str payload ds rest e in
        let (here, back) = item_lem str payload d k in
        (
          (λ a. (here (and-left _ _ (sym split ∙ a)), to (and-right _ _ (sym split ∙ a)))),
          (λ (x, xs). split ∙ ap₂ (λ a b. a && b) (back x) (from xs)),
        ))
  | inr k ↦ cc
]

-- If `sort` rearranges the items, a payload filter that was made accepts an event exactly if all
-- the items that have values hold: the attribute reaches one of the values of an IN item, and none
-- of those of a NOT_IN item.
pub test_event_payload_lem :
    (str : Value → String) (sort : List PayloadItem → List PayloadItem)
    → ((l : List PayloadItem) → Permᴰ (sort l) l)
    → (ds filter : List PayloadItem) (payload : Value) → payload_filter sort ds ≡ some filter
    → (test_event_payload str filter payload ≡ true) ↔ All (Holds str payload) ds
unfolding payload_filter test_event_payload
test_event_payload_lem str sort sorts ds filter payload h = go (payload_items ds) refl h
  where
    go :
        (o : Option (List PayloadItem))
        → payload_items ds ≡ o
        → Option.map sort o ≡ some filter
        → (all (test_item str payload) filter ≡ true) ↔ All (Holds str payload) ds
    go none e k = cc
    go (some items) e k =
        let same : all (test_item str payload) filter ≡ all (test_item str payload) items =
          ap (all (test_item str payload)) (sym (some_injective (sort items) filter k))
          ∙ all-Permutation (test_item str payload) (sort items) items (sorts items) in
        let (to, from) = items_lem str payload ds items e in
        ((λ a. to (sym same ∙ a)), (λ a. same ∙ from a))
