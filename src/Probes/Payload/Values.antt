-- ===== src/Probes/Payload/Values.antt =====
-- Which values of a payload an attribute reaches, whatever the order in which they are read
-- (`get_flattened_payload_values` of zentral/core/probes/base.py).
use zentral.Base.{
  Bool-cases, List, Option, String, [], ap, false, if◌then◌else◌, inl, inr, none, refl, some, subst,
  sym, true, ◌++◌, ◌==◌, ◌↔◌, ◌∷◌, ◌≡◌, ◌⊎◌, nat_eq, string_eq, option_eq,
}
use zentral.Probes.Payload.{
  Value, null, scalar, array, object, Elements, no_elements, item, Members, no_members, member,
  strings, leaf_strings, get_flattened_payload_values, flattened_items, flattened_field,
}

-- Is this an item of the array?
abbrev pub IsItem : Value → Elements → Type 0
IsItem v no_elements = ⊥
IsItem v (item w vs) = (w ≡ v) ⊎ IsItem v vs

abbrev pub value_at : String → Members → Option Value
value_at attr no_members = none
value_at attr (member k v fs) = if k == attr then some v else value_at attr fs

-- A value has this text, or it is an array with an item that has.
pub data HasText (str : Value → String) : Value → String → Type 0 where
  of_scalar : (s : String) → HasText str (scalar s) (str (scalar s))
  of_object : (fs : Members) → HasText str (object fs) (str (object fs))
  of_item : (v : Value) (vs : Elements) → IsItem v vs → HasText str (array vs) (str v)

-- The attributes lead from a payload to a text: through every item of an array, and through the
-- member of an object.
pub data Reaches (str : Value → String) : Value → String → List String → String → Type 0 where
  through_item :
      (v : Value) (vs : Elements) (attr : String) (attrs : List String) (s : String)
      → IsItem v vs
      → Reaches str v attr attrs s
      → Reaches str (array vs) attr attrs s
  at_leaf :
      (fs : Members) (attr : String) (v : Value) (s : String)
      → value_at attr fs ≡ some v
      → HasText str v s
      → Reaches str (object fs) attr [] s
  through_field :
      (fs : Members) (attr next : String) (attrs : List String) (v : Value) (s : String)
      → value_at attr fs ≡ some v
      → Reaches str v next attrs s
      → Reaches str (object fs) attr (next ∷ attrs) s

-- Membership with its place.
abbrev pub IsIn : String → List String → Type 0
IsIn s [] = ⊥
IsIn s (t ∷ ts) = (t ≡ s) ⊎ IsIn s ts

IsIn-append_left : (s : String) (ts us : List String) → IsIn s ts → IsIn s (ts ++ us)
IsIn-append_left s [] us h = absurd h
IsIn-append_left s (t ∷ ts) us (inl e) = inl e
IsIn-append_left s (t ∷ ts) us (inr h) = inr (IsIn-append_left s ts us h)

IsIn-append_right : (s : String) (ts us : List String) → IsIn s us → IsIn s (ts ++ us)
IsIn-append_right s [] us h = h
IsIn-append_right s (t ∷ ts) us h = inr (IsIn-append_right s ts us h)

IsIn-append : (s : String) (ts us : List String) → IsIn s (ts ++ us) → IsIn s ts ⊎ IsIn s us
IsIn-append s [] us h = inr h
IsIn-append s (t ∷ ts) us (inl e) = inl (inl e)
IsIn-append s (t ∷ ts) us (inr h) = elim (IsIn-append s ts us h) [
  | inl a ↦ inl (inr a)
  | inr b ↦ inr b
]

IsIn-strings :
    (str : Value → String) (v : Value) (vs : Elements) → IsItem v vs → IsIn (str v) (strings str vs)
unfolding strings
IsIn-strings str v no_elements h = absurd h
IsIn-strings str v (item w vs) (inl e) = inl (ap str e)
IsIn-strings str v (item w vs) (inr h) = inr (IsIn-strings str v vs h)

strings-IsItem :
    (str : Value → String) (s : String) (vs : Elements)
    → IsIn s (strings str vs)
    → (v : Value) × IsItem v vs × (str v ≡ s)
unfolding strings
strings-IsItem str s no_elements h = absurd h
strings-IsItem str s (item w vs) (inl e) = (w, inl refl, e)
strings-IsItem str s (item w vs) (inr h) =
    let (v, i, e) = strings-IsItem str s vs h in (v, inr i, e)

HasText-IsIn :
    (str : Value → String) (v : Value) (s : String) → HasText str v s → IsIn s (leaf_strings str v)
unfolding leaf_strings
HasText-IsIn str v s (of_scalar t) = inl refl
HasText-IsIn str v s (of_object fs) = inl refl
HasText-IsIn str v s (of_item w vs i) = IsIn-strings str w vs i

HasText-of :
    (str : Value → String) (v : Value) (s : String) → IsIn s (leaf_strings str v) → HasText str v s
unfolding leaf_strings
HasText-of str null s h = absurd h
HasText-of str (scalar t) s (inl e) = subst (HasText str (scalar t)) e (of_scalar t)
HasText-of str (scalar t) s (inr h) = absurd h
HasText-of str (object fs) s (inl e) = subst (HasText str (object fs)) e (of_object fs)
HasText-of str (object fs) s (inr h) = absurd h
HasText-of str (array vs) s h =
    let (v, i, e) = strings-IsItem str s vs h in subst (HasText str (array vs)) e (of_item v vs i)

value_at_here :
    (attr k : String) (v : Value) (fs : Members)
    → (k == attr) ≡ true
    → value_at attr (member k v fs) ≡ some v
value_at_here attr k v fs h = rw h refl

later_field :
    (str : Value → String) (k : String) (w : Value) (fs : Members) (attr : String)
    (attrs : List String) (s : String)
    → (k == attr) ≡ false
    → Reaches str (object fs) attr attrs s
    → Reaches str (object (member k w fs)) attr attrs s
later_field str k w fs attr attrs s h (at_leaf gs a v t e x) =
    at_leaf (member k w gs) a v t (rw h e) x
later_field str k w fs attr attrs s h (through_field gs a next rest v t e x) =
    through_field (member k w gs) a next rest v t (rw h e) x

later_item :
    (str : Value → String) (w : Value) (vs : Elements) (attr : String) (attrs : List String)
    (s : String)
    → Reaches str (array vs) attr attrs s
    → Reaches str (array (item w vs)) attr attrs s
later_item str w vs attr attrs s (through_item v us a rest t i x) =
    through_item v (item w us) a rest t (inr i) x

mutual
  unfolding get_flattened_payload_values flattened_items flattened_field

  flattened-Reaches :
      (str : Value → String) (p : Value) (attr : String) (attrs : List String) (s : String)
      → IsIn s (get_flattened_payload_values str p attr attrs)
      → Reaches str p attr attrs s
  flattened-Reaches str null attr attrs s h = absurd h
  flattened-Reaches str (scalar t) attr attrs s h = absurd h
  flattened-Reaches str (array vs) attr attrs s h = items-Reaches str vs attr attrs s h
  flattened-Reaches str (object fs) attr attrs s h = field-Reaches str fs attr attrs s h

  items-Reaches :
      (str : Value → String) (vs : Elements) (attr : String) (attrs : List String) (s : String)
      → IsIn s (flattened_items str vs attr attrs)
      → Reaches str (array vs) attr attrs s
  items-Reaches str no_elements attr attrs s h = absurd h
  items-Reaches str (item v vs) attr attrs s h =
      elim (IsIn-append s (get_flattened_payload_values str v attr attrs) _ h) [
        | inl a ↦
            through_item v (item v vs) attr attrs s (inl refl)
              (flattened-Reaches str v attr attrs s a)
        | inr b ↦ later_item str v vs attr attrs s (items-Reaches str vs attr attrs s b)
      ]

  field-Reaches :
      (str : Value → String) (fs : Members) (attr : String) (attrs : List String) (s : String)
      → IsIn s (flattened_field str fs attr attrs)
      → Reaches str (object fs) attr attrs s
  field-Reaches str no_members attr attrs s h = absurd h
  field-Reaches str (member k v fs) attr [] s h = elim (Bool-cases (k == attr)) [
    | inl e ↦
        at_leaf (member k v fs) attr v s (value_at_here attr k v fs e)
          (HasText-of str v s (rw e at h))
    | inr e ↦ later_field str k v fs attr [] s e (field-Reaches str fs attr [] s (rw e at h))
  ]
  field-Reaches str (member k v fs) attr (next ∷ attrs) s h = elim (Bool-cases (k == attr)) [
    | inl e ↦
        through_field (member k v fs) attr next attrs v s (value_at_here attr k v fs e)
          (flattened-Reaches str v next attrs s (rw e at h))
    | inr e ↦
        later_field str k v fs attr (next ∷ attrs) s e
          (field-Reaches str fs attr (next ∷ attrs) s (rw e at h))
  ]

item-IsIn :
    (str : Value → String) (v : Value) (vs : Elements) (attr : String) (attrs : List String)
    (s : String)
    → IsItem v vs
    → IsIn s (get_flattened_payload_values str v attr attrs)
    → IsIn s (flattened_items str vs attr attrs)
unfolding flattened_items
item-IsIn str v no_elements attr attrs s i h = absurd i
item-IsIn str v (item w vs) attr attrs s (inl e) h =
    IsIn-append_left s _ _
      (subst (λ u. IsIn s (get_flattened_payload_values str u attr attrs)) (sym e) h)
item-IsIn str v (item w vs) attr attrs s (inr i) h =
    IsIn-append_right s (get_flattened_payload_values str w attr attrs) _
      (item-IsIn str v vs attr attrs s i h)

some_eq : (v w : Value) → some v ≡ some w → v ≡ w
some_eq v w h = cc

leaf-IsIn :
    (str : Value → String) (fs : Members) (attr : String) (v : Value) (s : String)
    → value_at attr fs ≡ some v
    → IsIn s (leaf_strings str v)
    → IsIn s (flattened_field str fs attr [])
unfolding flattened_field
leaf-IsIn str no_members attr v s h x = cc
leaf-IsIn str (member k w fs) attr v s h x = elim (Bool-cases (k == attr)) [
  | inl e ↦ rw e (subst (λ u. IsIn s (leaf_strings str u)) (sym (some_eq w v (rw e at h))) x)
  | inr e ↦ rw e (leaf-IsIn str fs attr v s (rw e at h) x)
]

nested-IsIn :
    (str : Value → String) (fs : Members) (attr next : String) (attrs : List String) (v : Value)
    (s : String)
    → value_at attr fs ≡ some v
    → IsIn s (get_flattened_payload_values str v next attrs)
    → IsIn s (flattened_field str fs attr (next ∷ attrs))
unfolding flattened_field
nested-IsIn str no_members attr next attrs v s h x = cc
nested-IsIn str (member k w fs) attr next attrs v s h x = elim (Bool-cases (k == attr)) [
  | inl e ↦ rw e (
      subst (λ u. IsIn s (get_flattened_payload_values str u next attrs))
        (sym (some_eq w v (rw e at h))) x)
  | inr e ↦ rw e (nested-IsIn str fs attr next attrs v s (rw e at h) x)
]

Reaches-flattened :
    (str : Value → String) (p : Value) (attr : String) (attrs : List String) (s : String)
    → Reaches str p attr attrs s
    → IsIn s (get_flattened_payload_values str p attr attrs)
unfolding get_flattened_payload_values
Reaches-flattened str p attr attrs s (through_item v vs a rest t i x) =
    item-IsIn str v vs a rest t i (Reaches-flattened str v a rest t x)
Reaches-flattened str p attr attrs s (at_leaf fs a v t e x) =
    leaf-IsIn str fs a v t e (HasText-IsIn str v t x)
Reaches-flattened str p attr attrs s (through_field fs a next rest v t e x) =
    nested-IsIn str fs a next rest v t e (Reaches-flattened str v next rest t x)

-- A text is among the flattened values of a payload exactly if the attributes lead to it, through
-- the items of arrays and the fields of objects.
pub get_flattened_payload_values_lem :
    (str : Value → String) (p : Value) (attr : String) (attrs : List String) (s : String)
    → IsIn s (get_flattened_payload_values str p attr attrs) ↔ Reaches str p attr attrs s
get_flattened_payload_values_lem str p attr attrs s =
    (flattened-Reaches str p attr attrs s, Reaches-flattened str p attr attrs s)
