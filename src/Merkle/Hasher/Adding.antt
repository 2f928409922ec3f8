-- ===== src/Merkle/Hasher/Adding.antt =====
-- What a field adds to the hasher, and two fields that are added in either order.
use mathlib.Core.Path.{ap₂}
use mathlib.Core.List.{Permᴰ, append-nil}
use zentral.Base.{
  Bool, List, String, [], all, ap, arith, contains, false, if◌then◌else◌, is_empty, refl, some, sym,
  true, ◌&&◌, ◌++◌, ◌==◌, ◌||◌, ◌∙◌, ◌∷◌, ◌≡◌, nat_eq, string_eq, option_eq, bool_eq,
}
use zentral.Merkle.Results.{◌>>=◌, Error, Result, ok, err, err-ne-ok, ok-injective}
use zentral.Merkle.Sorting.{sorted, sorted-Perm}
use zentral.Merkle.Hasher.{
  Value, Entry, Fields, keys, add_field, entry_of, is_empty_value, is_hash, join, entry_text,
}
use zentral.Merkle.Hasher.Order.{view, contains-Perm, keys-Perm, keys-view}

-- Values that are the same, but for the order of a list.
pub data SameValue : Value → Value → Type 0 where
  same : {x y : Value} → x ≡ y → SameValue x y
  texts_in_order : {l m : List String} → Permᴰ l m → SameValue (Value.texts l) (Value.texts m)

pub view-append : (hs c : Fields) → view (hs ++ c) ≡ view hs ++ view c
view-append [] c = refl
view-append ((k, e) ∷ hs) c = ap (λ l. (k, entry_text (some e)) ∷ l) (view-append hs c)

pub contains-append :
    (hs c : Fields) (k : String)
    → contains (keys (hs ++ c)) k ≡ (contains (keys hs) k || contains (keys c) k)
contains-append [] c k = refl
contains-append ((j, e) ∷ hs) c k = ground (arith, contains-append hs c k)

pub contains-view :
    (hs ks : Fields) (k : String)
    → Permᴰ (view hs) (view ks)
    → contains (keys hs) k ≡ contains (keys ks) k
contains-view hs ks k d =
    ap (λ l. contains l k) (sym (keys-view hs))
    ∙ contains-Perm (keys-Perm d) k
    ∙ ap (λ l. contains l k) (keys-view ks)

all-Perm : (p : String → Bool) {l m : List String} → Permᴰ l m → all p l ≡ all p m
all-Perm p Permᴰ.nil = refl
all-Perm p (Permᴰ.cons e d) = ap₂ (λ x b. p x && b) e (all-Perm p d)
all-Perm p (Permᴰ.swap {a = x} {b = y} {l = l} e f) =
    and_swap (p x) (p y) (all p l) ∙ ap₂ (λ z w. p z && (p w && all p l)) f e
  where
    and_swap : (a b c : Bool) → (a && (b && c)) ≡ (b && (a && c))
    and_swap a b c = ground arith
all-Perm p (Permᴰ.trans d e) = all-Perm p d ∙ all-Perm p e

is_empty-Perm : {l m : List String} → Permᴰ l m → is_empty l ≡ is_empty m
is_empty-Perm Permᴰ.nil = refl
is_empty-Perm (Permᴰ.cons e d) = refl
is_empty-Perm (Permᴰ.swap e f) = refl
is_empty-Perm (Permᴰ.trans d e) = is_empty-Perm d ∙ is_empty-Perm e

module _ (make_naive : String → String) (k : String) where
  -- the entries that a field adds, by whether its value is empty
  abbrev pub added_by : Bool → Result Entry → Result Fields
  added_by true entry = ok []
  added_by false (ok e) = ok ((k, e) ∷ [])
  added_by false (err raised) = err raised

  unfoldable pub contribution : Value → Result Fields
  contribution x = added_by (is_empty_value x) (entry_of make_naive x)

  contribution-texts :
      (l : List String)
      → contribution (Value.texts l)
        ≡ added_by
            (is_empty l)
            (if all is_hash l then ok (Entry.many l) else err Error.assertion_error)
  unfolding contribution is_empty_value entry_of
  contribution-texts [] = refl
  contribution-texts (h ∷ l) = refl

  texts_added :
      (l m : List String) (empty hashes : Bool) (c : Fields)
      → sorted l ≡ sorted m
      → added_by empty (if hashes then ok (Entry.many l) else err Error.assertion_error) ≡ ok c
      → (d : Fields) × ((added_by empty
              (if hashes then ok (Entry.many m) else err Error.assertion_error)
            ≡ ok d)
          × (view c ≡ view d))
  unfolding entry_text
  texts_added l m true hashes c e h = ([], (refl, ap view (sym (ok-injective h))))
  texts_added l m false true c e h = (
    (k, Entry.many m) ∷ [],
    (refl, ap view (sym (ok-injective h)) ∙ ap (λ s. (k, join s) ∷ []) e),
  )
  texts_added l m false false c e h = err-ne-ok h

  pub contribution-SameValue :
      (x y : Value) (c : Fields)
      → SameValue x y
      → contribution x ≡ ok c
      → (d : Fields) × ((contribution y ≡ ok d) × (view c ≡ view d))
  contribution-SameValue x y c (same e) h = (c, (ap contribution (sym e) ∙ h, refl))
  contribution-SameValue x y c (texts_in_order {l = l} {m = m} p) h =
      let t =
        texts_added l m (is_empty l) (all is_hash l) c (sorted-Perm p)
          (sym (contribution-texts l) ∙ h) in
      (
        t.0,
        (
          contribution-texts m
              ∙ ap₂ (λ a b. added_by a (if b then ok (Entry.many m) else err Error.assertion_error))
                  (sym (is_empty-Perm p)) (sym (all-Perm is_hash p))
              ∙ t.1.0,
          t.1.1,
        ),
      )

  one_key :
      (empty : Bool) (r : Result Entry) (c : Fields) (j : String)
      → (k == j) ≡ false
      → added_by empty r ≡ ok c
      → contains (keys c) j ≡ false
  one_key true r c j other h = ap (λ d. contains (keys d) j) (sym (ok-injective h))
  one_key false (ok e) c j other h =
      ap (λ d. contains (keys d) j) (sym (ok-injective h)) ∙ ap (λ b. b || false) other
  one_key false (err raised) c j other h = err-ne-ok h

  -- other keys stay free
  pub contribution-keys :
      (x : Value) (c : Fields) (j : String)
      → (k == j) ≡ false
      → contribution x ≡ ok c
      → contains (keys c) j ≡ false
  unfolding contribution
  contribution-keys x c j other h = one_key (is_empty_value x) (entry_of make_naive x) c j other h

  steps_by :
      (unnamed taken empty : Bool) (r : Result Entry) (hs added : Fields)
      → (if unnamed
          then err Error.value_error
          else if taken
          then err Error.value_error
          else if empty
          then ok hs
          else r >>= λ e. ok (hs ++ ((k, e) ∷ [])))
        ≡ ok added
      → (unnamed ≡ false)
        × ((taken ≡ false) × ((c : Fields) × ((added_by empty r ≡ ok c) × (added ≡ hs ++ c))))
  steps_by true taken empty r hs added h = err-ne-ok h
  steps_by false true empty r hs added h = err-ne-ok h
  steps_by false false true r hs added h =
      (refl, (refl, ([], (refl, sym (ok-injective h) ∙ sym (append-nil hs)))))
  steps_by false false false (ok e) hs added h =
      (refl, (refl, ((k, e) ∷ [], (refl, sym (ok-injective h)))))
  steps_by false false false (err raised) hs added h = err-ne-ok h

  pub add_field-steps :
      (x : Value) (hs added : Fields)
      → add_field make_naive k x hs ≡ ok added
      → ((k == "") ≡ false)
        × ((contains (keys hs) k ≡ false)
            × ((c : Fields) × ((contribution x ≡ ok c) × (added ≡ hs ++ c))))
  unfolding contribution add_field
  add_field-steps x hs added h =
      steps_by (k == "") (contains (keys hs) k) (is_empty_value x) (entry_of make_naive x) hs added
        h

  of_by :
      (empty : Bool) (r : Result Entry) (hs c : Fields)
      → added_by empty r ≡ ok c
      → (if empty then ok hs else r >>= λ e. ok (hs ++ ((k, e) ∷ []))) ≡ ok (hs ++ c)
  of_by true r hs c h = ap ok (sym (append-nil hs) ∙ ap (λ d. hs ++ d) (ok-injective h))
  of_by false (ok e) hs c h = ap ok (ap (λ d. hs ++ d) (ok-injective h))
  of_by false (err raised) hs c h = err-ne-ok h

  pub add_field-of :
      (x : Value) (hs c : Fields)
      → (k == "") ≡ false
      → contains (keys hs) k ≡ false
      → contribution x ≡ ok c
      → add_field make_naive k x hs ≡ ok (hs ++ c)
  unfolding contribution add_field
  add_field-of x hs c named free h =
      rw (named, free) (of_by (is_empty_value x) (entry_of make_naive x) hs c h)
