-- ===== src/Merkle/Hasher/Exchange.antt =====
-- Two fields that are added to a hasher, in either order.
use zentral.Merkle.Hasher.Adding.{
  contribution-keys, add_field-of, contribution-SameValue, add_field-steps, added_by, contribution,
  SameValue, contains-append, contains-view, view-append,
}
use mathlib.Core.Path.{ap₂}
use mathlib.Core.List.Permᴰ
use mathlib.Core.List.{Permᴰ, append_assoc, append-nil}
use zentral.Base.{
  Bool, List, String, [], ap, arith, contains, false, or-false_left, refl, string_eq, subst, sym,
  true, ◌++◌, ◌==◌, ◌||◌, ◌∙◌, ◌∷◌, ◌≡◌, nat_eq, option_eq, bool_eq,
}
use zentral.Merkle.Results.{Result, ok, err, err-ne-ok, ok-injective}
use zentral.Merkle.Hasher.{Value, Entry, Fields, keys, add_field, entry_of, is_empty_value}
use zentral.Merkle.Hasher.Order.{view, distinct}

-- lists that get two more parts, in either order
pub Perm-parts :
    {A : Type 0} {a b : List A} (c d : List A) → Permᴰ a b → Permᴰ ((a ++ c) ++ d) ((b ++ d) ++ c)
Perm-parts {a = a} {b = b} c d p =
    subst (λ l. Permᴰ l ((b ++ d) ++ c)) (sym (append_assoc a c d))
      (subst (λ l. Permᴰ (a ++ (c ++ d)) l) (sym (append_assoc b d c))
        (Permᴰ.trans (Permᴰ.append_right (c ++ d) p) (Permᴰ.append_left b (Permᴰ.append_comm c d))))

view_parts : (hs c d : Fields) → view ((hs ++ c) ++ d) ≡ (view hs ++ view c) ++ view d
view_parts hs c d = view-append (hs ++ c) d ∙ ap (λ l. l ++ view d) (view-append hs c)

distinct_one :
    (k : String) (e : Entry) (hs : Fields)
    → distinct (keys hs) ≡ true
    → contains (keys hs) k ≡ false
    → distinct (keys (hs ++ ((k, e) ∷ []))) ≡ true
distinct_one k e [] u free = refl
distinct_one k e ((j, x) ∷ hs) u free = ground (
  arith,
  distinct_one k e hs,
  contains-append hs ((k, e) ∷ []) j,
  string_eq.test_iff k j,
  string_eq.test_iff j k,
)

distinct_by :
    (k : String) (empty : Bool) (r : Result Entry) (hs c : Fields)
    → distinct (keys hs) ≡ true
    → contains (keys hs) k ≡ false
    → added_by (λ s. s) k empty r ≡ ok c
    → distinct (keys (hs ++ c)) ≡ true
distinct_by k true r hs c u free h =
    ap (λ d. distinct (keys d)) (ap (λ d. hs ++ d) (sym (ok-injective h)) ∙ append-nil hs) ∙ u
distinct_by k false (ok e) hs c u free h =
    ap (λ d. distinct (keys (hs ++ d))) (sym (ok-injective h)) ∙ distinct_one k e hs u free
distinct_by k false (err raised) hs c u free h = err-ne-ok h

-- A value that is the same but for the order of a list adds the same, to a hasher with the same view.
module _ (make_naive : String → String) where
  -- adding keeps the keys apart
  pub add_field-distinct :
      (k : String) (x : Value) (hs added : Fields)
      → distinct (keys hs) ≡ true
      → add_field make_naive k x hs ≡ ok added
      → distinct (keys added) ≡ true
  unfolding contribution
  add_field-distinct k x hs added u h =
      let s = add_field-steps make_naive k x hs added h in
      ap (λ l. distinct (keys l)) s.1.1.1.1
      ∙ distinct_by k (is_empty_value x) (entry_of make_naive x) hs s.1.1.0 u s.1.0 s.1.1.1.0

  pub add_field-SameValue :
      (k : String) (x y : Value) (hs ks added : Fields)
      → SameValue x y
      → Permᴰ (view hs) (view ks)
      → add_field make_naive k x hs ≡ ok added
      → (other : Fields) × ((add_field make_naive k y ks ≡ ok other)
          × Permᴰ (view added) (view other))
  add_field-SameValue k x y hs ks added v p h =
      let s = add_field-steps make_naive k x hs added h in
      let c = s.1.1.0 in
      let d = contribution-SameValue make_naive k x y c v s.1.1.1.0 in
      (
        ks ++ d.0,
        (
          add_field-of make_naive k y ks d.0 s.0 (sym (contains-view hs ks k p) ∙ s.1.0) d.1.0,
          subst (λ l. Permᴰ l (view (ks ++ d.0)))
              (sym (ap view s.1.1.1.1 ∙ view-append hs c ∙ ap (λ w. view hs ++ w) d.1.1))
              (subst (λ l. Permᴰ (view hs ++ view d.0) l) (sym (view-append ks d.0))
                (Permᴰ.append_right (view d.0) p)),
        ),
      )

  pub add_field-swap :
      (k j : String) (x y : Value) (hs ks first second : Fields)
      → (k == j) ≡ false
      → Permᴰ (view hs) (view ks)
      → add_field make_naive k x hs ≡ ok first
      → add_field make_naive j y first ≡ ok second
      → (other : Fields) × ((add_field make_naive j y ks ≡ ok other)
          × ((last : Fields) × ((add_field make_naive k x other ≡ ok last)
                × Permᴰ (view second) (view last))))
  add_field-swap k j x y hs ks first second differ p h g =
      let s = add_field-steps make_naive k x hs first h in
      let t = add_field-steps make_naive j y first second g in
      let c = s.1.1.0 in
      let d = t.1.1.0 in
      (
        ks ++ d,
        (
          add_field-of make_naive j y ks d t.0
              (sym (contains-view hs ks j p) ∙ or-false_left _ _ (free_both c s.1.1.1.1 t.1.0))
              t.1.1.1.0,
          (
            (ks ++ d) ++ c,
            (
              add_field-of make_naive k x (ks ++ d) c s.0
                  (contains-append ks d k
                    ∙ ap₂ (λ a b. a || b) (sym (contains-view hs ks k p) ∙ s.1.0)
                        (contribution-keys make_naive j y d k flipped t.1.1.1.0))
                  s.1.1.1.0,
              subst (λ l. Permᴰ l (view ((ks ++ d) ++ c)))
                  (sym (ap view (t.1.1.1.1 ∙ ap (λ l. l ++ d) s.1.1.1.1) ∙ view_parts hs c d))
                  (subst (λ l. Permᴰ ((view hs ++ view c) ++ view d) l) (sym (view_parts ks d c))
                    (Perm-parts (view c) (view d) p)),
            ),
          ),
        ),
      )
    where
      flipped : (j == k) ≡ false
      flipped = ground (arith, string_eq.test_iff k j, string_eq.test_iff j k)

      free_both :
          (c : Fields)
          → first ≡ hs ++ c
          → contains (keys first) j ≡ false
          → (contains (keys hs) j || contains (keys c) j) ≡ false
      free_both c e f = sym (contains-append hs c j) ∙ ap (λ l. contains (keys l) j) (sym e) ∙ f
