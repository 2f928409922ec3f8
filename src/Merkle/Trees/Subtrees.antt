-- ===== src/Merkle/Trees/Subtrees.antt =====
-- The loop of `prepare_commit_tree` on a list that has been reordered.
use mathlib.Core.List.Permᴰ
use mathlib.Core.List.{Permᴰ}
use zentral.Base.{
  Bool, List, String, [], any-append, ap, arith, contains, false, if◌then◌else◌, or-false_left,
  or-false_right, refl, string_eq, subst, sym, true, ◌++◌, ◌==◌, ◌||◌, ◌∙◌, ◌∷◌, ◌≡◌, nat_eq,
  option_eq, bool_eq,
}
use zentral.Merkle.Results.{
  Error, Result, ok, err, ◌>>=◌, err-ne-ok, ok-injective, steps_of, ok_bind,
}
use zentral.Merkle.Hasher.Order.{contains-Perm}
use zentral.Merkle.Hasher.Exchange.{Perm-parts}
use zentral.Merkle.Trees.{Tree, Trees, prepare_commit_tree, prepare_subtrees, hash_text}

module _ (sha1 : String → String) (make_naive : String → String) where
  -- the other tree is prepared as well, and has the same hash
  unfoldable pub Reaches : Tree → Tree → Type 0
  Reaches u p =
      (q : Tree) × ((prepare_commit_tree sha1 make_naive u ≡ ok q) × (hash_text p ≡ hash_text q))

  unfoldable pub ReachesTrees : Trees → List String → Trees × List String → Type 0
  ReachesTrees us m q =
      (r : Trees × List String) × ((prepare_subtrees sha1 make_naive us m ≡ ok r) × Permᴰ q.1 r.1)

  abbrev pub MovesTrees : Trees → Trees → Type 0
  MovesTrees ts us =
      (l m : List String) (q : Trees × List String)
      → Permᴰ l m
      → prepare_subtrees sha1 make_naive ts l ≡ ok q
      → ReachesTrees us m q

  -- what a turn of the loop that returns has gone through
  record Accepted (t : Tree) (ts : Trees) (l : List String) (q : Trees × List String) : Type 0 where
    p : Tree
    s : Trees × List String
    tree : prepare_commit_tree sha1 make_naive t ≡ ok p
    free : contains l (hash_text p) ≡ false
    others : prepare_subtrees sha1 make_naive ts (l ++ (hash_text p ∷ [])) ≡ ok s
    ends : s.1 ≡ q.1

  accepted_if :
      (b : Bool) (p : Tree) (r : Result (Trees × List String)) (q : Trees × List String)
      → (if b then err Error.mto_error else r >>= λ s. ok (Trees.cons p s.0, s.1)) ≡ ok q
      → (b ≡ false) × ((s : Trees × List String) × ((r ≡ ok s) × (s.1 ≡ q.1)))
  accepted_if true p r q h = err-ne-ok h
  accepted_if false p (ok s) q h = (refl, (s, (refl, ap (λ x. x.1) (ok-injective h))))
  accepted_if false p (err raised) q h = err-ne-ok h

  cons-Accepted :
      (t : Tree) (ts : Trees) (l : List String) (q : Trees × List String)
      → prepare_subtrees sha1 make_naive (Trees.cons t ts) l ≡ ok q
      → Accepted t ts l q
  unfolding prepare_subtrees
  cons-Accepted t ts l q h =
      let a = steps_of (prepare_commit_tree sha1 make_naive t) _ q h in
      let b =
        accepted_if (contains l (hash_text a.0)) a.0
          (prepare_subtrees sha1 make_naive ts (l ++ (hash_text a.0 ∷ []))) q a.1.1 in
      record { p = a.0; s = b.1.0; tree = a.1.0; free = b.0; others = b.1.1.0; ends = b.1.1.1 }

  cons-of :
      (t : Tree) (ts : Trees) (l : List String) (p : Tree) (s : Trees × List String)
      → prepare_commit_tree sha1 make_naive t ≡ ok p
      → contains l (hash_text p) ≡ false
      → prepare_subtrees sha1 make_naive ts (l ++ (hash_text p ∷ [])) ≡ ok s
      → prepare_subtrees sha1 make_naive (Trees.cons t ts) l ≡ ok (Trees.cons p s.0, s.1)
  unfolding prepare_subtrees
  cons-of t ts l p s e f g = ok_bind _ e (rw (f) (ok_bind _ g refl))

  pub MovesTrees-trans : (ts us vs : Trees) → MovesTrees ts us → MovesTrees us vs → MovesTrees ts vs
  unfolding ReachesTrees
  MovesTrees-trans ts us vs d e l m q p h =
      let a = d l l q (Permᴰ.refl l) h in
      let b = e l m a.0 p a.1.0 in (b.0, (b.1.0, Permᴰ.trans a.1.1 b.1.1))

  pub MovesTrees-cons :
      (t u : Tree) (ts us : Trees)
      → ((p : Tree) → prepare_commit_tree sha1 make_naive t ≡ ok p → Reaches u p)
      → MovesTrees ts us
      → MovesTrees (Trees.cons t ts) (Trees.cons u us)
  unfolding ReachesTrees Reaches
  MovesTrees-cons t u ts us tree rest l m q p h =
      let a = cons-Accepted t ts l q h in
      let x = tree a.p a.tree in
      let r =
        rest (l ++ (hash_text a.p ∷ [])) (m ++ (hash_text x.0 ∷ [])) a.s
          (subst (λ e. Permᴰ (l ++ (hash_text a.p ∷ [])) (m ++ (e ∷ []))) x.1.1
            (Permᴰ.append_right (hash_text a.p ∷ []) p))
          a.others in
      (
        (Trees.cons x.0 r.0.0, r.0.1),
        (
          cons-of u us m x.0 r.0 x.1.0
              (ap (contains m) (sym x.1.1) ∙ sym (contains-Perm p (hash_text a.p)) ∙ a.free) r.1.0,
          subst (λ e. Permᴰ e r.0.1) a.ends r.1.1,
        ),
      )

  nil-trees : (l : List String) → prepare_subtrees sha1 make_naive Trees.nil l ≡ ok (Trees.nil, l)
  unfolding prepare_subtrees
  nil-trees l = refl

  pub MovesTrees-self : (ts : Trees) → MovesTrees ts ts
  unfolding ReachesTrees Reaches
  MovesTrees-self Trees.nil = λ l m q p h. (
    (Trees.nil, m),
    (nil-trees m, subst (λ r. Permᴰ r.1 m) (ok-injective (sym (nil-trees l) ∙ h)) p),
  )
  MovesTrees-self (Trees.cons t ts) =
      MovesTrees-cons t t ts ts (λ p e. (p, (e, refl))) (MovesTrees-self ts)

  pub MovesTrees-swap :
      (t u : Tree) (ts : Trees)
      → MovesTrees (Trees.cons t (Trees.cons u ts)) (Trees.cons u (Trees.cons t ts))
  unfolding ReachesTrees
  MovesTrees-swap t u ts l m q p h =
      let a = cons-Accepted t (Trees.cons u ts) l q h in
      let b = cons-Accepted u ts (l ++ (hash_text a.p ∷ [])) a.s a.others in
      let r =
        MovesTrees-self ts ((l ++ (hash_text a.p ∷ [])) ++ (hash_text b.p ∷ []))
          ((m ++ (hash_text b.p ∷ [])) ++ (hash_text a.p ∷ [])) b.s
          (Perm-parts (hash_text a.p ∷ []) (hash_text b.p ∷ []) p) b.others in
      (
        (Trees.cons b.p (Trees.cons a.p r.0.0), r.0.1),
        (
          cons-of u (Trees.cons t ts) m b.p (Trees.cons a.p r.0.0, r.0.1) b.tree
              (sym (contains-Perm p (hash_text b.p))
                ∙ or-false_left _ _
                    (sym (any-append (λ x. x == hash_text b.p) l (hash_text a.p ∷ [])) ∙ b.free))
              (cons-of t ts (m ++ (hash_text b.p ∷ [])) a.p r.0 a.tree
                (any-append (λ x. x == hash_text a.p) m (hash_text b.p ∷ [])
                  ∙ apart _ _ (sym (contains-Perm p (hash_text a.p)) ∙ a.free) (
                      or-false_right _ _ (
                        sym (any-append (λ x. x == hash_text b.p) l (hash_text a.p ∷ []))
                        ∙ b.free)))
                r.1.0),
          subst (λ e. Permᴰ e r.0.1) (b.ends ∙ a.ends) r.1.1,
        ),
      )
    where
      apart :
          (x y : String)
          → contains m x ≡ false
          → contains (x ∷ []) y ≡ false
          → (contains m x || contains (y ∷ []) x) ≡ false
      apart x y e f = ground (arith, string_eq.test_iff x y, string_eq.test_iff y x)
