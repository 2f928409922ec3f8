-- ===== src/Merkle/Trees/Again.antt =====
-- A prepared tree that is cleaned up and prepared again: what `commit` stores in a JSON field and what
-- `hash` computes from it.
use zentral.Base.{
  Bool, List, String, [], and-left, and-right, ap, arith, contains, false, if◌then◌else◌, none, not,
  refl, some, subst, sym, true, ◌&&◌, ◌++◌, ◌||◌, ◌∙◌, ◌∷◌, ◌≡◌, nat_eq, string_eq, option_eq,
  bool_eq,
}
use zentral.Merkle.Results.{
  Error, ◌>>=◌, Result, ok, err, Returns, Returns-bind, Returns-if, Returns-of_nothing, Returns_at,
  ok_bind,
}
use zentral.Merkle.Hasher.{Value, Fields, add_field}
use zentral.Merkle.Trees.{
  Tree, Items, Trees, is_empty_tree, prepare_commit_tree, prepare_items, prepare_value,
  prepare_subtrees, stamped, cleanup_commit_tree, cleanup_items, cleanup_value, cleanup_subtrees,
  hash_text, start, naive_tree,
}

-- is there a field whose value is not empty
abbrev pub keeps_some : Items → Bool
keeps_some Items.end = false
keeps_some (Items.item k v rest) = not (is_empty_tree v) || keeps_some rest

abbrev pub is_end : Items → Bool
is_end Items.end = true
is_end (Items.item k v rest) = false

-- No dictionary of the tree has a hash, and each one that is the value of a field is empty or has a
-- field whose value is not.
unfoldable mutual
  pub is_fresh : Tree → Bool
  is_fresh (Tree.dict none fields) = fresh_items fields
  is_fresh (Tree.dict (some h) fields) = false
  is_fresh (Tree.list subtrees) = fresh_subtrees subtrees
  is_fresh _ = true

  fresh_items : Items → Bool
  fresh_items Items.end = true
  fresh_items (Items.item k v rest) = fresh_value v && fresh_items rest

  fresh_value : Tree → Bool
  fresh_value (Tree.dict none fields) = (is_end fields || keeps_some fields) && fresh_items fields
  fresh_value (Tree.dict (some h) fields) = false
  fresh_value (Tree.list subtrees) = fresh_subtrees subtrees
  fresh_value _ = true

  fresh_subtrees : Trees → Bool
  fresh_subtrees Trees.nil = true
  fresh_subtrees (Trees.cons t rest) = is_fresh t && fresh_subtrees rest

abbrev pub is_nil : Trees → Bool
is_nil Trees.nil = true
is_nil (Trees.cons t rest) = false

module _ (sha1 : String → String) (make_naive : String → String) where
  Again : Tree → Type 0
  Again p =
      (g : Tree) × ((cleanup_commit_tree p ≡ ok g) × (prepare_commit_tree sha1 make_naive g ≡ ok p))

  AgainItems : Fields → Bool → Items × Fields → Type 0
  AgainItems hs kept q =
      (gs : Items) × ((cleanup_items q.0 ≡ ok gs)
        × ((prepare_items sha1 make_naive gs hs ≡ ok q) × (is_end gs ≡ not kept)))

  AgainValue : Tree × Value → Type 0
  AgainValue q =
      (w : Tree) × ((cleanup_value q.0 ≡ ok w)
        × ((prepare_value sha1 make_naive w ≡ ok q) × (is_empty_tree w ≡ false)))

  AgainTrees : List String → Bool → Trees × List String → Type 0
  AgainTrees l none_there q =
      (us : Trees) × ((cleanup_subtrees q.0 ≡ ok us)
        × ((prepare_subtrees sha1 make_naive us l ≡ ok q) × (is_nil us ≡ none_there)))

  mutual
    unfolding prepare_commit_tree cleanup_commit_tree stamped start is_fresh Again AgainItems
        AgainValue AgainTrees is_empty_tree naive_tree

    again : (t : Tree) → is_fresh t ≡ true → Returns Again (prepare_commit_tree sha1 make_naive t)
    again (Tree.dict none fields) h =
        Returns-bind (AgainItems [] (keeps_some fields)) Again
          (prepare_items sha1 make_naive fields []) _ (again_items fields [] h)
          (λ q e a. (Tree.dict none a.0, (ok_bind _ a.1.0 refl, ok_bind _ a.1.1.0 refl)))
    again (Tree.dict (some x) fields) h = absurd (ground arith)
    again Tree.null h = tt
    again Tree.unsupported h = tt
    again (Tree.integer x) h = tt
    again (Tree.naive x) h = tt
    again (Tree.aware x) h = tt
    again (Tree.text x) h = tt
    again (Tree.list subtrees) h = tt

    again_items :
        (fields : Items) (hs : Fields)
        → fresh_items fields ≡ true
        → Returns (AgainItems hs (keeps_some fields)) (prepare_items sha1 make_naive fields hs)
    again_items Items.end hs h = (Items.end, (refl, (refl, refl)))
    again_items (Items.item k v rest) hs h =
        Returns-if (AgainItems hs (not (is_empty_tree v) || keeps_some rest)) (is_empty_tree v) _ _
          (λ e.
            subst
              (λ b.
                Returns (AgainItems hs (not b || keeps_some rest))
                  (prepare_items sha1 make_naive rest hs))
              (sym e) (again_items rest hs (and-right _ _ h)))
          (λ e.
            subst (λ b. Returns (AgainItems hs (not b || keeps_some rest)) step) (sym e)
              (Returns-bind AgainValue (AgainItems hs true) (prepare_value sha1 make_naive v) _
                (again_value v e (and-left _ _ h))
                (λ p ep a.
                  Returns-bind (λ x. Unit) (AgainItems hs true) (add_field make_naive k p.1 hs) _
                    (Returns-of_nothing _)
                    (λ added ea u.
                      Returns-bind (AgainItems added (keeps_some rest)) (AgainItems hs true)
                        (prepare_items sha1 make_naive rest added) _
                        (again_items rest added (and-right _ _ h))
                        (λ q eq b. (
                          Items.item k a.0 b.0,
                          (
                            ok_bind _ a.1.0 (ok_bind _ b.1.0 refl),
                            (
                              rw (a.1.1.1)
                                  (ok_bind _ a.1.1.0 (ok_bind _ ea (ok_bind _ b.1.1.0 refl))),
                              refl,
                            ),
                          ),
                        ))))))
      where
        step : Result (Items × Fields)
        step = prepare_value sha1 make_naive v >>= λ p. add_field make_naive k p.1 hs >>= λ added.
            prepare_items sha1 make_naive rest added >>= λ q. ok (Items.item k p.0 q.0, q.1)

    again_value :
        (v : Tree)
        → is_empty_tree v ≡ false
        → fresh_value v ≡ true
        → Returns AgainValue (prepare_value sha1 make_naive v)
    again_value (Tree.dict none fields) e h =
        Returns-bind AgainDict AgainValue _ _
          (Returns-bind (AgainItems [] (keeps_some fields)) AgainDict
            (prepare_items sha1 make_naive fields []) _ (again_items fields [] (and-right _ _ h))
            (λ q eq a. (
              a.0,
              (
                ok_bind _ a.1.0 refl,
                (ok_bind _ a.1.1.0 refl, a.1.1.1 ∙ ap not (kept e (and-left _ _ h))),
              ),
            )))
          (λ p ep a. (Tree.dict none a.0, (a.1.0, (ok_bind _ a.1.1.0 refl, a.1.1.1))))
      where
        AgainDict : Tree → Type 0
        AgainDict p =
            (gs : Items) × ((cleanup_value p ≡ ok (Tree.dict none gs))
              × ((prepare_commit_tree sha1 make_naive (Tree.dict none gs) ≡ ok p)
                  × (is_end gs ≡ false)))

        kept :
            is_end fields ≡ false
            → (is_end fields || keeps_some fields) ≡ true
            → keeps_some fields ≡ true
        kept x y = ground arith
    again_value (Tree.dict (some x) fields) e h = absurd (ground arith)
    again_value (Tree.list subtrees) e h =
        Returns-bind (AgainTrees [] (is_nil subtrees)) AgainValue
          (prepare_subtrees sha1 make_naive subtrees []) _ (again_subtrees subtrees [] h)
          (λ q eq a. (Tree.list a.0, (ok_bind _ a.1.0 refl, (ok_bind _ a.1.1.0 refl, a.1.1.1 ∙ e))))
    again_value Tree.null e h = absurd (ground arith)
    again_value Tree.unsupported e h = (Tree.unsupported, (refl, (refl, refl)))
    again_value (Tree.integer x) e h = (Tree.integer x, (refl, (refl, refl)))
    again_value (Tree.naive x) e h = (Tree.naive x, (refl, (refl, refl)))
    again_value (Tree.aware x) e h = (Tree.naive (make_naive x), (refl, (refl, refl)))
    again_value (Tree.text x) e h = (Tree.text x, (refl, (refl, refl)))

    again_subtrees :
        (subtrees : Trees) (l : List String)
        → fresh_subtrees subtrees ≡ true
        → Returns (AgainTrees l (is_nil subtrees)) (prepare_subtrees sha1 make_naive subtrees l)
    again_subtrees Trees.nil l h = (Trees.nil, (refl, (refl, refl)))
    again_subtrees (Trees.cons t rest) l h =
        Returns-bind Again (AgainTrees l false) (prepare_commit_tree sha1 make_naive t) _
          (again t (and-left _ _ h))
          (λ p ep a.
            Returns-if (AgainTrees l false) (contains l (hash_text p)) _ _ (λ dup. tt)
              (λ new.
                Returns-bind (AgainTrees (l ++ (hash_text p ∷ [])) (is_nil rest))
                  (AgainTrees l false)
                  (prepare_subtrees sha1 make_naive rest (l ++ (hash_text p ∷ []))) _
                  (again_subtrees rest _ (and-right _ _ h))
                  (λ q eq b. (
                    Trees.cons a.0 b.0,
                    (
                      ok_bind _ a.1.0 (ok_bind _ b.1.0 refl),
                      (
                        ok_bind _ a.1.1 (
                            ap
                              (λ c.
                                if c
                                then err Error.mto_error
                                else (prepare_subtrees sha1 make_naive b.0 (l ++ (hash_text p ∷ []))
                                    >>= λ r. ok (Trees.cons p r.0, r.1)))
                              new
                            ∙ ok_bind _ b.1.1.0 refl),
                        refl,
                      ),
                    ),
                  ))))

  -- A tree without hashes, in which each dictionary that is the value of a field is empty or has a
  -- field whose value is not: where it can be prepared, it can be cleaned up and prepared again, with
  -- the same result.
  pub prepare-cleanup :
      (t p : Tree)
      → is_fresh t ≡ true
      → prepare_commit_tree sha1 make_naive t ≡ ok p
      → (cleanup_commit_tree p >>= prepare_commit_tree sha1 make_naive) ≡ ok p
  unfolding Again
  prepare-cleanup t p fresh prepared =
      let a = Returns_at Again _ p (again t fresh) prepared in
      ok_bind (prepare_commit_tree sha1 make_naive) a.1.0 a.1.1
