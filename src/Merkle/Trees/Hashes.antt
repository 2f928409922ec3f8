-- ===== src/Merkle/Trees/Hashes.antt =====
-- Trees that are the same but for their order have the same hash.
use mathlib.Core.List.{Permᴰ}
use zentral.Base.{String, [], ap, refl, some, subst, sym, ◌∙◌, ◌≡◌}
use zentral.Merkle.Results.{ok, ◌>>=◌, err-ne-ok, ok-injective, steps_of, ok_bind}
use zentral.Merkle.Hasher.{Value, hexdigest}
use zentral.Merkle.Hasher.Order.{hexdigest-Perm}
use zentral.Merkle.Hasher.Adding.{SameValue, same, texts_in_order}
use zentral.Merkle.Trees.{
  Tree, Items, Trees, prepare_commit_tree, prepare_items, prepare_subtrees, stamped, hash_text,
  start,
}
use zentral.Merkle.Trees.Moves.{
  Moves, MovesValue, ReachesValue, ReachesItems, Moves-self, Moves-item, Moves-swap, Moves-trans,
}
use zentral.Merkle.Trees.Subtrees.{
  Reaches, ReachesTrees, MovesTrees, MovesTrees-self, MovesTrees-cons, MovesTrees-swap,
  MovesTrees-trans,
}
use zentral.Merkle.Trees.Reorder.{
  SameTree, self, dict, list, SameItems, end, item, swap_items, trans_items, SameTrees, nil, cons,
  swap_trees, trans_trees, is_empty_tree-SameTree,
}

module _ (sha1 : String → String) (make_naive : String → String) where
  mutual
    unfolding Reaches ReachesTrees ReachesItems ReachesValue prepare_commit_tree stamped start

    pub SameTree-hash :
        {t u : Tree}
        → SameTree t u
        → (p : Tree) → prepare_commit_tree sha1 make_naive t ≡ ok p
        → Reaches sha1 make_naive u p
    SameTree-hash self p h = (p, (h, refl))
    SameTree-hash (dict {fs = fs} {gs = gs} d) p h =
        let a = steps_of (prepare_items sha1 make_naive fs []) _ p h in
        let r = SameItems-hash d [] [] a.0 Permᴰ.nil refl a.1.0 in
        (
          Tree.dict (some (hexdigest sha1 r.0.1)) r.0.0,
          (
            ok_bind _ r.1.0 refl,
            ap hash_text (sym (ok-injective a.1.1))
                ∙ hexdigest-Perm sha1 a.0.1 r.0.1 r.1.1.0 r.1.1.1,
          ),
        )
    SameTree-hash (list d) p h = err-ne-ok h

    SameTree-value : {v w : Tree} → SameTree v w → MovesValue sha1 make_naive v w
    SameTree-value self p h = (p, (h, same refl))
    SameTree-value (dict {fs = fs} {gs = gs} d) p h =
        let b =
          steps_of
            (prepare_items sha1 make_naive fs [] >>= λ x.
              ok (Tree.dict (some (hexdigest sha1 x.1)) x.0))
            _ p h in
        let a = steps_of (prepare_items sha1 make_naive fs []) _ b.0 b.1.0 in
        let r = SameItems-hash d [] [] a.0 Permᴰ.nil refl a.1.0 in
        (
          (Tree.dict (some (hexdigest sha1 r.0.1)) r.0.0, Value.text (hexdigest sha1 r.0.1)),
          (
            ok_bind _ (ok_bind _ r.1.0 refl) refl,
            same (
                ap (λ x. x.1) (sym (ok-injective b.1.1))
                ∙ ap Value.text (
                    ap hash_text (sym (ok-injective a.1.1))
                    ∙ hexdigest-Perm sha1 a.0.1 r.0.1 r.1.1.0 r.1.1.1)),
          ),
        )
    SameTree-value (list {ts = ts} {us = us} d) p h =
        let a = steps_of (prepare_subtrees sha1 make_naive ts []) _ p h in
        let r = SameTrees-hash d [] [] a.0 Permᴰ.nil a.1.0 in
        (
          (Tree.list r.0.0, Value.texts r.0.1),
          (
            ok_bind _ r.1.0 refl,
            subst (λ x. SameValue x (Value.texts r.0.1)) (ap (λ x. x.1) (ok-injective a.1.1))
                (texts_in_order r.1.1),
          ),
        )

    SameItems-hash : {fs gs : Items} → SameItems fs gs → Moves sha1 make_naive fs gs
    SameItems-hash end = Moves-self sha1 make_naive Items.end
    SameItems-hash (item {k = k} {v = v} {w = w} {fs = fs} {gs = gs} s d) =
        Moves-item sha1 make_naive k v w fs gs (SameTree-value s) (is_empty_tree-SameTree s)
          (SameItems-hash d)
    SameItems-hash (swap_items {k = k} {j = j} {v = v} {w = w} {fs = fs} differ) =
        Moves-swap sha1 make_naive k j v w fs differ
    SameItems-hash (trans_items {fs = fs} {gs = gs} {hs = ls} d e) =
        Moves-trans sha1 make_naive fs gs ls (SameItems-hash d) (SameItems-hash e)

    SameTrees-hash : {ts us : Trees} → SameTrees ts us → MovesTrees sha1 make_naive ts us
    SameTrees-hash nil = MovesTrees-self sha1 make_naive Trees.nil
    SameTrees-hash (cons {t = t} {u = u} {ts = ts} {us = us} s d) =
        MovesTrees-cons sha1 make_naive t u ts us (SameTree-hash s) (SameTrees-hash d)
    SameTrees-hash (swap_trees {t = t} {u = u} {ts = ts}) = MovesTrees-swap sha1 make_naive t u ts
    SameTrees-hash (trans_trees {ts = ts} {us = us} {vs = vs} d e) =
        MovesTrees-trans sha1 make_naive ts us vs (SameTrees-hash d) (SameTrees-hash e)
