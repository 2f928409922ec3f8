-- ===== src/Merkle/Trees/Reorder.antt =====
-- Trees that are the same but for the order of their keys and of their lists.
use zentral.Merkle.Trees.Again.{is_end, is_nil}
use zentral.Base.{
  String, false, none, refl, sym, ◌==◌, ◌∙◌, ◌≡◌, nat_eq, string_eq, option_eq, bool_eq,
}
use zentral.Merkle.Trees.{Tree, Items, Trees, is_empty_tree}

mutual
  pub data SameTree : Tree → Tree → Type 0 where
    self : {t : Tree} → SameTree t t
    dict : {fs gs : Items} → SameItems fs gs → SameTree (Tree.dict none fs) (Tree.dict none gs)
    list : {ts us : Trees} → SameTrees ts us → SameTree (Tree.list ts) (Tree.list us)

  -- Two fields that are exchanged have different keys.
  pub data SameItems : Items → Items → Type 0 where
    end : SameItems Items.end Items.end
    item :
        {k : String} {v w : Tree} {fs gs : Items}
        → SameTree v w
        → SameItems fs gs
        → SameItems (Items.item k v fs) (Items.item k w gs)
    swap_items :
        {k j : String} {v w : Tree} {fs : Items}
        → (k == j) ≡ false
        → SameItems (Items.item k v (Items.item j w fs)) (Items.item j w (Items.item k v fs))
    trans_items : {fs gs hs : Items} → SameItems fs gs → SameItems gs hs → SameItems fs hs

  pub data SameTrees : Trees → Trees → Type 0 where
    nil : SameTrees Trees.nil Trees.nil
    cons :
        {t u : Tree} {ts us : Trees}
        → SameTree t u
        → SameTrees ts us
        → SameTrees (Trees.cons t ts) (Trees.cons u us)
    swap_trees :
        {t u : Tree} {ts : Trees}
        → SameTrees (Trees.cons t (Trees.cons u ts)) (Trees.cons u (Trees.cons t ts))
    trans_trees : {ts us vs : Trees} → SameTrees ts us → SameTrees us vs → SameTrees ts vs

-- Such trees are empty together.
is_end-SameItems : {fs gs : Items} → SameItems fs gs → is_end fs ≡ is_end gs
is_end-SameItems end = refl
is_end-SameItems (item s d) = refl
is_end-SameItems (swap_items h) = refl
is_end-SameItems (trans_items d e) = is_end-SameItems d ∙ is_end-SameItems e

is_nil-SameTrees : {ts us : Trees} → SameTrees ts us → is_nil ts ≡ is_nil us
is_nil-SameTrees nil = refl
is_nil-SameTrees (cons s d) = refl
is_nil-SameTrees swap_trees = refl
is_nil-SameTrees (trans_trees d e) = is_nil-SameTrees d ∙ is_nil-SameTrees e

dict-empty : (fs : Items) → is_empty_tree (Tree.dict none fs) ≡ is_end fs
unfolding is_empty_tree
dict-empty Items.end = refl
dict-empty (Items.item k v rest) = refl

list-empty : (ts : Trees) → is_empty_tree (Tree.list ts) ≡ is_nil ts
unfolding is_empty_tree
list-empty Trees.nil = refl
list-empty (Trees.cons t rest) = refl

pub is_empty_tree-SameTree : {t u : Tree} → SameTree t u → is_empty_tree t ≡ is_empty_tree u
is_empty_tree-SameTree self = refl
is_empty_tree-SameTree (dict {fs = fs} {gs = gs} d) =
    dict-empty fs ∙ is_end-SameItems d ∙ sym (dict-empty gs)
is_empty_tree-SameTree (list {ts = ts} {us = us} d) =
    list-empty ts ∙ is_nil-SameTrees d ∙ sym (list-empty us)
