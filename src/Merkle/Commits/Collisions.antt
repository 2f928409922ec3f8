-- ===== src/Merkle/Commits/Collisions.antt =====
-- The digest is fed with the keys and the values one after the other, with nothing in between.
use text.Mathlib.TextLemmas.{append-nil}
use Prim.Native.String.{◌++◌ as ◌<>◌}
use zentral.Base.{
  Bool, String, [], ap, beq_refl, false, none, refl, some, suc, sym, true, zero, ℕ, ◌==◌, ◌∙◌, ◌∷◌,
  ◌≡◌, nat_eq, string_eq, option_eq, bool_eq,
}
use zentral.Merkle.Results.{ok-injective, err-ne-ok, ok}
use zentral.Merkle.Sorting.{is_before, insert}
use zentral.Merkle.Hasher.{Entry, hexdigest, digest_texts, add_field, entry_text}
use zentral.Merkle.Trees.{Tree, Items, prepare_commit_tree, hash_text, stamped}
use zentral.Merkle.Objects.{Object}
use zentral.Merkle.Commits.{Store, Environment, commit, get}
use zentral.Merkle.Commits.Repeat.{commit-stored, commit-found}

module _ (k j a b : String) where
  -- one field
  abbrev pub joined_tree : Tree
  joined_tree = Tree.dict none (Items.item k (Tree.text (a <> (j <> b))) Items.end)

  -- two fields
  abbrev pub split_tree : Tree
  split_tree = Tree.dict none (Items.item k (Tree.text a) (Items.item j (Tree.text b) Items.end))

  digest_joined : digest_texts (k ∷ []) ((k, Entry.one (a <> (j <> b))) ∷ []) ≡ k <> (a <> (j <> b))
  unfolding digest_texts entry_text
  digest_joined = rw (beq_refl k, append-nil (a <> (j <> b))) refl

  digest_split :
      (k == j) ≡ false
      → digest_texts (k ∷ j ∷ []) ((k, Entry.one a) ∷ (j, Entry.one b) ∷ []) ≡ k <> (a <> (j <> b))
  unfolding digest_texts entry_text
  digest_split h = rw (beq_refl k, h, beq_refl j, append-nil b) refl

  module _ (sha1 make_naive : String → String) where
    prepare-joined :
        (k == "") ≡ false
        → prepare_commit_tree sha1 make_naive joined_tree
          ≡ ok (
              Tree.dict
                (some (sha1 (k <> (a <> (j <> b)))))
                (Items.item k (Tree.text (a <> (j <> b))) Items.end))
    unfolding prepare_commit_tree stamped add_field hexdigest insert
    prepare-joined h = rw (h, digest_joined) refl

    prepare-split :
        (k == "") ≡ false
        → (j == "") ≡ false
        → (k == j) ≡ false
        → is_before k j ≡ true
        → prepare_commit_tree sha1 make_naive split_tree
          ≡ ok (
              Tree.dict
                (some (sha1 (k <> (a <> (j <> b)))))
                (Items.item k (Tree.text a) (Items.item j (Tree.text b) Items.end)))
    unfolding prepare_commit_tree stamped add_field hexdigest insert
    prepare-split h i e o = rw (h, i, e, o, digest_split e) refl

module _ (env : Environment) where
  -- Two fields have different names that are not empty, the first one sorted before the second. Where a
  -- tree with the first field alone goes on in its value with the name and the value of the second one,
  -- a commit of it that returns, and then of the tree with both fields, returns the same object twice,
  -- and the second commit stores nothing.
  pub split-joined :
      (k j a b : String) (depth : ℕ) (model : String) (st after : Store) (obj : Object)
      (created : Bool)
      → (k == "") ≡ false
      → (j == "") ≡ false
      → (k == j) ≡ false
      → is_before k j ≡ true
      → commit env depth model (joined_tree k j a b) st ≡ (after, ok (obj, created))
      → commit env depth model (split_tree k j a b) after ≡ (after, ok (obj, false))
  unfolding commit
  split-joined k j a b zero model st after obj created h i e o returns =
      err-ne-ok {a = (obj, created)} (ap (λ r. r.1) returns)
  split-joined k j a b (suc depth) model st after obj created h i e o returns =
      let c = commit-stored env depth model (joined_tree k j a b) st after obj created returns in
      let same = ok-injective (sym (prepare-joined k j a b env.sha1 env.make_naive h) ∙ c.1.0) in
      commit-found env depth model (split_tree k j a b) _ after obj
        (prepare-split k j a b env.sha1 env.make_naive h i e o)
        (ap (λ p. get model (hash_text p) after) same ∙ c.1.1)
