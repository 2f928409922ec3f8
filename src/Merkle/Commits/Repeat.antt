-- ===== src/Merkle/Commits/Repeat.antt =====
-- A commit that returns has stored its object, which a commit of the same tree finds afterwards.
use zentral.Merkle.Commits.{
  found_or, ◌then_do◌, save_draft, lifted, Store, Session, Environment, Draft, get, save_object,
  commit_prepared, commit, drafted, items_of, empty_draft, fill,
}
use zentral.Merkle.Commits.Steps.{
  save_object-Ends, lifted-ok, Ends-found_or, Ends, Ends-continue, Ends-always, Ends_at, get-append,
}
use zentral.Base.{Bool, String, ap, false, refl, some, suc, sym, zero, ℕ, ◌∙◌, ◌≡◌}
use zentral.Merkle.Results.{err-ne-ok, Result, ok}
use zentral.Merkle.Trees.Reorder.{SameTree}
use zentral.Merkle.Trees.Subtrees.{Reaches}
use zentral.Merkle.Trees.Hashes.{SameTree-hash}
use zentral.Merkle.Trees.{Tree, prepare_commit_tree, hash_text}
use zentral.Merkle.Objects.{Object}

module _ (env : Environment) where
  -- the object that is returned is the one that is found under the hash
  abbrev pub Found : String → String → Store → Object × Bool → Type 0
  Found model h st o = get model h st ≡ some o.0

  save_object-Found :
      (model : String) (obj : Object) (st : Store)
      → Ends (Found model obj.mt_hash) (save_object env model obj st)
  save_object-Found model obj st =
      save_object-Ends env (Found model obj.mt_hash) model obj st (λ other same. same)
        (λ fresh right. get-append model obj.mt_hash (env.meanwhile st) _ fresh refl refl)

  pub commit-Found :
      (depth : ℕ) (model : String) (tree p : Tree) (st : Store)
      → prepare_commit_tree env.sha1 env.make_naive tree ≡ ok p
      → Ends (Found model (hash_text p)) (commit env (suc depth) model tree st)
  unfolding commit commit_prepared save_draft
  commit-Found depth model tree p st prepared = rw (prepared) (
      Ends-found_or Q (get model (hash_text p) st) next st (λ o same. same)
        (λ fresh.
          Ends-continue (λ s d. Unit) Q (save_draft env model (hash_text p)) filled
            (Ends-always (λ s d. Unit) filled (λ s d. tt))
            (λ s draft u. save_object-Found model (drafted (hash_text p) draft) s)))
    where
      Q : Store → Object × Bool → Type 0
      Q = Found model (hash_text p)

      filled : Store × Result Draft
      filled = fill (commit env depth) (env.models model) (items_of p) empty_draft st

      next : Session (Object × Bool)
      next =
          fill (commit env depth) (env.models model) (items_of p) empty_draft
          then_do save_draft env model (hash_text p)

  -- a commit that returns has prepared its tree, and its object is found under the hash
  pub commit-stored :
      (depth : ℕ) (model : String) (tree : Tree) (st after : Store) (obj : Object) (created : Bool)
      → commit env (suc depth) model tree st ≡ (after, ok (obj, created))
      → (p : Tree) × ((prepare_commit_tree env.sha1 env.make_naive tree ≡ ok p)
          × (get model (hash_text p) after ≡ some obj))
  unfolding commit
  commit-stored depth model tree st after obj created h =
      let prepared =
        lifted-ok (prepare_commit_tree env.sha1 env.make_naive tree)
          (commit_prepared env (commit env depth) model) st after (obj, created) h in
      (
        prepared.0,
        (
          prepared.1,
          Ends_at (Found model (hash_text prepared.0)) (commit env (suc depth) model tree st) after
              (obj, created) (commit-Found depth model tree prepared.0 st prepared.1) h,
        ),
      )

  -- a tree whose hash is stored
  pub commit-found :
      (depth : ℕ) (model : String) (tree p : Tree) (st : Store) (obj : Object)
      → prepare_commit_tree env.sha1 env.make_naive tree ≡ ok p
      → get model (hash_text p) st ≡ some obj
      → commit env (suc depth) model tree st ≡ (st, ok (obj, false))
  unfolding commit commit_prepared
  commit-found depth model tree p st obj prepared found =
      ap (λ r. (lifted r then_do commit_prepared env (commit env depth) model) st) prepared
      ∙ ap (λ o. found_or o next st) found
    where
      next : Session (Object × Bool)
      next =
          fill (commit env depth) (env.models model) (items_of p) empty_draft
          then_do save_draft env model (hash_text p)

  -- A commit that returns an object has stored it: a commit right afterwards of a tree that is the
  -- same but for the order of the keys and of the lists, at any depth, returns the same object as one
  -- that was there and changes nothing, whatever the first commit did and whatever other processes
  -- stored while it ran.
  pub commit-SameTree :
      (depth : ℕ) (model : String) (tree other : Tree) (st after : Store) (obj : Object)
      (created : Bool)
      → SameTree tree other
      → commit env depth model tree st ≡ (after, ok (obj, created))
      → commit env depth model other after ≡ (after, ok (obj, false))
  unfolding commit Reaches
  commit-SameTree zero model tree other st after obj created s h =
      err-ne-ok {a = (obj, created)} (ap (λ r. r.1) h)
  commit-SameTree (suc depth) model tree other st after obj created s h =
      let c = commit-stored depth model tree st after obj created h in
      let q = SameTree-hash env.sha1 env.make_naive s c.0 c.1.0 in
      commit-found depth model other q.0 after obj q.1.0
        (ap (λ x. get model x after) (sym q.1.1) ∙ c.1.1)
