-- ===== src/Merkle/Commits/Depth.antt =====
-- How many calls of `commit` stand inside each other.
use zentral.Merkle.Commits.{
  raise, Store, Session, Environment, Committer, Draft, lifted, ◌then_do◌, found_or, fill, verdict,
  checked, save_object, save_draft, commit_prepared, commit, items_of, empty_draft, drafted, get,
  is_there,
}
use zentral.Base.{
  Bool, Option, String, false, if◌then◌else◌, inl, inr, none, not, refl, some, suc, true, zero, ℕ,
  ◌==◌, ◌||◌, ◌≡◌, ◌⊎◌, nat_eq, string_eq, option_eq, bool_eq,
}
use zentral.Merkle.Results.{Error, Result, ok, err, Fine, Fine-if, is_ordinary}
use zentral.Merkle.Commits.Exceptions.{hash-Fine}
use zentral.Merkle.Commits.Filling.{Calm, Calm-then_do, Calm-lifted, items_of-Calm, no_items-Calm}
use zentral.Merkle.Trees.{Tree, prepare_commit_tree, hash_text}
use zentral.Merkle.Trees.Nesting.{nests_within, prepare-Fine, AsDeep}
use zentral.Merkle.Objects.{Object, hash}

module _ (env : Environment) where
  checked-Calm : (model : String) (obj : Object) → Calm (checked env model obj)
  unfolding checked verdict is_ordinary
  checked-Calm model obj =
      Calm-lifted (λ digest. Unit) (hash env.sha1 env.make_naive (env.models model) obj)
        (verdict obj) (hash-Fine env.sha1 env.make_naive (env.models model) obj)
        (λ digest u st. Fine-if (λ o. Unit) (digest == obj.mt_hash) _ _ tt refl)

  by_conflict :
      (found : Option Object) (violates clean : Bool) (now : Store)
      (r : Store × Result (Object × Bool))
      → Fine (λ o. Unit) r.1
      → Fine
          (λ o. Unit)
          (if is_there found || violates
            then found_or found (raise Error.integrity_error) now
            else if not clean
            then (now, err Error.validation_error)
            else r).1
  unfolding is_ordinary
  by_conflict (some obj) violates clean now r h = tt
  by_conflict none true clean now r h = refl
  by_conflict none false true now r h = h
  by_conflict none false false now r h = refl

  save_draft-Calm : (model h : String) (draft : Draft) → Calm (save_draft env model h draft)
  unfolding save_draft save_object
  save_draft-Calm model h draft st =
      by_conflict (get model h (env.meanwhile st)) (env.violates model (drafted h draft))
        (env.full_clean model (drafted h draft)) (env.meanwhile st) _
        (checked-Calm model (drafted h draft) _)

  found_or-Calm :
      (found : Option Object) (next : Session (Object × Bool)) (st : Store)
      → Fine (λ o. Unit) (next st).1
      → Fine (λ o. Unit) (found_or found next st).1
  found_or-Calm (some obj) next st h = tt
  found_or-Calm none next st h = h

  prepared-Calm :
      (depth : ℕ) (commit : Committer) (model : String) (tree : Tree)
      → ((p : Tree)
          → nests_within p depth ≡ true
          → Calm (fill commit (env.models model) (items_of p) empty_draft))
      → nests_within tree depth ≡ true
      → Calm (
          lifted (prepare_commit_tree env.sha1 env.make_naive tree)
          then_do commit_prepared env commit model)
  unfolding commit_prepared
  prepared-Calm depth commit model tree filled n =
      Calm-lifted (AsDeep tree) (prepare_commit_tree env.sha1 env.make_naive tree)
        (commit_prepared env commit model) (prepare-Fine env.sha1 env.make_naive tree)
        (λ p deep st. found_or-Calm (get model (hash_text p) st) _ st (
          Calm-then_do (fill commit (env.models model) (items_of p) empty_draft)
            (save_draft env model (hash_text p)) (filled p (deep depth n))
            (λ draft. save_draft-Calm model (hash_text p) draft) st))

  commit-Calm :
      (depth : ℕ) (model : String) (tree : Tree)
      → nests_within tree depth ≡ true
      → Calm (commit env (suc depth) model tree)
  unfolding commit
  commit-Calm zero model tree n =
      prepared-Calm zero (commit env zero) model tree
        (no_items-Calm (commit env zero) (env.models model)) n
  commit-Calm (suc depth) model tree n =
      prepared-Calm (suc depth) (commit env (suc depth)) model tree
        (items_of-Calm depth (commit env (suc depth)) (λ name t m. commit-Calm depth name t m)
          (env.models model))
        n

  -- A stack with room for one call more than dictionaries are nested in the tree is enough: the commit
  -- returns an object, or raises another exception than the one of a stack that is too small.
  pub commit_ends :
      (depth : ℕ) (model : String) (tree : Tree) (st : Store)
      → nests_within tree depth ≡ true
      → ((obj : Object) × ((created : Bool) × ((commit env (suc depth) model tree st).1
              ≡ ok (obj, created))))
        ⊎ ((e : Error) × (((commit env (suc depth) model tree st).1 ≡ err e)
              × (is_ordinary e ≡ true)))
  commit_ends depth model tree st n =
      by_result (commit env (suc depth) model tree st).1 (commit-Calm depth model tree n st)
    where
      by_result :
          (r : Result (Object × Bool))
          → Fine (λ o. Unit) r
          → ((obj : Object) × ((created : Bool) × (r ≡ ok (obj, created))))
            ⊎ ((e : Error) × ((r ≡ err e) × (is_ordinary e ≡ true)))
      by_result (ok (obj, created)) h = inl (obj, (created, refl))
      by_result (err e) h = inr (e, (refl, h))
