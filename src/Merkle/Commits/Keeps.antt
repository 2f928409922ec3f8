-- ===== src/Merkle/Commits/Keeps.antt =====
-- What every commit that returns keeps: a predicate of the store that other processes keep, and that
-- a new row with the right hash keeps.
use zentral.Merkle.Commits.{
  set_rows, set_json, set_reference, set_scalar, try_field, Store, Session, Environment, Committer,
  Draft, get, save_object, save_draft, commit_prepared, commit, drafted, items_of, empty_draft,
  fill, fill_field, fill_dict, fill_list, commit_subtrees, json_value, ◌then_do◌, lifted,
}
use zentral.Base.{Bool, List, String, [], none, some, suc, true, zero, ℕ, ◌++◌, ◌∷◌, ◌≡◌}
use zentral.Merkle.Results.{Error, Result, ok, err}
use zentral.Merkle.Trees.{Tree, Items, Trees, prepare_commit_tree, hash_text}
use zentral.Merkle.Objects.{Model, Object, Field, hash, get_mt_field}
use zentral.Merkle.Commits.Steps.{Ends, Ends-continue, save_object-Ends, Ends-found_or}

module _ (I : Store → Type 0) where
  abbrev Keeps : {A : Type 0} → Session A → Type 0
  Keeps m = (st : Store) → I st → Ends (λ s a. I s) (m st)

  Keeps-then_do :
      {A B : Type 0} (m : Session A) (next : A → Session B)
      → Keeps m
      → ((a : A) → Keeps (next a))
      → Keeps (m then_do next)
  Keeps-then_do m next h k st i =
      Ends-continue (λ s a. I s) (λ s b. I s) next (m st) (h st i) (λ s a j. k a s j)

  Keeps-lifted : {A : Type 0} (r : Result A) → Keeps (lifted r)
  Keeps-lifted (ok a) st i = i
  Keeps-lifted (err e) st i = tt

  Keeps-try_field :
      {A : Type 0} (r : Result Field) (next : Field → Session A) (other : Session A)
      → ((f : Field) → Keeps (next f))
      → Keeps other
      → Keeps (try_field r next other)
  Keeps-try_field (ok f) next other h k = h f
  Keeps-try_field (err Error.mto_error) next other h k = k
  Keeps-try_field (err Error.hash_mismatch) next other h k = λ st i. tt
  Keeps-try_field (err Error.value_error) next other h k = λ st i. tt
  Keeps-try_field (err Error.assertion_error) next other h k = λ st i. tt
  Keeps-try_field (err Error.attribute_error) next other h k = λ st i. tt
  Keeps-try_field (err Error.type_error) next other h k = λ st i. tt
  Keeps-try_field (err Error.integrity_error) next other h k = λ st i. tt
  Keeps-try_field (err Error.validation_error) next other h k = λ st i. tt
  Keeps-try_field (err Error.recursion_error) next other h k = λ st i. tt

  module _ (commit : Committer) (keeps : (name : String) (t : Tree) → Keeps (commit name t)) where
    commit_subtrees-Keeps :
        (related : String) (subtrees : Trees) (l : List String)
        → Keeps (commit_subtrees commit related subtrees l)
    unfolding commit_subtrees
    commit_subtrees-Keeps related Trees.nil l = λ st i. i
    commit_subtrees-Keeps related (Trees.cons t rest) l =
        Keeps-then_do (commit related t) _ (keeps related t)
          (λ o. commit_subtrees-Keeps related rest (l ++ (o.0.mt_hash ∷ [])))

    plain-Keeps :
        (model : Model) (k : String) (v : Tree) (draft : Draft)
        → Keeps (lifted (get_mt_field model k none none) then_do set_scalar k v draft)
    plain-Keeps model k v draft =
        Keeps-then_do (lifted field) (set_scalar k v draft) (Keeps-lifted field) (λ f st i. i)
      where
        field : Result Field
        field = get_mt_field model k none none

    fill_field-Keeps :
        (model : Model) (k : String) (v : Tree) (draft : Draft)
        → Keeps (fill_field commit model k v draft)
    unfolding fill_field fill_dict fill_list
    fill_field-Keeps model k (Tree.dict h fields) draft =
        Keeps-try_field (get_mt_field model k (some true) none)
          (λ f. commit f.related_model (Tree.dict h fields) then_do set_reference k draft)
          (lifted (json_value model k (Tree.dict h fields)) then_do set_json k draft)
          (λ f.
            Keeps-then_do (commit f.related_model (Tree.dict h fields)) (set_reference k draft)
              (keeps f.related_model (Tree.dict h fields)) (λ o st i. i))
          (Keeps-then_do (lifted (json_value model k (Tree.dict h fields))) (set_json k draft)
            (Keeps-lifted (json_value model k (Tree.dict h fields))) (λ t st i. i))
    fill_field-Keeps model k (Tree.list subtrees) draft =
        Keeps-then_do (lifted field)
          (λ f. commit_subtrees commit f.related_model subtrees [] then_do set_rows k draft)
          (Keeps-lifted field)
          (λ f.
            Keeps-then_do (commit_subtrees commit f.related_model subtrees []) (set_rows k draft)
              (commit_subtrees-Keeps f.related_model subtrees []) (λ l st i. i))
      where
        field : Result Field
        field = get_mt_field model k none (some true)
    fill_field-Keeps model k Tree.null draft = plain-Keeps model k Tree.null draft
    fill_field-Keeps model k Tree.unsupported draft = plain-Keeps model k Tree.unsupported draft
    fill_field-Keeps model k (Tree.integer t) draft = plain-Keeps model k (Tree.integer t) draft
    fill_field-Keeps model k (Tree.naive t) draft = plain-Keeps model k (Tree.naive t) draft
    fill_field-Keeps model k (Tree.aware t) draft = plain-Keeps model k (Tree.aware t) draft
    fill_field-Keeps model k (Tree.text t) draft = plain-Keeps model k (Tree.text t) draft

    fill-Keeps :
        (model : Model) (fields : Items) (draft : Draft) → Keeps (fill commit model fields draft)
    unfolding fill
    fill-Keeps model Items.end draft = λ st i. i
    fill-Keeps model (Items.item k v rest) draft =
        Keeps-then_do (fill_field commit model k v draft) (fill commit model rest)
          (fill_field-Keeps model k v draft) (λ d. fill-Keeps model rest d)

  module _ (env : Environment) (others : (st : Store) → I st → I (env.meanwhile st))
      (adds : (model : String) (obj : Object) (st : Store)
        → I st
        → get model obj.mt_hash st ≡ none
        → hash env.sha1 env.make_naive (env.models model) obj ≡ ok obj.mt_hash
        → I (st ++ (record { model = model; object = obj } ∷ []))) where
    save_object-Keeps : (model : String) (obj : Object) → Keeps (save_object env model obj)
    save_object-Keeps model obj st i =
        save_object-Ends env (λ s a. I s) model obj st (λ other same. others st i)
          (λ fresh right. adds model obj (env.meanwhile st) (others st i) fresh right)

    pub commit-Keeps :
        (depth : ℕ) (model : String) (tree : Tree) → Keeps (commit env depth model tree)
    unfolding commit commit_prepared save_draft
    commit-Keeps zero model tree = λ st i. tt
    commit-Keeps (suc depth) model tree =
        Keeps-then_do (lifted (prepare_commit_tree env.sha1 env.make_naive tree))
          (commit_prepared env (commit env depth) model) (Keeps-lifted _)
          (λ p st i.
            Ends-found_or (λ s a. I s) (get model (hash_text p) st) (next p) st (λ o same. i)
              (λ fresh.
                Keeps-then_do _ (save_draft env model (hash_text p))
                  (fill-Keeps (commit env depth) (commit-Keeps depth) (env.models model)
                    (items_of p) empty_draft)
                  (λ draft. save_object-Keeps model (drafted (hash_text p) draft)) st i))
      where
        next : Tree → Session (Object × Bool)
        next p =
            fill (commit env depth) (env.models model) (items_of p) empty_draft
            then_do save_draft env model (hash_text p)
