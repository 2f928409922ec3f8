-- ===== src/Merkle/Commits/Filling.antt =====
-- The attributes of an object are set without an exception of a stack that is too small.
use zentral.Merkle.Commits.{
  Store, Session, Committer, Draft, lifted, continue, ◌then_do◌, try_field, json_value,
  set_reference, set_json, set_rows, set_scalar, commit_subtrees, fill_dict, fill_list, fill_field,
  fill, commit, items_of, empty_draft,
}
use zentral.Base.{
  List, String, [], and-left, and-right, arith, none, refl, some, suc, true, ℕ, ◌++◌, ◌∷◌, ◌≡◌,
}
use zentral.Merkle.Results.{Error, Result, ok, err, Fine}
use zentral.Merkle.Commits.Exceptions.{get_mt_field-Fine, json_value-Fine}
use zentral.Merkle.Trees.{Tree, Items, Trees}
use zentral.Merkle.Trees.Nesting.{nests_within, fields_nest, subtrees_nest}
use zentral.Merkle.Objects.{Field, Model, get_mt_field}

-- A step returns, or raises an ordinary exception.
abbrev pub Calm : {A : Type 0} → Session A → Type 0
Calm m = (st : Store) → Fine (λ a. Unit) (m st).1

Calm-continue :
    {A B : Type 0} (next : A → Session B) (r : Store × Result A)
    → Fine (λ a. Unit) r.1
    → ((a : A) → Calm (next a))
    → Fine (λ b. Unit) (continue next r).1
Calm-continue next (st, ok a) h k = k a st
Calm-continue next (st, err e) h k = h

pub Calm-then_do :
    {A B : Type 0} (m : Session A) (next : A → Session B)
    → Calm m
    → ((a : A) → Calm (next a))
    → Calm (m then_do next)
Calm-then_do m next h k st = Calm-continue next (m st) (h st) k

pub Calm-lifted :
    {A B : Type 0} (P : A → Type 0) (r : Result A) (next : A → Session B)
    → Fine P r
    → ((a : A) → P a → Calm (next a))
    → Calm (lifted r then_do next)
Calm-lifted P (ok a) next h k st = k a h st
Calm-lifted P (err e) next h k st = h

Calm-try_field :
    {A : Type 0} (r : Result Field) (next : Field → Session A) (other : Session A)
    → Fine (λ f. Unit) r
    → ((f : Field) → Calm (next f))
    → Calm other
    → Calm (try_field r next other)
Calm-try_field (ok f) next other h k o = k f
Calm-try_field (err Error.mto_error) next other h k o = o
Calm-try_field (err Error.hash_mismatch) next other h k o = λ st. h
Calm-try_field (err Error.value_error) next other h k o = λ st. h
Calm-try_field (err Error.assertion_error) next other h k o = λ st. h
Calm-try_field (err Error.attribute_error) next other h k o = λ st. h
Calm-try_field (err Error.type_error) next other h k o = λ st. h
Calm-try_field (err Error.integrity_error) next other h k o = λ st. h
Calm-try_field (err Error.validation_error) next other h k o = λ st. h
Calm-try_field (err Error.recursion_error) next other h k o = λ st. h

module _ (depth : ℕ) (commit : Committer)
    (calm : (name : String) (t : Tree) → nests_within t depth ≡ true → Calm (commit name t)) where
  commit_subtrees-Calm :
      (related : String) (subtrees : Trees) (l : List String)
      → subtrees_nest subtrees depth ≡ true
      → Calm (commit_subtrees commit related subtrees l)
  unfolding commit_subtrees nests_within
  commit_subtrees-Calm related Trees.nil l n = λ st. tt
  commit_subtrees-Calm related (Trees.cons t rest) l n =
      Calm-then_do (commit related t)
        (λ o. commit_subtrees commit related rest (l ++ (o.0.mt_hash ∷ [])))
        (calm related t (and-left _ _ n))
        (λ o. commit_subtrees-Calm related rest (l ++ (o.0.mt_hash ∷ [])) (and-right _ _ n))

  plain-Calm :
      (model : Model) (k : String) (v : Tree) (draft : Draft)
      → Calm (lifted (get_mt_field model k none none) then_do set_scalar k v draft)
  plain-Calm model k v draft =
      Calm-lifted (λ f. Unit) (get_mt_field model k none none) (set_scalar k v draft)
        (get_mt_field-Fine model k none none) (λ f u st. tt)

  fill_field-Calm :
      (model : Model) (k : String) (v : Tree) (draft : Draft)
      → nests_within v depth ≡ true
      → Calm (fill_field commit model k v draft)
  unfolding fill_field fill_dict fill_list nests_within
  fill_field-Calm model k (Tree.dict h fields) draft n =
      Calm-try_field (get_mt_field model k (some true) none)
        (λ f. commit f.related_model (Tree.dict h fields) then_do set_reference k draft)
        (lifted (json_value model k (Tree.dict h fields)) then_do set_json k draft)
        (get_mt_field-Fine model k (some true) none)
        (λ f.
          Calm-then_do (commit f.related_model (Tree.dict h fields)) (set_reference k draft)
            (calm f.related_model (Tree.dict h fields) n) (λ o st. tt))
        (Calm-lifted (λ t. Unit) (json_value model k (Tree.dict h fields)) (set_json k draft)
          (json_value-Fine model k (Tree.dict h fields)) (λ t u st. tt))
  fill_field-Calm model k (Tree.list subtrees) draft n =
      Calm-lifted (λ f. Unit) (get_mt_field model k none (some true))
        (λ f. commit_subtrees commit f.related_model subtrees [] then_do set_rows k draft)
        (get_mt_field-Fine model k none (some true))
        (λ f u.
          Calm-then_do (commit_subtrees commit f.related_model subtrees []) (set_rows k draft)
            (commit_subtrees-Calm f.related_model subtrees [] n) (λ l st. tt))
  fill_field-Calm model k Tree.null draft n = plain-Calm model k Tree.null draft
  fill_field-Calm model k Tree.unsupported draft n = plain-Calm model k Tree.unsupported draft
  fill_field-Calm model k (Tree.integer t) draft n = plain-Calm model k (Tree.integer t) draft
  fill_field-Calm model k (Tree.naive t) draft n = plain-Calm model k (Tree.naive t) draft
  fill_field-Calm model k (Tree.aware t) draft n = plain-Calm model k (Tree.aware t) draft
  fill_field-Calm model k (Tree.text t) draft n = plain-Calm model k (Tree.text t) draft

  fill-Calm :
      (model : Model) (fields : Items) (draft : Draft)
      → fields_nest fields depth ≡ true
      → Calm (fill commit model fields draft)
  unfolding fill nests_within
  fill-Calm model Items.end draft n = λ st. tt
  fill-Calm model (Items.item k v rest) draft n =
      Calm-then_do (fill_field commit model k v draft) (fill commit model rest)
        (fill_field-Calm model k v draft (and-left _ _ n))
        (λ d. fill-Calm model rest d (and-right _ _ n))

  pub items_of-Calm :
      (model : Model) (p : Tree)
      → nests_within p (suc depth) ≡ true
      → Calm (fill commit model (items_of p) empty_draft)
  unfolding nests_within
  items_of-Calm model (Tree.dict h fields) n = fill-Calm model fields empty_draft n
  items_of-Calm model Tree.null n = fill-Calm model Items.end empty_draft refl
  items_of-Calm model Tree.unsupported n = fill-Calm model Items.end empty_draft refl
  items_of-Calm model (Tree.integer t) n = fill-Calm model Items.end empty_draft refl
  items_of-Calm model (Tree.naive t) n = fill-Calm model Items.end empty_draft refl
  items_of-Calm model (Tree.aware t) n = fill-Calm model Items.end empty_draft refl
  items_of-Calm model (Tree.text t) n = fill-Calm model Items.end empty_draft refl
  items_of-Calm model (Tree.list t) n = fill-Calm model Items.end empty_draft refl

pub no_items-Calm :
    (commit : Committer) (model : Model) (p : Tree)
    → nests_within p 0 ≡ true
    → Calm (fill commit model (items_of p) empty_draft)
unfolding nests_within fill
no_items-Calm commit model (Tree.dict h fields) n = absurd (ground arith)
no_items-Calm commit model Tree.null n = λ st. tt
no_items-Calm commit model Tree.unsupported n = λ st. tt
no_items-Calm commit model (Tree.integer t) n = λ st. tt
no_items-Calm commit model (Tree.naive t) n = λ st. tt
no_items-Calm commit model (Tree.aware t) n = λ st. tt
no_items-Calm commit model (Tree.text t) n = λ st. tt
no_items-Calm commit model (Tree.list t) n = λ st. tt
