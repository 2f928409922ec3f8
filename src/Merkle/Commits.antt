-- ===== src/Merkle/Commits.antt =====
-- `MTObjectManager.commit` of zentral/utils/mt_models.py. The store has the rows of all tables. The
-- constraints of the database other than the unique hash, `full_clean`, and what other processes
-- store before an object is saved are arguments. `full_clean` accepts the object or refuses it, and is
-- taken to leave its attributes as they are. The arguments of `save` are left out.
pub mod Steps
pub mod Repeat
pub mod Keeps
pub mod Soundness
pub mod Collisions
pub mod Hollow
pub mod Exceptions
pub mod Filling
pub mod Depth
use zentral.Base.{
  Bool, List, Option, String, [], contains, false, if◌then◌else◌, none, not, some, suc, true, zero,
  ℕ, ◌&&◌, ◌++◌, ◌==◌, ◌||◌, ◌∷◌, nat_eq, string_eq, option_eq, bool_eq,
}
use zentral.Merkle.Results.{Error, Result, ok, err, ◌>>=◌}
use zentral.Merkle.Trees.{Tree, Items, Trees, prepare_commit_tree, cleanup_commit_tree, hash_text}
use zentral.Merkle.Objects.{Stored, Field, Model, Object, get_mt_field, hash}

pub record Row : Type 0 where
  pub model : String
  pub object : Object

abbrev pub Store : Type 0
Store = List Row

-- A step changes the store, and returns or raises.
abbrev pub Session : Type 0 → Type 0
Session A = Store → Store × Result A

pub record Environment : Type 0 where
  pub sha1 : String → String
  pub make_naive : String → String
  pub models : String → Model
  pub meanwhile : Store → Store
  pub violates : String → Object → Bool
  pub full_clean : String → Object → Bool

abbrev pub give : {A : Type 0} → A → Session A
give a st = (st, ok a)

abbrev pub raise : {A : Type 0} → Error → Session A
raise e st = (st, err e)

-- A step that raised ends the chain.
abbrev pub continue : {A B : Type 0} → (A → Session B) → Store × Result A → Store × Result B
continue next (st, ok a) = next a st
continue next (st, err e) = (st, err e)

infixl 5 ◌then_do◌
abbrev pub ◌then_do◌ : {A B : Type 0} → Session A → (A → Session B) → Session B
(m then_do next) st = continue next (m st)

-- a computation that leaves the store alone
abbrev pub lifted : {A : Type 0} → Result A → Session A
lifted r st = (st, r)

-- `self.get(mt_hash=...)` and what is done where there is no such object
abbrev pub found_or : Option Object → Session (Object × Bool) → Session (Object × Bool)
found_or (some obj) next st = (st, ok (obj, false))
found_or none next st = next st

-- the `else` and the `except MTOError` of a `try`
abbrev pub try_field : {A : Type 0} → Result Field → (Field → Session A) → Session A → Session A
try_field (ok f) next other = next f
try_field (err Error.mto_error) next other = other
try_field (err e) next other = raise e

-- the attributes that are set before the object is saved, and the sets of rows that are set after
pub record Draft : Type 0 where
  pub values : List (String × Stored)
  pub m2m_fields : List (String × Stored)

unfoldable pub set_attribute : String → Stored → Draft → Draft
set_attribute k v draft = record draft { values = (k, v) ∷ draft.values }

unfoldable pub add_m2m : String → List String → Draft → Draft
add_m2m k l draft = record draft { m2m_fields = (k, Stored.references l) ∷ draft.m2m_fields }

-- the rows of a set, each once
unfoldable pub set_of : List String → List String
set_of [] = []
set_of (h ∷ hs) = let rest = set_of hs in if contains rest h then rest else h ∷ rest

unfoldable pub get : String → String → Store → Option Object
get model h [] = none
get model h (row ∷ rows) =
    let rest = get model h rows in
    if (row.model == model) && (row.object.mt_hash == h) then some row.object else rest

-- the commit of related objects, as an argument
abbrev pub Committer : Type 0
Committer = String → Tree → Session (Object × Bool)

unfoldable pub commit_subtrees : Committer → String → Trees → List String → Session (List String)
commit_subtrees commit related Trees.nil l = give l
commit_subtrees commit related (Trees.cons t rest) l =
    commit related t then_do λ o. commit_subtrees commit related rest (l ++ (o.0.mt_hash ∷ []))

-- the copy of a dictionary that a JSON field gets
unfoldable pub json_value : Model → String → Tree → Result Tree
json_value model k v = get_mt_field model k none none >>= λ f.
    if f.is_json then cleanup_commit_tree v else err Error.mto_error

abbrev pub set_reference : String → Draft → Object × Bool → Session Draft
set_reference k draft o = give (set_attribute k (Stored.reference o.0.mt_hash) draft)

abbrev pub set_json : String → Draft → Tree → Session Draft
set_json k draft t = give (set_attribute k (Stored.json t) draft)

abbrev pub set_scalar : String → Tree → Draft → Field → Session Draft
set_scalar k v draft f = give (set_attribute k (Stored.scalar v) draft)

abbrev pub set_rows : String → Draft → List String → Session Draft
set_rows k draft l = give (add_m2m k (set_of l) draft)

-- a dictionary, for a related object or for a JSON field
unfoldable pub fill_dict : Committer → Model → String → Tree → Draft → Session Draft
unfolding set_attribute json_value
fill_dict commit model k v draft =
    try_field (get_mt_field model k (some true) none)
      (λ f. commit f.related_model v then_do set_reference k draft)
      (lifted (json_value model k v) then_do set_json k draft)

unfoldable pub fill_list : Committer → Model → String → Trees → Draft → Session Draft
unfolding commit_subtrees add_m2m set_of
fill_list commit model k subtrees draft =
    lifted (get_mt_field model k none (some true)) then_do λ f.
    commit_subtrees commit f.related_model subtrees [] then_do set_rows k draft

unfoldable pub fill_field : Committer → Model → String → Tree → Draft → Session Draft
unfolding fill_dict fill_list set_attribute
fill_field commit model k (Tree.dict h fields) draft =
    fill_dict commit model k (Tree.dict h fields) draft
fill_field commit model k (Tree.list subtrees) draft = fill_list commit model k subtrees draft
fill_field commit model k v draft =
    lifted (get_mt_field model k none none) then_do set_scalar k v draft

unfoldable pub fill : Committer → Model → Items → Draft → Session Draft
unfolding fill_field
fill commit model Items.end draft = give draft
fill commit model (Items.item k v rest) draft =
    fill_field commit model k v draft then_do fill commit model rest

abbrev pub items_of : Tree → Items
items_of (Tree.dict h fields) = fields
items_of _ = Items.end

abbrev pub empty_draft : Draft
empty_draft = record { values = []; m2m_fields = [] }

abbrev pub drafted : String → Draft → Object
drafted h draft = record { mt_hash = h; values = draft.m2m_fields ++ draft.values }

abbrev pub is_there : Option Object → Bool
is_there none = false
is_there (some obj) = true

-- the comparison of the two hashes
unfoldable pub verdict : Object → String → Session (Object × Bool)
verdict obj digest =
    lifted (if digest == obj.mt_hash then ok (obj, true) else err Error.hash_mismatch)

module _ (env : Environment) where
  -- the check of an object that has been saved
  unfoldable pub checked : String → Object → Session (Object × Bool)
  checked model obj =
      lifted (hash env.sha1 env.make_naive (env.models model) obj) then_do verdict obj

  unfoldable pub save_object : String → Object → Session (Object × Bool)
  unfolding get checked
  save_object model obj st =
      let now = env.meanwhile st in
      if is_there (get model obj.mt_hash now) || env.violates model obj
      then found_or (get model obj.mt_hash now) (raise Error.integrity_error) now
      else if not (env.full_clean model obj)
      then (now, err Error.validation_error)
      else checked model obj (now ++ (record { model = model; object = obj } ∷ []))

  unfoldable pub save_draft : String → String → Draft → Session (Object × Bool)
  unfolding save_object
  save_draft model h draft = save_object model (drafted h draft)

  unfoldable pub commit_prepared : Committer → String → Tree → Session (Object × Bool)
  unfolding get fill save_draft
  commit_prepared commit model p st =
      found_or (get model (hash_text p) st)
        (fill commit (env.models model) (items_of p) empty_draft then_do λ draft.
          save_object model (drafted (hash_text p) draft))
        st

  -- The number is the depth of calls that the interpreter's stack has room for.
  unfoldable pub commit : ℕ → Committer
  unfolding commit_prepared
  commit zero model tree = raise Error.recursion_error
  commit (suc depth) model tree =
      lifted (prepare_commit_tree env.sha1 env.make_naive tree) then_do λ p.
      commit_prepared (commit depth) model p
