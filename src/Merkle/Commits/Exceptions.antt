-- ===== src/Merkle/Commits/Exceptions.antt =====
-- The exceptions that the parts of a commit can raise: never the one of a stack that is too small.
use zentral.Merkle.Commits.{json_value}
use zentral.Base.{
  Bool, List, Option, String, [], false, find, if◌then◌else◌, none, not, refl, some, ◌&&◌, ◌==◌,
  ◌||◌, ◌∷◌, nat_eq, string_eq, option_eq, bool_eq,
}
use zentral.Merkle.Results.{Fine, Fine-bind, Fine-if, is_ordinary}
use zentral.Merkle.Trees.{Tree, Items, prepare_commit_tree, cleanup_commit_tree}
use zentral.Merkle.Hasher.{Fields, add_field}
use zentral.Merkle.Trees.Nesting.{prepare-Fine, cleanup-Fine, add_field-Fine, AsDeep}
use zentral.Merkle.Objects.{
  Field, Model, Object, Stored, get_mt_field, completed, checked_field, is_excluded, is_set, hash,
  hash_fields, hashed_value, hashed_json, is_true, value_of, mto_fields,
}

module _ (sha1 : String → String) (make_naive : String → String) where
  json-Fine : (t : Tree) → Fine (λ v. Unit) (hashed_json sha1 make_naive t)
  unfolding hashed_json
  json-Fine t =
      Fine-bind (AsDeep t) (λ v. Unit) (prepare_commit_tree sha1 make_naive t) _
        (prepare-Fine sha1 make_naive t) (λ p d. tt)

  hashed_value-Fine :
      (is_json : Bool) (s : Stored) → Fine (λ v. Unit) (hashed_value sha1 make_naive is_json s)
  unfolding hashed_value
  hashed_value-Fine is_json (Stored.scalar t) =
      Fine-if (λ v. Unit) (is_true t && is_json) _ _ (json-Fine t) tt
  hashed_value-Fine is_json (Stored.reference h) = tt
  hashed_value-Fine is_json (Stored.references hs) = tt
  hashed_value-Fine is_json (Stored.json (Tree.dict none Items.end)) = tt
  hashed_value-Fine is_json (Stored.json (Tree.dict none (Items.item k v rest))) = json-Fine _
  hashed_value-Fine is_json (Stored.json (Tree.dict (some h) fields)) = json-Fine _
  hashed_value-Fine is_json (Stored.json Tree.null) = json-Fine _
  hashed_value-Fine is_json (Stored.json Tree.unsupported) = json-Fine _
  hashed_value-Fine is_json (Stored.json (Tree.integer x)) = json-Fine _
  hashed_value-Fine is_json (Stored.json (Tree.naive x)) = json-Fine _
  hashed_value-Fine is_json (Stored.json (Tree.aware x)) = json-Fine _
  hashed_value-Fine is_json (Stored.json (Tree.text x)) = json-Fine _
  hashed_value-Fine is_json (Stored.json (Tree.list x)) = json-Fine _

  hash_fields-Fine :
      (obj : Object) (fs : List Field) (added : Fields)
      → Fine (λ more. Unit) (hash_fields sha1 make_naive obj fs added)
  unfolding hash_fields
  hash_fields-Fine obj [] added = tt
  hash_fields-Fine obj (f ∷ fs) added =
      Fine-bind (λ v. Unit) (λ more. Unit) (hashed_value sha1 make_naive f.is_json (value_of obj f))
        _ (hashed_value-Fine f.is_json (value_of obj f))
        (λ v u.
          Fine-bind (λ more. Unit) (λ more. Unit) (add_field make_naive f.name v added) _
            (add_field-Fine sha1 make_naive f.name v added)
            (λ more w. hash_fields-Fine obj fs more))

  pub hash-Fine :
      (model : Model) (obj : Object) → Fine (λ digest. Unit) (hash sha1 make_naive model obj)
  unfolding hash
  hash-Fine model obj =
      Fine-bind (λ more. Unit) (λ digest. Unit)
        (hash_fields sha1 make_naive obj (mto_fields model) []) _
        (hash_fields-Fine obj (mto_fields model) []) (λ more u. tt)

completed-Fine : (m o : Option Bool) → Fine (λ kinds. Unit) (completed m o)
unfolding is_ordinary
completed-Fine m o =
    Fine-if (λ kinds. Unit) (is_set m && not (o == none)) _ _ refl
      (Fine-if (λ kinds. Unit) (is_set first && not (m == none)) _ _ refl
        (Fine-if (λ kinds. Unit) (is_set first) _ _ tt tt))
  where
    first : Option Bool
    first = if is_set m then some false else o

checked_field-Fine :
    (m o : Option Bool) (found : Option Field) → Fine (λ f. Unit) (checked_field m o found)
unfolding checked_field is_ordinary
checked_field-Fine m o none = refl
checked_field-Fine m o (some f) =
    Fine-if (λ g. Unit) f.auto_created _ _ refl
      (Fine-bind (λ kinds. Unit) (λ g. Unit) (completed m o) _ (completed-Fine m o)
        (λ kinds u.
          Fine-if (λ g. Unit)
            (not (f.many_to_one == kinds.0) || not (f.many_to_many == f.many_to_many)) _ _ refl tt))

pub get_mt_field-Fine :
    (model : Model) (k : String) (m o : Option Bool) → Fine (λ f. Unit) (get_mt_field model k m o)
unfolding get_mt_field is_ordinary
get_mt_field-Fine model k m o =
    Fine-if (λ f. Unit) (is_excluded model k) _ _ refl
      (checked_field-Fine m o (find (λ f. f.name == k) model.fields))

pub json_value-Fine :
    (model : Model) (k : String) (v : Tree) → Fine (λ t. Unit) (json_value model k v)
unfolding json_value is_ordinary
json_value-Fine model k v =
    Fine-bind (λ f. Unit) (λ t. Unit) (get_mt_field model k none none) _
      (get_mt_field-Fine model k none none)
      (λ f u. Fine-if (λ t. Unit) f.is_json (cleanup_commit_tree v) _ (cleanup-Fine v) refl)
