-- ===== src/Merkle/Objects.antt =====
-- `AbstractMTObject` of zentral/utils/mt_models.py: the fields of a model, the objects, and their
-- hash. What Django says of a field is a record.
pub mod Blank
use zentral.Base.{
  Bool, List, Option, String, [], contains, false, find, if◌then◌else◌, none, not, select, some,
  true, ◌&&◌, ◌==◌, ◌||◌, ◌∷◌, nat_eq, string_eq, option_eq, bool_eq,
}
use zentral.Merkle.Results.{Error, Result, ok, err, ◌>>=◌}
use zentral.Merkle.Hasher.{Value, Fields, lookup, add_field, hexdigest}
use zentral.Merkle.Trees.{Tree, Items, prepare_commit_tree, hash_text, leaf_value}

-- What an attribute of an object holds. Rows are never changed and their hashes are unique in a
-- table, so a related row is given by its hash.
pub data Stored : Type 0 where
  scalar : Tree → Stored
  json : Tree → Stored
  reference : String → Stored
  references : List String → Stored

-- A field of Django: the kinds of its relation are missing for a plain one.
pub record Field : Type 0 where
  pub name : String
  pub auto_created : Bool
  pub many_to_one : Option Bool
  pub many_to_many : Option Bool
  pub is_json : Bool
  pub related_model : String
  pub initial : Stored

pub record Model : Type 0 where
  pub fields : List Field
  pub mt_excluded_fields : List String

pub record Object : Type 0 where
  pub mt_hash : String
  pub values : List (String × Stored)

unfoldable pub is_excluded : Model → String → Bool
is_excluded model name =
    contains ("id" ∷ "mt_hash" ∷ "mt_created_at" ∷ model.mt_excluded_fields) name

abbrev pub is_set : Option Bool → Bool
is_set b = b == some true

-- the kinds asked for, once the one that is given has been completed by the other
abbrev pub completed : Option Bool → Option Bool → Result (Option Bool × Option Bool)
completed many_to_one many_to_many =
    let first = if is_set many_to_one then some false else many_to_many in
    if is_set many_to_one && not (many_to_many == none)
    then err Error.assertion_error
    else if is_set first && not (many_to_one == none)
    then err Error.assertion_error
    else if is_set first
    then ok (some false, first)
    else ok (many_to_one, first)

-- What is asked of a field that has been looked up. The comparison of `many_to_many` with itself is
-- the source's.
unfoldable pub checked_field : Option Bool → Option Bool → Option Field → Result Field
checked_field many_to_one many_to_many none = err Error.mto_error
checked_field many_to_one many_to_many (some f) =
    if f.auto_created
    then err Error.mto_error
    else completed many_to_one many_to_many >>= λ kinds.
        if not (f.many_to_one == kinds.0) || not (f.many_to_many == f.many_to_many)
        then err Error.mto_error
        else ok f

unfoldable pub get_mt_field : Model → String → Option Bool → Option Bool → Result Field
unfolding is_excluded checked_field
get_mt_field model name many_to_one many_to_many =
    if is_excluded model name
    then err Error.mto_error
    else checked_field many_to_one many_to_many (find (λ f. f.name == name) model.fields)

-- `getattr(obj, f.name)`
unfoldable pub value_of : Object → Field → Stored
value_of obj f = elim (lookup f.name obj.values) [ some v ↦ v | none ↦ f.initial ]

-- the fields that are hashed
unfoldable pub mto_fields : Model → List Field
unfolding is_excluded
mto_fields model = select (λ f. not (is_excluded model f.name) && not f.auto_created) model.fields

-- Python's truth of a value that is no list and no dictionary; an unsupported one is taken for true
unfoldable pub is_true : Tree → Bool
is_true Tree.null = false
is_true (Tree.integer v) = not ((v == "0") || (v == "False"))
is_true (Tree.text v) = not (v == "")
is_true _ = true

-- what is given to the hasher for the dictionary, or another value, of a JSON field
unfoldable pub hashed_json : (String → String) → (String → String) → Tree → Result Value
hashed_json sha1 make_naive t =
    prepare_commit_tree sha1 make_naive t >>= λ p. ok (Value.text (hash_text p))

-- what `hash(recursive=False)` gives to the hasher for a value, by whether the field is a JSON field
unfoldable pub hashed_value : (String → String) → (String → String) → Bool → Stored → Result Value
unfolding leaf_value is_true hashed_json
hashed_value sha1 make_naive is_json (scalar t) =
    if is_true t && is_json then hashed_json sha1 make_naive t else ok (leaf_value t)
hashed_value sha1 make_naive is_json (reference h) = ok (Value.text h)
hashed_value sha1 make_naive is_json (references hs) = ok (Value.texts hs)
hashed_value sha1 make_naive is_json (json (Tree.dict none Items.end)) = ok Value.empty_dict
hashed_value sha1 make_naive is_json (json t) = hashed_json sha1 make_naive t

unfoldable pub hash_fields :
    (String → String) → (String → String) → Object → List Field → Fields → Result Fields
unfolding value_of hashed_value
hash_fields sha1 make_naive obj [] added = ok added
hash_fields sha1 make_naive obj (f ∷ fs) added =
    hashed_value sha1 make_naive f.is_json (value_of obj f) >>= λ v.
    add_field make_naive f.name v added >>= λ more. hash_fields sha1 make_naive obj fs more

-- `obj.hash(recursive=False)`
unfoldable pub hash : (String → String) → (String → String) → Model → Object → Result String
unfolding hash_fields mto_fields
hash sha1 make_naive model obj =
    hash_fields sha1 make_naive obj (mto_fields model) [] >>= λ added. ok (hexdigest sha1 added)
