-- ===== src/Merkle/Trees.antt =====
-- `prepare_commit_tree` and `cleanup_commit_tree` of zentral/utils/mt_models.py. The trees that the
-- source changes in place are returned. A dictionary keeps the text under its key "mt_hash" beside
-- its other fields, whose keys are different.
pub mod Again
pub mod Nesting
pub mod Reorder
pub mod Moves
pub mod Subtrees
pub mod Hashes
use zentral.Merkle.Hasher.{add_field, hexdigest, Value, Fields, Entry}
use zentral.Merkle.Results.{Error, Result, ok, err, ◌>>=◌}
use zentral.Base.{
  Bool, List, Option, String, [], contains, false, if◌then◌else◌, none, some, true, truthy, ◌++◌,
  ◌∷◌, nat_eq, string_eq, option_eq, bool_eq,
}

mutual
  -- A commit tree, or a value in one. A date is its ISO text, and a number its `str`.
  pub data Tree : Type 0 where
    null unsupported : Tree
    integer naive aware text : String → Tree
    dict : Option String → Items → Tree
    list : Trees → Tree

  pub data Items : Type 0 where
    end : Items
    item : String → Tree → Items → Items

  pub data Trees : Type 0 where
    nil : Trees
    cons : Tree → Trees → Trees

-- `Hasher.is_empty_value` of a tree
unfoldable pub is_empty_tree : Tree → Bool
is_empty_tree null = true
is_empty_tree (list nil) = true
is_empty_tree (dict none end) = true
is_empty_tree _ = false

-- the hash that a prepared tree has
abbrev pub hash_text : Tree → String
hash_text (dict (some h) fields) = h
hash_text _ = ""

-- what the loop has already given to the hasher for a key "mt_hash" whose text is empty
unfoldable pub start : Option String → Fields
start none = []
start (some h) = ("mt_hash", Entry.one h) ∷ []

-- A date with a time zone is stored without it.
unfoldable pub naive_tree : (String → String) → Tree → Tree
naive_tree make_naive (aware v) = naive (make_naive v)
naive_tree make_naive t = t

-- the value of a field that is neither a dictionary nor a list
unfoldable pub leaf_value : Tree → Value
leaf_value null = Value.null
leaf_value (integer v) = Value.integer v
leaf_value (naive v) = Value.naive v
leaf_value (aware v) = Value.aware v
leaf_value (text v) = Value.text v
leaf_value _ = Value.unsupported

-- A tree that has its hash is left as it is, and another gets the digest of its fields.
unfoldable pub stamped :
    (String → String) → Option String → Items → Result (Items × Fields) → Result Tree
stamped sha1 h fields prepared =
    if truthy h
    then ok (dict h fields)
    else prepared >>= λ p. ok (dict (some (hexdigest sha1 p.1)) p.0)

unfoldable mutual
  unfolding is_empty_tree start naive_tree leaf_value stamped

  pub prepare_commit_tree : (String → String) → (String → String) → Tree → Result Tree
  prepare_commit_tree sha1 make_naive (dict h fields) =
      let prepared = prepare_items sha1 make_naive fields (start h) in
      if truthy h
      then ok (dict h fields)
      else prepared >>= λ p. ok (dict (some (hexdigest sha1 p.1)) p.0)
  prepare_commit_tree sha1 make_naive _ = err Error.mto_error

  -- the loop on the fields, with the hasher
  pub prepare_items :
      (String → String) → (String → String) → Items → Fields → Result (Items × Fields)
  prepare_items sha1 make_naive end fields = ok (end, fields)
  prepare_items sha1 make_naive (item k v rest) fields =
      let step =
        (prepare_value sha1 make_naive v >>= λ p. add_field make_naive k p.1 fields >>= λ added.
        prepare_items sha1 make_naive rest added >>= λ q. ok (item k p.0 q.0, q.1)) in
      let skipped = prepare_items sha1 make_naive rest fields in
      if is_empty_tree v then skipped else step

  -- a value that is not empty, as it is stored and as it is given to the hasher
  pub prepare_value : (String → String) → (String → String) → Tree → Result (Tree × Value)
  prepare_value sha1 make_naive (dict h fields) =
      stamped sha1 h fields (prepare_items sha1 make_naive fields (start h)) >>= λ p.
      ok (p, Value.text (hash_text p))
  prepare_value sha1 make_naive (list subtrees) =
      prepare_subtrees sha1 make_naive subtrees [] >>= λ p. ok (list p.0, Value.texts p.1)
  prepare_value sha1 make_naive t =
      ok (naive_tree make_naive t, leaf_value (naive_tree make_naive t))

  -- the loop on a list, with the hashes so far
  pub prepare_subtrees :
      (String → String) → (String → String) → Trees → List String → Result (Trees × List String)
  prepare_subtrees sha1 make_naive nil hash_list = ok (nil, hash_list)
  prepare_subtrees sha1 make_naive (cons t rest) hash_list =
      prepare_commit_tree sha1 make_naive t >>= λ p.
      if contains hash_list (hash_text p)
      then err Error.mto_error
      else prepare_subtrees sha1 make_naive rest (hash_list ++ (hash_text p ∷ [])) >>= λ q.
          ok (cons p q.0, q.1)

unfoldable mutual
  pub cleanup_commit_tree : Tree → Result Tree
  cleanup_commit_tree (dict h fields) = cleanup_items fields >>= λ f. ok (dict none f)
  cleanup_commit_tree (list subtrees) = err Error.type_error
  cleanup_commit_tree _ = err Error.attribute_error

  pub cleanup_items : Items → Result Items
  cleanup_items end = ok end
  cleanup_items (item k v rest) =
      cleanup_value v >>= λ w. cleanup_items rest >>= λ r. ok (item k w r)

  pub cleanup_value : Tree → Result Tree
  cleanup_value (dict h fields) = cleanup_items fields >>= λ f. ok (dict none f)
  cleanup_value (list subtrees) = cleanup_subtrees subtrees >>= λ s. ok (list s)
  cleanup_value t = ok t

  pub cleanup_subtrees : Trees → Result Trees
  cleanup_subtrees nil = ok nil
  cleanup_subtrees (cons t rest) =
      cleanup_commit_tree t >>= λ w. cleanup_subtrees rest >>= λ r. ok (cons w r)
