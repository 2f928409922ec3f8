-- ===== src/Merkle/Trees/Nesting.antt =====
-- How deep the dictionaries of a tree are nested, before and after it is prepared.
use zentral.Base.{
  Bool, List, Option, String, [], all, and-left, and-right, and_of, contains, false, refl, some,
  suc, true, truthy, zero, ℕ, ◌&&◌, ◌++◌, ◌==◌, ◌∷◌, ◌≡◌, nat_eq, string_eq, option_eq, bool_eq,
}
use zentral.Merkle.Results.{Fine, Fine-bind, Fine-if, Fine-mono, is_ordinary}
use zentral.Merkle.Hasher.{
  is_hash, keys, Value, Fields, add_field, entry_of, is_empty_value, hexdigest,
}
use zentral.Merkle.Trees.{
  hash_text, Tree, Items, Trees, is_empty_tree, prepare_commit_tree, prepare_items, prepare_value,
  prepare_subtrees, stamped, start, naive_tree, cleanup_commit_tree, cleanup_items, cleanup_value,
  cleanup_subtrees,
}

-- No more than so many dictionaries stand inside each other.
unfoldable mutual
  pub nests_within : Tree → ℕ → Bool
  nests_within (Tree.dict h fields) zero = false
  nests_within (Tree.dict h fields) (suc depth) = fields_nest fields depth
  nests_within (Tree.list subtrees) depth = subtrees_nest subtrees depth
  nests_within _ depth = true

  pub fields_nest : Items → ℕ → Bool
  fields_nest Items.end depth = true
  fields_nest (Items.item k v rest) depth = nests_within v depth && fields_nest rest depth

  pub subtrees_nest : Trees → ℕ → Bool
  subtrees_nest Trees.nil depth = true
  subtrees_nest (Trees.cons t rest) depth = nests_within t depth && subtrees_nest rest depth

abbrev pub AsDeep : Tree → Tree → Type 0
AsDeep t p = (depth : ℕ) → nests_within t depth ≡ true → nests_within p depth ≡ true

module _ (sha1 : String → String) (make_naive : String → String) where
  entry_of-Fine : (v : Value) → Fine (λ e. Unit) (entry_of make_naive v)
  unfolding entry_of is_ordinary
  entry_of-Fine Value.null = refl
  entry_of-Fine Value.empty_dict = refl
  entry_of-Fine Value.mixed = refl
  entry_of-Fine Value.unsupported = refl
  entry_of-Fine (Value.integer x) = tt
  entry_of-Fine (Value.naive x) = tt
  entry_of-Fine (Value.aware x) = tt
  entry_of-Fine (Value.text x) = tt
  entry_of-Fine (Value.texts l) = Fine-if (λ e. Unit) (all is_hash l) _ _ tt refl

  pub add_field-Fine :
      (k : String) (v : Value) (fields : Fields)
      → Fine (λ added. Unit) (add_field make_naive k v fields)
  unfolding add_field is_ordinary
  add_field-Fine k v fields =
      Fine-if (λ added. Unit) (k == "") _ _ refl
        (Fine-if (λ added. Unit) (contains (keys fields) k) _ _ refl
          (Fine-if (λ added. Unit) (is_empty_value v) _ _ tt
            (Fine-bind (λ e. Unit) (λ added. Unit) (entry_of make_naive v) _ (entry_of-Fine v)
              (λ e u. tt))))

  dict_deep :
      (h g : Option String) (fields more : Items)
      → ((depth : ℕ) → fields_nest fields depth ≡ true → fields_nest more depth ≡ true)
      → AsDeep (Tree.dict h fields) (Tree.dict g more)
  unfolding nests_within
  dict_deep h g fields more d zero e = e
  dict_deep h g fields more d (suc depth) e = d depth e

  mutual
    unfolding prepare_commit_tree stamped is_ordinary nests_within naive_tree

    pub prepare-Fine : (t : Tree) → Fine (AsDeep t) (prepare_commit_tree sha1 make_naive t)
    prepare-Fine (Tree.dict h fields) =
        Fine-if (AsDeep (Tree.dict h fields)) (truthy h) _ _ (λ depth e. e)
          (Fine-bind
            (λ q. (depth : ℕ) → fields_nest fields depth ≡ true → fields_nest q.0 depth ≡ true)
            (AsDeep (Tree.dict h fields)) (prepare_items sha1 make_naive fields (start h)) _
            (items-Fine fields (start h))
            (λ q d. dict_deep h (some (hexdigest sha1 q.1)) fields q.0 d))
    prepare-Fine (Tree.list subtrees) = refl
    prepare-Fine Tree.null = refl
    prepare-Fine Tree.unsupported = refl
    prepare-Fine (Tree.integer x) = refl
    prepare-Fine (Tree.naive x) = refl
    prepare-Fine (Tree.aware x) = refl
    prepare-Fine (Tree.text x) = refl

    items-Fine :
        (fields : Items) (hs : Fields)
        → Fine
            (λ q. (depth : ℕ) → fields_nest fields depth ≡ true → fields_nest q.0 depth ≡ true)
            (prepare_items sha1 make_naive fields hs)
    items-Fine Items.end hs = λ depth e. e
    items-Fine (Items.item k v rest) hs =
        Fine-if Q (is_empty_tree v) _ _
          (Fine-mono _ Q (prepare_items sha1 make_naive rest hs)
            (λ q d depth e. d depth (and-right _ _ e)) (items-Fine rest hs))
          (Fine-bind (λ p. AsDeep v p.0) Q (prepare_value sha1 make_naive v) _ (value-Fine v)
            (λ p deep.
              Fine-bind (λ added. Unit) Q (add_field make_naive k p.1 hs) _
                (add_field-Fine k p.1 hs)
                (λ added u.
                  Fine-bind
                    (λ q.
                      (depth : ℕ) → fields_nest rest depth ≡ true → fields_nest q.0 depth ≡ true)
                    Q (prepare_items sha1 make_naive rest added) _ (items-Fine rest added)
                    (λ q d depth e.
                      and_of _ _ (deep depth (and-left _ _ e)) (d depth (and-right _ _ e))))))
      where
        Q : Items × Fields → Type 0
        Q q =
            (depth : ℕ)
            → (nests_within v depth && fields_nest rest depth) ≡ true
            → fields_nest q.0 depth ≡ true

    value-Fine : (v : Tree) → Fine (λ p. AsDeep v p.0) (prepare_value sha1 make_naive v)
    value-Fine (Tree.dict h fields) =
        Fine-bind (AsDeep (Tree.dict h fields)) (λ p. AsDeep (Tree.dict h fields) p.0) _ _
          (Fine-if (AsDeep (Tree.dict h fields)) (truthy h) _ _ (λ depth e. e)
            (Fine-bind
              (λ q. (depth : ℕ) → fields_nest fields depth ≡ true → fields_nest q.0 depth ≡ true)
              (AsDeep (Tree.dict h fields)) (prepare_items sha1 make_naive fields (start h)) _
              (items-Fine fields (start h))
              (λ q d. dict_deep h (some (hexdigest sha1 q.1)) fields q.0 d)))
          (λ p d. d)
    value-Fine (Tree.list subtrees) =
        Fine-bind
          (λ q. (depth : ℕ) → subtrees_nest subtrees depth ≡ true → subtrees_nest q.0 depth ≡ true)
          (λ p. AsDeep (Tree.list subtrees) p.0) (prepare_subtrees sha1 make_naive subtrees []) _
          (subtrees-Fine subtrees []) (λ q d. d)
    value-Fine Tree.null = λ depth e. e
    value-Fine Tree.unsupported = λ depth e. e
    value-Fine (Tree.integer x) = λ depth e. e
    value-Fine (Tree.naive x) = λ depth e. e
    value-Fine (Tree.aware x) = λ depth e. e
    value-Fine (Tree.text x) = λ depth e. e

    subtrees-Fine :
        (subtrees : Trees) (l : List String)
        → Fine
            (λ q.
              (depth : ℕ) → subtrees_nest subtrees depth ≡ true → subtrees_nest q.0 depth ≡ true)
            (prepare_subtrees sha1 make_naive subtrees l)
    subtrees-Fine Trees.nil l = λ depth e. e
    subtrees-Fine (Trees.cons t rest) l =
        Fine-bind (AsDeep t) Q (prepare_commit_tree sha1 make_naive t) _ (prepare-Fine t) (λ p deep.
          Fine-if Q (contains l (hash_text p)) _ _ refl (
            Fine-bind
              (λ q. (depth : ℕ) → subtrees_nest rest depth ≡ true → subtrees_nest q.0 depth ≡ true)
              Q (prepare_subtrees sha1 make_naive rest _) _
              (subtrees-Fine rest (l ++ (hash_text p ∷ [])))
              (λ q d depth e.
                and_of _ _ (deep depth (and-left _ _ e)) (d depth (and-right _ _ e)))))
      where
        Q : Trees × List String → Type 0
        Q q =
            (depth : ℕ)
            → (nests_within t depth && subtrees_nest rest depth) ≡ true
            → subtrees_nest q.0 depth ≡ true

mutual
  unfolding cleanup_commit_tree is_ordinary

  pub cleanup-Fine : (t : Tree) → Fine (λ c. Unit) (cleanup_commit_tree t)
  cleanup-Fine (Tree.dict h fields) =
      Fine-bind (λ c. Unit) (λ c. Unit) (cleanup_items fields) _ (cleanup_items-Fine fields)
        (λ f u. tt)
  cleanup-Fine (Tree.list subtrees) = refl
  cleanup-Fine Tree.null = refl
  cleanup-Fine Tree.unsupported = refl
  cleanup-Fine (Tree.integer x) = refl
  cleanup-Fine (Tree.naive x) = refl
  cleanup-Fine (Tree.aware x) = refl
  cleanup-Fine (Tree.text x) = refl

  cleanup_items-Fine : (fields : Items) → Fine (λ c. Unit) (cleanup_items fields)
  cleanup_items-Fine Items.end = tt
  cleanup_items-Fine (Items.item k v rest) =
      Fine-bind (λ c. Unit) (λ c. Unit) (cleanup_value v) _ (cleanup_value-Fine v)
        (λ w u.
          Fine-bind (λ c. Unit) (λ c. Unit) (cleanup_items rest) _ (cleanup_items-Fine rest)
            (λ r s. tt))

  cleanup_value-Fine : (t : Tree) → Fine (λ c. Unit) (cleanup_value t)
  cleanup_value-Fine (Tree.dict h fields) =
      Fine-bind (λ c. Unit) (λ c. Unit) (cleanup_items fields) _ (cleanup_items-Fine fields)
        (λ f u. tt)
  cleanup_value-Fine (Tree.list subtrees) =
      Fine-bind (λ c. Unit) (λ c. Unit) (cleanup_subtrees subtrees) _
        (cleanup_subtrees-Fine subtrees) (λ f u. tt)
  cleanup_value-Fine Tree.null = tt
  cleanup_value-Fine Tree.unsupported = tt
  cleanup_value-Fine (Tree.integer x) = tt
  cleanup_value-Fine (Tree.naive x) = tt
  cleanup_value-Fine (Tree.aware x) = tt
  cleanup_value-Fine (Tree.text x) = tt

  cleanup_subtrees-Fine : (subtrees : Trees) → Fine (λ c. Unit) (cleanup_subtrees subtrees)
  cleanup_subtrees-Fine Trees.nil = tt
  cleanup_subtrees-Fine (Trees.cons t rest) =
      Fine-bind (λ c. Unit) (λ c. Unit) (cleanup_commit_tree t) _ (cleanup-Fine t)
        (λ w u.
          Fine-bind (λ c. Unit) (λ c. Unit) (cleanup_subtrees rest) _ (cleanup_subtrees-Fine rest)
            (λ r s. tt))
