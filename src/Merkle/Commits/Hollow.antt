-- ===== src/Merkle/Commits/Hollow.antt =====
-- A JSON field whose dictionary has only empty values.
use Prim.Native.String.{◌++◌ as ◌<>◌}
use text.Mathlib.TextLemmas.{append-nil}
use zentral.Base.{
  Bool, Bool-cases, List, String, [], all, and-left, and-right, ap, arith, beq_refl, false,
  false_of_not, if◌then◌else◌, inl, inr, none, not, refl, some, suc, true, ℕ, ◌&&◌, ◌++◌, ◌==◌,
  ◌||◌, ◌∙◌, ◌∷◌, ◌≡◌, nat_eq, string_eq, option_eq, bool_eq,
}
use zentral.Merkle.Results.{Error, ok, err, ok_bind}
use zentral.Merkle.Sorting.{insert}
use zentral.Merkle.Hasher.{Value, Entry, hexdigest, digest_texts, add_field, entry_text}
use zentral.Merkle.Trees.{
  Tree, Items, prepare_commit_tree, stamped, is_empty_tree, cleanup_commit_tree,
}
use zentral.Merkle.Objects.{
  Object, Field, Model, Stored, get_mt_field, mto_fields, hash, hash_fields, hashed_value, value_of,
}
use zentral.Merkle.Objects.Blank.{
  is_blank, empty_dict-is_empty, emptied_value, hashed_blank, blank_value,
}
use zentral.Merkle.Commits.{
  Store, Environment, commit, commit_prepared, save_draft, save_object, checked, verdict, fill,
  fill_field, fill_dict, json_value, set_attribute, get,
}
use zentral.Merkle.Commits.Steps.{get-append}

module _ (k : String) where
  -- the object whose JSON field has been emptied
  abbrev pub emptied : String → Object
  emptied h = record { mt_hash = h; values = (k, Stored.json (Tree.dict none Items.end)) ∷ [] }

  -- a dictionary with one field, whose value is empty
  abbrev pub hollow_tree : String → Tree → Tree
  hollow_tree j v =
      Tree.dict none (Items.item k (Tree.dict none (Items.item j v Items.end)) Items.end)

  value_of-emptied :
      (h : String) (f : Field)
      → value_of (emptied h) f
        ≡ (if k == f.name then Stored.json (Tree.dict none Items.end) else f.initial)
  unfolding value_of
  value_of-emptied h f = by_test (k == f.name)
    where
      by_test :
          (b : Bool)
          → (elim (if b then some (Stored.json (Tree.dict none Items.end)) else none) [
            | some v ↦ v
            | none ↦ f.initial
          ])
            ≡ (if b then Stored.json (Tree.dict none Items.end) else f.initial)
      by_test true = refl
      by_test false = refl

  -- every other field is blank
  abbrev pub leaves_blank : Field → Bool
  leaves_blank f = not (f.name == "") && ((k == f.name) || is_blank f.initial)

  module _ (sha1 make_naive : String → String) where
    hash_fields-emptied :
        (h : String) (fs : List Field)
        → all leaves_blank fs ≡ true
        → hash_fields sha1 make_naive (emptied h) fs [] ≡ ok []
    unfolding hash_fields
    hash_fields-emptied h [] blank = refl
    hash_fields-emptied h (f ∷ fs) blank =
        let rest = hash_fields-emptied h fs (and-right _ _ blank) in
        elim (Bool-cases (k == f.name)) [
          | inl same ↦
              hashed_blank sha1 make_naive (emptied h) f fs Value.empty_dict named
                (ap (hashed_value sha1 make_naive f.is_json) (value_of-emptied h f ∙ ap choice same)
                  ∙ emptied_value sha1 make_naive f.is_json)
                (empty_dict-is_empty) rest
          | inr other ↦
              let b = blank_value sha1 make_naive f.is_json f.initial (blank_initial other) in
              hashed_blank sha1 make_naive (emptied h) f fs b.0 named
                (ap (hashed_value sha1 make_naive f.is_json)
                    (value_of-emptied h f ∙ ap choice other)
                  ∙ b.1.0)
                b.1.1 rest
        ]
      where
        choice : Bool → Stored
        choice b = if b then Stored.json (Tree.dict none Items.end) else f.initial

        blank_initial : (k == f.name) ≡ false → is_blank f.initial ≡ true
        blank_initial other = ground arith

        named : (f.name == "") ≡ false
        named = false_of_not (f.name == "") (and-left _ _ (and-left _ _ blank))

    -- what is hashed afterwards is nothing
    hash-emptied :
        (h : String) (model : Model)
        → all leaves_blank (mto_fields model) ≡ true
        → hash sha1 make_naive model (emptied h) ≡ ok (sha1 "")
    unfolding hash hexdigest
    hash-emptied h model blank = ok_bind _ (hash_fields-emptied h (mto_fields model) blank) refl

    digest_hollow : digest_texts (k ∷ []) ((k, Entry.one (sha1 "")) ∷ []) ≡ k <> sha1 ""
    unfolding digest_texts entry_text
    digest_hollow = rw (beq_refl k, append-nil (sha1 "")) refl

    prepare-hollow :
        (j : String) (v : Tree)
        → (k == "") ≡ false
        → is_empty_tree v ≡ true
        → prepare_commit_tree sha1 make_naive (hollow_tree j v)
          ≡ ok (
              Tree.dict
                (some (sha1 (k <> sha1 "")))
                (Items.item k (Tree.dict (some (sha1 "")) Items.end) Items.end))
    unfolding prepare_commit_tree stamped add_field hexdigest insert is_empty_tree
    prepare-hollow j v named empty = rw (empty, named, digest_hollow) refl

module _ (env : Environment) (k j : String) (v : Tree) (model : String) (f : Field) (depth : ℕ)
    (st : Store) where
  -- the store after the object has been saved
  abbrev pub with_emptied : Store
  with_emptied =
      env.meanwhile st
      ++ (record { model = model; object = emptied k (env.sha1 (k <> env.sha1 "")) } ∷ [])

  -- A JSON field, whose name is not empty and which is no foreign key, is given a dictionary with one
  -- field, whose value is empty. Every other field of the model has a name and is blank, the digests of
  -- the field's name with the digest of nothing, and of nothing, differ, no row has the first one, also
  -- after what other processes store, and the database and `full_clean` accept the object. Then a
  -- commit saves the object and raises the error that the hashes differ, and the same commit
  -- afterwards returns that object.
  pub hollow-raises :
      (k == "") ≡ false
      → is_empty_tree v ≡ true
      → get_mt_field (env.models model) k (some true) none ≡ err Error.mto_error
      → get_mt_field (env.models model) k none none ≡ ok f
      → f.is_json ≡ true
      → all (leaves_blank k) (mto_fields (env.models model)) ≡ true
      → (env.sha1 "" == env.sha1 (k <> env.sha1 "")) ≡ false
      → get model (env.sha1 (k <> env.sha1 "")) st ≡ none
      → get model (env.sha1 (k <> env.sha1 "")) (env.meanwhile st) ≡ none
      → env.violates model (emptied k (env.sha1 (k <> env.sha1 ""))) ≡ false
      → env.full_clean model (emptied k (env.sha1 (k <> env.sha1 ""))) ≡ true
      → (commit env (suc depth) model (hollow_tree k j v) st
          ≡ (with_emptied, err Error.hash_mismatch))
        × (commit env (suc depth) model (hollow_tree k j v) with_emptied
            ≡ (with_emptied, ok (emptied k (env.sha1 (k <> env.sha1 "")), false)))
  unfolding commit commit_prepared save_draft save_object checked verdict fill fill_field fill_dict
      json_value set_attribute cleanup_commit_tree
  hollow-raises named empty plain field is_json blank differ new still_new accepted clean = (
    rw
        (
          prepare-hollow k env.sha1 env.make_naive j v named empty,
          new,
          plain,
          field,
          is_json,
          still_new,
          accepted,
          clean,
          hash-emptied k env.sha1 env.make_naive _ (env.models model) blank,
          differ,
        )
        refl,
    rw
        (
          prepare-hollow k env.sha1 env.make_naive j v named empty,
          get-append model _ (env.meanwhile st)
              (record { model = model; object = emptied k (env.sha1 (k <> env.sha1 "")) }) still_new
              refl refl,
        )
        refl,
  )
