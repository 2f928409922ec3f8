-- ===== src/Merkle/Examples.antt =====
-- Machines with a name, facts and a certificate, in an empty store.
use zentral.Merkle.Commits.{get, verdict, Store, Row, Environment, commit}
use zentral.Merkle.Objects.{hash, mto_fields, get_mt_field, Stored, Field, Model, Object}
use zentral.Merkle.Trees.Reorder.{self, dict, end, item, swap_items, trans_items}
use zentral.Merkle.Trees.{is_empty_tree, Tree, Items, prepare_commit_tree, cleanup_commit_tree}
use Prim.Native.String.{◌++◌ as ◌<>◌}
use zentral.Base.{
  Bool, String, [], false, if◌then◌else◌, none, refl, some, true, ◌==◌, ◌∷◌, ◌≡◌, ◌⊎◌, nat_eq,
  string_eq, option_eq, bool_eq,
}
use zentral.Merkle.Results.{Error, ok, err, ◌>>=◌, is_ordinary}
use zentral.Merkle.Sorting.{is_before, insert}
use zentral.Merkle.Hasher.{add_field, hexdigest}
use zentral.Merkle.Trees.Again.{is_fresh, prepare-cleanup}
use zentral.Merkle.Commits.Depth.{commit_ends}
use zentral.Merkle.Trees.Nesting.{nests_within}
use zentral.Merkle.Commits.Repeat.{commit-SameTree}
use zentral.Merkle.Commits.Soundness.{IsSound, commit-IsSound}
use zentral.Merkle.Commits.Collisions.{split-joined, split_tree}
use zentral.Merkle.Commits.Hollow.{hollow-raises, hollow_tree, with_emptied, emptied}

abbrev plain_field : String → Field
plain_field name = record {
  name = name;
  auto_created = false;
  many_to_one = none;
  many_to_many = none;
  is_json = false;
  related_model = "";
  initial = Stored.scalar Tree.null;
}

abbrev json_field : String → Field
json_field name = record (plain_field name) { is_json = true }

abbrev foreign_key : String → String → Field
foreign_key name related = record (plain_field name) {
  many_to_one = some true;
  many_to_many = some false;
  related_model = related;
}

abbrev machine_model : Model
machine_model = record {
  fields =
      plain_field "id"
      ∷ plain_field "name"
      ∷ plain_field "version"
      ∷ json_field "facts"
      ∷ foreign_key "certificate" "certificate"
      ∷ [];
  mt_excluded_fields = [];
}

abbrev certificate_model : Model
certificate_model = record { fields = plain_field "sha" ∷ []; mt_excluded_fields = [] }

-- a digest that can be read, and no other process
abbrev sandbox : Environment
sandbox = record {
  sha1 = λ s. "#" <> s;
  make_naive = λ s. s;
  models = λ name. if name == "machine" then machine_model else certificate_model;
  meanwhile = λ st. st;
  violates = λ name obj. false;
  full_clean = λ name obj. true;
}

abbrev facts : Tree
facts =
    Tree.dict none (Items.item "disk" (Tree.integer "1") (Items.item "raid" Tree.null Items.end))

abbrev machine : Tree
machine = Tree.dict none (
    Items.item "name" (Tree.text "m1") (
      Items.item "facts" facts (
        Items.item "certificate" (Tree.dict none (Items.item "sha" (Tree.text "c0") Items.end))
          Items.end)))

abbrev kept_facts : Tree
kept_facts = Tree.dict none (Items.item "disk" (Tree.integer "1") Items.end)

abbrev certificate_row : Row
certificate_row = record {
  model = "certificate";
  object = record { mt_hash = "#shac0"; values = ("sha", Stored.scalar (Tree.text "c0")) ∷ [] };
}

abbrev machine_object : Object
machine_object = record {
  mt_hash = "#certificate#shac0facts#disk1namem1";
  values =
      ("certificate", Stored.reference "#shac0")
      ∷ ("facts", Stored.json kept_facts)
      ∷ ("name", Stored.scalar (Tree.text "m1"))
      ∷ [];
}

abbrev committed : Store
committed = certificate_row ∷ (record { model = "machine"; object = machine_object }) ∷ []

machine_committed : commit sandbox 3 "machine" machine [] ≡ (committed, ok (machine_object, true))
unfolding commit prepare_commit_tree add_field get_mt_field cleanup_commit_tree hexdigest insert
    hash verdict
machine_committed = refl

-- the same machine, with its keys in another order
abbrev reordered_machine : Tree
reordered_machine = Tree.dict none (
    Items.item "facts"
      (Tree.dict none
        (Items.item "raid" Tree.null (Items.item "disk" (Tree.integer "1") Items.end)))
      (Items.item "name" (Tree.text "m1") (
        Items.item "certificate" (Tree.dict none (Items.item "sha" (Tree.text "c0") Items.end))
          Items.end)))

commit-SameTree_example :
    commit sandbox 3 "machine" reordered_machine committed ≡ (committed, ok (machine_object, false))
commit-SameTree_example =
    commit-SameTree sandbox 3 "machine" machine reordered_machine [] committed machine_object true
      (dict
        (trans_items (swap_items refl) (item (dict (swap_items refl)) (item self (item self end)))))
      machine_committed

commit-IsSound_example : IsSound sandbox committed
unfolding IsSound
commit-IsSound_example =
    commit-IsSound sandbox (λ st i. i) 3 "machine" machine [] committed machine_object true
      (tt, refl) machine_committed

abbrev stamped_facts : Tree
stamped_facts = Tree.dict (some "#disk1") (Items.item "disk" (Tree.integer "1") Items.end)

prepare-cleanup_example :
    (cleanup_commit_tree (stamped_facts) >>= prepare_commit_tree (λ s. "#" <> s) (λ s. s))
    ≡ ok stamped_facts
unfolding is_fresh prepare_commit_tree add_field hexdigest insert
prepare-cleanup_example = prepare-cleanup (λ s. "#" <> s) (λ s. s) facts stamped_facts refl refl

abbrev joined_object : Object
joined_object = record {
  mt_hash = "#name1version2";
  values = ("name", Stored.scalar (Tree.text "1version2")) ∷ [];
}

abbrev joined_store : Store
joined_store = record { model = "machine"; object = joined_object } ∷ []

-- "version" with the value "2", or both in the name
split-joined_example :
    commit sandbox 1 "machine" (split_tree "name" "version" "1" "2") joined_store
    ≡ (joined_store, ok (joined_object, false))
unfolding is_before commit prepare_commit_tree add_field get_mt_field hash verdict hexdigest insert
split-joined_example =
    split-joined sandbox "name" "version" "1" "2" 1 "machine" [] joined_store joined_object true
      refl refl refl refl refl

hollow-raises_example :
    (commit sandbox 1 "machine" (hollow_tree "facts" "raid" Tree.null) [] ≡ (
      with_emptied sandbox "facts" "raid" Tree.null "machine" (json_field "facts") 0 [],
      err Error.hash_mismatch,
    ))
    × (commit sandbox 1 "machine"
          (hollow_tree "facts" "raid" Tree.null)
          (with_emptied sandbox "facts" "raid" Tree.null "machine" (json_field "facts") 0 [])
        ≡ (
          with_emptied sandbox "facts" "raid" Tree.null "machine" (json_field "facts") 0 [],
          ok (emptied "facts" "#facts#", false),
        ))
unfolding is_empty_tree get_mt_field mto_fields get
hollow-raises_example =
    hollow-raises sandbox "facts" "raid" Tree.null "machine" (json_field "facts") 0 [] refl refl
      refl refl refl refl refl refl refl refl refl

commit_ends_example :
    ((obj : Object) × ((created : Bool) × ((commit sandbox 3 "machine" machine []).1
          ≡ ok (obj, created))))
    ⊎ ((e : Error) × (((commit sandbox 3 "machine" machine []).1 ≡ err e) × (is_ordinary e ≡ true)))
unfolding nests_within
commit_ends_example = commit_ends sandbox 2 "machine" machine [] refl
