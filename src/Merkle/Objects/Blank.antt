-- ===== src/Merkle/Objects/Blank.antt =====
-- The fields of an object that add nothing to its hash.
use zentral.Base.{
  Bool, List, String, [], arith, false, none, refl, true, ◌==◌, ◌∷◌, ◌≡◌, nat_eq, string_eq,
  option_eq, bool_eq,
}
use zentral.Merkle.Results.{ok, ok_bind}
use zentral.Merkle.Hasher.{Value, add_field, is_empty_value}
use zentral.Merkle.Trees.{Tree, Items}
use zentral.Merkle.Objects.{Object, Field, Stored, hash_fields, hashed_value, value_of}

-- a field that adds nothing to the hash
abbrev pub is_blank : Stored → Bool
is_blank (Stored.scalar Tree.null) = true
is_blank (Stored.references []) = true
is_blank _ = false

pub empty_dict-is_empty : is_empty_value Value.empty_dict ≡ true
unfolding is_empty_value
empty_dict-is_empty = refl

module _ (sha1 make_naive : String → String) where
  add_field-empty :
      (name : String) (v : Value)
      → (name == "") ≡ false
      → is_empty_value v ≡ true
      → add_field make_naive name v [] ≡ ok []
  unfolding add_field
  add_field-empty name v named empty = rw (named, empty) refl

  pub emptied_value :
      (is_json : Bool)
      → hashed_value sha1 make_naive is_json (Stored.json (Tree.dict none Items.end))
        ≡ ok Value.empty_dict
  unfolding hashed_value
  emptied_value is_json = refl

  pub hashed_blank :
      (obj : Object) (f : Field) (fs : List Field) (v : Value)
      → (f.name == "") ≡ false
      → hashed_value sha1 make_naive f.is_json (value_of obj f) ≡ ok v
      → is_empty_value v ≡ true
      → hash_fields sha1 make_naive obj fs [] ≡ ok []
      → hash_fields sha1 make_naive obj (f ∷ fs) [] ≡ ok []
  unfolding hash_fields
  hashed_blank obj f fs v named value empty rest =
      ok_bind _ value (ok_bind _ (add_field-empty f.name v named empty) rest)

  pub blank_value :
      (is_json : Bool) (s : Stored)
      → is_blank s ≡ true
      → (v : Value) × ((hashed_value sha1 make_naive is_json s ≡ ok v) × (is_empty_value v ≡ true))
  unfolding hashed_value is_empty_value
  blank_value is_json (Stored.scalar Tree.null) h = (Value.null, (refl, refl))
  blank_value is_json (Stored.scalar Tree.unsupported) h = absurd (ground arith)
  blank_value is_json (Stored.scalar (Tree.integer x)) h = absurd (ground arith)
  blank_value is_json (Stored.scalar (Tree.naive x)) h = absurd (ground arith)
  blank_value is_json (Stored.scalar (Tree.aware x)) h = absurd (ground arith)
  blank_value is_json (Stored.scalar (Tree.text x)) h = absurd (ground arith)
  blank_value is_json (Stored.scalar (Tree.dict x fields)) h = absurd (ground arith)
  blank_value is_json (Stored.scalar (Tree.list x)) h = absurd (ground arith)
  blank_value is_json (Stored.json x) h = absurd (ground arith)
  blank_value is_json (Stored.reference x) h = absurd (ground arith)
  blank_value is_json (Stored.references []) h = (Value.texts [], (refl, refl))
  blank_value is_json (Stored.references (x ∷ xs)) h = absurd (ground arith)
