-- ===== src/Probes/Payload.antt =====
-- `get_flattened_payload_values` of zentral/core/probes/base.py.
pub mod Values
use zentral.Base.{List, String, [], if◌then◌else◌, ◌++◌, ◌==◌, ◌∷◌, nat_eq, string_eq, option_eq}

-- The payload of an event, as the JSON that it is. A `scalar` is a text, a number or a Boolean, by
-- its `str()`. The keys of an object differ from each other.
mutual
  pub data Value : Type 0 where
    object : Members → Value
    array : Elements → Value
    scalar : String → Value
    null : Value

  pub data Members : Type 0 where
    no_members : Members
    member : String → Value → Members → Members

  pub data Elements : Type 0 where
    no_elements : Elements
    item : Value → Elements → Elements

unfoldable pub strings : (Value → String) → Elements → List String
strings str no_elements = []
strings str (item v vs) = str v ∷ strings str vs

-- The value of the last attribute: an array gives the text of each of its items.
unfoldable pub leaf_strings : (Value → String) → Value → List String
unfolding strings
leaf_strings str null = []
leaf_strings str (array vs) = strings str vs
leaf_strings str (scalar s) = str (scalar s) ∷ []
leaf_strings str (object fs) = str (object fs) ∷ []

-- The attributes are a first one and the others, as `split` never returns an empty list. What is no
-- array and no object gives nothing (and a warning); so does a missing or a null attribute.
-- `str` is Python's, which has its own text for nested arrays and objects.
unfoldable mutual
  unfolding leaf_strings

  pub get_flattened_payload_values : (Value → String) → Value → String → List String → List String
  get_flattened_payload_values str null attr attrs = []
  get_flattened_payload_values str (scalar s) attr attrs = []
  get_flattened_payload_values str (array vs) attr attrs = flattened_items str vs attr attrs
  get_flattened_payload_values str (object fs) attr attrs = flattened_field str fs attr attrs

  pub flattened_items : (Value → String) → Elements → String → List String → List String
  flattened_items str no_elements attr attrs = []
  flattened_items str (item v vs) attr attrs =
      get_flattened_payload_values str v attr attrs ++ flattened_items str vs attr attrs

  pub flattened_field : (Value → String) → Members → String → List String → List String
  flattened_field str no_members attr attrs = []
  flattened_field str (member k v fs) attr [] =
      let others = flattened_field str fs attr [] in
      if k == attr then leaf_strings str v else others
  flattened_field str (member k v fs) attr (next ∷ attrs) =
      let others = flattened_field str fs attr (next ∷ attrs) in
      let nested = get_flattened_payload_values str v next attrs in
      if k == attr then nested else others
