-- ===== src/Probes/Filters.antt =====
-- The three kinds of filters of zentral/core/probes/base.py. A set is a list.
pub mod Meaning
use zentral.Base.{
  Bool, List, Option, String, [], all, contains, false, if◌then◌else◌, is_empty, map, none, not,
  overlaps, some, true, ℕ, ◌&&◌, ◌==◌, ◌||◌, ◌∷◌, nat_eq, string_eq, option_eq,
}
use mathlib.Core.Option
use zentral.Probes.Attributes.{split_attribute}
use zentral.Probes.Payload.{Value, get_flattened_payload_values}

-- `data.get(attr, [])`
abbrev pub or_empty {ℓ} : {A : Type ℓ} → Option (List A) → List A
or_empty none = []
or_empty (some xs) = xs

-- The filters as they stand in the body of a probe source, where every key may be missing.
pub record InventoryData : Type 0 where
  pub meta_business_unit_ids : Option (List ℕ)
  pub tag_ids : Option (List ℕ)
  pub platforms : Option (List String)
  pub types : Option (List String)

pub record MetadataData : Type 0 where
  pub event_types : Option (List String)
  pub event_tags : Option (List String)

pub record PayloadItem : Type 0 where
  pub attribute : String
  pub operator : String
  pub values : List String

pub record InventoryFilter : Type 0 where
  pub meta_business_unit_ids : List ℕ
  pub tag_ids : List ℕ
  pub platforms : List String
  pub types : List String

pub record MetadataFilter : Type 0 where
  pub event_types : List String
  pub event_tags : List String

unfoldable pub inventory_filter : InventoryData → InventoryFilter
inventory_filter d = record {
  meta_business_unit_ids = or_empty d.meta_business_unit_ids;
  tag_ids = or_empty d.tag_ids;
  platforms = or_empty d.platforms;
  types = or_empty d.types;
}

unfoldable pub metadata_filter : MetadataData → MetadataFilter
metadata_filter d = record {
  event_types = or_empty d.event_types;
  event_tags = or_empty d.event_tags;
}

-- `MetaMachine.cached_probe_filtering_values`
pub record MachineValues : Type 0 where
  pub platform : Option String
  pub type : Option String
  pub meta_business_unit_ids : List ℕ
  pub tag_ids : List ℕ

abbrev pub contains_option : List String → Option String → Bool
contains_option xs none = false
contains_option xs (some s) = contains xs s

-- An empty set of a filter accepts every machine.
unfoldable pub InventoryFilter_test_machine : InventoryFilter → MachineValues → Bool
InventoryFilter_test_machine f m =
    if not (is_empty f.meta_business_unit_ids)
      && not (overlaps f.meta_business_unit_ids m.meta_business_unit_ids)
    then false
    else if not (is_empty f.tag_ids) && not (overlaps f.tag_ids m.tag_ids)
    then false
    else if not (is_empty f.platforms) && not (contains_option f.platforms m.platform)
    then false
    else if not (is_empty f.types) && not (contains_option f.types m.type)
    then false
    else true

pub record Metadata : Type 0 where
  pub event_type : String
  pub all_tags : List String
  pub machine_serial_number : Option String
  pub machine : MachineValues

unfoldable pub MetadataFilter_test : MetadataFilter → Metadata → Bool
MetadataFilter_test f m =
    if not (is_empty f.event_types) && not (contains f.event_types m.event_type)
    then false
    else if not (is_empty f.event_tags) && not (overlaps m.all_tags f.event_tags)
    then false
    else true

abbrev pub is_operator : String → Bool
is_operator o = o == "IN" || o == "NOT_IN"

unfoldable pub keep_item : PayloadItem → Option (List PayloadItem) → Option (List PayloadItem)
keep_item d none = none
keep_item d (some ds) = some (if is_empty d.values then ds else d ∷ ds)

-- The loop of `PayloadFilter.__init__`: an item without values is dropped, an unknown operator is a
-- `ValueError`, here `none`.
unfoldable pub payload_items : List PayloadItem → Option (List PayloadItem)
unfolding keep_item
payload_items [] = some []
payload_items (d ∷ ds) =
    let rest = payload_items ds in if is_operator d.operator then keep_item d rest else none

-- `sort` is the `list.sort` of Python. Elements with the same attribute and operator are compared by
-- the inclusion of their sets, so the order that it makes is not one of the items alone.
unfoldable pub payload_filter :
    (List PayloadItem → List PayloadItem) → List PayloadItem → Option (List PayloadItem)
payload_filter sort ds = Option.map sort (payload_items ds)

-- Do the values of an item and those of the payload have one in common?
abbrev pub common_values : (Value → String) → Value → PayloadItem → Bool
common_values str payload d =
    let path = split_attribute d.attribute in
    overlaps d.values (get_flattened_payload_values str payload path.0 path.1)

unfoldable pub test_item : (Value → String) → Value → PayloadItem → Bool
test_item str payload d =
    let common = common_values str payload d in
    not ((d.operator == "IN" && not common) || (d.operator == "NOT_IN" && common))

unfoldable pub test_event_payload : (Value → String) → List PayloadItem → Value → Bool
unfolding test_item
test_event_payload str items payload = all (test_item str payload) items
