-- ===== src/Probes/Probe.antt =====
-- `BaseProbe` of zentral/core/probes/base.py: a probe is loaded from the body of its source, and then
-- tests events and machines.
pub mod Validation
pub mod Loading
pub mod Sharing
pub mod Widening
use zentral.Base.{
  Bool, List, Option, String, [], any, contains, false, if◌then◌else◌, is_empty, map, none, not,
  select, some, true, truthy, ℕ, ◌&&◌, ◌==◌, ◌∷◌, nat_eq, string_eq, option_eq, bool_eq,
}
use mathlib.Core.Option
use zentral.Probes.Payload.{Value}
use zentral.Probes.Serializers.{Body, FiltersData, validated_data}
use zentral.Probes.Filters.{
  InventoryData, MetadataData, PayloadItem, InventoryFilter, MetadataFilter, inventory_filter,
  metadata_filter, payload_filter, MachineValues, Metadata, InventoryFilter_test_machine,
  MetadataFilter_test, test_event_payload, or_empty, is_operator,
}

-- What the subclasses of `BaseProbe` set, and what the server has: `available` names the actions,
-- `clean` is the `CharField` of the serializers, and `sort` is Python's.
pub record Settings : Type 0 where
  pub forced_event_type : Option String
  pub can_edit_payload_filters : Bool
  pub available : List String
  pub clean : String → Option String
  pub sort : List PayloadItem → List PayloadItem

pub record Probe : Type 0 where
  pub loaded : Bool
  pub inventory_filters : List InventoryFilter
  pub metadata_filters : List MetadataFilter
  pub payload_filters : List (List PayloadItem)
  pub actions : List (String × Value)
  pub incident_severity : Option ℕ

abbrev pub no_filters : FiltersData
no_filters = record { inventory = none; metadata = none; payload = none }

abbrev pub filters_of : Body → FiltersData
filters_of b = Option.get_or b.filters no_filters

unfoldable pub add_filter :
    Option (List PayloadItem) → Option (List (List PayloadItem)) → Option (List (List PayloadItem))
add_filter none rest = none
add_filter (some f) none = none
add_filter (some f) (some fs) = some (f ∷ fs)

unfoldable pub load_payload_filters :
    (List PayloadItem → List PayloadItem)
    → List (List PayloadItem)
    → Option (List (List PayloadItem))
unfolding add_filter
load_payload_filters sort [] = some []
load_payload_filters sort (ds ∷ dss) =
    add_filter (payload_filter sort ds) (load_payload_filters sort dss)

-- The metadata filters of the body are replaced if there is a forced event type.
abbrev pub metadata_to_load : Option String → List MetadataData → List MetadataData
metadata_to_load none ds = ds
metadata_to_load (some t) ds =
    if t == "" then ds else record { event_types = some (t ∷ []); event_tags = none } ∷ []

-- The subclasses without payload filters of their own override the empty list.
abbrev pub payload_to_load : Bool → List (List PayloadItem) → List (List PayloadItem)
payload_to_load can_edit ds = if can_edit then ds else []

abbrev pub known_actions : List String → List (String × Value) → List (String × Value)
known_actions available actions = select (λ a. contains available a.0) actions

unfoldable pub load_validated_data : Settings → Body → Option Probe
load_validated_data c b =
    let f = filters_of b in
    Option.map
      (λ payload. record {
        loaded = true;
        inventory_filters = map inventory_filter (or_empty f.inventory);
        metadata_filters =
            map metadata_filter (metadata_to_load c.forced_event_type (or_empty f.metadata));
        payload_filters = payload;
        actions = known_actions c.available (or_empty b.actions);
        incident_severity = b.incident_severity;
      })
      (load_payload_filters c.sort
        (payload_to_load c.can_edit_payload_filters (or_empty f.payload)))

-- A probe that is not valid has its errors and none of the attributes that the loading sets.
abbrev pub unloaded : Probe
unloaded = record {
  loaded = false;
  inventory_filters = [];
  metadata_filters = [];
  payload_filters = [];
  actions = [];
  incident_severity = none;
}

unfoldable pub load_validated : Settings → Option Body → Option Probe
unfolding load_validated_data
load_validated c none = some unloaded
load_validated c (some d) = load_validated_data c d

-- `none` is an exception.
unfoldable pub load : Settings → Body → Option Probe
unfolding load_validated
load c b = load_validated c (validated_data c.clean b)

-- The filters of a section: none accepts all, and one that accepts is enough.
abbrev pub accepts {ℓ} : {A : Type ℓ} → (A → Bool) → List A → Bool
accepts q fs = if is_empty fs then true else any q fs

unfoldable pub test_machine : Probe → MachineValues → Bool
test_machine p m =
    if not p.loaded
    then false
    else accepts (λ f. InventoryFilter_test_machine f m) p.inventory_filters

unfoldable pub test_metadata : Probe → Metadata → Bool
test_metadata p m = accepts (λ f. MetadataFilter_test f m) p.metadata_filters

unfoldable pub test_payload : (Value → String) → Probe → Value → Bool
test_payload str p payload = accepts (λ f. test_event_payload str f payload) p.payload_filters

pub record Event : Type 0 where
  pub event_type : String
  pub metadata : Metadata
  pub payload : Value

abbrev pub test_type : Settings → Probe → Event → Bool
test_type c p e =
    if truthy c.forced_event_type
    then some e.event_type == c.forced_event_type
    else test_metadata p e.metadata

unfoldable pub test_event : (Value → String) → Settings → Probe → Event → Bool
test_event str c p e =
    if not p.loaded
    then false
    else if truthy e.metadata.machine_serial_number && not (test_machine p e.metadata.machine)
    then false
    else if not (test_type c p e)
    then false
    else test_payload str p e.payload

unfoldable pub shared_filters : Settings → FiltersData → FiltersData
shared_filters c f = record {
  inventory = none;
  metadata = if c.forced_event_type == none then f.metadata else none;
  payload = if c.can_edit_payload_filters then f.payload else none;
}

-- The body of `export`: without the actions, the inventory filters, and the filters that the
-- subclass does not let one edit.
unfoldable pub export_body : Settings → Body → Body
unfolding shared_filters
export_body c b = record b { actions = none; filters = Option.map (shared_filters c) b.filters }
