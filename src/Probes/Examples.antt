-- ===== src/Probes/Examples.antt =====
-- The theorems on zentral/core/probes at concrete probes and events.
use mathlib.Core.List.{Permᴰ}
use mathlib.Core.Option
use zentral.Base.{
  All, Bool-cases, List, Option, String, [], false, if◌then◌else◌, inl, inr, none, refl, some, true,
  truthy, ◌==◌, ◌↔◌, ◌∷◌, ◌≡◌, nat_eq, string_eq, option_eq, bool_eq,
}
use zentral.Probes.Payload.{
  Value, scalar, array, object, no_elements, item, no_members, member, get_flattened_payload_values,
}
use zentral.Probes.Payload.Values.{IsIn, Reaches, get_flattened_payload_values_lem}
use zentral.Probes.Filters.{
  PayloadItem, payload_filter, payload_items, keep_item, test_event_payload, Metadata,
  MachineValues,
}
use zentral.Probes.Filters.Meaning.{Holds, test_event_payload_lem}
use zentral.Probes.Serializers.{
  Body, is_valid, validated_data, valid_filters, valid_inventory, valid_metadata, valid_item,
}
use zentral.Probes.Probe.{
  Settings, Probe, Event, load, load_validated, load_validated_data, load_payload_filters,
  export_body, test_event,
}
use zentral.Probes.Probe.Validation.{RefusesBlank}
use zentral.Probes.Probe.Loading.{load-IsUsable, IsUsable}
use zentral.Probes.Probe.Sharing.{export-load}

-- The text of a nested array or object does not matter here.
abbrev str : Value → String
str (scalar s) = s
str _ = "?"

-- {"app": [{"id": "a"}, {"id": "b"}]}
abbrev payload : Value
payload = object (
    member "app"
      (array (
        item (object (member "id" (scalar "a") no_members))
          (item (object (member "id" (scalar "b") no_members)) no_elements)))
      no_members)

abbrev wants_b : PayloadItem
wants_b = record { attribute = "app.id"; operator = "IN"; values = "b" ∷ [] }

abbrev refuses_c : PayloadItem
refuses_c = record { attribute = "app.id"; operator = "NOT_IN"; values = "c" ∷ [] }

-- One that leaves the order as it is.
abbrev keep : List PayloadItem → List PayloadItem
keep l = l

-- One that refuses the empty text and trims nothing.
abbrev clean : String → Option String
clean s = if s == "" then none else some s

abbrev machine : MachineValues
machine = record { platform = none; type = none; meta_business_unit_ids = []; tag_ids = [] }

abbrev metadata : Metadata
metadata = record {
  event_type = "santa_event";
  all_tags = [];
  machine_serial_number = none;
  machine = machine;
}

abbrev event : Event
event = record { event_type = "santa_event"; metadata = metadata; payload = payload }

abbrev settings : Option String → Settings
settings forced = record {
  forced_event_type = forced;
  can_edit_payload_filters = true;
  available = [];
  clean = clean;
  sort = keep;
}

abbrev body : Body
body = record {
  filters = some (record {
    inventory = none;
    metadata = none;
    payload = some ((wants_b ∷ refuses_c ∷ []) ∷ []);
  });
  actions = none;
  incident_severity = some 200;
}

abbrev probe : Option String → Probe
probe forced = Option.get_or (load (settings forced) body) (record {
  loaded = false;
  inventory_filters = [];
  metadata_filters = [];
  payload_filters = [];
  actions = [];
  incident_severity = none;
})

same_order : (l : List PayloadItem) → Permᴰ (keep l) l
same_order [] = Permᴰ.nil
same_order (d ∷ l) = Permᴰ.cons refl (same_order l)

get_flattened_payload_values_lem_example :
    IsIn "b" (get_flattened_payload_values str payload "app" ("id" ∷ []))
    ↔ Reaches str payload "app" ("id" ∷ []) "b"
get_flattened_payload_values_lem_example =
    get_flattened_payload_values_lem str payload "app" ("id" ∷ []) "b"

test_event_payload_lem_example :
    (test_event_payload str (wants_b ∷ refuses_c ∷ []) payload ≡ true)
    ↔ All (Holds str payload) (wants_b ∷ refuses_c ∷ [])
unfolding payload_filter payload_items keep_item
test_event_payload_lem_example =
    test_event_payload_lem str keep same_order (wants_b ∷ refuses_c ∷ []) (wants_b ∷ refuses_c ∷ [])
      payload refl

-- A body with filters of each kind, and an action that is not available.
abbrev full_body : Body
full_body = record {
  filters = some (record {
    inventory = some (
        record {
          meta_business_unit_ids = none;
          tag_ids = some (1 ∷ []);
          platforms = some ("MACOS" ∷ []);
          types = none;
        }
        ∷ []);
    metadata = some (record { event_types = some ("santa_event" ∷ []); event_tags = none } ∷ []);
    payload = some ((wants_b ∷ refuses_c ∷ []) ∷ []);
  });
  actions = some (("unknown", scalar "") ∷ []);
  incident_severity = some 300;
}

full_body-is_valid : is_valid clean full_body ≡ true
unfolding is_valid validated_data valid_filters valid_inventory valid_metadata valid_item
full_body-is_valid = refl

-- The same body with a platform that is not a choice.
unknown_platform-refused :
    is_valid clean (record full_body {
      filters = some (record {
        inventory = some (
            record {
              meta_business_unit_ids = none;
              tag_ids = none;
              platforms = some ("FOO" ∷ []);
              types = none;
            }
            ∷ []);
        metadata = none;
        payload = none;
      });
    })
    ≡ false
unfolding is_valid validated_data valid_filters valid_inventory valid_metadata valid_item
unknown_platform-refused = refl

never_blank : RefusesBlank clean
never_blank s = elim (Bool-cases (s == "")) [ inl e ↦ rw e refl | inr e ↦ rw (e, e) refl ]

load-IsUsable_example :
    (p : Probe) × (load (settings none) full_body ≡ some p)
    × (p.loaded ≡ is_valid clean full_body)
    × IsUsable (settings none) p
load-IsUsable_example = load-IsUsable (settings none) full_body never_blank same_order

export-load_example :
    (q : Probe) × (load (settings none) (export_body (settings none) body) ≡ some q)
    × (q.inventory_filters ≡ [])
    × (q.actions ≡ [])
    × ((e : Event)
        → truthy e.metadata.machine_serial_number ≡ false
        → test_event str (settings none) q e ≡ test_event str (settings none) (probe none) e)
unfolding load load_validated load_validated_data load_payload_filters payload_filter payload_items
    is_valid validated_data valid_filters valid_item
export-load_example = export-load str (settings none) body (probe none) refl refl refl
