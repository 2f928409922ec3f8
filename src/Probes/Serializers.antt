-- ===== src/Probes/Serializers.antt =====
-- The serializers of zentral/core/probes/base.py. `clean` is the `CharField` of the REST framework: what it
-- makes of a text (it trims it), or `none` when it refuses the text (one that is blank).
use zentral.Base.{
  Bool, List, Option, String, [], all, contains, false, if◌then◌else◌, is_empty, none, not, some,
  true, ℕ, ◌&&◌, ◌==◌, ◌>>=◌, ◌||◌, ◌∷◌, nat_eq, string_eq, option_eq, bool_eq,
}
use mathlib.Core.Option
use zentral.Probes.Payload.{Value}
use zentral.Probes.Filters.{InventoryData, MetadataData, PayloadItem, is_operator, or_empty}

-- The body of a probe source. Every key may be missing.
pub record FiltersData : Type 0 where
  pub inventory : Option (List InventoryData)
  pub metadata : Option (List MetadataData)
  pub payload : Option (List (List PayloadItem))

pub record Body : Type 0 where
  pub filters : Option FiltersData
  pub actions : Option (List (String × Value))
  pub incident_severity : Option ℕ

-- `PLATFORM_CHOICES` and `TYPE_CHOICES` of zentral/contrib/inventory/conf.py
abbrev pub platform_choices : List String
platform_choices = "LINUX" ∷ "MACOS" ∷ "WINDOWS" ∷ "ANDROID" ∷ "IOS" ∷ "IPADOS" ∷ "TVOS" ∷ []

abbrev pub type_choices : List String
type_choices = "DESKTOP" ∷ "LAPTOP" ∷ "MOBILE" ∷ "SERVER" ∷ "TABLET" ∷ "TV" ∷ "VM" ∷ []

-- Python's truth of a list that may be missing
abbrev pub has_items {ℓ} : {A : Type ℓ} → Option (List A) → Bool
has_items none = false
has_items (some xs) = not (is_empty xs)

-- A `ListField`: one item that is refused refuses the list.
abbrev pub list_field : {A B : Type 0} → (A → Option B) → List A → Option (List B)
list_field field [] = some []
list_field field (x ∷ xs) = field x >>= λ y. list_field field xs >>= λ ys. some (y ∷ ys)

-- A field with `required=False`
abbrev pub optional : {A B : Type 0} → (A → Option B) → Option A → Option (Option B)
optional field none = some none
optional field (some x) = Option.map some (field x)

abbrev pub restricts : InventoryData → Bool
restricts d =
    has_items d.meta_business_unit_ids
    || (has_items d.tag_ids || (has_items d.platforms || has_items d.types))

abbrev pub has_choices : InventoryData → Bool
has_choices d =
    all (contains platform_choices) (or_empty d.platforms)
    && all (contains type_choices) (or_empty d.types)

-- `InventoryFilterSerializer`
unfoldable pub valid_inventory : InventoryData → Option InventoryData
valid_inventory d = if has_choices d && restricts d then some d else none

-- `MetadataFiltersSerializer`
unfoldable pub valid_metadata : (String → Option String) → MetadataData → Option MetadataData
valid_metadata clean d = optional (list_field clean) d.event_types >>= λ event_types.
    optional (list_field clean) d.event_tags >>= λ event_tags.
    if has_items event_types || has_items event_tags
    then some (record { event_types = event_types; event_tags = event_tags })
    else none

-- `PayloadFilterItemSerializer`
unfoldable pub valid_item : (String → Option String) → PayloadItem → Option PayloadItem
valid_item clean d = clean d.attribute >>= λ attribute. list_field clean d.values >>= λ values.
    if is_operator d.operator
    then some (record { attribute = attribute; operator = d.operator; values = values })
    else none

-- `FiltersSerializer`
unfoldable pub valid_filters : (String → Option String) → FiltersData → Option FiltersData
valid_filters clean f = optional (list_field valid_inventory) f.inventory >>= λ inventory.
    optional (list_field (valid_metadata clean)) f.metadata >>= λ metadata.
    optional (list_field (list_field (valid_item clean))) f.payload >>= λ payload.
    some (record { inventory = inventory; metadata = metadata; payload = payload })

-- `SEVERITY_CHOICES`, and `allow_null`
abbrev pub is_valid_severity : Option ℕ → Bool
is_valid_severity none = true
is_valid_severity (some n) = n == 300 || (n == 200 || n == 100)

-- `BaseProbeSerializer`: its `validated_data`, or `none` when `is_valid()` is false.
unfoldable pub validated_data : (String → Option String) → Body → Option Body
validated_data clean b = optional (valid_filters clean) b.filters >>= λ filters.
    if is_valid_severity b.incident_severity then some (record b { filters = filters }) else none

unfoldable pub is_valid : (String → Option String) → Body → Bool
is_valid clean b = elim (validated_data clean b) [ none ↦ false | some d ↦ true ]
