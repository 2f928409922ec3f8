-- ===== src/Probes/Probe/Validation.antt =====
-- What the serializers of zentral/core/probes/base.py make sure of.
use mathlib.Core.Option.{some-injective}
use zentral.Base.{
  Bool, List, Option, String, [], all, arith, bind-some, contains, false, if-some, is_empty, none,
  not, refl, some, some-of_map, subst, true, ◌&&◌, ◌==◌, ◌||◌, ◌∷◌, ◌≡◌, nat_eq, string_eq,
  option_eq, bool_eq,
}
use mathlib.Core.Option
use zentral.Probes.Filters.{
  InventoryData, InventoryFilter, MetadataData, MetadataFilter, PayloadItem, inventory_filter,
  metadata_filter, is_operator, or_empty,
}
use zentral.Probes.Serializers.{
  Body, FiltersData, platform_choices, type_choices, has_choices, restricts, has_items, list_field,
  optional, valid_inventory, valid_metadata, valid_item, valid_filters, validated_data,
  is_valid_severity,
}
use zentral.Probes.Probe.{filters_of, no_filters}

-- A filter that names no unknown platform or type, and that does not accept every machine.
abbrev pub narrows_machines : InventoryFilter → Bool
narrows_machines f =
    all (contains platform_choices) f.platforms
    && (all (contains type_choices) f.types
        && not (
            is_empty f.meta_business_unit_ids
            && (is_empty f.tag_ids && (is_empty f.platforms && is_empty f.types))))

abbrev pub is_text : String → Bool
is_text s = not (s == "")

-- A filter without blank texts that does not accept every event.
abbrev pub narrows_events : MetadataFilter → Bool
narrows_events f =
    all is_text f.event_types
    && (all is_text f.event_tags && not (is_empty f.event_types && is_empty f.event_tags))

abbrev pub is_valid_item : PayloadItem → Bool
is_valid_item d = is_operator d.operator && (is_text d.attribute && all is_text d.values)

-- What is relied on of a `CharField`: it never gives the blank text.
abbrev pub RefusesBlank : (String → Option String) → Type 0
RefusesBlank clean = (s : String) → (clean s == some "") ≡ false

clean-is_text :
    (clean : String → Option String)
    → RefusesBlank clean
    → (s t : String) → clean s ≡ some t
    → is_text t ≡ true
clean-is_text clean k s t h =
    let blank : (some t == some "") ≡ false = subst (λ o. (o == some "") ≡ false) h (k s) in
    rw blank refl

list_field-all :
    {A B : Type 0} (field : A → Option B) (q : B → Bool)
    → ((x : A) (y : B) → field x ≡ some y → q y ≡ true)
    → (xs : List A) (ys : List B) → list_field field xs ≡ some ys
    → all q ys ≡ true
list_field-all field q k [] ys h = subst (λ l. all q l ≡ true) (some-injective _ _ h) refl
list_field-all field q k (x ∷ xs) ys h =
    let (y, e, h1) = bind-some (field x) _ ys h in
    let (rest, r, same) = bind-some (list_field field xs) _ ys h1 in
    subst (λ l. all q l ≡ true) (some-injective _ _ same)
      (rw (k x y e) (list_field-all field q k xs rest r))

optional-all :
    {A B : Type 0} (field : A → Option B) (q : B → Bool)
    → ((x : A) (y : B) → field x ≡ some y → q y ≡ true)
    → (o : Option (List A)) (p : Option (List B)) → optional (list_field field) o ≡ some p
    → all q (or_empty p) ≡ true
optional-all field q k none p h = subst (λ l. all q (or_empty l) ≡ true) (some-injective _ _ h) refl
optional-all field q k (some xs) p h =
    let (ys, e, same) = some-of_map (list_field field xs) p h in
    subst (λ l. all q (or_empty l) ≡ true) same (list_field-all field q k xs ys e)

has_items-or_empty : {A : Type 0} (o : Option (List A)) → not (has_items o) ≡ is_empty (or_empty o)
has_items-or_empty none = refl
has_items-or_empty (some []) = refl
has_items-or_empty (some (x ∷ xs)) = refl

valid_inventory-narrows :
    (d e : InventoryData)
    → valid_inventory d ≡ some e
    → narrows_machines (inventory_filter e) ≡ true
unfolding valid_inventory inventory_filter
valid_inventory-narrows d e h =
    let (v, same) = if-some (has_choices d && restricts d) d e h in
    subst (λ x. narrows_machines (inventory_filter x) ≡ true) same
      (ground (
        arith,
        v,
        has_items-or_empty d.meta_business_unit_ids,
        has_items-or_empty d.tag_ids,
        has_items-or_empty d.platforms,
        has_items-or_empty d.types,
      ))

valid_metadata-narrows :
    (clean : String → Option String)
    → RefusesBlank clean
    → (d e : MetadataData) → valid_metadata clean d ≡ some e
    → narrows_events (metadata_filter e) ≡ true
unfolding valid_metadata metadata_filter
valid_metadata-narrows clean k d e h =
    let (types, a, h1) = bind-some (optional (list_field clean) d.event_types) _ e h in
    let (tags, b, h2) = bind-some (optional (list_field clean) d.event_tags) _ e h1 in
    let (v, same) = if-some (has_items types || has_items tags) _ e h2 in
    subst (λ x. narrows_events (metadata_filter x) ≡ true) same
      (ground (
        arith,
        v,
        has_items-or_empty types,
        has_items-or_empty tags,
        optional-all clean is_text (clean-is_text clean k) d.event_types types a,
        optional-all clean is_text (clean-is_text clean k) d.event_tags tags b,
      ))

valid_item-is_valid_item :
    (clean : String → Option String)
    → RefusesBlank clean
    → (d e : PayloadItem) → valid_item clean d ≡ some e
    → is_valid_item e ≡ true
unfolding valid_item
valid_item-is_valid_item clean k d e h =
    let (attribute, a, h1) = bind-some (clean d.attribute) _ e h in
    let (values, b, h2) = bind-some (list_field clean d.values) _ e h1 in
    let (v, same) = if-some (is_operator d.operator) _ e h2 in
    let text = clean-is_text clean k d.attribute attribute a in
    let texts = list_field-all clean is_text (clean-is_text clean k) d.values values b in
    subst (λ x. is_valid_item x ≡ true) same (ground (arith, v, text, texts))

-- What the serializers make sure of.
abbrev pub IsValidated : FiltersData → Type 0
IsValidated f =
    (all (λ d. narrows_machines (inventory_filter d)) (or_empty f.inventory) ≡ true)
    × (all (λ d. narrows_events (metadata_filter d)) (or_empty f.metadata) ≡ true)
    × (all (all is_valid_item) (or_empty f.payload) ≡ true)

valid_filters-IsValidated :
    (clean : String → Option String)
    → RefusesBlank clean
    → (f g : FiltersData) → valid_filters clean f ≡ some g
    → IsValidated g
unfolding valid_filters
valid_filters-IsValidated clean k f g h =
    let items_field = list_field (valid_item clean) in
    let (inventory, i, h1) = bind-some (optional (list_field valid_inventory) f.inventory) _ g h in
    let (metadata, m, h2) =
      bind-some (optional (list_field (valid_metadata clean)) f.metadata) _ g h1 in
    let (payload, p, h3) = bind-some (optional (list_field items_field) f.payload) _ g h2 in
    subst IsValidated (some-injective _ _ h3) (
      optional-all valid_inventory _ valid_inventory-narrows f.inventory inventory i,
      optional-all (valid_metadata clean) _ (valid_metadata-narrows clean k) f.metadata metadata m,
      optional-all items_field _
          (list_field-all (valid_item clean) _ (valid_item-is_valid_item clean k)) f.payload payload
          p,
    )

optional-IsValidated :
    (clean : String → Option String)
    → RefusesBlank clean
    → (o p : Option FiltersData) → optional (valid_filters clean) o ≡ some p
    → IsValidated (Option.get_or p no_filters)
optional-IsValidated clean k none p h =
    subst (λ x. IsValidated (Option.get_or x no_filters)) (some-injective _ _ h) (refl, refl, refl)
optional-IsValidated clean k (some f) p h =
    let (g, e, same) = some-of_map (valid_filters clean f) p h in
    subst (λ x. IsValidated (Option.get_or x no_filters)) same
      (valid_filters-IsValidated clean k f g e)

pub validated_data-IsValidated :
    (clean : String → Option String)
    → RefusesBlank clean
    → (b d : Body) → validated_data clean b ≡ some d
    → IsValidated (filters_of d) × (is_valid_severity d.incident_severity ≡ true)
unfolding validated_data
validated_data-IsValidated clean k b d h =
    let (filters, e, h1) = bind-some (optional (valid_filters clean) b.filters) _ d h in
    let (v, same) = if-some (is_valid_severity b.incident_severity) _ d h1 in
    subst
      (λ (x : Body). IsValidated (filters_of x) × (is_valid_severity x.incident_severity ≡ true))
      same (optional-IsValidated clean k b.filters filters e, v)
