-- ===== src/Probes/Probe/Loading.antt =====
-- What the loading of a probe of zentral/core/probes/base.py guarantees.
use zentral.Probes.Probe.Validation.{
  is_valid_item, RefusesBlank, narrows_machines, narrows_events, IsValidated,
  validated_data-IsValidated,
}
use zentral.Probes.Probe.{
  Value, Settings, Probe, load, load_validated, load_validated_data, load_payload_filters,
  add_filter, filters_of, payload_to_load, metadata_to_load, known_actions, unloaded,
}
use zentral.Probes.Filters.Meaning.{all-Permutation}
use zentral.Base.{
  Bool, Bool-cases, List, Option, String, [], all, all-of_select, and-left, and-right, ap, arith,
  contains, false, if◌then◌else◌, inl, inr, is_empty, map, none, not, refl, some, true, ◌&&◌, ◌==◌,
  ◌∙◌, ◌∷◌, ◌≡◌, nat_eq, string_eq, option_eq, bool_eq,
}
use mathlib.Core.List.{Permᴰ}
use zentral.Probes.Filters.{
  MetadataData, PayloadItem, inventory_filter, metadata_filter, payload_filter, payload_items,
  keep_item, is_operator, or_empty,
}
use zentral.Probes.Serializers.{Body, validated_data, is_valid_severity, is_valid}

abbrev pub has_values : PayloadItem → Bool
has_values d = not (is_empty d.values) && is_valid_item d

-- Every filter narrows what the probe accepts, every item of a payload filter can be tested, the
-- actions are available and the severity is one of the choices.
abbrev pub IsUsable : Settings → Probe → Type 0
IsUsable c p =
    (all narrows_machines p.inventory_filters ≡ true)
    × (all narrows_events p.metadata_filters ≡ true)
    × (all (all has_values) p.payload_filters ≡ true)
    × (all (λ a. contains c.available a.0) p.actions ≡ true)
    × (is_valid_severity p.incident_severity ≡ true)

payload_items-have_values :
    (ds : List PayloadItem)
    → all is_valid_item ds ≡ true
    → (items : List PayloadItem) × (payload_items ds ≡ some items) × (all has_values items ≡ true)
unfolding payload_items keep_item
payload_items-have_values [] h = ([], refl, refl)
payload_items-have_values (d ∷ ds) h =
    let here : is_valid_item d ≡ true = and-left _ _ h in
    let operator : is_operator d.operator ≡ true = and-left _ _ here in
    let (items, e, v) = payload_items-have_values ds (and-right (is_valid_item d) _ h) in
    (
      (if is_empty d.values then items else d ∷ items),
      rw (operator, e) refl,
      ground (arith, here, v),
    )

load_payload_filters-total :
    (sort : List PayloadItem → List PayloadItem)
    → ((l : List PayloadItem) → Permᴰ (sort l) l)
    → (dss : List (List PayloadItem)) → all (all is_valid_item) dss ≡ true
    → (fs : List (List PayloadItem)) × (load_payload_filters sort dss ≡ some fs)
      × (all (all has_values) fs ≡ true)
unfolding load_payload_filters payload_filter add_filter
load_payload_filters-total sort sorts [] h = ([], refl, refl)
load_payload_filters-total sort sorts (ds ∷ dss) h =
    let operators : List PayloadItem → Bool = all is_valid_item in
    let (items, e, v) = payload_items-have_values ds (and-left (operators ds) _ h) in
    let (fs, k, w) = load_payload_filters-total sort sorts dss (and-right (operators ds) _ h) in
    (
      sort items ∷ fs,
      rw (e, k) refl,
      rw (all-Permutation has_values (sort items) items (sorts items) ∙ v) w,
    )

all-map :
    {A B : Type 0} (q : B → Bool) (f : A → B) (l : List A) → all q (map f l) ≡ all (λ a. q (f a)) l
all-map q f [] = refl
all-map q f (x ∷ l) = ap (λ b. q (f x) && b) (all-map q f l)

metadata_to_load-narrows :
    (forced : Option String) (ds : List MetadataData)
    → all (λ d. narrows_events (metadata_filter d)) ds ≡ true
    → all narrows_events (map metadata_filter (metadata_to_load forced ds)) ≡ true
unfolding metadata_filter
metadata_to_load-narrows none ds h = all-map narrows_events metadata_filter ds ∙ h
metadata_to_load-narrows (some t) ds h = elim (Bool-cases (t == "")) [
  | inl e ↦ rw e (all-map narrows_events metadata_filter ds ∙ h)
  | inr e ↦ rw (e, e) refl
]

known_actions-available :
    (available : List String) (l : List (String × Value))
    → all (λ a. contains available a.0) (known_actions available l) ≡ true
known_actions-available available l = all-of_select _ _ l (λ a h. h)

payload_to_load-valid :
    (can_edit : Bool) (dss : List (List PayloadItem))
    → all (all is_valid_item) dss ≡ true
    → all (all is_valid_item) (payload_to_load can_edit dss) ≡ true
payload_to_load-valid true dss h = h
payload_to_load-valid false dss h = refl

load_validated_data-IsUsable :
    (c : Settings) (d : Body)
    → ((l : List PayloadItem) → Permᴰ (c.sort l) l)
    → IsValidated (filters_of d)
    → is_valid_severity d.incident_severity ≡ true
    → (p : Probe) × (load_validated_data c d ≡ some p) × (p.loaded ≡ true) × IsUsable c p
unfolding load_validated_data
load_validated_data-IsUsable c d sorts (inventory, metadata, payload) severity =
    let f = filters_of d in
    let (fs, k, values) =
      load_payload_filters-total c.sort sorts
        (payload_to_load c.can_edit_payload_filters (or_empty f.payload))
        (payload_to_load-valid c.can_edit_payload_filters (or_empty f.payload) payload) in
    rw k (
      _,
      refl,
      refl,
      (
        all-map narrows_machines inventory_filter (or_empty f.inventory) ∙ inventory,
        metadata_to_load-narrows c.forced_event_type (or_empty f.metadata) metadata,
        values,
        known_actions-available c.available (or_empty d.actions),
        severity,
      ),
    )

-- If a `CharField` never gives the blank text and `list.sort` only permutes, the loading of a probe
-- raises nothing, whatever the body is, neither at an operator that a payload filter does not know nor
-- anywhere else, and the probe is loaded exactly if the serializers accept the body. In the probe
-- each inventory filter names only known platforms and types and sets some condition, each metadata
-- filter sets some condition, each item of a payload filter has a known operator and some values, no
-- text of a metadata or payload filter is blank, each action is available, and the severity is a
-- choice or null.
pub load-IsUsable :
    (c : Settings) (b : Body)
    → RefusesBlank c.clean
    → ((l : List PayloadItem) → Permᴰ (c.sort l) l)
    → (p : Probe) × (load c b ≡ some p) × (p.loaded ≡ is_valid c.clean b) × IsUsable c p
unfolding load load_validated is_valid
load-IsUsable c b k sorts = go (validated_data c.clean b) refl
  where
    go :
        (o : Option Body)
        → validated_data c.clean b ≡ o
        → (p : Probe) × (load_validated c o ≡ some p)
          × (p.loaded ≡ elim o [ none ↦ false | some d ↦ true ])
          × IsUsable c p
    go none e = (unloaded, refl, refl, (refl, refl, refl, refl, refl))
    go (some d) e =
        let (f, severity) = validated_data-IsValidated c.clean k b d e in
        load_validated_data-IsUsable c d sorts f severity
