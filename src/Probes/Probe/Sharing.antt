-- ===== src/Probes/Probe/Sharing.antt =====
-- The export of a probe of zentral/core/probes/base.py, and the forced event type.
use zentral.Probes.Probe.{
  filters_of, metadata_to_load, no_filters, test_payload, Settings, Probe, Event, load,
  load_validated, load_validated_data, payload_to_load, test_metadata, test_event, export_body,
  shared_filters,
}
use zentral.Probes.Serializers.{
  Body, FiltersData, optional, list_field, valid_filters, valid_inventory, valid_metadata,
  valid_item, validated_data, is_valid, is_valid_severity,
}
use zentral.Probes.Filters.{
  Metadata, MetadataFilter_test, metadata_filter, MetadataFilter, MetadataData, or_empty,
}
use mathlib.Core.Option
use zentral.Base.{
  Bool, Bool-cases, List, Option, String, [], ap, arith, bind-some, false, if◌then◌else◌, inl, inr,
  map, some-of_map, none, refl, some, sym, true, truthy, ◌==◌, ◌∙◌, ◌∷◌, ◌≡◌, nat_eq, string_eq,
  option_eq, bool_eq,
}
use zentral.Probes.Payload.{Value}

-- The probe without what is not shared.
abbrev pub stripped : Probe → Probe
stripped p = record p { inventory_filters = []; actions = [] }

map-map :
    {A : Type 0} (f : A → Probe) (o : Option A)
    → Option.map (λ a. stripped (f a)) o ≡ Option.map stripped (Option.map f o)
map-map f none = refl
map-map f (some a) = refl

module _ (c : Settings) where
  exported_inventory :
      (o : Option FiltersData)
      → (Option.get_or (Option.map (shared_filters c) o) no_filters).inventory ≡ none
  unfolding shared_filters
  exported_inventory none = refl
  exported_inventory (some f) = refl

  exported_payload :
      (o : Option FiltersData)
      → payload_to_load c.can_edit_payload_filters
          (or_empty (Option.get_or (Option.map (shared_filters c) o) no_filters).payload)
        ≡ payload_to_load c.can_edit_payload_filters (or_empty (Option.get_or o no_filters).payload)
  unfolding shared_filters
  exported_payload none = refl
  exported_payload (some f) = elim (Bool-cases c.can_edit_payload_filters) [
    | inl e ↦ rw e refl
    | inr e ↦ rw e refl
  ]

  exported_metadata_by :
      (t : Option String) (f : FiltersData)
      → (t == some "") ≡ false
      → metadata_to_load t (or_empty (if t == none then f.metadata else none))
        ≡ metadata_to_load t (or_empty f.metadata)
  exported_metadata_by none f h = refl
  exported_metadata_by (some t) f h = rw h refl

  exported_metadata :
      (c.forced_event_type == some "") ≡ false
      → (o : Option FiltersData)
      → metadata_to_load c.forced_event_type
          (or_empty (Option.get_or (Option.map (shared_filters c) o) no_filters).metadata)
        ≡ metadata_to_load c.forced_event_type (or_empty (Option.get_or o no_filters).metadata)
  unfolding shared_filters
  exported_metadata h none = refl
  exported_metadata h (some f) = exported_metadata_by c.forced_event_type f h

load_exported :
    (c : Settings) (b : Body)
    → (c.forced_event_type == some "") ≡ false
    → load_validated_data c (export_body c b) ≡ Option.map stripped (load_validated_data c b)
unfolding load_validated_data export_body
load_exported c b h =
    rw
      (
        exported_inventory c b.filters,
        exported_metadata c h b.filters,
        exported_payload c b.filters,
      )
      (map-map _ _)

kept :
    {A : Type 0} (field : A → Option A) (k : Bool) (o p : Option A)
    → optional field o ≡ some p
    → optional field (if k then o else none) ≡ some (if k then p else none)
kept field true o p h = h
kept field false o p h = refl

-- What is validated of the filters that are shared is what is shared of the validated filters.
exported-valid_filters :
    (c : Settings) (f g : FiltersData)
    → valid_filters c.clean f ≡ some g
    → valid_filters c.clean (shared_filters c f) ≡ some (shared_filters c g)
unfolding valid_filters shared_filters
exported-valid_filters c f g h =
    let metadata_field = list_field (valid_metadata c.clean) in
    let payload_field = list_field (list_field (valid_item c.clean)) in
    let (inventory, e, h1) = bind-some (optional (list_field valid_inventory) f.inventory) _ g h in
    let (metadata, m, h2) = bind-some (optional metadata_field f.metadata) _ g h1 in
    let (payload, p, h3) = bind-some (optional payload_field f.payload) _ g h2 in
    rw
      (
        kept metadata_field (c.forced_event_type == none) f.metadata metadata m,
        kept payload_field c.can_edit_payload_filters f.payload payload p,
      )
      (ap (Option.map (shared_filters c)) h3)

exported-optional :
    (c : Settings) (o p : Option FiltersData)
    → optional (valid_filters c.clean) o ≡ some p
    → optional (valid_filters c.clean) (Option.map (shared_filters c) o)
      ≡ some (Option.map (shared_filters c) p)
exported-optional c none p h = ap (Option.map (Option.map (shared_filters c))) h
exported-optional c (some f) p h =
    let (g, e, same) = some-of_map (valid_filters c.clean f) p h in
    rw (exported-valid_filters c f g e) (ap (λ o. some (Option.map (shared_filters c) o)) same)

export-validated_data :
    (c : Settings) (b d : Body)
    → validated_data c.clean b ≡ some d
    → validated_data c.clean (export_body c b) ≡ some (export_body c d)
unfolding validated_data export_body
export-validated_data c b d h =
    let (filters, e, h1) = bind-some (optional (valid_filters c.clean) b.filters) _ d h in
    rw (exported-optional c b.filters filters e)
      (severity_kept (is_valid_severity b.incident_severity) (record b { filters = filters }) h1)
  where
    severity_kept :
        (k : Bool) (x : Body)
        → (if k then some x else none) ≡ some d
        → (if k then some (export_body c x) else none) ≡ some (export_body c d)
    severity_kept true x h = ap (Option.map (export_body c)) h
    severity_kept false x h = cc

valid_body :
    (clean : String → Option String) (b : Body)
    → is_valid clean b ≡ true
    → (d : Body) × (validated_data clean b ≡ some d)
unfolding is_valid
valid_body clean b h = go (validated_data clean b) h
  where
    go :
        (o : Option Body)
        → elim o [ none ↦ false | some d ↦ true ] ≡ true
        → (d : Body) × (o ≡ some d)
    go none h = cc
    go (some d) h = (d, refl)

stripped_test :
    (str : Value → String) (c : Settings) (p : Probe) (e : Event)
    → truthy e.metadata.machine_serial_number ≡ false
    → test_event str c (stripped p) e ≡ test_event str c p e
unfolding test_event test_metadata test_payload
stripped_test str c p e h = rw h refl

-- If the body of a probe is valid and its forced event type is not the empty text, the probe that
-- was shared and loaded again has no inventory filter and no action, and it gives the same answer
-- as the probe on every event that has no machine.
pub export-load :
    (str : Value → String) (c : Settings) (b : Body) (p : Probe)
    → (c.forced_event_type == some "") ≡ false
    → is_valid c.clean b ≡ true
    → load c b ≡ some p
    → (q : Probe) × (load c (export_body c b) ≡ some q)
      × (q.inventory_filters ≡ [])
      × (q.actions ≡ [])
      × ((e : Event)
          → truthy e.metadata.machine_serial_number ≡ false
          → test_event str c q e ≡ test_event str c p e)
unfolding load load_validated
export-load str c b p forced v h =
    let (d, e) = valid_body c.clean b v in
    let loads : load_validated_data c d ≡ some p = rw e at h in
    (
      stripped p,
      rw (export-validated_data c b d e)
          (load_exported c d forced ∙ ap (Option.map stripped) loads),
      refl,
      refl,
      stripped_test str c p,
    )

map-some {ℓ} :
    {A : Type ℓ} (f : A → Probe) (ms : List MetadataFilter) (o : Option A) (p : Probe)
    → ((a : A) → (f a).metadata_filters ≡ ms)
    → Option.map f o ≡ some p
    → p.metadata_filters ≡ ms
map-some f ms none p h e = cc
map-some f ms (some a) p h e =
    let same : f a ≡ p = cc in ap (λ (x : Probe). x.metadata_filters) (sym same) ∙ h a

forced_metadata :
    (t : String) (o : Option String) (ds : List MetadataData)
    → o ≡ some t
    → (t == "") ≡ false
    → map metadata_filter (metadata_to_load o ds)
      ≡ record { event_types = t ∷ []; event_tags = [] } ∷ []
unfolding metadata_filter
forced_metadata t o ds e n = rw e (rw n refl)

-- With a forced event type that is not empty and a valid body, the metadata filter that is put in
-- place of the others accepts the events of this type only, as the probe's own test does.
forced_filter :
    (c : Settings) (b : Body) (p : Probe) (t : String) (m : Metadata)
    → c.forced_event_type ≡ some t
    → (t == "") ≡ false
    → is_valid c.clean b ≡ true
    → load c b ≡ some p
    → test_metadata p m ≡ (t == m.event_type)
unfolding load load_validated load_validated_data test_metadata MetadataFilter_test metadata_filter
forced_filter c b p t m f n v h =
    let (d, e) = valid_body c.clean b v in
    let loads : load_validated_data c d ≡ some p = rw e at h in
    let filters =
      map-some _ (record { event_types = t ∷ []; event_tags = [] } ∷ []) _ p
        (λ a. forced_metadata t c.forced_event_type (or_empty (filters_of d).metadata) f n) loads in
    rw filters (ground arith)
