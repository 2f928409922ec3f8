-- ===== src/Incidents/Updates/Severity.antt =====
-- `_update_or_create_open_incident` of zentral/core/incidents/utils.py without a race: it always
-- returns the open incident of the probe, with the larger severity.
use zentral.Incidents.Updates.{
  created_or_raised, next_after, inserted, new_incident, or_create_incident, get_or_create_incident,
  raise_severity, update_or_create_open_incident,
}
use zentral.Incidents.Store.{
  put_incident, ProbeSource, Incident, Database, Result, ok, err, ◌>>=◌, is_open_for,
  incident_conflicts, save_incident, create_incident, serialize_for_event, Payload,
}
use zentral.Base.{
  Bool, Bool-cases, List, Option, [], and-left, and-right, any, ap, arith, false, find,
  if◌then◌else◌, inl, inr, length, ltb, map, none, not, option_beq_iff, refl, some, subst, true, ℕ,
  ◌&&◌, ◌==◌, ◌||◌, ◌∷◌, ◌≡◌, nat_eq, string_eq, option_eq, bool_eq,
}
use Prim.Native.Nat.{max}
use zentral.Incidents.Status.{is_open}

-- The constraint `one_open_incident_per_probe`.
abbrev pub HasOneOpenPerProbe : List Incident → Type 0
HasOneOpenPerProbe l = any (λ i. incident_conflicts i l) l ≡ false

-- What the operation returns: the probe's open incident, with at least this severity, and one event
-- exactly if the incident is new or its severity was raised.
abbrev pub Returns :
    (Incident × Database × List Payload → Type 0)
    → Result (Incident × Database × List Payload)
    → Type 0
Returns P (ok r) = P r
Returns P (err e) = ⊥

abbrev pub IsOpenFor : ℕ → ℕ → Incident × Database × List Payload → Type 0
IsOpenFor probe severity r =
    (is_open r.0.status ≡ true) × (r.0.probe_source ≡ some probe) × (r.0.severity ≡ severity)

abbrev pub severity_before : Option Incident → ℕ
severity_before none = 0
severity_before (some i) = i.severity

-- One event if the incident is new or more severe than before, and none if not.
abbrev pub events_expected : ℕ → Option Incident → ℕ
events_expected severity none = 1
events_expected severity (some i) = if ltb i.severity severity then 1 else 0

-- The key of the incident: a new one has the next key.
abbrev pub key_expected : ℕ → Option Incident → ℕ
key_expected next none = next
key_expected next (some i) = i.pk

-- The incident that is returned is the probe's open incident in the table, under this key.
abbrev pub IsStored : ℕ → ℕ → Incident × Database × List Payload → Type 0
IsStored probe pk r = (find (is_open_for probe) r.1.incidents ≡ some r.0) × (r.0.pk ≡ pk)

found_here :
    (probe : ℕ) (j : Incident) (k : List Incident) (i : Incident)
    → is_open_for probe j ≡ true
    → some j ≡ some i
    → incident_conflicts j k ≡ false
    → (is_open i.status ≡ true) × (i.probe_source ≡ some probe) × (incident_conflicts i k ≡ false)
unfolding is_open_for
found_here probe j k i e h c =
    let same : j ≡ i = cc in
    subst
      (λ x.
        (is_open x.status ≡ true)
        × (x.probe_source ≡ some probe)
        × (incident_conflicts x k ≡ false))
      same (and-left _ _ e, (option_beq_iff j.probe_source (some probe)).0 (and-right _ _ e), c)

or-left : (a b : Bool) → (a || b) ≡ false → a ≡ false
or-left a b h = ground arith

or-right : (a b : Bool) → (a || b) ≡ false → b ≡ false
or-right a b h = ground arith

found_fits :
    (probe : ℕ) (l k : List Incident) (i : Incident)
    → find (is_open_for probe) l ≡ some i
    → any (λ j. incident_conflicts j k) l ≡ false
    → (is_open i.status ≡ true) × (i.probe_source ≡ some probe) × (incident_conflicts i k ≡ false)
found_fits probe [] k i h c = cc
found_fits probe (j ∷ l) k i h c = elim (Bool-cases (is_open_for probe j)) [
  | inl e ↦ found_here probe j k i e (rw e at h) (or-left _ _ c)
  | inr e ↦ found_fits probe l k i (rw e at h) (or-right _ _ c)
]

none_conflicts :
    (probe : ℕ) (pk : ℕ) (l : List Incident)
    → find (is_open_for probe) l ≡ none
    → any (λ j. not (j.pk == pk) && is_open_for probe j) l ≡ false
none_conflicts probe pk [] h = refl
none_conflicts probe pk (j ∷ l) h = ground (arith, none_conflicts probe pk l)

find-saved :
    (probe : ℕ) (i i' : Incident) (l : List Incident)
    → find (is_open_for probe) l ≡ some i
    → i'.pk ≡ i.pk
    → is_open_for probe i' ≡ true
    → find (is_open_for probe) (map (put_incident i') l) ≡ some i'
find-saved probe i i' [] h k o = cc
find-saved probe i i' (j ∷ l) h k o = elim (Bool-cases (j.pk == i'.pk)) [
  | inl e ↦ rw (e, o) refl
  | inr e ↦ rw e (elim (Bool-cases (is_open_for probe j)) [
    | inl f ↦
        (let same : some j ≡ some i = rw f at h in
          let eq : j ≡ i = cc in ground (arith, eq, ap (λ (x : Incident). x.pk) eq))
    | inr f ↦ rw f (find-saved probe i i' l (rw f at h) k o)
  ])
]

on_found :
    (probe : ProbeSource) (severity event_id : ℕ) (db : Database) (o : Option Incident)
    → HasOneOpenPerProbe db.incidents
    → find (is_open_for probe.pk) db.incidents ≡ o
    → Returns
        (λ r.
          IsOpenFor probe.pk (max (severity_before o) severity) r
          × (length r.2 ≡ events_expected severity o)
          × IsStored probe.pk (key_expected db.next_incident o) r)
        (or_create_incident probe severity event_id [] db o >>= λ r.
          raise_severity severity r.0 r.1 r.2)
unfolding or_create_incident raise_severity save_incident create_incident serialize_for_event
    new_incident incident_conflicts is_open is_open_for inserted next_after created_or_raised
on_found probe severity event_id db none h e =
    ground (arith, none_conflicts probe.pk db.next_incident db.incidents e)
on_found probe severity event_id db (some i) h e =
    let (o, p, c) = found_fits probe.pk db.incidents db.incidents i e h in
    let i' : Incident = record i { severity = severity } in
    let stays : is_open_for probe.pk i' ≡ true = rw (o, p) (ground arith) in
    ground (arith, o, p, c, find-saved probe.pk i i' db.incidents e refl stays)

-- If no two incidents of a probe are open and no other transaction interferes, an event of a probe
-- gets the probe's open incident, with the larger of its severity and the event's, and one
-- incident event exactly if the incident is new or its severity was raised: nothing is raised. The
-- incident that is returned is the probe's open row in the new table, under the key that it had, or
-- under the next key if it is new.
pub update_or_create_open_incident-severity :
    (probe : ProbeSource) (severity event_id : ℕ) (db : Database)
    → HasOneOpenPerProbe db.incidents
    → let before = find (is_open_for probe.pk) db.incidents in
      Returns
        (λ r.
          IsOpenFor probe.pk (max (severity_before before) severity) r
          × (length r.2 ≡ events_expected severity before)
          × IsStored probe.pk (key_expected db.next_incident before) r)
        (update_or_create_open_incident probe severity event_id [] db)
unfolding update_or_create_open_incident get_or_create_incident
update_or_create_open_incident-severity probe severity event_id db h =
    on_found probe severity event_id db _ h refl
