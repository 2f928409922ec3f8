-- ===== src/Incidents/Updates/Races.antt =====
-- Where the operations of zentral/core/incidents/utils.py raise, or refuse.
use zentral.Incidents.Updates.{
  created_or_raised, inserted, next_after, raise_after_get, new_incident, or_create_incident,
  get_or_create_incident, update_or_create_open_incident, change_incident, update_incident_status,
}
use zentral.Base.{
  Bool, Bool-cases, List, Option, [], any, any-append, any-never, arith, false, find, inl, inr,
  none, not, refl, some, true, ℕ, ◌&&◌, ◌++◌, ◌==◌, ◌∙◌, ◌∷◌, ◌≡◌, ◌≤◌, nat_eq, string_eq,
  option_eq, bool_eq,
}
use zentral.Incidents.Status.{Status, reopened, is_open, status_beq, has_status, get_next_statuses}
use zentral.Incidents.Store.{
  conflicts_with_probe, serialize_with_probe, ProbeSource, Incident, Database, ok, err,
  integrity_error, attribute_error, is_open_for, incident_conflicts, save_incident, create_incident,
  Result, ◌>>=◌, find_incident, has_open_machine, get_incident_next_statuses, serialize_for_event,
}

open_below :
    (probe n next : ℕ) (k : List Incident)
    → next_after k next ≤ n
    → any (is_open_for probe) k ≡ true
    → any (λ i. not (i.pk == n) && is_open_for probe i) k ≡ true
unfolding next_after
open_below probe n next [] b h = h
open_below probe n next (i ∷ k) b h = ground (arith, open_below probe n next k)

open_elsewhere :
    (probe pk : ℕ) (k l : List Incident)
    → any (λ i. not (i.pk == pk) && is_open_for probe i) k ≡ true
    → any (λ i. not (i.pk == pk) && is_open_for probe i) (k ++ l) ≡ true
open_elsewhere probe pk k l h = any-append (λ i. not (i.pk == pk) && is_open_for probe i) k l ∙ rw h

find_open :
    (probe : ℕ) (k l : List Incident)
    → any (is_open_for probe) k ≡ true
    → (i : Incident) × (find (is_open_for probe) (k ++ l) ≡ some i)
find_open probe [] l h = cc
find_open probe (j ∷ k) l h = elim (Bool-cases (is_open_for probe j)) [
  | inl e ↦ (j, rw e refl)
  | inr e ↦ (let (i, f) = find_open probe k l (rw e at h) in (i, rw e f))
]

raised_after_get :
    {A B : Type 0} (o : Option Incident) (f : A → Result B)
    → (raise_after_get integrity_error o >>= f) ≡ err integrity_error
unfolding raise_after_get
raised_after_get none f = refl
raised_after_get (some i) f = refl

-- If a probe has no open incident and other transactions insert one between the `get` and the
-- insertion, the operation raises `IntegrityError`, although its second `get` finds an open
-- incident of the probe. There is no condition on the keys of the inserted incidents.
pub concurrent_creation_raises :
    (probe : ProbeSource) (severity event_id : ℕ) (meanwhile : List Incident) (db : Database)
    → find (is_open_for probe.pk) db.incidents ≡ none
    → any (is_open_for probe.pk) meanwhile ≡ true
    → (update_or_create_open_incident probe severity event_id meanwhile db ≡ err integrity_error)
      × ((i : Incident) × (find (is_open_for probe.pk) (inserted meanwhile db).incidents ≡ some i))
unfolding update_or_create_open_incident get_or_create_incident or_create_incident create_incident
    incident_conflicts is_open new_incident inserted created_or_raised
concurrent_creation_raises probe severity event_id meanwhile db h c =
    let next = next_after meanwhile db.next_incident in
    let below = open_below probe.pk next db.next_incident meanwhile (omega arith) c in
    (
      rw (h, open_elsewhere probe.pk next meanwhile db.incidents below)
          (raised_after_get (find (is_open_for probe.pk) (meanwhile ++ db.incidents)) _),
      find_open probe.pk meanwhile db.incidents c,
    )

no_probe_no_conflict :
    (b : Bool) (pk : ℕ) (l : List Incident) → (b && any (conflicts_with_probe none pk) l) ≡ false
unfolding conflicts_with_probe
no_probe_no_conflict b pk l =
    rw (any-never (conflicts_with_probe none pk) (λ j. refl) l) (ground arith)

-- If the probe of an incident has been deleted, a change of its status that the statuses allow
-- raises `AttributeError` when the event is built.
pub deleted_probe_raises :
    (pk : ℕ) (s : Status) (db : Database) (i : Incident)
    → find_incident pk db.incidents ≡ some i
    → i.probe_source ≡ none
    → has_status s (get_incident_next_statuses i db) ≡ true
    → update_incident_status pk s db ≡ err attribute_error
unfolding update_incident_status change_incident save_incident incident_conflicts
    serialize_for_event serialize_with_probe
deleted_probe_raises pk s db i f p h =
    rw (f, h, p, no_probe_no_conflict (is_open s) i.pk db.incidents) refl

-- If an incident that is not open belongs to a probe that has another open one, the change of its
-- status to REOPENED raises `IntegrityError`, where the probe's other incident has another key.
pub reopening_raises :
    (pk probe : ℕ) (db : Database) (i : Incident)
    → find_incident pk db.incidents ≡ some i
    → i.probe_source ≡ some probe
    → is_open i.status ≡ false
    → any (λ j. not (j.pk == i.pk) && is_open_for probe j) db.incidents ≡ true
    → update_incident_status pk reopened db ≡ err integrity_error
unfolding update_incident_status change_incident save_incident incident_conflicts
    get_incident_next_statuses get_next_statuses has_status is_open status_beq
reopening_raises pk probe db i f p c o = rw f (ground arith)

-- While a machine is still affected, an incident can neither be closed nor resolved: nothing
-- changes and no event is posted.
pub affected_incident_stays :
    (pk : ℕ) (s : Status) (db : Database) (i : Incident)
    → find_incident pk db.incidents ≡ some i
    → has_open_machine i.pk db ≡ true
    → is_open s ≡ false
    → update_incident_status pk s db ≡ ok (db, [])
unfolding update_incident_status change_incident get_incident_next_statuses get_next_statuses
    has_status is_open status_beq
affected_incident_stays pk s db i f a c = rw f (ground arith)
