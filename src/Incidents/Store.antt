-- ===== src/Incidents/Store.antt =====
-- The two tables of zentral/core/incidents/models.py with their constraints, and the payloads of the
-- incident events.
use zentral.Base.{
  Bool, List, Option, String, any, false, find, if◌then◌else◌, map, none, not, select, some, suc, ℕ,
  ◌&&◌, ◌==◌, ◌||◌, ◌∷◌, nat_eq, string_eq, option_eq,
}
use zentral.Incidents.Status.{Status, closed, resolved, is_open, status_beq, get_next_statuses}

pub record ProbeSource : Type 0 where
  pub pk : ℕ
  pub name : String
  pub description : String

-- `probe_source` is null when the probe has been deleted.
pub record Incident : Type 0 where
  pub pk : ℕ
  pub probe_source : Option ℕ
  pub name : String
  pub description : String
  pub severity : ℕ
  pub status : Status
  pub event_id : ℕ

pub record MachineIncident : Type 0 where
  pub pk : ℕ
  pub incident : ℕ
  pub serial_number : String
  pub status : Status
  pub event_id : ℕ

-- The keys that the database hands out next stand beside the tables.
pub record Database : Type 0 where
  pub incidents : List Incident
  pub machine_incidents : List MachineIncident
  pub next_incident : ℕ
  pub next_machine_incident : ℕ

-- An operation returns, or it raises one of these and its transaction is rolled back.
pub data Error : Type 0 where
  integrity_error attribute_error : Error

pub data Result {ℓ} (A : Type ℓ) : Type ℓ where
  ok : A → Result A
  err : Error → Result A

infixl 5 ◌>>=◌
abbrev pub ◌>>=◌ : {A B : Type 0} → Result A → (A → Result B) → Result B
ok row >>= next = next row
err raised >>= next = err raised

-- `one_open_incident_per_probe`: a null probe conflicts with nothing.
unfoldable pub is_open_for : ℕ → Incident → Bool
is_open_for probe i = is_open i.status && (i.probe_source == some probe)

unfoldable pub conflicts_with_probe : Option ℕ → ℕ → Incident → Bool
conflicts_with_probe none pk j = false
conflicts_with_probe (some probe) pk j = not (j.pk == pk) && is_open_for probe j

unfoldable pub incident_conflicts : Incident → List Incident → Bool
unfolding conflicts_with_probe
incident_conflicts i l = is_open i.status && any (conflicts_with_probe i.probe_source i.pk) l

-- `one_open_machine_incident_per_incident`
unfoldable pub is_open_on : ℕ → String → MachineIncident → Bool
is_open_on incident serial_number mi =
    is_open mi.status && ((mi.incident == incident) && (mi.serial_number == serial_number))

unfoldable pub machine_incident_conflicts : MachineIncident → List MachineIncident → Bool
machine_incident_conflicts mi l =
    is_open mi.status
    && any (λ x. not (x.pk == mi.pk) && is_open_on mi.incident mi.serial_number x) l

abbrev pub put_incident : Incident → Incident → Incident
put_incident i j = if j.pk == i.pk then i else j

abbrev pub put_machine_incident : MachineIncident → MachineIncident → MachineIncident
put_machine_incident mi x = if x.pk == mi.pk then mi else x

-- `save()` of a row that is in the table.
unfoldable pub save_incident : Incident → Database → Result Database
save_incident i db =
    if incident_conflicts i db.incidents
    then err integrity_error
    else ok (record db { incidents = map (put_incident i) db.incidents })

unfoldable pub save_machine_incident : MachineIncident → Database → Result Database
save_machine_incident mi db =
    if machine_incident_conflicts mi db.machine_incidents
    then err integrity_error
    else ok (record db { machine_incidents = map (put_machine_incident mi) db.machine_incidents })

-- `objects.create(…)`
unfoldable pub create_incident : Incident → Database → Result Database
create_incident i db =
    if incident_conflicts i db.incidents
    then err integrity_error
    else ok (record db { incidents = i ∷ db.incidents; next_incident = suc db.next_incident })

unfoldable pub create_machine_incident : MachineIncident → Database → Result Database
create_machine_incident mi db =
    if machine_incident_conflicts mi db.machine_incidents
    then err integrity_error
    else ok (record db {
      machine_incidents = mi ∷ db.machine_incidents;
      next_machine_incident = suc db.next_machine_incident;
    })

unfoldable pub find_incident : ℕ → List Incident → Option Incident
find_incident pk l = find (λ i. i.pk == pk) l

unfoldable pub find_machine_incident : ℕ → List MachineIncident → Option MachineIncident
find_machine_incident pk l = find (λ mi. mi.pk == pk) l

-- Has an incident an open machine incident (`machineincident_set.filter(status__in=OPEN_STATUSES)`)?
unfoldable pub has_open_machine : ℕ → Database → Bool
has_open_machine pk db = any (λ mi. is_open mi.status && (mi.incident == pk)) db.machine_incidents

-- `Incident.get_next_statuses`: no end while a machine is still affected.
unfoldable pub get_incident_next_statuses : Incident → Database → List Status
get_incident_next_statuses i db =
    let next = get_next_statuses i.status in
    if has_open_machine i.pk db
    then select (λ s. not (status_beq s closed || status_beq s resolved)) next
    else next

-- The payload of an incident. `self.probe_source.pk` fails when the probe has been deleted.
pub record IncidentPayload : Type 0 where
  pub pk : ℕ
  pub probe_pk : ℕ
  pub name : String
  pub severity : ℕ
  pub status : Status
  pub event_id : ℕ

unfoldable pub serialize_with_probe : Option ℕ → Incident → Result IncidentPayload
serialize_with_probe none i = err attribute_error
serialize_with_probe (some probe) i = ok (record {
  pk = i.pk;
  probe_pk = probe;
  name = i.name;
  severity = i.severity;
  status = i.status;
  event_id = i.event_id;
})

unfoldable pub serialize_for_event : Incident → Result IncidentPayload
unfolding serialize_with_probe
serialize_for_event i = serialize_with_probe i.probe_source i

pub record MachineIncidentPayload : Type 0 where
  pub pk : ℕ
  pub status : Status
  pub event_id : ℕ
  pub incident : IncidentPayload

unfoldable pub serialize_machine_incident :
    MachineIncident → Incident → Result MachineIncidentPayload
unfolding serialize_for_event
serialize_machine_incident mi i = do
  p ← serialize_for_event i
  ok (record { pk = mi.pk; status = mi.status; event_id = mi.event_id; incident = p })

pub data Diff : Type 0 where
  no_diff : Diff
  severity_diff : ℕ → ℕ → Diff
  status_diff : Status → Status → Diff

pub data Action : Type 0 where
  created updated auto_closed : Action

pub data Payload : Type 0 where
  incident_payload : IncidentPayload → Action → Diff → Payload
  machine_incident_payload : MachineIncidentPayload → Action → Diff → Payload

-- The database after an operation in a transaction: one that raises is rolled back.
unfoldable pub committed : Database → Result (Database × List Payload) → Database
committed db (ok r) = r.0
committed db (err e) = db
