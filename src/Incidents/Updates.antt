-- ===== src/Incidents/Updates.antt =====
-- zentral/core/incidents/utils.py: what events and users do to incidents. Each operation is one
-- transaction; the rows that it reads are locked, and what others insert meanwhile is an argument. The
-- rows that the functions return beside the event payloads are those of the new tables.
pub mod Orphans
pub mod Parents
pub mod Events
pub mod Recovery
pub mod Severity
pub mod Races
use zentral.Base.{
  Bool, List, Option, String, [], any, false, find, if◌then◌else◌, ltb, none, not, some, suc, true,
  ℕ, ◌&&◌, ◌++◌, ◌==◌, ◌∷◌, nat_eq, string_eq, option_eq, bool_eq,
}
use Prim.Native.Nat.{max}
use zentral.Incidents.Status.{
  Status, opened, closed, resolved, is_open, status_beq, get_next_statuses, has_status,
}
use zentral.Incidents.Store.{
  ProbeSource, Incident, MachineIncident, Database, Result, ok, err, Error, integrity_error,
  attribute_error, ◌>>=◌, is_open_for, is_open_on, save_incident, save_machine_incident,
  create_incident, create_machine_incident, find_incident, find_machine_incident, has_open_machine,
  get_incident_next_statuses, serialize_for_event, serialize_machine_incident, Diff, no_diff,
  severity_diff, status_diff, Action, created, updated, auto_closed, Payload, incident_payload,
  machine_incident_payload,
}

new_incident : ProbeSource → ℕ → ℕ → Database → Incident
new_incident probe severity event_id db = record {
  pk = db.next_incident;
  probe_source = some probe.pk;
  name = probe.name;
  description = probe.description;
  severity = severity;
  status = opened;
  event_id = event_id;
}

-- A sequence hands out each key once: it has passed the keys of the rows that others inserted.
unfoldable pub next_after : List Incident → ℕ → ℕ
next_after [] next = next
next_after (i ∷ l) next = max (suc i.pk) (next_after l next)

-- The database after the other transactions have inserted these incidents.
unfoldable pub inserted : List Incident → Database → Database
unfolding next_after
inserted meanwhile db = record db {
  incidents = meanwhile ++ db.incidents;
  next_incident = next_after meanwhile db.next_incident;
}

-- The second `get`: `DoesNotExist` is passed over, and `raise e` stands behind the whole `try`.
unfoldable pub raise_after_get : {A : Type 0} → Error → Option Incident → Result A
raise_after_get e none = err e
raise_after_get e (some i) = err e

-- `except IntegrityError` and `else` of the insertion
unfoldable pub created_or_raised :
    ℕ → Incident → Database → Result Database → Result (Incident × Bool × Database)
unfolding raise_after_get
created_or_raised probe i db (ok db') = ok (i, true, db')
created_or_raised probe i db (err integrity_error) =
    raise_after_get integrity_error (find (is_open_for probe) db.incidents)
created_or_raised probe i db (err attribute_error) = err attribute_error

or_create_incident :
    ProbeSource
    → ℕ
    → ℕ
    → List Incident
    → Database
    → Option Incident
    → Result (Incident × Bool × Database)
unfolding new_incident inserted created_or_raised
or_create_incident probe severity event_id meanwhile db (some i) = ok (i, false, db)
or_create_incident probe severity event_id meanwhile db none =
    let now = inserted meanwhile db in
    let i = new_incident probe severity event_id now in
    created_or_raised probe.pk i now (create_incident i now)

get_or_create_incident :
    ProbeSource → ℕ → ℕ → List Incident → Database → Result (Incident × Bool × Database)
unfolding or_create_incident
get_or_create_incident probe severity event_id meanwhile db =
    or_create_incident probe severity event_id meanwhile db
      (find (is_open_for probe.pk) db.incidents)

-- The severity of an incident only grows.
raise_severity : ℕ → Incident → Bool → Database → Result (Incident × Database × List Payload)
raise_severity severity i is_new db =
    if ltb i.severity severity
    then (let i' = record i { severity = severity } in
        save_incident i' db >>= λ db'. serialize_for_event i' >>= λ p.
        ok (i', db', incident_payload p updated (severity_diff i.severity severity) ∷ []))
    else if is_new
    then (serialize_for_event i >>= λ p. ok (i, db, incident_payload p created no_diff ∷ []))
    else ok (i, db, [])

-- `_update_or_create_open_incident`
unfoldable pub update_or_create_open_incident :
    ProbeSource → ℕ → ℕ → List Incident → Database → Result (Incident × Database × List Payload)
unfolding get_or_create_incident raise_severity
update_or_create_open_incident probe severity event_id meanwhile db =
    get_or_create_incident probe severity event_id meanwhile db >>= λ r.
    raise_severity severity r.0 r.1 r.2

-- The machine incident that a recovery closes: of the probe and the machine, and exactly OPEN.
unfoldable pub is_recovered : ℕ → String → List Incident → MachineIncident → Bool
is_recovered probe serial_number incidents mi =
    status_beq mi.status opened
    && ((mi.serial_number == serial_number)
        && any (λ i. (i.pk == mi.incident) && (i.probe_source == some probe)) incidents)

-- The incident is closed too if it is exactly OPEN and no machine is affected any more.
-- An incident that is not open is logged as an error and left.
close_incident : Incident → Database → List Payload → Result (Database × List Payload)
close_incident i db payloads =
    if not (is_open i.status)
    then ok (db, payloads)
    else if status_beq i.status opened && not (has_open_machine i.pk db)
    then (let i' = record i { status = closed } in
        save_incident i' db >>= λ db'. serialize_for_event i' >>= λ p.
        ok (db', payloads ++ incident_payload p auto_closed (status_diff opened closed) ∷ []))
    else ok (db, payloads)

close_machine_incident : MachineIncident → Incident → Database → Result (Database × List Payload)
unfolding close_incident
close_machine_incident mi i db =
    let mi' = record mi { status = closed } in
    save_machine_incident mi' db >>= λ db'. serialize_machine_incident mi' i >>= λ p.
    close_incident i db'
      (machine_incident_payload p auto_closed (status_diff mi.status closed) ∷ [])

recover_on : MachineIncident → Database → Option Incident → Result (Database × List Payload)
unfolding close_machine_incident
recover_on mi db none = ok (db, [])
recover_on mi db (some i) = close_machine_incident mi i db

recover_machine : Database → Option MachineIncident → Result (Database × List Payload)
unfolding recover_on
recover_machine db none = ok (db, [])
recover_machine db (some mi) = recover_on mi db (find_incident mi.incident db.incidents)

-- `update_or_create_open_machine_incident` at severity 0
unfoldable pub recover : ProbeSource → String → Database → Result (Database × List Payload)
unfolding is_recovered recover_machine
recover probe serial_number db =
    recover_machine db
      (find (is_recovered probe.pk serial_number db.incidents) db.machine_incidents)

new_machine_incident : Incident → String → ℕ → Database → MachineIncident
new_machine_incident i serial_number event_id db = record {
  pk = db.next_machine_incident;
  incident = i.pk;
  serial_number = serial_number;
  status = opened;
  event_id = event_id;
}

-- `get_or_create` of the machine incident of an open incident
affect_machine : Incident → String → ℕ → Database → List Payload → Result (Database × List Payload)
unfolding new_machine_incident
affect_machine i serial_number event_id db payloads =
    if any (is_open_on i.pk serial_number) db.machine_incidents
    then ok (db, payloads)
    else (let mi = new_machine_incident i serial_number event_id db in
        create_machine_incident mi db >>= λ db'. serialize_machine_incident mi i >>= λ p.
        ok (db', payloads ++ machine_incident_payload p created no_diff ∷ []))

-- `update_or_create_open_machine_incident`
unfoldable pub update_or_create_open_machine_incident :
    ProbeSource → ℕ → String → ℕ → List Incident → Database → Result (Database × List Payload)
unfolding affect_machine
update_or_create_open_machine_incident probe severity serial_number event_id meanwhile db =
    if severity == 0
    then recover probe serial_number db
    else (update_or_create_open_incident probe severity event_id meanwhile db >>= λ r.
        affect_machine r.0 serial_number event_id r.1 r.2)

change_incident : Status → Database → Option Incident → Result (Database × List Payload)
change_incident new_status db none = ok (db, [])
change_incident new_status db (some i) =
    if has_status new_status (get_incident_next_statuses i db)
    then (let i' = record i { status = new_status } in
        save_incident i' db >>= λ db'. serialize_for_event i' >>= λ p.
        ok (db', incident_payload p updated (status_diff i.status new_status) ∷ []))
    else ok (db, [])

-- `update_incident_status`: a status that may not follow, or a row that is gone, changes nothing.
unfoldable pub update_incident_status : ℕ → Status → Database → Result (Database × List Payload)
unfolding change_incident
update_incident_status pk new_status db =
    change_incident new_status db (find_incident pk db.incidents)

change_machine_incident :
    Status → Database → MachineIncident → Option Incident → Result (Database × List Payload)
change_machine_incident new_status db mi none = ok (db, [])
change_machine_incident new_status db mi (some i) =
    if has_status new_status (get_next_statuses mi.status)
    then (let mi' = record mi { status = new_status } in
        save_machine_incident mi' db >>= λ db'. serialize_machine_incident mi' i >>= λ p.
        ok (db', machine_incident_payload p updated (status_diff mi.status new_status) ∷ []))
    else ok (db, [])

change_found_machine_incident :
    Status → Database → Option MachineIncident → Result (Database × List Payload)
unfolding change_machine_incident
change_found_machine_incident new_status db none = ok (db, [])
change_found_machine_incident new_status db (some mi) =
    change_machine_incident new_status db mi (find_incident mi.incident db.incidents)

-- `update_machine_incident_status`
unfoldable pub update_machine_incident_status :
    ℕ → Status → Database → Result (Database × List Payload)
unfolding change_found_machine_incident
update_machine_incident_status pk new_status db =
    change_found_machine_incident new_status db (find_machine_incident pk db.machine_incidents)
