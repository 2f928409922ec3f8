-- ===== src/Incidents/Examples.antt =====
-- The theorems on zentral/core/incidents at concrete tables.
use zentral.Incidents.Status.{
  get_next_statuses, has_status, Status, opened, in_progress, resolved, reopened, closed, is_open,
  status_beq,
}
use zentral.Incidents.Store.{
  get_incident_next_statuses, has_open_machine, find_incident, incident_conflicts, ProbeSource,
  Incident, MachineIncident, Database, ok, err, integrity_error, attribute_error, is_open_for,
  committed,
}
use zentral.Base.{[], find, length, none, refl, some, ℕ, ◌∷◌, ◌≡◌}
use Prim.Native.Nat.{max}
use zentral.Incidents.Updates.{
  inserted, update_or_create_open_incident, update_or_create_open_machine_incident,
  update_incident_status, update_machine_incident_status,
}
use zentral.Incidents.Updates.Orphans.{HasNoOrphans}
use zentral.Incidents.Updates.Parents.{
  update_incident_status-HasNoOrphans, update_machine_incident_status-HasNoOrphans,
}
use zentral.Incidents.Updates.Events.{update_or_create_open_machine_incident-HasNoOrphans}
use zentral.Incidents.Updates.Severity.{
  IsStored, key_expected, Returns, IsOpenFor, severity_before, events_expected,
  update_or_create_open_incident-severity,
}
use zentral.Incidents.Updates.Races.{
  concurrent_creation_raises, deleted_probe_raises, reopening_raises, affected_incident_stays,
}

abbrev probe : ProbeSource
probe = record { pk = 7; name = "Firewall off"; description = "" }

abbrev incident : ℕ → ℕ → ℕ → Status → Incident
incident pk probe_pk severity status = record {
  pk = pk;
  probe_source = some probe_pk;
  name = "Firewall off";
  description = "";
  severity = severity;
  status = status;
  event_id = 1;
}

abbrev affected : MachineIncident
affected = record { pk = 1; incident = 1; serial_number = "C02"; status = opened; event_id = 1 }

-- An open incident that affects one machine, and the closed one before it.
abbrev open_db : Database
open_db = record {
  incidents = incident 1 7 100 opened ∷ incident 0 7 300 closed ∷ [];
  machine_incidents = affected ∷ [];
  next_incident = 2;
  next_machine_incident = 2;
}

abbrev empty_db : Database
empty_db = record {
  incidents = [];
  machine_incidents = [];
  next_incident = 2;
  next_machine_incident = 2;
}

abbrev unowned_db : Database
unowned_db = record empty_db {
  incidents = record (incident 1 7 100 opened) { probe_source = none } ∷ [];
}

update_incident_status-HasNoOrphans_example :
    HasNoOrphans (committed open_db (update_incident_status 1 in_progress open_db))
unfolding status_beq is_open
update_incident_status-HasNoOrphans_example =
    update_incident_status-HasNoOrphans 1 in_progress open_db refl

update_machine_incident_status-HasNoOrphans_example :
    HasNoOrphans (committed open_db (update_machine_incident_status 1 resolved open_db))
unfolding status_beq is_open
update_machine_incident_status-HasNoOrphans_example =
    update_machine_incident_status-HasNoOrphans 1 resolved open_db refl

update_or_create_open_machine_incident-HasNoOrphans_example :
    HasNoOrphans
      (committed open_db (update_or_create_open_machine_incident probe 0 "C02" 5 [] open_db))
unfolding status_beq is_open
update_or_create_open_machine_incident-HasNoOrphans_example =
    update_or_create_open_machine_incident-HasNoOrphans probe 0 "C02" 5 [] open_db refl

update_or_create_open_incident-severity_example :
    let before = find (is_open_for 7) open_db.incidents in
    Returns
      (λ r.
        IsOpenFor 7 (max (severity_before before) 200) r
        × (length r.2 ≡ events_expected 200 before)
        × IsStored 7 (key_expected 2 before) r)
      (update_or_create_open_incident probe 200 5 [] open_db)
unfolding incident_conflicts is_open is_open_for
update_or_create_open_incident-severity_example =
    update_or_create_open_incident-severity probe 200 5 open_db refl

-- The other transaction gets the key that stands next.
concurrent_creation_raises_example :
    (update_or_create_open_incident probe 200 5 (incident 2 7 100 opened ∷ []) empty_db
      ≡ err integrity_error)
    × ((i : Incident) × (find
            (is_open_for 7)
            (inserted (incident 2 7 100 opened ∷ []) empty_db).incidents
          ≡ some i))
unfolding is_open_for is_open
concurrent_creation_raises_example =
    concurrent_creation_raises probe 200 5 (incident 2 7 100 opened ∷ []) empty_db refl refl

deleted_probe_raises_example : update_incident_status 1 closed unowned_db ≡ err attribute_error
unfolding find_incident has_status get_incident_next_statuses has_open_machine get_next_statuses
deleted_probe_raises_example =
    deleted_probe_raises 1 closed unowned_db
      (record (incident 1 7 100 opened) { probe_source = none }) refl refl refl

reopening_raises_example : update_incident_status 0 reopened open_db ≡ err integrity_error
unfolding find_incident is_open is_open_for
reopening_raises_example =
    reopening_raises 0 7 open_db (incident 0 7 300 closed) refl refl refl refl

affected_incident_stays_example : update_incident_status 1 closed open_db ≡ ok (open_db, [])
unfolding find_incident has_open_machine is_open
affected_incident_stays_example =
    affected_incident_stays 1 closed open_db (incident 1 7 100 opened) refl refl refl
