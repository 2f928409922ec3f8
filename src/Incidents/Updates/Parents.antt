-- ===== src/Incidents/Updates/Parents.antt =====
-- Every operation of zentral/core/incidents/utils.py keeps the incident of an OPEN machine incident
-- open.
use zentral.Incidents.Store.{
  committed, Incident, MachineIncident, Database, Result, ok, err, is_open_for, save_incident,
  save_machine_incident, find_incident, find_machine_incident, has_open_machine,
  get_incident_next_statuses, serialize_for_event, serialize_machine_incident, Payload,
}
use zentral.Base.{
  Bool, Bool-cases, List, Option, [], arith, false, find, if◌then◌else◌, inl, inr, none, not,
  select, some, true, ℕ, ◌&&◌, ◌||◌, ◌∷◌, ◌≡◌, ◌⊎◌,
}
use zentral.Incidents.Status.{
  Status, opened, closed, resolved, is_open, status_beq, get_next_statuses, has_status,
}
use zentral.Incidents.Updates.{
  change_incident, change_machine_incident, change_found_machine_incident, update_incident_status,
  update_machine_incident_status,
}
use zentral.Incidents.Updates.Orphans.{
  is_open_in, is_orphan, HasNoOrphans, Ensures, Ensures-bind, Ensures-any,
  save_incident-HasNoOrphans, save_machine_incident-HasNoOrphans,
}

pub and_false : (b : Bool) → (b && not true) ≡ false
and_false b = ground arith

pub not-true_of : (b : Bool) → not b ≡ true → b ≡ false
not-true_of b h = ground arith

abbrev pub Keeps : Database × List Payload → Type 0
Keeps r = HasNoOrphans r.0

pub committed-HasNoOrphans :
    (db : Database) (r : Result (Database × List Payload))
    → HasNoOrphans db
    → Ensures Keeps r
    → HasNoOrphans (committed db r)
unfolding committed
committed-HasNoOrphans db (ok r) h k = k
committed-HasNoOrphans db (err e) h k = h

-- A status other than OPEN makes no orphan.
pub not_orphan :
    (l : List Incident) (mi : MachineIncident)
    → status_beq mi.status opened ≡ false
    → is_orphan l mi ≡ false
not_orphan l mi h = rw h

next_while_affected-go :
    (s : Status) (t : Status) (b : Bool)
    → has_status s (
        if b
        then select (λ x. not (status_beq x closed || status_beq x resolved)) (get_next_statuses t)
        else get_next_statuses t)
      ≡ true
    → (is_open s ≡ true) ⊎ (b ≡ false)
unfolding has_status get_next_statuses is_open status_beq
next_while_affected-go s t b h = ground arith

-- A status that may follow while a machine is affected is an open one.
next_while_affected :
    (s : Status) (i : Incident) (db : Database)
    → has_status s (get_incident_next_statuses i db) ≡ true
    → (is_open s ≡ true) ⊎ (has_open_machine i.pk db ≡ false)
unfolding get_incident_next_statuses
next_while_affected s i db h = next_while_affected-go s i.status (has_open_machine i.pk db) h

next_not_opened :
    (s t : Status) → has_status s (get_next_statuses t) ≡ true → status_beq s opened ≡ false
unfolding has_status get_next_statuses status_beq
next_not_opened s t h = ground arith

pub find-is_open_in :
    (pk : ℕ) (l : List Incident) (i : Incident)
    → find (is_open_for pk) l ≡ some i
    → (is_open i.status ≡ true) × (is_open_in l i.pk ≡ true)
unfolding is_open_for
find-is_open_in pk [] i h = cc
find-is_open_in pk (j ∷ l) i h = ground (arith, find-is_open_in pk l i)

change_incident-Keeps :
    (s : Status) (db : Database) (o : Option Incident)
    → HasNoOrphans db
    → Ensures Keeps (change_incident s db o)
unfolding change_incident
change_incident-Keeps s db none h = h
change_incident-Keeps s db (some i) h =
    elim (Bool-cases (has_status s (get_incident_next_statuses i db))) [
      | inl e ↦ rw e (
          Ensures-bind HasNoOrphans Keeps (save_incident (record i { status = s }) db) _
            (save_incident-HasNoOrphans (record i { status = s }) db (next_while_affected s i db e)
              h)
            (λ db' k.
              Ensures-bind (λ p. Unit) Keeps (serialize_for_event (record i { status = s })) _
                (Ensures-any _) (λ p _. k)))
      | inr e ↦ rw e h
    ]

-- If the incident of every OPEN machine incident is open, it still is after a user's change of an
-- incident's status, whether it is allowed, refused, or raises and is rolled back.
pub update_incident_status-HasNoOrphans :
    (pk : ℕ) (s : Status) (db : Database)
    → HasNoOrphans db
    → HasNoOrphans (committed db (update_incident_status pk s db))
unfolding update_incident_status
update_incident_status-HasNoOrphans pk s db h =
    committed-HasNoOrphans db (change_incident s db (find_incident pk db.incidents)) h
      (change_incident-Keeps s db (find_incident pk db.incidents) h)

change_machine_incident-Keeps :
    (s : Status) (db : Database) (mi : MachineIncident) (o : Option Incident)
    → HasNoOrphans db
    → Ensures Keeps (change_machine_incident s db mi o)
unfolding change_machine_incident
change_machine_incident-Keeps s db mi none h = h
change_machine_incident-Keeps s db mi (some i) h =
    elim (Bool-cases (has_status s (get_next_statuses mi.status))) [
      | inl e ↦ rw e (
          Ensures-bind HasNoOrphans Keeps (save_machine_incident (record mi { status = s }) db) _
            (save_machine_incident-HasNoOrphans (record mi { status = s }) db
              (not_orphan db.incidents (record mi { status = s }) (next_not_opened s mi.status e))
              h)
            (λ db' k.
              Ensures-bind (λ p. Unit) Keeps
                (serialize_machine_incident (record mi { status = s }) i) _ (Ensures-any _)
                (λ p _. k)))
      | inr e ↦ rw e h
    ]

change_found-Keeps :
    (s : Status) (db : Database) (o : Option MachineIncident)
    → HasNoOrphans db
    → Ensures Keeps (change_found_machine_incident s db o)
unfolding change_found_machine_incident
change_found-Keeps s db none h = h
change_found-Keeps s db (some mi) h =
    change_machine_incident-Keeps s db mi (find_incident mi.incident db.incidents) h

-- If the incident of every OPEN machine incident is open, it still is after a user's change of a
-- machine incident's status, whether it is allowed, refused, or raises and is rolled back.
pub update_machine_incident_status-HasNoOrphans :
    (pk : ℕ) (s : Status) (db : Database)
    → HasNoOrphans db
    → HasNoOrphans (committed db (update_machine_incident_status pk s db))
unfolding update_machine_incident_status
update_machine_incident_status-HasNoOrphans pk s db h =
    committed-HasNoOrphans db
      (change_found_machine_incident s db (find_machine_incident pk db.machine_incidents)) h
      (change_found-Keeps s db (find_machine_incident pk db.machine_incidents) h)
