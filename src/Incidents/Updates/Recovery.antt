-- ===== src/Incidents/Updates/Recovery.antt =====
-- What a recovery (severity 0) does to the tables (zentral/core/incidents/utils.py).
use zentral.Incidents.Status.{Status, opened, closed, status_beq}
use zentral.Base.{
  Bool, List, [], any, false, if◌then◌else◌, length, map, not, select, some, ℕ, ◌&&◌, ◌==◌, ◌∷◌,
  ◌≡◌, nat_eq, string_eq, option_eq, bool_eq,
}
use zentral.Incidents.Store.{
  Incident, MachineIncident, Database, Payload, find_incident, put_machine_incident, is_open_on,
  machine_incident_conflicts, has_open_machine,
}

abbrev pub HasUniquePks : List Incident → Type 0
HasUniquePks [] = Unit
HasUniquePks (i ∷ l) = (any (λ j. j.pk == i.pk) l ≡ false) × HasUniquePks l

-- The constraint `one_open_machine_incident_per_incident`.
abbrev pub HasOneOpenPerMachine : List MachineIncident → Type 0
HasOneOpenPerMachine l = any (λ mi. machine_incident_conflicts mi l) l ≡ false

-- An incident that is exactly OPEN and affects no machine.
abbrev pub is_over : Incident → Database → Bool
is_over i db = status_beq i.status opened && not (has_open_machine i.pk db)

abbrev pub is_other : ℕ → Incident → Bool
is_other pk j = not (j.pk == pk)

-- The machine is not affected any more, and its incident is closed if it is over in the new tables.
-- No other incident changes. One event for each row that changes.
abbrev pub Recovers : MachineIncident → Incident → Database → Database × List Payload → Type 0
Recovers mi i db r =
    (r.0.machine_incidents
      ≡ map (put_machine_incident (record mi { status = closed })) db.machine_incidents)
    × (any (is_open_on i.pk mi.serial_number) r.0.machine_incidents ≡ false)
    × (find_incident i.pk r.0.incidents
        ≡ some (if is_over i r.0 then record i { status = closed } else i))
    × (select (is_other i.pk) r.0.incidents ≡ select (is_other i.pk) db.incidents)
    × (length r.1 ≡ (if is_over i r.0 then 2 else 1))

-- The database once the machine incident is closed.
abbrev machine_closed : MachineIncident → Database → Database
machine_closed mi db = record db {
  machine_incidents =
      map (put_machine_incident (record mi { status = closed })) db.machine_incidents;
}
