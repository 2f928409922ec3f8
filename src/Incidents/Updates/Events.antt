-- ===== src/Incidents/Updates/Events.antt =====
-- An event keeps the incident of an OPEN machine incident open (zentral/core/incidents/utils.py).
use zentral.Incidents.Store.{
  Error, Result, err, integrity_error, attribute_error, is_open_on, committed, no_diff, created,
  incident_payload, ProbeSource, Incident, MachineIncident, Database, ok, ◌>>=◌, is_open_for,
  save_incident, save_machine_incident, create_incident, create_machine_incident, has_open_machine,
  serialize_for_event, serialize_machine_incident, Payload,
}
use zentral.Base.{
  Bool, Bool-cases, List, Option, String, [], and-right, any, false, find, if◌then◌else◌, inl, inr,
  ltb, none, not, refl, some, true, ℕ, ◌&&◌, ◌==◌, ◌∷◌, ◌≡◌, nat_eq, string_eq, option_eq, bool_eq,
}
use zentral.Incidents.Status.{opened, closed, is_open, status_beq}
use zentral.Incidents.Updates.{
  inserted, raise_after_get, created_or_raised, new_incident, or_create_incident,
  get_or_create_incident, raise_severity, update_or_create_open_incident, close_incident,
  close_machine_incident, recover_on, recover_machine, recover, new_machine_incident,
  affect_machine, update_or_create_open_machine_incident,
}
use zentral.Incidents.Updates.Orphans.{
  is_open_in, is_orphan, HasNoOrphans, Ensures, Ensures-bind, Ensures-any,
  save_incident-HasNoOrphans, save_machine_incident-HasNoOrphans,
  create_machine_incident-HasNoOrphans, create_incident-Stands, save_incident-Stands,
  orphans_of_append, Stands,
}
use zentral.Incidents.Updates.Parents.{
  Keeps, committed-HasNoOrphans, not_orphan, find-is_open_in, and_false, not-true_of,
}

abbrev Opens : Incident × Database × List Payload → Type 0
Opens r = Stands r.0 r.1 × (is_open r.0.status ≡ true)

abbrev Found : Incident × Bool × Database → Type 0
Found r = Stands r.0 r.2 × (is_open r.0.status ≡ true)

raise_after_get-Ensures :
    {A : Type 0} (P : A → Type 0) (e : Error) (o : Option Incident)
    → Ensures P (raise_after_get e o)
unfolding raise_after_get
raise_after_get-Ensures P e none = tt
raise_after_get-Ensures P e (some i) = tt

created_or_raised-Found :
    (probe : ℕ) (i : Incident) (db : Database) (r : Result Database)
    → is_open i.status ≡ true
    → Ensures (Stands i) r
    → Ensures Found (created_or_raised probe i db r)
unfolding created_or_raised
created_or_raised-Found probe i db (ok db') o k = (k, o)
created_or_raised-Found probe i db (err attribute_error) o k = tt
created_or_raised-Found probe i db (err integrity_error) o k =
    raise_after_get-Ensures Found integrity_error (find (is_open_for probe) db.incidents)

or_create_incident-Found :
    (probe : ProbeSource) (severity event_id : ℕ) (meanwhile : List Incident) (db : Database)
    (o : Option Incident)
    → HasNoOrphans db
    → find (is_open_for probe.pk) db.incidents ≡ o
    → Ensures Found (or_create_incident probe severity event_id meanwhile db o)
unfolding or_create_incident new_incident inserted is_open
or_create_incident-Found probe severity event_id meanwhile db (some i) h e =
    let f = find-is_open_in probe.pk db.incidents i e in ((h, f.1), f.0)
or_create_incident-Found probe severity event_id meanwhile db none h e =
    let now = inserted meanwhile db in
    let i = new_incident probe severity event_id now in
    created_or_raised-Found probe.pk i now (create_incident i now) refl (
      create_incident-Stands i now refl
        (orphans_of_append db.incidents meanwhile db.machine_incidents h))

raise_severity-Opens :
    (severity : ℕ) (i : Incident) (is_new : Bool) (db : Database)
    → Stands i db
    → is_open i.status ≡ true
    → Ensures Opens (raise_severity severity i is_new db)
unfolding raise_severity
raise_severity-Opens severity i is_new db st o = elim (Bool-cases (ltb i.severity severity)) [
  | inl e ↦ rw e (
      Ensures-bind (Stands i) Opens (save_incident (record i { severity = severity }) db) _
        (save_incident-Stands (record i { severity = severity }) db o st)
        (λ db' k.
          Ensures-bind (λ p. Unit) Opens (serialize_for_event (record i { severity = severity })) _
            (Ensures-any _) (λ p _. (k, o))))
  | inr e ↦ rw e (plain is_new)
]
  where
    plain :
        (b : Bool)
        → Ensures Opens (
            if b
            then (serialize_for_event i >>= λ p.
                ok (i, db, incident_payload p created no_diff ∷ []))
            else ok (i, db, []))
    plain true =
        Ensures-bind (λ p. Unit) Opens (serialize_for_event i) _ (Ensures-any _) (λ p _. (st, o))
    plain false = (st, o)

update_or_create-Opens :
    (probe : ProbeSource) (severity event_id : ℕ) (meanwhile : List Incident) (db : Database)
    → HasNoOrphans db
    → Ensures Opens (update_or_create_open_incident probe severity event_id meanwhile db)
unfolding update_or_create_open_incident get_or_create_incident
update_or_create-Opens probe severity event_id meanwhile db h =
    Ensures-bind Found Opens
      (or_create_incident probe severity event_id meanwhile db
        (find (is_open_for probe.pk) db.incidents))
      _ (or_create_incident-Found probe severity event_id meanwhile db _ h refl)
      (λ r k. raise_severity-Opens severity r.0 r.1 r.2 k.0 k.1)

affect_machine-Keeps :
    (i : Incident) (serial_number : String) (event_id : ℕ) (db : Database) (ps : List Payload)
    → Stands i db
    → Ensures Keeps (affect_machine i serial_number event_id db ps)
unfolding affect_machine
affect_machine-Keeps i serial_number event_id db ps st =
    elim (Bool-cases (any (is_open_on i.pk serial_number) db.machine_incidents)) [
      | inl e ↦ rw e st.0
      | inr e ↦ rw e (
          Ensures-bind HasNoOrphans Keeps (create_machine_incident mi db) _
            (create_machine_incident-HasNoOrphans mi db (has_parent st.1) st.0)
            (λ db' k.
              Ensures-bind (λ p. Unit) Keeps (serialize_machine_incident mi i) _ (Ensures-any _)
                (λ p _. k)))
    ]
  where
    mi : MachineIncident
    mi = new_machine_incident i serial_number event_id db

    has_parent :
        is_open_in db.incidents i.pk ≡ true
        → is_orphan db.incidents (new_machine_incident i serial_number event_id db) ≡ false
    has_parent e = rw e (and_false _)

close_incident-Keeps :
    (i : Incident) (db : Database) (ps : List Payload)
    → HasNoOrphans db
    → Ensures Keeps (close_incident i db ps)
unfolding close_incident
close_incident-Keeps i db ps h = elim (Bool-cases (not (is_open i.status))) [
  | inl e ↦ rw e h
  | inr e ↦ rw e (elim (Bool-cases (status_beq i.status opened && not (has_open_machine i.pk db))) [
    | inl f ↦ rw f (
        Ensures-bind HasNoOrphans Keeps (save_incident (record i { status = closed }) db) _
          (save_incident-HasNoOrphans (record i { status = closed }) db
            (inr (not-true_of _ (and-right _ _ f))) h)
          (λ db' k.
            Ensures-bind (λ p. Unit) Keeps (serialize_for_event (record i { status = closed })) _
              (Ensures-any _) (λ p _. k)))
    | inr f ↦ rw f h
  ])
]

close_machine_incident-Keeps :
    (mi : MachineIncident) (i : Incident) (db : Database)
    → HasNoOrphans db
    → Ensures Keeps (close_machine_incident mi i db)
unfolding close_machine_incident status_beq
close_machine_incident-Keeps mi i db h =
    let mi' = record mi { status = closed } in
    Ensures-bind HasNoOrphans Keeps (save_machine_incident mi' db) _
      (save_machine_incident-HasNoOrphans mi' db (not_orphan db.incidents mi' refl) h)
      (λ db' k.
        Ensures-bind (λ p. Unit) Keeps (serialize_machine_incident mi' i) _ (Ensures-any _)
          (λ p _. close_incident-Keeps i db' _ k))

recover_on-Keeps :
    (mi : MachineIncident) (db : Database) (o : Option Incident)
    → HasNoOrphans db
    → Ensures Keeps (recover_on mi db o)
unfolding recover_on
recover_on-Keeps mi db none h = h
recover_on-Keeps mi db (some i) h = close_machine_incident-Keeps mi i db h

recover_machine-Keeps :
    (db : Database) (o : Option MachineIncident)
    → HasNoOrphans db
    → Ensures Keeps (recover_machine db o)
unfolding recover_machine
recover_machine-Keeps db none h = h
recover_machine-Keeps db (some mi) h = recover_on-Keeps mi db _ h

event-Keeps :
    (probe : ProbeSource) (severity : ℕ) (serial_number : String) (event_id : ℕ)
    (meanwhile : List Incident) (db : Database)
    → HasNoOrphans db
    → Ensures Keeps
        (update_or_create_open_machine_incident probe severity serial_number event_id meanwhile db)
unfolding update_or_create_open_machine_incident recover
event-Keeps probe severity serial_number event_id meanwhile db h =
    elim (Bool-cases (severity == 0)) [
      | inl e ↦ rw e (recover_machine-Keeps db _ h)
      | inr e ↦ rw e (
          Ensures-bind Opens Keeps
            (update_or_create_open_incident probe severity event_id meanwhile db) _
            (update_or_create-Opens probe severity event_id meanwhile db h)
            (λ r k. affect_machine-Keeps r.0 serial_number event_id r.1 r.2 k.0))
    ]

-- If the incident of every OPEN machine incident is open, it still is after an event, whether the
-- event opens incidents, reports a recovery, or raises and is rolled back, and whatever incidents
-- others insert meanwhile.
pub update_or_create_open_machine_incident-HasNoOrphans :
    (probe : ProbeSource) (severity : ℕ) (serial_number : String) (event_id : ℕ)
    (meanwhile : List Incident) (db : Database)
    → HasNoOrphans db
    → HasNoOrphans (
        committed db (
          update_or_create_open_machine_incident probe severity serial_number event_id meanwhile
            db))
update_or_create_open_machine_incident-HasNoOrphans probe severity serial_number event_id meanwhile
      db h =
    committed-HasNoOrphans db _ h (event-Keeps probe severity serial_number event_id meanwhile db h)
