-- ===== src/Incidents/Updates/Orphans.antt =====
-- The incident of a machine incident that is OPEN is open itself (zentral/core/incidents/utils.py).
use zentral.Incidents.Store.{
  incident_conflicts, machine_incident_conflicts, Incident, MachineIncident, Database, Result, ok,
  err, ◌>>=◌, put_incident, put_machine_incident, save_incident, save_machine_incident,
  create_incident, create_machine_incident, has_open_machine,
}
use zentral.Base.{
  Bool, Bool-cases, List, [], any, any-append, any_mono, arith, false, if◌then◌else◌, inl, inr, map,
  not, refl, true, ℕ, ◌&&◌, ◌++◌, ◌==◌, ◌||◌, ◌∷◌, ◌≡◌, ◌⊎◌, nat_eq, string_eq, option_eq,
}
use zentral.Incidents.Status.{opened, is_open, status_beq}

or_false : (a b : Bool) → a ≡ false → b ≡ false → (a || b) ≡ false
or_false a b h k = ground arith

-- Is the incident with this key in the table, and open?
abbrev pub is_open_in : List Incident → ℕ → Bool
is_open_in l pk = any (λ i. (i.pk == pk) && is_open i.status) l

abbrev pub is_orphan : List Incident → MachineIncident → Bool
is_orphan l mi = status_beq mi.status opened && not (is_open_in l mi.incident)

abbrev pub HasNoOrphans : Database → Type 0
HasNoOrphans db = any (is_orphan db.incidents) db.machine_incidents ≡ false

-- What holds of a result, if the operation returns one.
abbrev pub Ensures : {A : Type 0} → (A → Type 0) → Result A → Type 0
Ensures P (ok a) = P a
Ensures P (err e) = Unit

pub Ensures-bind :
    {A B : Type 0} (Q : A → Type 0) (P : B → Type 0) (r : Result A) (f : A → Result B)
    → Ensures Q r
    → ((a : A) → Q a → Ensures P (f a))
    → Ensures P (r >>= f)
Ensures-bind Q P (ok a) f q k = k a q
Ensures-bind Q P (err e) f q k = tt

pub Ensures-any : {A : Type 0} (r : Result A) → Ensures (λ a. Unit) r
Ensures-any (ok a) = tt
Ensures-any (err e) = tt

is_open_in-put :
    (i : Incident) (pk : ℕ) (l : List Incident)
    → is_open_in (map (put_incident i) l) pk
      ≡ (if i.pk == pk then is_open i.status && any (λ j. j.pk == pk) l else is_open_in l pk)
is_open_in-put i pk [] = ground arith
is_open_in-put i pk (j ∷ l) = ground (arith, is_open_in-put i pk l)

is_open_in-present :
    (pk : ℕ) (l : List Incident) → is_open_in l pk ≡ true → any (λ j. j.pk == pk) l ≡ true
is_open_in-present pk [] h = cc
is_open_in-present pk (j ∷ l) h = ground (arith, is_open_in-present pk l)

-- An open machine incident on this incident
on_incident : ℕ → MachineIncident → Bool
on_incident pk mi = is_open mi.status && (mi.incident == pk)

orphan_of_put :
    (i : Incident) (l : List Incident) (mi : MachineIncident)
    → (is_open i.status ≡ true) ⊎ (on_incident i.pk mi ≡ false)
    → is_orphan l mi ≡ false
    → is_orphan (map (put_incident i) l) mi ≡ false
unfolding on_incident is_open status_beq
orphan_of_put i l mi c h =
    ground (arith, is_open_in-put i mi.incident l, is_open_in-present mi.incident l)

orphans_of_put :
    (i : Incident) (l : List Incident) (mis : List MachineIncident)
    → (is_open i.status ≡ true) ⊎ (any (on_incident i.pk) mis ≡ false)
    → any (is_orphan l) mis ≡ false
    → any (is_orphan (map (put_incident i) l)) mis ≡ false
orphans_of_put i l [] c h = refl
orphans_of_put i l (mi ∷ mis) (inl e) h =
    ground (arith, orphan_of_put i l mi (inl e), orphans_of_put i l mis (inl e))
orphans_of_put i l (mi ∷ mis) (inr e) h =
    let e0 : on_incident i.pk mi ≡ false = ground arith in
    let e1 : any (on_incident i.pk) mis ≡ false = ground arith in
    ground (arith, orphan_of_put i l mi (inr e0), orphans_of_put i l mis (inr e1))

pub save_incident-HasNoOrphans :
    (i : Incident) (db : Database)
    → (is_open i.status ≡ true) ⊎ (has_open_machine i.pk db ≡ false)
    → HasNoOrphans db
    → Ensures HasNoOrphans (save_incident i db)
unfolding save_incident has_open_machine on_incident
save_incident-HasNoOrphans i db c h = elim (Bool-cases (incident_conflicts i db.incidents)) [
  | inl e ↦ rw e tt
  | inr e ↦ rw e (orphans_of_put i db.incidents db.machine_incidents c h)
]

orphans_of_machine_put :
    (l : List Incident) (mi : MachineIncident) (mis : List MachineIncident)
    → is_orphan l mi ≡ false
    → any (is_orphan l) mis ≡ false
    → any (is_orphan l) (map (put_machine_incident mi) mis) ≡ false
orphans_of_machine_put l mi [] c h = refl
orphans_of_machine_put l mi (x ∷ mis) c h = ground (arith, orphans_of_machine_put l mi mis)

pub save_machine_incident-HasNoOrphans :
    (mi : MachineIncident) (db : Database)
    → is_orphan db.incidents mi ≡ false
    → HasNoOrphans db
    → Ensures HasNoOrphans (save_machine_incident mi db)
unfolding save_machine_incident
save_machine_incident-HasNoOrphans mi db c h =
    elim (Bool-cases (machine_incident_conflicts mi db.machine_incidents)) [
      | inl e ↦ rw e tt
      | inr e ↦ rw e (orphans_of_machine_put db.incidents mi db.machine_incidents c h)
    ]

pub create_machine_incident-HasNoOrphans :
    (mi : MachineIncident) (db : Database)
    → is_orphan db.incidents mi ≡ false
    → HasNoOrphans db
    → Ensures HasNoOrphans (create_machine_incident mi db)
unfolding create_machine_incident
create_machine_incident-HasNoOrphans mi db c h =
    elim (Bool-cases (machine_incident_conflicts mi db.machine_incidents)) [
      | inl e ↦ rw e tt
      | inr e ↦ rw e (or_false _ _ c h)
    ]

orphan_of_append :
    (l k : List Incident) (mi : MachineIncident)
    → is_orphan l mi ≡ false
    → is_orphan (k ++ l) mi ≡ false
orphan_of_append l k mi h =
    ground (arith, any-append (λ i. (i.pk == mi.incident) && is_open i.status) k l)

pub orphans_of_append :
    (l k : List Incident) (mis : List MachineIncident)
    → any (is_orphan l) mis ≡ false
    → any (is_orphan (k ++ l)) mis ≡ false
orphans_of_append l k mis h =
    any_mono (is_orphan (k ++ l)) (is_orphan l) (orphan_of_append l k) mis h

-- An incident that an operation returns is open and in the table.
abbrev pub Stands : Incident → Database → Type 0
Stands i db = HasNoOrphans db × (is_open_in db.incidents i.pk ≡ true)

pub create_incident-Stands :
    (i : Incident) (db : Database)
    → is_open i.status ≡ true
    → HasNoOrphans db
    → Ensures (Stands i) (create_incident i db)
unfolding create_incident
create_incident-Stands i db o h = elim (Bool-cases (incident_conflicts i db.incidents)) [
  | inl e ↦ rw e tt
  | inr e ↦ rw e (orphans_of_append db.incidents (i ∷ []) db.machine_incidents h, ground arith)
]

still_open :
    (i : Incident) (l : List Incident)
    → is_open i.status ≡ true
    → is_open_in l i.pk ≡ true
    → is_open_in (map (put_incident i) l) i.pk ≡ true
still_open i l o s = ground (arith, is_open_in-put i i.pk l, is_open_in-present i.pk l)

pub save_incident-Stands :
    (i : Incident) (db : Database)
    → is_open i.status ≡ true
    → Stands i db
    → Ensures (Stands i) (save_incident i db)
unfolding save_incident
save_incident-Stands i db o (h, s) = elim (Bool-cases (incident_conflicts i db.incidents)) [
  | inl e ↦ rw e tt
  | inr e ↦
      rw e (
        orphans_of_put i db.incidents db.machine_incidents (inl o) h,
        still_open i db.incidents o s,
      )
]
