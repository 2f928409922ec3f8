-- ===== src/Santa/Enrollments/Single.antt =====
-- One machine after the enrollment (zentral/contrib/santa/views.py).
use zentral.Santa.Enrollments.{
  missing_client_certificate, Client, PreflightData, SyncTables, Machine, MachineValues, Denied,
  Enrollment, is_machine, set_machine, is_other_machine, delete_machines, update_or_create_machine,
  enroll_with, enroll_in, enroll_machine, lacks_certificate, find_enrollment,
  get_enrolled_machine_defaults,
}
use zentral.Base.{
  Bool, List, Option, String, [], all, all_mono, all-of_select, all-select_both, and-right, and_of,
  any, any-cong, any-map, any-of_select, ap, arith, beq-eq_of, beq_refl, false, false_of_not, find,
  find-any, find-is, if◌then◌else◌, inl, inr, none, not, or_right_of, refl, select, some, sym, true,
  ℕ, ◌&&◌, ◌==◌, ◌||◌, ◌∙◌, ◌∷◌, ◌≡◌, ◌⊎◌, nat_eq, string_eq, option_eq,
}
use zentral.Santa.Changes.{MachineRule}
use zentral.Inventory.Secrets.{Verified, verified, failed, verify}

-- A rule in the database is a rule of a machine that is there.
abbrev pub has_machine : List Machine → MachineRule → Bool
has_machine machines r = any (λ m. m.pk == r.enrolled_machine) machines

abbrev pub have_machines : SyncTables → Bool
have_machines tables = all (has_machine tables.machines) tables.machine_rules

abbrev pub is_enrolled : Machine → String → Machine → Bool
is_enrolled m uuid x = (x.pk == m.pk) && (x.hardware_uuid == uuid)

-- The machine that was enrolled is there, alone with its hardware, and no rule has lost its machine.
abbrev pub IsSingle : String → Denied ⊎ (Machine × SyncTables) → Type 0
IsSingle uuid (inl denied) = Unit
IsSingle uuid (inr found) =
    (any (is_enrolled found.0 uuid) found.1.machines ≡ true)
    × (all (λ x. not (x.hardware_uuid == uuid) || (x.pk == found.0.pk)) found.1.machines ≡ true)
    × (have_machines found.1 ≡ true)

any-survives {ℓ} :
    {A : Type ℓ} (p g : A → Bool) (xs : List A)
    → any p xs ≡ true
    → any (λ x. g x && p x) xs ≡ false
    → any p (select (λ x. not (g x)) xs) ≡ true
any-survives p g [] h k = h
any-survives p g (x ∷ xs) h k = ground (arith, any-survives p g xs)

deletion-have_machines :
    (g : Machine → Bool) (machines : List Machine) (rules : List MachineRule)
    → all (has_machine machines) rules ≡ true
    → all
        (has_machine (select (λ m. not (g m)) machines))
        (select (λ r. not (any (λ m. g m && (m.pk == r.enrolled_machine)) machines)) rules)
      ≡ true
deletion-have_machines g machines rules h =
    all-select_both (has_machine machines) _ (has_machine (select (λ m. not (g m)) machines)) rules
      (λ r there stays.
        any-survives (λ m. m.pk == r.enrolled_machine) g machines there (false_of_not _ stays))
      h

-- After the update or the creation of a machine.
IsWritten : String → SyncTables → Machine × SyncTables → Type 0
IsWritten uuid tables found =
    (found.0.hardware_uuid ≡ uuid)
    × (any (is_enrolled found.0 uuid) found.1.machines ≡ true)
    × (have_machines found.1 ≡ true)

update_or_create_machine-IsWritten :
    (enrollment : ℕ) (uuid : String) (v : MachineValues) (tables : SyncTables)
    → have_machines tables ≡ true
    → IsWritten uuid tables (
        update_or_create_machine enrollment uuid v tables
          (find (is_machine enrollment uuid) tables.machines))
unfolding IsWritten
update_or_create_machine-IsWritten enrollment uuid v tables h =
    go (find (is_machine enrollment uuid) tables.machines) refl
  where
    same_pk :
        (new : Machine) (r : MachineRule) (x : Machine) (b : Bool)
        → (x.pk == new.pk) ≡ b
        → ((if b then new else x).pk == r.enrolled_machine) ≡ (x.pk == r.enrolled_machine)
    same_pk new r x true e = ap (λ k. k == r.enrolled_machine) (sym (beq-eq_of x.pk new.pk e))
    same_pk new r x false e = refl

    set_machine-has_machine :
        (new : Machine) (r : MachineRule)
        → has_machine (set_machine new tables.machines) r ≡ has_machine tables.machines r
    set_machine-has_machine new r =
        any-map (λ m. m.pk == r.enrolled_machine) (λ x. if x.pk == new.pk then new else x)
          tables.machines
        ∙ any-cong _ _ (λ x. same_pk new r x (x.pk == new.pk) refl) tables.machines

    at_itself :
        (m : Machine)
        → m.hardware_uuid ≡ uuid
        → is_enrolled
            (record m { values = v })
            uuid
            (if m.pk == m.pk then record m { values = v } else m)
          ≡ true
    at_itself m same =
        rw (beq_refl m.pk) (and_of _ _ (beq_refl m.pk) (ap (λ u. u == uuid) same ∙ beq_refl uuid))

    go :
        (o : Option Machine)
        → find (is_machine enrollment uuid) tables.machines ≡ o
        → IsWritten uuid tables (update_or_create_machine enrollment uuid v tables o)
    go none e = (
      refl,
      rw (beq_refl tables.next_pk, beq_refl uuid) refl,
      all_mono (has_machine tables.machines) _ tables.machine_rules
          (λ r there. or_right_of _ _ there) h,
    )
    go (some m) e =
        let same : m.hardware_uuid ≡ uuid =
          beq-eq_of m.hardware_uuid uuid
            (and-right (m.enrollment == enrollment) _ (find-is _ m tables.machines e)) in
        let new : Machine = record m { values = v } in
        (
          same,
          any-map (is_enrolled new uuid) (λ x. if x.pk == m.pk then new else x) tables.machines
              ∙ find-any (is_machine enrollment uuid) _ m tables.machines e (at_itself m same),
          all_mono (has_machine tables.machines) (has_machine (set_machine new tables.machines))
              tables.machine_rules (λ r there. set_machine-has_machine new r ∙ there) h,
        )

enroll_with-IsSingle :
    (strip : String → String) (c : Client) (d : PreflightData) (e : Enrollment)
    (tables : SyncTables) (v : Verified)
    → have_machines tables ≡ true
    → IsSingle c.hardware_uuid (enroll_with strip c d e tables v)
unfolding IsWritten delete_machines
enroll_with-IsSingle strip c d e tables (failed error) h = tt
enroll_with-IsSingle strip c d e tables (verified request secrets) h =
    let found =
      update_or_create_machine e.pk c.hardware_uuid (get_enrolled_machine_defaults strip d)
        (record tables { secrets = secrets })
        (find (is_machine e.pk c.hardware_uuid) tables.machines) in
    let written : IsWritten c.hardware_uuid (record tables { secrets = secrets }) found =
      update_or_create_machine-IsWritten e.pk c.hardware_uuid
        (get_enrolled_machine_defaults strip d) (record tables { secrets = secrets }) h in
    (
      any-of_select (is_enrolled found.0 c.hardware_uuid) (is_enrolled found.0 c.hardware_uuid)
          (λ x. not (is_other_machine found.0 x)) found.1.machines
          (λ x there. (
            stays (x.pk == found.0.pk) (x.hardware_uuid == c.hardware_uuid)
                (x.hardware_uuid == found.0.hardware_uuid) there,
            there,
          ))
          written.1,
      all-of_select (λ x. not (x.hardware_uuid == c.hardware_uuid) || (x.pk == found.0.pk))
          (λ x. not (is_other_machine found.0 x)) found.1.machines
          (λ x left.
            alone (x.pk == found.0.pk) (x.hardware_uuid == found.0.hardware_uuid)
              (x.hardware_uuid == c.hardware_uuid) (ap (λ u. x.hardware_uuid == u) written.0) left),
      deletion-have_machines (is_other_machine found.0) found.1.machines found.1.machine_rules
          written.2,
    )
  where
    stays : (k u w : Bool) → (k && u) ≡ true → not (not k && w) ≡ true
    stays k u w h = ground arith

    alone : (k u w : Bool) → u ≡ w → not (not k && u) ≡ true → (not w || k) ≡ true
    alone k u w e h = ground arith

-- After an enrollment that is not turned away, exactly the machine that was enrolled has its hardware
-- identifier, whatever was enrolled with it before, and each rule in the database still has its
-- machine, if each had one before.
pub enroll_machine-IsSingle :
    (strip : String → String) (now : ℕ) (c : Client) (d : PreflightData) (tables : SyncTables)
    → have_machines tables ≡ true
    → IsSingle c.hardware_uuid (enroll_machine strip now c d tables)
unfolding enroll_machine
enroll_machine-IsSingle strip now c d tables h = go (find_enrollment tables c.enrollment_secret)
  where
    branch :
        (e : Enrollment) (b : Bool)
        → IsSingle c.hardware_uuid (
            if b
            then inl missing_client_certificate
            else enroll_with strip c d e tables (
                verify
                  (λ es. any (λ x. x.secret == es.secret) tables.enrollments)
                  now
                  c.enrollment_secret
                  c.user_agent
                  c.ip
                  (some d.serial_num)
                  (some c.hardware_uuid)
                  none
                  tables.secrets))
    branch e true = tt
    branch e false = enroll_with-IsSingle strip c d e tables _ h

    go : (o : Option Enrollment) → IsSingle c.hardware_uuid (enroll_in strip now c d tables o)
    go none = tt
    go (some e) = branch e (lacks_certificate c e)
