-- ===== src/Santa/Enrollments.antt =====
-- The enrollment of a machine in zentral/contrib/santa/views.py. The built-in `strip` is an argument, and
-- so is the time. `client_cert_dn` is the parsed name.
pub mod Restart
pub mod Preflight
pub mod Single
pub mod CleanSync
use zentral.Santa.Configurations.{monitor_mode, lockdown_mode}
use zentral.Base.{
  Bool, List, Option, String, [], any, find, if◌then◌else◌, inl, inr, map, none, not, select, some,
  suc, truthy, ℕ, ◌&&◌, ◌==◌, ◌∷◌, ◌⊎◌, nat_eq, string_eq, option_eq,
}
use zentral.Inventory.Secrets.{EnrollmentSecret, SecretTables, Verified, verified, failed, verify}
use zentral.Santa.Changes.{MachineRule}

pub record Enrollment : Type 0 where
  pub pk : ℕ
  pub secret : String
  pub configuration : ℕ
  pub client_certificate_auth : Bool

-- The values that a preflight request sets, `_get_enrolled_machine_defaults`.
pub record MachineValues : Type 0 where
  pub serial_number : String
  pub primary_user : Option String
  pub client_mode : ℕ
  pub santa_version : String
  pub binary_rule_count : Option ℕ
  pub certificate_rule_count : Option ℕ
  pub compiler_rule_count : Option ℕ
  pub transitive_rule_count : Option ℕ

-- A row of `EnrolledMachine`.
pub record Machine : Type 0 where
  pub pk : ℕ
  pub enrollment : ℕ
  pub hardware_uuid : String
  pub values : MachineValues

pub record MachineTag : Type 0 where
  pub serial_number : String
  pub tag : ℕ

pub record SyncTables : Type 0 where
  pub enrollments : List Enrollment
  pub secrets : SecretTables
  pub machines : List Machine
  pub next_pk : ℕ
  pub machine_rules : List MachineRule
  pub machine_tags : List MachineTag

-- The data of a preflight request.
pub record PreflightData : Type 0 where
  pub serial_num : String
  pub primary_user : Option String
  pub client_mode : Option String
  pub santa_version : String
  pub binary_rule_count : Option ℕ
  pub certificate_rule_count : Option ℕ
  pub compiler_rule_count : Option ℕ
  pub transitive_rule_count : Option ℕ
  pub request_clean_sync : Bool

-- What is read of a request besides its data.
pub record Client : Type 0 where
  pub enrollment_secret : String
  pub hardware_uuid : String
  pub client_cert_dn : Option String
  pub user_agent : String
  pub ip : String

-- `PermissionDenied`
pub data Denied : Type 0 where
  missing_client_certificate unknown_enrollment_secret wrong_enrollment_secret : Denied

abbrev pub has_text : String → Option String
has_text s = if s == "" then none else some s

-- `_get_primary_user`
unfoldable pub get_primary_user : (String → String) → Option String → Option String
get_primary_user strip none = none
get_primary_user strip (some user) = if user == "" then none else has_text (strip user)

abbrev pub client_mode_of : Option String → ℕ
client_mode_of none = monitor_mode
client_mode_of (some mode) = if mode == "LOCKDOWN" then lockdown_mode else monitor_mode

-- `_get_enrolled_machine_defaults`
unfoldable pub get_enrolled_machine_defaults : (String → String) → PreflightData → MachineValues
get_enrolled_machine_defaults strip d = record {
  serial_number = d.serial_num;
  primary_user = get_primary_user strip d.primary_user;
  client_mode = client_mode_of d.client_mode;
  santa_version = d.santa_version;
  binary_rule_count = d.binary_rule_count;
  certificate_rule_count = d.certificate_rule_count;
  compiler_rule_count = d.compiler_rule_count;
  transitive_rule_count = d.transitive_rule_count;
}

abbrev pub is_machine : ℕ → String → Machine → Bool
is_machine enrollment uuid m = (m.enrollment == enrollment) && (m.hardware_uuid == uuid)

abbrev pub set_machine : Machine → List Machine → List Machine
set_machine new machines = map (λ m. if m.pk == new.pk then new else m) machines

-- A client that has no certificate is turned away where one is wanted. An empty name is none.
abbrev pub lacks_certificate : Client → Enrollment → Bool
lacks_certificate c e = e.client_certificate_auth && not (truthy c.client_cert_dn)

abbrev pub find_enrollment : SyncTables → String → Option Enrollment
find_enrollment tables secret = find (λ e. e.secret == secret) tables.enrollments

abbrev pub known_machine : SyncTables → Client → Option Enrollment → Option Machine
known_machine tables c none = none
known_machine tables c (some e) = find (is_machine e.pk c.hardware_uuid) tables.machines

abbrev pub check_certificate : Client → Option Enrollment → Option Machine → Denied ⊎ Option Machine
check_certificate c (some e) (some m) =
    if lacks_certificate c e then inl missing_client_certificate else inr (some m)
check_certificate c e m = inr none

-- `BaseSyncView.get_enrolled_machine`
unfoldable pub get_enrolled_machine : SyncTables → Client → Denied ⊎ Option Machine
get_enrolled_machine tables c =
    let e = find_enrollment tables c.enrollment_secret in
    check_certificate c e (known_machine tables c e)

-- `EnrolledMachine.objects.update_or_create(enrollment=…, hardware_uuid=…, defaults=…)`
abbrev pub update_or_create_machine :
    ℕ → String → MachineValues → SyncTables → Option Machine → Machine × SyncTables
update_or_create_machine enrollment uuid v tables (some m) =
    let new : Machine = record m { values = v } in
    (new, record tables { machines = set_machine new tables.machines })
update_or_create_machine enrollment uuid v tables none =
    let new : Machine = record {
      pk = tables.next_pk;
      enrollment = enrollment;
      hardware_uuid = uuid;
      values = v;
    } in
    (new, record tables { machines = new ∷ tables.machines; next_pk = suc tables.next_pk })

-- `MachineTag.objects.get_or_create(…)` for each tag of the secret
abbrev pub add_machine_tags : String → List ℕ → List MachineTag → List MachineTag
add_machine_tags serial_number [] rows = rows
add_machine_tags serial_number (t ∷ ts) rows = add_machine_tags serial_number ts (
    if any (λ r. (r.serial_number == serial_number) && (r.tag == t)) rows
    then rows
    else record { serial_number = serial_number; tag = t } ∷ rows)

abbrev pub tags_of : SyncTables → String → List ℕ
tags_of tables secret = tags_in (find (λ es. es.secret == secret) tables.secrets.secrets)
  where
    tags_in : Option EnrollmentSecret → List ℕ
    tags_in none = []
    tags_in (some es) = es.tags

abbrev pub is_other_machine : Machine → Machine → Bool
is_other_machine m x = not (x.pk == m.pk) && (x.hardware_uuid == m.hardware_uuid)

-- The deletion of machines, which takes their rules with them.
unfoldable pub delete_machines : (Machine → Bool) → SyncTables → SyncTables
delete_machines is_gone tables = record tables {
  machines = select (λ m. not (is_gone m)) tables.machines;
  machine_rules =
      select (λ r. not (any (λ m. is_gone m && (m.pk == r.enrolled_machine)) tables.machines))
        tables.machine_rules;
}

abbrev pub enroll_with :
    (String → String)
    → Client
    → PreflightData
    → Enrollment
    → SyncTables
    → Verified
    → Denied ⊎ (Machine × SyncTables)
enroll_with strip c d e tables (failed error) = inl wrong_enrollment_secret
enroll_with strip c d e tables (verified request secrets) =
    let found =
      update_or_create_machine e.pk c.hardware_uuid (get_enrolled_machine_defaults strip d)
        (record tables { secrets = secrets })
        (find (is_machine e.pk c.hardware_uuid) tables.machines) in
    let tagged : SyncTables = record found.1 {
      machine_tags =
          add_machine_tags d.serial_num (tags_of tables c.enrollment_secret) found.1.machine_tags;
    } in
    inr (found.0, delete_machines (is_other_machine found.0) tagged)

abbrev pub enroll_in :
    (String → String)
    → ℕ
    → Client
    → PreflightData
    → SyncTables
    → Option Enrollment
    → Denied ⊎ (Machine × SyncTables)
enroll_in strip now c d tables none = inl unknown_enrollment_secret
enroll_in strip now c d tables (some e) =
    if lacks_certificate c e
    then inl missing_client_certificate
    else enroll_with strip c d e tables (
        verify (λ es. any (λ x. x.secret == es.secret) tables.enrollments) now c.enrollment_secret
          c.user_agent c.ip (some d.serial_num) (some c.hardware_uuid) none tables.secrets)

-- `PreflightView._enroll_machine`
unfoldable pub enroll_machine :
    (String → String) → ℕ → Client → PreflightData → SyncTables → Denied ⊎ (Machine × SyncTables)
enroll_machine strip now c d tables =
    enroll_in strip now c d tables (find_enrollment tables c.enrollment_secret)
