-- ===== src/Santa/SyncExamples.antt =====
-- The uploads, the enrollment and the preflight of zentral/contrib/santa at concrete inputs.
use zentral.Santa.Rules.{binary, EnrolledMachine}
use zentral.Santa.Changes.{Tables as RuleTables, expanded_rules}
use zentral.Santa.Changes.Wanted.{wanted}
use zentral.Santa.Changes.Pending.{is_pending}
use zentral.Santa.Enrollments.Preflight.{respond, preflight}
use zentral.Santa.Enrollments.Restart.{clean_sync-is_pending}
use zentral.Base.{
  List, String, Yields, [], any, contains, false, is_empty, none, not, refl, some, true, ℕ, ◌&&◌,
  ◌∷◌, ◌≡◌, nat_eq, string_eq, option_eq,
}
use zentral.Santa.Policy.{allowlist}
use zentral.Santa.Forms.{Tables}
use zentral.Santa.Uploads.{Event, create_missing_bundles, process_events, is_existing}
use zentral.Santa.Uploads.Hashes.{reports, create_missing_bundles-hashes}
use zentral.Santa.Uploads.Complete.{are_complete, process_events-are_complete}
use zentral.Santa.Enrollments.{
  Machine, MachineValues, SyncTables, PreflightData, Client, enroll_machine,
}
use zentral.Santa.Enrollments.Single.{IsSingle, enroll_machine-IsSingle}
use zentral.Santa.Enrollments.CleanSync.{Answers, preflight-Answers}

abbrev event : String → ℕ → Event
event decision sha256 = record {
  decision = decision;
  file_sha256 = some sha256;
  file_bundle_hash = some 90;
  file_bundle_path = some "/Applications/Tool.app";
  file_bundle_executable_rel_path = none;
  file_bundle_id = some "com.example.tool";
  file_bundle_name = none;
  file_bundle_version = none;
  file_bundle_version_string = none;
  file_bundle_binary_count = some 2;
}

abbrev no_tables : Tables
no_tables = record { targets = record { rows = []; next_pk = 1 }; bundles = []; rules = [] }

-- An execution, and the two binaries of its bundle.
abbrev uploaded_events : List Event
uploaded_events = event "ALLOW_BINARY" 91 ∷ event "BUNDLE_BINARY" 91 ∷ event "BUNDLE_BINARY" 92 ∷ []

create_missing_bundles-hashes_example :
    contains (create_missing_bundles uploaded_events no_tables).0 90
    ≡ (any (reports 90) uploaded_events && not (is_existing no_tables 90))
create_missing_bundles-hashes_example = create_missing_bundles-hashes uploaded_events no_tables 90

process_events-are_complete_example :
    Yields (λ r. are_complete r.1 ≡ true) (process_events 100 uploaded_events no_tables)
process_events-are_complete_example =
    process_events-are_complete 100 uploaded_events no_tables refl refl

abbrev values : MachineValues
values = record {
  serial_number = "C01";
  primary_user = none;
  client_mode = 1;
  santa_version = "2021.8";
  binary_rule_count = some 0;
  certificate_rule_count = none;
  compiler_rule_count = none;
  transitive_rule_count = none;
}

abbrev machine_row : ℕ → ℕ → Machine
machine_row pk enrollment = record {
  pk = pk;
  enrollment = enrollment;
  hardware_uuid = "U1";
  values = values;
}

-- The machine was enrolled with another secret, and has a rule.
abbrev sync_tables : SyncTables
sync_tables = record {
  enrollments =
      record { pk = 1; secret = "old"; configuration = 7; client_certificate_auth = false }
      ∷ record { pk = 2; secret = "new"; configuration = 7; client_certificate_auth = true }
      ∷ [];
  secrets = record {
    secrets =
        record {
          pk = 2;
          secret = "new";
          meta_business_unit = 1;
          tags = 4 ∷ [];
          serial_numbers = none;
          udids = none;
          quota = some 10;
          request_count = 0;
          revoked_at = none;
          expired_at = none;
        }
        ∷ [];
    requests = [];
  };
  machines = machine_row 1 1 ∷ [];
  next_pk = 2;
  machine_rules =
      record { enrolled_machine = 1; target = 1; policy = allowlist; version = 1; cursor = none }
      ∷ [];
  machine_tags = [];
}

abbrev client : Client
client = record {
  enrollment_secret = "new";
  hardware_uuid = "U1";
  client_cert_dn = some "CN=agent";
  user_agent = "santa";
  ip = "10.0.0.1";
}

abbrev preflight_data : PreflightData
preflight_data = record {
  serial_num = "C01";
  primary_user = some "jane";
  client_mode = some "LOCKDOWN";
  santa_version = "2021.8";
  binary_rule_count = some 1;
  certificate_rule_count = none;
  compiler_rule_count = none;
  transitive_rule_count = none;
  request_clean_sync = false;
}

enroll_machine-IsSingle_example :
    IsSingle "U1" (enroll_machine (λ s. s) 50 client preflight_data sync_tables)
enroll_machine-IsSingle_example =
    enroll_machine-IsSingle (λ s. s) 50 client preflight_data sync_tables refl

preflight-Answers_example :
    Answers preflight_data (preflight (λ s. s) 50 client preflight_data sync_tables)
preflight-Answers_example = preflight-Answers (λ s. s) 50 client preflight_data sync_tables

-- What the query of the rules reads: one rule, on a binary.
abbrev rules_of : RuleTables
rules_of = record {
  rules =
      record {
        configuration = 7;
        rule_set = none;
        target = 1;
        policy = allowlist;
        custom_msg = "";
        version = 1;
        serial_numbers = [];
        excluded_serial_numbers = [];
        primary_users = [];
        excluded_primary_users = [];
        tags = [];
        excluded_tags = [];
      }
      ∷ [];
  bundles = [];
  get_target = λ t. record { type = binary; sha256 = t };
}

-- The machine of the row 3, which has no rules.
abbrev new_machine : EnrolledMachine
new_machine = record {
  pk = 3;
  configuration_pk = 7;
  batch_size = 2;
  serial_number = "C01";
  primary_user = none;
}

clean_sync-is_pending_example :
    is_pending rules_of new_machine []
      (respond preflight_data (machine_row 3 2) sync_tables).tables.machine_rules
      1
    ≡ not (is_empty (wanted 1 (expanded_rules rules_of new_machine [])))
unfolding respond
clean_sync-is_pending_example =
    clean_sync-is_pending preflight_data (machine_row 3 2) sync_tables rules_of new_machine [] 1
      refl refl (refl, tt)
