-- ===== src/Inventory/Examples.antt =====
-- Enrollment secrets at concrete inputs.
use zentral.Base.{[], none, refl, some, true, ◌∷◌}
use zentral.Inventory.Secrets.{SecretTables, verify}
use zentral.Inventory.Secrets.Quota.{StaysSound, verify-StaysSound}

-- One request of two was made.
abbrev secret_tables : SecretTables
secret_tables = record {
  secrets =
      record {
        pk = 2;
        secret = "secret";
        meta_business_unit = 1;
        tags = [];
        serial_numbers = some ("C01" ∷ []);
        udids = none;
        quota = some 2;
        request_count = 1;
        revoked_at = none;
        expired_at = some 100;
      }
      ∷ [];
  requests =
      record {
        enrollment_secret = 2;
        user_agent = "santa";
        public_ip_address = "10.0.0.1";
        serial_number = some "C01";
        udid = none;
      }
      ∷ [];
}

verify-StaysSound_example :
    StaysSound secret_tables (
      verify
        (λ es. true)
        50
        "secret"
        "santa"
        "10.0.0.1"
        (some "C01")
        (some "U1")
        none
        secret_tables)
verify-StaysSound_example =
    verify-StaysSound (λ es. true) 50 "secret" "santa" "10.0.0.1" (some "C01") (some "U1") none
      secret_tables refl
