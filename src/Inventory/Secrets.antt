-- ===== src/Inventory/Secrets.antt =====
-- Enrollment secrets: `EnrollmentSecret` and its manager in zentral/contrib/inventory/models.py. An
-- empty text or number counts as missing, as in Python. `now` is the time of the request.
pub mod Quota
use zentral.Base.{
  Bool, List, Option, String, contains, false, find, if◌then◌else◌, is_empty, leb, map, none, not,
  some, suc, ℕ, ◌&&◌, ◌==◌, ◌∷◌, nat_eq, string_eq, option_eq,
}

pub record EnrollmentSecret : Type 0 where
  pub pk : ℕ
  pub secret : String
  pub meta_business_unit : ℕ
  pub tags : List ℕ
  pub serial_numbers : Option (List String)
  pub udids : Option (List String)
  pub quota : Option ℕ
  pub request_count : ℕ
  pub revoked_at : Option ℕ
  pub expired_at : Option ℕ

pub record EnrollmentSecretRequest : Type 0 where
  pub enrollment_secret : ℕ
  pub user_agent : String
  pub public_ip_address : String
  pub serial_number : Option String
  pub udid : Option String

pub record SecretTables : Type 0 where
  pub secrets : List EnrollmentSecret
  pub requests : List EnrollmentSecretRequest

pub data SecretError : Type 0 where
  unknown_secret revoked expired serial_number_mismatch udid_mismatch : SecretError
  business_unit_mismatch quota_used_up : SecretError

abbrev pub is_revoked : EnrollmentSecret → Bool
is_revoked es = not (es.revoked_at == none)

abbrev pub is_past : ℕ → Option ℕ → Bool
is_past now none = false
is_past now (some t) = leb t now

abbrev pub is_expired : ℕ → EnrollmentSecret → Bool
is_expired now es = is_past now es.expired_at

abbrev pub reaches : ℕ → Option ℕ → Bool
reaches count none = false
reaches count (some quota) = not (quota == 0) && leb quota count

abbrev pub is_used_up : EnrollmentSecret → Bool
is_used_up es = reaches es.request_count es.quota

-- `value and values and value not in values`
abbrev pub is_excluded : Option String → Option (List String) → Bool
is_excluded (some value) (some values) =
    not (value == "") && (not (is_empty values) && not (contains values value))
is_excluded _ _ = false

abbrev pub is_other_unit : Option ℕ → EnrollmentSecret → Bool
is_other_unit none es = false
is_other_unit (some unit) es = not (unit == es.meta_business_unit)

-- `EnrollmentSecret.is_valid`: the error message, if there is one.
unfoldable pub is_valid :
    ℕ → Option String → Option String → Option ℕ → EnrollmentSecret → Option SecretError
is_valid now serial_number udid meta_business_unit es =
    if is_revoked es
    then some revoked
    else if is_expired now es
    then some expired
    else if is_excluded serial_number es.serial_numbers
    then some serial_number_mismatch
    else if is_excluded udid es.udids
    then some udid_mismatch
    else if is_other_unit meta_business_unit es
    then some business_unit_mismatch
    else if is_used_up es
    then some quota_used_up
    else none

pub data Verified : Type 0 where
  verified : EnrollmentSecretRequest → SecretTables → Verified
  failed : SecretError → Verified

abbrev pub count_request : ℕ → EnrollmentSecret → EnrollmentSecret
count_request pk es = if es.pk == pk then record es { request_count = suc es.request_count } else es

abbrev pub accept : EnrollmentSecretRequest → SecretTables → Option SecretError → Verified
accept r tables (some e) = failed e
accept r tables none = verified r (record {
  secrets = map (count_request r.enrollment_secret) tables.secrets;
  requests = r ∷ tables.requests;
})

abbrev pub verify_found :
    ℕ
    → String
    → String
    → Option String
    → Option String
    → Option ℕ
    → SecretTables
    → Option EnrollmentSecret
    → Verified
verify_found now user_agent ip serial_number udid unit tables none = failed unknown_secret
verify_found now user_agent ip serial_number udid unit tables (some es) =
    accept
      (record {
        enrollment_secret = es.pk;
        user_agent = user_agent;
        public_ip_address = ip;
        serial_number = serial_number;
        udid = udid;
      })
      tables (is_valid now serial_number udid unit es)

-- `EnrollmentSecretManager.verify`. `is_for_model` tells if the secret is one of an enrollment of the
-- model.
unfoldable pub verify :
    (EnrollmentSecret → Bool)
    → ℕ
    → String
    → String
    → String
    → Option String
    → Option String
    → Option ℕ
    → SecretTables
    → Verified
verify is_for_model now secret user_agent ip serial_number udid unit tables =
    verify_found now user_agent ip serial_number udid unit tables
      (find (λ es. is_for_model es && (es.secret == secret)) tables.secrets)
