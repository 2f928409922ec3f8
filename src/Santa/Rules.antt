-- ===== src/Santa/Rules.antt =====
-- The configured rules of zentral/contrib/santa/models.py, and which of them are in scope of a
-- machine (the `wheres` of `_iter_new_rules`).
use zentral.Base.{
  Bool, Equality, List, Option, String, arith, contains, false, if◌then◌else◌, is_empty, none, not,
  overlaps, some, true, ℕ, ◌&&◌, ◌==◌, ◌||◌, ◌↔◌, ◌≡◌, nat_eq, string_eq, option_eq,
}

pub data TargetType : Type 0 where
  binary bundle certificate : TargetType

abbrev pub target_type_beq : TargetType → TargetType → Bool
target_type_beq binary binary = true
target_type_beq bundle bundle = true
target_type_beq certificate certificate = true
target_type_beq _ _ = false

pub target_type_beq_iff : (t u : TargetType) → (target_type_beq t u ≡ true) ↔ (t ≡ u)
target_type_beq_iff t u = ground arith

instance abbrev pub target_type_eq : Equality TargetType
target_type_eq = record { test = target_type_beq; test_iff = target_type_beq_iff }

-- `sha256` is the digest's value: its hexadecimal text sorts as the number does.
pub record Target : Type 0 where
  pub type : TargetType
  pub sha256 : ℕ

-- Foreign keys are the numbers of the rows that they point to.
pub record Rule : Type 0 where
  pub configuration : ℕ
  pub rule_set : Option ℕ
  pub target : ℕ
  pub policy : ℕ
  pub custom_msg : String
  pub version : ℕ
  pub serial_numbers : List String
  pub excluded_serial_numbers : List String
  pub primary_users : List String
  pub excluded_primary_users : List String
  pub tags : List ℕ
  pub excluded_tags : List ℕ

-- `uploaded_at` is null until all the binaries of the bundle are known.
pub record Bundle : Type 0 where
  pub target : ℕ
  pub path : String
  pub executable_rel_path : String
  pub bundle_id : String
  pub name : String
  pub version : String
  pub version_str : String
  pub binary_count : ℕ
  pub binary_targets : List ℕ
  pub uploaded_at : Option ℕ

-- What the rule queries read of an enrolled machine and of its configuration.
pub record EnrolledMachine : Type 0 where
  pub pk : ℕ
  pub configuration_pk : ℕ
  pub batch_size : ℕ
  pub serial_number : String
  pub primary_user : Option String

-- An include list that is empty includes all.
abbrev pub included : String → List String → Bool
included a xs = is_empty xs || contains xs a

serial_number_in_scope : EnrolledMachine → Rule → Bool
serial_number_in_scope m r =
    included m.serial_number r.serial_numbers
    && not (contains r.excluded_serial_numbers m.serial_number)

-- With no primary user only the rules that name no user at all are left.
user_in_scope : Option String → Rule → Bool
user_in_scope none r = is_empty r.primary_users && is_empty r.excluded_primary_users
user_in_scope (some u) r =
    if u == ""
    then is_empty r.primary_users && is_empty r.excluded_primary_users
    else included u r.primary_users && not (contains r.excluded_primary_users u)

-- With no tag the excluded tags cannot match, and the query does not name them.
tags_in_scope : List ℕ → Rule → Bool
tags_in_scope tags r =
    if is_empty tags
    then is_empty r.tags
    else (is_empty r.tags || overlaps tags r.tags) && not (overlaps tags r.excluded_tags)

unfoldable pub in_scope : EnrolledMachine → List ℕ → Rule → Bool
unfolding serial_number_in_scope user_in_scope tags_in_scope
in_scope m tags r =
    (r.configuration == m.configuration_pk)
    && (serial_number_in_scope m r && (user_in_scope m.primary_user r && tags_in_scope tags r))
