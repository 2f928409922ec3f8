-- ===== src/Santa/Uploads.antt =====
-- The bundles that the agents upload: zentral/contrib/santa/events/__init__.py. A hash that is missing
-- or empty is `none`, and so is a key that is missing or null.
pub mod Complete
pub mod Hashes
use zentral.Base.{
  Bool, List, Option, String, [], any, contains, find, if◌then◌else◌, length, map, none, not,
  select, some, ℕ, ◌&&◌, ◌++◌, ◌==◌, ◌>>=◌, ◌∷◌, nat_eq, string_eq, option_eq,
}
use zentral.Santa.Rules.{Bundle, Target, TargetType, binary, bundle}
use zentral.Santa.Targets.{TargetTable, is_target, get_or_create_target}
use zentral.Santa.Forms.{Tables}

-- What is read of an event.
pub record Event : Type 0 where
  pub decision : String
  pub file_sha256 : Option ℕ
  pub file_bundle_hash : Option ℕ
  pub file_bundle_path : Option String
  pub file_bundle_executable_rel_path : Option String
  pub file_bundle_id : Option String
  pub file_bundle_name : Option String
  pub file_bundle_version : Option String
  pub file_bundle_version_string : Option String
  pub file_bundle_binary_count : Option ℕ

abbrev pub is_bundle_binary_pseudo_event : Event → Bool
is_bundle_binary_pseudo_event e = e.decision == "BUNDLE_BINARY"

-- `d[key] = value`: a new key is the last, a known one keeps its place.
abbrev pub set_item {ℓ} : {A : Type ℓ} → ℕ → A → List (ℕ × A) → List (ℕ × A)
set_item key a [] = (key, a) ∷ []
set_item key a (x ∷ xs) =
    let rest = set_item key a xs in if x.0 == key then (key, a) ∷ xs else x ∷ rest

-- `d.setdefault(key, []).append(value)`
abbrev pub append_item {ℓ} : {A : Type ℓ} → ℕ → A → List (ℕ × List A) → List (ℕ × List A)
append_item key a [] = (key, a ∷ []) ∷ []
append_item key a (x ∷ xs) =
    let rest = append_item key a xs in if x.0 == key then (key, x.1 ++ a ∷ []) ∷ xs else x ∷ rest

abbrev pub with_hash {ℓ} : {A : Type ℓ} → Option ℕ → (ℕ → A → A) → A → A
with_hash none f a = a
with_hash (some sha256) f a = f sha256 a

-- The last event on each bundle.
unfoldable pub bundle_events : List (ℕ × Event) → List Event → List (ℕ × Event)
bundle_events seen [] = seen
bundle_events seen (e ∷ es) =
    bundle_events
      (if is_bundle_binary_pseudo_event e
        then seen
        else with_hash e.file_bundle_hash (λ sha256 d. set_item sha256 e d) seen)
      es

abbrev pub is_bundle : TargetTable → ℕ → Bundle → Bool
is_bundle targets sha256 b = is_target targets (record { type = bundle; sha256 = sha256 }) b.target

abbrev pub is_uploaded : Bundle → Bool
is_uploaded b = not (b.uploaded_at == none)

-- `existing_sha256_set`
abbrev pub is_existing : Tables → ℕ → Bool
is_existing tables sha256 =
    any (λ b. is_bundle tables.targets sha256 b && is_uploaded b) tables.bundles

abbrev pub text_or_empty : Option String → String
text_or_empty none = ""
text_or_empty (some s) = s

abbrev pub count_or_zero : Option ℕ → ℕ
count_or_zero none = 0
count_or_zero (some n) = n

unfoldable pub new_bundle : ℕ → Event → Bundle
new_bundle target e = record {
  target = target;
  path = text_or_empty e.file_bundle_path;
  executable_rel_path = text_or_empty e.file_bundle_executable_rel_path;
  bundle_id = text_or_empty e.file_bundle_id;
  name = text_or_empty e.file_bundle_name;
  version = text_or_empty e.file_bundle_version;
  version_str = text_or_empty e.file_bundle_version_string;
  binary_count = count_or_zero e.file_bundle_binary_count;
  binary_targets = [];
  uploaded_at = none;
}

-- `Bundle.objects.get_or_create(target=target, defaults=defaults)`
abbrev pub get_or_create_bundle : Bundle → List Bundle → List Bundle
get_or_create_bundle new bundles =
    if any (λ b. b.target == new.target) bundles then bundles else new ∷ bundles

unfoldable pub create_bundle : Tables → ℕ × Event → Tables
create_bundle tables e =
    let found = get_or_create_target (record { type = bundle; sha256 = e.0 }) tables.targets in
    record tables {
      targets = found.1;
      bundles = get_or_create_bundle (new_bundle found.0 e.1) tables.bundles;
    }

unfoldable pub create_bundles : List (ℕ × Event) → Tables → Tables
create_bundles [] tables = tables
create_bundles (e ∷ es) tables = create_bundles es (create_bundle tables e)

abbrev pub unknown_events : Tables → List Event → List (ℕ × Event)
unknown_events tables es = select (λ e. not (is_existing tables e.0)) (bundle_events [] es)

-- `_create_missing_bundles`: the hashes that are returned, in an order that is not given, and the
-- tables.
unfoldable pub create_missing_bundles : List Event → Tables → List ℕ × Tables
create_missing_bundles es tables =
    let unknown = unknown_events tables es in
    (map (λ e. e.0) unknown, create_bundles unknown tables)

unfoldable pub bundle_binary_events : List (ℕ × List Event) → List Event → List (ℕ × List Event)
bundle_binary_events seen [] = seen
bundle_binary_events seen (e ∷ es) =
    bundle_binary_events
      (if is_bundle_binary_pseudo_event e
        then with_hash e.file_bundle_hash (λ sha256 d. append_item sha256 e d) seen
        else seen)
      es

pub record Binaries : Type 0 where
  pub targets : TargetTable
  pub binary_targets : List ℕ
  pub binary_count : ℕ

-- The target of one event. One without a hash cannot be stored: `none`.
abbrev pub add_binary : Event → Option ℕ → Binaries → Option Binaries
add_binary e none s = none
add_binary e (some sha256) s =
    let found = get_or_create_target (record { type = binary; sha256 = sha256 }) s.targets in
    some (record {
      targets = found.1;
      binary_targets = s.binary_targets ++ found.0 ∷ [];
      binary_count =
          if s.binary_count == 0 then count_or_zero e.file_bundle_binary_count else s.binary_count;
    })

-- The loop on the events of one bundle.
unfoldable pub add_binaries : List Event → Binaries → Option Binaries
add_binaries [] s = some s
add_binaries (e ∷ es) s = add_binary e e.file_sha256 s >>= add_binaries es

-- `bundle.binary_targets.add(*binary_targets)`
abbrev pub add_targets : List ℕ → List ℕ → List ℕ
add_targets old [] = old
add_targets old (t ∷ ts) = add_targets (if contains old t then old else t ∷ old) ts

-- The bundle with its targets and its count, and with the date when all its binaries are known.
unfoldable pub complete_bundle : ℕ → Binaries → Bundle → Bundle
complete_bundle now s b =
    let targets = add_targets b.binary_targets s.binary_targets in
    let count = if b.binary_count == 0 then s.binary_count else b.binary_count in
    record b {
      binary_targets = targets;
      binary_count = count;
      uploaded_at =
          if not (count == 0) && (length targets == count) then some now else b.uploaded_at;
    }

abbrev pub save_bundle : Bundle → List Bundle → List Bundle
save_bundle new bundles = map (λ b. if b.target == new.target then new else b) bundles

-- One bundle that is not unknown and not uploaded already.
unfoldable pub add_to_bundle : ℕ → Tables → List Event → Option Bundle → Option Tables
add_to_bundle now tables es none = some tables
add_to_bundle now tables es (some b) =
    let start : Binaries = record {
      targets = tables.targets;
      binary_targets = [];
      binary_count = b.binary_count;
    } in
    if is_uploaded b
    then some tables
    else (add_binaries es start >>= (λ s. some (record tables {
      targets = s.targets;
      bundles = save_bundle (complete_bundle now s b) tables.bundles;
    })))

unfoldable pub add_to_bundles : ℕ → List (ℕ × List Event) → Tables → Option Tables
add_to_bundles now [] tables = some tables
add_to_bundles now (x ∷ xs) tables =
    add_to_bundle now tables x.1 (find (is_bundle tables.targets x.0) tables.bundles)
    >>= add_to_bundles now xs

-- `_create_bundle_binaries`
unfoldable pub create_bundle_binaries : ℕ → List Event → Tables → Option Tables
create_bundle_binaries now es tables = add_to_bundles now (bundle_binary_events [] es) tables

-- What `process_events` does to the bundles, and the hashes that it returns. The files and the events
-- themselves are stored elsewhere.
unfoldable pub process_events : ℕ → List Event → Tables → Option (List ℕ × Tables)
process_events now [] tables = some ([], tables)
process_events now (e ∷ es) tables =
    let created = create_missing_bundles (e ∷ es) tables in
    create_bundle_binaries now (e ∷ es) created.1 >>= (λ t. some (created.0, t))
