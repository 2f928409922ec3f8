-- ===== src/Santa/Examples.antt =====
-- Runs and concrete instances of the rule download of zentral/contrib/santa/models.py.
use mathlib.Core.List.{flat_map}
use zentral.Base.{
  Bool-cases, List, Option, String, [], ap, arith, beq-eq_of, false, if◌then◌else◌, inl, inr,
  is_empty, length, none, not, refl, some, suc, true, zero, ℕ, ◌&&◌, ◌-◌, ◌<◌, ◌==◌, ◌∷◌, ◌≡◌, ◌≤◌,
  nat_eq, string_eq, option_eq, bool_eq,
}
use zentral.Santa.Configurations.{Configuration, get_sync_server_config}
use zentral.Santa.Configurations.Keys.{
  Returns, HasSettings, is_before_1_14, get_sync_server_config-keys,
}
use zentral.Santa.Policy.{allowlist, blocklist, allowlist_compiler, translate_rule_policy}
use zentral.Santa.Rules.{binary, Rule, EnrolledMachine, in_scope}
use zentral.Santa.Changes.{
  MachineRule, Tables, ExpandedRule, expanded_rules, machine_rules, rule_product, changed_rules,
  order_by_sha256, join_targets, pending_rules, iter_new_rules,
}
use zentral.Santa.Changes.Wanted.{wanted, out_of_sync}
use zentral.Santa.Changes.Pending.{is_pending, is_pending_lem}
use zentral.Santa.Machines.{row_of, update_or_create, HasUniqueKeys}
use zentral.Santa.Sync.{Batch, get_next_rule_batch, send_all, cleanup, acknowledge}
use zentral.Santa.Sync.Settle.{settle}
use zentral.Santa.Sync.Batches.{get_next_rule_batch-total}
use zentral.Santa.Sync.Progress.{is_delivered, HasOneRuleEach, batch_progress, batch-HasUniqueKeys}
use zentral.Santa.Sync.Outcomes.{
  IsDone, batch_bounds, other_machines_untouched, empty_batch-IsDone, unacknowledged_resent,
}
use zentral.Santa.Sync.Rounds.{AreCursors, download}
use zentral.Santa.Sync.Downloads.{download_complete}
use zentral.Santa.Sync.Conflicts.{conflict_never_ends}

abbrev plain_rule : ℕ → ℕ → Rule
plain_rule t p = record {
  configuration = 7;
  rule_set = none;
  target = t;
  policy = p;
  custom_msg = "";
  version = 1;
  serial_numbers = [];
  excluded_serial_numbers = [];
  primary_users = [];
  excluded_primary_users = [];
  tags = [];
  excluded_tags = [];
}

-- A rule on a binary, and one on a bundle of two binaries.
abbrev tables : Tables
tables = record {
  rules = plain_rule 1 allowlist ∷ plain_rule 2 allowlist_compiler ∷ [];
  bundles =
      record {
        target = 2;
        path = "/Applications/Tool.app";
        executable_rel_path = "Contents/MacOS/Tool";
        bundle_id = "com.example.tool";
        name = "Tool";
        version = "1";
        version_str = "1.0";
        binary_count = 2;
        binary_targets = 3 ∷ 4 ∷ [];
        uploaded_at = some 1;
      }
      ∷ [];
  get_target = λ t. record { type = binary; sha256 = 100 - t };
}

abbrev machine : EnrolledMachine
machine = record {
  pk = 5;
  configuration_pk = 7;
  batch_size = 2;
  serial_number = "C02";
  primary_user = none;
}

-- The machine has a rule that no one asks for any more, and another machine has one too.
abbrev old_rows : List MachineRule
old_rows =
    record { enrolled_machine = 5; target = 9; policy = 2; version = 3; cursor = none }
    ∷ record { enrolled_machine = 6; target = 9; policy = 2; version = 3; cursor = none }
    ∷ []

abbrev cursor_text : ℕ → String
cursor_text zero = "a"
cursor_text (suc k) = String.◌∷◌ "a" (cursor_text k)

abbrev text_length : String → ℕ
text_length String.[] = 0
text_length (String.◌∷◌ c s) = suc (text_length s)

length-cursor_text : (k : ℕ) → text_length (cursor_text k) ≡ suc k
length-cursor_text zero = refl
length-cursor_text (suc k) = ap suc (length-cursor_text k)

cursor_texts_differ : (j k : ℕ) → j < k → (cursor_text j == cursor_text k) ≡ false
cursor_texts_differ j k h = elim (Bool-cases (cursor_text j == cursor_text k)) [
  | inl e ↦ absurd (
      omega (
        arith,
        ap text_length (beq-eq_of (cursor_text j) (cursor_text k) e),
        length-cursor_text j,
        length-cursor_text k,
      ))
  | inr e ↦ e
]

cursor_text_nonempty : (k : ℕ) → (cursor_text k == "") ≡ false
cursor_text_nonempty zero = refl
cursor_text_nonempty (suc k) = elim (Bool-cases (cursor_text (suc k) == "")) [
  | inl e ↦ absurd (omega (arith, ap text_length (beq-eq_of (cursor_text (suc k)) "" e)))
  | inr e ↦ e
]

cursors : AreCursors cursor_text
cursors = record { nonempty = cursor_text_nonempty; distinct_at = cursor_texts_differ }

abbrev asked : ℕ → ℕ → Option ℕ → Option ℕ → ExpandedRule
asked t p count parent = record {
  target_id = t;
  policy = p;
  custom_msg = "";
  version = 1;
  bundle_count = count;
  bundle_target = parent;
}

expanded_lem :
    expanded_rules tables machine []
    ≡ asked 1 allowlist none none
      ∷ asked 3 allowlist_compiler (some 2) (some 2)
      ∷ asked 4 allowlist_compiler (some 2) (some 2)
      ∷ []
unfolding expanded_rules in_scope flat_map
expanded_lem = refl

one_each : HasOneRuleEach (expanded_rules tables machine [])
one_each t = rw expanded_lem (ground arith)

unique : HasUniqueKeys old_rows
unique = (refl, (refl, tt))

-- The first batch of a download.
first : (b : Batch) × (get_next_rule_batch tables machine [] none "x" old_rows ≡ some b)
first = get_next_rule_batch-total tables machine [] none "x" old_rows refl

-- What the machine has when all is acknowledged.
abbrev known_row : ℕ → ℕ → MachineRule
known_row t p = record { enrolled_machine = 5; target = t; policy = p; version = 1; cursor = none }

abbrev done_rows : List MachineRule
done_rows =
    known_row 1 allowlist ∷ known_row 3 allowlist_compiler ∷ known_row 4 allowlist_compiler ∷ []

abbrev last_batch : Batch
last_batch = record { rows = done_rows; rules = []; cursor = none }

last_batch_lem : get_next_rule_batch tables machine [] none "x" done_rows ≡ some last_batch
unfolding get_next_rule_batch iter_new_rules expanded_rules in_scope flat_map rule_product
    machine_rules changed_rules order_by_sha256 join_targets send_all cleanup acknowledge
    update_or_create translate_rule_policy
last_batch_lem = refl

is_pending_lem_example :
    is_pending tables machine [] old_rows 9
    ≡ out_of_sync (wanted 9 (expanded_rules tables machine [])) (row_of 5 9 old_rows)
is_pending_lem_example = is_pending_lem tables machine [] old_rows 9 unique

get_next_rule_batch-total_example :
    (b : Batch) × (get_next_rule_batch tables machine [] (some "y") "x" old_rows ≡ some b)
get_next_rule_batch-total_example =
    get_next_rule_batch-total tables machine [] (some "y") "x" old_rows refl

batch_bounds_example :
    (length first.0.rules ≤ 2)
    × (first.0.cursor ≡ (if is_empty first.0.rules then none else some "x"))
batch_bounds_example = batch_bounds tables machine [] none "x" old_rows first.0 first.1

other_machines_untouched_example : row_of 6 9 first.0.rows ≡ row_of 6 9 old_rows
other_machines_untouched_example =
    other_machines_untouched tables machine [] none "x" old_rows first.0 first.1 unique 6 9 refl

batch-HasUniqueKeys_example : HasUniqueKeys first.0.rows
batch-HasUniqueKeys_example =
    batch-HasUniqueKeys tables machine [] none "x" old_rows first.0 first.1 unique (refl, refl)

batch_progress_example : is_pending tables machine [] (settle 5 (some "x") first.0.rows) 9 ≡ (
    is_pending tables machine [] (settle 5 none old_rows) 9
    && not (is_delivered tables machine [] none old_rows 9))
batch_progress_example =
    batch_progress tables machine [] none "x" old_rows first.0 first.1 unique (refl, refl) refl
      one_each 9

empty_batch-IsDone_example :
    IsDone (wanted 3 (expanded_rules tables machine [])) (row_of 5 3 last_batch.rows)
empty_batch-IsDone_example =
    empty_batch-IsDone tables machine [] none "x" done_rows last_batch last_batch_lem refl
      (refl, (refl, (refl, tt))) (omega arith) refl 3

delivered_nine : is_delivered tables machine [] none old_rows 9 ≡ true
unfolding settle iter_new_rules expanded_rules in_scope flat_map rule_product machine_rules
    changed_rules order_by_sha256 join_targets cleanup acknowledge
delivered_nine = refl

unacknowledged_resent_example : is_pending tables machine [] (settle 5 none first.0.rows) 9 ≡ true
unacknowledged_resent_example =
    unacknowledged_resent tables machine [] none "x" old_rows first.0 first.1 refl unique 9
      delivered_nine

download_complete_example :
    (rows : List MachineRule) × (download
        (suc (length (pending_rules tables machine [] (settle 5 none old_rows))))
        tables
        machine
        []
        cursor_text
        0
        none
        old_rows
      ≡ some rows)
    × ((t : ℕ) → IsDone (wanted t (expanded_rules tables machine [])) (row_of 5 t rows))
download_complete_example =
    download_complete tables machine [] cursor_text refl one_each (omega arith) cursors none
      old_rows unique (λ j. refl)

-- A rule on the binary 3 that the bundle has too, with another policy.
abbrev conflicting : Tables
conflicting = record tables { rules = plain_rule 3 blocklist ∷ plain_rule 2 allowlist ∷ [] }

expanded_conflicting :
    expanded_rules conflicting machine []
    ≡ asked 3 blocklist none none
      ∷ asked 3 allowlist (some 2) (some 2)
      ∷ asked 4 allowlist (some 2) (some 2)
      ∷ []
unfolding expanded_rules in_scope flat_map
expanded_conflicting = refl

conflict_never_ends_example :
    download 1000 conflicting machine [] cursor_text 0 none old_rows ≡ none
conflict_never_ends_example =
    conflict_never_ends conflicting machine [] 3 blocklist 1 allowlist 1 (rw expanded_conflicting)
      (rw expanded_conflicting) refl (omega arith) 1000 cursor_text 0 none old_rows unique

abbrev configuration : Configuration
configuration = record {
  client_mode = 2;
  batch_size = 50;
  full_sync_interval = 600;
  allowed_path_regex = "";
  blocked_path_regex = "^/tmp/";
  enable_bundles = true;
  enable_transitive_rules = false;
}

get_sync_server_config-keys_example :
    Returns
      (HasSettings configuration "a" "b" (is_before_1_14 (1 ∷ 13 ∷ [])))
      (get_sync_server_config configuration "a" "b" (some (1 ∷ 13 ∷ [])))
get_sync_server_config-keys_example =
    get_sync_server_config-keys configuration "a" "b" (1 ∷ 13 ∷ []) (inr refl)
