-- ===== src/Santa/Enrollments/Preflight.antt =====
-- The preflight of a sync in zentral/contrib/santa/views.py.
use zentral.Base.{
  Bool, Option, String, any, false, inl, inr, none, not, select, some, true, ℕ, ◌==◌, ◌⊎◌, nat_eq,
  string_eq, option_eq,
}
use zentral.Santa.Changes.{MachineRule}
use zentral.Santa.Enrollments.{
  Client, PreflightData, SyncTables, Machine, Denied, set_machine, get_enrolled_machine_defaults,
  enroll_machine, get_enrolled_machine,
}

-- `PreflightView.get_enrolled_machine`: a known machine is updated, another one is enrolled.
unfoldable pub get_or_enroll :
    (String → String)
    → ℕ
    → Client
    → PreflightData
    → SyncTables
    → Denied ⊎ Option Machine
    → Denied ⊎ (Machine × SyncTables)
get_or_enroll strip now c d tables (inl denied) = inl denied
get_or_enroll strip now c d tables (inr none) = enroll_machine strip now c d tables
get_or_enroll strip now c d tables (inr (some m)) =
    let new : Machine = record m { values = get_enrolled_machine_defaults strip d } in
    inr (new, record tables { machines = set_machine new tables.machines })

abbrev pub is_rule_of_machine : ℕ → MachineRule → Bool
is_rule_of_machine pk r = r.enrolled_machine == pk

pub record PreflightAnswer : Type 0 where
  pub machine : Machine
  pub clean_sync : Bool
  pub tables : SyncTables

abbrev pub respond_if : Bool → Machine → SyncTables → PreflightAnswer
respond_if true m tables = record {
  machine = m;
  clean_sync = true;
  tables = record tables {
    machine_rules = select (λ r. not (is_rule_of_machine m.pk r)) tables.machine_rules;
  };
}
respond_if false m tables = record {
  machine = m;
  clean_sync = not (any (is_rule_of_machine m.pk) tables.machine_rules);
  tables = tables;
}

-- The end of `PreflightView.do_post`: is the sync clean?
unfoldable pub respond : PreflightData → Machine → SyncTables → PreflightAnswer
respond d m tables = respond_if d.request_clean_sync m tables

abbrev pub respond_to : PreflightData → Denied ⊎ (Machine × SyncTables) → Denied ⊎ PreflightAnswer
respond_to d (inl denied) = inl denied
respond_to d (inr found) = inr (respond d found.0 found.1)

-- `PreflightView.post`
unfoldable pub preflight :
    (String → String) → ℕ → Client → PreflightData → SyncTables → Denied ⊎ PreflightAnswer
preflight strip now c d tables =
    respond_to d (get_or_enroll strip now c d tables (get_enrolled_machine tables c))
